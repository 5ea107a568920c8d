-- ===== src/SplitController/Templates/Writing.antt =====
-- One write of a template (operator/controllers/split_controller.go).
use oai_k8s.Common.{
  String, ◌≡◌, ◌≢◌, refl, ap, sym, ◌∙◌, subst, Option, none, some, [], true, ◌==◌, arith,
}
use oai_k8s.Common.{
  Result, ok, err, panic, hang, out_of_fuel, ◌>>=◌, >>=-eq-ok, with_context, with_context-eq-ok,
  Bool-cases, Option-cases, inl, inr, lift, wrapped,
}
use oai_k8s.Common.Dict.{insert, lookup-insert_self}
use oai_k8s.Cluster.{ObjectKey, ConfigMap}
use oai_k8s.Cluster.Getters.{get_if_exists, absent_or-eq-some}
use oai_k8s.SplitController.Defs.{SplitPiece, template_config_map, SplitEnv}
use oai_k8s.SplitController.ConfigMaps.{
  operator_key, value_of, assign, single, template_of, operator_template, put_template,
  sync_template,
}
use oai_k8s.SplitController.Values.{KeepsConfigMaps}

eq_of_test : (a b : String) → (a == b) ≡ true → a ≡ b
eq_of_test a b h = ground (arith, h)

module _ {World Selector Quantity : Type 0} (env : SplitEnv World Selector Quantity) where
  open env use {get_config_map, create_config_map, update_config_map}

  -- A write of a config map leaves the others alone.
  pub record KeepsOthers : Type 0 where
    pub create_apart :
        (cm : ConfigMap) (k : ObjectKey) (w w' : World)
        → create_config_map cm w ≡ (ok tt, w')
        → k ≢ cm.key
        → (get_config_map k w').0 ≡ (get_config_map k w).0
    pub update_apart :
        (cm : ConfigMap) (k : ObjectKey) (w w' : World)
        → update_config_map cm w ≡ (ok tt, w')
        → k ≢ cm.key
        → (get_config_map k w').0 ≡ (get_config_map k w).0

  -- The config map of that key has the template, and no other one has changed.
  pub record Written (key : ObjectKey) (text : String) (w w' : World) : Type 0 where
    pub target : ConfigMap
    pub there : (get_config_map key w').0 ≡ ok target
    pub holds : value_of "template" target ≡ text
    pub apart : (k : ObjectKey) → k ≢ key → (get_config_map k w').0 ≡ (get_config_map k w).0

  template_of-eq-ok :
      (context : String) (x : Result (Option ConfigMap) × World) (text : String) (w' : World)
      → template_of env context x ≡ (ok text, w')
      → (cm : ConfigMap) × (x ≡ (ok (some cm), w')) × (value_of "template" cm ≡ text)
  unfolding template_of
  template_of-eq-ok context (ok none, w) text w' h =
      let bad : ◌≡◌ {A = Result String} (err _) (ok text) = ap (λ x. x.0) h in cc
  template_of-eq-ok context (ok (some cm), w) text w' h =
      let e : ok (value_of "template" cm) ≡ ok text = ap (λ x. x.0) h in
      (
        cm,
        ap (λ x. (ok (some cm), x)) (ap (λ x. x.1) h),
        let f : value_of "template" cm ≡ text = cc in f,
      )
  template_of-eq-ok context (err e, w) text w' h =
      let bad : ◌≡◌ {A = Result String} (err _) (ok text) = ap (λ x. x.0) h in cc
  template_of-eq-ok context (panic, w) text w' h =
      let bad : ◌≡◌ {A = Result String} panic (ok text) = ap (λ x. x.0) h in cc
  template_of-eq-ok context (hang, w) text w' h =
      let bad : ◌≡◌ {A = Result String} hang (ok text) = ap (λ x. x.0) h in cc
  template_of-eq-ok context (out_of_fuel, w) text w' h =
      let bad : ◌≡◌ {A = Result String} out_of_fuel (ok text) = ap (λ x. x.0) h in cc

  assign-eq-ok :
      (text : String) (cm cm' : ConfigMap)
      → assign "template" text cm ≡ ok cm'
      → (cm'.key ≡ cm.key) × (value_of "template" cm' ≡ text)
  unfolding assign
  assign-eq-ok text cm cm' h = elim (Option-cases cm.content) [
    | inl n ↦ let bad = rw (n, assign) at h in cc
    | inr (d, e) ↦
        let filled : ConfigMap = record cm { content = some (insert "template" text d) } in
        let good : ok filled ≡ ok cm' = rw (e, assign) at h in
        let same : filled ≡ cm' = cc in
        subst (λ (x : ConfigMap). (x.key ≡ cm.key) × (value_of "template" x ≡ text)) same
          (refl, rw (lookup-insert_self "template" text d, value_of) refl)
  ]

  module _ (K : KeepsConfigMaps env) (O : KeepsOthers) where
    put_template-Written :
        (key : ObjectKey) (text : String) (found : Option ConfigMap) (w w' : World)
        → ((cm : ConfigMap) → found ≡ some cm → (get_config_map key w).0 ≡ ok cm)
        → put_template env key text found w ≡ (ok tt, w')
        → Written key text w w'
    unfolding put_template
    put_template-Written key text (some cm) w w' was h =
        elim (Bool-cases (value_of "template" cm == text)) [
          | inl t ↦
              let stays : w ≡ w' = ap (λ x. x.1) (rw t at h) in
              record {
                target = cm;
                there = subst (λ x. (get_config_map key x).0 ≡ ok cm) stays (was cm refl);
                holds = eq_of_test (value_of "template" cm) text t;
                apart = λ k n. ap (λ x. (get_config_map k x).0) (sym stays);
              }
          | inr f ↦
              let update = λ (cm' : ConfigMap).
                with_context "error updating config map" (update_config_map cm') in
              let (cm', w₁, e, g) =
                >>=-eq-ok (lift (assign "template" text cm)) update w (rw f at h) in
              let (named, filled) = assign-eq-ok text cm cm' (ap (λ x. x.0) e) in
              let made =
                with_context-eq-ok "error updating config map" (update_config_map cm') w
                  (subst (λ x. update cm' x ≡ (ok tt, w')) (sym (ap (λ x. x.1) e)) g) in
              let key_eq : cm'.key ≡ key = named ∙ K.get_finds key cm w (was cm refl) in
              record {
                target = cm';
                there =
                    subst (λ k. (get_config_map k w').0 ≡ ok cm') key_eq
                      (K.update_stores cm' w w' made);
                holds = filled;
                apart = λ k n. O.update_apart cm' k w w' made (λ e. n (e ∙ key_eq));
              }
        ]
    put_template-Written key text none w w' was h =
        let cm = single key "template" text in
        let made = with_context-eq-ok "error creating config map" (create_config_map cm) w h in
        record {
          target = cm;
          there = K.create_stores cm w w' made;
          holds = rw (lookup-insert_self "template" text [], value_of) refl;
          apart = λ k n. O.create_apart cm k w w' made n;
        }

    pub sync_template-Written :
        (namespace : String) (split : SplitPiece) (w w' : World)
        → sync_template env namespace split w ≡ (ok tt, w')
        → (source : ConfigMap) × ((get_config_map
              (operator_key env (template_config_map split))
              w).0
            ≡ ok source)
          × Written
              (record { namespace = namespace; name = template_config_map split })
              (value_of "template" source)
              w
              w'
    unfolding sync_template operator_template
    sync_template-Written namespace split w w' h =
        let name = template_config_map split in
        let key : ObjectKey = record { namespace = namespace; name = name } in
        let fetch =
          with_context "error getting config map"
            (get_if_exists "error getting config map" (get_config_map key)) in
        let (text, w₁, e₁, h₁) =
          >>=-eq-ok (operator_template env name)
            (λ text. fetch >>= λ found. put_template env key text found) w h in
        let (source, f₁, t₁) = template_of-eq-ok _ _ text w₁ e₁ in
        let back₁ : w₁ ≡ w = sym (ap (λ x. x.1) f₁) ∙ K.get_reads (operator_key env name) w in
        let (found, w₂, e₂, h₂) =
          >>=-eq-ok fetch (λ found. put_template env key text found) w₁ h₁ in
        let back₂ : w₂ ≡ w = sym (ap (λ x. x.1) e₂) ∙ K.get_reads key w₁ ∙ back₁ in
        let was : (cm : ConfigMap) → found ≡ some cm → (get_config_map key w).0 ≡ ok cm = λ cm f.
          subst (λ x. (get_config_map key x).0 ≡ ok cm) back₁
            (absent_or-eq-some "error getting config map" "error getting config map" _
              (ap (λ x. x.0) e₂ ∙ ap ok f)) in
        (
          source,
          absent_or-eq-some "" "error getting config map" _ (ap (λ x. wrapped "" x.0) f₁),
          put_template-Written key (value_of "template" source) found w w' was (
              subst (λ t. put_template env key t found w ≡ (ok tt, w')) (sym t₁)
                (subst (λ x. put_template env key text found x ≡ (ok tt, w')) back₂ h₂)),
        )
