-- ===== src/SplitController/Values.antt =====
-- What `syncValuesConfigMap` leaves in the config maps of the pieces.
pub mod Pieces
use oai_k8s.Common.{
  String, ◌≡◌, refl, ap, sym, ◌∙◌, subst, Option, none, some, List, [], true, ◌==◌, arith,
  get_or_empty,
}
use oai_k8s.Common.{
  ok, ◌>>=◌, >>=-eq-ok, >>=-keeps, with_context, with_context-eq-ok, Bool-cases, inl, inr, pure,
  lift, wrapped,
}
use oai_k8s.Common.Dict.{Dict, insert, lookup-insert_self}
use oai_k8s.Cluster.{ObjectKey, ConfigMap, Split}
use oai_k8s.Cluster.Getters.{get_if_exists, absent_or-eq-some}
use oai_k8s.SplitController.Defs.{SplitPiece, cu, du, ru, SplitEnv, get_split_object_key}
use oai_k8s.SplitController.Pods.{get_pod, only_pod, label_text}
use oai_k8s.SplitController.ConfigMaps.{
  value_of, put_values, sync_value, get_config_map_content, address, pod_address, cu_text, du_text,
  ru_text,
}

eq_of_test : (a b : String) → (a == b) ≡ true → b ≡ a
eq_of_test a b h = ground (arith, h)

module _ {World Selector Quantity : Type 0} (env : SplitEnv World Selector Quantity) where
  open env use {
    get_config_map, create_config_map, update_config_map, set_config_map_owner, list_pods,
  }

  -- The behaviour of the API server that the values rely on.
  pub record KeepsConfigMaps : Type 0 where
    pub get_reads : (k : ObjectKey) (w : World) → (get_config_map k w).1 ≡ w
    pub list_reads : (n : String) (s : Selector) (w : World) → (list_pods n s w).1 ≡ w
    pub get_finds :
        (k : ObjectKey) (cm : ConfigMap) (w : World) → (get_config_map k w).0 ≡ ok cm → cm.key ≡ k
    pub owner_keeps :
        (o : Split) (cm cm' : ConfigMap) (w w' : World)
        → set_config_map_owner o cm w ≡ (ok cm', w')
        → cm'.key ≡ cm.key
    pub create_stores :
        (cm : ConfigMap) (w w' : World)
        → create_config_map cm w ≡ (ok tt, w')
        → (get_config_map cm.key w').0 ≡ ok cm
    pub update_stores :
        (cm : ConfigMap) (w w' : World)
        → update_config_map cm w ≡ (ok tt, w')
        → (get_config_map cm.key w').0 ≡ ok cm

  -- The config map of that key has the text under "values".
  abbrev pub Holds : ObjectKey → String → World → Type 0
  Holds k text w =
      (cm : ConfigMap) × ((get_config_map k w).0 ≡ ok cm) × (value_of "values" cm ≡ text)

  module _ (K : KeepsConfigMaps) (owner : Split) where
    pub get_pod-keeps : (split : SplitPiece) (w : World) → (get_pod env owner split w).1 ≡ w
    unfolding get_pod
    get_pod-keeps split w =
        let pods_of = λ (selector : Selector).
          get_if_exists "error getting pods" (list_pods owner.key.namespace selector) in
        >>=-keeps
          (lift (
            wrapped "error getting label selector" (env.parse_labels (label_text env owner split))))
          (λ selector. pods_of selector >>= λ pods. lift (only_pod pods)) w refl
          (λ selector.
            >>=-keeps (pods_of selector) (λ pods. lift (only_pod pods)) w
              (K.list_reads owner.key.namespace selector w) (λ pods. refl))

    address-keeps :
        (c : String) (split : SplitPiece) (w : World) → (address env c owner split w).1 ≡ w
    unfolding address
    address-keeps c split w =
        >>=-keeps (with_context c (get_pod env owner split)) (λ pod. pure (pod_address pod)) w
          (get_pod-keeps split w) (λ pod. refl)

    -- Two or three addresses and a text made of them.
    two-keeps :
        (c d : String) (p q : SplitPiece) (f : String → String → String) (w : World)
        → (◌>>=◌ (address env c owner p) (λ a. address env d owner q >>= λ b. pure (f a b)) w).1 ≡ w
    two-keeps c d p q f w =
        >>=-keeps (address env c owner p) (λ a. address env d owner q >>= λ b. pure (f a b)) w
          (address-keeps c p w)
          (λ a.
            >>=-keeps (address env d owner q) (λ b. pure (f a b)) w (address-keeps d q w)
              (λ b. refl))

    pub content-keeps :
        (split : SplitPiece) (w : World) → (get_config_map_content env split owner w).1 ≡ w
    unfolding get_config_map_content
    content-keeps cu w =
        two-keeps "error getting CU config map content from cu pod"
          "error getting CU config map content from du pod" cu du (cu_text owner) w
    content-keeps du w =
        >>=-keeps (address env "error getting DU config map content from cu pod" owner cu)
          (λ a. address env "error getting DU config map content from du pod" owner du >>= λ b.
            address env "error getting DU config map content from ru pod" owner ru >>= λ c.
            pure (du_text a b c))
          w (address-keeps "error getting DU config map content from cu pod" cu w)
          (λ a.
            two-keeps "error getting DU config map content from du pod"
              "error getting DU config map content from ru pod" du ru (du_text a) w)
    content-keeps ru w =
        two-keeps "error getting RU config map content from du pod"
          "error getting RU config map content from ru pod" du ru ru_text w

    values_insert :
        (text : String) (d : Dict String) (k : ObjectKey) (owners : List String)
        → let cm : ConfigMap = record {
          key = k;
          owners = owners;
          content = some (insert "values" text d);
        } in
          value_of "values" cm ≡ text
    values_insert text d k owners = rw (lookup-insert_self "values" text d, value_of) refl

    put_values-Holds :
        (k : ObjectKey) (text : String) (found : Option ConfigMap) (w w' : World)
        → ((cm : ConfigMap) → found ≡ some cm → (get_config_map k w).0 ≡ ok cm)
        → put_values env owner k text found w ≡ (ok tt, w')
        → Holds k text w'
    unfolding put_values
    put_values-Holds k text (some cm) w w' was h =
        elim (Bool-cases (text == value_of "values" cm)) [
          | inl t ↦ (
            cm,
            subst (λ x. (get_config_map k x).0 ≡ ok cm) (ap (λ x. x.1) (rw t at h)) (was cm refl),
            eq_of_test text (value_of "values" cm) t,
          )
          | inr f ↦
              let cm' : ConfigMap = record cm {
                content = some (insert "values" text (get_or_empty cm.content));
              } in
              let stored = K.update_stores cm' w w' (
                with_context-eq-ok "error updating config map" (update_config_map cm') w
                  (rw f at h)) in
              (
                cm',
                subst (λ x. (get_config_map x w').0 ≡ ok cm') (K.get_finds k cm w (was cm refl))
                    stored,
                values_insert text (get_or_empty cm.content) cm.key cm.owners,
              )
        ]
    put_values-Holds k text none w w' was h =
        let fresh : ConfigMap = record { key = k; owners = []; content = none } in
        let filled = λ (cm : ConfigMap).
          let c : ConfigMap = record cm { content = some (insert "values" text []) } in c in
        let (cm, w₁, e, f) =
          >>=-eq-ok
            (with_context "error setting config map owner reference"
              (set_config_map_owner owner fresh))
            (λ cm. with_context "error creating config map" (create_config_map (filled cm))) w h in
        let named = K.owner_keeps owner fresh cm w w₁ (
          with_context-eq-ok "error setting config map owner reference"
            (set_config_map_owner owner fresh) w e) in
        let stored =
          K.create_stores (filled cm) w₁ w'
            (with_context-eq-ok "error creating config map" (create_config_map (filled cm)) w₁ f) in
        (
          filled cm,
          subst (λ x. (get_config_map x w').0 ≡ ok (filled cm)) named stored,
          values_insert text [] cm.key cm.owners,
        )

    -- With an API server that keeps what it was given: when the synchronisation of the values of a piece
    -- succeeds, its content was computed without error, and the config map of the piece holds it.
    pub sync_value-Holds :
        (split : SplitPiece) (w w' : World)
        → sync_value env owner split w ≡ (ok tt, w')
        → (text : String) × ((get_config_map_content env split owner w).0 ≡ ok text)
          × Holds (get_split_object_key owner split) text w'
    unfolding sync_value
    sync_value-Holds split w w' h =
        let key = get_split_object_key owner split in
        let content =
          with_context "error getting config map content"
            (get_config_map_content env split owner) in
        let (found, w₁, e₁, h₁) =
          >>=-eq-ok
            (with_context "error getting config map"
              (get_if_exists "error getting config map" (get_config_map key)))
            (λ found. content >>= λ text. put_values env owner key text found) w h in
        let back : w₁ ≡ w = sym (ap (λ x. x.1) e₁) ∙ K.get_reads key w in
        let (text, w₂, e₂, h₂) =
          >>=-eq-ok content (λ text. put_values env owner key text found) w₁ h₁ in
        let read =
          with_context-eq-ok "error getting config map content"
            (get_config_map_content env split owner) w₁ e₂ in
        let back₂ : w₂ ≡ w = sym (ap (λ x. x.1) read) ∙ content-keeps split w₁ ∙ back in
        (
          text,
          subst (λ x. (get_config_map_content env split owner x).0 ≡ ok text) back
              (ap (λ x. x.0) read),
          put_values-Holds key text found w₂ w'
              (λ cm f.
                subst (λ x. (get_config_map key x).0 ≡ ok cm) (sym back₂)
                  (absent_or-eq-some "error getting config map" "error getting config map" _
                    (ap (λ x. x.0) e₁ ∙ ap ok f)))
              h₂,
        )
