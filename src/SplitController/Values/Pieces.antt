-- ===== src/SplitController/Values/Pieces.antt =====
-- `syncValuesConfigMap` (operator/controllers/split_controller.go) over all pieces of a split.
use oai_k8s.Common.{
  String, ◌≡◌, ◌≢◌, refl, ap, sym, ◌∙◌, subst, Option, none, some, List, [], ◌∷◌, true, false, ◌==◌,
  str_dec, get_or_empty, Memᴰ, ⊎_elim, ◌⊎◌,
}
use oai_k8s.Common.{ok, ◌>>=◌, >>=-eq-ok, with_context, with_context-eq-ok, Bool-cases, inl, inr}
use oai_k8s.Common.Dict.{insert}
use Prim.Native.String.{◌++◌ as ◌<>◌}
use text.Mathlib.TextLemmas.{append_cancel_right}
use mathlib.Core.List.Memᴰ
use oai_k8s.Cluster.{ObjectKey, ConfigMap, Split}
use oai_k8s.Cluster.Getters.{get_if_exists, absent_or-eq-some}
use oai_k8s.SplitController.Defs.{
  SplitPiece, cu, du, ru, piece_text, SplitEnv, get_split_object_key,
}
use oai_k8s.SplitController.ConfigMaps.{
  value_of, put_values, sync_value, sync_values, get_config_map_content,
}
use oai_k8s.SplitController.Templates.Writing.{KeepsOthers}
use oai_k8s.SplitController.Values.{KeepsConfigMaps, Holds, content-keeps, sync_value-Holds}

-- Different pieces have different names.
piece_text-cases :
    (x y : SplitPiece) (rest : String) → (x ≡ y) ⊎ (piece_text x <> rest ≢ piece_text y <> rest)
unfolding str_dec
piece_text-cases cu cu rest = inl refl
piece_text-cases cu du rest =
    inr (λ e.
      let bad : false ≡ true = ap (λ s. s == "du") (append_cancel_right "cu" "du" rest e) in cc)
piece_text-cases cu ru rest =
    inr (λ e.
      let bad : false ≡ true = ap (λ s. s == "ru") (append_cancel_right "cu" "ru" rest e) in cc)
piece_text-cases du cu rest =
    inr (λ e.
      let bad : false ≡ true = ap (λ s. s == "cu") (append_cancel_right "du" "cu" rest e) in cc)
piece_text-cases du du rest = inl refl
piece_text-cases du ru rest =
    inr (λ e.
      let bad : false ≡ true = ap (λ s. s == "ru") (append_cancel_right "du" "ru" rest e) in cc)
piece_text-cases ru cu rest =
    inr (λ e.
      let bad : false ≡ true = ap (λ s. s == "cu") (append_cancel_right "ru" "cu" rest e) in cc)
piece_text-cases ru du rest =
    inr (λ e.
      let bad : false ≡ true = ap (λ s. s == "du") (append_cancel_right "ru" "du" rest e) in cc)
piece_text-cases ru ru rest = inl refl

pub key-cases :
    (owner : Split) (x y : SplitPiece)
    → (x ≡ y) ⊎ (get_split_object_key owner x ≢ get_split_object_key owner y)
unfolding get_split_object_key
key-cases owner x y = ⊎_elim inl (λ n. inr (λ e. n (ap (λ k. k.name) e))) (piece_text-cases x y _)

module _ {World Selector Quantity : Type 0} (env : SplitEnv World Selector Quantity) where
  open env use {get_config_map, create_config_map, update_config_map, set_config_map_owner}

  -- ctrl.SetControllerReference writes the object only.
  pub record KeepsWorld : Type 0 where
    pub owner_local :
        (o : Split) (cm cm' : ConfigMap) (w w' : World)
        → set_config_map_owner o cm w ≡ (ok cm', w')
        → w' ≡ w

  -- The config map of a piece holds a content that was computed without an error.
  abbrev pub Valued : Split → SplitPiece → World → Type 0
  Valued owner split w =
      (text : String) × (v : World) × ((get_config_map_content env split owner v).0 ≡ ok text)
      × Holds env (get_split_object_key owner split) text w

  module _ (K : KeepsConfigMaps env) (O : KeepsOthers env) (T : KeepsWorld) (owner : Split) where
    put_values-apart :
        (key : ObjectKey) (text : String) (found : Option ConfigMap) (w w' : World)
        → ((cm : ConfigMap) → found ≡ some cm → (get_config_map key w).0 ≡ ok cm)
        → put_values env owner key text found w ≡ (ok tt, w')
        → (k : ObjectKey) → k ≢ key
        → (get_config_map k w').0 ≡ (get_config_map k w).0
    unfolding put_values
    put_values-apart key text (some cm) w w' was h k n =
        elim (Bool-cases (text == value_of "values" cm)) [
          | inl t ↦ ap (λ x. (get_config_map k x).0) (sym (ap (λ x. x.1) (rw t at h)))
          | inr f ↦
              let cm' : ConfigMap = record cm {
                content = some (insert "values" text (get_or_empty cm.content));
              } in
              O.update_apart cm' k w w'
                (with_context-eq-ok "error updating config map" (update_config_map cm') w
                  (rw f at h))
                (λ e. n (e ∙ K.get_finds key cm w (was cm refl)))
        ]
    put_values-apart key text none w w' was h k n =
        let fresh : ConfigMap = record { key = key; owners = []; content = none } in
        let filled = λ (cm : ConfigMap).
          let c : ConfigMap = record cm { content = some (insert "values" text []) } in c in
        let (cm, w₁, e, f) =
          >>=-eq-ok
            (with_context "error setting config map owner reference"
              (set_config_map_owner owner fresh))
            (λ cm. with_context "error creating config map" (create_config_map (filled cm))) w h in
        let owned =
          with_context-eq-ok "error setting config map owner reference"
            (set_config_map_owner owner fresh) w e in
        O.create_apart (filled cm) k w₁ w'
          (with_context-eq-ok "error creating config map" (create_config_map (filled cm)) w₁ f)
          (λ x. n (x ∙ K.owner_keeps owner fresh cm w w₁ owned))
        ∙ ap (λ x. (get_config_map k x).0) (T.owner_local owner fresh cm w w₁ owned)

    pub sync_value-apart :
        (split : SplitPiece) (w w' : World)
        → sync_value env owner split w ≡ (ok tt, w')
        → (k : ObjectKey) → k ≢ get_split_object_key owner split
        → (get_config_map k w').0 ≡ (get_config_map k w).0
    unfolding sync_value
    sync_value-apart split w w' h k n =
        let key = get_split_object_key owner split in
        let fetch =
          with_context "error getting config map"
            (get_if_exists "error getting config map" (get_config_map key)) in
        let content =
          with_context "error getting config map content"
            (get_config_map_content env split owner) in
        let (found, w₁, e₁, h₁) =
          >>=-eq-ok fetch (λ found. content >>= λ text. put_values env owner key text found) w h in
        let back : w₁ ≡ w = sym (ap (λ x. x.1) e₁) ∙ K.get_reads key w in
        let (text, w₂, e₂, h₂) =
          >>=-eq-ok content (λ text. put_values env owner key text found) w₁ h₁ in
        let read =
          with_context-eq-ok "error getting config map content"
            (get_config_map_content env split owner) w₁ e₂ in
        let back₂ : w₂ ≡ w = sym (ap (λ x. x.1) read) ∙ content-keeps env K owner split w₁ ∙ back in
        put_values-apart key text found w w'
          (λ cm f.
            absent_or-eq-some "error getting config map" "error getting config map" _
              (ap (λ x. x.0) e₁ ∙ ap ok f))
          (subst (λ x. put_values env owner key text found x ≡ (ok tt, w')) back₂ h₂) k n

    sync_value-Valued :
        (split : SplitPiece) (w w' : World)
        → sync_value env owner split w ≡ (ok tt, w')
        → Valued owner split w'
    sync_value-Valued split w w' h =
        let (text, made, held) = sync_value-Holds env K owner split w w' h in (text, w, made, held)

    sync_value-keeps :
        (split other : SplitPiece) (w w' : World)
        → sync_value env owner split w ≡ (ok tt, w')
        → Valued owner other w
        → Valued owner other w'
    sync_value-keeps split other w w' h (text, v, made, (cm, there, value)) =
        elim (key-cases owner other split) [
          | inl e ↦ subst (λ p. Valued owner p w') (sym e) (sync_value-Valued split w w' h)
          | inr n ↦ (
            text,
            v,
            made,
            (cm, sync_value-apart split w w' h (get_split_object_key owner other) n ∙ there, value),
          )
        ]

    sync_values-keeps :
        (splits : List SplitPiece) (other : SplitPiece) (w w' : World)
        → sync_values env owner splits w ≡ (ok tt, w')
        → Valued owner other w
        → Valued owner other w'
    unfolding sync_values
    sync_values-keeps [] other w w' h s = subst (Valued owner other) (ap (λ x. x.1) h) s
    sync_values-keeps (split ∷ rest) other w w' h s =
        let (u, w₁, e, g) =
          >>=-eq-ok (sync_value env owner split) (λ _. sync_values env owner rest) w h in
        sync_values-keeps rest other w₁ w' g (sync_value-keeps split other w w₁ e s)

    -- With an API server that keeps what it was given: when `syncValuesConfigMap` succeeds, then the config map of every
    -- piece it ranged over holds a content of the piece that was computed without an error; the later
    -- pieces overwrite none of the earlier ones.
    pub sync_values-Valued :
        (splits : List SplitPiece) (w w' : World)
        → sync_values env owner splits w ≡ (ok tt, w')
        → (split : SplitPiece) → Memᴰ split splits
        → Valued owner split w'
    unfolding sync_values
    sync_values-Valued [] w w' h split m = absurd (Memᴰ.not-nil m)
    sync_values-Valued (first ∷ rest) w w' h split m =
        let (u, w₁, e, g) =
          >>=-eq-ok (sync_value env owner first) (λ _. sync_values env owner rest) w h in
        ⊎_elim
          (λ x.
            subst (λ p. Valued owner p w') (sym x)
              (sync_values-keeps rest first w₁ w' g (sync_value-Valued first w w₁ e)))
          (sync_values-Valued rest w₁ w' g split) (Memᴰ.cases_cons m)
