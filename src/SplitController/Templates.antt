-- ===== src/SplitController/Templates.antt =====
-- What `syncTemplatesConfigMap` (operator/controllers/split_controller.go) leaves in the config maps of the templates.
pub mod Writing
use oai_k8s.Common.{
  String, ◌≡◌, ◌≢◌, refl, ap, sym, ◌∙◌, subst, Option, none, some, List, [], ◌∷◌, true, false, ◌==◌,
  arith, str_dec, Memᴰ, ⊎_elim, ◌⊎◌,
}
use oai_k8s.Common.{
  Result, ok, err, panic, hang, out_of_fuel, ◌>>=◌, >>=-eq-ok, with_context, with_context-eq-ok,
  Bool-cases, Option-cases, inl, inr, lift, wrapped,
}
use oai_k8s.Common.Dict.{insert, lookup-insert_self}
use mathlib.Core.List.Memᴰ
use oai_k8s.Cluster.{ObjectKey, ConfigMap}
use oai_k8s.Cluster.Getters.{get_if_exists, absent_or-eq-some}
use oai_k8s.SplitController.Defs.{SplitPiece, cu, du, ru, template_config_map, SplitEnv}
use oai_k8s.SplitController.ConfigMaps.{
  operator_namespace, operator_key, value_of, assign, single, template_of, operator_template,
  put_template, sync_template, sync_templates,
}
use oai_k8s.SplitController.Values.{KeepsConfigMaps}
use oai_k8s.SplitController.Templates.Writing.{KeepsOthers, Written, sync_template-Written}

same_piece : (x y : SplitPiece) → (x ≡ y) ⊎ (template_config_map x ≢ template_config_map y)
unfolding str_dec
same_piece cu cu = inl refl
same_piece cu du = inr (λ e. let bad : false ≡ true = ap (λ s. s == "operator-du-template") e in cc)
same_piece cu ru = inr (λ e. let bad : false ≡ true = ap (λ s. s == "operator-ru-template") e in cc)
same_piece du cu = inr (λ e. let bad : false ≡ true = ap (λ s. s == "operator-cu-template") e in cc)
same_piece du du = inl refl
same_piece du ru = inr (λ e. let bad : false ≡ true = ap (λ s. s == "operator-ru-template") e in cc)
same_piece ru cu = inr (λ e. let bad : false ≡ true = ap (λ s. s == "operator-cu-template") e in cc)
same_piece ru du = inr (λ e. let bad : false ≡ true = ap (λ s. s == "operator-du-template") e in cc)
same_piece ru ru = inl refl

module _ {World Selector Quantity : Type 0} (env : SplitEnv World Selector Quantity) where
  open env use {get_config_map}

  -- The operator has a template for the piece, and the namespace has the same.
  pub record Synced (namespace : String) (split : SplitPiece) (w : World) : Type 0 where
    pub source : ConfigMap
    pub target : ConfigMap
    pub shipped : (get_config_map (operator_key env (template_config_map split)) w).0 ≡ ok source
    pub copied :
        (get_config_map (record { namespace = namespace; name = template_config_map split }) w).0
        ≡ ok target
    pub same : value_of "template" target ≡ value_of "template" source

  module _ (K : KeepsConfigMaps env) (O : KeepsOthers env) where
    module _ (namespace : String) where
      abbrev key_at : SplitPiece → ObjectKey
      key_at split = record { namespace = namespace; name = template_config_map split }

      sync_template-Synced :
          (split : SplitPiece) (w w' : World)
          → sync_template env namespace split w ≡ (ok tt, w')
          → Synced namespace split w'
      sync_template-Synced split w w' h =
          let (source, shipped, written) = sync_template-Written env K O namespace split w w' h in
          elim (str_dec namespace operator_namespace) [
            | yes e ↦ record {
              source = written.target;
              target = written.target;
              shipped =
                  subst
                    (λ n.
                      (get_config_map (record { namespace = n; name = template_config_map split })
                        w').0
                      ≡ ok written.target)
                    e written.there;
              copied = written.there;
              same = refl;
            }
            | no n ↦ record {
              source = source;
              target = written.target;
              shipped =
                  written.apart (operator_key env (template_config_map split))
                    (λ e. n (sym (ap (λ k. k.namespace) e)))
                  ∙ shipped;
              copied = written.there;
              same = written.holds;
            }
          ]

      sync_template-keeps :
          (split other : SplitPiece) (w w' : World)
          → sync_template env namespace split w ≡ (ok tt, w')
          → Synced namespace other w
          → Synced namespace other w'
      sync_template-keeps split other w w' h s =
          let (source, shipped, written) = sync_template-Written env K O namespace split w w' h in
          elim (same_piece other split) [
            | inl e ↦ subst (λ p. Synced namespace p w') (sym e) (sync_template-Synced split w w' h)
            | inr n ↦ record {
              source = s.source;
              target = s.target;
              shipped =
                  written.apart (operator_key env (template_config_map other))
                    (λ e. n (ap (λ k. k.name) e))
                  ∙ s.shipped;
              copied = written.apart (key_at other) (λ e. n (ap (λ k. k.name) e)) ∙ s.copied;
              same = s.same;
            }
          ]

      sync_templates-keeps :
          (splits : List SplitPiece) (other : SplitPiece) (w w' : World)
          → sync_templates env namespace splits w ≡ (ok tt, w')
          → Synced namespace other w
          → Synced namespace other w'
      unfolding sync_templates
      sync_templates-keeps [] other w w' h s = subst (Synced namespace other) (ap (λ x. x.1) h) s
      sync_templates-keeps (split ∷ rest) other w w' h s =
          let (u, w₁, e, g) =
            >>=-eq-ok (sync_template env namespace split) (λ _. sync_templates env namespace rest) w
              h in
          sync_templates-keeps rest other w₁ w' g (sync_template-keeps split other w w₁ e s)

      -- With an API server that keeps what it was given: when `syncTemplatesConfigMap` succeeds, then for every piece it
      -- ranged over the operator has a template, and the config map of the namespace holds the same.
      pub sync_templates-Synced :
          (splits : List SplitPiece) (w w' : World)
          → sync_templates env namespace splits w ≡ (ok tt, w')
          → (split : SplitPiece) → Memᴰ split splits
          → Synced namespace split w'
      unfolding sync_templates
      sync_templates-Synced [] w w' h split m = absurd (Memᴰ.not-nil m)
      sync_templates-Synced (first ∷ rest) w w' h split m =
          let (u, w₁, e, g) =
            >>=-eq-ok (sync_template env namespace first) (λ _. sync_templates env namespace rest) w
              h in
          ⊎_elim
            (λ x.
              subst (λ p. Synced namespace p w') (sym x)
                (sync_templates-keeps rest first w₁ w' g (sync_template-Synced first w w₁ e)))
            (sync_templates-Synced rest w₁ w' g split) (Memᴰ.cases_cons m)
