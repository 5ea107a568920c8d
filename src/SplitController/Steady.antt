-- ===== src/SplitController/Steady.antt =====
-- Two runs of the first steps of `Reconcile` of a split (operator/controllers/split_controller.go): what the first one left, the
-- second one finds in order.
use oai_k8s.Common.{◌≡◌, refl, ap, sym, ◌∙◌, subst, List, [], ◌∷◌, Memᴰ, ⊎_elim}
use oai_k8s.Common.{ok, >>=-ok, >>=-eq-ok, with_context, with_context-eq-ok, inl, inr, wrapped}
use oai_k8s.Common.Contracts.{After-always}
use mathlib.Core.List.Memᴰ
use oai_k8s.Cluster.{Split}
use oai_k8s.SplitController.Defs.{SplitPiece, SplitEnv, get_split_object_key}
use oai_k8s.SplitController.ConfigMaps.{sync_templates, sync_value, sync_values, sync_config_maps}
use oai_k8s.SplitController.Deployments.{sync_deployments}
use oai_k8s.SplitController.Templates.Writing.{KeepsOthers}
use oai_k8s.SplitController.Templates.{sync_templates-Synced}
use oai_k8s.SplitController.Values.{KeepsConfigMaps, sync_value-Holds}
use oai_k8s.SplitController.Values.Pieces.{KeepsWorld, sync_value-apart, key-cases}
use oai_k8s.SplitController.Deployed.{KeepsDeployments, sync_deployments-Deployed}
use oai_k8s.SplitController.Whole.{
  LeavesConfigMaps, SameMaps-Synced, sync_values-Synced, sync_deployments-SameMaps,
}
use oai_k8s.SplitController.Listing.{
  KeepsPods, SamePods, content-same, sync_value-Keeps, sync_deployments-Keeps,
}
use oai_k8s.SplitController.Again.{
  Current, sync_deployments-again, sync_templates-again, sync_values-again, Current-moved,
}

module _ {World Selector Quantity : Type 0} (env : SplitEnv World Selector Quantity) where
  open env use {get_config_map, get_deployment}

  module _ (K : KeepsConfigMaps env) where
    module _ (O : KeepsOthers env) (T : KeepsWorld env) (P : KeepsPods env) (owner : Split) where
      sync_value-SamePods :
          (split : SplitPiece) (w w' : World)
          → sync_value env owner split w ≡ (ok tt, w')
          → SamePods env w w'
      sync_value-SamePods split w w' h =
          let run = sync_value env owner split w in
          subst (SamePods env w) (ap (λ x. x.1) h) (
            After-always (SamePods env w) run.0 run.1
              ((sync_value-Keeps env K P w owner split).at w (λ n s. refl)))

      sync_value-Current :
          (split : SplitPiece) (w w' : World)
          → sync_value env owner split w ≡ (ok tt, w')
          → Current env owner split w'
      sync_value-Current split w w' h =
          let (text, made, held) = sync_value-Holds env K owner split w w' h in
          record {
            text = text;
            made = content-same env K split owner w w' (sync_value-SamePods split w w' h) ∙ made;
            held = held;
          }

      sync_value-keeps :
          (split other : SplitPiece) (w w' : World)
          → sync_value env owner split w ≡ (ok tt, w')
          → Current env owner other w
          → Current env owner other w'
      sync_value-keeps split other w w' h c = elim (key-cases owner other split) [
        | inl e ↦ subst (λ p. Current env owner p w') (sym e) (sync_value-Current split w w' h)
        | inr n ↦
            Current-moved env K owner other w w' (sync_value-SamePods split w w' h)
              (sync_value-apart env K O T owner split w w' h (get_split_object_key owner other) n) c
      ]

      sync_values-keeps :
          (pieces : List SplitPiece) (other : SplitPiece) (w w' : World)
          → sync_values env owner pieces w ≡ (ok tt, w')
          → Current env owner other w
          → Current env owner other w'
      unfolding sync_values
      sync_values-keeps [] other w w' h c = subst (Current env owner other) (ap (λ x. x.1) h) c
      sync_values-keeps (split ∷ rest) other w w' h c =
          let (u, w₁, e, g) =
            >>=-eq-ok (sync_value env owner split) (λ _. sync_values env owner rest) w h in
          sync_values-keeps rest other w₁ w' g (sync_value-keeps split other w w₁ e c)

      sync_values-Current :
          (pieces : List SplitPiece) (w w' : World)
          → sync_values env owner pieces w ≡ (ok tt, w')
          → (split : SplitPiece) → Memᴰ split pieces
          → Current env owner split w'
      unfolding sync_values
      sync_values-Current [] w w' h split m = absurd (Memᴰ.not-nil m)
      sync_values-Current (first ∷ rest) w w' h split m =
          let (u, w₁, e, g) =
            >>=-eq-ok (sync_value env owner first) (λ _. sync_values env owner rest) w h in
          ⊎_elim
            (λ x.
              subst (λ p. Current env owner p w') (sym x)
                (sync_values-keeps rest first w₁ w' g (sync_value-Current first w w₁ e)))
            (sync_values-Current rest w₁ w' g split) (Memᴰ.cases_cons m)

      -- With an API server that keeps what it was given, and pods that stay as they are: when `syncConfigMaps` and then
      -- `syncDeployments` succeed, both succeed once more in the world that they left, and change nothing there.
      pub sync_config_maps_again :
          (D : KeepsDeployments env) (M : LeavesConfigMaps env) (w w₁ w' : World)
          → sync_config_maps env owner w ≡ (ok tt, w₁)
          → sync_deployments env owner env.orders.deployments w₁ ≡ (ok tt, w')
          → (sync_config_maps env owner w' ≡ (ok tt, w'))
            × (sync_deployments env owner env.orders.deployments w' ≡ (ok tt, w'))
      unfolding sync_config_maps
      sync_config_maps_again D M w w₁ w' h g =
          let namespace = owner.key.namespace in
          let templates = sync_templates env namespace env.orders.templates in
          let values = sync_values env owner env.orders.values in
          let (u, w₂, e₁, e₂) =
            >>=-eq-ok (with_context "error syncing template config maps" templates)
              (λ _. with_context "error syncing values config maps" values) w h in
          let first = with_context-eq-ok "error syncing template config maps" templates w e₁ in
          let second = with_context-eq-ok "error syncing values config maps" values w₂ e₂ in
          let same = sync_deployments-SameMaps env M owner w₁ w' g in
          let run = sync_deployments env owner env.orders.deployments w₁ in
          let pods : SamePods env w₁ w' = subst (SamePods env w₁) (ap (λ x. x.1) g) (
            After-always (SamePods env w₁) run.0 run.1 (
              (sync_deployments-Keeps env K P w₁ owner env.orders.deployments).at w₁
                (λ n s. refl))) in
          let third : templates w' ≡ (ok tt, w') =
            sync_templates-again env K namespace env.orders.templates w' (λ split m.
              SameMaps-Synced env namespace split w₁ w' same (
                sync_values-Synced env K O T owner namespace split env.orders.values w₂ w₁ second (
                  sync_templates-Synced env K O namespace env.orders.templates w w₂ first split
                    m))) in
          let fourth : values w' ≡ (ok tt, w') =
            sync_values-again env K owner env.orders.values w' (λ split m.
              Current-moved env K owner split w₁ w' pods (same (get_split_object_key owner split))
                (sync_values-Current env.orders.values w₂ w₁ second split m)) in
          (
            >>=-ok (with_context "error syncing template config maps" templates)
                  (λ _. with_context "error syncing values config maps" values) w'
                  (ap (λ p. (wrapped "error syncing template config maps" p.0, p.1)) third)
                ∙ ap (λ p. (wrapped "error syncing values config maps" p.0, p.1)) fourth,
            sync_deployments-again env D owner env.orders.deployments w'
                (sync_deployments-Deployed env D owner env.orders.deployments w₁ w' g).0,
          )
