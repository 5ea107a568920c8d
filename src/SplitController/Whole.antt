-- ===== src/SplitController/Whole.antt =====
-- The first two steps of `Reconcile` of a split together (operator/controllers/split_controller.go): the config maps
-- that `syncConfigMaps` leaves are still there behind `syncDeployments`.
use oai_k8s.Common.{
  String, ◌≡◌, ◌≢◌, refl, ap, ◌∙◌, subst, Option, none, some, List, [], ◌∷◌, true, false, Memᴰ,
  str_dec,
}
use oai_k8s.Common.{ok, Action, >>=-eq-ok, with_context, with_context-eq-ok}
use oai_k8s.Common.Contracts.{
  always, Keeps, After-always, always-After, keeps_rules, Keeps-bind, Keeps-pure,
  Keeps-with_context,
}
use Prim.Native.String.{◌++◌ as ◌<>◌}
use text.Mathlib.Text.{starts_with}
use text.Mathlib.TextPositions.{starts_with-append}
use oai_k8s.Cluster.{ObjectKey, Split}
use oai_k8s.Cluster.Getters.{get_if_exists}
use oai_k8s.SplitController.Defs.{
  SplitPiece, cu, du, ru, piece_text, template_config_map, Deployment, SplitEnv,
  get_split_object_key,
}
use oai_k8s.SplitController.ConfigMaps.{
  operator_key, sync_templates, sync_values, sync_value, sync_config_maps,
}
use oai_k8s.SplitController.Deployments.{
  create_owned_deployment, deploy_unless_exists, sync_deployment, sync_deployments,
}
use oai_k8s.SplitController.Templates.Writing.{KeepsOthers}
use oai_k8s.SplitController.Templates.{Synced, sync_templates-Synced}
use oai_k8s.SplitController.Values.{KeepsConfigMaps}
use oai_k8s.SplitController.Values.Pieces.{KeepsWorld, Valued, sync_values-Valued, sync_value-apart}
use oai_k8s.SplitController.Deployed.{KeepsDeployments, Deployed, sync_deployments-Deployed}

-- No piece of a split has the name of a template.
template-ne-piece :
    (x y : SplitPiece) (rest : String) → template_config_map x ≢ piece_text y <> rest
unfolding str_dec
template-ne-piece cu cu rest e =
    let bad : false ≡ true = ap (λ s. starts_with s "cu") e ∙ starts_with-append "cu" rest in cc
template-ne-piece cu du rest e =
    let bad : false ≡ true = ap (λ s. starts_with s "du") e ∙ starts_with-append "du" rest in cc
template-ne-piece cu ru rest e =
    let bad : false ≡ true = ap (λ s. starts_with s "ru") e ∙ starts_with-append "ru" rest in cc
template-ne-piece du cu rest e =
    let bad : false ≡ true = ap (λ s. starts_with s "cu") e ∙ starts_with-append "cu" rest in cc
template-ne-piece du du rest e =
    let bad : false ≡ true = ap (λ s. starts_with s "du") e ∙ starts_with-append "du" rest in cc
template-ne-piece du ru rest e =
    let bad : false ≡ true = ap (λ s. starts_with s "ru") e ∙ starts_with-append "ru" rest in cc
template-ne-piece ru cu rest e =
    let bad : false ≡ true = ap (λ s. starts_with s "cu") e ∙ starts_with-append "cu" rest in cc
template-ne-piece ru du rest e =
    let bad : false ≡ true = ap (λ s. starts_with s "du") e ∙ starts_with-append "du" rest in cc
template-ne-piece ru ru rest e =
    let bad : false ≡ true = ap (λ s. starts_with s "ru") e ∙ starts_with-append "ru" rest in cc

template_key-ne :
    (owner : Split) (x y : SplitPiece) (namespace : String)
    → let k : ObjectKey = record { namespace = namespace; name = template_config_map x } in
      k ≢ get_split_object_key owner y
unfolding get_split_object_key
template_key-ne owner x y namespace e = template-ne-piece x y _ (ap (λ k. k.name) e)

module _ {World Selector Quantity : Type 0} (env : SplitEnv World Selector Quantity) where
  open env use {get_config_map, get_deployment, create_deployment, set_deployment_owner}

  -- A call that leaves the config maps alone.
  abbrev pub Leaves : {A : Type 0} → Action World A → Type 0
  Leaves m = (k : ObjectKey) (w : World) → (get_config_map k (m w).1).0 ≡ (get_config_map k w).0

  -- The calls for deployments write no config map.
  pub record LeavesConfigMaps : Type 0 where
    pub by_get : (k : ObjectKey) → Leaves (get_deployment k)
    pub by_owner : (o : Split) (d : Deployment Quantity) → Leaves (set_deployment_owner o d)
    pub by_create : (d : Deployment Quantity) → Leaves (create_deployment d)

  -- The config maps are those of another world.
  abbrev pub SameMaps : World → World → Type 0
  SameMaps w₀ w = (k : ObjectKey) → (get_config_map k w).0 ≡ (get_config_map k w₀).0

  Keeps-Leaves :
      {A : Type 0} (w₀ : World) (m : Action World A) → Leaves m → Keeps (always (SameMaps w₀)) m
  Keeps-Leaves w₀ m l = record {
    at = λ w h. always-After (SameMaps w₀) (m w).0 (m w).1 (λ k. l k w ∙ h k);
  }

  module _ (M : LeavesConfigMaps) (owner : Split) (w₀ : World) where
    deploy_unless_exists-Keeps :
        (split : SplitPiece) (found : Option (Deployment Quantity))
        → Keeps (always (SameMaps w₀)) (deploy_unless_exists env owner split found)
    unfolding create_owned_deployment
    deploy_unless_exists-Keeps split (some d) = Keeps-pure (always (SameMaps w₀)) tt
    deploy_unless_exists-Keeps split none =
        search (keeps_rules, Keeps-Leaves w₀, M.by_owner, M.by_create)

    sync_deployment-Keeps :
        (split : SplitPiece) → Keeps (always (SameMaps w₀)) (sync_deployment env owner split)
    unfolding sync_deployment
    sync_deployment-Keeps split =
        let fetch =
          get_if_exists "error getting deployment"
            (get_deployment (get_split_object_key owner split)) in
        Keeps-bind (always (SameMaps w₀)) (with_context "error getting deployment" fetch)
          (deploy_unless_exists env owner split)
          (Keeps-with_context (always (SameMaps w₀)) "error getting deployment" fetch
            (Keeps-Leaves w₀ fetch (M.by_get (get_split_object_key owner split))))
          (deploy_unless_exists-Keeps split)

    sync_deployments-Keeps :
        (pieces : List SplitPiece)
        → Keeps (always (SameMaps w₀)) (sync_deployments env owner pieces)
    unfolding sync_deployments
    sync_deployments-Keeps [] = Keeps-pure (always (SameMaps w₀)) tt
    sync_deployments-Keeps (split ∷ rest) =
        Keeps-bind (always (SameMaps w₀)) (sync_deployment env owner split)
          (λ _. sync_deployments env owner rest) (sync_deployment-Keeps split)
          (λ _. sync_deployments-Keeps rest)

  -- A run of `syncDeployments` leaves the config maps as they were.
  pub sync_deployments-SameMaps :
      (M : LeavesConfigMaps) (owner : Split) (w w' : World)
      → sync_deployments env owner env.orders.deployments w ≡ (ok tt, w')
      → SameMaps w w'
  sync_deployments-SameMaps M owner w w' g =
      let run = sync_deployments env owner env.orders.deployments w in
      subst (λ x. SameMaps w x) (ap (λ x. x.1) g)
        (After-always (SameMaps w) run.0 run.1
          ((sync_deployments-Keeps M owner w env.orders.deployments).at w (λ k. refl)))

  pub SameMaps-Synced :
      (namespace : String) (split : SplitPiece) (w w' : World)
      → SameMaps w w'
      → Synced env namespace split w
      → Synced env namespace split w'
  SameMaps-Synced namespace split w w' same s = record {
    source = s.source;
    target = s.target;
    shipped = same (operator_key env (template_config_map split)) ∙ s.shipped;
    copied = same (record { namespace = namespace; name = template_config_map split }) ∙ s.copied;
    same = s.same;
  }

  -- What a piece needs to run.
  pub record Provided (owner : Split) (split : SplitPiece) (w : World) : Type 0 where
    pub template : Synced env owner.key.namespace split w
    pub values : Valued env owner split w
    pub deployment : Deployed env (get_split_object_key owner split) w

  module _ (K : KeepsConfigMaps env) (O : KeepsOthers env) (T : KeepsWorld env)
      (owner : Split) where
    pub sync_values-Synced :
        (namespace : String) (split : SplitPiece) (pieces : List SplitPiece) (w w' : World)
        → sync_values env owner pieces w ≡ (ok tt, w')
        → Synced env namespace split w
        → Synced env namespace split w'
    unfolding sync_values
    sync_values-Synced namespace split [] w w' h s =
        subst (Synced env namespace split) (ap (λ x. x.1) h) s
    sync_values-Synced namespace split (first ∷ rest) w w' h s =
        let (u, w₁, e, g) =
          >>=-eq-ok (sync_value env owner first) (λ _. sync_values env owner rest) w h in
        let apart = sync_value-apart env K O T owner first w w₁ e in
        sync_values-Synced namespace split rest w₁ w' g (record {
          source = s.source;
          target = s.target;
          shipped =
              apart (operator_key env (template_config_map split))
                (template_key-ne owner split first _)
              ∙ s.shipped;
          copied =
              apart (record { namespace = namespace; name = template_config_map split })
                (template_key-ne owner split first namespace)
              ∙ s.copied;
          same = s.same;
        })

    -- With an API server that keeps what it was given: when `syncConfigMaps` and then `syncDeployments` succeed, each
    -- piece that their loops ranged over has, in the end, the template of the operator, a config map with a content
    -- of its own, and a deployment.
    pub sync_config_maps-Provided :
        (D : KeepsDeployments env) (M : LeavesConfigMaps) (w w₁ w' : World)
        → sync_config_maps env owner w ≡ (ok tt, w₁)
        → sync_deployments env owner env.orders.deployments w₁ ≡ (ok tt, w')
        → (split : SplitPiece) → Memᴰ split env.orders.templates
        → Memᴰ split env.orders.values
        → Memᴰ split env.orders.deployments
        → Provided owner split w'
    unfolding sync_config_maps
    sync_config_maps-Provided D M w w₁ w' h g split m₁ m₂ m₃ =
        let templates = sync_templates env owner.key.namespace env.orders.templates in
        let values = sync_values env owner env.orders.values in
        let (u, w₂, e₁, e₂) =
          >>=-eq-ok (with_context "error syncing template config maps" templates)
            (λ _. with_context "error syncing values config maps" values) w h in
        let first = with_context-eq-ok "error syncing template config maps" templates w e₁ in
        let second = with_context-eq-ok "error syncing values config maps" values w₂ e₂ in
        let same = sync_deployments-SameMaps M owner w₁ w' g in
        record {
          template = SameMaps-Synced owner.key.namespace split w₁ w' same (
              sync_values-Synced owner.key.namespace split env.orders.values w₂ w₁ second (
                sync_templates-Synced env K O owner.key.namespace env.orders.templates w w₂ first
                  split m₁));
          values =
              let (text, v, made, (cm, there, value)) =
                sync_values-Valued env K O T owner env.orders.values w₂ w₁ second split m₂ in
              (text, v, made, (cm, same (get_split_object_key owner split) ∙ there, value));
          deployment =
              (sync_deployments-Deployed env D owner env.orders.deployments w₁ w' g).0 split m₃;
        }
