-- ===== src/SplitController/Deployed.antt =====
-- The deployments that `syncDeployments` (operator/controllers/split_controller.go) leaves.
use oai_k8s.Common.{◌≡◌, ap, sym, ◌∙◌, subst, Option, none, some, List, [], ◌∷◌, Memᴰ, ⊎_elim}
use oai_k8s.Common.{ok, >>=-eq-ok, with_context, with_context-eq-ok}
use mathlib.Core.List.Memᴰ
use oai_k8s.Cluster.{ObjectKey, Split}
use oai_k8s.Cluster.Getters.{get_if_exists, absent_or-eq-some}
use oai_k8s.SplitController.Defs.{SplitPiece, Deployment, SplitEnv, get_split_object_key}
use oai_k8s.SplitController.Deployments.{
  get_split_deployment, create_owned_deployment, deploy_unless_exists, sync_deployment,
  sync_deployments,
}

module _ {World Selector Quantity : Type 0} (env : SplitEnv World Selector Quantity) where
  open env use {get_deployment, create_deployment, set_deployment_owner}

  -- The behaviour of the API server that the creation of deployments relies on.
  pub record KeepsDeployments : Type 0 where
    pub get_reads : (k : ObjectKey) (w : World) → (get_deployment k w).1 ≡ w
    pub owner_keeps :
        (o : Split) (d d' : Deployment Quantity) (w w' : World)
        → set_deployment_owner o d w ≡ (ok d', w')
        → (d'.key ≡ d.key) × (w' ≡ w)
    pub create_adds :
        (d : Deployment Quantity) (w w' : World)
        → create_deployment d w ≡ (ok tt, w')
        → (d' : Deployment Quantity) × ((get_deployment d.key w').0 ≡ ok d')
    pub create_keeps :
        (d d' : Deployment Quantity) (k : ObjectKey) (w w' : World)
        → create_deployment d w ≡ (ok tt, w')
        → (get_deployment k w).0 ≡ ok d'
        → (d'' : Deployment Quantity) × ((get_deployment k w').0 ≡ ok d'')

  abbrev pub Deployed : ObjectKey → World → Type 0
  Deployed k w = (d : Deployment Quantity) × ((get_deployment k w).0 ≡ ok d)

  module _ (K : KeepsDeployments) (owner : Split) where
    found_cases :
        (split : SplitPiece) (w w₁ w' : World) (found : Option (Deployment Quantity))
        → with_context "error getting deployment"
            (get_if_exists "error getting deployment"
              (get_deployment (get_split_object_key owner split)))
            w
          ≡ (ok found, w₁)
        → deploy_unless_exists env owner split found w₁ ≡ (ok tt, w')
        → ((k : ObjectKey) → Deployed k w → Deployed k w₁)
        → Deployed (get_split_object_key owner split) w'
          × ((k : ObjectKey) → Deployed k w → Deployed k w')
    unfolding create_owned_deployment get_split_deployment
    found_cases split w w₁ w' (some x) e h was =
        let stays =
          λ (k : ObjectKey) (y : Deployed k w). subst (Deployed k) (ap (λ z. z.1) h) (was k y) in
        (
          stays (get_split_object_key owner split) (
            x,
            absent_or-eq-some "error getting deployment" "error getting deployment" _
                (ap (λ z. z.0) e),
          ),
          stays,
        )
    found_cases split w w₁ w' none e h was =
        let (d, w₂, e₂, h₂) =
          >>=-eq-ok
            (with_context "error setting config map owner reference"
              (set_deployment_owner owner (get_split_deployment env owner split)))
            (λ d. with_context "error creating deployment" (create_deployment d)) w₁ h in
        let (named, kept) = K.owner_keeps owner (get_split_deployment env owner split) d w₁ w₂ (
          with_context-eq-ok "error setting config map owner reference"
            (set_deployment_owner owner (get_split_deployment env owner split)) w₁ e₂) in
        let created = with_context-eq-ok "error creating deployment" (create_deployment d) w₂ h₂ in
        (
          subst (λ k. Deployed k w') named (K.create_adds d w₂ w' created),
          λ k y.
              let (s, z) = subst (Deployed k) (sym kept) (was k y) in
              K.create_keeps d s k w₂ w' created z,
        )

    sync_deployment-Deployed :
        (split : SplitPiece) (w w' : World)
        → sync_deployment env owner split w ≡ (ok tt, w')
        → Deployed (get_split_object_key owner split) w'
          × ((k : ObjectKey) → Deployed k w → Deployed k w')
    unfolding sync_deployment
    sync_deployment-Deployed split w w' h =
        let key = get_split_object_key owner split in
        let (found, w₁, e₁, h₁) =
          >>=-eq-ok
            (with_context "error getting deployment"
              (get_if_exists "error getting deployment" (get_deployment key)))
            (deploy_unless_exists env owner split) w h in
        let back = sym (K.get_reads key w) ∙ ap (λ x. x.1) e₁ in
        found_cases split w w₁ w' found e₁ h₁ (λ k e. subst (Deployed k) back e)

    -- With an API server that keeps what it was given: when `syncDeployments` succeeds, every piece that it ranged over has a deployment under the name
    -- of the piece and the split, in the namespace of the split, and no deployment is lost.
    pub sync_deployments-Deployed :
        (pieces : List SplitPiece) (w w' : World)
        → sync_deployments env owner pieces w ≡ (ok tt, w')
        → ((split : SplitPiece)
            → Memᴰ split pieces
            → Deployed (get_split_object_key owner split) w')
          × ((k : ObjectKey) → Deployed k w → Deployed k w')
    unfolding sync_deployments
    sync_deployments-Deployed [] w w' h =
        (λ split m. absurd (Memᴰ.not-nil m), λ k e. subst (Deployed k) (ap (λ x. x.1) h) e)
    sync_deployments-Deployed (split ∷ rest) w w' h =
        let (u, w₁, e₁, h₁) =
          >>=-eq-ok (sync_deployment env owner split) (λ _. sync_deployments env owner rest) w h in
        let (here, keeps) = sync_deployment-Deployed split w w₁ e₁ in
        let (there, keeps') = sync_deployments-Deployed rest w₁ w' h₁ in
        (
          λ r m.
              ⊎_elim
                (λ e.
                  keeps' (get_split_object_key owner r)
                    (subst (λ x. Deployed (get_split_object_key owner x) w₁) (sym e) here))
                (λ t. there r t) (Memᴰ.cases_cons m),
          λ k e. keeps' k (keeps k e),
        )
