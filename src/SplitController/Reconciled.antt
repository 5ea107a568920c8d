-- ===== src/SplitController/Reconciled.antt =====
-- A run of `Reconcile` of a split as a whole (operator/controllers/split_controller.go).
use oai_k8s.Common.{String, ◌≡◌, ◌≢◌, refl, ap, sym, ◌∙◌, subst, Option, true, false, Memᴰ}
use oai_k8s.Common.{
  Result, ok, err, panic, hang, out_of_fuel, Error, not_found, message, node_short, link_short,
  wrap, wrap_nil, Action, ◌>>◌, >>=-eq-ok, with_context, with_context-eq-ok, pure,
}
use oai_k8s.Common.Contracts.{After-always}
use oai_k8s.Cluster.{ObjectKey, Split}
use oai_k8s.Cluster.Getters.{ignore_not_found}
use oai_k8s.Placer.Defs.{ReconcileResult}
use oai_k8s.SplitController.Defs.{SplitPiece, SplitEnv, Pod}
use oai_k8s.SplitController.Pods.{
  SplitSession, split_client, note_event, sync_status, observe, send_status,
}
use oai_k8s.SplitController.ConfigMaps.{sync_config_maps}
use oai_k8s.SplitController.Deployments.{sync_deployments}
use oai_k8s.SplitController.Reconcile.{again, settled, reporting, reconcile_split, reconcile}
use oai_k8s.SplitController.Templates.Writing.{KeepsOthers}
use oai_k8s.SplitController.Values.{KeepsConfigMaps}
use oai_k8s.SplitController.Values.Pieces.{KeepsWorld}
use oai_k8s.SplitController.Deployed.{KeepsDeployments}
use oai_k8s.SplitController.Observed.{Observed, observe-status}
use oai_k8s.SplitController.Whole.{LeavesConfigMaps, Provided, sync_config_maps-Provided}
use oai_k8s.SplitController.Untouched.{
  Same, LeavesObjects, Same-trans, Same-Provided, SameSession, note_event-Same, observe-Keeps,
}

module _ {World Selector Quantity : Type 0} (env : SplitEnv World Selector Quantity) where
  open env use {
    get_split, update_split_status, get_config_map, get_deployment, record_event, orders,
  }

  send_status-eq-ok :
      (s s' : SplitSession World)
      → send_status env s ≡ (ok tt, s')
      → (answer : Split) × (update_split_status s.object s.world ≡ (ok answer, s'.world))
  unfolding send_status
  send_status-eq-ok s s' h = go (update_split_status s.object s.world) refl
    where
      go :
          (p : Result Split × World)
          → update_split_status s.object s.world ≡ p
          → (answer : Split) × (update_split_status s.object s.world ≡ (ok answer, s'.world))
      go (ok a, w) e =
          let q : (update_split_status s.object s.world).1 ≡ s'.world =
            ap (λ x. x.1.world) (rw (ap (λ p. p.0) e, send_status) at h) in
          (a, λ i. ((e i).0, q i))
      go (err x, w) e =
          let bad : ◌≡◌ {A = Result (Unit {0})} (err x) (ok tt) =
            ap (λ y. y.0) (rw (e, send_status) at h) in
          cc
      go (panic, w) e =
          let bad : ◌≡◌ {A = Result (Unit {0})} panic (ok tt) =
            ap (λ y. y.0) (rw (e, send_status) at h) in
          cc
      go (hang, w) e =
          let bad : ◌≡◌ {A = Result (Unit {0})} hang (ok tt) =
            ap (λ y. y.0) (rw (e, send_status) at h) in
          cc
      go (out_of_fuel, w) e =
          let bad : ◌≡◌ {A = Result (Unit {0})} out_of_fuel (ok tt) =
            ap (λ y. y.0) (rw (e, send_status) at h) in
          cc

  -- A call whose error is an event, and that succeeds.
  reporting-eq-ok :
      (reason : String) (m : Action World (Unit {0})) (s s' : SplitSession World) (u : Unit {0})
      → reporting env reason (split_client env m) s ≡ (ok u, s')
      → (m s.world ≡ (ok tt, s'.world)) × (s'.object ≡ s.object)
  reporting-eq-ok reason m s s' u h = go (m s.world) h
    where
      go :
          (p : Result (Unit {0}) × World)
          → reporting env reason (split_client env (λ _. p)) s ≡ (ok u, s')
          → (p ≡ (ok tt, s'.world)) × (s'.object ≡ s.object)
      go (ok x, w) e = (ap (λ z. (ok x, z)) (ap (λ y. y.1.world) e), sym (ap (λ y. y.1.object) e))
      go (err x, w) e = let bad : ◌≡◌ {A = Result (Unit {0})} (err x) (ok u) = ap (λ y. y.0) e in cc
      go (panic, w) e = let bad : ◌≡◌ {A = Result (Unit {0})} panic (ok u) = ap (λ y. y.0) e in cc
      go (hang, w) e = let bad : ◌≡◌ {A = Result (Unit {0})} hang (ok u) = ap (λ y. y.0) e in cc
      go (out_of_fuel, w) e =
          let bad : ◌≡◌ {A = Result (Unit {0})} out_of_fuel (ok u) = ap (λ y. y.0) e in cc

  -- The loops meet every piece.
  pub record Covers : Type 0 where
    pub by_templates : (split : SplitPiece) → Memᴰ split orders.templates
    pub by_values : (split : SplitPiece) → Memᴰ split orders.values
    pub by_deployments : (split : SplitPiece) → Memᴰ split orders.deployments

  -- What a run leaves for the split `owner` in the world `w'`: what each piece needs, and a status, made of the pods that were
  -- listed, that the API server took.
  pub record Done (owner : Split) (w' : World) : Type 0 where
    pub provided : (split : SplitPiece) → Provided env owner split w'
    pub reported : Split
    pub cu_pod : Option Pod
    pub du_pod : Option Pod
    pub ru_pod : Option Pod
    pub cu_listed : World
    pub du_listed : World
    pub ru_listed : World
    pub observed : Observed env owner reported cu_pod du_pod ru_pod cu_listed du_listed ru_listed
    pub before : World
    pub answer : Split
    pub stored : (update_split_status reported before).0 ≡ ok answer

  module _ (K : KeepsConfigMaps env) (O : KeepsOthers env) (T : KeepsWorld env)
      (D : KeepsDeployments env) (M : LeavesConfigMaps env) (E : LeavesObjects env)
      (V : Covers) where
    reconcile_split-Done :
        (s s' : SplitSession World) (r : ReconcileResult)
        → reconcile_split env s ≡ (ok r, s')
        → Done s.object s'.world
    unfolding reconcile_split sync_status
    reconcile_split-Done s s' r h =
        let maps = reporting env "configmaps" (split_client env (sync_config_maps env s.object)) in
        let deploy =
          reporting env "pods"
            (split_client env (sync_deployments env s.object orders.deployments)) in
        let send = with_context "error updating status" (send_status env) in
        let note = note_event env "Normal" "Sync" "Synced successfully" in
        let (u, s₁, e₁, f₁) =
          >>=-eq-ok maps (λ _. deploy >> (sync_status env >> (note >> pure again))) s h in
        let (v, s₂, e₂, f₂) =
          >>=-eq-ok deploy (λ _. sync_status env >> (note >> pure again)) s₁ f₁ in
        let (x, s₄, e₃, f₃) = >>=-eq-ok (sync_status env) (λ _. note >> pure again) s₂ f₂ in
        let (y, s₃, e₄, e₅) = >>=-eq-ok (observe env) (λ _. send) s₂ e₃ in
        let (mapped, o₁) = reporting-eq-ok "configmaps" (sync_config_maps env s.object) s s₁ u e₁ in
        let (deployed, o₂) =
          reporting-eq-ok "pods" (sync_deployments env s.object orders.deployments) s₁ s₂ v e₂ in
        let (answer, updated) =
          send_status-eq-ok s₃ s₄
            (with_context-eq-ok "error updating status" (send_status env) s₃ e₅) in
        let (cu_pod, du_pod, ru_pod, w₁, w₂, w₃, seen) = observe-status env s₂ s₃ e₄ in
        let looked : Same env s₂.world s₃.world =
          subst (λ z. Same env s₂.world z.world) (ap (λ z. z.1) e₄)
            (After-always (SameSession env K E s₂.world) (observe env s₂).0 (observe env s₂).1
              ((observe-Keeps env K E s₂.world).at s₂ (λ k. refl, λ k. refl))) in
        let kept : Same env s₂.world s'.world =
          subst (λ z. Same env s₂.world z.world) (ap (λ z. z.1) f₃)
            (note_event-Same env K E s₂.world "Normal" "Sync" "Synced successfully" s₄ (
              subst (Same env s₂.world) (ap (λ z. z.1) updated) (
                Same-trans env s₂.world s₃.world (update_split_status s₃.object s₃.world).1 looked
                  (E.by_status s₃.object s₃.world)))) in
        record {
          provided = λ split. Same-Provided env s.object split s₂.world s'.world kept (
              sync_config_maps-Provided env K O T s.object D M s.world s₁.world s₂.world mapped
                deployed split (V.by_templates split) (V.by_values split) (V.by_deployments split));
          reported = s₃.object;
          cu_pod = cu_pod;
          du_pod = du_pod;
          ru_pod = ru_pod;
          cu_listed = w₁;
          du_listed = w₂;
          ru_listed = w₃;
          observed =
              subst (λ o. Observed env o s₃.object cu_pod du_pod ru_pod w₁ w₂ w₃) (o₂ ∙ o₁) seen;
          before = s₃.world;
          answer = answer;
          stored = ap (λ z. z.0) updated;
        }

    settled-ne-again : settled ≢ again
    settled-ne-again e = let bad : false ≡ true = ap (λ r. r.requeue) e in cc

    -- Where the split is not found, or the call fails, no new call is asked for.
    not_ignored : (x : Error) → ignore_not_found settled x ≢ ok again
    not_ignored not_found e = settled-ne-again (let f : settled ≡ again = cc in f)
    not_ignored (message t) e = cc
    not_ignored (node_short a b) e = cc
    not_ignored (link_short t) e = cc
    not_ignored (wrap t x) e = cc
    not_ignored (wrap_nil t) e = cc

    -- With an API server that keeps what it was given, and loops that meet every piece: a run of `Reconcile` that answers
    -- that it is to be called again found the split, each piece of it has in the end the template of the operator, a config map
    -- with a content of its own, and a deployment, and the server took a status that tells of the pods as they were listed.
    pub reconcile-Done :
        (key : ObjectKey) (w w' : World)
        → reconcile env key w ≡ (ok again, w')
        → (owner : Split) × ((get_split key w).0 ≡ ok owner) × Done owner w'
    unfolding reconcile
    reconcile-Done key w w' h = go (get_split key w) refl
      where
        go :
            (p : Result Split × World)
            → get_split key w ≡ p
            → (owner : Split) × ((get_split key w).0 ≡ ok owner) × Done owner w'
        go (ok owner, v) e =
            let f = rw (ap (λ p. p.0) e, reconcile) at h in
            let s : SplitSession World = record { world = (get_split key w).1; object = owner } in
            let run = reconcile_split env s in
            (
              owner,
              ap (λ p. p.0) e,
              subst (Done owner) (ap (λ x. x.1) f)
                  (reconcile_split-Done s run.1 again (λ i. ((f i).0, run.1))),
            )
        go (err x, v) e =
            absurd (not_ignored x (ap (λ y. y.0) (rw (ap (λ p. p.0) e, reconcile) at h)))
        go (panic, v) e =
            let bad : ◌≡◌ {A = Result ReconcileResult} panic (ok again) =
              ap (λ y. y.0) (rw (ap (λ p. p.0) e, reconcile) at h) in
            cc
        go (hang, v) e =
            let bad : ◌≡◌ {A = Result ReconcileResult} hang (ok again) =
              ap (λ y. y.0) (rw (ap (λ p. p.0) e, reconcile) at h) in
            cc
        go (out_of_fuel, v) e =
            let bad : ◌≡◌ {A = Result ReconcileResult} out_of_fuel (ok again) =
              ap (λ y. y.0) (rw (ap (λ p. p.0) e, reconcile) at h) in
            cc
