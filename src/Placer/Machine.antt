-- ===== src/Placer/Machine.antt =====
-- The states of a SplitsPlacer object (operator/controllers/splitsplacer_controller.go).
pub mod Kept
pub mod Stores
use oai_k8s.Common.{
  String, ◌≡◌, refl, sym, ap, ◌∙◌, subst, List, [], ◌∷◌, Bool, true, false, ◌==◌, Bool-cases, inl,
  inr, ◌⊎◌, ⊎_elim, ◌≢◌, str_dec, if◌then◌else◌,
}
use oai_k8s.Common.{
  Result, ok, err, panic, hang, out_of_fuel, Error, wrap, message, node_short, link_short,
  not_found, wrap_nil, Action, with_context, ◌>>=◌,
}
use oai_k8s.Common.Contracts.{always, Keeps, After-always, always-After, keeps_rules, Keeps-bind}
use oai_k8s.Common.Dict.{Dict}
use oai_k8s.Extern.{Platform}
use oai_k8s.Api.{Topology, Disaggregation}
use oai_k8s.Placement.State.{PlacementBfs}
use oai_k8s.Cluster.{ObjectKey, SplitsPlacer}
use oai_k8s.Placer.Defs.{
  PlacerEnv, Session, ReconcileResult, run_client, emit, update_status, send, receive,
}
use oai_k8s.Placer.Topology.{
  report_all, allocate, unless_invalid, sync_topology_at, sync_topology, place_chains,
  record_placement,
}
use oai_k8s.Placer.Reconcile.{
  try_status, finish, done, after_splits, after_topology, reconcile_object, fetched, reconcile,
}
use oai_k8s.Placer.Splits.{sync_splits}
use oai_k8s.Placer.Machine.Kept.{At, sync_topology-Keeps}
use oai_k8s.Placer.Machine.Stores.{
  StoresStatus, Stored, Refused, Reported, event-Reported, try_status-Reported,
}

-- An answer, and not the error of the update of the object.
abbrev pub Answered : Result ReconcileResult → Type 0
Answered (ok r) = Unit
Answered (err (wrap c e)) = (c == "error updating splits placer") ≡ false
Answered (err (message t)) = Unit
Answered (err (node_short x y)) = Unit
Answered (err (link_short t)) = Unit
Answered (err not_found) = Unit
Answered (err (wrap_nil t)) = Unit
Answered panic = ⊥
Answered hang = ⊥
Answered out_of_fuel = ⊥

module _ {P : Platform} {World : Type 0} (env : PlacerEnv P World) where
  open env use {client}

  -- What a run of `Reconcile` on an object without a state answers, and what becomes of the state.
  pub data Settles (k : ObjectKey) (r : Result ReconcileResult) (w : World) : Type 0 where
    finished : r ≡ ok (done env) → Reported env k "Finished" w → Settles k r w
    no_topology :
        (e : Error)
        → r ≡ err (wrap "error syncing topology" e)
        → Reported env k "Error" w
        → Settles k r w
    no_splits :
        (e : Error)
        → r ≡ err (wrap "error syncing splits" e)
        → Reported env k "Error" w
        → Settles k r w
    not_updated : (e : Error) → r ≡ err (wrap "error updating splits placer" e) → Settles k r w
    died : (r ≡ panic) ⊎ ((r ≡ hang) ⊎ (r ≡ out_of_fuel)) → Settles k r w

  module _ (K : StoresStatus env) (k : ObjectKey) where
    ended :
        (x : Result (Unit {0}) × Session World) (s : Session World)
        → (x.0 ≡ ok tt → At env k "" x.1)
        → let m : Action (Session World) ReconcileResult =
            with_context "error updating splits placer" (λ _. x) >>= λ u t.
            (ok (done env), try_status env "Finished" t) in
          Settles k (m s).0 (m s).1.world
    unfolding str_dec
    ended (ok u, t) s h = finished refl (try_status-Reported env K k "Finished" t (h refl) refl)
    ended (err e, t) s h = not_updated e refl
    ended (panic, t) s h = died (inl refl)
    ended (hang, t) s h = died (inr (inl refl))
    ended (out_of_fuel, t) s h = died (inr (inr refl))

    receive-At :
        (object : SplitsPlacer) (x : Result SplitsPlacer × World)
        → ((o : SplitsPlacer) (w : World) → x ≡ (ok o, w) → (o.key ≡ k) × (o.status.state ≡ ""))
        → (receive env object x).0 ≡ ok tt
        → At env k "" (receive env object x).1
    unfolding receive
    receive-At object (ok o, w) h e = h o w refl
    receive-At object (err x, w) h e = cc
    receive-At object (panic, w) h e = cc
    receive-At object (hang, w) h e = cc
    receive-At object (out_of_fuel, w) h e = cc

    finish-Settles :
        (s : Session World) → At env k "" s → Settles k (finish env s).0 (finish env s).1.world
    unfolding finish send
    finish-Settles s (named, state) =
        let w = client.record_event "Normal" "Sync" "Synced successfully" s.world in
        let status' = record (s.object.status) { allocation_time = env.elapsed s.world } in
        let object' = record (s.object) { status = status' } in
        let answer = client.update_splits_placer object' w in
        ended (receive env object' answer) (record { world = w; object = object' })
          (receive-At object' answer
            (λ o t e. let (x, y) = K.update_answers object' o w t e in (x ∙ named, y ∙ state)))

    after_splits-Settles :
        (x : Result (Unit {0}) × Session World)
        → At env k "" x.1
        → Settles k (after_splits env x).0 (after_splits env x).1.world
    unfolding after_splits str_dec
    after_splits-Settles (ok u, s) h = finish-Settles s h
    after_splits-Settles (err e, s) h =
        no_splits e refl (try_status-Reported env K k "Error" s h refl)
    after_splits-Settles (panic, s) h = died (inl refl)
    after_splits-Settles (hang, s) h = died (inr (inl refl))
    after_splits-Settles (out_of_fuel, s) h = died (inr (inr refl))

    after_topology-Settles :
        (x : Result (Unit {0}) × Session World)
        → At env k "" x.1
        → Settles k (after_topology env x).0 (after_topology env x).1.world
    unfolding after_topology str_dec
    after_topology-Settles (ok u, s) h =
        after_splits-Settles (run_client env (sync_splits env s.object s.object.spec.rus) s) h
    after_topology-Settles (err e, s) h = no_topology e refl (
        event-Reported env K k "Error" "Warning" "Error" _ (try_status env "Error" s).world
          (try_status-Reported env K k "Error" s h refl))
    after_topology-Settles (panic, s) h = died (inl refl)
    after_topology-Settles (hang, s) h = died (inr (inl refl))
    after_topology-Settles (out_of_fuel, s) h = died (inr (inr refl))

    reconcile_object-Settles :
        (s : Session World)
        → At env k "" s
        → Settles k (reconcile_object env s).0 (reconcile_object env s).1.world
    unfolding reconcile_object str_dec
    reconcile_object-Settles s (named, state) =
        let synced = sync_topology env s in
        let run : reconcile_object env s ≡ after_topology env synced =
          ap (λ (b : Bool). if b then after_topology env synced else (ok (done env), s))
            (subst (λ x. (x == "") ≡ true) (sym state) refl) in
        subst (λ x. Settles k x.0 x.1.world) (sym run)
          (after_topology-Settles synced (
            After-always (At env k "") synced.0 synced.1
              ((sync_topology-Keeps env k "").at s (named, state))))

    -- With an API server that nobody else writes to: a run of `Reconcile` on an object that is found without a state
    -- ends without an error and with the state Finished reported, or with the error of `syncTopology` or of
    -- `syncSplits` and the state Error reported, or with the error of the update of the object, unless it panics or does
    -- not end. A state is reported when it is stored, or when the server did not accept the update to it, which was the last
    -- write of the run.
    pub reconcile-Settles :
        (object : SplitsPlacer) (w : World)
        → client.get_splits_placer k w ≡ (ok object, w)
        → object.key ≡ k
        → object.status.state ≡ ""
        → Settles k (reconcile env k w).0 (reconcile env k w).1
    unfolding reconcile fetched
    reconcile-Settles object w found named state =
        subst (λ x. Settles k (fetched env x).0 (fetched env x).1) (sym found)
          (reconcile_object-Settles (record { world = w; object = object }) (named, state))

    reconcile-Stored :
        (state : String) (w : World)
        → Stored env k state w
        → (state == "") ≡ false
        → reconcile env k w ≡ (ok (done env), w)
    unfolding reconcile fetched reconcile_object
    reconcile-Stored state w (o, found, named) differ =
        let s : Session World = record { world = w; object = o } in
        ap (fetched env) found
        ∙ ap
            (λ (b : Bool).
              let (r, t) =
                if b then after_topology env (sync_topology env s) else (ok (done env), s) in
              (r, t.world))
            (subst (λ x. (x == "") ≡ false) (sym named) differ)

    -- With an API server that nobody else writes to: behind a run of `Reconcile` on an object that was found without
    -- a state, and that answered without an error, or with one that is not that of the update of the object,
    -- the next run answers without an error and changes nothing, or the last write of the first run was an update of
    -- the status that the server did not accept.
    pub reconcile_twice :
        (object : SplitsPlacer) (w : World)
        → client.get_splits_placer k w ≡ (ok object, w)
        → object.key ≡ k
        → object.status.state ≡ ""
        → Answered (reconcile env k w).0
        → let w' = (reconcile env k w).1 in
          (reconcile env k w' ≡ (ok (done env), w')) ⊎ ((state : String) × Refused env k state w')
    unfolding str_dec
    reconcile_twice object w found named state answered =
        elim (reconcile-Settles object w found named state) [
          | finished e reported ↦ again "Finished" reported refl
          | no_topology x e reported ↦ again "Error" reported refl
          | no_splits x e reported ↦ again "Error" reported refl
          | not_updated x e ↦ let bad : true ≡ false = subst Answered e answered in cc
          | died (inl e) ↦ absurd (subst Answered e answered)
          | died (inr (inl e)) ↦ absurd (subst Answered e answered)
          | died (inr (inr e)) ↦ absurd (subst Answered e answered)
        ]
      where
        again :
            (state : String)
            → Reported env k state (reconcile env k w).1
            → (state == "") ≡ false
            → let w' = (reconcile env k w).1 in
              (reconcile env k w' ≡ (ok (done env), w'))
              ⊎ ((state : String) × Refused env k state w')
        again state reported differ =
            ⊎_elim (λ stored. inl (reconcile-Stored state _ stored differ)) (λ r. inr (state, r))
              reported
