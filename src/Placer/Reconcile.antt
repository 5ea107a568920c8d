-- ===== src/Placer/Reconcile.antt =====
-- `Reconcile` of SplitsPlacer objects (operator/controllers/splitsplacer_controller.go).
use oai_k8s.Common.{String, [], ◌∷◌, false}
use oai_k8s.Common.{◌==◌, if◌then◌else◌, concat_text}
use oai_k8s.Common.{Result, ok, err, panic, hang, out_of_fuel, wrap}
use oai_k8s.Common.{Action, ◌>>◌, with_context}
use oai_k8s.Extern.{Platform}
use oai_k8s.Cluster.{ObjectKey, SplitsPlacer}
use oai_k8s.Cluster.Getters.{ignore_not_found}
use oai_k8s.Placer.Defs.{ReconcileResult, Session, PlacerEnv, run_client, emit, send, update_status}
use oai_k8s.Placer.Topology.{sync_topology}
use oai_k8s.Placer.Splits.{sync_splits}

module _ {P : Platform} {World : Type 0} (env : PlacerEnv P World) where
  open P use {Float, Quantity}
  open env use {
    client, parse_topology, parse_disaggregations, parse_quantity, format_float, elapsed,
    error_text, orders,
  }

  abbrev pub done : ReconcileResult
  done = record { requeue = false; requeue_after = 0 }

  -- A failed update of the status is only logged.
  abbrev pub try_status : String → Session World → Session World
  try_status desired s = (update_status env desired s).1

  -- The end of `Reconcile`. A failed update of the status is only logged.
  unfoldable pub finish : Action (Session World) ReconcileResult
  unfolding update_status
  finish = do
    λ s.
        let status' = record (s.object.status) { allocation_time = elapsed s.world } in
        let object' = record (s.object) { status = status' } in
        (ok tt, record s { object = object' })
    emit env "Normal" "Sync" "Synced successfully"
    with_context "error updating splits placer" (send env client.update_splits_placer)
    λ s. (ok done, try_status "Finished" s)

  -- The branches behind `syncSplits`.
  unfoldable pub after_splits :
      Result (Unit {0}) × Session World → Result ReconcileResult × Session World
  unfolding finish
  after_splits (ok u, s) = finish s
  after_splits (err e, s) = (err (wrap "error syncing splits" e), try_status "Error" s)
  after_splits (panic, s) = (panic, s)
  after_splits (hang, s) = (hang, s)
  after_splits (out_of_fuel, s) = (out_of_fuel, s)

  -- The branches behind `syncTopology`.
  unfoldable pub after_topology :
      Result (Unit {0}) × Session World → Result ReconcileResult × Session World
  unfolding sync_splits after_splits
  after_topology (ok u, s) =
      after_splits (run_client env (sync_splits env s.object s.object.spec.rus) s)
  after_topology (err e, s) =
      let text = concat_text ("error syncing topology: " ∷ error_text e ∷ []) in
      let (r, s') = emit env "Warning" "Error" text (try_status "Error" s) in
      (err (wrap "error syncing topology" e), s')
  after_topology (panic, s) = (panic, s)
  after_topology (hang, s) = (hang, s)
  after_topology (out_of_fuel, s) = (out_of_fuel, s)

  -- The part of `Reconcile` behind the fetch.
  unfoldable pub reconcile_object : Action (Session World) ReconcileResult
  unfolding sync_topology after_topology
  reconcile_object s =
      if s.object.status.state == "" then after_topology (sync_topology env s) else (ok done, s)

  -- The branches behind the fetch.
  unfoldable pub fetched : Result SplitsPlacer × World → Result ReconcileResult × World
  unfolding reconcile_object
  fetched (ok object, w) =
      let (r, s) = reconcile_object (record { world = w; object = object }) in (r, s.world)
  fetched (err e, w) = (ignore_not_found done e, w)
  fetched (panic, w) = (panic, w)
  fetched (hang, w) = (hang, w)
  fetched (out_of_fuel, w) = (out_of_fuel, w)

  unfoldable pub reconcile : ObjectKey → Action World ReconcileResult
  unfolding fetched
  reconcile key w = fetched (client.get_splits_placer key w)
