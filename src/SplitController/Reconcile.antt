-- ===== src/SplitController/Reconcile.antt =====
-- `Reconcile` of `SplitReconciler`.
use oai_k8s.Common.{String, ok, err, panic, hang, out_of_fuel, true, false}
use oai_k8s.Common.{Action, pure, ◌>>◌}
use oai_k8s.Cluster.{ObjectKey}
use oai_k8s.Cluster.Getters.{ignore_not_found}
use oai_k8s.Placer.Defs.{ReconcileResult}
use oai_k8s.SplitController.Defs.{SplitEnv}
use oai_k8s.SplitController.Pods.{SplitSession, split_client, note_event, sync_status}
use oai_k8s.SplitController.ConfigMaps.{sync_config_maps}
use oai_k8s.SplitController.Deployments.{sync_deployments}

-- `resyncPeriod`, in seconds
abbrev pub again : ReconcileResult
again = record { requeue = true; requeue_after = 20 }

abbrev pub settled : ReconcileResult
settled = record { requeue = false; requeue_after = 0 }

module _ {World Selector Quantity : Type 0} (env : SplitEnv World Selector Quantity) where
  open env use {get_split, error_text, orders}

  -- A call whose error is also an event.
  abbrev pub reporting :
      String → Action (SplitSession World) (Unit {0}) → Action (SplitSession World) (Unit {0})
  reporting reason m s =
      let (r, s') = m s in
      elim r [
        | ok u ↦ (ok u, s')
        | err e ↦ (err e, (note_event env "Warning" reason (error_text e) s').1)
        | panic ↦ (panic, s')
        | hang ↦ (hang, s')
        | out_of_fuel ↦ (out_of_fuel, s')
      ]

  -- The part of `Reconcile` behind the fetch.
  unfoldable pub reconcile_split : Action (SplitSession World) ReconcileResult
  unfolding sync_config_maps sync_deployments sync_status
  reconcile_split s =
      (do
        reporting "configmaps" (split_client env (sync_config_maps env s.object))
        reporting "pods" (split_client env (sync_deployments env s.object orders.deployments))
        sync_status env
        note_event env "Normal" "Sync" "Synced successfully"
        pure again)
        s

  unfoldable pub reconcile : ObjectKey → Action World ReconcileResult
  unfolding reconcile_split
  reconcile key w =
      let (r, w') = get_split key w in
      elim r [
        | ok object ↦
            let (r', s) = reconcile_split (record { world = w'; object = object }) in (r', s.world)
        | err e ↦ (ignore_not_found settled e, w')
        | panic ↦ (panic, w')
        | hang ↦ (hang, w')
        | out_of_fuel ↦ (out_of_fuel, w')
      ]
