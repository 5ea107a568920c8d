-- ===== src/Tests/Reconciling.antt =====
-- A run of `Reconcile` of a split with an API server that holds its objects in memory.
use oai_k8s.Common.{◌≡◌, refl, Memᴰ, [], ◌∷◌, ok, str_dec}
use oai_k8s.Common.Dict.{insert}
use oai_k8s.Cluster.{Split}
use oai_k8s.SplitController.Defs.{SplitPiece, cu, du, ru}
use oai_k8s.SplitController.Pods.{sync_status, observe, look_at, see_pod, send_status, get_pod}
use oai_k8s.SplitController.ConfigMaps.{sync_config_maps, get_config_map_content}
use oai_k8s.SplitController.Deployments.{sync_deployments, get_split_deployment}
use oai_k8s.SplitController.Reconcile.{again, reconcile_split, reconcile}
use oai_k8s.SplitController.Untouched.{LeavesObjects}
use oai_k8s.SplitController.Reconciled.{Covers, Done, reconcile-Done}
use oai_k8s.Tests.Deployments.{owner}
use oai_k8s.Tests.Wholes.{
  Server, server_env, server_maps, server_apart, server_world, server_deployments, server_leaves,
  start,
}

server_objects : LeavesObjects server_env
server_objects = record {
  by_event = λ kind reason text w. (λ k. refl, λ k. refl);
  by_status = λ o w. (λ k. refl, λ k. refl);
}

every_piece : (split : SplitPiece) → Memᴰ split (cu ∷ du ∷ ru ∷ [])
every_piece cu = Memᴰ.head refl
every_piece du = Memᴰ.tail (Memᴰ.head refl)
every_piece ru = Memᴰ.tail (Memᴰ.tail (Memᴰ.head refl))

server_covers : Covers server_env
server_covers = record {
  by_templates = every_piece;
  by_values = every_piece;
  by_deployments = every_piece;
}

abbrev reconciled : Server
reconciled = (reconcile server_env owner.key start).1

whole_run : reconcile server_env owner.key start ≡ (ok again, reconciled)
unfolding reconcile reconcile_split sync_config_maps get_config_map_content insert str_dec
    sync_deployments get_split_deployment sync_status observe look_at see_pod send_status get_pod
whole_run = refl

reconcile-Done_example :
    (o : Split) × ((server_env.get_split owner.key start).0 ≡ ok o) × Done server_env o reconciled
reconcile-Done_example =
    reconcile-Done server_env server_maps server_apart server_world server_deployments server_leaves
      server_objects server_covers owner.key start reconciled whole_run
