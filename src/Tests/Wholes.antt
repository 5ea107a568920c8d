-- ===== src/Tests/Wholes.antt =====
-- The config maps and the deployments of a split with an API server that holds both in memory.
use oai_k8s.Common.{String, ◌≡◌, refl, ap, sym, ◌∙◌, subst, List, [], ◌∷◌, Memᴰ, str_dec}
use oai_k8s.Common.{ok, Bool-cases, inl, inr}
use oai_k8s.Common.Int.{ℤ, pos}
use oai_k8s.Common.Dict.{insert}
use oai_k8s.Cluster.{ConfigMap}
use oai_k8s.SplitController.Defs.{cu, du, ru, SplitEnv, Deployment}
use oai_k8s.SplitController.ConfigMaps.{sync_config_maps, get_config_map_content}
use oai_k8s.SplitController.Deployments.{sync_deployments, get_split_deployment}
use oai_k8s.SplitController.Templates.Writing.{KeepsOthers}
use oai_k8s.SplitController.Values.{KeepsConfigMaps}
use oai_k8s.SplitController.Values.Pieces.{KeepsWorld}
use oai_k8s.SplitController.Deployed.{KeepsDeployments}
use oai_k8s.SplitController.Whole.{LeavesConfigMaps, Provided, sync_config_maps-Provided}
use oai_k8s.SplitController.Listing.{KeepsPods}
use oai_k8s.SplitController.Steady.{sync_config_maps_again}
use oai_k8s.Tests.Splits.{same_key, same_key_self}
use oai_k8s.Tests.Values.{find_config_map, find_config_map-key, absent_of_ne, shipped}
use oai_k8s.Tests.Deployments.{owner, find_deployment, pods_of}

pub record Server : Type 0 where
  maps : List ConfigMap
  deployments : List (Deployment ℤ)

abbrev pub server_env : SplitEnv Server String ℤ
server_env = record {
  get_split = λ k w. (ok owner, w);
  update_split_status = λ s w. (ok s, w);
  get_config_map = λ k w. (find_config_map k w.maps, w);
  create_config_map = λ cm w. (ok tt, record w { maps = cm ∷ w.maps });
  update_config_map = λ cm w. (ok tt, record w { maps = cm ∷ w.maps });
  set_config_map_owner = λ s cm w. (ok (record cm { owners = s.key.name ∷ cm.owners }), w);
  get_deployment = λ k w. (find_deployment k w.deployments, w);
  create_deployment = λ d w. (ok tt, record w { deployments = d ∷ w.deployments });
  set_deployment_owner = λ s d w. (ok (record d { owners = s.key.name ∷ d.owners }), w);
  list_pods = λ namespace selector w. (ok (pods_of selector), w);
  record_event = λ kind reason text w. w;
  parse_labels = λ text. ok text;
  docker_repository = "registry";
  parse_quantity = λ text. pos 0;
  format_int = λ n. "";
  error_text = λ e. "";
  orders = record {
    templates = cu ∷ du ∷ ru ∷ [];
    values = cu ∷ du ∷ ru ∷ [];
    deployments = cu ∷ du ∷ ru ∷ [];
  };
}

pub server_maps : KeepsConfigMaps server_env
server_maps = record {
  get_reads = λ k w. refl;
  list_reads = λ n s w. refl;
  get_finds = λ k cm w. find_config_map-key k cm w.maps;
  owner_keeps = λ o cm cm' w w' h.
      let e : ok (record cm { owners = o.key.name ∷ cm.owners }) ≡ ok cm' = ap (λ x. x.0) h in
      let f : record cm { owners = o.key.name ∷ cm.owners } ≡ cm' = cc in sym (ap (λ x. x.key) f);
  create_stores = λ cm w w' h.
      subst (λ (x : Server). find_config_map cm.key x.maps ≡ ok cm) (ap (λ x. x.1) h)
        (rw (same_key_self cm.key) refl);
  update_stores = λ cm w w' h.
      subst (λ (x : Server). find_config_map cm.key x.maps ≡ ok cm) (ap (λ x. x.1) h)
        (rw (same_key_self cm.key) refl);
}

pub server_apart : KeepsOthers server_env
server_apart = record {
  create_apart =
      λ cm k w w' h n. ap (λ x. find_config_map k x.1.maps) (sym h) ∙ absent_of_ne cm k w.maps n;
  update_apart =
      λ cm k w w' h n. ap (λ x. find_config_map k x.1.maps) (sym h) ∙ absent_of_ne cm k w.maps n;
}

pub server_world : KeepsWorld server_env
server_world = record { owner_local = λ o cm cm' w w' h. sym (ap (λ x. x.1) h) }

pub server_deployments : KeepsDeployments server_env
server_deployments = record {
  get_reads = λ k w. refl;
  owner_keeps = λ o d d' w w' h.
      let e : ok (record d { owners = o.key.name ∷ d.owners }) ≡ ok d' = ap (λ x. x.0) h in
      let f : record d { owners = o.key.name ∷ d.owners } ≡ d' = cc in
      (sym (ap (λ x. x.key) f), sym (ap (λ x. x.1) h));
  create_adds = λ d w w' h. (
    d,
    subst (λ (x : Server). find_deployment d.key x.deployments ≡ ok d) (ap (λ x. x.1) h)
        (rw (same_key_self d.key) refl),
  );
  create_keeps = λ d d' k w w' h e. elim (Bool-cases (same_key d.key k)) [
    | inl t ↦ (
      d,
      subst (λ (x : Server). find_deployment k x.deployments ≡ ok d) (ap (λ x. x.1) h) (rw t refl),
    )
    | inr f ↦ (
      d',
      subst (λ (x : Server). find_deployment k x.deployments ≡ ok d') (ap (λ x. x.1) h) (rw f e),
    )
  ];
}

pub server_leaves : LeavesConfigMaps server_env
server_leaves = record {
  by_get = λ d k w. refl;
  by_owner = λ o d k w. refl;
  by_create = λ d k w. refl;
}

abbrev pub start : Server
start = record { maps = shipped; deployments = [] }

abbrev between : Server
between = (sync_config_maps server_env owner start).1

abbrev finish : Server
finish = (sync_deployments server_env owner (cu ∷ du ∷ ru ∷ []) between).1

first_step : sync_config_maps server_env owner start ≡ (ok tt, between)
unfolding sync_config_maps get_config_map_content insert str_dec
first_step = refl

second_step : sync_deployments server_env owner (cu ∷ du ∷ ru ∷ []) between ≡ (ok tt, finish)
unfolding sync_deployments get_split_deployment str_dec sync_config_maps get_config_map_content
    insert
second_step = refl

sync_config_maps-Provided_example : Provided server_env owner du finish
sync_config_maps-Provided_example =
    sync_config_maps-Provided server_env server_maps server_apart server_world owner
      server_deployments server_leaves start between finish first_step second_step du
      (Memᴰ.tail (Memᴰ.head refl)) (Memᴰ.tail (Memᴰ.head refl)) (Memᴰ.tail (Memᴰ.head refl))

server_pods : KeepsPods server_env
server_pods = record {
  by_get_map = λ k w n s. refl;
  by_create_map = λ cm w n s. refl;
  by_update_map = λ cm w n s. refl;
  by_map_owner = λ o cm w n s. refl;
  by_get = λ k w n s. refl;
  by_create = λ d w n s. refl;
  by_owner = λ o d w n s. refl;
}

sync_config_maps_again_example :
    (sync_config_maps server_env owner finish ≡ (ok tt, finish))
    × (sync_deployments server_env owner (cu ∷ du ∷ ru ∷ []) finish ≡ (ok tt, finish))
sync_config_maps_again_example =
    sync_config_maps_again server_env server_maps server_apart server_world server_pods owner
      server_deployments server_leaves start between finish first_step second_step
