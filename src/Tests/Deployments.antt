-- ===== src/Tests/Deployments.antt =====
-- The split controller with an API server in memory.
use oai_k8s.Common.{
  String, ◌≡◌, refl, ap, sym, subst, Option, List, [], ◌∷◌, Memᴰ, if◌then◌else◌, ◌==◌,
}
use oai_k8s.Common.{Result, ok, err, not_found, Action, Bool-cases, inl, inr, str_dec}
use oai_k8s.Common.Int.{ℤ, pos}
use oai_k8s.Cluster.{ObjectKey, Split}
use oai_k8s.SplitController.Defs.{
  SplitPiece, cu, du, ru, SplitEnv, Deployment, Pod, get_split_object_key,
}
use oai_k8s.SplitController.Deployments.{sync_deployments, get_split_deployment}
use oai_k8s.SplitController.Pods.{SplitSession, observe}
use oai_k8s.SplitController.Deployed.{KeepsDeployments, Deployed, sync_deployments-Deployed}
use oai_k8s.SplitController.Observed.{Observed, observe-status}
use oai_k8s.Tests.Splits.{same_key, same_key_self}

abbrev Store : Type 0
Store = List (Deployment ℤ)

abbrev pub find_deployment : ObjectKey → Store → Result (Deployment ℤ)
find_deployment k [] = err not_found
find_deployment k (d ∷ w) = if same_key d.key k then ok d else find_deployment k w

-- The pod of the DU waits, the pod of the RU is missing.
abbrev pub pods_of : String → List Pod
pods_of selector =
    if selector == "split=cu,split-owner=split1"
    then record { node_name = "node1"; pod_ip = "10.1.0.1"; phase = "Running" } ∷ []
    else if selector == "split=du,split-owner=split1"
    then record { node_name = "node3"; pod_ip = ""; phase = "Pending" } ∷ []
    else []

abbrev missing : {A : Type 0} → Action Store A
missing w = (err not_found, w)

abbrev memory_env : SplitEnv Store String ℤ
memory_env = record {
  get_split = λ k. missing;
  update_split_status = λ s w. (ok s, w);
  get_config_map = λ k. missing;
  create_config_map = λ cm w. (ok tt, w);
  update_config_map = λ cm w. (ok tt, w);
  set_config_map_owner = λ s cm w. (ok cm, w);
  get_deployment = λ k w. (find_deployment k w, w);
  create_deployment = λ d w. (ok tt, d ∷ w);
  set_deployment_owner = λ s d w. (ok (record d { owners = s.key.name ∷ d.owners }), w);
  list_pods = λ namespace selector w. (ok (pods_of selector), w);
  record_event = λ kind reason text w. w;
  parse_labels = λ text. ok text;
  docker_repository = "registry";
  parse_quantity = λ text. pos 0;
  format_int = λ n. "";
  error_text = λ e. "";
  orders = record {
    templates = cu ∷ du ∷ ru ∷ [];
    values = cu ∷ du ∷ ru ∷ [];
    deployments = cu ∷ du ∷ ru ∷ [];
  };
}

memory_keeps : KeepsDeployments memory_env
memory_keeps = record {
  get_reads = λ k w. refl;
  owner_keeps = λ o d d' w w' h.
      let e : ok (record d { owners = o.key.name ∷ d.owners }) ≡ ok d' = ap (λ x. x.0) h in
      let f : record d { owners = o.key.name ∷ d.owners } ≡ d' = cc in
      (sym (ap (λ x. x.key) f), sym (ap (λ x. x.1) h));
  create_adds = λ d w w' h. (
    d,
    subst (λ x. find_deployment d.key x ≡ ok d) (ap (λ x. x.1) h) (rw (same_key_self d.key) refl),
  );
  create_keeps = λ d d' k w w' h e. elim (Bool-cases (same_key d.key k)) [
    | inl t ↦ (d, subst (λ x. find_deployment k x ≡ ok d) (ap (λ x. x.1) h) (rw t refl))
    | inr f ↦ (d', subst (λ x. find_deployment k x ≡ ok d') (ap (λ x. x.1) h) (rw f e))
  ];
}

abbrev pub owner : Split
owner = record {
  key = record { namespace = "oai"; name = "split1" };
  owners = "placer" ∷ [];
  spec = record { core_ip = "10.0.0.1"; ru_node = "node6"; du_node = "node3"; cu_node = "node1" };
  status = record {
    cu_node = "";
    cu_ip = "";
    du_node = "";
    du_ip = "";
    ru_node = "";
    ru_ip = "";
    state = "";
  };
}

abbrev pieces : List SplitPiece
pieces = cu ∷ du ∷ ru ∷ []

abbrev deployment_of : SplitPiece → Deployment ℤ
deployment_of split = record (get_split_deployment memory_env owner split) {
  owners = "split1" ∷ [];
}

abbrev deployed : Store
deployed = deployment_of ru ∷ deployment_of du ∷ deployment_of cu ∷ []

sync_three : sync_deployments memory_env owner pieces [] ≡ (ok tt, deployed)
unfolding sync_deployments get_split_deployment str_dec
sync_three = refl

sync_deployments-Deployed_example :
    ((split : SplitPiece)
      → Memᴰ split pieces
      → Deployed memory_env (get_split_object_key owner split) deployed)
    × ((k : ObjectKey) → Deployed memory_env k [] → Deployed memory_env k deployed)
sync_deployments-Deployed_example =
    sync_deployments-Deployed memory_env memory_keeps owner pieces [] deployed sync_three

abbrev before : SplitSession Store
before = record { world = []; object = owner }

abbrev after : SplitSession Store
after = record {
  world = [];
  object = record owner {
    status = record {
      cu_node = "node1";
      cu_ip = "10.1.0.1";
      du_node = "node3";
      du_ip = "";
      ru_node = "";
      ru_ip = "";
      state = "Error";
    };
  };
}

observed : observe memory_env before ≡ (ok tt, after)
unfolding observe str_dec
observed = refl

observe-status_example :
    (cu_pod du_pod ru_pod : Option Pod) × (w₁ w₂ w₃ : Store) × Observed memory_env before.object
      after.object cu_pod du_pod ru_pod w₁ w₂ w₃
observe-status_example = observe-status memory_env before after observed
