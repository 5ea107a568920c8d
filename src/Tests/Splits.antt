-- ===== src/Tests/Splits.antt =====
-- The splits placer with an API server in memory.
use oai_k8s.Common.{
  String, ◌≡◌, refl, ap, sym, subst, some, List, [], ◌∷◌, Bool, true, false, ◌&&◌, Memᴰ, arith,
  ◌==◌, str_dec, if◌then◌else◌,
}
use oai_k8s.Common.{Result, ok, err, not_found, Action, Bool-cases, inl, inr}
use oai_k8s.Common.{Distinct, is_distinct-Distinct}
use oai_k8s.Common.Dict.{Dict, keys, lookup}
use oai_k8s.Common.Int.{ℤ, pos}
use oai_k8s.Extern.Sample.{sample_platform}
use oai_k8s.Api.{ChainPosition}
use oai_k8s.Utils.{Link}
use oai_k8s.Cluster.{ObjectKey, Split, SplitsPlacer, PlacerClient}
use oai_k8s.Placer.Defs.{PlacerEnv, is_unplaced}
use oai_k8s.Placer.Splits.{sync_splits}
use oai_k8s.Placer.Topology.{record_placement}
use oai_k8s.Placer.Status.{
  KeepsSplits, sync_splits-Exists, Exists, key_of, record_placement-status, Count,
}
use oai_k8s.Placement.Samples.{test_orders, test_ru}

abbrev pub same_key : ObjectKey → ObjectKey → Bool
same_key j k = j.namespace == k.namespace && j.name == k.name

pub same_key_self : (k : ObjectKey) → same_key k k ≡ true
same_key_self k = ground arith

abbrev Store : Type 0
Store = List Split

abbrev find_split : ObjectKey → Store → Result Split
find_split k [] = err not_found
find_split k (s ∷ w) = if same_key s.key k then ok s else find_split k w

abbrev missing : {A : Type 0} → Action Store A
missing w = (err not_found, w)

abbrev memory_client : PlacerClient Store ℤ
memory_client = record {
  get_splits_placer = λ k. missing;
  update_splits_placer = λ p w. (ok p, w);
  update_splits_placer_status = λ p w. (ok p, w);
  get_config_map = λ k. missing;
  list_nodes = λ w. (ok [], w);
  get_split = λ k w. (find_split k w, w);
  create_split = λ s w. (ok tt, s ∷ w);
  set_split_owner = λ o s w. (ok (record s { owners = o.key.name ∷ s.owners }), w);
  record_event = λ kind reason text w. w;
}

abbrev memory_env : PlacerEnv sample_platform Store
memory_env = record {
  client = memory_client;
  parse_topology = λ text. err not_found;
  parse_disaggregations = λ text. err not_found;
  parse_quantity = λ text. pos 0;
  format_float = λ x. "";
  elapsed = λ w. "";
  error_text = λ e. "";
  orders = test_orders;
}

memory_keeps : KeepsSplits memory_env
memory_keeps = record {
  get_reads = λ k w. refl;
  owner_keeps = λ o s s' w w' h.
      let e : ok (record s { owners = o.key.name ∷ s.owners }) ≡ ok s' = ap (λ x. x.0) h in
      let f : record s { owners = o.key.name ∷ s.owners } ≡ s' = cc in
      (sym (ap (λ x. x.key) f), sym (ap (λ x. x.1) h));
  create_adds = λ s w w' h.
      (s, subst (λ x. find_split s.key x ≡ ok s) (ap (λ x. x.1) h) (rw (same_key_self s.key) refl));
  create_keeps = λ s s' k w w' h e. elim (Bool-cases (same_key s.key k)) [
    | inl t ↦ (s, subst (λ x. find_split k x ≡ ok s) (ap (λ x. x.1) h) (rw t refl))
    | inr f ↦ (s', subst (λ x. find_split k x ≡ ok s') (ap (λ x. x.1) h) (rw f e))
  ];
}

abbrev owner : SplitsPlacer
owner = record {
  key = record { namespace = "oai"; name = "placer" };
  spec = record { rus = []; core_ip = "10.0.0.1"; topology_config = "topology"; retrigger = false };
  status = record { state = ""; remaining_bandwidth = []; allocated_rus = 0; allocation_time = "" };
}

-- One unit that is placed, and one that is not.
abbrev two_rus : List ChainPosition
two_rus =
    record (test_ru "split1" "node6") { cu_node = "node1"; du_node = "node3" }
    ∷ test_ru "split2" "node7"
    ∷ []

abbrev created : Store
created =
    (record {
      key = record { namespace = "oai"; name = "split1" };
      owners = "placer" ∷ [];
      spec = record {
        core_ip = "10.0.0.1";
        ru_node = "node6";
        du_node = "node3";
        cu_node = "node1";
      };
      status = record {
        cu_node = "";
        cu_ip = "";
        du_node = "";
        du_ip = "";
        ru_node = "";
        ru_ip = "";
        state = "";
      };
    })
    ∷ []

sync_two : sync_splits memory_env owner two_rus [] ≡ (ok tt, created)
unfolding sync_splits str_dec
sync_two = refl

sync_splits-Exists_example :
    ((ru : ChainPosition)
      → Memᴰ ru two_rus
      → is_unplaced ru ≡ false
      → Exists memory_env (key_of memory_env memory_keeps owner ru) created)
    × ((k : ObjectKey) → Exists memory_env k [] → Exists memory_env k created)
sync_splits-Exists_example =
    sync_splits-Exists memory_env memory_keeps owner two_rus [] created sync_two

abbrev two_links : Dict (Link ℤ)
two_links =
    ("a--b", record { link_name = "a--b"; available_bandwidth = pos 300; latency = pos 25 })
    ∷ ("b--c", record { link_name = "b--c"; available_bandwidth = pos 12; latency = pos 25 })
    ∷ []

two_links-Distinct : Distinct (keys two_links)
unfolding str_dec
two_links-Distinct = is_distinct-Distinct (keys two_links) refl

record_placement-status_example :
    let object' = record_placement memory_env two_links two_rus owner in
    (object'.spec.rus ≡ two_rus)
    × Count two_rus object'.status.allocated_rus
    × (object'.status.state ≡ owner.status.state)
    × ((k : String) (v : Link ℤ)
        → lookup k two_links ≡ some v
        → lookup k object'.status.remaining_bandwidth ≡ some "")
    × ((k : String)
        → ¬ Memᴰ k (keys two_links)
        → lookup k object'.status.remaining_bandwidth ≡ lookup k owner.status.remaining_bandwidth)
record_placement-status_example =
    record_placement-status memory_env two_links two_rus owner two_links-Distinct
