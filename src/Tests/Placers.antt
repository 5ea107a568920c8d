-- ===== src/Tests/Placers.antt =====
-- Runs of the reconciler of SplitsPlacer objects over a server that holds one of them.
use oai_k8s.Common.{
  String, ◌≡◌, Option, none, some, refl, ap, sym, false, List, [], true, str_dec, if◌then◌else◌,
}
use oai_k8s.Common.{Result, ok, err, not_found, wrap, message, Action}
use oai_k8s.Common.Int.{ℤ, pos}
use oai_k8s.Extern.Sample.{sample_platform}
use oai_k8s.Cluster.{ObjectKey, SplitsPlacer, PlacerClient}
use oai_k8s.Placer.Defs.{PlacerEnv}
use oai_k8s.Placer.Topology.{validate_topology_nodes}
use oai_k8s.Placer.Reconcile.{reconcile, done}
use oai_k8s.Placer.Machine.Stores.{StoresStatus, Refused}
use oai_k8s.Placer.Machine.{Settles, reconcile-Settles, reconcile_twice}
use oai_k8s.Placement.Samples.{
  test_orders, test_topology, test_disaggregation, test_k8s_nodes, test_requested,
}
use oai_k8s.Common.{Memᴰ, ◌∷◌, Bool, ◌&&◌, contains, contains_iff, ◌⊎◌, ⊎_elim, subst}
use oai_k8s.Common.Dict.{Dict, keys}
use mathlib.Core.List.Memᴰ
use oai_k8s.Api.{TopologyLink}
use oai_k8s.Placement.State.{PlacementBfs}
use oai_k8s.Placement.Dsg8.{dsg8_key}
use oai_k8s.Placement.Build.{new_placement_bfs}
use oai_k8s.Placement.Build.Closed.{IsGraphOf}
use oai_k8s.Placement.Build.Returns.{EndsAt, NoNil}
use oai_k8s.Placer.Checked.{validate_topology_nodes-IsGraphOf}
use oai_k8s.Tests.Splits.{same_key, same_key_self}

abbrev absent : {A : Type 0} → Action SplitsPlacer A
absent w = (err not_found, w)

abbrev client_of_one : PlacerClient SplitsPlacer ℤ
client_of_one = record {
  get_splits_placer = λ k w. (if same_key w.key k then ok w else err not_found, w);
  update_splits_placer = λ p w. (ok p, w);
  update_splits_placer_status = λ p w. (ok p, p);
  get_config_map = λ k. absent;
  list_nodes = λ w. (ok test_k8s_nodes, w);
  get_split = λ k. absent;
  create_split = λ s w. (ok tt, w);
  set_split_owner = λ o s w. (ok s, w);
  record_event = λ kind reason text w. w;
}

abbrev env_of_one : PlacerEnv sample_platform SplitsPlacer
env_of_one = record {
  client = client_of_one;
  parse_topology = λ text. err not_found;
  parse_disaggregations = λ text. err not_found;
  parse_quantity = λ text. pos 0;
  format_float = λ x. "";
  elapsed = λ w. "0.1";
  error_text = λ e. "";
  orders = test_orders;
}

one_stored :
    (o o' w' : SplitsPlacer)
    → o ≡ o'
    → o ≡ w'
    → client_of_one.get_splits_placer o.key w' ≡ (ok o', w')
one_stored o o' w' same stored =
    subst (λ z. client_of_one.get_splits_placer o.key z ≡ (ok o', z)) stored
      (subst (λ z. client_of_one.get_splits_placer o.key o ≡ (ok z, o)) same
        (rw (same_key_self o.key) refl))

one-StoresStatus : StoresStatus env_of_one
one-StoresStatus = record {
  update_answers = λ o o' w w' h.
      let e : ◌≡◌ {A = Result SplitsPlacer} (ok o) (ok o') = ap (λ x. x.0) h in
      let same : o ≡ o' = cc in (sym (ap (λ x. x.key) same), sym (ap (λ x. x.status.state) same));
  status_stored = λ o o' w w' h.
      let e : ◌≡◌ {A = Result SplitsPlacer} (ok o) (ok o') = ap (λ x. x.0) h in
      let same : o ≡ o' = cc in
      let stored : o ≡ w' = ap (λ x. x.1) h in
      (sym (ap (λ x. x.status.state) same), one_stored o o' w' same stored);
  event_keeps = λ k o kind reason text w h. h;
}

abbrev placer_key : ObjectKey
placer_key = record { namespace = "oai"; name = "placer" }

abbrev placer : String → SplitsPlacer
placer topology = record {
  key = placer_key;
  spec = record { rus = []; core_ip = "10.0.0.1"; topology_config = topology; retrigger = false };
  status = record { state = ""; remaining_bandwidth = []; allocated_rus = 0; allocation_time = "" };
}

-- Without a topology the object is finished at once; where the config map is missing it fails.
finished_test :
    ((reconcile env_of_one placer_key (placer "")).0 ≡ ok (done env_of_one))
    × ((reconcile env_of_one placer_key (placer "")).1.status.state ≡ "Finished")
unfolding reconcile str_dec
finished_test = (refl, refl)

failed_test :
    ((reconcile env_of_one placer_key (placer "topology")).0
      ≡ err (
          wrap "error syncing topology"
            (wrap "error reading topology" (message "topology config map does not exists"))))
    × ((reconcile env_of_one placer_key (placer "topology")).1.status.state ≡ "Error")
unfolding reconcile str_dec
failed_test = (refl, refl)

reconcile-Settles_example :
    Settles env_of_one placer_key
      (reconcile env_of_one placer_key (placer "topology")).0
      (reconcile env_of_one placer_key (placer "topology")).1
unfolding str_dec
reconcile-Settles_example =
    reconcile-Settles env_of_one one-StoresStatus placer_key (placer "topology") (placer "topology")
      refl refl refl

reconcile_twice_example :
    let w' = (reconcile env_of_one placer_key (placer "topology")).1 in
    (reconcile env_of_one placer_key w' ≡ (ok (done env_of_one), w'))
    ⊎ ((state : String) × Refused env_of_one placer_key state w')
unfolding reconcile str_dec
reconcile_twice_example =
    reconcile_twice env_of_one one-StoresStatus placer_key (placer "topology") (placer "topology")
      refl refl refl refl

abbrev ends_in : List String → Dict (Option (TopologyLink ℤ)) → Bool
ends_in nodes [] = true
ends_in nodes ((name, none) ∷ rest) = ends_in nodes rest
ends_in nodes ((name, some link) ∷ rest) =
    contains nodes link.source.node && (contains nodes link.destination.node && ends_in nodes rest)

all_three : (a b c : Bool) → (a && (b && c)) ≡ true → (a ≡ true) × (b ≡ true) × (c ≡ true)
all_three true true true h = (refl, refl, refl)
all_three true true false h = cc
all_three true false c h = cc
all_three false b c h = cc

ends_in-EndsAt :
    (nodes : List String) (links : Dict (Option (TopologyLink ℤ)))
    → ends_in nodes links ≡ true
    → EndsAt (λ u. Memᴰ u nodes) links
ends_in-EndsAt nodes [] h n l m = absurd (Memᴰ.not-nil m)
ends_in-EndsAt nodes ((name, none) ∷ rest) h n l m =
    ⊎_elim (λ e. let bad : ◌≡◌ {A = Option (TopologyLink ℤ)} (some l) none = ap (λ x. x.1) e in cc)
      (λ t. ends_in-EndsAt nodes rest h n l t) (Memᴰ.cases_cons m)
ends_in-EndsAt nodes ((name, some link) ∷ rest) h n l m =
    let (a, b, c) =
      all_three (contains nodes link.source.node) (contains nodes link.destination.node)
        (ends_in nodes rest) h in
    ⊎_elim
      (λ e.
        let f : some l ≡ some link = ap (λ x. x.1) e in
        let same : link ≡ l = cc in
        subst (λ x. Memᴰ x.source.node nodes × Memᴰ x.destination.node nodes) same
          (
            (contains_iff nodes link.source.node).0 a,
            (contains_iff nodes link.destination.node).0 b,
          ))
      (λ t. ends_in-EndsAt nodes rest c n l t) (Memᴰ.cases_cons m)

abbrev no_nil : {A : Type 0} → Dict (Option A) → Bool
no_nil [] = true
no_nil ((name, none) ∷ rest) = false
no_nil ((name, some a) ∷ rest) = no_nil rest

no_nil-NoNil : {A : Type 0} (d : Dict (Option A)) → no_nil d ≡ true → NoNil d
no_nil-NoNil [] h n m = absurd (Memᴰ.not-nil m)
no_nil-NoNil ((name, none) ∷ rest) h n m = cc
no_nil-NoNil {A} ((name, some a) ∷ rest) h n m =
    ⊎_elim (λ e. let bad : ◌≡◌ {A = Option A} none (some a) = ap (λ x. x.1) e in cc)
      (no_nil-NoNil rest h n) (Memᴰ.cases_cons m)

test_validated : (validate_topology_nodes env_of_one test_topology (placer "topology")).0 ≡ ok []
unfolding validate_topology_nodes str_dec
test_validated = refl

test_ends : ends_in (keys test_topology.nodes) test_topology.links ≡ true
unfolding str_dec
test_ends = refl

validate_topology_nodes-IsGraphOf_example :
    (p : PlacementBfs ℤ ℤ) × (new_placement_bfs test_topology
        ((dsg8_key, test_disaggregation) ∷ [])
        test_k8s_nodes
        test_requested
      ≡ ok p)
    × IsGraphOf test_topology p
validate_topology_nodes-IsGraphOf_example =
    validate_topology_nodes-IsGraphOf env_of_one test_topology
      ((dsg8_key, test_disaggregation) ∷ []) test_k8s_nodes test_requested (placer "topology")
      (placer "topology") refl test_validated
      (ends_in-EndsAt (keys test_topology.nodes) test_topology.links test_ends)
      (no_nil-NoNil test_topology.nodes refl) (no_nil-NoNil test_topology.links refl)
