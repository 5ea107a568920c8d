-- ===== src/Tests/Placements.antt =====
-- Placements in the topology of operator/controllers/algorithm/placement_test.go.
use oai_k8s.Common.{
  String, ◌≡◌, refl, some, List, [], ◌∷◌, true, false, not, ◌&&◌, Memᴰ, Distinct,
  is_distinct-Distinct, Bool, arith,
}
use oai_k8s.Common.{ok, str_dec, ◌≢◌, map}
use oai_k8s.Common.Runs.{Runs}
use oai_k8s.Common.Dict.{Dict, lookup}
use oai_k8s.Common.Int.{ℤ, pos, ltb_ℤ, ◌+ℤ◌, ◌-ℤ◌}
use mathlib.Core.List.Memᴰ
use mathlib.Core.List.Permᴰ
use oai_k8s.Extern.Sample.{sample_platform, sample-Laws}
use oai_k8s.Api.{ChainPosition}
use oai_k8s.Utils.{Node, Link}
use oai_k8s.Utils.Links
use oai_k8s.Utils.Nodes
use oai_k8s.Placement.State.{Position}
use oai_k8s.Placement.Dsg8.{Disaggregation8}
use oai_k8s.Placement.Paths.{get_new_path}
use oai_k8s.Placement.Network.{validate_network}
use oai_k8s.Placement.Network.Allocation.{validate_network-allocates}
use oai_k8s.Common.{⊎_elim, subst, sym, ap, ◌==◌}
use oai_k8s.Placement.Place.{
  find_position, dsg8_of, place, validate, allocate_resources, fulfill_ru,
}
use oai_k8s.Placement.Place.Grants.{validate-grants}
use oai_k8s.Placement.Place.Found.{Chosen, find_position-Chosen}
use oai_k8s.Placement.Paths.{PathList, find_paths_to}
use oai_k8s.Placement.Place.Solvent.{IsSolvent, place-IsSolvent}
use oai_k8s.Placement.Place.Ends.{place-Runs}
use oai_k8s.Placement.Place.Shape.{IsShapeOf, place-IsShapeOf}
use oai_k8s.Placement.Place.Placed.{Each, IsLeft, place-Each}
use oai_k8s.Placement.Samples.{test_disaggregation, test_requested, test_ru, test_orders}
use oai_k8s.Placement.Plan.{IsPlan, new_placement_bfs-IsPlan}
use oai_k8s.Placement.Samples.{test_topology, test_k8s_nodes}
use oai_k8s.Tests.Graphs.{tested_built, disaggregations, tested, tested_graph, link_names-Distinct}

abbrev test_path : List String
test_path = "node14" ∷ "node1" ∷ "node3" ∷ "node6" ∷ []

test_path-Distinct : Distinct test_path
unfolding str_dec
test_path-Distinct = is_distinct-Distinct test_path refl

test_path_checked :
    validate_network sample_platform
      (some test_disaggregation)
      test_path
      "node1"
      "node3"
      false
      tested.graph
    ≡ (ok true, tested.graph)
unfolding validate_network tested str_dec Links.has_bandwidth ◌+ℤ◌
test_path_checked = refl

validate_network-allocates_example :
    (validate_network sample_platform
      (some test_disaggregation)
      test_path
      "node1"
      "node3"
      true
      tested.graph).0
    ≡ ok true
validate_network-allocates_example =
    validate_network-allocates sample_platform sample-Laws (some test_disaggregation) test_path
      "node1" "node3" tested.graph tested.graph tested.graph
      (tested_graph.unique link_names-Distinct) test_path-Distinct (λ u. refl) refl
      test_path_checked

abbrev test_dsg8 : Disaggregation8 ℤ ℤ
test_dsg8 = record {
  requested_resources = test_requested;
  network_requirements = some test_disaggregation;
}

abbrev other_path : List String
other_path = "node14" ∷ "node2" ∷ "node4" ∷ "node6" ∷ []

other_path-Distinct : Distinct other_path
unfolding str_dec
other_path-Distinct = is_distinct-Distinct other_path refl

two_paths-Distinct : (path : List String) → Memᴰ path (test_path ∷ other_path ∷ []) → Distinct path
two_paths-Distinct path m =
    ⊎_elim (λ e. subst Distinct (sym e) test_path-Distinct)
      (λ t. subst Distinct (sym (Memᴰ.eq_of_singleton t)) other_path-Distinct) (Memᴰ.cases_cons m)

abbrev test_position : Position
test_position = record {
  cu_node_name = "node1";
  du_node_name = "node3";
  path = test_path;
  disaggregation_key = "1";
}

validated :
    validate sample_platform test_dsg8 (λ ps. ps) (test_path ∷ other_path ∷ []) tested.graph
    ≡ (ok (some test_position), tested.graph)
unfolding validate tested str_dec Links.has_bandwidth Nodes.has_resources ◌+ℤ◌
validated = refl

node3_is_named : test_position.du_node_name ≢ ""
unfolding str_dec
node3_is_named e = let bad : false ≡ true = ap (λ x. x == "") e in cc

validate-grants_example :
    (tested.graph ≡ tested.graph)
    × ((allocate_resources sample_platform test_dsg8
          (fulfill_ru (test_ru "ru1" "node6") test_position)
          tested.graph).0
        ≡ ok tt)
validate-grants_example =
    validate-grants sample_platform test_dsg8 sample-Laws (λ ps. ps) (λ ps. Permᴰ.refl ps)
      (test_path ∷ other_path ∷ []) (test_ru "ru1" "node6") test_position tested.graph tested.graph
      (tested_graph.unique link_names-Distinct) two_paths-Distinct validated node3_is_named

found_position :
    find_position sample_platform tested test_orders 0 (test_ru "ru1" "node6") tested.graph
    ≡ (ok (some test_position), tested.graph)
unfolding find_position tested str_dec Links.has_bandwidth Nodes.has_resources ◌+ℤ◌ find_paths_to
    get_new_path
found_position = refl

find_position-Chosen_example :
    (tested.graph ≡ tested.graph)
    × (paths : PathList) × (find_paths_to sample_platform tested (test_orders.links 0) "node6"
        ≡ ok paths)
    × Chosen sample_platform (dsg8_of sample_platform tested) paths test_position tested.graph
find_position-Chosen_example =
    find_position-Chosen sample_platform tested test_orders (λ i ps. Permᴰ.refl ps) 0
      (test_ru "ru1" "node6") tested.graph tested.graph test_position found_position

abbrev pub three_units : List ChainPosition
three_units = test_ru "ru1" "node6" ∷ test_ru "ru2" "node6" ∷ test_ru "ru3" "node6" ∷ []

place-Runs_example : Runs (place sample_platform tested test_orders three_units).0
place-Runs_example =
    place-Runs sample_platform sample-Laws tested test_orders (λ i t ks. Permᴰ.refl ks)
      (λ i ps. Permᴰ.refl ps) tested_graph.no_cache three_units

place-IsShapeOf_example :
    IsShapeOf tested.graph (place sample_platform tested test_orders three_units).1
place-IsShapeOf_example = place-IsShapeOf sample_platform tested test_orders three_units

place-Each_example :
    Each
      (IsLeft tested.graph.nodes tested.root)
      three_units
      (place sample_platform tested test_orders three_units).2
place-Each_example =
    place-Each sample_platform sample-Laws tested test_orders (λ i t ks. Permᴰ.refl ks)
      (λ i ps. Permᴰ.refl ps) tested_graph.no_cache three_units

new_placement_bfs-IsPlan_example :
    IsPlan test_topology.links tested.root three_units
      (place sample_platform tested test_orders three_units)
new_placement_bfs-IsPlan_example =
    new_placement_bfs-IsPlan sample_platform sample-Laws test_topology disaggregations
      test_k8s_nodes test_requested tested test_orders (λ i t ks. Permᴰ.refl ks)
      (λ i ps. Permᴰ.refl ps) tested_built three_units

-- A test of all values of a map.
abbrev every : {V : Type 0} → (V → Bool) → Dict V → Bool
every test [] = true
every test ((k, v) ∷ d) = test v && every test d

every-lookup :
    {V : Type 0} (test : V → Bool) (d : Dict V) (k : String) (v : V)
    → every test d ≡ true
    → lookup k d ≡ some v
    → test v ≡ true
every-lookup test [] k v h e = cc
every-lookup test ((j, w) ∷ d) k v h e = elim (str_dec k j) [
  | yes x ↦ let same : w ≡ v = ground arith in ground (arith, same)
  | no n ↦ every-lookup test d k v (ground arith) (ground arith)
]

abbrev has_left : Node ℤ → Bool
has_left node =
    not (ltb_ℤ node.resources.memory_available (pos 0))
    && not (ltb_ℤ node.resources.cpu_available (pos 0))

pub tested-IsSolvent : IsSolvent sample_platform tested.graph
unfolding tested str_dec
tested-IsSolvent = record {
  nodes_left = λ name node e.
      let h = every-lookup has_left tested.graph.nodes name node refl e in
      (ground (arith, h), ground (arith, h));
  links_left = λ l link e.
      let h =
        every-lookup (λ (link : Link ℤ). not (ltb_ℤ link.available_bandwidth (pos 0)))
          tested.graph.links l link refl e in
      ground (arith, h);
}

pub three_units_placed : (place sample_platform tested test_orders three_units).0 ≡ ok true
unfolding place get_new_path tested str_dec Links.has_bandwidth Links.allocate_resources
    Nodes.has_resources Nodes.allocate_resources ◌+ℤ◌ ◌-ℤ◌
three_units_placed = refl

place-IsSolvent_example :
    IsSolvent sample_platform (place sample_platform tested test_orders three_units).1
place-IsSolvent_example =
    place-IsSolvent sample_platform tested test_orders three_units tested-IsSolvent
      three_units_placed

-- `TestPlace`: two of the three units that ask for a place at node6 get one.
place_test :
    map (λ ru. ru.du_node) (place sample_platform tested test_orders three_units).2
    ≡ "node3" ∷ "node4" ∷ "" ∷ []
unfolding place get_new_path tested str_dec Links.has_bandwidth Links.allocate_resources
    Nodes.has_resources Nodes.allocate_resources ◌+ℤ◌ ◌-ℤ◌
place_test = refl
