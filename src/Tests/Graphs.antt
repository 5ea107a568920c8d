-- ===== src/Tests/Graphs.antt =====
-- The topology of operator/controllers/algorithm/placement_test.go.
use oai_k8s.Common.{
  String, ℕ, ◌≡◌, refl, none, List, [], ◌∷◌, Memᴰ, Permᴰ, Distinct, is_distinct-Distinct,
}
use oai_k8s.Common.{
  Result, ok, err, panic, hang, out_of_fuel, str_dec, ◌≢◌, contains, get_last?, if◌then◌else◌,
}
use oai_k8s.Common.Dict.{Dict, keys, lookup}
use oai_k8s.Common.Int.{ℤ, pos}
use mathlib.Core.List.Permᴰ
use oai_k8s.Extern.Sample.{sample_platform, sample-Laws}
use oai_k8s.Api.{Disaggregation}
use oai_k8s.Utils.NodeList.{K8sNode, node_list_to_map, get, names, get-node_list_to_map}
use oai_k8s.Placement.State.{PlacementBfs}
use oai_k8s.Placement.Dsg8.{dsg8_key}
use oai_k8s.Placement.Build.{new_placement_bfs}
use oai_k8s.Placement.Build.Closed.{IsGraphOf, new_placement_bfs-IsGraphOf}
use oai_k8s.Placement.Paths.{find_paths_to, PathList}
use oai_k8s.Placement.Paths.Correct.{find_paths_to_ends, find_paths_to_correct, Finds, IsClosed}
use oai_k8s.Placement.Samples.{test_topology, test_disaggregation, test_requested, test_k8s_nodes}

abbrev from_ok : {A : Type 0} → A → Result A → A
from_ok a (ok b) = b
from_ok a (err e) = a
from_ok a panic = a
from_ok a hang = a
from_ok a out_of_fuel = a

abbrev pub disaggregations : Dict (Disaggregation ℤ)
disaggregations = (dsg8_key, test_disaggregation) ∷ []

abbrev empty_graph : PlacementBfs ℤ ℤ
empty_graph = record {
  root = "";
  topology = test_topology;
  disaggregations = [];
  requested_resources = test_requested;
  graph = record { nodes = []; links = [] };
  cache_paths = [];
}

unfoldable pub tested : PlacementBfs ℤ ℤ
unfolding new_placement_bfs str_dec
tested =
    from_ok empty_graph
      (new_placement_bfs test_topology disaggregations test_k8s_nodes test_requested)

pub tested_built :
    new_placement_bfs test_topology disaggregations test_k8s_nodes test_requested ≡ ok tested
unfolding new_placement_bfs str_dec tested
tested_built = refl

new_placement_bfs-IsGraphOf_example : IsGraphOf test_topology tested
new_placement_bfs-IsGraphOf_example =
    new_placement_bfs-IsGraphOf test_topology disaggregations test_k8s_nodes test_requested tested
      tested_built

pub tested_graph : IsGraphOf test_topology tested
tested_graph =
    new_placement_bfs-IsGraphOf test_topology disaggregations test_k8s_nodes test_requested tested
      tested_built

not_cached : (node_to_find : String) → lookup node_to_find tested.cache_paths ≡ none
not_cached node_to_find = rw tested_graph.no_cache refl

pub link_names-Distinct : Distinct (keys test_topology.links)
unfolding str_dec
link_names-Distinct = is_distinct-Distinct (keys test_topology.links) refl

tested-IsClosed : IsClosed tested.graph.nodes tested.root
tested-IsClosed = tested_graph.closed (
  "node14",
  _,
  Memᴰ.tail (
      Memᴰ.tail (
        Memᴰ.tail (
          Memᴰ.tail (
            Memᴰ.tail (
              Memᴰ.tail (
                Memᴰ.tail (
                  Memᴰ.tail (
                    Memᴰ.tail
                      (Memᴰ.tail (Memᴰ.tail (Memᴰ.tail (Memᴰ.tail (Memᴰ.head refl))))))))))))),
  refl,
)

abbrev in_order : ℕ → List String → List String
in_order t ks = ks

in_order_ranged : (t : ℕ) (ks : List String) → Permᴰ (in_order t ks) ks
in_order_ranged t ks = Permᴰ.refl ks

find_paths_to_ends_example :
    (find_paths_to sample_platform tested in_order "node13" ≢ out_of_fuel)
    × (find_paths_to sample_platform tested in_order "node13" ≢ hang)
find_paths_to_ends_example =
    find_paths_to_ends sample_platform sample-Laws tested in_order in_order_ranged "node13"
      (not_cached "node13")

find_paths_to_correct_example :
    (out : PathList) × (find_paths_to sample_platform tested in_order "node6" ≡ ok out)
    × Finds tested.graph.nodes tested.root "node6" in_order in_order_ranged out
find_paths_to_correct_example =
    find_paths_to_correct sample_platform sample-Laws tested in_order in_order_ranged "node6"
      (not_cached "node6") tested-IsClosed

abbrev two_nodes : List (K8sNode ℤ)
two_nodes =
    (record {
      name = "small";
      memory_capacity = pos 10;
      memory_allocatable = pos 5;
      cpu_capacity = pos 1;
      cpu_allocatable = pos 1;
    })
    ∷ (record {
      name = "large";
      memory_capacity = pos 1000;
      memory_allocatable = pos 900;
      cpu_capacity = pos 64;
      cpu_allocatable = pos 60;
    })
    ∷ []

-- The small node is given the resources of the large one.
get-node_list_to_map_example :
    get (node_list_to_map two_nodes) "small"
    ≡ (if contains (names two_nodes) "small" then get_last? two_nodes else none)
get-node_list_to_map_example = get-node_list_to_map two_nodes "small"
