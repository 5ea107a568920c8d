-- ===== src/Placement/Samples.antt =====
-- The topology, the requirements and the units of operator/controllers/algorithm/placement_test.go,
-- over the sample platform. Latencies are in hundredths.
use oai_k8s.Common.{String, ℕ, Bool, true, false, Option, some, List, [], ◌∷◌, map}
use oai_k8s.Common.Int.{ℤ, pos}
use oai_k8s.Api.{Topology, TopologyNode, TopologyLink, Disaggregation, NetworkRequirements}
use oai_k8s.Api.{ChainPosition}
use oai_k8s.Utils.{RequestedResources}
use oai_k8s.Utils.NodeList.{K8sNode}
use oai_k8s.Placement.State.{Orders}

abbrev topology_node : Bool → ℕ → Option TopologyNode
topology_node core hops = some (record { interfaces = []; core = core; hops = pos hops })

abbrev link : ℕ → ℕ → String → String → Option (TopologyLink ℤ)
link capacity delay source destination = some (record {
  link_capacity = pos capacity;
  link_delay = pos delay;
  source = record { node = source; interface = "" };
  destination = record { node = destination; interface = "" };
})

abbrev pub test_topology : Topology ℤ
test_topology = record {
  nodes =
      ("node1", topology_node false 1)
      ∷ ("node2", topology_node false 1)
      ∷ ("node3", topology_node false 2)
      ∷ ("node4", topology_node false 2)
      ∷ ("node5", topology_node false 2)
      ∷ ("node6", topology_node false 3)
      ∷ ("node7", topology_node false 3)
      ∷ ("node8", topology_node false 3)
      ∷ ("node9", topology_node false 4)
      ∷ ("node10", topology_node false 3)
      ∷ ("node11", topology_node false 3)
      ∷ ("node12", topology_node false 4)
      ∷ ("node13", topology_node false 5)
      ∷ ("node14", topology_node true 0)
      ∷ [];
  links =
      ("node6--node3", link 300 25 "node6" "node3")
      ∷ ("node6--node4", link 300 100 "node6" "node4")
      ∷ ("node7--node3", link 300 25 "node7" "node3")
      ∷ ("node7--node5", link 300 100 "node7" "node5")
      ∷ ("node8--node3", link 300 25 "node8" "node3")
      ∷ ("node9--node8", link 300 100 "node9" "node8")
      ∷ ("node10--node9", link 300 25 "node10" "node9")
      ∷ ("node10--node4", link 300 100 "node10" "node4")
      ∷ ("node11--node4", link 300 25 "node11" "node4")
      ∷ ("node11--node5", link 300 100 "node11" "node5")
      ∷ ("node12--node11", link 300 25 "node12" "node11")
      ∷ ("node13--node12", link 300 100 "node13" "node12")
      ∷ ("node3--node1", link 1200 300 "node3" "node1")
      ∷ ("node3--node2", link 1200 400 "node3" "node2")
      ∷ ("node4--node1", link 1200 500 "node4" "node1")
      ∷ ("node4--node2", link 1200 600 "node4" "node2")
      ∷ ("node5--node1", link 1200 300 "node5" "node1")
      ∷ ("node5--node2", link 1200 400 "node5" "node2")
      ∷ ("node1--node14", link 1200 200 "node1" "node14")
      ∷ ("node2--node14", link 1200 300 "node2" "node14")
      ∷ [];
}

abbrev requirements : ℕ → ℕ → NetworkRequirements ℤ
requirements latency bandwidth = record { latency = pos latency; bandwidth = pos bandwidth }

abbrev pub test_disaggregation : Disaggregation ℤ
test_disaggregation = record {
  protocol_stack = record { cu = "RRC" ∷ "PDCP" ∷ []; du = "RLCH" ∷ []; ru = "PHYH" ∷ [] };
  backhaul = some (requirements 0 151);
  midhaul = some (requirements 3000 151);
  fronthaul = some (requirements 200 152);
}

abbrev pub test_requested : RequestedResources ℤ
test_requested = record { memory = pos 536870912; cpu = pos 1 }

abbrev test_k8s_node : String → K8sNode ℤ
test_k8s_node name = record {
  name = name;
  memory_capacity = pos 8589934592;
  memory_allocatable = pos 6442450944;
  cpu_capacity = pos 5;
  cpu_allocatable = pos 4;
}

abbrev pub test_k8s_nodes : List (K8sNode ℤ)
test_k8s_nodes = map test_k8s_node (
    "node1" ∷ "node2" ∷ "node3" ∷ "node4" ∷ "node5" ∷ "node6" ∷ "node7" ∷ "node8" ∷ "node9"
    ∷ "node10" ∷ "node11" ∷ "node12" ∷ "node13" ∷ "node14" ∷ "node15" ∷ "node16" ∷ "node17"
    ∷ "node18" ∷ "node19" ∷ [])

abbrev pub test_ru : String → String → ChainPosition
test_ru name node = record {
  split_name = name;
  ru_node = node;
  cu_node = "";
  du_node = "";
  path = [];
  disaggregation = "";
}

abbrev pub test_orders : Orders
test_orders = record { links = λ i t ks. ks; positions = λ i ps. ps }
