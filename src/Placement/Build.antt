-- ===== src/Placement/Build.antt =====
-- `NewPlacementBFS` (operator/controllers/algorithm/placement.go).
pub mod Edges
pub mod Linked
pub mod Filled
pub mod Closed
pub mod Returns
use oai_k8s.Common.{String, ◌≡◌, Option, none, some, List, [], ◌∷◌, if◌then◌else◌}
use oai_k8s.Common.{Result, ok, panic, deref, and_then}
use oai_k8s.Common.Dict.{Dict, insert, lookup}
use oai_k8s.Api.{Topology, TopologyNode, TopologyLink, Disaggregation}
use oai_k8s.Utils.{Node, Link, Resources, RequestedResources}
use oai_k8s.Utils.NodeList.{K8sNode, NodeMap, node_list_to_map, get}
use oai_k8s.Placement.State.{Graph, PlacementBfs}

module _ {Quantity : Type 0} where
  abbrev pub resources_of : K8sNode Quantity → Resources Quantity
  resources_of k8s_node = record {
    memory = k8s_node.memory_capacity;
    memory_available = k8s_node.memory_allocatable;
    cpu = k8s_node.cpu_capacity;
    cpu_available = k8s_node.cpu_allocatable;
  }

  -- The first loop: the graph's nodes, and the name of the core node, where one was met so far.
  pub build_nodes :
      NodeMap Quantity
      → Dict (Option TopologyNode)
      → String × Dict (Node Quantity)
      → Result (String × Dict (Node Quantity))
  build_nodes k8s_node_map [] state = ok state
  build_nodes k8s_node_map ((name, pointer) ∷ rest) (core, graph_nodes) =
      and_then (deref (get k8s_node_map name)) (λ k8s_node.
        let graph_node : Node Quantity = record {
          node_name = name;
          links = [];
          resources = resources_of k8s_node;
        } in
        and_then (deref pointer) (λ node.
          build_nodes k8s_node_map rest
            (if node.core then name else core, insert name graph_node graph_nodes)))

  -- `node.Links[neighbour] = v` for the node of that name.
  pub connect : String → String → String → Dict (Node Quantity) → Result (Dict (Node Quantity))
  connect name neighbour link_name graph_nodes = and_then (deref (lookup name graph_nodes)) (λ node.
      let node' = record node { links = insert neighbour link_name node.links } in
      ok (insert name node' graph_nodes))

module _ {Float Quantity : Type 0} where
  -- The second loop.
  pub build_links :
      Dict (Option (TopologyLink Float)) → Graph Float Quantity → Result (Graph Float Quantity)
  build_links [] g = ok g
  build_links ((link_name, pointer) ∷ rest) g = and_then (deref pointer) (λ link.
      let v : Link Float = record {
        link_name = link_name;
        available_bandwidth = link.link_capacity;
        latency = link.link_delay;
      } in
      and_then (connect link.source.node link.destination.node link_name g.nodes) (λ nodes'.
        and_then (connect link.destination.node link.source.node link_name nodes') (λ nodes''.
          build_links rest (record { nodes = nodes''; links = insert link_name v g.links }))))

  unfoldable pub new_placement_bfs :
      Topology Float
      → Dict (Disaggregation Float)
      → List (K8sNode Quantity)
      → RequestedResources Quantity
      → Result (PlacementBfs Float Quantity)
  unfolding build_nodes build_links connect node_list_to_map get insert
  new_placement_bfs topology disaggregations k8s_nodes requested =
      and_then (build_nodes (node_list_to_map k8s_nodes) topology.nodes ("", [])) (λ (core, nodes).
        and_then (build_links topology.links (record { nodes = nodes; links = [] })) (λ g.
          ok (record {
            root = core;
            topology = topology;
            disaggregations = disaggregations;
            requested_resources = requested;
            graph = g;
            cache_paths = [];
          })))
