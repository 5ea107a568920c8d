-- ===== src/Placement/Build/Returns.antt =====
-- Where `NewPlacementBFS` (operator/controllers/algorithm/placement.go) meets no nil pointer.
use oai_k8s.Common.{String, ◌≡◌, refl, Option, none, some, List, [], ◌∷◌, Memᴰ, if◌then◌else◌}
use oai_k8s.Common.{ok}
use oai_k8s.Common.Dict.{Dict, insert, keys}
use oai_k8s.Api.{Topology, TopologyNode, TopologyLink, Disaggregation}
use oai_k8s.Utils.{Node, Link, RequestedResources}
use oai_k8s.Utils.NodeList.{K8sNode, NodeMap, node_list_to_map, get}
use oai_k8s.Placement.State.{Graph, PlacementBfs}
use oai_k8s.Placement.Build.{build_nodes, connect, build_links, new_placement_bfs, resources_of}
use oai_k8s.Placement.Build.Edges.{Known, connect-Connects}
use oai_k8s.Placement.Build.Filled.{build_nodes-Filled}

abbrev empty : (A : Type 0) → Option A
empty A = none

-- No entry is the nil pointer.
abbrev pub NoNil : {A : Type 0} → Dict (Option A) → Type 0
NoNil {A} d = (name : String) → ¬ Memᴰ (name, empty A) d

module _ {Quantity : Type 0} where
  -- The cluster has the nodes of the topology.
  abbrev pub AllListed : NodeMap Quantity → Dict (Option TopologyNode) → Type 0
  AllListed m ts =
      (name : String) → Memᴰ name (keys ts) → (node : K8sNode Quantity) × (get m name ≡ some node)

  build_nodes-returns :
      (m : NodeMap Quantity) (ts : Dict (Option TopologyNode)) (core : String)
      (nodes : Dict (Node Quantity))
      → AllListed m ts
      → NoNil ts
      → (core' : String) × (nodes' : Dict (Node Quantity)) × (build_nodes m ts (core, nodes)
          ≡ ok (core', nodes'))
  unfolding build_nodes
  build_nodes-returns m [] core nodes h there = (core, nodes, refl)
  build_nodes-returns m ((name, none) ∷ rest) core nodes h there =
      absurd (there name (Memᴰ.head refl))
  build_nodes-returns m ((name, some t) ∷ rest) core nodes h there =
      let (k, e) = h name (Memᴰ.head refl) in
      let fresh : Node Quantity = record {
        node_name = name;
        links = [];
        resources = resources_of k;
      } in
      let (core', nodes', f) =
        build_nodes-returns m rest (if t.core then name else core) (insert name fresh nodes)
          (λ u x. h u (Memᴰ.tail x)) (λ n m. there n (Memᴰ.tail m)) in
      (core', nodes', rw e f)

  connect-returns :
      (a b l : String) (nodes : Dict (Node Quantity))
      → Known nodes a
      → (nodes' : Dict (Node Quantity)) × (connect a b l nodes ≡ ok nodes')
        × ((u : String) → Known nodes u → Known nodes' u)
  unfolding connect
  connect-returns a b l nodes (node, e) =
      let nodes' = insert a (record node { links = insert b l node.links }) nodes in
      let h : connect a b l nodes ≡ ok nodes' = rw e refl in
      (nodes', h, λ u. ((connect-Connects a b l nodes nodes' h).known u).1)

module _ {Float : Type 0} where
  -- The links of the topology end at nodes of the topology.
  abbrev pub EndsAt : (String → Type 0) → Dict (Option (TopologyLink Float)) → Type 0
  EndsAt K links =
      (name : String) (link : TopologyLink Float)
      → Memᴰ (name, some link) links
      → K link.source.node × K link.destination.node

module _ {Float Quantity : Type 0} where
  build_links-returns :
      (links : Dict (Option (TopologyLink Float))) (g : Graph Float Quantity)
      → EndsAt (Known g.nodes) links
      → NoNil links
      → (g' : Graph Float Quantity) × (build_links links g ≡ ok g')
  unfolding build_links
  build_links-returns [] g h there = (g, refl)
  build_links-returns ((name, none) ∷ rest) g h there = absurd (there name (Memᴰ.head refl))
  build_links-returns ((name, some link) ∷ rest) g h there =
      let (source, destination) = h name link (Memᴰ.head refl) in
      let (nodes₁, e₁, k₁) =
        connect-returns link.source.node link.destination.node name g.nodes source in
      let (nodes₂, e₂, k₂) =
        connect-returns link.destination.node link.source.node name nodes₁
          (k₁ link.destination.node destination) in
      let v : Link Float = record {
        link_name = name;
        available_bandwidth = link.link_capacity;
        latency = link.link_delay;
      } in
      let (g', e) =
        build_links-returns rest (record { nodes = nodes₂; links = insert name v g.links })
          (λ n l m.
            let (x, y) = h n l (Memᴰ.tail m) in
            (
              k₂ l.source.node (k₁ l.source.node x),
              k₂ l.destination.node (k₁ l.destination.node y),
            ))
          (λ n m. there n (Memᴰ.tail m)) in
      (g', rw (e₁, e₂) e)

  -- Where the cluster has the nodes of the topology, and the links of the topology end at them, and none of both is nil,
  -- `NewPlacementBFS` returns.
  pub new_placement_bfs-returns :
      (topology : Topology Float) (disaggregations : Dict (Disaggregation Float))
      (k8s_nodes : List (K8sNode Quantity)) (requested : RequestedResources Quantity)
      → AllListed (node_list_to_map k8s_nodes) topology.nodes
      → EndsAt (λ u. Memᴰ u (keys topology.nodes)) topology.links
      → NoNil topology.nodes
      → NoNil topology.links
      → (p : PlacementBfs Float Quantity) × (new_placement_bfs topology disaggregations k8s_nodes
            requested
          ≡ ok p)
  unfolding new_placement_bfs
  new_placement_bfs-returns topology disaggregations k8s_nodes requested listed ends nodes_there
        links_there =
      let m = node_list_to_map k8s_nodes in
      let (core, nodes, e₁) = build_nodes-returns m topology.nodes "" [] listed nodes_there in
      let filled = build_nodes-Filled m topology.nodes "" core [] nodes e₁ in
      let (g, e₂) =
        build_links-returns topology.links (record { nodes = nodes; links = [] })
          (λ n l x.
            let (a, b) = ends n l x in
            (filled.added l.source.node a, filled.added l.destination.node b))
          links_there in
      let p : PlacementBfs Float Quantity = record {
        root = core;
        topology = topology;
        disaggregations = disaggregations;
        requested_resources = requested;
        graph = g;
        cache_paths = [];
      } in
      (p, rw (e₁, e₂) refl)
