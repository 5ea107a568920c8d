-- ===== src/Placer/Checked.antt =====
-- What the check of the topology (`validateTopologyNodes`, operator/controllers/splitsplacer_controller.go)
-- does for the construction of the graph.
use oai_k8s.Common.{◌≡◌, Option, ap, ◌∙◌, List, [], ◌∷◌, Memᴰ, ⊎_elim, Option-cases, inl, inr}
use oai_k8s.Common.{ok}
use oai_k8s.Common.Dict.{Dict, keys}
use mathlib.Core.List.Memᴰ
use oai_k8s.Extern.{Platform}
use oai_k8s.Api.{Topology, TopologyNode, Disaggregation}
use oai_k8s.Utils.{RequestedResources}
use oai_k8s.Utils.NodeList.{K8sNode, NodeMap, node_list_to_map, get}
use oai_k8s.Placement.State.{PlacementBfs}
use oai_k8s.Placement.Build.{new_placement_bfs}
use oai_k8s.Placement.Build.Closed.{IsGraphOf, new_placement_bfs-IsGraphOf}
use oai_k8s.Placement.Build.Returns.{AllListed, EndsAt, NoNil, new_placement_bfs-returns}
use oai_k8s.Placer.Defs.{PlacerEnv}
use oai_k8s.Placer.Topology.{missing_nodes, validate_topology_nodes}

module _ {P : Platform} {World : Type 0} (env : PlacerEnv P World) where
  open P use {Float, Quantity}
  open env use {client}

  missing_nodes-AllListed :
      (m : NodeMap Quantity) (ts : Dict (Option TopologyNode))
      → missing_nodes env m ts ≡ []
      → AllListed m ts
  unfolding missing_nodes
  missing_nodes-AllListed m [] h u x = absurd (Memᴰ.not-nil x)
  missing_nodes-AllListed m ((name, t) ∷ rest) h u x = elim (Option-cases (get m name)) [
    | inl n ↦ let bad = rw (n, missing_nodes) at h in cc
    | inr (k, e) ↦
        ⊎_elim (λ s. (k, ap (get m) s ∙ e))
          (missing_nodes-AllListed m rest (rw (e, missing_nodes) at h) u) (Memᴰ.cases_cons x)
  ]

  validated-AllListed :
      (topology : Topology Float) (nodes : List (K8sNode Quantity)) (w w' : World)
      → client.list_nodes w ≡ (ok nodes, w')
      → (validate_topology_nodes env topology w).0 ≡ ok []
      → AllListed (node_list_to_map nodes) topology.nodes
  unfolding validate_topology_nodes
  validated-AllListed topology nodes w w' e h =
      missing_nodes-AllListed (node_list_to_map nodes) topology.nodes (
        let r : ok (missing_nodes env (node_list_to_map nodes) topology.nodes) ≡ ok [] =
          rw (e, validate_topology_nodes) at h in
        cc)

  -- When the check of the nodes reports no error, over the nodes that were listed, and the links of the topology
  -- end at its nodes, and no node or link of the topology is the nil pointer, then `NewPlacementBFS` returns the graph of the topology on these nodes.
  pub validate_topology_nodes-IsGraphOf :
      (topology : Topology Float) (disaggregations : Dict (Disaggregation Float))
      (nodes : List (K8sNode Quantity)) (requested : RequestedResources Quantity) (w w' : World)
      → client.list_nodes w ≡ (ok nodes, w')
      → (validate_topology_nodes env topology w).0 ≡ ok []
      → EndsAt (λ u. Memᴰ u (keys topology.nodes)) topology.links
      → NoNil topology.nodes
      → NoNil topology.links
      → (p : PlacementBfs Float Quantity) × (new_placement_bfs topology disaggregations nodes
            requested
          ≡ ok p)
        × IsGraphOf topology p
  validate_topology_nodes-IsGraphOf topology disaggregations nodes requested w w' e h ends
        nodes_there links_there =
      let (p, built) =
        new_placement_bfs-returns topology disaggregations nodes requested
          (validated-AllListed topology nodes w w' e h) ends nodes_there links_there in
      (p, built, new_placement_bfs-IsGraphOf topology disaggregations nodes requested p built)
