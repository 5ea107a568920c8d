-- ===== src/Placement/Place/Shape.antt =====
-- What no placement changes: nodes, links and who they join.
use oai_k8s.Common.{String, ◌≡◌, refl, sym, ◌∙◌, ap, none, some, List, inl, inr, Option-cases}
use oai_k8s.Common.Contracts.{Contract, always, After, After-always, always-After, Keeps}
use oai_k8s.Common.Dict.{Dict, lookup, part, part-insert}
use oai_k8s.Extern.{Platform}
use oai_k8s.Api.{ChainPosition, NetworkRequirements}
use oai_k8s.Utils.{Node, Link, RequestedResources}
use oai_k8s.Utils.Links
use oai_k8s.Utils.Nodes
use oai_k8s.Placement.State.{Graph, PlacementBfs, Orders}
use oai_k8s.Placement.Network.{Walk, charge}
use oai_k8s.Placement.Network.Crossing.{SameLinks, links_at}
use oai_k8s.Placement.Place.{allocate_node, place}
use oai_k8s.Placement.Place.Contracts.{Writes, place-Keeps}

module _ {Quantity : Type 0} where
  -- Name, links and capacity of a node.
  abbrev pub fixed_node : Node Quantity → String × Dict String × Quantity × Quantity
  fixed_node node = (node.node_name, node.links, node.resources.memory, node.resources.cpu)

  links_at_of_part :
      (u : String) (nodes : Dict (Node Quantity))
      → links_at u nodes ≡ elim (part fixed_node u nodes) [ none ↦ none | some x ↦ some x.1 ]
  links_at_of_part u nodes = elim (Option-cases (lookup u nodes)) [
    | inl n ↦ rw (n, links_at, part) refl
    | inr (node, e) ↦ rw (e, links_at, part) refl
  ]

module _ {Float : Type 0} where
  -- Name and latency of a link.
  abbrev pub fixed_link : Link Float → String × Float
  fixed_link link = (link.link_name, link.latency)

module _ {Float Quantity : Type 0} where
  -- `g` has the nodes and links of `g₀`, and they differ at most in what is left of them.
  pub record IsShapeOf (g₀ g : Graph Float Quantity) : Type 0 where
    pub same_nodes : (name : String) → part fixed_node name g.nodes ≡ part fixed_node name g₀.nodes
    pub same_links : (l : String) → part fixed_link l g.links ≡ part fixed_link l g₀.links

  pub IsShapeOf-SameLinks :
      (g₀ g : Graph Float Quantity) → IsShapeOf g₀ g → SameLinks g₀.nodes g.nodes
  IsShapeOf-SameLinks g₀ g h u =
      links_at_of_part u g.nodes
      ∙ ap (λ o. elim o [ none ↦ none | some x ↦ some x.1 ]) (h.same_nodes u)
      ∙ sym (links_at_of_part u g₀.nodes)

module _ (P : Platform) where
  open P use {Float, Quantity}

  abbrev pub shaped : Graph Float Quantity → Contract (Graph Float Quantity)
  shaped g₀ = always (IsShapeOf g₀)

  charged :
      (g₀ : Graph Float Quantity) (l : String) (link : Link Float) (r : NetworkRequirements Float)
      (w : Walk P) (g : Graph Float Quantity)
      → lookup l g.links ≡ some link
      → IsShapeOf g₀ g
      → After (shaped g₀) (charge P l link r w g).0 (charge P l link r w g).1
  unfolding charge Links.allocate_resources
  charged g₀ l link r w g e h = always-After (IsShapeOf g₀) _ _ (record {
    same_nodes = h.same_nodes;
    same_links = λ j. part-insert fixed_link l _ link g.links e refl j ∙ h.same_links j;
  })

  allocated :
      (g₀ : Graph Float Quantity) (requested : RequestedResources Quantity) (name : String)
      → Keeps (shaped g₀) (allocate_node P requested name)
  unfolding allocate_node Nodes.allocate_resources
  allocated g₀ requested name = record {
    at = λ g h. elim (Option-cases (lookup name g.nodes)) [
      | inl n ↦ rw (n, allocate_node) h
      | inr (node, e) ↦
          rw (e, allocate_node)
            (always-After (IsShapeOf g₀) _ _ (record {
              same_nodes =
                  λ j. part-insert fixed_node name _ node g.nodes e refl j ∙ h.same_nodes j;
              same_links = h.same_links;
            }))
    ];
  }

  pub Writes-shaped : (g₀ : Graph Float Quantity) → Writes P (shaped g₀)
  Writes-shaped g₀ = record { charged = charged g₀; allocated = allocated g₀ }

  -- Whatever `Place` answers, and also where it panics, the graph has the nodes and the links that it had, with
  -- their names, ends, capacities and latencies.
  pub place-IsShapeOf :
      (p : PlacementBfs Float Quantity) (orders : Orders) (rus : List ChainPosition)
      → IsShapeOf p.graph (place P p orders rus).1
  place-IsShapeOf p orders rus =
      After-always (IsShapeOf p.graph) (place P p orders rus).0 (place P p orders rus).1 (
        place-Keeps P (shaped p.graph) (Writes-shaped p.graph) p orders rus
          (record { same_nodes = λ j. refl; same_links = λ j. refl }))
