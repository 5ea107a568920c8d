-- ===== src/Placement/Build/Closed.antt =====
-- The graph that `NewPlacementBFS` returns.
use oai_k8s.Common.{String, ◌≡◌, refl, ap, sym, ◌∙◌, subst, Option, none, some, List, [], ◌∷◌}
use oai_k8s.Common.{Memᴰ, Distinct, ◌⊎◌, ⊎_elim, inl, inr, ◌↔◌, Option-cases}
use oai_k8s.Common.{ok, and_then, and_then-eq-ok}
use oai_k8s.Common.Dict.{Dict, lookup, keys, mem-keys_of_lookup}
use mathlib.Core.List.Memᴰ
use oai_k8s.Api.{Topology, TopologyLink, Disaggregation}
use oai_k8s.Utils.{Node, RequestedResources}
use oai_k8s.Utils.NodeList.{K8sNode, node_list_to_map}
use oai_k8s.Placement.State.{Graph, PlacementBfs}
use oai_k8s.Placement.Build.{build_nodes, build_links, new_placement_bfs}
use oai_k8s.Placement.Build.Edges.{Known}
use oai_k8s.Placement.Build.Linked.{Touches, JoinsBy, Joins, Joins-swap, Linked, build_links-Linked}
use oai_k8s.Placement.Network.Crossing.{
  Points, UniquePointers, links_at, links_at_of_lookup, links_at_of_none,
}
use oai_k8s.Placement.Paths.Walks.{Edge}
use oai_k8s.Placement.Paths.Correct.{IsClosed}
use oai_k8s.Placement.Build.Filled.{HasCore, Filled, build_nodes-Filled}

mem-keys : {V : Type 0} (k : String) (v : V) (d : Dict V) → Memᴰ (k, v) d → Memᴰ k (keys d)
mem-keys k v [] m = absurd (Memᴰ.not-nil m)
mem-keys k v ((j, w) ∷ d) m =
    ⊎_elim (λ e. Memᴰ.head (ap (λ z. z.0) e)) (λ t. Memᴰ.tail (mem-keys k v d t))
      (Memᴰ.cases_cons m)

-- In a map whose keys are distinct a key has one value.
same_of_Distinct :
    {V : Type 0} (d : Dict V) (k : String) (v w : V)
    → Distinct (keys d)
    → Memᴰ (k, v) d
    → Memᴰ (k, w) d
    → v ≡ w
same_of_Distinct [] k v w d m m' = absurd (Memᴰ.not-nil m)
same_of_Distinct ((j, x) ∷ rest) k v w (n, d) m m' =
    let key = λ (z : _) (t : Memᴰ (k, z) rest). mem-keys k z rest t in
    ⊎_elim
      (λ e.
        ⊎_elim (λ e'. ap (λ z. z.1) e ∙ sym (ap (λ z. z.1) e'))
          (λ t'. absurd (n (subst (λ z. Memᴰ z (keys rest)) (ap (λ z. z.0) e) (key w t'))))
          (Memᴰ.cases_cons m'))
      (λ t.
        ⊎_elim (λ e'. absurd (n (subst (λ z. Memᴰ z (keys rest)) (ap (λ z. z.0) e') (key v t))))
          (λ t'. same_of_Distinct rest k v w d t t') (Memᴰ.cases_cons m'))
      (Memᴰ.cases_cons m)

Touches-unique :
    {Float : Type 0} (link : TopologyLink Float) (u v u' v' : String)
    → Touches link u v
    → Touches link u' v'
    → (u ≡ u') × (v ≡ v') ⊎ (u ≡ v') × (v ≡ u')
Touches-unique link u v u' v' j j' =
    ⊎_elim
      (λ (a, b).
        ⊎_elim (λ (c, d). inl (a ∙ sym c, b ∙ sym d)) (λ (c, d). inr (a ∙ sym d, b ∙ sym c)) j')
      (λ (a, b).
        ⊎_elim (λ (c, d). inr (a ∙ sym d, b ∙ sym c)) (λ (c, d). inl (a ∙ sym c, b ∙ sym d)) j')
      j

no_pointers :
    {Quantity : Type 0} (nodes : Dict (Node Quantity))
    → ((u v : String) → ¬ Edge nodes u v)
    → (u v l : String) (links : Dict String) → links_at u nodes ≡ some links
    → lookup v links ≡ some l
    → ⊥
no_pointers nodes b u v l links y z = elim (Option-cases (lookup u nodes)) [
  | inl n ↦ let bad = sym y ∙ links_at_of_none u nodes n in cc
  | inr (node, e) ↦
      let same : links ≡ node.links = (let h = sym y ∙ links_at_of_lookup u nodes node e in cc) in
      b u v (node, e, mem-keys_of_lookup v node.links (subst (λ x. lookup v x ≡ some l) same z))
]

module _ {Float Quantity : Type 0} where
  -- The graph has an edge between two nodes exactly where the topology has a link between them, in
  -- either direction, and the search can walk it.
  pub record IsGraphOf (topology : Topology Float) (p : PlacementBfs Float Quantity) : Type 0 where
    pub edges : (u v : String) → Edge p.graph.nodes u v ↔ Joins topology.links u v
    pub all_nodes : (u : String) → Memᴰ u (keys topology.nodes) → Known p.graph.nodes u
    pub closed : HasCore topology.nodes → IsClosed p.graph.nodes p.root
    pub pointers : (u v l : String) → Points p.graph.nodes u v l → JoinsBy topology.links l u v
    pub unique : Distinct (keys topology.links) → UniquePointers p.graph.nodes
    pub no_cache : p.cache_paths ≡ []

  graph_of :
      (topology : Topology Float) (nodes : Dict (Node Quantity)) (p : PlacementBfs Float Quantity)
      → p.cache_paths ≡ []
      → Filled topology.nodes "" p.root [] nodes
      → Linked topology.links nodes p.graph.nodes
      → IsGraphOf topology p
  graph_of topology nodes p c f l' =
      let none_yet : (u v : String) → ¬ Edge nodes u v =
        f.bare
          (λ u v (m, e, k). let x : ◌≡◌ {A = Option (Node Quantity)} none (some m) = e in cc) in
      let joined : (u v : String) → Edge p.graph.nodes u v → Joins topology.links u v =
        λ u v x. ⊎_elim (λ y. absurd (none_yet u v y)) (λ j. j) ((l'.edges u v).0 x) in
      let pointed : (u v l : String) → Points p.graph.nodes u v l → JoinsBy topology.links l u v =
        λ u v l x.
          ⊎_elim (λ (links, y, z). absurd (no_pointers nodes none_yet u v l links y z)) (λ j. j)
            (l'.pointers u v l x) in
      record {
        edges = λ u v. (joined u v, λ x. (l'.edges u v).1 (inr x));
        all_nodes = λ u m. (l'.known u).1 (f.added u m);
        closed = λ core_there. record {
          root_known = (l'.known p.root).1 (f.added p.root (f.core_found core_there));
          ends_known =
              λ u v e. (l'.known v).1 (l'.ends v u (Joins-swap topology.links u v (joined u v e)));
        };
        pointers = pointed;
        unique = λ d u v u' v' l x x'.
            let (k, m, j) = pointed u v l x in
            let (k', m', j') = pointed u' v' l x' in
            Touches-unique k u v u' v' j (
              let e : some k' ≡ some k =
                same_of_Distinct topology.links l (some k') (some k) d m' m in
              let same : k' ≡ k = cc in subst (λ z. Touches z u' v') same j');
        no_cache = c;
      }

  -- When `NewPlacementBFS` returns, it returns the graph of the topology: the edges are the links in
  -- both directions, a pointer in a node names a link that joins the node and the neighbour, links
  -- whose names are distinct are held for one pair of nodes each, all nodes are there, no path is cached, and if there is a core node then the root
  -- and all ends of links are nodes of the graph.
  pub new_placement_bfs-IsGraphOf :
      (topology : Topology Float) (disaggregations : Dict (Disaggregation Float))
      (k8s_nodes : List (K8sNode Quantity)) (requested : RequestedResources Quantity)
      (p : PlacementBfs Float Quantity)
      → new_placement_bfs topology disaggregations k8s_nodes requested ≡ ok p
      → IsGraphOf topology p
  unfolding new_placement_bfs
  new_placement_bfs-IsGraphOf topology disaggregations k8s_nodes requested p h =
      let finish = λ (core : String) (g : Graph Float Quantity).
        let p : PlacementBfs Float Quantity = record {
          root = core;
          topology = topology;
          disaggregations = disaggregations;
          requested_resources = requested;
          graph = g;
          cache_paths = [];
        } in
        p in
      let start = λ (nodes : Dict (Node Quantity)).
        let g : Graph Float Quantity = record { nodes = nodes; links = [] } in g in
      let ((core, nodes), e₁, h₁) =
        and_then-eq-ok (build_nodes (node_list_to_map k8s_nodes) topology.nodes ("", []))
          (λ (core, nodes).
            and_then (build_links topology.links (start nodes)) (λ g. ok (finish core g)))
          h in
      let (g, e₂, h₂) =
        and_then-eq-ok (build_links topology.links (start nodes)) (λ g. ok (finish core g)) h₁ in
      let f = build_nodes-Filled (node_list_to_map k8s_nodes) topology.nodes "" core [] nodes e₁ in
      let l = build_links-Linked topology.links (start nodes) g e₂ in
      let same : finish core g ≡ p = cc in
      subst (IsGraphOf topology) same (graph_of topology nodes (finish core g) refl f l)
