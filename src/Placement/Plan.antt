-- ===== src/Placement/Plan.antt =====
-- What `NewPlacementBFS` and then `Place` (operator/controllers/algorithm/placement.go) promise about a topology,
-- without the graph.
use oai_k8s.Common.{
  String, ℕ, ◌≡◌, Option, some, List, [], ◌∷◌, ◌++◌, Bool, false, get_elem?, Memᴰ, Permᴰ, ◌⊎◌,
  ⊎_elim, inl, inr,
}
use oai_k8s.Common.{Result, Error, ok}
use oai_k8s.Common.Runs.{Runs}
use oai_k8s.Common.Dict.{Dict}
use oai_k8s.Extern.{Platform, Laws}
use oai_k8s.Api.{ChainPosition, Topology, TopologyLink, Disaggregation}
use oai_k8s.Utils.{RequestedResources}
use oai_k8s.Utils.NodeList.{K8sNode}
use oai_k8s.Placement.State.{PlacementBfs, Position, Orders}
use oai_k8s.Placement.Dsg8.{between}
use oai_k8s.Placement.Build.{new_placement_bfs}
use oai_k8s.Placement.Build.Linked.{Joins}
use oai_k8s.Placement.Build.Closed.{IsGraphOf, new_placement_bfs-IsGraphOf}
use oai_k8s.Placement.Paths.Walks.{SimplePath}
use oai_k8s.Placement.Place.{place, returned, fulfill_ru}
use oai_k8s.Placement.Place.Answer.{place-ne-false, returned-err}
use oai_k8s.Placement.Place.Ends.{place-Runs}
use oai_k8s.Placement.Place.Placed.{Each, IsLeft, place-Each}

module _ {Float : Type 0} (links : Dict (Option (TopologyLink Float))) (root : String) where
  -- From the root along links of the topology, in either direction, without meeting a node twice.
  pub data Route : List String → String → Type 0 where
    origin : Route (root ∷ []) root
    extend :
        {path : List String} {u v : String}
        → Route path u
        → Joins links u v
        → ¬ Memᴰ v path
        → Route (path ++ v ∷ []) v

  pub record Serves (ru_node : String) (position : Position) : Type 0 where
    pub route : Route position.path ru_node
    pub cu_second : get_elem? position.path 1 ≡ some position.cu_node_name
    pub du_between :
        (position.du_node_name ≡ "") ⊎ Memᴰ position.du_node_name (between position.path)

  -- A unit as it was, or fulfilled with a position that serves its node.
  abbrev pub IsPlanned : ChainPosition → ChainPosition → Type 0
  IsPlanned ru ru' =
      (ru' ≡ ru)
      ⊎ ((position : Position) × (ru' ≡ fulfill_ru ru position) × Serves ru.ru_node position)

-- What the placement of units answers and leaves of them. False is answered only with an error.
pub record IsPlan {Float Graph : Type 0} (links : Dict (Option (TopologyLink Float)))
    (root : String) (rus : List ChainPosition) (answer : Result Bool × Graph × List ChainPosition)
    : Type 0 where
  pub units : Each (IsPlanned links root) rus answer.2
  pub ends : Runs answer.0
  pub never_refuses :
      (e : Option Error) → returned answer.0 ≡ some (false, e) → (x : Error) × (e ≡ some x)

Each-map :
    {A B : Type 0} {R S : A → B → Type 0}
    → ((a : A) (b : B) → R a b → S a b)
    → (xs : List A) (ys : List B) → Each R xs ys
    → Each S xs ys
Each-map f [] [] e = tt
Each-map f [] (y ∷ ys) e = absurd e
Each-map f (x ∷ xs) [] e = absurd e
Each-map f (x ∷ xs) (y ∷ ys) (r, e) = (f x y r, Each-map f xs ys e)

module _ {Float Quantity : Type 0} (topology : Topology Float) (p : PlacementBfs Float Quantity)
    (g : IsGraphOf topology p) where
  SimplePath-Route :
      {path : List String} {u : String}
      → SimplePath p.graph.nodes p.root path u
      → Route topology.links p.root path u
  SimplePath-Route (SimplePath.origin e f) = rw (e, f) origin
  SimplePath-Route (SimplePath.extend {u = u} {v = v} s d n e) =
      rw e (extend (SimplePath-Route s) ((g.edges u v).0 d) n)

  IsLeft-IsPlanned :
      (ru ru' : ChainPosition)
      → IsLeft p.graph.nodes p.root ru ru'
      → IsPlanned topology.links p.root ru ru'
  IsLeft-IsPlanned ru ru' = ⊎_elim inl (λ (position, e, s). inr (
    position,
    e,
    record {
      route = SimplePath-Route s.path_simple;
      cu_second = s.cu_second;
      du_between = s.du_between;
    },
  ))

module _ (P : Platform) (L : Laws P) where
  open P use {Float, Quantity}

  -- When `NewPlacementBFS` returns a graph for a topology, then `Place` on it, for every order of iteration, comes to
  -- an end, answers false only with an error, and leaves the units in their order, each as it was, or with a path, a CU and a DU
  -- such that the path leads from the root to the node of the unit along links of the topology, without meeting
  -- a node twice, the CU is on its second node, and the DU has no node or one between that and the last one.
  pub new_placement_bfs-IsPlan :
      (topology : Topology Float) (disaggregations : Dict (Disaggregation Float))
      (k8s_nodes : List (K8sNode Quantity)) (requested : RequestedResources Quantity)
      (p : PlacementBfs Float Quantity) (orders : Orders)
      → ((i t : ℕ) (ks : List String) → Permᴰ (orders.links i t ks) ks)
      → ((i : ℕ) (ps : List (ℕ × Position)) → Permᴰ (orders.positions i ps) ps)
      → new_placement_bfs topology disaggregations k8s_nodes requested ≡ ok p
      → (rus : List ChainPosition) → IsPlan topology.links p.root rus (place P p orders rus)
  new_placement_bfs-IsPlan topology disaggregations k8s_nodes requested p orders l o h rus =
      let g = new_placement_bfs-IsGraphOf topology disaggregations k8s_nodes requested p h in
      record {
        units =
            Each-map (IsLeft-IsPlanned topology p g) rus (place P p orders rus).2
              (place-Each P L p orders l o g.no_cache rus);
        ends = place-Runs P L p orders l o g.no_cache rus;
        never_refuses = returned-err (place P p orders rus).0 (place-ne-false P p orders rus);
      }
