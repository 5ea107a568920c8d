-- ===== src/Placement/Paths.antt =====
-- `findPathsTo` and `getNewPath` (operator/controllers/algorithm/placement.go).
pub mod Explore
pub mod Walks
pub mod Invariant
pub mod Rounds
pub mod Correct
pub mod Bound
use oai_k8s.Common.{String, ℕ, zero, suc, ◌+◌, ◌*◌, ◌≡◌, Option, none, some, List, [], ◌∷◌, ◌++◌}
use oai_k8s.Common.{Bool, true, false, ◌==◌, if◌then◌else◌, get_last?, length}
use oai_k8s.Common.{Result, ok, panic, hang, out_of_fuel}
use oai_k8s.Common.Dict.{Dict, lookup, keys}
use oai_k8s.Extern.{Platform}
use oai_k8s.Utils.{Node}
use oai_k8s.Utils.StringSets.{StringSet, new_string_set, add, has}
use oai_k8s.Placement.State.{PlacementBfs}

abbrev pub PathList : Type 0
PathList = List (List String)

unfoldable pub get_new_path : List String → String → List String
get_new_path current_path new_value = current_path ++ new_value ∷ []

-- The number of rounds that suffices: with at most `d` links at a node a path of which `k` nodes are
-- still free has at most `(d + 1) ^ k` extensions.
abbrev pub weight : ℕ → ℕ → ℕ
weight d zero = 1
weight d (suc k) = suc d * weight d k

module _ {Quantity : Type 0} where
  abbrev pub max_degree : Dict (Node Quantity) → ℕ
  max_degree [] = 0
  max_degree ((name, node) ∷ d) = length node.links + max_degree d

module _ (P : Platform) where
  open P use {Quantity, Queue, new_queue, put, get, is_empty}

  -- The inner loop, over the neighbours in the order in which `range` meets them.
  unfoldable pub put_neighbours :
      StringSet → List String → List String → Queue (List String) → Queue (List String)
  put_neighbours visited path [] q = q
  put_neighbours visited path (node_name ∷ rest) q =
      put_neighbours visited path rest (
        if has visited node_name then q else put (List String) q (get_new_path path node_name ∷ []))

  module _ (nodes : Dict (Node Quantity)) (order : ℕ → List String → List String)
      (node_to_find : String) where
    -- The outer loop, on fuel. `order` is asked for a new order in every round.
    unfoldable pub search : ℕ → StringSet → Queue (List String) → PathList → Result PathList
    unfolding put_neighbours add
    search zero visited q found = if is_empty (List String) q then ok found else out_of_fuel
    search (suc fuel) visited q found = elim (is_empty (List String) q) [
      | true ↦ ok found
      | false ↦ elim (get (List String) q) [
        | none ↦ hang
        | some (path, q') ↦ elim (get_last? path) [
          | none ↦ panic
          | some current_node ↦ elim (lookup current_node nodes) [
            | none ↦ panic
            | some node_to_explore ↦
                let visited' = add visited (current_node ∷ []) in
                search fuel visited'
                  (put_neighbours visited' path (order fuel (keys node_to_explore.links)) q')
                  (if current_node == node_to_find then found ++ path ∷ [] else found)
          ]
        ]
      ]
    ]

  unfoldable pub find_paths_to :
      PlacementBfs P.Float Quantity
      → (order : ℕ → List String → List String) → String
      → Result PathList
  unfolding search
  find_paths_to p order node_to_find =
      let nodes = p.graph.nodes in
      let queue = put (List String) (new_queue (List String) (length nodes)) ((p.root ∷ []) ∷ []) in
      let searched =
        search nodes order node_to_find (weight (max_degree nodes) (length nodes))
          (new_string_set []) queue [] in
      elim (lookup node_to_find p.cache_paths) [ some val ↦ ok val | none ↦ searched ]
