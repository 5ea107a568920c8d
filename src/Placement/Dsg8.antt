-- ===== src/Placement/Dsg8.antt =====
-- Disaggregation 8 (operator/controllers/algorithm/dsg8.go): its data, and the positions that the first
-- loop of `Validate` collects.
use oai_k8s.Common.{String, ℕ, suc, Option, none, some, List, [], ◌∷◌}
use oai_k8s.Common.{Bool, if◌then◌else◌, get_elem?}
use oai_k8s.Common.{Result, ok, deref, and_then}
use oai_k8s.Common.Dict.{Dict, lookup}
use oai_k8s.Extern.{Platform}
use oai_k8s.Api.{Disaggregation}
use oai_k8s.Utils.{Node, RequestedResources}
use oai_k8s.Utils.Nodes
use oai_k8s.Placement.State.{Position}

abbrev pub dsg8_key : String
dsg8_key = "1"

-- The nodes are those of the graph, which the methods take and return.
pub record Disaggregation8 (Float Quantity : Type 0) : Type 0 where
  pub requested_resources : RequestedResources Quantity
  pub network_requirements : Option (Disaggregation Float)

-- path[2], …, path[len(path) - 2]
abbrev pub drop_last : List String → List String
drop_last [] = []
drop_last (x ∷ []) = []
drop_last (x ∷ y ∷ rest) = x ∷ drop_last (y ∷ rest)

abbrev pub between : List String → List String
between [] = []
between (x ∷ []) = []
between (x ∷ y ∷ rest) = drop_last rest

module _ (P : Platform) where
  open P use {Float, Quantity, Queue, zero_float, add_float, lt_float, new_queue, put, get}

  module _ (d : Disaggregation8 Float Quantity) where
    abbrev pub suits : Node Quantity → Bool
    suits node = Nodes.has_resources P node d.requested_resources.memory d.requested_resources.cpu

    -- The loop over `j`: the first node with resources, or the empty name.
    unfoldable pub find_du : Dict (Node Quantity) → List String → Result String
    find_du nodes [] = ok ""
    find_du nodes (name ∷ rest) =
        let later = find_du nodes rest in
        and_then (deref (lookup name nodes)) (λ du_node. if suits du_node then ok name else later)

    -- One round of the first loop of `Validate`; `none` where it continues with the next path.
    unfoldable pub candidate : Dict (Node Quantity) → List String → Result (Option Position)
    unfolding find_du
    candidate nodes path = and_then (deref (get_elem? path 1)) (λ cu_name.
        and_then (deref (lookup cu_name nodes)) (λ cu_node.
          if suits cu_node
          then and_then (find_du nodes (between path)) (λ du_name. ok (
              some (record {
                cu_node_name = cu_name;
                du_node_name = du_name;
                path = path;
                disaggregation_key = dsg8_key;
              })))
          else ok none))

    -- `validation.positions`, in the order in which its keys were written
    unfoldable pub candidates :
        Dict (Node Quantity) → ℕ → List (List String) → Result (List (ℕ × Position))
    unfolding candidate
    candidates nodes i [] = ok []
    candidates nodes i (path ∷ paths) = and_then (candidate nodes path) (λ found.
        and_then (candidates nodes (suc i) paths)
          (λ later. ok (elim found [ none ↦ later | some v ↦ (i, v) ∷ later ])))
