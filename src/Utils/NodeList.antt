-- ===== src/Utils/NodeList.antt =====
-- `NodeListToMap` (operator/controllers/utils/k8s_getters.go) with the pointers that it stores.
use oai_k8s.Common.{String, ◌≡◌, refl, Option, none, some, List, [], ◌∷◌, map, arith}
use oai_k8s.Common.{get_last?, contains, if◌then◌else◌}
use oai_k8s.Common.Dict.{Dict, insert, lookup, lookup-insert}
use oai_k8s.Extern.{is_nil}

-- v1.Node, with the fields that the operator reads.
pub record K8sNode (Quantity : Type 0) : Type 0 where
  pub name : String
  pub memory_capacity : Quantity
  pub memory_allocatable : Quantity
  pub cpu_capacity : Quantity
  pub cpu_allocatable : Quantity

-- The map of pointers, and what they point to. The loop variable `node` is one variable for all
-- rounds (go.mod says 1.14, the image is built with 1.13), so that every `&node` is the same address:
-- a round writes the variable and stores its address under one more key.
pub record NodeMap (Quantity : Type 0) : Type 0 where
  pub variable : Option (K8sNode Quantity)
  pub entries : Dict (Unit {0})

module _ {Quantity : Type 0} where
  add_nodes : List (K8sNode Quantity) → NodeMap Quantity → NodeMap Quantity
  add_nodes [] m = m
  add_nodes (node ∷ rest) m =
      add_nodes rest (record { variable = some node; entries = insert node.name tt m.entries })

  unfoldable pub node_list_to_map : List (K8sNode Quantity) → NodeMap Quantity
  unfolding add_nodes insert
  node_list_to_map items = add_nodes items (record { variable = none; entries = [] })

  -- `k8sNodeMap[name]`, read through the pointer
  unfoldable pub get : NodeMap Quantity → String → Option (K8sNode Quantity)
  get m name = elim (lookup name m.entries) [ none ↦ none | some _ ↦ m.variable ]

  abbrev pub names : List (K8sNode Quantity) → List String
  names = map (λ node. node.name)

  add_nodes-get :
      (items : List (K8sNode Quantity)) (m : NodeMap Quantity) (name : String)
      → get (add_nodes items m) name ≡ (
          if contains (names items) name
          then get_last? items
          else if is_nil items
          then get m name
          else elim (lookup name m.entries) [ none ↦ none | some _ ↦ get_last? items ])
  unfolding add_nodes get
  add_nodes-get [] m name = refl
  add_nodes-get (node ∷ []) m name = ground (arith, lookup-insert name node.name tt m.entries)
  add_nodes-get (node ∷ next ∷ rest) m name = ground (
    arith,
    lookup-insert name node.name tt m.entries,
    add_nodes-get (next ∷ rest)
        (record { variable = some node; entries = insert node.name tt m.entries }) name,
  )

  -- Every name of the list is mapped to the last node of the list, whatever node it names; other
  -- names are absent.
  pub get-node_list_to_map :
      (items : List (K8sNode Quantity)) (name : String)
      → get (node_list_to_map items) name
        ≡ (if contains (names items) name then get_last? items else none)
  unfolding node_list_to_map get
  get-node_list_to_map [] name = refl
  get-node_list_to_map (node ∷ rest) name =
      ground (arith, add_nodes-get (node ∷ rest) (record { variable = none; entries = [] }) name)
