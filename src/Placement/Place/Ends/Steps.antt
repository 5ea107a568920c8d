-- ===== src/Placement/Place/Ends/Steps.antt =====
-- `Validate` and the allocations of disaggregation 8 (operator/controllers/algorithm/dsg8.go) come to an end.
use oai_k8s.Common.{String, ℕ, suc, ap, none, List, [], ◌∷◌}
use oai_k8s.Common.{
  Bool, true, false, get_elem?, concat_text, if◌then◌else◌, Memᴰ, Distinct, inl, inr, Bool-cases,
  Option-cases,
}
use oai_k8s.Common.{ok, err, wrap_nil, deref, Action, pure, lift, reads, with_context, ◌>>=◌, ◌>>◌}
use oai_k8s.Common.Runs.{Runs, Runs-if, Runs-wrapped, Runs-deref, Runs-and_then, Runs-bind}
use oai_k8s.Common.Dict.{Dict, lookup}
use oai_k8s.Extern.{Platform, Laws, is_nil}
use oai_k8s.Api.{ChainPosition}
use oai_k8s.Utils.{Node, RequestedResources}
use oai_k8s.Utils.Nodes
use oai_k8s.Placement.State.{Graph, Position}
use oai_k8s.Placement.Dsg8.{Disaggregation8, between, suits, find_du, candidate, candidates}
use oai_k8s.Placement.Network.{validate_network}
use oai_k8s.Placement.Network.Waits.{validate_network-Runs}
use oai_k8s.Placement.Place.{
  first_valid, choose, validate, allocate_node, allocate_resources, allocate_rus_resources,
}
use oai_k8s.Placement.Build.Edges.{deref-eq-ok}
use oai_k8s.Placement.Place.Picked.{get_elem?-Memᴰ}

module _ (P : Platform) where
  open P use {Float, Quantity}

  allocate_node-Runs :
      (requested : RequestedResources Quantity) (name : String) (g : Graph Float Quantity)
      → Runs (allocate_node P requested name g).0
  unfolding allocate_node Nodes.allocate_resources
  allocate_node-Runs requested name g = elim (Option-cases (lookup name g.nodes)) [
    | inl n ↦ rw (n, allocate_node) tt
    | inr (node, e) ↦ rw (e, allocate_node) (search Runs-if)
  ]

  -- A step in a context, and the steps behind it.
  then-Runs :
      {A B : Type 0} (c : String) (m : Action (Graph Float Quantity) A)
      (f : A → Action (Graph Float Quantity) B) (g : Graph Float Quantity)
      → Runs (m g).0
      → ((a : A) (t : Graph Float Quantity) → Runs (f a t).0)
      → Runs ((with_context c m >>= f) g).0
  then-Runs c m f g h k =
      Runs-bind (with_context c m) f g (Runs-wrapped c (m g).0 h) (λ a t _. k a t)

  pub allocate_rus_resources-Runs :
      (requested : RequestedResources Quantity) (rus : List ChainPosition)
      (g : Graph Float Quantity)
      → Runs (allocate_rus_resources P requested rus g).0
  unfolding allocate_rus_resources
  allocate_rus_resources-Runs requested [] g = tt
  allocate_rus_resources-Runs requested (ru ∷ rest) g =
      then-Runs
        (concat_text (
          "error allocating split '" ∷ ru.split_name ∷ "' in node '" ∷ ru.ru_node
          ∷ "'. Not enough resources available" ∷ []))
        (allocate_node P requested ru.ru_node) (λ u. allocate_rus_resources P requested rest) g
        (allocate_node-Runs requested ru.ru_node g)
        (λ u. allocate_rus_resources-Runs requested rest)

  module _ (d : Disaggregation8 Float Quantity) where
    find_du-Runs :
        (nodes : Dict (Node Quantity)) (names : List String) → Runs (find_du P d nodes names)
    unfolding find_du
    find_du-Runs nodes [] = tt
    find_du-Runs nodes (name ∷ rest) =
        Runs-and_then (deref (lookup name nodes)) _ (Runs-deref (lookup name nodes)) (λ node _.
          elim (Bool-cases (suits P d node)) [
            | inl t ↦ rw t tt
            | inr f ↦ rw f (find_du-Runs nodes rest)
          ])

    candidate-Runs :
        (nodes : Dict (Node Quantity)) (path : List String) → Runs (candidate P d nodes path)
    unfolding candidate
    candidate-Runs nodes path =
        Runs-and_then (deref (get_elem? path 1)) _ (Runs-deref (get_elem? path 1)) (λ cu _.
          Runs-and_then (deref (lookup cu nodes)) _ (Runs-deref (lookup cu nodes)) (λ node _.
            elim (Bool-cases (suits P d node)) [
              | inl t ↦ rw t (
                  Runs-and_then (find_du P d nodes (between path)) _
                    (find_du-Runs nodes (between path)) (λ du _. tt))
              | inr f ↦ rw f tt
            ]))

    candidates-Runs :
        (nodes : Dict (Node Quantity)) (i : ℕ) (paths : List (List String))
        → Runs (candidates P d nodes i paths)
    unfolding candidates
    candidates-Runs nodes i [] = tt
    candidates-Runs nodes i (path ∷ paths) =
        Runs-and_then (candidate P d nodes path) _ (candidate-Runs nodes path) (λ found _.
          Runs-and_then (candidates P d nodes (suc i) paths) _ (candidates-Runs nodes (suc i) paths)
            (λ later _. tt))

    first_valid-Runs :
        (paths : List (List String)) (ps : List (ℕ × Position)) (g : Graph Float Quantity)
        → Laws P
        → ((path : List String) → Memᴰ path paths → Distinct path)
        → Runs (first_valid P d paths ps g).0
    unfolding first_valid
    first_valid-Runs paths [] g L distinct = tt
    first_valid-Runs paths ((k, v) ∷ rest) g L distinct =
        let check = λ (path : List String).
          validate_network P d.network_requirements path v.cu_node_name v.du_node_name false in
        let next = choose P d v (first_valid P d paths rest) in
        Runs-bind (lift (deref (get_elem? paths k))) (λ path. check path >>= next) g
          (Runs-deref (get_elem? paths k))
          (λ path t e.
            let listed =
              get_elem?-Memᴰ paths k path (deref-eq-ok (get_elem? paths k) (ap (λ x. x.0) e)) in
            Runs-bind (check path) next t
              (validate_network-Runs P L d.network_requirements path v.cu_node_name v.du_node_name
                false t (distinct path listed))
              (λ good t' _. elim (Bool-cases good) [
                | inl y ↦ rw y tt
                | inr f ↦ rw f (first_valid-Runs paths rest t' L distinct)
              ]))

    pub validate-Runs :
        (order : List (ℕ × Position) → List (ℕ × Position)) (paths : List (List String))
        (g : Graph Float Quantity)
        → Laws P
        → ((path : List String) → Memᴰ path paths → Distinct path)
        → Runs (validate P d order paths g).0
    unfolding validate
    validate-Runs order paths g L distinct =
        let pick = λ (positions : List (ℕ × Position)).
          if is_nil positions
          then pure {S = Graph Float Quantity} none
          else first_valid P d paths (order positions) in
        Runs-bind (reads (λ g. candidates P d g.nodes 0 paths)) pick g
          (candidates-Runs g.nodes 0 paths)
          (λ ps t _. elim (Bool-cases (is_nil ps)) [
            | inl y ↦ rw y tt
            | inr f ↦ rw f (first_valid-Runs paths (order ps) t L distinct)
          ])

    pub allocate_resources-Runs :
        (ru : ChainPosition) (g : Graph Float Quantity)
        → Laws P
        → Distinct ru.path
        → Runs (allocate_resources P d ru g).0
    unfolding allocate_resources
    allocate_resources-Runs ru g L distinct =
        let network =
          validate_network P d.network_requirements ru.path ru.cu_node ru.du_node true in
        let last = λ (success : Bool).
          lift {S = Graph Float Quantity}
            (if success then ok tt else err (wrap_nil "error allocating network resources")) in
        let third = with_context "error allocating network resources" network >>= last in
        let cu = allocate_node P d.requested_resources ru.cu_node in
        then-Runs "error allocating du resources" (allocate_node P d.requested_resources ru.du_node)
          (λ _. with_context "error allocating cu resources" cu >> third) g
          (allocate_node-Runs d.requested_resources ru.du_node g)
          (λ _ g₁.
            then-Runs "error allocating cu resources" cu (λ _. third) g₁
              (allocate_node-Runs d.requested_resources ru.cu_node g₁)
              (λ _ g₂.
                then-Runs "error allocating network resources" network last g₂
                  (validate_network-Runs P L d.network_requirements ru.path ru.cu_node ru.du_node
                    true g₂ distinct)
                  (λ success t. Runs-if success _ _ tt tt)))
