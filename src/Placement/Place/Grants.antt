-- ===== src/Placement/Place/Grants.antt =====
-- `Validate` and then `AllocateResources` (operator/controllers/algorithm/dsg8.go).
use oai_k8s.Common.{String, ℕ, ◌≡◌, ◌≢◌, refl, ap, sym, ◌∙◌, subst, none, some, List}
use oai_k8s.Common.{Bool, true, false, if◌then◌else◌, Memᴰ, Permᴰ, Distinct, ⊎_elim, str_dec}
use oai_k8s.Common.{ok, err, wrap_nil, lift, ◌>>=◌, ◌>>◌, >>=-ok, with_context, wrapped, Action}
use oai_k8s.Common.Dict.{Dict, lookup, insert, lookup-insert_self, lookup-insert_ne}
use oai_k8s.Extern.{Platform, Laws}
use oai_k8s.Api.{ChainPosition}
use oai_k8s.Utils.{Node}
use oai_k8s.Utils.Nodes
use oai_k8s.Placement.State.{Graph, Position}
use oai_k8s.Placement.Dsg8.{Disaggregation8}
use oai_k8s.Placement.Network.{validate_network}
use oai_k8s.Placement.Network.Crossing.{UniquePointers, SameLinks, links_at_of_lookup}
use oai_k8s.Placement.Network.Allocation.{validate_network-allocates}
use oai_k8s.Placement.Place.{validate, allocate_node, allocate_resources, fulfill_ru}
use oai_k8s.Placement.Place.Picked.{validate-Picked}
use oai_k8s.Placement.Place.Candidates.{Suits, IsCandidate, ne_of_between}

in_context :
    {S A : Type 0} (c : String) (m : Action S A) (s : S) {a : A} {t : S}
    → m s ≡ (ok a, t)
    → with_context c m s ≡ (ok a, t)
in_context c m s e = ap (λ p. (wrapped c p.0, p.1)) e

module _ (P : Platform) where
  open P use {Float, Quantity}

  module _ (d : Disaggregation8 Float Quantity) where
    allocate_node-Suits :
        Laws P
        → (name : String) (g : Graph Float Quantity) → (s : Suits P d g.nodes name)
        → (node' : Node Quantity) × (node'.links ≡ (s.0).links)
          × (allocate_node P d.requested_resources name g
              ≡ (ok tt, record g { nodes = insert name node' g.nodes }))
    unfolding allocate_node Nodes.allocate_resources
    allocate_node-Suits L name g (node, look, fits) =
        let taken =
          Nodes.allocate_resources P node d.requested_resources.memory d.requested_resources.cpu in
        (
          taken.1,
          refl,
          rw (look, allocate_node)
              (ap (λ r. (r, record g { nodes = insert name taken.1 g.nodes }))
                (Nodes.allocate_resources-has_resources P L node d.requested_resources.memory
                  d.requested_resources.cpu fits)),
        )

    SameLinks-insert :
        (nodes : Dict (Node Quantity)) (name : String) (node node' : Node Quantity)
        → lookup name nodes ≡ some node
        → node'.links ≡ node.links
        → SameLinks nodes (insert name node' nodes)
    SameLinks-insert nodes name node node' look same u = elim (str_dec u name) [
      | yes e ↦ rw e (
          links_at_of_lookup name (insert name node' nodes) node'
            (lookup-insert_self name node' nodes)
          ∙ ap some same
          ∙ sym (links_at_of_lookup name nodes node look))
      | no n ↦
          ap (λ m. elim m [ none ↦ none | some z ↦ some z.links ])
            (lookup-insert_ne u name node' nodes n)
    ]

    -- Both nodes and then the links of a candidate can be taken.
    allocate_candidate :
        Laws P
        → (path : List String) (ru : ChainPosition) (position : Position) (g : Graph Float Quantity)
        → UniquePointers g.nodes
        → Distinct path
        → IsCandidate P d g.nodes path position
        → position.du_node_name ≢ ""
        → validate_network P d.network_requirements path position.cu_node_name position.du_node_name
            false g
          ≡ (ok true, g)
        → (allocate_resources P d (fulfill_ru ru position) g).0 ≡ ok tt
    unfolding allocate_resources fulfill_ru
    allocate_candidate L path ru position g unique distinct c named checked =
        let (inside, du_suits) = ⊎_elim (λ (e, _). absurd (named e)) (λ x. x) c.du_suits in
        let cu = position.cu_node_name in
        let du = position.du_node_name in
        let (n₁, l₁, e₁) = allocate_node-Suits L du g du_suits in
        let g₁ : Graph Float Quantity = record g { nodes = insert du n₁ g.nodes } in
        let (node, look, fits) = c.cu_suits in
        let other =
          lookup-insert_ne cu du n₁ g.nodes
            (ne_of_between path cu du distinct c.cu_second inside) in
        let (n₂, l₂, e₂) = allocate_node-Suits L cu g₁ (node, other ∙ look, fits) in
        let g₂ : Graph Float Quantity = record g₁ { nodes = insert cu n₂ g₁.nodes } in
        let same : SameLinks g.nodes g₂.nodes = λ u.
          SameLinks-insert g₁.nodes cu node n₂ (other ∙ look) l₂ u
          ∙ SameLinks-insert g.nodes du du_suits.0 n₁ du_suits.1 l₁ u in
        let network = λ (p : List String). validate_network P d.network_requirements p cu du true in
        let room =
          validate_network-allocates P L d.network_requirements path cu du g g g₂ unique distinct
            same refl checked in
        let room' : (network position.path g₂).0 ≡ ok true =
          subst (λ p. (network p g₂).0 ≡ ok true) (sym c.of_path) room in
        let last = λ (success : Bool).
          lift {S = Graph Float Quantity}
            (if success then ok tt else err (wrap_nil "error allocating network resources")) in
        let third =
          with_context "error allocating network resources" (network position.path) >>= last in
        let second =
          with_context "error allocating cu resources" (allocate_node P d.requested_resources cu)
          >> third in
        ap (λ x. x.0)
          (>>=-ok
              (with_context "error allocating du resources"
                (allocate_node P d.requested_resources du))
              (λ _. second) g
              (in_context "error allocating du resources" (allocate_node P d.requested_resources du)
                g e₁)
            ∙ >>=-ok
                (with_context "error allocating cu resources"
                  (allocate_node P d.requested_resources cu))
                (λ _. third) g₁
                (in_context "error allocating cu resources"
                  (allocate_node P d.requested_resources cu) g₁ e₂)
            ∙ >>=-ok (with_context "error allocating network resources" (network position.path))
                last g₂
                (in_context "error allocating network resources" (network position.path) g₂
                  (ap (λ r. (r, (network position.path g₂).1)) room')))

    -- When `Validate` returns a position with a node for the DU, on paths without repetition and in a graph
    -- in which each link is held for one pair of nodes, it has left the graph as it was, and
    -- `AllocateResources` succeeds on the unit that is fulfilled with the position.
    pub validate-grants :
        Laws P
        → (order : List (ℕ × Position) → List (ℕ × Position))
        → ((ps : List (ℕ × Position)) → Permᴰ (order ps) ps)
        → (paths : List (List String)) (ru : ChainPosition) (position : Position)
        → (g g' : Graph Float Quantity) → UniquePointers g.nodes
        → ((path : List String) → Memᴰ path paths → Distinct path)
        → validate P d order paths g ≡ (ok (some position), g')
        → position.du_node_name ≢ ""
        → (g' ≡ g) × ((allocate_resources P d (fulfill_ru ru position) g').0 ≡ ok tt)
    validate-grants L order ranged paths ru position g g' unique distinct h named =
        let (r, s) = validate-Picked P d order ranged paths position g g' h in
        (
          s,
          subst (λ x. (allocate_resources P d (fulfill_ru ru position) x).0 ≡ ok tt) (sym s)
              (allocate_candidate L r.path ru position g unique (distinct r.path r.offered) r.fit
                named r.checked),
        )
