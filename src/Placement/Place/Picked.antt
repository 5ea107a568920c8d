-- ===== src/Placement/Place/Picked.antt =====
-- The position that `Validate` returns (operator/controllers/algorithm/dsg8.go).
use oai_k8s.Common.{
  String, ℕ, zero, suc, ◌+◌, ◌≡◌, refl, ap, sym, ◌∙◌, subst, Option, none, some, List, [], ◌∷◌,
}
use oai_k8s.Common.{
  true, false, get_elem?, if◌then◌else◌, arith, Memᴰ, Permᴰ, Memᴰ-perm, inl, inr, Bool-cases,
}
use oai_k8s.Common.{Result, ok, deref, lift, ◌>>=◌, >>=-eq-ok, reads, pure}
use oai_k8s.Extern.{Platform, is_nil}
use oai_k8s.Placement.State.{Graph, Position}
use oai_k8s.Placement.Dsg8.{Disaggregation8, candidates}
use oai_k8s.Placement.Network.{validate_network}
use oai_k8s.Placement.Build.Edges.{deref-eq-ok}
use oai_k8s.Placement.Place.{first_valid, choose, validate}
use oai_k8s.Placement.Place.Candidates.{
  some_ok, validate_network-keeps, IsCandidate, candidates-IsCandidate,
}

pub get_elem?-Memᴰ :
    {A : Type 0} (xs : List A) (k : ℕ) (x : A) → get_elem? xs k ≡ some x → Memᴰ x xs
get_elem?-Memᴰ [] k x e = cc
get_elem?-Memᴰ (y ∷ xs) zero x e = Memᴰ.head (let same : x ≡ y = cc in same)
get_elem?-Memᴰ (y ∷ xs) (suc k) x e = Memᴰ.tail (get_elem?-Memᴰ xs k x e)

same_element :
    {A : Type 0} (xs : List A) (j k : ℕ) (x y : A)
    → j ≡ 0 + k
    → get_elem? xs j ≡ some x
    → get_elem? xs k ≡ some y
    → y ≡ x
same_element xs j k x y e at_j at_k =
    let index : k ≡ j = omega (arith, e) in
    let same : some y ≡ some x = sym at_k ∙ ap (get_elem? xs) index ∙ at_j in cc

module _ (P : Platform) where
  open P use {Float, Quantity}

  module _ (d : Disaggregation8 Float Quantity) where
    -- A position that passed the check of the network, on the path of its index.
    record Passed (paths : List (List String)) (ps : List (ℕ × Position)) (position : Position)
        (g : Graph Float Quantity) : Type 0 where
      index : ℕ
      path : List String
      listed : Memᴰ (index, position) ps
      indexed : get_elem? paths index ≡ some path
      checked :
          validate_network P d.network_requirements path position.cu_node_name position.du_node_name
            false g
          ≡ (ok true, g)

    first_valid-Passed :
        (paths : List (List String)) (ps : List (ℕ × Position)) (position : Position)
        (g g' : Graph Float Quantity)
        → first_valid P d paths ps g ≡ (ok (some position), g')
        → Passed paths ps position g × (g' ≡ g)
    unfolding first_valid
    first_valid-Passed paths [] position g g' h =
        let bad : ◌≡◌ {A = Result (Option Position)} (ok none) (ok (some position)) =
          ap (λ x. x.0) h in
        cc
    first_valid-Passed paths ((p, v) ∷ rest) position g g' h =
        let check = λ (path : List String).
          validate_network P d.network_requirements path v.cu_node_name v.du_node_name false in
        let next = choose P d v (first_valid P d paths rest) in
        let (path, g₁, e₁, h₁) =
          >>=-eq-ok (lift (deref (get_elem? paths p))) (λ path. check path >>= next) g h in
        let same₁ : g ≡ g₁ = ap (λ x. x.1) e₁ in
        let (good, g₂, e₂, h₂) =
          >>=-eq-ok (check path) next g
            (subst (λ x. (check path >>= next) x ≡ (ok (some position), g')) (sym same₁) h₁) in
        let same₂ : g₂ ≡ g =
          sym (ap (λ x. x.1) e₂)
          ∙ validate_network-keeps P d.network_requirements path v.cu_node_name v.du_node_name g in
        elim (Bool-cases good) [
          | inl t ↦
              let h₃ : ◌≡◌ {A = Result (Option Position) × Graph Float Quantity} (ok (some v), g₂)
                  (ok (some position), g') =
                rw t at h₂ in
              let this = some_ok (ap (λ x. x.0) h₃) in
              (
                subst (λ z. Passed paths ((p, v) ∷ rest) z g) this
                    (record {
                      index = p;
                      path = path;
                      listed = Memᴰ.head refl;
                      indexed = deref-eq-ok (get_elem? paths p) (ap (λ x. x.0) e₁);
                      checked = e₂ ∙ ap (λ x. (ok x, g₂)) t ∙ ap (λ x. (ok true, x)) same₂;
                    }),
                sym (ap (λ x. x.1) h₃) ∙ same₂,
              )
          | inr f ↦
              let (r, s) = first_valid-Passed paths rest position g g' (
                subst (λ x. first_valid P d paths rest x ≡ (ok (some position), g')) same₂
                  (rw f at h₂)) in
              (
                record {
                  index = r.index;
                  path = r.path;
                  listed = Memᴰ.tail r.listed;
                  indexed = r.indexed;
                  checked = r.checked;
                },
                s,
              )
        ]

    -- What `Validate` has found about the position that it returns.
    pub record Picked (paths : List (List String)) (position : Position) (g : Graph Float Quantity)
        : Type 0 where
      pub path : List String
      pub offered : Memᴰ path paths
      pub fit : IsCandidate P d g.nodes path position
      pub checked :
          validate_network P d.network_requirements path position.cu_node_name position.du_node_name
            false g
          ≡ (ok true, g)

    Passed-Picked :
        (paths : List (List String)) (ps : List (ℕ × Position)) (position : Position)
        (g : Graph Float Quantity) {tried : List (ℕ × Position)}
        → candidates P d g.nodes 0 paths ≡ ok ps
        → (r : Passed paths tried position g) → Memᴰ (r.index, position) ps
        → Picked paths position g
    Passed-Picked paths ps position g e r m =
        let (k, path, x, y, c) =
          candidates-IsCandidate P d g.nodes paths 0 ps e r.index position m in
        record {
          path = r.path;
          offered = get_elem?-Memᴰ paths r.index r.path r.indexed;
          fit =
              subst (λ p. IsCandidate P d g.nodes p position)
                (same_element paths r.index k r.path path x r.indexed y) c;
          checked = r.checked;
        }

    pub validate-Picked :
        (order : List (ℕ × Position) → List (ℕ × Position))
        → ((ps : List (ℕ × Position)) → Permᴰ (order ps) ps)
        → (paths : List (List String)) (position : Position) (g g' : Graph Float Quantity)
        → validate P d order paths g ≡ (ok (some position), g')
        → Picked paths position g × (g' ≡ g)
    unfolding validate
    validate-Picked order ranged paths position g g' h =
        let pick = λ (positions : List (ℕ × Position)).
          if is_nil positions
          then pure {S = Graph Float Quantity} none
          else first_valid P d paths (order positions) in
        let (ps, g₁, e₁, h₁) = >>=-eq-ok (reads (λ g. candidates P d g.nodes 0 paths)) pick g h in
        let h₂ : pick ps g ≡ (ok (some position), g') =
          subst (λ x. pick ps x ≡ (ok (some position), g')) (sym (ap (λ x. x.1) e₁)) h₁ in
        elim (Bool-cases (is_nil ps)) [
          | inl t ↦
              let bad : ◌≡◌ {A = Result (Option Position)} (ok none) (ok (some position)) =
                ap (λ x. x.0) (rw t at h₂) in
              cc
          | inr f ↦
              let (r, s) = first_valid-Passed paths (order ps) position g g' (rw f at h₂) in
              (
                Passed-Picked paths ps position g (ap (λ x. x.0) e₁) r
                    (Memᴰ-perm (ranged ps) r.listed),
                s,
              )
        ]
