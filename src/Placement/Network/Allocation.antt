-- ===== src/Placement/Network/Allocation.antt =====
-- `validateNetwork` (operator/controllers/algorithm/dsg8.go) with and without allocation, on one path.
use oai_k8s.Common.{String, ◌≡◌, refl, ap, sym, ◌∙◌, subst, ◌≢◌, Option, none, some, List, [], ◌∷◌}
use oai_k8s.Common.{Bool, true, false, Memᴰ, Distinct, ⊎_elim, inl, inr, Option-cases}
use oai_k8s.Common.{ok, ◌>>=◌, >>=-eq-ok, >>=-ok, lift}
use oai_k8s.Common.Dict.{lookup}
use oai_k8s.Extern.{Platform, Laws}
use oai_k8s.Api.{Disaggregation}
use oai_k8s.Utils.StringSets.{StringSet, new_string_set}
use oai_k8s.Placement.State.{Graph}
use oai_k8s.Placement.Network.{
  Walk, link_to, cross, next_segment, advance, walk_path, first_walk, validate_network,
}
use oai_k8s.Placement.Network.Crossing.{
  links_at, links_at_of_lookup, links_at_of_none, SameLinks, Points, UniquePointers, link_to-Points,
  Crossed, cross-check, cross-Taken,
}

module _ (P : Platform) where
  open P use {Float, Quantity}

  -- On the nodes of the path, `g₁` has the links of `g` as they were.
  abbrev pub Agree : List String → Graph Float Quantity → Graph Float Quantity → Type 0
  Agree path g g₁ =
      SameLinks g.nodes g₁.nodes
      × ((u v l : String)
          → Memᴰ u path
          → Memᴰ v path
          → Points g.nodes u v l
          → lookup l g₁.links ≡ lookup l g.links)

  Agree-link_to :
      (path : List String) (g g₁ : Graph Float Quantity) (u v : String)
      → Agree path g g₁
      → Memᴰ u path
      → Memᴰ v path
      → link_to P g₁ u v ≡ link_to P g u v
  unfolding link_to
  Agree-link_to path g g₁ u v (same, links) mu mv = elim (Option-cases (lookup u g.nodes)) [
    | inl n ↦ elim (Option-cases (lookup u g₁.nodes)) [
      | inl n' ↦ rw (n, n')
      | inr (node', e') ↦
          let bad =
            sym (links_at_of_lookup u g₁.nodes node' e') ∙ same u ∙ links_at_of_none u g.nodes n in
          cc
    ]
    | inr (node, e) ↦ elim (Option-cases (lookup u g₁.nodes)) [
      | inl n' ↦
          let bad =
            sym (links_at_of_none u g₁.nodes n') ∙ same u ∙ links_at_of_lookup u g.nodes node e in
          cc
      | inr (node', e') ↦
          let equal : some node'.links ≡ some node.links =
            sym (links_at_of_lookup u g₁.nodes node' e')
            ∙ same u
            ∙ links_at_of_lookup u g.nodes node e in
          let equal' : node'.links ≡ node.links = cc in
          elim (Option-cases (lookup v node.links)) [
            | inl n ↦ rw (e, e', equal', n)
            | inr (l, f) ↦ rw (
              e,
              e',
              equal',
              f,
              links u v l mu mv (node.links, links_at_of_lookup u g.nodes node e, f),
            )
          ]
    ]
  ]

  Agree-cross :
      (L : Laws P) (a b : String) (rest : List String) (g g₁ : Graph Float Quantity) (w w' : Walk P)
      → UniquePointers g.nodes
      → Distinct (a ∷ b ∷ rest)
      → Agree (a ∷ b ∷ rest) g g₁
      → (c : Crossed P w a b g w')
      → ((cross P true w a b g₁).0 ≡ ok (some w')) × Agree (b ∷ rest) g (cross P true w a b g₁).1
  Agree-cross L a b rest g g₁ w w' unique (absent, distinct) agree c =
      let inside = Memᴰ.tail (Memᴰ.head refl) in
      let t =
        cross-Taken P L w w' a b g g₁ c
          (Agree-link_to (a ∷ b ∷ rest) g g₁ a b agree (Memᴰ.head refl) inside) in
      let points = (link_to-Points P g a b c.pointer c.link c.linked).0 in
      let other : (u v l : String)
          → Memᴰ u (b ∷ rest)
          → Memᴰ v (b ∷ rest)
          → Points g.nodes u v l
          → l ≢ c.pointer =
        λ u v l mu mv p e.
          ⊎_elim (λ (x, y). absent (subst (λ z. Memᴰ z (b ∷ rest)) (sym x) mu))
            (λ (x, y). absent (subst (λ z. Memᴰ z (b ∷ rest)) (sym x) mv))
            (unique a b u v c.pointer points (subst (Points g.nodes u v) e p)) in
      (
        t.taken,
        (
          λ u. ap (links_at u) t.nodes_kept ∙ agree.0 u,
          λ u v l mu mv p.
              t.others_kept l (other u v l mu mv p) ∙ agree.1 u v l (Memᴰ.tail mu) (Memᴰ.tail mv) p,
        ),
      )

  -- Along a path that meets no node twice, the links that were checked one by one can be taken one
  -- after the other.
  walk_path-allocates :
      (L : Laws P) (placement : StringSet) (path : List String) (w : Walk P)
      (g g' g₁ : Graph Float Quantity)
      → UniquePointers g.nodes
      → Distinct path
      → Agree path g g₁
      → walk_path P false placement w path g ≡ (ok true, g')
      → (walk_path P true placement w path g₁).0 ≡ ok true
  unfolding walk_path
  walk_path-allocates L placement [] w g g' g₁ unique distinct agree h = refl
  walk_path-allocates L placement (a ∷ []) w g g' g₁ unique distinct agree h = ap (λ x. x.0) h
  walk_path-allocates L placement (a ∷ b ∷ rest) w g g' g₁ unique distinct agree h =
      let next = λ (allocate : Bool) (w : Walk P). walk_path P allocate placement w (b ∷ rest) in
      let body =
        λ (allocate : Bool) (w : Walk P). cross P allocate w a b >>= advance P (next allocate) in
      let (w', g₂, e₂, h₂) = >>=-eq-ok (lift (next_segment P placement a w)) (body false) g h in
      let checked = subst (λ x. body false w' x ≡ (ok true, g')) (sym (ap (λ x. x.1) e₂)) h₂ in
      let (crossed, g₃, e₃, h₃) =
        >>=-eq-ok (cross P false w' a b) (advance P (next false)) g checked in
      elim (Option-cases crossed) [
        | inl n ↦ let bad = rw n at h₃ in cc
        | inr (w'', s) ↦
            let (c, kept) = cross-check P w' w'' a b g g₃ (e₃ ∙ ap (λ x. (ok x, g₃)) s) in
            let (taken, agree') = Agree-cross L a b rest g g₁ w' w'' unique distinct agree c in
            let rest_checked : next false w'' g ≡ (ok true, g') =
              subst (λ x. next false w'' x ≡ (ok true, g')) kept
                (subst (λ x. advance P (next false) x g₃ ≡ (ok true, g')) s h₃) in
            ap (λ x. x.0)
              (>>=-ok (lift (next_segment P placement a w)) (body true) g₁
                  (ap (λ x. (x, g₁)) (ap (λ x. x.0) e₂))
                ∙ >>=-ok (cross P true w' a b) (advance P (next true)) g₁
                    (ap (λ x. (x, (cross P true w' a b g₁).1)) taken))
            ∙ walk_path-allocates L placement (b ∷ rest) w'' g g' (cross P true w' a b g₁).1 unique
                distinct.1 agree' rest_checked
      ]

  -- In a graph in which each link is held for one pair of nodes: what `validateNetwork` finds possible on a
  -- path without repetition, it can allocate, in any graph with the same links and bandwidth.
  pub validate_network-allocates :
      Laws P
      → (requirements : Option (Disaggregation Float)) (path : List String) (cu du : String)
      → (g g' g₁ : Graph Float Quantity) → UniquePointers g.nodes
      → Distinct path
      → SameLinks g.nodes g₁.nodes
      → g₁.links ≡ g.links
      → validate_network P requirements path cu du false g ≡ (ok true, g')
      → (validate_network P requirements path cu du true g₁).0 ≡ ok true
  unfolding validate_network
  validate_network-allocates L none path cu du g g' g₁ unique distinct same links h = cc
  validate_network-allocates L (some r) [] cu du g g' g₁ unique distinct same links h = cc
  validate_network-allocates L (some r) (a ∷ path) cu du g g' g₁ unique distinct same links h =
      walk_path-allocates L (new_string_set (a ∷ cu ∷ du ∷ [])) (a ∷ path) (first_walk P r) g g' g₁
        unique distinct (same, λ u v l mu mv p. ap (lookup l) links) h
