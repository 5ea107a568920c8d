-- ===== src/Placement/Place/Candidates.antt =====
-- The candidates of `Validate`, and the one that it returns.
use oai_k8s.Common.{
  String, ℕ, suc, ◌+◌, ◌≡◌, ◌≢◌, refl, ap, sym, ◌∙◌, subst, Option, none, some, List, [], ◌∷◌,
}
use oai_k8s.Common.{
  true, false, get_elem?, if◌then◌else◌, arith, Memᴰ, Distinct, ◌⊎◌, ⊎_elim, inl, inr, Bool-cases,
  Option-cases,
}
use oai_k8s.Common.{Result, ok, deref, and_then, and_then-eq-ok, lift, ◌>>=◌, >>=-keeps, reads}
use oai_k8s.Common.Dict.{Dict, lookup}
use mathlib.Core.List.Memᴰ
use oai_k8s.Extern.{Platform}
use oai_k8s.Api.{Disaggregation}
use oai_k8s.Utils.{Node, Link}
use oai_k8s.Utils.StringSets.{StringSet, new_string_set}
use oai_k8s.Placement.State.{Graph, Position}
use oai_k8s.Placement.Dsg8.{
  Disaggregation8, dsg8_key, drop_last, between, suits, find_du, candidate, candidates,
}
use oai_k8s.Placement.Network.{
  Walk, next_segment, link_to, cross_link, cross, advance, walk_path, first_walk, validate_network,
}
use oai_k8s.Placement.Build.Edges.{deref-eq-ok}

mem_of_drop_last : (a : String) (xs : List String) → Memᴰ a (drop_last xs) → Memᴰ a xs
mem_of_drop_last a [] m = absurd (Memᴰ.not-nil m)
mem_of_drop_last a (x ∷ []) m = absurd (Memᴰ.not-nil m)
mem_of_drop_last a (x ∷ y ∷ rest) m =
    ⊎_elim Memᴰ.head (λ t. Memᴰ.tail (mem_of_drop_last a (y ∷ rest) t)) (Memᴰ.cases_cons m)

-- The second node of a path without repetition is not among those behind it.
pub ne_of_between :
    (path : List String) (cu du : String)
    → Distinct path
    → get_elem? path 1 ≡ some cu
    → Memᴰ du (between path)
    → cu ≢ du
ne_of_between [] cu du d e m f = cc
ne_of_between (x ∷ []) cu du d e m f = cc
ne_of_between (x ∷ y ∷ rest) cu du (_, (n, _)) e m f =
    let same : y ≡ cu = cc in
    n (subst (λ z. Memᴰ z rest) (sym (same ∙ f)) (mem_of_drop_last du rest m))

ok_injective : {A : Type 0} {a b : A} → ok a ≡ ok b → a ≡ b
ok_injective h = cc

pub some_ok : {A : Type 0} {a b : A} → ok (some a) ≡ ok (some b) → a ≡ b
some_ok h = cc

module _ (P : Platform) where
  open P use {Float, Quantity}

  cross_link-keeps :
      (w : Walk P) (l : String × Link Float) (g : Graph Float Quantity)
      → (cross_link P false w l g).1 ≡ g
  unfolding cross_link
  cross_link-keeps w (l, link) g = elim (Option-cases w.requirement) [
    | inl n ↦ rw (n, cross_link) refl
    | inr (r, e) ↦ rw (e, cross_link) refl
  ]

  cross-keeps :
      (w : Walk P) (u v : String) (g : Graph Float Quantity) → (cross P false w u v g).1 ≡ g
  unfolding cross
  cross-keeps w u v g =
      >>=-keeps (reads (λ g. link_to P g u v)) (cross_link P false w) g refl
        (λ l. cross_link-keeps w l g)

  walk_path-keeps :
      (placement : StringSet) (w : Walk P) (path : List String) (g : Graph Float Quantity)
      → (walk_path P false placement w path g).1 ≡ g
  unfolding walk_path
  walk_path-keeps placement w [] g = refl
  walk_path-keeps placement w (a ∷ []) g = refl
  walk_path-keeps placement w (a ∷ b ∷ rest) g =
      let next = λ (w : Walk P). walk_path P false placement w (b ∷ rest) in
      >>=-keeps (lift (next_segment P placement a w)) (λ w. cross P false w a b >>= advance P next)
        g refl
        (λ w'.
          >>=-keeps (cross P false w' a b) (advance P next) g (cross-keeps w' a b g) (λ crossed.
            elim (Option-cases crossed) [
              | inl n ↦ rw n refl
              | inr (w'', s) ↦ rw s (walk_path-keeps placement w'' (b ∷ rest) g)
            ]))

  -- Without allocation `validateNetwork` leaves the graph as it is, whatever it answers.
  pub validate_network-keeps :
      (r : Option (Disaggregation Float)) (path : List String) (cu du : String)
      (g : Graph Float Quantity)
      → (validate_network P r path cu du false g).1 ≡ g
  unfolding validate_network
  validate_network-keeps none path cu du g = refl
  validate_network-keeps (some r) [] cu du g = refl
  validate_network-keeps (some r) (a ∷ path) cu du g =
      walk_path-keeps (new_string_set (a ∷ cu ∷ du ∷ [])) (first_walk P r) (a ∷ path) g

  module _ (d : Disaggregation8 Float Quantity) (nodes : Dict (Node Quantity)) where
    -- A node of the graph with the resources for a piece.
    abbrev pub Suits : String → Type 0
    Suits name = (node : Node Quantity) × (lookup name nodes ≡ some node) × (suits P d node ≡ true)

    -- Either no node of these has the resources, and the name is empty, or the name is that of one that has them.
    abbrev pub Chooses : List String → String → Type 0
    Chooses names du =
        (du ≡ "") × ((name : String) → Memᴰ name names → ¬ Suits name) ⊎ Memᴰ du names × Suits du

    find_du-Suits :
        (names : List String) (du : String) → find_du P d nodes names ≡ ok du → Chooses names du
    unfolding find_du
    find_du-Suits [] du h = inl (let x : ok "" ≡ ok du = h in cc, λ name m. absurd (Memᴰ.not-nil m))
    find_du-Suits (name ∷ rest) du h = elim (Option-cases (lookup name nodes)) [
      | inl n ↦ let bad = rw (n, find_du) at h in cc
      | inr (node, e) ↦ elim (Bool-cases (suits P d node)) [
        | inl t ↦
            let x : ok name ≡ ok du = rw (e, t, find_du) at h in
            let same : du ≡ name = cc in inr (Memᴰ.head same, (node, rw same e, t))
        | inr f ↦
            ⊎_elim
              (λ (x, unfit). inl (
                x,
                λ other m.
                    ⊎_elim
                      (λ same (node', e', t).
                        let y : some node ≡ some node' =
                          sym e ∙ ap (λ z. lookup z nodes) (sym same) ∙ e' in
                        let equal : node' ≡ node = cc in
                        let bad : true ≡ false = sym t ∙ ap (suits P d) equal ∙ f in cc)
                      (unfit other) (Memᴰ.cases_cons m),
              ))
              (λ (m, s). inr (Memᴰ.tail m, s)) (find_du-Suits rest du (rw (e, f, find_du) at h))
      ]
    ]

    -- What holds of a candidate for a path.
    pub record IsCandidate (path : List String) (position : Position) : Type 0 where
      pub of_path : position.path ≡ path
      pub cu_second : get_elem? path 1 ≡ some position.cu_node_name
      pub cu_suits : Suits position.cu_node_name
      pub du_suits : Chooses (between path) position.du_node_name

    found :
        (path : List String) (position : Position) (cu du : String) (cu_node : Node Quantity)
        → get_elem? path 1 ≡ some cu
        → lookup cu nodes ≡ some cu_node
        → suits P d cu_node ≡ true
        → Chooses (between path) du
        → record {
          cu_node_name = cu;
          du_node_name = du;
          path = path;
          disaggregation_key = dsg8_key;
        }
          ≡ position
        → IsCandidate path position
    found path position cu du cu_node second look fits s e =
        let v : Position = record {
          cu_node_name = cu;
          du_node_name = du;
          path = path;
          disaggregation_key = dsg8_key;
        } in
        subst (IsCandidate path) e (
          let c : IsCandidate path v = record {
            of_path = refl;
            cu_second = second;
            cu_suits = (cu_node, look, fits);
            du_suits = s;
          } in
          c)

    candidate-IsCandidate :
        (path : List String) (position : Position)
        → candidate P d nodes path ≡ ok (some position)
        → IsCandidate path position
    unfolding candidate
    candidate-IsCandidate path position h =
        let place_du = λ (cu_name : String). and_then (find_du P d nodes (between path)) (λ du_name.
          let v : Position = record {
            cu_node_name = cu_name;
            du_node_name = du_name;
            path = path;
            disaggregation_key = dsg8_key;
          } in
          ok (some v)) in
        let test_cu = λ (cu_name : String) (cu_node : Node Quantity).
          if suits P d cu_node then place_du cu_name else ok none in
        let (cu, e₁, h₁) =
          and_then-eq-ok (deref (get_elem? path 1))
            (λ cu. and_then (deref (lookup cu nodes)) (test_cu cu)) h in
        let (cu_node, e₂, h₂) = and_then-eq-ok (deref (lookup cu nodes)) (test_cu cu) h₁ in
        elim (Bool-cases (suits P d cu_node)) [
          | inr f ↦
              let bad : ◌≡◌ {A = Result (Option Position)} (ok none) (ok (some position)) =
                rw f at h₂ in
              cc
          | inl t ↦
              let h₃ : place_du cu ≡ ok (some position) = rw t at h₂ in
              let (du, e₃, h₄) = and_then-eq-ok (find_du P d nodes (between path)) _ h₃ in
              found path position cu du cu_node (deref-eq-ok (get_elem? path 1) e₁)
                (deref-eq-ok (lookup cu nodes) e₂) t (find_du-Suits (between path) du e₃)
                (some_ok h₄)
        ]

    -- The positions that the first loop keeps belong to the paths of their indices.
    pub candidates-IsCandidate :
        (paths : List (List String)) (i : ℕ) (ps : List (ℕ × Position))
        → candidates P d nodes i paths ≡ ok ps
        → (q : ℕ) (position : Position) → Memᴰ (q, position) ps
        → (k : ℕ) × (path : List String) × (q ≡ i + k)
          × (get_elem? paths k ≡ some path)
          × IsCandidate path position
    unfolding candidates
    candidates-IsCandidate [] i ps h q position m =
        let e : [] ≡ ps =
          (let x : ◌≡◌ {A = Result (List (ℕ × Position))} (ok []) (ok ps) = h in cc) in
        absurd (Memᴰ.not-nil (subst (Memᴰ (q, position)) (sym e) m))
    candidates-IsCandidate (path ∷ paths) i ps h q position m =
        let last = λ (found : Option Position) (later : List (ℕ × Position)).
          let r : Result (List (ℕ × Position)) =
            ok (elim found [ none ↦ later | some v ↦ (i, v) ∷ later ]) in
          r in
        let (found, e₁, h₁) =
          and_then-eq-ok (candidate P d nodes path)
            (λ found. and_then (candidates P d nodes (suc i) paths) (last found)) h in
        let (later, e₂, h₂) = and_then-eq-ok (candidates P d nodes (suc i) paths) (last found) h₁ in
        let behind = λ (t : Memᴰ (q, position) later).
          let (k, p, x, y, c) = candidates-IsCandidate paths (suc i) later e₂ q position t in
          let out : (k : ℕ) × (p : List String) × (q ≡ i + k)
              × (get_elem? (path ∷ paths) k ≡ some p)
              × IsCandidate p position =
            (suc k, p, omega (arith, x), y, c) in
          out in
        elim (Option-cases found) [
          | inl n ↦ behind (subst (Memᴰ (q, position)) (sym (ok_injective (rw n at h₂))) m)
          | inr (v, s) ↦
              ⊎_elim
                (λ e.
                  let index : q ≡ i = ap (λ z. z.0) e in
                  let this : position ≡ v = ap (λ z. z.1) e in
                  (
                    0,
                    path,
                    omega (arith, index),
                    refl,
                    candidate-IsCandidate path position (e₁ ∙ ap ok (s ∙ ap some (sym this))),
                  ))
                behind
                (Memᴰ.cases_cons (subst (Memᴰ (q, position)) (sym (ok_injective (rw s at h₂))) m))
        ]
