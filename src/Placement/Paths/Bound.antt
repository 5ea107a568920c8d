-- ===== src/Placement/Paths/Bound.antt =====
-- A bound on the rounds of the search: the paths that wait in the queue have a total weight that falls in every round.
use oai_k8s.Common.{
  String, ℕ, zero, suc, ◌+◌, ◌-◌, ◌*◌, ◌≤◌, ◌≡◌, refl, ap, some, List, [], ◌∷◌, ◌++◌,
}
use oai_k8s.Common.{
  inl, inr, get_last?, length, length-append, arith, Permᴰ, length-perm, str_dec, Result,
}
use oai_k8s.Common.{Option-cases, Bool-cases, ◌≢◌, panic, out_of_fuel}
use oai_k8s.Common.Dict.{Dict, lookup, keys, mem-keys_of_lookup}
use native.Mathlib.Nat.{mul-le-mul_right}
use oai_k8s.Utils.{Node}
use oai_k8s.Utils.StringSets.{StringSet, has}
use oai_k8s.Placement.Paths.{PathList, get_new_path, weight, max_degree}
use oai_k8s.Placement.Paths.Explore.{new_paths, grow, explore}
use oai_k8s.Placement.Paths.Walks.{SimplePath, length-SimplePath}
use oai_k8s.Placement.Paths.Invariant.{Inv}
use oai_k8s.Placement.Paths.Rounds.{Inv-round, path-Simple}

weight-pos : (d k : ℕ) → 1 ≤ weight d k
weight-pos d zero = omega arith
weight-pos d (suc k) = grind (arith, weight-pos d k)

-- `n` bounds the nodes of a path.
unfoldable pub work : (d n : ℕ) → PathList → ℕ
work d n [] = 0
work d n (p ∷ ps) = weight d (suc n - length p) + work d n ps

work-append : (d n : ℕ) (ps qs : PathList) → work d n (ps ++ qs) ≡ work d n ps + work d n qs
unfolding work
work-append d n [] qs = omega arith
work-append d n (p ∷ ps) qs = omega (arith, work-append d n ps qs)

work-new_paths :
    (d n : ℕ) (visited : StringSet) (path ns : List String)
    → work d n (new_paths visited path ns) ≤ length ns * weight d (n - length path)
unfolding work new_paths get_new_path
work-new_paths d n visited path [] = omega arith
work-new_paths d n visited path (v ∷ ns) = elim (Bool-cases (has visited v)) [
  | inl h ↦ rw h (grind (arith, work-new_paths d n visited path ns))
  | inr h ↦
      let l : length (path ++ v ∷ []) ≡ suc (length path) =
        omega (arith, length-append {0} path (v ∷ [])) in
      rw (h, l) (grind (arith, work-new_paths d n visited path ns))
]

length-keys : {V : Type 0} (d : Dict V) → length (keys d) ≡ length d
length-keys [] = refl
length-keys ((k, v) ∷ d) = ap suc (length-keys d)

length-le-max_degree :
    {Quantity : Type 0} (nodes : Dict (Node Quantity)) (u : String) (node : Node Quantity)
    → lookup u nodes ≡ some node
    → length node.links ≤ max_degree nodes
length-le-max_degree [] u node h = cc
length-le-max_degree ((k, x) ∷ nodes) u node h = elim (str_dec u k) [
  | yes e ↦
      let same : x ≡ node = ground arith in omega (arith, ap (λ (y : Node _). length y.links) same)
  | no n ↦ omega (arith, length-le-max_degree nodes u node (ground arith))
]

module _ {Quantity : Type 0} (nodes : Dict (Node Quantity)) (root target : String)
    (order : ℕ → List String → List String)
    (ranged : (t : ℕ) (ks : List String) → Permᴰ (order t ks) ks) where
  abbrev pub load : PathList → ℕ
  load = work (max_degree nodes) (length nodes)

  load-round :
      (t : ℕ) (visited : StringSet) (path : List String) (rest : PathList) (current : String)
      (node : Node Quantity)
      → SimplePath nodes root path current
      → lookup current nodes ≡ some node
      → suc (load (rest ++ grow nodes order target t (current ∷ visited) path node))
        ≤ load (path ∷ rest)
  unfolding work
  load-round t visited path rest current node s look =
      let d = max_degree nodes in
      let n = length nodes in
      let ns = order t (keys node.links) in
      let w = weight d (n - length path) in
      let fits : length path ≤ n = omega (
        arith,
        length-SimplePath nodes root s (mem-keys_of_lookup current nodes look),
        length-keys nodes,
      ) in
      let few : length ns ≤ d = omega (
        arith,
        length-perm (ranged t (keys node.links)),
        length-keys node.links,
        length-le-max_degree nodes current node look,
      ) in
      let step : suc n - length path ≡ suc (n - length path) = omega arith in
      let new = work-new_paths d n (current ∷ visited) path ns in
      let more : length ns * w ≤ d * w = mul-le-mul_right w few in
      rw (work-append d n rest) (rw step (omega (arith, weight-pos d (n - length path))))

  -- With fuel for the weight of the queue the search does not run out of it.
  pub explore_ends :
      (fuel : ℕ) (visited : StringSet) (pending found done : PathList)
      → Inv nodes root target visited pending found done
      → load pending ≤ fuel
      → explore nodes order target fuel visited pending found ≢ out_of_fuel
  unfolding explore work
  explore_ends zero visited [] found done h b e = cc
  explore_ends zero visited (path ∷ rest) found done h b e =
      absurd (omega (arith, weight-pos (max_degree nodes) (suc (length nodes) - length path)))
  explore_ends (suc fuel) visited [] found done h b e = cc
  explore_ends (suc fuel) visited (path ∷ rest) found done h b e =
      elim (Option-cases (get_last? path)) [
        | inl n ↦
            let stopped : ◌≡◌ {A = Result PathList} panic out_of_fuel = rw (n, explore) at e in cc
        | inr (c, l) ↦ elim (Option-cases (lookup c nodes)) [
          | inl n ↦
              let stopped : ◌≡◌ {A = Result PathList} panic out_of_fuel = rw (l, n, explore) at e in
              cc
          | inr (node, m) ↦
              explore_ends fuel (c ∷ visited) _ _ (path ∷ done)
                (Inv-round nodes root target order ranged fuel visited path rest found done c node l
                  m h)
                (omega (
                  arith,
                  load-round fuel visited path rest c node
                      (path-Simple nodes root target order ranged fuel visited path rest found done
                        c node l m h)
                      m,
                ))
                (rw (l, m, explore) at e)
        ]
      ]
