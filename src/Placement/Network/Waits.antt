-- ===== src/Placement/Network/Waits.antt =====
-- The queue of requirements in `validateNetwork`: the walk asks it for one at each node of the placement.
use oai_k8s.Common.{
  String, ℕ, suc, ◌≤◌, ◌<◌, ◌≡◌, refl, sym, ◌∙◌, ap, subst, Option, none, some, List, [], ◌∷◌, ◌++◌,
  Bool, true, false, if◌then◌else◌,
}
use oai_k8s.Common.{
  length, arith, Memᴰ, Distinct, length_of_Distinct, contains_iff, Bool-cases, inl, inr, ⊎_elim,
  Option-cases,
}
use oai_k8s.Common.{ok, reads, pure, deref, >>=-eq-ok}
use oai_k8s.Common.Runs.{Runs, Runs-bind, Runs-and_then, Runs-deref}
use oai_k8s.Common.Dict.{lookup}
use mathlib.Core.List.Memᴰ
use oai_k8s.Extern.{Platform, Laws, HasNext}
use oai_k8s.Api.{Disaggregation, NetworkRequirements}
use oai_k8s.Utils.{Link}
use oai_k8s.Utils.Links
use oai_k8s.Utils.StringSets.{StringSet, new_string_set, has}
use oai_k8s.Placement.State.{Graph}
use oai_k8s.Placement.Network.{
  Requirement, Walk, next_segment, link_to, charge, cross_link, cross, advance, walk_path,
  first_walk, validate_network,
}

-- The nodes of the path that run a part of the chain.
abbrev placed_on : StringSet → List String → List String
placed_on placement [] = []
placed_on placement (x ∷ xs) =
    if has placement x then x ∷ placed_on placement xs else placed_on placement xs

Memᴰ-placed_on :
    (placement : StringSet) (path : List String) (x : String)
    → Memᴰ x (placed_on placement path)
    → Memᴰ x path × Memᴰ x placement
Memᴰ-placed_on placement [] x m = absurd (Memᴰ.not-nil m)
Memᴰ-placed_on placement (y ∷ ys) x m = elim (Bool-cases (has placement y)) [
  | inl t ↦
      ⊎_elim
        (λ e. (Memᴰ.head e, subst (λ z. Memᴰ z placement) (sym e) ((contains_iff placement y).0 t)))
        (λ u. let (a, b) = Memᴰ-placed_on placement ys x u in (Memᴰ.tail a, b))
        (Memᴰ.cases_cons (rw t at m))
  | inr f ↦ let (a, b) = Memᴰ-placed_on placement ys x (rw f at m) in (Memᴰ.tail a, b)
]

placed_on-Distinct :
    (placement : StringSet) (path : List String)
    → Distinct path
    → Distinct (placed_on placement path)
placed_on-Distinct placement [] d = tt
placed_on-Distinct placement (y ∷ ys) (n, d) = elim (Bool-cases (has placement y)) [
  | inl t ↦ rw t (λ m. n (Memᴰ-placed_on placement ys y m).0, placed_on-Distinct placement ys d)
  | inr f ↦ rw f (placed_on-Distinct placement ys d)
]

-- A path without repetition meets at most as many of them as there are.
length-placed_on :
    (placement : StringSet) (path : List String)
    → Distinct path
    → length (placed_on placement path) ≤ length placement
length-placed_on placement path d =
    length_of_Distinct (placed_on placement path) placement (placed_on-Distinct placement path d)
      (λ x m. (Memᴰ-placed_on placement path x m).1)

module _ (P : Platform) (L : Laws P) where
  open P use {Float, Quantity}

  -- Requirements that wait.
  abbrev waiting : Walk P → ℕ
  waiting w = length (L.items (Requirement P) w.disaggregation_queue)

  from_queue :
      {A : Type 0} (xs : List A) (q : P.Queue A) (n : ℕ)
      → HasNext A (P.Queue A) (L.items A) xs (P.get A q)
      → n < length xs
      → (x : A) × (q' : P.Queue A) × (P.get A q ≡ some (x, q')) × (n ≤ length (L.items A q'))
  from_queue [] q n h b = absurd (omega arith)
  from_queue (x ∷ xs) q n (q', e, f) b = (x, q', e, omega (arith, ap length f, b))

  segment_from :
      (placement : StringSet) (a : String) (w : Walk P) (n : ℕ)
      → has placement a ≡ true
      → n < waiting w
      → (w' : Walk P) × (next_segment P placement a w ≡ ok w') × (n ≤ waiting w')
  unfolding next_segment
  segment_from placement a w n t b =
      let (r, q, e, c) =
        from_queue (L.items (Requirement P) w.disaggregation_queue) w.disaggregation_queue n
          (L.items-get (Requirement P) w.disaggregation_queue) b in
      (
        record { disaggregation_queue = q; requirement = r; total_latency = P.zero_float },
        rw (t, e) refl,
        c,
      )

  next_segment-ok :
      (placement : StringSet) (a : String) (rest : List String) (w : Walk P)
      → length (placed_on placement (a ∷ rest)) ≤ waiting w
      → (w' : Walk P) × (next_segment P placement a w ≡ ok w')
        × (length (placed_on placement rest) ≤ waiting w')
  unfolding next_segment
  next_segment-ok placement a rest w b = elim (Bool-cases (has placement a)) [
    | inr f ↦ (w, rw f refl, rw f at b)
    | inl t ↦ segment_from placement a w (length (placed_on placement rest)) t (
        let b' : suc (length (placed_on placement rest)) ≤ waiting w = rw t at b in
        omega (arith, b'))
  ]

  charge-Runs :
      (allocate : Bool) (l : String) (link : Link Float) (r : NetworkRequirements Float)
      (w : Walk P) (fit : Bool) (g : Graph Float Quantity)
      → let m = if allocate then charge P l link r w else pure (if fit then some w else none) in
        Runs (m g).0
  unfolding charge Links.allocate_resources
  charge-Runs true l link r w fit g =
      elim (Bool-cases
        (P.lt_float (P.sub_float link.available_bandwidth r.bandwidth) P.zero_float)) [
          | inl t ↦ rw t tt
          | inr f ↦ rw f tt
        ]
  charge-Runs false l link r w fit g = tt

  cross_link-Runs :
      (allocate : Bool) (w : Walk P) (l : String) (link : Link Float) (g : Graph Float Quantity)
      → Runs (cross_link P allocate w (l, link) g).0
  unfolding cross_link
  cross_link-Runs allocate w l link g = elim (Option-cases w.requirement) [
    | inl n ↦ rw (n, cross_link) tt
    | inr (r, x) ↦ rw (x, cross_link) (charge-Runs allocate l link r _ _ g)
  ]

  link_to-Runs : (g : Graph Float Quantity) (u v : String) → Runs (link_to P g u v)
  unfolding link_to
  link_to-Runs g u v =
      Runs-and_then (deref (lookup u g.nodes)) _ (Runs-deref (lookup u g.nodes)) (λ node _.
        Runs-and_then (deref (lookup v node.links)) _ (Runs-deref (lookup v node.links))
          (λ pointer _.
            Runs-and_then (deref (lookup pointer g.links)) (λ link. ok (pointer, link))
              (Runs-deref (lookup pointer g.links)) (λ link _. tt)))

  cross-Runs :
      (allocate : Bool) (w : Walk P) (u v : String) (g : Graph Float Quantity)
      → Runs (cross P allocate w u v g).0
  unfolding cross
  cross-Runs allocate w u v g =
      Runs-bind (reads (λ g. link_to P g u v)) (cross_link P allocate w) g (link_to-Runs g u v)
        (λ (l, link) t _. cross_link-Runs allocate w l link t)

  charge-waiting :
      (l : String) (link : Link Float) (r : NetworkRequirements Float) (w w' : Walk P)
      (g g' : Graph Float Quantity)
      → charge P l link r w g ≡ (ok (some w'), g')
      → w' ≡ w
  unfolding charge Links.allocate_resources
  charge-waiting l link r w w' g g' h =
      elim (Bool-cases
        (P.lt_float (P.sub_float link.available_bandwidth r.bandwidth) P.zero_float)) [
          | inl t ↦ let bad = rw t at h in cc
          | inr f ↦ let good = rw f at h in cc
        ]

  branch-waiting :
      (allocate fit : Bool) (l : String) (link : Link Float) (r : NetworkRequirements Float)
      (w w' : Walk P) (g g' : Graph Float Quantity)
      → let m = if allocate then charge P l link r w else pure (if fit then some w else none) in
        m g ≡ (ok (some w'), g') → w' ≡ w
  branch-waiting true fit l link r w w' g g' h = charge-waiting l link r w w' g g' h
  branch-waiting false true l link r w w' g g' h = cc
  branch-waiting false false l link r w w' g g' h = let bad = h in cc

  cross_link-waiting :
      (allocate : Bool) (w w' : Walk P) (l : String) (link : Link Float)
      (g g' : Graph Float Quantity)
      → cross_link P allocate w (l, link) g ≡ (ok (some w'), g')
      → w'.disaggregation_queue ≡ w.disaggregation_queue
  unfolding cross_link
  cross_link-waiting allocate w w' l link g g' h = elim (Option-cases w.requirement) [
    | inl n ↦ let bad = rw (n, cross_link) at h in cc
    | inr (r, e) ↦
        let good = rw (e, cross_link) at h in
        ap (λ x. x.disaggregation_queue) (branch-waiting allocate _ l link r _ w' g g' good)
  ]

  -- Crossing a link asks the queue for nothing.
  cross-waiting :
      (allocate : Bool) (w w' : Walk P) (u v : String) (g g' : Graph Float Quantity)
      → cross P allocate w u v g ≡ (ok (some w'), g')
      → w'.disaggregation_queue ≡ w.disaggregation_queue
  unfolding cross
  cross-waiting allocate w w' u v g g' h =
      let ((l, link), g₁, e, h₁) =
        >>=-eq-ok (reads (λ g. link_to P g u v)) (cross_link P allocate w) g h in
      cross_link-waiting allocate w w' l link g₁ g' h₁

  walk_path-Runs :
      (allocate : Bool) (placement : StringSet) (path : List String) (w : Walk P)
      (g : Graph Float Quantity)
      → length (placed_on placement path) ≤ waiting w
      → Runs (walk_path P allocate placement w path g).0
  unfolding walk_path
  walk_path-Runs allocate placement [] w g b = tt
  walk_path-Runs allocate placement (a ∷ []) w g b =
      let (w', e, c) = next_segment-ok placement a [] w b in rw e tt
  walk_path-Runs allocate placement (a ∷ v ∷ rest) w g b =
      let (w', e, c) = next_segment-ok placement a (v ∷ rest) w b in
      let next = λ (w : Walk P). walk_path P allocate placement w (v ∷ rest) in
      rw e (
        Runs-bind (cross P allocate w' a v) (advance P next) g (cross-Runs allocate w' a v g)
          (λ crossed t h. elim (Option-cases crossed) [
            | inl n ↦ rw n tt
            | inr (w'', s) ↦
                let same = cross-waiting allocate w' w'' a v g t (h ∙ ap (λ z. (ok z, t)) s) in
                rw s (
                  walk_path-Runs allocate placement (v ∷ rest) w'' t (
                    subst
                      (λ q.
                        length (placed_on placement (v ∷ rest))
                        ≤ length (L.items (Requirement P) q))
                      (sym same) c))
          ]))

  -- The queue holds a requirement for each of the three roles.
  first_walk-waiting :
      (r : Disaggregation Float) (a cu du : String) (path : List String)
      → Distinct (a ∷ path)
      → length (placed_on (new_string_set (a ∷ cu ∷ du ∷ [])) (a ∷ path)) ≤ waiting (first_walk P r)
  unfolding new_string_set
  first_walk-waiting r a cu du path d =
      let few = length-placed_on (new_string_set (a ∷ cu ∷ du ∷ [])) (a ∷ path) d in
      let filled : waiting (first_walk P r) ≡ 3 = ap length (
        L.items-put (Requirement P) (P.new_queue (Requirement P) 3)
          (r.backhaul ∷ r.midhaul ∷ r.fronthaul ∷ [])
        ∙ ap (λ q. q ++ (r.backhaul ∷ r.midhaul ∷ r.fronthaul ∷ []))
            (L.items-new (Requirement P) 3)) in
      subst (λ n. length (placed_on (new_string_set (a ∷ cu ∷ du ∷ [])) (a ∷ path)) ≤ n)
        (sym filled) few

  -- On a path without repetition `validateNetwork` never waits on its queue, with or without allocation.
  pub validate_network-Runs :
      (r : Option (Disaggregation Float)) (path : List String) (cu du : String) (allocate : Bool)
      (g : Graph Float Quantity)
      → Distinct path
      → Runs (validate_network P r path cu du allocate g).0
  unfolding validate_network
  validate_network-Runs none path cu du allocate g d = tt
  validate_network-Runs (some r) [] cu du allocate g d = tt
  validate_network-Runs (some r) (a ∷ path) cu du allocate g d =
      walk_path-Runs allocate (new_string_set (a ∷ cu ∷ du ∷ [])) (a ∷ path) (first_walk P r) g
        (first_walk-waiting r a cu du path d)
