-- ===== src/Placement/Paths/Invariant.antt =====
-- What the search keeps: paths of `done` have left the queue, those of `pending` wait in it.
use oai_k8s.Common.{String, ℕ, suc, ◌≤◌, ◌≡◌, refl, subst, List, [], ◌∷◌, ◌++◌}
use oai_k8s.Common.{◌⊎◌, ⊎_elim, inr, ◌↔◌, length, arith, Memᴰ, Memᴰ-append}
use oai_k8s.Common.Dict.{Dict}
use mathlib.Core.List.Memᴰ
use oai_k8s.Utils.{Node}
use oai_k8s.Utils.StringSets.{StringSet}
use oai_k8s.Placement.Paths.{PathList}
use oai_k8s.Placement.Paths.Walks.{Edge, SimplePath, origin}

-- The paths wait in the order of their lengths, which differ by one at most.
abbrev pub Ordered : PathList → Type 0
Ordered [] = Unit
Ordered (p ∷ ps) =
    ((q : List String) → Memᴰ q ps → (length p ≤ length q) × (length q ≤ suc (length p)))
    × Ordered ps

pub Ordered-append :
    (n : ℕ) (ps qs : PathList)
    → Ordered ps
    → ((p : List String) → Memᴰ p ps → (n ≤ length p) × (length p ≤ suc n))
    → ((q : List String) → Memᴰ q qs → length q ≡ suc n)
    → Ordered (ps ++ qs)
Ordered-append n [] [] o h k = tt
Ordered-append n [] (q ∷ qs) o h k = (
  λ r m. let a = k q (Memᴰ.head refl) in let b = k r (Memᴰ.tail m) in (omega arith, omega arith),
  Ordered-append n [] qs tt h (λ r m. k r (Memᴰ.tail m)),
)
Ordered-append n (p ∷ ps) qs (o, os) h k = (
  λ r m.
      let a = h p (Memᴰ.head refl) in
      ⊎_elim (o r) (λ t. let b = k r t in (omega arith, omega arith)) ((Memᴰ-append r ps qs).0 m),
  Ordered-append n ps qs os (λ r m. h r (Memᴰ.tail m)) k,
)

module _ {Quantity : Type 0} (nodes : Dict (Node Quantity)) (root target : String) where
  abbrev pub Simple : List String → String → Type 0
  Simple = SimplePath nodes root

  -- A path to `w` that left the queue and has at most `n` nodes.
  abbrev pub Known : PathList → String → ℕ → Type 0
  Known done w n = (p : List String) × Memᴰ p done × Simple p w × (length p ≤ n)

  pub record Inv (visited : StringSet) (pending found done : PathList) : Type 0 where
    pub simple :
        (p : List String)
        → Memᴰ p pending
        → (u : String) × Simple p u × ((w : String) → Memᴰ w p → Memᴰ w visited ⊎ (w ≡ u))
    pub ordered : Ordered pending
    pub seen :
        (w : String)
        → Memᴰ w visited
        → (p : List String) × Memᴰ p done
          × Simple p w
          × ((q : List String) → Memᴰ q pending → length p ≤ length q)
    pub root_path : Memᴰ (root ∷ []) done ⊎ Memᴰ (root ∷ []) pending
    pub closed :
        (q : List String) (u v : String)
        → Memᴰ q done
        → Simple q u
        → Edge nodes u v
        → (Memᴰ (q ++ v ∷ []) done ⊎ Memᴰ (q ++ v ∷ []) pending) ⊎ Known done v (length q)
    pub left : (p : List String) → Memᴰ p done → (u : String) × Simple p u
    pub results : (p : List String) → Memᴰ p found ↔ (Memᴰ p done × Simple p target)

  pub Inv-start : Inv [] ((root ∷ []) ∷ []) [] []
  Inv-start = record {
    simple = λ p m.
        let e = Memᴰ.eq_of_singleton m in
        (root, origin e refl, λ w t. inr (Memᴰ.eq_of_singleton (subst (Memᴰ w) e t)));
    ordered = (λ q m. absurd (Memᴰ.not-nil m), tt);
    seen = λ w m. absurd (Memᴰ.not-nil m);
    root_path = inr (Memᴰ.head refl);
    closed = λ q u v m. absurd (Memᴰ.not-nil m);
    left = λ p m. absurd (Memᴰ.not-nil m);
    results = λ p. (λ m. absurd (Memᴰ.not-nil m), λ (m, s). absurd (Memᴰ.not-nil m));
  }
