-- ===== src/Common/Members.antt =====
-- Membership, orders of iteration and lists without repetition.
use Prim.Native.Nat.{suc}
use Prim.Native.String.{String}
use Prim.Native.Nat.{suc, ◌≤◌}
use mathlib.Core.Path.{sym, subst, ◌≡◌, refl, ◌∙◌, ap}
use mathlib.Core.Logic.{inl, inr, ◌↔◌, ◌⊎◌, inr, ⊎_elim}
use mathlib.Core.Bool.{Bool, true, not, ◌&&◌}
use mathlib.Core.List.{List, [], ◌∷◌, ◌++◌, Memᴰ, Permᴰ}
use mathlib.Core.List.Memᴰ
use native.Mathlib.Omega.{arith}
use oai_k8s.Common.Basic.{Bool-cases}
use oai_k8s.Common.Lists.{length, contains}

module _ {ℓ} {A : Type ℓ} where
  pub Memᴰ-cons : (a x : A) (xs : List A) → Memᴰ a (x ∷ xs) ↔ ((a ≡ x) ⊎ Memᴰ a xs)
  Memᴰ-cons a x xs = (Memᴰ.cases_cons, ⊎_elim Memᴰ.head Memᴰ.tail)

  pub Memᴰ-append : (a : A) (xs ys : List A) → Memᴰ a (xs ++ ys) ↔ (Memᴰ a xs ⊎ Memᴰ a ys)
  Memᴰ-append a xs ys = (Memᴰ.append_cases xs, ⊎_elim (Memᴰ.append_left ys) (Memᴰ.append_right xs))

  pub Memᴰ-perm : {a : A} {xs ys : List A} → Permᴰ xs ys → Memᴰ a xs → Memᴰ a ys
  Memᴰ-perm Permᴰ.nil m = m
  Memᴰ-perm (Permᴰ.cons e p) m =
      ⊎_elim (λ q. Memᴰ.head (q ∙ e)) (λ t. Memᴰ.tail (Memᴰ-perm p t)) (Memᴰ.cases_cons m)
  Memᴰ-perm (Permᴰ.swap e f) m =
      ⊎_elim (λ q. Memᴰ.tail (Memᴰ.head (q ∙ e)))
        (λ t. ⊎_elim (λ q. Memᴰ.head (q ∙ f)) (λ u. Memᴰ.tail (Memᴰ.tail u)) (Memᴰ.cases_cons t))
        (Memᴰ.cases_cons m)
  Memᴰ-perm (Permᴰ.trans p q) m = Memᴰ-perm q (Memᴰ-perm p m)

  pub length-perm : {xs ys : List A} → Permᴰ xs ys → length xs ≡ length ys
  length-perm Permᴰ.nil = refl
  length-perm (Permᴰ.cons e p) = ap suc (length-perm p)
  length-perm (Permᴰ.swap e f) = refl
  length-perm (Permᴰ.trans p q) = length-perm p ∙ length-perm q

  -- No element stands twice.
  abbrev pub Distinct : List A → Type ℓ
  Distinct [] = Unit
  Distinct (x ∷ xs) = (¬ Memᴰ x xs) × Distinct xs

  pub Distinct-concat : (xs : List A) (x : A) → Distinct xs → ¬ Memᴰ x xs → Distinct (xs ++ x ∷ [])
  Distinct-concat [] x d n = (Memᴰ.not-nil, tt)
  Distinct-concat (y ∷ ys) x (m, d) n = (
    λ t.
        ⊎_elim m (λ u. n (Memᴰ.head (sym (Memᴰ.eq_of_singleton u))))
          ((Memᴰ-append y ys (x ∷ [])).0 t),
    Distinct-concat ys x d (λ t. n (Memᴰ.tail t)),
  )

  -- A member can be taken out once.
  pub remove_mem :
      (x : A) (ys : List A)
      → Memᴰ x ys
      → (zs : List A) × (length ys ≡ suc (length zs)) × ((w : A) → Memᴰ w ys → (w ≡ x) ⊎ Memᴰ w zs)
  remove_mem x [] m = absurd (Memᴰ.not-nil m)
  remove_mem x (y ∷ ys) m = elim (Memᴰ.cases_cons m) [
    | inl e ↦ (ys, refl, λ w t. ⊎_elim (λ f. inl (f ∙ sym e)) inr (Memᴰ.cases_cons t))
    | inr t ↦
        let (zs, l, c) = remove_mem x ys t in
        (
          y ∷ zs,
          ap suc l,
          λ w u.
              ⊎_elim (λ f. inr (Memᴰ.head f)) (λ v. ⊎_elim inl (λ v'. inr (Memᴰ.tail v')) (c w v))
                (Memᴰ.cases_cons u),
        )
  ]

  -- Distinct members of a list are at most as many as its elements.
  pub length_of_Distinct :
      (xs ys : List A) → Distinct xs → ((w : A) → Memᴰ w xs → Memᴰ w ys) → length xs ≤ length ys
  length_of_Distinct [] ys d h = omega arith
  length_of_Distinct (x ∷ xs) ys (n, d) h =
      let (zs, l, c) = remove_mem x ys (h x (Memᴰ.head refl)) in
      let rest = length_of_Distinct xs zs d (λ w m.
        ⊎_elim (λ e. absurd (n (subst (λ a. Memᴰ a xs) e m))) (λ t. t) (c w (h w (Memᴰ.tail m)))) in
      omega arith

pub contains_iff : (xs : List String) (a : String) → (contains xs a ≡ true) ↔ Memᴰ a xs
contains_iff [] a = (λ h. cc, λ m. absurd (Memᴰ.not-nil m))
contains_iff (x ∷ xs) a = ground (arith, contains_iff xs a, Memᴰ-cons a x xs)

abbrev pub is_distinct : List String → Bool
is_distinct [] = true
is_distinct (x ∷ xs) = not (contains xs x) && is_distinct xs

pub is_distinct-Distinct : (xs : List String) → is_distinct xs ≡ true → Distinct xs
is_distinct-Distinct [] h = tt
is_distinct-Distinct (x ∷ xs) h = elim (Bool-cases (contains xs x)) [
  | inl c ↦ let bad = rw c at h in cc
  | inr c ↦ (λ m. let e = (contains_iff xs x).1 m in cc, is_distinct-Distinct xs (rw c at h))
]
