-- ===== src/Common/Results.antt =====
-- What a Go call ends with, and calls that also change a state. The state comes back after an error
-- too, since what was written stays written.
use Prim.Native.String.{String}
use oai_k8s.Common.Int.{ℤ}
use mathlib.Core.Option.{Option, none, some}
use mathlib.Core.Path.{◌≡◌, refl, ap, subst, sym}
use mathlib.Core.Logic.{◌⊎◌, inl, inr}

-- `wrap s e` is fmt.Errorf("s: %w", e), or the same with %s; `wrap_nil s` is the same with a nil error.
pub data Error : Type 0 where
  message : String → Error
  node_short : (cpu memory : ℤ) → Error
  link_short : String → Error
  not_found : Error
  wrap : String → Error → Error
  wrap_nil : String → Error

-- `panic` is a run-time panic (nil pointer, index out of range), `hang` a wait that nothing ends,
-- and `out_of_fuel` no behaviour of the code: a loop of the model has used up its fuel.
pub data Result {ℓ} (A : Type ℓ) : Type ℓ where
  ok : A → Result A
  err : Error → Result A
  panic : Result A
  hang : Result A
  out_of_fuel : Result A

module _ {ℓ κ} {A : Type ℓ} {B : Type κ} where
  abbrev pub and_then : Result A → (A → Result B) → Result B
  and_then (ok a) f = f a
  and_then (err e) f = err e
  and_then panic f = panic
  and_then hang f = hang
  and_then out_of_fuel f = out_of_fuel

  -- Inversion of a chain that succeeds.
  pub and_then-eq-ok :
      (r : Result A) (f : A → Result B) {b : B}
      → and_then r f ≡ ok b
      → (a : A) × (r ≡ ok a) × (f a ≡ ok b)
  and_then-eq-ok (ok a) f h = (a, refl, h)
  and_then-eq-ok (err e) f h = cc
  and_then-eq-ok panic f h = cc
  and_then-eq-ok hang f h = cc
  and_then-eq-ok out_of_fuel f h = cc

-- Adds context to an error on its way out.
abbrev pub wrapped {ℓ} : {A : Type ℓ} → String → Result A → Result A
wrapped s (ok a) = ok a
wrapped s (err e) = err (wrap s e)
wrapped s panic = panic
wrapped s hang = hang
wrapped s out_of_fuel = out_of_fuel

-- A use of a pointer: nil panics.
abbrev pub deref {ℓ} : {A : Type ℓ} → Option A → Result A
deref none = panic
deref (some a) = ok a

-- A call that changes a state.
abbrev pub Action {ℓ} : Type ℓ → Type ℓ → Type ℓ
Action S A = S → Result A × S

abbrev pub pure {ℓ} : {S A : Type ℓ} → A → Action S A
pure a s = (ok a, s)

infixl 5 ◌>>=◌ ◌>>◌
abbrev pub ◌>>=◌ {ℓ} : {S A B : Type ℓ} → Action S A → (A → Action S B) → Action S B
◌>>=◌ m f s =
    let (r, s') = m s in
    elim r [
      | ok a ↦ f a s'
      | err e ↦ (err e, s')
      | panic ↦ (panic, s')
      | hang ↦ (hang, s')
      | out_of_fuel ↦ (out_of_fuel, s')
    ]

abbrev pub ◌>>◌ {ℓ} : {S A B : Type ℓ} → Action S A → Action S B → Action S B
m >> k = m >>= λ _. k

abbrev pub lift {ℓ} : {S A : Type ℓ} → Result A → Action S A
lift r s = (r, s)

abbrev pub reads {ℓ} : {S A : Type ℓ} → (S → Result A) → Action S A
reads f s = (f s, s)

abbrev pub with_context {ℓ} : {S A : Type ℓ} → String → Action S A → Action S A
with_context c m s = let (r, s') = m s in (wrapped c r, s')

-- Inversion of a sequence that succeeds.
pub >>=-eq-ok {ℓ} :
    {S A B : Type ℓ} (m : Action S A) (f : A → Action S B) (s : S) {b : B} {u : S}
    → (m >>= f) s ≡ (ok b, u)
    → (a : A) × (t : S) × (m s ≡ (ok a, t)) × (f a t ≡ (ok b, u))
>>=-eq-ok {S} {A} m f s {b} {u} = go (m s)
  where
    go :
        (p : Result A × S)
        → (◌>>=◌ (λ _. p) f) s ≡ (ok b, u)
        → (a : A) × (t : S) × (p ≡ (ok a, t)) × (f a t ≡ (ok b, u))
    go (ok a, t) h = (a, t, refl, h)
    go (err e, t) h = cc
    go (panic, t) h = cc
    go (hang, t) h = cc
    go (out_of_fuel, t) h = cc

-- A first call that succeeds.
pub >>=-ok {ℓ} :
    {S A B : Type ℓ} (m : Action S A) (f : A → Action S B) (s : S) {a : A} {t : S}
    → m s ≡ (ok a, t)
    → (m >>= f) s ≡ f a t
>>=-ok m f s e = ap (λ p. (◌>>=◌ (λ _. p) f) s) e

-- A sequence whose calls leave the state as it is.
pub >>=-keeps {ℓ} :
    {S A B : Type ℓ} (m : Action S A) (f : A → Action S B) (s : S)
    → (m s).1 ≡ s
    → ((a : A) → (f a s).1 ≡ s)
    → ((m >>= f) s).1 ≡ s
>>=-keeps {S} {A} m f s h k = go (m s) h
  where
    go : (p : Result A × S) → p.1 ≡ s → ((◌>>=◌ (λ _. p) f) s).1 ≡ s
    go (ok a, t) e = subst (λ x. (f a x).1 ≡ s) (sym e) (k a)
    go (err x, t) e = e
    go (panic, t) e = e
    go (hang, t) e = e
    go (out_of_fuel, t) e = e

-- A call that succeeds in a context.
pub with_context-eq-ok {ℓ} :
    {S A : Type ℓ} (c : String) (m : Action S A) (s : S) {a : A} {t : S}
    → with_context c m s ≡ (ok a, t)
    → m s ≡ (ok a, t)
with_context-eq-ok {S} {A} c m s {a} {t} = go (m s)
  where
    go : (p : Result A × S) → with_context c (λ _. p) s ≡ (ok a, t) → p ≡ (ok a, t)
    go (ok b, u) h = h
    go (err e, u) h = cc
    go (panic, u) h = cc
    go (hang, u) h = cc
    go (out_of_fuel, u) h = cc

-- To split on the result of a call.
pub Result-cases {ℓ} :
    {A : Type ℓ} (r : Result A)
    → ((a : A) × (r ≡ ok a))
      ⊎ (((e : Error) × (r ≡ err e)) ⊎ ((r ≡ panic) ⊎ ((r ≡ hang) ⊎ (r ≡ out_of_fuel))))
Result-cases (ok a) = inl (a, refl)
Result-cases (err e) = inr (inl (e, refl))
Result-cases panic = inr (inr (inl refl))
Result-cases hang = inr (inr (inr (inl refl)))
Result-cases out_of_fuel = inr (inr (inr (inr refl)))
