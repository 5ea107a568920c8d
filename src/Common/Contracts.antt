-- ===== src/Common/Contracts.antt =====
-- Contracts of actions: what holds of the state before a call holds behind it, with one condition where
-- the call succeeds and a weaker one where it does not. A rule for each way to build an action.
use mathlib.Core.Path.{◌≡◌, refl}
use mathlib.Core.Bool.{Bool, true, false}
use Prim.Native.String.{String}
use oai_k8s.Common.Basic.{if◌then◌else◌}
use oai_k8s.Common.Results.{
  Result, ok, err, panic, hang, out_of_fuel, Action, pure, lift, with_context, ◌>>=◌, wrapped,
}

pub record Contract (S : Type 0) : Type 1 where
  pub good : S → Type 0
  pub failed : S → Type 0
  pub weaken : (s : S) → good s → failed s

-- The same condition whatever the outcome.
abbrev pub always : {S : Type 0} → (S → Type 0) → Contract S
always P = record { good = P; failed = P; weaken = λ s h. h }

-- A condition on success only.
abbrev pub on_success : {S : Type 0} → (S → Type 0) → Contract S
on_success P = record { good = P; failed = λ s. Unit; weaken = λ s h. tt }

module _ {S : Type 0} (C : Contract S) where
  abbrev pub After : {A : Type 0} → Result A → S → Type 0
  After (ok a) s = C.good s
  After (err e) s = C.failed s
  After panic s = C.failed s
  After hang s = C.failed s
  After out_of_fuel s = C.failed s

  pub record Keeps {A : Type 0} (m : Action S A) : Type 0 where
    pub at : (s : S) → C.good s → After (m s).0 (m s).1

  pub After-lift : {A : Type 0} (r : Result A) (s : S) → C.good s → After r s
  After-lift (ok a) s h = h
  After-lift (err e) s h = C.weaken s h
  After-lift panic s h = C.weaken s h
  After-lift hang s h = C.weaken s h
  After-lift out_of_fuel s h = C.weaken s h

  pub After-wrapped :
      {A : Type 0} (c : String) (r : Result A) (s : S) → After r s → After (wrapped c r) s
  After-wrapped c (ok a) s h = h
  After-wrapped c (err e) s h = h
  After-wrapped c panic s h = h
  After-wrapped c hang s h = h
  After-wrapped c out_of_fuel s h = h

  pub Keeps-pure : {A : Type 0} (a : A) → Keeps (pure a)
  Keeps-pure a = record { at = λ s h. h }

  pub Keeps-lift : {A : Type 0} (r : Result A) → Keeps (lift r)
  Keeps-lift r = record { at = After-lift r }

  pub Keeps-with_context :
      {A : Type 0} (c : String) (m : Action S A) → Keeps m → Keeps (with_context c m)
  Keeps-with_context c m k = record { at = λ s h. After-wrapped c (m s).0 (m s).1 (k.at s h) }

  pub Keeps-if :
      {A : Type 0} (b : Bool) (m n : Action S A) → Keeps m → Keeps n → Keeps (if b then m else n)
  Keeps-if true m n k l = k
  Keeps-if false m n k l = l

  -- What follows a read may use what was read.
  pub After-reads_bind :
      {A B : Type 0} (r : Result A) (f : A → Action S B) (s : S)
      → C.good s
      → ((a : A) → r ≡ ok a → After (f a s).0 (f a s).1)
      → After (◌>>=◌ (lift r) f s).0 (◌>>=◌ (lift r) f s).1
  After-reads_bind (ok a) f s h k = k a refl
  After-reads_bind (err e) f s h k = C.weaken s h
  After-reads_bind panic f s h k = C.weaken s h
  After-reads_bind hang f s h k = C.weaken s h
  After-reads_bind out_of_fuel f s h k = C.weaken s h

  After-bind :
      {A B : Type 0} (r : Result A) (t : S) (f : A → Action S B)
      → After r t
      → ((a : A) → Keeps (f a))
      → let p : Result B × S = ◌>>=◌ (λ s. (r, t)) f t in After p.0 p.1
  After-bind (ok a) t f h k = (k a).at t h
  After-bind (err e) t f h k = h
  After-bind panic t f h k = h
  After-bind hang t f h k = h
  After-bind out_of_fuel t f h k = h

  pub Keeps-bind :
      {A B : Type 0} (m : Action S A) (f : A → Action S B)
      → Keeps m
      → ((a : A) → Keeps (f a))
      → Keeps (m >>= f)
  Keeps-bind m f k l = record { at = λ s h. After-bind (m s).0 (m s).1 f (k.at s h) l }

pub After-always :
    {S A : Type 0} (P : S → Type 0) (r : Result A) (s : S) → After (always P) r s → P s
After-always P (ok a) s h = h
After-always P (err e) s h = h
After-always P panic s h = h
After-always P hang s h = h
After-always P out_of_fuel s h = h

pub always-After :
    {S A : Type 0} (P : S → Type 0) (r : Result A) (s : S) → P s → After (always P) r s
always-After P (ok a) s h = h
always-After P (err e) s h = h
always-After P panic s h = h
always-After P hang s h = h
always-After P out_of_fuel s h = h

pub ruleset keeps_rules = (Keeps-pure, Keeps-lift, Keeps-with_context, Keeps-if, Keeps-bind)
