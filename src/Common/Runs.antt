-- ===== src/Common/Runs.antt =====
-- Calls that end: they neither wait for ever nor use up their fuel.
use mathlib.Core.Path.{◌≡◌, refl}
use mathlib.Core.Bool.{Bool, true, false}
use oai_k8s.Common.Basic.{if◌then◌else◌}
use mathlib.Core.Option.{Option, none, some}
use Prim.Native.String.{String}
use oai_k8s.Common.Results.{
  Result, ok, err, panic, hang, out_of_fuel, Action, ◌>>=◌, wrapped, and_then, deref,
}

abbrev pub Runs : {A : Type 0} → Result A → Type 0
Runs (ok a) = Unit
Runs (err e) = Unit
Runs panic = Unit
Runs hang = ⊥
Runs out_of_fuel = ⊥

pub Runs-wrapped : {A : Type 0} (c : String) (r : Result A) → Runs r → Runs (wrapped c r)
Runs-wrapped c (ok a) h = h
Runs-wrapped c (err e) h = h
Runs-wrapped c panic h = h
Runs-wrapped c hang h = h
Runs-wrapped c out_of_fuel h = h

pub Runs-if :
    {A : Type 0} (b : Bool) (r r' : Result A) → Runs r → Runs r' → Runs (if b then r else r')
Runs-if true r r' h h' = h
Runs-if false r r' h h' = h'

pub Runs-deref : {A : Type 0} (m : Option A) → Runs (deref m)
Runs-deref none = tt
Runs-deref (some a) = tt

pub Runs-and_then :
    {A B : Type 0} (r : Result A) (f : A → Result B)
    → Runs r
    → ((a : A) → r ≡ ok a → Runs (f a))
    → Runs (and_then r f)
Runs-and_then (ok a) f h k = k a refl
Runs-and_then (err e) f h k = h
Runs-and_then panic f h k = h
Runs-and_then hang f h k = h
Runs-and_then out_of_fuel f h k = h

Runs-bind_at :
    {S A B : Type 0} (p : Result A × S) (f : A → Action S B) (s : S)
    → Runs p.0
    → ((a : A) (t : S) → p ≡ (ok a, t) → Runs (f a t).0)
    → Runs (◌>>=◌ (λ _. p) f s).0
Runs-bind_at (ok a, t) f s h k = k a t refl
Runs-bind_at (err e, t) f s h k = h
Runs-bind_at (panic, t) f s h k = h
Runs-bind_at (hang, t) f s h k = h
Runs-bind_at (out_of_fuel, t) f s h k = h

-- What follows may use the result and the state of the first call.
pub Runs-bind :
    {S A B : Type 0} (m : Action S A) (f : A → Action S B) (s : S)
    → Runs (m s).0
    → ((a : A) (t : S) → m s ≡ (ok a, t) → Runs (f a t).0)
    → Runs ((m >>= f) s).0
Runs-bind m f s = Runs-bind_at (m s) f s
