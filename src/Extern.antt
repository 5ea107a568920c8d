-- ===== src/Extern.antt =====
-- What the operator uses of Go's float32 and of three packages that it does not implement:
-- k8s.io/apimachinery/pkg/api/resource (Quantity) and github.com/Workiva/go-datastructures/queue
-- (Queue). The operations are parameters of the model. `Laws` holds their documented behaviour.
pub mod Sample
use oai_k8s.Common.{ℕ, ◌≡◌, Bool, true, false, Option, none, some, List, [], ◌∷◌, ◌++◌, not}
use oai_k8s.Common.Int.{ℤ, pos, ltb_ℤ}

pub record Platform : Type 1 where
  -- float32: `-`, `+`, `<` and `>=`
  pub Float : Type 0
  pub zero_float : Float
  pub add_float : Float → Float → Float
  pub sub_float : Float → Float → Float
  pub lt_float : Float → Float → Bool
  pub ge_float : Float → Float → Bool
  -- resource.Quantity: Value and Sub
  pub Quantity : Type 0
  pub value : Quantity → ℤ
  pub sub_quantity : Quantity → Quantity → Quantity
  -- queue.New, Put, Get(1) and Empty; `get` gives `none` where Get waits for a Put
  pub Queue : Type 0 → Type 0
  pub new_queue : (A : Type 0) → ℕ → Queue A
  pub put : (A : Type 0) → Queue A → List A → Queue A
  pub get : (A : Type 0) → Queue A → Option (A × Queue A)
  pub is_empty : (A : Type 0) → Queue A → Bool

-- Get(1) on a queue with the given items.
abbrev pub HasNext : (A Q : Type 0) → (Q → List A) → List A → Option (A × Q) → Type 0
HasNext A Q items [] r = r ≡ none
HasNext A Q items (x ∷ xs) r = (q : Q) × (r ≡ some (x, q)) × (items q ≡ xs)

abbrev pub is_nil {ℓ} : {A : Type ℓ} → List A → Bool
is_nil [] = true
is_nil (x ∷ xs) = false

pub record Laws (P : Platform) : Type 1 where
  -- IEEE 754 subtraction: a >= b excludes NaN, and then a - b is not below zero.
  pub sub_of_ge :
      (a b : P.Float) → P.ge_float a b ≡ true → P.lt_float (P.sub_float a b) P.zero_float ≡ false
  -- Value rounds away from zero, so it keeps the order.
  pub sub_of_value_lt :
      (a b : P.Quantity)
      → ltb_ℤ (P.value b) (P.value a) ≡ true
      → ltb_ℤ (P.value (P.sub_quantity a b)) (pos 0) ≡ false
  -- The queue is first in, first out.
  pub items : (A : Type 0) → P.Queue A → List A
  pub items-new : (A : Type 0) (n : ℕ) → items A (P.new_queue A n) ≡ []
  pub items-put :
      (A : Type 0) (q : P.Queue A) (xs : List A) → items A (P.put A q xs) ≡ items A q ++ xs
  pub items-get :
      (A : Type 0) (q : P.Queue A) → HasNext A (P.Queue A) (items A) (items A q) (P.get A q)
  pub items-is_empty : (A : Type 0) (q : P.Queue A) → P.is_empty A q ≡ is_nil (items A q)
