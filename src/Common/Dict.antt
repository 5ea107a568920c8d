-- ===== src/Common/Dict.antt =====
-- Go's map[string]V. The order of the list is the order in which one `range` statement over the map
-- meets its keys; loops that range over the same map again take their order from a parameter.
use mathlib.Core.Path.{◌≡◌, refl, sym, ap, ◌∙◌}
use mathlib.Core.Logic.{◌≢◌, inl, inr}
use mathlib.Core.Option.{Option, none, some}
use mathlib.Core.List.{List, [], ◌∷◌, Memᴰ}
use mathlib.Core.List.Memᴰ
use Prim.Native.String.{String}
use native.Mathlib.Omega.{arith}
use oai_k8s.Common.Basic.{if◌then◌else◌}
use oai_k8s.Common.Text.{str_dec, ◌==◌}

abbrev pub Dict {ℓ} : Type ℓ → Type ℓ
Dict V = List (String × V)

module _ {ℓ} {V : Type ℓ} where
  abbrev pub keys : Dict V → List String
  keys [] = []
  keys ((k, v) ∷ d) = k ∷ keys d

  -- `d[k]` with its second value
  abbrev pub lookup : String → Dict V → Option V
  lookup k [] = none
  lookup k ((j, v) ∷ d) = if k == j then some v else lookup k d

  -- `d[k] = v`
  unfoldable pub insert : String → V → Dict V → Dict V
  insert k v [] = (k, v) ∷ []
  insert k v ((j, w) ∷ d) = if k == j then (k, v) ∷ d else (j, w) ∷ insert k v d

  pub lookup-insert :
      (j k : String) (v : V) (d : Dict V)
      → lookup j (insert k v d) ≡ (if j == k then some v else lookup j d)
  unfolding insert
  lookup-insert j k v [] = refl
  lookup-insert j k v (e ∷ d) = ground (arith, lookup-insert j k v d)

  pub lookup-insert_self : (k : String) (v : V) (d : Dict V) → lookup k (insert k v d) ≡ some v
  lookup-insert_self k v d = ground (arith, lookup-insert k k v d)

  pub lookup-insert_ne :
      (j k : String) (v : V) (d : Dict V) → j ≢ k → lookup j (insert k v d) ≡ lookup j d
  lookup-insert_ne j k v d h = ground (arith, lookup-insert j k v d)

  -- A key that is present is one of the keys, and a key of the list is present.
  pub mem-keys_of_lookup : (k : String) (d : Dict V) {v : V} → lookup k d ≡ some v → Memᴰ k (keys d)
  mem-keys_of_lookup k [] h = cc
  mem-keys_of_lookup k ((j, w) ∷ d) {v} h = elim (str_dec k j) [
    | yes e ↦ Memᴰ.head e
    | no n ↦ Memᴰ.tail (mem-keys_of_lookup k d {v = v} (ground arith))
  ]

  pub lookup_of_mem-keys :
      (k : String) (d : Dict V) → Memᴰ k (keys d) → (v : V) × (lookup k d ≡ some v)
  lookup_of_mem-keys k [] m = absurd (Memᴰ.not-nil m)
  lookup_of_mem-keys k ((j, w) ∷ d) m = elim (str_dec k j) [
    | yes e ↦ (w, ground arith)
    | no n ↦ elim (Memᴰ.cases_cons m) [
      | inl e ↦ absurd (n e)
      | inr t ↦ let (v, e) = lookup_of_mem-keys k d t in (v, ground arith)
    ]
  ]

-- A part of the value under a key.
abbrev pub part {ℓ κ} : {V : Type ℓ} {F : Type κ} → (V → F) → String → Dict V → Option F
part f k d = elim (lookup k d) [ none ↦ none | some v ↦ some (f v) ]

pub part_of_lookup {ℓ κ} :
    {V : Type ℓ} {F : Type κ} (f : V → F) (k : String) (d : Dict V) (v : V)
    → lookup k d ≡ some v
    → part f k d ≡ some (f v)
part_of_lookup f k d v e = rw (e, part)

-- A write under a key that is there, of a value with the same part, changes no part.
pub part-insert {ℓ κ} :
    {V : Type ℓ} {F : Type κ} (f : V → F) (k : String) (v w : V) (d : Dict V)
    → lookup k d ≡ some w
    → f v ≡ f w
    → (j : String) → part f j (insert k v d) ≡ part f j d
part-insert f k v w d e same j = elim (str_dec j k) [
  | yes x ↦ rw x (
      part_of_lookup f k (insert k v d) v (lookup-insert_self k v d)
      ∙ ap some same
      ∙ sym (part_of_lookup f k d w e))
  | no n ↦ ap (λ o. elim o [ none ↦ none | some v ↦ some (f v) ]) (lookup-insert_ne j k v d n)
]
