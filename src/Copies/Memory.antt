-- ===== src/Copies/Memory.antt =====
-- Memory as the copies see it: what an address holds, loads and allocations, and copying through a pointer, a slice or a map.
use oai_k8s.Common.{ℕ, zero, suc, ◌+◌, ◌≡◌, Option, none, some, List, [], ◌∷◌, String, ite, length}
use oai_k8s.Common.Dict.{Dict}
use native.Mathlib.Decide.{ℕ_discrete}

abbrev pub Address : Type 0
Address = ℕ

-- The addresses below `next` are in use.
pub record Memory (Block : Type 0) : Type 0 where
  pub next : Address
  pub cell : Address → Option Block

-- How the values of a type are kept in a block.
pub record Cell (Block A : Type 0) : Type 0 where
  pub inject : A → Block
  pub project : Block → Option A
  pub project_inject : (a : A) → project (inject a) ≡ some a

-- A slice: a part of an array. A nil slice is `none`.
pub record Slice : Type 0 where
  pub array : Address
  pub start : ℕ
  pub size : ℕ

module _ {ℓ} {A : Type ℓ} where
  abbrev pub take : ℕ → List A → List A
  take zero xs = []
  take (suc n) [] = []
  take (suc n) (x ∷ xs) = x ∷ take n xs

  abbrev pub drop : ℕ → List A → List A
  drop zero xs = xs
  drop (suc n) [] = []
  drop (suc n) (x ∷ xs) = drop n xs

-- `none` is a pointer to nothing, which Go does not have.
abbrev pub Reading : Type 0 → Type 0 → Type 0
Reading Block V = Memory Block → Option V

abbrev pub Copying : Type 0 → Type 0 → Type 0
Copying Block A = Memory Block → Option (A × Memory Block)

abbrev pub pure : {Block A : Type 0} → A → Copying Block A
pure a h = some (a, h)

infixl 5 ◌>>=◌
abbrev pub ◌>>=◌ : {Block A B : Type 0} → Copying Block A → (A → Copying Block B) → Copying Block B
◌>>=◌ m f h = elim (m h) [ none ↦ none | some (a, h') ↦ f a h' ]

abbrev pub and_then :
    {Block V W : Type 0} → Reading Block V → (V → Reading Block W) → Reading Block W
and_then m f h = elim (m h) [ none ↦ none | some v ↦ f v h ]

abbrev pub give : {Block V : Type 0} → V → Reading Block V
give v h = some v

-- The elements of a slice.
abbrev pub part_of : {A : Type 0} → Slice → List A → List A
part_of s xs = take s.size (drop s.start xs)

module _ {Block : Type 0} where
  unfoldable pub write : Memory Block → Address → Option Block → Memory Block
  write h p b = record h { cell = λ q. ite (ℕ_discrete q p) b (h.cell q) }

  unfoldable pub load : {A : Type 0} → Cell Block A → Address → Reading Block A
  load c p h = elim (h.cell p) [ none ↦ none | some b ↦ c.project b ]

  -- A new block with a value. It stands for `new` or `make` and the writes that fill it: nothing looks at it in between.
  unfoldable pub allocate : {A : Type 0} → Cell Block A → A → Copying Block Address
  unfolding write
  allocate c a h = some (h.next, record (write h h.next (some (c.inject a))) { next = h.next + 1 })

  -- What the elements of a list stand for.
  unfoldable pub read_list :
      {A V : Type 0} → (A → Reading Block V) → List A → Reading Block (List V)
  read_list r [] = give []
  read_list r (x ∷ xs) = and_then (r x) (λ v. and_then (read_list r xs) (λ vs. give (v ∷ vs)))

  -- The loop of a copy over the elements.
  unfoldable pub copy_list : {A : Type 0} → (A → Copying Block A) → List A → Copying Block (List A)
  copy_list c [] = pure []
  copy_list c (x ∷ xs) = do y ← c x; ys ← copy_list c xs; pure (y ∷ ys)

  unfoldable pub read_pointer :
      {A V : Type 0} → Cell Block A → (A → Reading Block V) → Address → Reading Block V
  unfolding load
  read_pointer cell r p = and_then (load cell p) r

  -- `*out = new(T)` and a copy into `*out`.
  unfoldable pub copy_pointer :
      {A : Type 0} → Cell Block A → (A → Copying Block A) → Address → Copying Block Address
  unfolding load allocate
  copy_pointer cell c p h = elim (load cell p h) [
    | none ↦ none
    | some a ↦ (do b ← c a; allocate cell b) h
  ]

  unfoldable pub read_slice :
      {A V : Type 0} → Cell Block (List A) → (A → Reading Block V) → Slice → Reading Block (List V)
  unfolding load read_list
  read_slice cell r s = and_then (load cell s.array) (λ xs. read_list r (part_of s xs))

  -- `*out = make([]T, len(*in))` and a copy of each element.
  unfoldable pub copy_slice :
      {A : Type 0} → Cell Block (List A) → (A → Copying Block A) → Slice → Copying Block Slice
  unfolding load copy_list allocate
  copy_slice cell c s h = elim (load cell s.array h) [
    | none ↦ none
    | some xs ↦
        (do
          ys ← copy_list c (part_of s xs)
          p ← allocate cell ys
          pure (record { array = p; start = 0; size = length ys }))
          h
  ]

  unfoldable pub read_entry :
      {A V : Type 0} → (A → Reading Block V) → String × A → Reading Block (String × V)
  read_entry r (key, a) = and_then (r a) (λ v. give (key, v))

  unfoldable pub copy_entry :
      {A : Type 0} → (A → Copying Block A) → String × A → Copying Block (String × A)
  copy_entry c (key, a) = do b ← c a; pure (key, b)

  unfoldable pub read_map :
      {A V : Type 0}
      → Cell Block (Dict A)
      → (A → Reading Block V)
      → Address
      → Reading Block (Dict V)
  unfolding read_pointer read_list read_entry
  read_map cell r = read_pointer cell (read_list (read_entry r))

  -- `*out = make(map[string]T, len(*in))` and a write for each entry. The keys of a map differ, so that the writes
  -- give the entries in the order in which `range` meets them.
  unfoldable pub copy_map :
      {A : Type 0} → Cell Block (Dict A) → (A → Copying Block A) → Address → Copying Block Address
  unfolding copy_pointer copy_list copy_entry
  copy_map cell c = copy_pointer cell (copy_list (copy_entry c))

  -- What may be nil.
  unfoldable pub read_nil :
      {A V : Type 0} → (A → Reading Block V) → Option A → Reading Block (Option V)
  read_nil r none = give none
  read_nil r (some a) = and_then (r a) (λ v. give (some v))

  -- `if in.X != nil { … }`
  unfoldable pub copy_nil :
      {A : Type 0} → (A → Copying Block A) → Option A → Copying Block (Option A)
  copy_nil c none = pure none
  copy_nil c (some a) = do b ← c a; pure (some b)
