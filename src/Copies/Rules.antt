-- ===== src/Copies/Rules.antt =====
-- Copies through a pointer, a slice or a map (operator/api/v1beta1/zz_generated.deepcopy.go) share nothing with what they copy.
use oai_k8s.Common.{
  ℕ, ◌+◌, ◌<◌, ◌≡◌, ◌≢◌, refl, ap, sym, ◌∙◌, subst, Option, none, some, List, [], ◌∷◌, if_pos,
  if_neg, length, arith,
}
use oai_k8s.Common.Dict.{Dict}
use native.Mathlib.Decide.{ℕ_discrete, dec_lt}
use oai_k8s.Copies.Memory.{
  Memory, Address, Cell, Slice, Reading, Copying, ◌>>=◌, and_then, pure, write, load, allocate,
  take, part_of, read_list, copy_list, read_pointer, copy_pointer, read_slice, copy_slice,
  read_entry, copy_entry, read_map, copy_map, read_nil, copy_nil,
}
use oai_k8s.Copies.Separate.{
  Agree, Holds, Copied, IsCopy, Agree-self, and_then-eq-some, and_then-some, >>=-some,
  constant-Copied,
}
use oai_k8s.Copies.Parts.{pair-Copied, part-Copied}

take-length {ℓ} : {A : Type ℓ} (xs : List A) → take (length xs) xs ≡ xs
take-length [] = refl
take-length (x ∷ xs) = ap (λ ys. x ∷ ys) (take-length xs)

module _ {Block : Type 0} where
  write_self : (h : Memory Block) (p : Address) (b : Option Block) → (write h p b).cell p ≡ b
  unfolding write
  write_self h p b = if_pos (ℕ_discrete p p) refl b (h.cell p)

  write_ne :
      (h : Memory Block) (p q : Address) (b : Option Block)
      → q ≢ p
      → (write h p b).cell q ≡ h.cell q
  unfolding write
  write_ne h p q b n = if_neg (ℕ_discrete q p) n b (h.cell q)

  load-none :
      {C V : Type 0} (cell : Cell Block C) (p : Address) (k : C → Reading Block V)
      (h : Memory Block)
      → h.cell p ≡ none
      → and_then (load cell p) k h ≡ none
  unfolding load
  load-none cell p k h e =
      ap (λ o. and_then (λ _. elim o [ none ↦ none | some b ↦ cell.project b ]) k h) e

  load-same :
      {C : Type 0} (cell : Cell Block C) (p : Address) (h h' : Memory Block)
      → h'.cell p ≡ h.cell p
      → load cell p h' ≡ load cell p h
  unfolding load
  load-same cell p h h' e = ap (λ o. elim o [ none ↦ none | some b ↦ cell.project b ]) e

  load-some :
      {C : Type 0} (cell : Cell Block C) (p : Address) (c : C) (h : Memory Block)
      → h.cell p ≡ some (cell.inject c)
      → load cell p h ≡ some c
  unfolding load
  load-some cell p c h e =
      ap (λ o. elim o [ none ↦ none | some b ↦ cell.project b ]) e ∙ cell.project_inject c

  -- What is read through a pointer to a block.
  pub and_then-load :
      {C V : Type 0} (cell : Cell Block C) (p : Address) (c : C) (k : C → Reading Block V)
      (h : Memory Block) {o : Option V}
      → h.cell p ≡ some (cell.inject c)
      → k c h ≡ o
      → and_then (load cell p) k h ≡ o
  and_then-load cell p c k h e f = and_then-some (load cell p) k h (load-some cell p c h e) ∙ f

  -- A reading through a pointer that only looks below `n` has its pointer there, and reads what it points to there.
  record Pointed {C V : Type 0} (cell : Cell Block C) (p : Address) (k : C → Reading Block V)
      (n : ℕ) (h : Memory Block) (v : V) : Type 0 where
    content : C
    loaded : load cell p h ≡ some content
    inside : Holds 0 n h (k content) v

  Holds-Pointed :
      {C V : Type 0} (cell : Cell Block C) (p : Address) (k : C → Reading Block V) (n : ℕ)
      (h : Memory Block) (v : V)
      → Holds 0 n h (and_then (load cell p) k) v
      → Pointed cell p k n h v
  Holds-Pointed cell p k n h v holds = elim (dec_lt p n) [
    | no out ↦
        let h' = write h p none in
        let apart : Agree 0 n h h' =
          λ q x y. write_ne h p q none (λ e. out (subst (λ z. z < n) e y)) in
        let gone = load-none cell p k h' (write_self h p none) in
        let there = holds h' apart in let bad : none ≡ some v = sym gone ∙ there in cc
    | yes below ↦
        let (c, e, f) = and_then-eq-some (load cell p) k h (holds h (Agree-self 0 n h)) in
        record {
          content = c;
          loaded = e;
          inside = λ h' g.
              sym (
                and_then-some (load cell p) k h'
                  (load-same cell p h h' (g p (omega arith) below) ∙ e))
              ∙ holds h' g;
        }
  ]

  -- A copy that is put into a new block, and what points to it.
  allocate-Copied :
      {A R V : Type 0} (cell : Cell Block A) (read : A → Reading Block V)
      (read' : R → Reading Block V) (put : A → Address → R) (m : Copying Block A) (h : Memory Block)
      (v : V)
      → ((a : A) (p : Address) (h' : Memory Block)
          → load cell p h' ≡ some a
          → read' (put a p) h' ≡ read a h')
      → Copied read h v (m h)
      → Copied read' h v ((do a ← m; p ← allocate cell a; pure (put a p)) h)
  unfolding allocate
  allocate-Copied cell read read' put m h v shown made =
      let a = made.out in
      let h₁ = made.after in
      let p = h₁.next in
      let block = cell.inject a in
      let h₂ : Memory _ = record (write h₁ p (some block)) { next = p + 1 } in
      let below : Agree 0 p h₁ h₂ =
        λ q x y. write_ne h₁ p q (some block) (λ e. absurd (omega (arith, e, y))) in
      record {
        out = put a p;
        after = h₂;
        result = >>=-some m (λ a. allocate cell a >>= λ p. pure (put a p)) h made.result;
        grows = omega (arith, made.grows);
        kept = λ q x y. below q x (omega (arith, made.grows)) ∙ made.kept q x y;
        own = λ h' g.
            shown a p h'
              (load-some cell p a h' (g p made.grows (omega arith) ∙ write_self h₁ p (some block)))
            ∙ made.own h' (λ q x y. g q x (omega arith) ∙ below q (omega arith) y);
      }

  pub pointer-IsCopy :
      {A V : Type 0} (cell : Cell Block A) (read : A → Reading Block V) (copy : A → Copying Block A)
      → IsCopy read copy
      → IsCopy (read_pointer cell read) (copy_pointer cell copy)
  unfolding read_pointer copy_pointer allocate
  pointer-IsCopy cell read copy i p h v holds =
      let at = Holds-Pointed cell p read h.next h v holds in
      let made =
        allocate-Copied cell read (λ q. and_then (load cell q) read) (λ a q. q) (copy at.content) h
          v (λ a q h' e. and_then-some (load cell q) read h' e) (i at.content h v at.inside) in
      subst (Copied (read_pointer cell read) h v)
        (sym (
          ap (λ o. elim o [ none ↦ none | some a ↦ (do b ← copy a; allocate cell b) h ]) at.loaded))
        made

  pub nil-IsCopy :
      {A V : Type 0} (read : A → Reading Block V) (copy : A → Copying Block A)
      → IsCopy read copy
      → IsCopy (read_nil read) (copy_nil copy)
  unfolding read_nil copy_nil
  nil-IsCopy read copy i none h v holds =
      constant-Copied (read_nil read) none h v none (λ _. refl) holds
  nil-IsCopy read copy i (some a) h v holds =
      part-Copied read copy (λ b. some b) (λ x. some x) (read_nil read) (λ x x' e. cc)
        (λ b h'. refl) a (i a) h v holds

  pub list-IsCopy :
      {A V : Type 0} (read : A → Reading Block V) (copy : A → Copying Block A)
      → IsCopy read copy
      → IsCopy (read_list read) (copy_list copy)
  unfolding read_list copy_list
  list-IsCopy read copy i [] h v holds =
      constant-Copied (read_list read) [] h v [] (λ _. refl) holds
  list-IsCopy read copy i (x ∷ xs) h v holds =
      pair-Copied read copy (read_list read) (copy_list copy) (λ y ys. y ∷ ys) (λ u us. u ∷ us)
        (read_list read) (λ u u' us us' e. (cc, cc)) (λ y ys h'. refl) x xs (i x)
        (list-IsCopy read copy i xs) h v holds

  pub slice-IsCopy :
      {A V : Type 0} (cell : Cell Block (List A)) (read : A → Reading Block V)
      (copy : A → Copying Block A)
      → IsCopy read copy
      → IsCopy (read_slice cell read) (copy_slice cell copy)
  unfolding read_slice copy_slice
  slice-IsCopy {A} {V} cell read copy i s h v holds =
      let at = Holds-Pointed cell s.array (λ xs. read_list read (part_of s xs)) h.next h v holds in
      let here = λ (xs : List A) (q : Address).
        let whole : Slice = record { array = q; start = 0; size = length xs } in whole in
      let made =
        allocate-Copied cell (read_list read) (read_slice cell read) here
          (copy_list copy (part_of s at.content)) h v
          (λ a q h' e.
            and_then-some (load cell q) (λ xs. read_list read (part_of (here a q) xs)) h' e
            ∙ ap (λ xs. read_list read xs h') (take-length a))
          (list-IsCopy read copy i (part_of s at.content) h v at.inside) in
      subst (Copied (read_slice cell read) h v)
        (sym (
          ap
            (λ o. elim o [
              | none ↦ none
              | some xs ↦
                  (do ys ← copy_list copy (part_of s xs); p ← allocate cell ys; pure (here ys p)) h
            ])
            at.loaded))
        made

  entry-IsCopy :
      {A V : Type 0} (read : A → Reading Block V) (copy : A → Copying Block A)
      → IsCopy read copy
      → IsCopy (read_entry read) (copy_entry copy)
  unfolding read_entry copy_entry
  entry-IsCopy read copy i (key, a) h v holds =
      part-Copied read copy (λ b. (key, b)) (λ x. (key, x)) (read_entry read) (λ x x' e. cc)
        (λ b h'. refl) a (i a) h v holds

  pub map-IsCopy :
      {A V : Type 0} (cell : Cell Block (Dict A)) (read : A → Reading Block V)
      (copy : A → Copying Block A)
      → IsCopy read copy
      → IsCopy (read_map cell read) (copy_map cell copy)
  unfolding read_map copy_map
  map-IsCopy cell read copy i =
      pointer-IsCopy cell (read_list (read_entry read)) (copy_list (copy_entry copy))
        (list-IsCopy (read_entry read) (copy_entry copy) (entry-IsCopy read copy i))
