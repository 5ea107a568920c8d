-- ===== src/Extern/Sample.antt =====
-- A concrete platform: integers for float32 (in a fixed unit) and for quantities, lists for queues.
use oai_k8s.Common.{◌≡◌, refl, true, false, Option, none, some, List, [], ◌∷◌, ◌++◌, not, arith}
use oai_k8s.Common.Int.{ℤ, pos, ltb_ℤ, ◌-ℤ◌, ◌+ℤ◌}
use oai_k8s.Extern.{Platform, Laws, HasNext, is_nil}

abbrev next : (A : Type 0) → List A → Option (A × List A)
next A [] = none
next A (x ∷ xs) = some (x, xs)

abbrev pub sample_platform : Platform
sample_platform = record {
  Float = ℤ;
  zero_float = pos 0;
  add_float = ◌+ℤ◌;
  sub_float = ◌-ℤ◌;
  lt_float = ltb_ℤ;
  ge_float = λ a b. not (ltb_ℤ a b);
  Quantity = ℤ;
  value = λ q. q;
  sub_quantity = ◌-ℤ◌;
  Queue = List;
  new_queue = λ A n. [];
  put = λ A q xs. q ++ xs;
  get = next;
  is_empty = λ A q. is_nil q;
}

sub_of_ge : (a b : ℤ) → not (ltb_ℤ a b) ≡ true → ltb_ℤ (a -ℤ b) (pos 0) ≡ false
unfolding ◌-ℤ◌
sub_of_ge a b h = ground arith

sub_of_lt : (a b : ℤ) → ltb_ℤ b a ≡ true → ltb_ℤ (a -ℤ b) (pos 0) ≡ false
unfolding ◌-ℤ◌
sub_of_lt a b h = ground arith

next-HasNext : (A : Type 0) (q : List A) → HasNext A (List A) (λ xs. xs) q (next A q)
next-HasNext A [] = refl
next-HasNext A (x ∷ xs) = (xs, refl, refl)

pub sample-Laws : Laws sample_platform
sample-Laws = record {
  sub_of_ge = sub_of_ge;
  sub_of_value_lt = sub_of_lt;
  items = λ A q. q;
  items-new = λ A n. refl;
  items-put = λ A q xs. refl;
  items-get = next-HasNext;
  items-is_empty = λ A q. refl;
}
