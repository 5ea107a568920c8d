-- ===== src/Copies/Separate.antt =====
-- What makes a copy deep: it stands for the same value, in memory that nothing else uses (the copies of
-- operator/api/v1beta1/zz_generated.deepcopy.go).
use oai_k8s.Common.{ℕ, ◌≤◌, ◌<◌, ◌≡◌, refl, ap, sym, ◌∙◌, Option, none, some, arith}
use oai_k8s.Copies.Memory.{Memory, Reading, Copying, ◌>>=◌, and_then, give, pure}

module _ {Block : Type 0} where
  -- Two memories hold the same from one address on, and before another one.
  abbrev pub Agree : ℕ → ℕ → Memory Block → Memory Block → Type 0
  Agree lo hi h h' = (p : ℕ) → lo ≤ p → p < hi → h'.cell p ≡ h.cell p

  -- The reading gives the value, whatever else the memory holds.
  abbrev pub Holds : {V : Type 0} → ℕ → ℕ → Memory Block → Reading Block V → V → Type 0
  Holds lo hi h m v = (h' : Memory Block) → Agree lo hi h h' → m h' ≡ some v

  -- The copying ends with a copy of the value in memory of its own, and what was there before stays.
  pub record Copied {A V : Type 0} (read : A → Reading Block V) (h : Memory Block) (v : V)
      (r : Option (A × Memory Block)) : Type 0 where
    pub out : A
    pub after : Memory Block
    pub result : r ≡ some (out, after)
    pub grows : h.next ≤ after.next
    pub kept : Agree 0 h.next h after
    pub own : Holds h.next after.next after (read out) v

  -- In every memory in which it can be read, and is in use, the thing is copied.
  abbrev pub IsCopyAt : {A V : Type 0} → (A → Reading Block V) → (A → Copying Block A) → A → Type 0
  IsCopyAt {A} {V} read copy a =
      (h : Memory Block) (v : V) → Holds 0 h.next h (read a) v → Copied read h v (copy a h)

  abbrev pub IsCopy : {A V : Type 0} → (A → Reading Block V) → (A → Copying Block A) → Type 0
  IsCopy {A} read copy = (a : A) → IsCopyAt read copy a

  pub Agree-self : (lo hi : ℕ) (h : Memory Block) → Agree lo hi h h
  Agree-self lo hi h p l k = refl

  -- What is read below an address is read also when memory was added above it.
  pub Holds-grow :
      {V : Type 0} (m : Reading Block V) (v : V) (n n₁ : ℕ) (h h₁ : Memory Block)
      → Holds 0 n h m v
      → n ≤ n₁
      → Agree 0 n h h₁
      → Holds 0 n₁ h₁ m v
  Holds-grow m v n n₁ h h₁ holds l a h' b = holds h' (λ p x y. b p x (omega arith) ∙ a p x y)

  pub Holds-later :
      {V : Type 0} (m : Reading Block V) (v : V) (lo lo₁ hi₁ hi : ℕ) (h₁ h : Memory Block)
      → Holds lo₁ hi₁ h₁ m v
      → lo ≤ lo₁
      → hi₁ ≤ hi
      → Agree 0 hi₁ h₁ h
      → Holds lo hi h m v
  Holds-later m v lo lo₁ hi₁ hi h₁ h holds l k a h' b =
      holds h' (λ p x y. b p (omega arith) (omega arith) ∙ a p (omega arith) y)

  pub Agree-trans :
      (n n₁ : ℕ) (h h₁ h₂ : Memory Block)
      → n ≤ n₁
      → Agree 0 n h h₁
      → Agree 0 n₁ h₁ h₂
      → Agree 0 n h h₂
  Agree-trans n n₁ h h₁ h₂ l a b p x y = b p x (omega arith) ∙ a p x y

  pub and_then-some :
      {V W : Type 0} (m : Reading Block V) (f : V → Reading Block W) (h : Memory Block) {v : V}
      → m h ≡ some v
      → and_then m f h ≡ f v h
  and_then-some m f h e = ap (λ o. and_then (λ _. o) f h) e

  pub and_then-eq-some :
      {V W : Type 0} (m : Reading Block V) (f : V → Reading Block W) (h : Memory Block) {w : W}
      → and_then m f h ≡ some w
      → (v : V) × (m h ≡ some v) × (f v h ≡ some w)
  and_then-eq-some {V} {W} m f h {w} = go (m h)
    where
      go :
          (o : Option V)
          → and_then (λ _. o) f h ≡ some w
          → (v : V) × (o ≡ some v) × (f v h ≡ some w)
      go none e = cc
      go (some v) e = (v, refl, e)

  pub >>=-some :
      {A B : Type 0} (m : Copying Block A) (f : A → Copying Block B) (h : Memory Block) {a : A}
      {h' : Memory Block}
      → m h ≡ some (a, h')
      → (m >>= f) h ≡ f a h'
  >>=-some m f h e = ap (λ o. (◌>>=◌ (λ _. o) f) h) e

  -- What holds no address is its own copy.
  pub scalar-IsCopy : {A : Type 0} → IsCopy (λ (a : A). give a) (λ a. pure a)
  scalar-IsCopy a h v holds = record {
    out = a;
    after = h;
    result = refl;
    grows = omega arith;
    kept = λ p x y. refl;
    own = λ h' b. holds h (λ p x y. refl);
  }

  -- What holds no address whatever it is made of.
  pub constant-Copied :
      {A V : Type 0} (read : A → Reading Block V) (a : A) (h : Memory Block) (v w : V)
      → ((h' : Memory Block) → read a h' ≡ some w)
      → Holds 0 h.next h (read a) v
      → Copied read h v (pure a h)
  constant-Copied read a h v w fixed holds = record {
    out = a;
    after = h;
    result = refl;
    grows = omega arith;
    kept = λ p x y. refl;
    own = λ h' g. fixed h' ∙ sym (fixed h) ∙ holds h (Agree-self 0 h.next h);
  }
