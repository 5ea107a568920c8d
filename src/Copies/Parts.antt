-- ===== src/Copies/Parts.antt =====
-- Copies that are put together of the copies of their parts (operator/api/v1beta1/zz_generated.deepcopy.go).
use oai_k8s.Common.{◌≡◌, refl, ap, sym, ◌∙◌, some, arith}
use oai_k8s.Copies.Memory.{Memory, Reading, Copying, ◌>>=◌, and_then, give, pure}
use oai_k8s.Copies.Separate.{
  Agree, Holds, Copied, IsCopyAt, Agree-self, Holds-grow, Holds-later, Agree-trans, and_then-some,
  and_then-eq-some, >>=-some, scalar-IsCopy,
}

module _ {Block : Type 0} where
  -- Four parts, one after the other.
  module _ {A B C D V₁ V₂ V₃ V₄ : Type 0} (rA : A → Reading Block V₁) (cA : A → Copying Block A)
      (rB : B → Reading Block V₂) (cB : B → Copying Block B) (rC : C → Reading Block V₃)
      (cC : C → Copying Block C) (rD : D → Reading Block V₄) (cD : D → Copying Block D) where
    abbrev pub read_parts : {V : Type 0} → (V₁ → V₂ → V₃ → V₄ → V) → A → B → C → D → Reading Block V
    read_parts make a b c d =
        and_then (rA a)
          λ x. and_then (rB b) λ y. and_then (rC c) λ z. and_then (rD d) λ t. give (make x y z t)

    abbrev pub copy_parts : {R : Type 0} → (A → B → C → D → R) → A → B → C → D → Copying Block R
    copy_parts put a b c d = do a' ← cA a; b' ← cB b; c' ← cC c; d' ← cD d; pure (put a' b' c' d')

    -- What is left to do behind one, two and three parts.
    abbrev read_last : {V : Type 0} → (V₄ → V) → D → Reading Block V
    read_last make d = and_then (rD d) λ t. give (make t)

    abbrev read_two : {V : Type 0} → (V₃ → V₄ → V) → C → D → Reading Block V
    read_two make c d = and_then (rC c) λ z. read_last (make z) d

    abbrev read_three : {V : Type 0} → (V₂ → V₃ → V₄ → V) → B → C → D → Reading Block V
    read_three make b c d = and_then (rB b) λ y. read_two (make y) c d

    read_parts-eq-some :
        {V : Type 0} (make : V₁ → V₂ → V₃ → V₄ → V) (a : A) (b : B) (c : C) (d : D)
        (h : Memory Block) {v : V}
        → read_parts make a b c d h ≡ some v
        → (x : V₁) × (y : V₂) × (z : V₃) × (t : V₄) × (rA a h ≡ some x)
          × (rB b h ≡ some y)
          × (rC c h ≡ some z)
          × (rD d h ≡ some t)
          × (some (make x y z t) ≡ some v)
    read_parts-eq-some make a b c d h e =
        let (x, e₁, f₁) = and_then-eq-some (rA a) (λ x. read_three (make x) b c d) h e in
        let (y, e₂, f₂) = and_then-eq-some (rB b) (λ y. read_two (make x y) c d) h f₁ in
        let (z, e₃, f₃) = and_then-eq-some (rC c) (λ z. read_last (make x y z) d) h f₂ in
        let (t, e₄, f₄) = and_then-eq-some (rD d) (λ t. give (make x y z t)) h f₃ in
        (x, y, z, t, e₁, e₂, e₃, e₄, f₄)

    read_parts-some :
        {V : Type 0} (make : V₁ → V₂ → V₃ → V₄ → V) (a : A) (b : B) (c : C) (d : D)
        (h : Memory Block) (x : V₁) (y : V₂) (z : V₃) (t : V₄)
        → rA a h ≡ some x
        → rB b h ≡ some y
        → rC c h ≡ some z
        → rD d h ≡ some t
        → read_parts make a b c d h ≡ some (make x y z t)
    read_parts-some make a b c d h x y z t e₁ e₂ e₃ e₄ =
        and_then-some (rA a) (λ x. read_three (make x) b c d) h e₁
        ∙ and_then-some (rB b) (λ y. read_two (make x y) c d) h e₂
        ∙ and_then-some (rC c) (λ z. read_last (make x y z) d) h e₃
        ∙ and_then-some (rD d) (λ t. give (make x y z t)) h e₄

    copy_parts-some :
        {R : Type 0} (put : A → B → C → D → R) (a a' : A) (b b' : B) (c c' : C) (d d' : D)
        (h h₁ h₂ h₃ h₄ : Memory Block)
        → cA a h ≡ some (a', h₁)
        → cB b h₁ ≡ some (b', h₂)
        → cC c h₂ ≡ some (c', h₃)
        → cD d h₃ ≡ some (d', h₄)
        → copy_parts put a b c d h ≡ some (put a' b' c' d', h₄)
    copy_parts-some put a a' b b' c c' d d' h h₁ h₂ h₃ h₄ e₁ e₂ e₃ e₄ =
        let last = λ (x : A) (y : B) (z : C). cD d >>= λ t. pure (put x y z t) in
        let two = λ (x : A) (y : B). cC c >>= last x y in
        let three = λ (x : A). cB b >>= two x in
        >>=-some (cA a) three h e₁
        ∙ >>=-some (cB b) (two a') h₁ e₂
        ∙ >>=-some (cC c) (last a' b') h₂ e₃
        ∙ >>=-some (cD d) (λ t. pure (put a' b' c' t)) h₃ e₄

    -- A thing made of four parts is copied part by part, where its value shows the values of the parts.
    pub parts-Copied :
        {R V : Type 0} (put : A → B → C → D → R) (make : V₁ → V₂ → V₃ → V₄ → V)
        (read : R → Reading Block V)
        → ((x x' : V₁) (y y' : V₂) (z z' : V₃) (t t' : V₄)
            → some (make x y z t) ≡ some (make x' y' z' t')
            → (x ≡ x') × (y ≡ y') × (z ≡ z') × (t ≡ t'))
        → ((a : A) (b : B) (c : C) (d : D) (h : Memory Block)
            → read (put a b c d) h ≡ read_parts make a b c d h)
        → (a : A) (b : B) (c : C) (d : D) → IsCopyAt rA cA a
        → IsCopyAt rB cB b
        → IsCopyAt rC cC c
        → IsCopyAt rD cD d
        → (h : Memory Block) (v : V) → Holds 0 h.next h (read_parts make a b c d) v
        → Copied read h v (copy_parts put a b c d h)
    parts-Copied put make read inj shown a b c d iA iB iC iD h v holds =
        let (x, y, z, t, e₁, e₂, e₃, e₄, m) =
          read_parts-eq-some make a b c d h (holds h (Agree-self 0 h.next h)) in
        let parts = λ (h' : Memory Block) (g : Agree 0 h.next h h').
          let (x', y', z', t', f₁, f₂, f₃, f₄, m') =
            read_parts-eq-some make a b c d h' (holds h' g) in
          let (p, q, r, s) = inj x' x y' y z' z t' t (m' ∙ sym m) in
          let whole : (rA a h' ≡ some x)
              × (rB b h' ≡ some y)
              × (rC c h' ≡ some z)
              × (rD d h' ≡ some t) =
            (f₁ ∙ ap some p, f₂ ∙ ap some q, f₃ ∙ ap some r, f₄ ∙ ap some s) in
          whole in
        let one = iA h x (λ h' g. (parts h' g).0) in
        let h₁ = one.after in
        let two =
          iB h₁ y
            (Holds-grow (rB b) y h.next h₁.next h h₁ (λ h' g. (parts h' g).1) one.grows one.kept) in
        let h₂ = two.after in
        let kept₂ = Agree-trans h.next h₁.next h h₁ h₂ one.grows one.kept two.kept in
        let three = iC h₂ z (
          Holds-grow (rC c) z h.next h₂.next h h₂ (λ h' g. (parts h' g).2)
            (omega (arith, one.grows, two.grows)) kept₂) in
        let h₃ = three.after in
        let kept₃ =
          Agree-trans h.next h₂.next h h₂ h₃ (omega (arith, one.grows, two.grows)) kept₂
            three.kept in
        let four = iD h₃ t (
          Holds-grow (rD d) t h.next h₃.next h h₃ (λ h' g. (parts h' g).3)
            (omega (arith, one.grows, two.grows, three.grows)) kept₃) in
        let h₄ = four.after in
        let kept₄ =
          Agree-trans h.next h₃.next h h₃ h₄ (omega (arith, one.grows, two.grows, three.grows))
            kept₃ four.kept in
        let from₂ = Agree-trans h₂.next h₃.next h₂ h₃ h₄ three.grows three.kept four.kept in
        let from₁ = Agree-trans h₁.next h₂.next h₁ h₂ h₄ two.grows two.kept from₂ in
        record {
          out = put one.out two.out three.out four.out;
          after = h₄;
          result =
              copy_parts-some put a one.out b two.out c three.out d four.out h h₁ h₂ h₃ h₄
                one.result two.result three.result four.result;
          grows = omega (arith, one.grows, two.grows, three.grows, four.grows);
          kept = kept₄;
          own = λ h' g.
              shown one.out two.out three.out four.out h'
              ∙ read_parts-some make one.out two.out three.out four.out h' x y z t
                  (Holds-later (rA one.out) x h.next h.next h₁.next h₄.next h₁ h₄ one.own
                    (omega arith) (omega (arith, two.grows, three.grows, four.grows)) from₁ h' g)
                  (Holds-later (rB two.out) y h.next h₁.next h₂.next h₄.next h₂ h₄ two.own one.grows
                    (omega (arith, three.grows, four.grows)) from₂ h' g)
                  (Holds-later (rC three.out) z h.next h₂.next h₃.next h₄.next h₃ h₄ three.own
                    (omega (arith, one.grows, two.grows)) four.grows four.kept h' g)
                  (Holds-later (rD four.out) t h.next h₃.next h₄.next h₄.next h₄ h₄ four.own
                    (omega (arith, one.grows, two.grows, three.grows)) (omega arith)
                    (Agree-self 0 h₄.next h₄) h' g)
              ∙ m;
        }

  -- Two parts.
  module _ {A B V₁ V₂ : Type 0} (rA : A → Reading Block V₁) (cA : A → Copying Block A)
      (rB : B → Reading Block V₂) (cB : B → Copying Block B) where
    abbrev pub read_pair : {V : Type 0} → (V₁ → V₂ → V) → A → B → Reading Block V
    read_pair make a b = and_then (rA a) λ x. and_then (rB b) λ y. give (make x y)

    abbrev pub copy_pair : {R : Type 0} → (A → B → R) → A → B → Copying Block R
    copy_pair put a b = do a' ← cA a; b' ← cB b; pure (put a' b')

    pub pair-Copied :
        {R V : Type 0} (put : A → B → R) (make : V₁ → V₂ → V) (read : R → Reading Block V)
        → ((x x' : V₁) (y y' : V₂) → some (make x y) ≡ some (make x' y') → (x ≡ x') × (y ≡ y'))
        → ((a : A) (b : B) (h : Memory Block) → read (put a b) h ≡ read_pair make a b h)
        → (a : A) (b : B) → IsCopyAt rA cA a
        → IsCopyAt rB cB b
        → (h : Memory Block) (v : V) → Holds 0 h.next h (read_pair make a b) v
        → Copied read h v (copy_pair put a b h)
    pair-Copied put make read inj shown a b iA iB =
        let one : Unit {0} → Reading Block (Unit {0}) = λ u. give u in
        let same : Unit {0} → Copying Block (Unit {0}) = λ u. pure u in
        parts-Copied rA cA rB cB one same one same (λ a b _ _. put a b) (λ x y _ _. make x y) read
          (λ x x' y y' z z' t t' e. let (p, q) = inj x x' y y' e in (p, q, refl, refl))
          (λ a b _ _. shown a b) a b tt tt iA iB (scalar-IsCopy tt) (scalar-IsCopy tt)

  -- One part.
  module _ {A V₁ : Type 0} (rA : A → Reading Block V₁) (cA : A → Copying Block A) where
    pub part-Copied :
        {R V : Type 0} (put : A → R) (make : V₁ → V) (read : R → Reading Block V)
        → ((x x' : V₁) → some (make x) ≡ some (make x') → x ≡ x')
        → ((a : A) (h : Memory Block) → read (put a) h ≡ and_then (rA a) (λ x. give (make x)) h)
        → (a : A) → IsCopyAt rA cA a
        → (h : Memory Block) (v : V) → Holds 0 h.next h (and_then (rA a) (λ x. give (make x))) v
        → Copied read h v ((do a' ← cA a; pure (put a')) h)
    part-Copied put make read inj shown a iA =
        let one : Unit {0} → Reading Block (Unit {0}) = λ u. give u in
        let same : Unit {0} → Copying Block (Unit {0}) = λ u. pure u in
        pair-Copied rA cA one same (λ a _. put a) (λ x _. make x) read
          (λ x x' y y' e. (inj x x' e, refl)) (λ a _. shown a) a tt iA (scalar-IsCopy tt)
