-- ===== src/Replacer/Waits.antt =====
-- The loops of the replacer (replacer/cmd/main.go) against the loads that they make.
use oai_k8s.Common.{
  String, ℕ, zero, suc, ◌≤◌, ◌≡◌, ◌≢◌, str_dec, refl, ap, ◌∙◌, subst, Bool, true, false, arith,
}
use oai_k8s.Common.{
  Result, ok, out_of_fuel, >>=-eq-ok, >>=-ok, with_context, with_context-eq-ok, wrapped, ◌↔◌,
  Bool-cases, inl, inr,
}
use oai_k8s.SplitController.Defs.{SplitPiece, cu, du, ru, piece_text}
use oai_k8s.Replacer.{
  Values, Files, load_file, load_until, cu_waits, du_waits, ru_waits, get_content, get_cu_content,
  get_du_content, get_ru_content,
}

-- The values have what the replacer for the piece puts into its template.
abbrev pub Complete : SplitPiece → Values → Type 0
Complete cu v = (v.local_address ≢ "") × (v.upf_address ≢ "") × (v.south_address ≢ "")
Complete du v = (v.local_address ≢ "") × (v.north_address ≢ "") × (v.south_address ≢ "")
Complete ru v = (v.local_address ≢ "") × (v.north_address ≢ "")

module _ {World : Type 0} (files : Files World) (Q : Values → Type 0) where
  -- `n` loads of the file, each of which succeeds on values that lack something.
  pub data Loads : ℕ → Values → World → Values → World → Type 0 where
    none_left : {v : Values} {w : World} → Loads 0 v w v w
    one_more :
        {n : ℕ} {v v₁ v' : Values} {w w₁ w' : World}
        → ¬ Q v
        → load_file files v w ≡ (ok v₁, w₁)
        → Loads n v₁ w₁ v' w'
        → Loads (suc n) v w v' w'

module _ {World : Type 0} (files : Files World) (Q : Values → Type 0) (waits : Values → Bool)
    (context : String) (stops : (v : Values) → waits v ≡ false → Q v)
    (lacks : (v : Values) → waits v ≡ true → ¬ Q v) where
  waits-lacks : (v : Values) → ¬ Q v → waits v ≡ true
  waits-lacks v n = elim (Bool-cases (waits v)) [ inl t ↦ t | inr f ↦ absurd (n (stops v f)) ]

  waits-stops : (v : Values) → Q v → waits v ≡ false
  waits-stops v q = elim (Bool-cases (waits v)) [ inl t ↦ absurd (lacks v t q) | inr f ↦ f ]

  stopped :
      (fuel : ℕ) (v v' : Values) (w w' : World)
      → waits v ≡ false
      → ◌≡◌ {A = Result Values × World} (ok v, w) (ok v', w')
      → (n : ℕ) × (n ≤ fuel) × Loads files Q n v w v' w' × Q v'
  stopped fuel v v' w w' f h =
      let e : ok v ≡ ok v' = ap (λ x. x.0) h in
      let same : v ≡ v' = cc in
      (
        0,
        omega arith,
        subst (λ x. Loads files Q 0 v w x w') same
            (subst (λ x. Loads files Q 0 v w v x) (ap (λ x. x.1) h) none_left),
        subst Q same (stops v f),
      )

  load_until-Loads :
      (fuel : ℕ) (v v' : Values) (w w' : World)
      → load_until files waits context fuel v w ≡ (ok v', w')
      → (n : ℕ) × (n ≤ fuel) × Loads files Q n v w v' w' × Q v'
  unfolding load_until
  load_until-Loads zero v v' w w' h = elim (Bool-cases (waits v)) [
    | inl t ↦
        let bad : ◌≡◌ {A = Result Values} out_of_fuel (ok v') = ap (λ x. x.0) (rw t at h) in cc
    | inr f ↦ stopped zero v v' w w' f (rw f at h)
  ]
  load_until-Loads (suc fuel) v v' w w' h = elim (Bool-cases (waits v)) [
    | inl t ↦
        let (v₁, w₁, e, h') =
          >>=-eq-ok (with_context context (load_file files v)) (load_until files waits context fuel)
            w (rw t at h) in
        let (n, b, l, f) = load_until-Loads fuel v₁ v' w₁ w' h' in
        (
          suc n,
          omega (arith, b),
          one_more (lacks v t) (with_context-eq-ok context (load_file files v) w e) l,
          f,
        )
    | inr f ↦ stopped (suc fuel) v v' w w' f (rw f at h)
  ]

  load_until_of-Loads :
      (fuel : ℕ) {n : ℕ} {v v' : Values} {w w' : World}
      → Loads files Q n v w v' w'
      → Q v'
      → n ≤ fuel
      → load_until files waits context fuel v w ≡ (ok v', w')
  unfolding load_until
  load_until_of-Loads zero {v = v} none_left q b = rw (waits-stops v q) refl
  load_until_of-Loads (suc fuel) {v = v} none_left q b = rw (waits-stops v q) refl
  load_until_of-Loads zero (one_more n e l) q b = absurd (omega arith)
  load_until_of-Loads (suc fuel) (one_more {v = v} {w = w} n e l) q b = rw (waits-lacks v n) (
      >>=-ok (with_context context (load_file files v)) (load_until files waits context fuel) w
        (ap (λ p. (wrapped context p.0, p.1)) e)
      ∙ load_until_of-Loads fuel l q (omega (arith, b)))

  load_until_iff :
      (fuel : ℕ) (v v' : Values) (w w' : World)
      → (load_until files waits context fuel v w ≡ (ok v', w'))
        ↔ ((n : ℕ) × (n ≤ fuel) × Loads files Q n v w v' w' × Q v')
  load_until_iff fuel v v' w w' =
      (load_until-Loads fuel v v' w w', λ (n, b, l, q). load_until_of-Loads fuel l q b)

cu_stops : (v : Values) → cu_waits v ≡ false → Complete cu v
cu_stops v h = (λ e. ground (arith, h, e), λ e. ground (arith, h, e), λ e. ground (arith, h, e))

cu_lacks : (v : Values) → cu_waits v ≡ true → ¬ Complete cu v
cu_lacks v h (a, b, c) = ground (arith, h, a, b, c)

du_stops : (v : Values) → du_waits v ≡ false → Complete du v
du_stops v h = (λ e. ground (arith, h, e), λ e. ground (arith, h, e), λ e. ground (arith, h, e))

du_lacks : (v : Values) → du_waits v ≡ true → ¬ Complete du v
du_lacks v h (a, b, c) = ground (arith, h, a, b, c)

ru_stops : (v : Values) → ru_waits v ≡ false → Complete ru v
ru_stops v h = (λ e. ground (arith, h, e), λ e. ground (arith, h, e))

ru_lacks : (v : Values) → ru_waits v ≡ true → ¬ Complete ru v
ru_lacks v h (a, b) = ground (arith, h, a, b)

-- The replacer for a piece gets some values within its fuel exactly where some loads of the file, at most as many as the
-- fuel, each on values that lack an address that the piece needs, lead to these values, and these lack none.
pub get_content_iff :
    {World : Type 0} (files : Files World) (split : SplitPiece) (fuel : ℕ) (v v' : Values)
    (w w' : World)
    → (get_content files (piece_text split) fuel v w ≡ (ok v', w'))
      ↔ ((n : ℕ) × (n ≤ fuel) × Loads files (Complete split) n v w v' w' × Complete split v')
unfolding get_content get_cu_content get_du_content get_ru_content str_dec
get_content_iff files cu =
    load_until_iff files (Complete cu) cu_waits "error loading file for CU split" cu_stops cu_lacks
get_content_iff files du =
    load_until_iff files (Complete du) du_waits "error loading file for DU split" du_stops du_lacks
get_content_iff files ru =
    load_until_iff files (Complete ru) ru_waits "error loading file for RU split" ru_stops ru_lacks
