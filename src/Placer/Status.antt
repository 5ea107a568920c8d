-- ===== src/Placer/Status.antt =====
-- What the placer reports in its status, and the splits that it creates.
use oai_k8s.Common.{
  String, ℕ, suc, ◌+◌, ◌≡◌, ◌≢◌, refl, ap, sym, ◌∙◌, subst, none, some, List, [], ◌∷◌, true, false,
}
use oai_k8s.Common.{str_dec, if◌then◌else◌, length, arith, Memᴰ, Bool-cases, ⊎_elim, inl, inr}
use oai_k8s.Common.{Result, ok, >>=-eq-ok, with_context, with_context-eq-ok, Option}
use oai_k8s.Common.Dict.{Dict, insert, lookup, lookup-insert_self, lookup-insert_ne, keys}
use oai_k8s.Common.{Distinct}
use mathlib.Core.List.Memᴰ
use oai_k8s.Extern.{Platform}
use oai_k8s.Api.{ChainPosition}
use oai_k8s.Utils.{Link}
use oai_k8s.Cluster.{ObjectKey, Split, SplitsPlacer}
use oai_k8s.Cluster.Getters.{get_if_exists, absent_or-eq-some}
use oai_k8s.Placer.Defs.{PlacerEnv, is_unplaced}
use oai_k8s.Placer.Topology.{not_allocated, record_placement, write_bandwidth}
use oai_k8s.Placer.Splits.{
  split_template, sync_split, sync_splits, create_owned_split, unless_exists,
}

-- The units with a CU and a DU.
abbrev pub placed_count : List ChainPosition → ℕ
placed_count [] = 0
placed_count (ru ∷ rest) = if is_unplaced ru then placed_count rest else suc (placed_count rest)

-- The unit has a CU and a DU.
abbrev pub HasBoth : ChainPosition → Type 0
HasBoth ru = (ru.cu_node ≢ "") × (ru.du_node ≢ "")

-- So many of the units have a CU and a DU.
pub data Count : List ChainPosition → ℕ → Type 0 where
  no_unit : Count [] 0
  one_placed :
      {ru : ChainPosition} {rest : List ChainPosition} {n : ℕ}
      → HasBoth ru
      → Count rest n
      → Count (ru ∷ rest) (suc n)
  one_unplaced :
      {ru : ChainPosition} {rest : List ChainPosition} {n : ℕ}
      → ¬ HasBoth ru
      → Count rest n
      → Count (ru ∷ rest) n

is_unplaced-HasBoth : (ru : ChainPosition) → is_unplaced ru ≡ false → HasBoth ru
is_unplaced-HasBoth ru h = (λ e. ground (arith, h, e), λ e. ground (arith, h, e))

is_unplaced-not_HasBoth : (ru : ChainPosition) → is_unplaced ru ≡ true → ¬ HasBoth ru
is_unplaced-not_HasBoth ru h (a, b) = ground (arith, h, a, b)

placed_count-Count : (rus : List ChainPosition) → Count rus (placed_count rus)
placed_count-Count [] = no_unit
placed_count-Count (ru ∷ rest) = elim (Bool-cases (is_unplaced ru)) [
  | inl h ↦ rw h (one_unplaced (is_unplaced-not_HasBoth ru h) (placed_count-Count rest))
  | inr h ↦ rw h (one_placed (is_unplaced-HasBoth ru h) (placed_count-Count rest))
]

not_allocated-count :
    (rus : List ChainPosition) → length (not_allocated rus) + placed_count rus ≡ length rus
unfolding not_allocated
not_allocated-count [] = refl
not_allocated-count (ru ∷ rest) = elim (Bool-cases (is_unplaced ru)) [
  | inl h ↦ rw h (omega (arith, not_allocated-count rest))
  | inr h ↦ rw h (omega (arith, not_allocated-count rest))
]

module _ {P : Platform} {World : Type 0} (env : PlacerEnv P World) where
  open P use {Float}
  open env use {client, format_float}

  write_bandwidth-other :
      (links : Dict (Link Float)) (d : Dict String) (k : String)
      → ¬ Memᴰ k (keys links)
      → lookup k (write_bandwidth env links d) ≡ lookup k d
  unfolding write_bandwidth
  write_bandwidth-other [] d k n = refl
  write_bandwidth-other ((j, v) ∷ rest) d k n =
      write_bandwidth-other rest (insert j (format_float v.available_bandwidth) d) k
        (λ m. n (Memᴰ.tail m))
      ∙ lookup-insert_ne k j (format_float v.available_bandwidth) d (λ e. n (Memᴰ.head e))

  write_bandwidth-lookup :
      (links : Dict (Link Float)) (d : Dict String)
      → Distinct (keys links)
      → (k : String) (v : Link Float) → lookup k links ≡ some v
      → lookup k (write_bandwidth env links d) ≡ some (format_float v.available_bandwidth)
  unfolding write_bandwidth
  write_bandwidth-lookup [] d distinct k v h = cc
  write_bandwidth-lookup ((j, w) ∷ rest) d (fresh, distinct) k v h = elim (str_dec k j) [
    | yes e ↦
        let same : w ≡ v = (let x : some w ≡ some v = ground (arith, e, h) in cc) in
        rw (e, same)
          (write_bandwidth-other rest (insert j (format_float v.available_bandwidth) d) j fresh
            ∙ lookup-insert_self j (format_float v.available_bandwidth) d)
    | no n ↦
        write_bandwidth-lookup rest (insert j (format_float w.available_bandwidth) d) distinct k v
          (ground (arith, n, h))
  ]

  -- After a placement over links with distinct names the object has the units as they were left, the number of those whose
  -- CU and DU both have a node, its old state, for each link of the graph the bandwidth that is left, and what it had for
  -- every other name.
  pub record_placement-status :
      (links : Dict (Link Float)) (rus : List ChainPosition) (object : SplitsPlacer)
      → Distinct (keys links)
      → let object' = record_placement env links rus object in
        (object'.spec.rus ≡ rus)
        × Count rus object'.status.allocated_rus
        × (object'.status.state ≡ object.status.state)
        × ((k : String) (v : Link Float)
            → lookup k links ≡ some v
            → lookup k object'.status.remaining_bandwidth
              ≡ some (format_float v.available_bandwidth))
        × ((k : String)
            → ¬ Memᴰ k (keys links)
            → lookup k object'.status.remaining_bandwidth
              ≡ lookup k object.status.remaining_bandwidth)
  unfolding record_placement
  record_placement-status links rus object distinct = (
    refl,
    subst (Count rus) (omega (arith, not_allocated-count rus)) (placed_count-Count rus),
    refl,
    write_bandwidth-lookup links object.status.remaining_bandwidth distinct,
    write_bandwidth-other links object.status.remaining_bandwidth,
  )

  -- The behaviour of the API server that the creation of splits relies on.
  pub record KeepsSplits : Type 0 where
    pub get_reads : (k : ObjectKey) (w : World) → (client.get_split k w).1 ≡ w
    pub owner_keeps :
        (o : SplitsPlacer) (s s' : Split) (w w' : World)
        → client.set_split_owner o s w ≡ (ok s', w')
        → (s'.key ≡ s.key) × (w' ≡ w)
    pub create_adds :
        (s : Split) (w w' : World)
        → client.create_split s w ≡ (ok tt, w')
        → (s' : Split) × ((client.get_split s.key w').0 ≡ ok s')
    pub create_keeps :
        (s s' : Split) (k : ObjectKey) (w w' : World)
        → client.create_split s w ≡ (ok tt, w')
        → (client.get_split k w).0 ≡ ok s'
        → (s'' : Split) × ((client.get_split k w').0 ≡ ok s'')

  abbrev pub Exists : ObjectKey → World → Type 0
  Exists k w = (s : Split) × ((client.get_split k w).0 ≡ ok s)

  module _ (K : KeepsSplits) (owner : SplitsPlacer) where
    abbrev pub key_of : ChainPosition → ObjectKey
    key_of ru = record { namespace = owner.key.namespace; name = ru.split_name }

    -- Behind the check, in the world `w₁` that it leaves.
    found_cases :
        (ru : ChainPosition) (template : Split)
        → template.key ≡ key_of ru
        → (w w₁ w' : World) (found : Option Split)
        → with_context "error checking if split exists"
            (get_if_exists "error getting split" (client.get_split template.key))
            w
          ≡ (ok found, w₁)
        → unless_exists env owner template found w₁ ≡ (ok tt, w')
        → ((k : ObjectKey) → Exists k w → Exists k w₁)
        → (is_unplaced ru ≡ false → Exists (key_of ru) w')
          × ((k : ObjectKey) → Exists k w → Exists k w')
    unfolding create_owned_split
    found_cases ru template same w w₁ w' (some x) e h was =
        let stays =
          λ (k : ObjectKey) (y : Exists k w). subst (Exists k) (ap (λ z. z.1) h) (was k y) in
        (
          λ u.
              subst (λ k. Exists k w') same
                (stays template.key (
                  x,
                  absent_or-eq-some "error checking if split exists" "error getting split" _
                      (ap (λ z. z.0) e),
                )),
          stays,
        )
    found_cases ru template same w w₁ w' none e h was =
        let (split, w₂, e₂, h₂) =
          >>=-eq-ok
            (with_context "error setting split owner reference"
              (client.set_split_owner owner template))
            (λ split. with_context "error creating split" (client.create_split split)) w₁ h in
        let (named, kept) = K.owner_keeps owner template split w₁ w₂ (
          with_context-eq-ok "error setting split owner reference"
            (client.set_split_owner owner template) w₁ e₂) in
        let created = with_context-eq-ok "error creating split" (client.create_split split) w₂ h₂ in
        (
          λ u. subst (λ k. Exists k w') (named ∙ same) (K.create_adds split w₂ w' created),
          λ k y.
              let (s, z) = subst (Exists k) (sym kept) (was k y) in
              K.create_keeps split s k w₂ w' created z,
        )

    sync_split-Exists :
        (ru : ChainPosition) (w w' : World)
        → sync_split env owner ru w ≡ (ok tt, w')
        → (is_unplaced ru ≡ false → Exists (key_of ru) w')
          × ((k : ObjectKey) → Exists k w → Exists k w')
    unfolding sync_split create_owned_split split_template
    sync_split-Exists ru w w' h = elim (Bool-cases (is_unplaced ru)) [
      | inl u ↦
          let h' : ◌≡◌ {A = Result (Unit {0}) × World} (ok tt, w) (ok tt, w') =
            rw (u, sync_split) at h in
          (λ f. cc, λ k e. subst (Exists k) (ap (λ x. x.1) h') e)
      | inr u ↦
          let template = split_template ru owner.key.namespace owner.spec.core_ip in
          let (found, w₁, e₁, h₁) =
            >>=-eq-ok
              (with_context "error checking if split exists"
                (get_if_exists "error getting split" (client.get_split template.key)))
              (unless_exists env owner template) w (rw (u, sync_split) at h) in
          let back = sym (K.get_reads template.key w) ∙ ap (λ x. x.1) e₁ in
          let was = λ (k : ObjectKey) (e : Exists k w). subst (Exists k) back e in
          found_cases ru template refl w w₁ w' found e₁ h₁ was
    ]

    -- With an API server that keeps what it was given: when `syncSplits` succeeds, every unit with a CU and a DU has a split of its name in the
    -- namespace of the placer, and no split is lost.
    pub sync_splits-Exists :
        (rus : List ChainPosition) (w w' : World)
        → sync_splits env owner rus w ≡ (ok tt, w')
        → ((ru : ChainPosition) → Memᴰ ru rus → is_unplaced ru ≡ false → Exists (key_of ru) w')
          × ((k : ObjectKey) → Exists k w → Exists k w')
    unfolding sync_splits
    sync_splits-Exists [] w w' h =
        (λ ru m. absurd (Memᴰ.not-nil m), λ k e. subst (Exists k) (ap (λ x. x.1) h) e)
    sync_splits-Exists (ru ∷ rest) w w' h =
        let (u, w₁, e₁, h₁) =
          >>=-eq-ok (sync_split env owner ru) (λ _. sync_splits env owner rest) w h in
        let (here, keeps) = sync_split-Exists ru w w₁ e₁ in
        let (there, keeps') = sync_splits-Exists rest w₁ w' h₁ in
        (
          λ r m p.
              ⊎_elim
                (λ e. keeps' (key_of r) (
                  subst (λ x. Exists (key_of x) w₁) (sym e)
                    (here (subst (λ x. is_unplaced x ≡ false) e p))))
                (λ t. there r t p) (Memᴰ.cases_cons m),
          λ k e. keeps' k (keeps k e),
        )
