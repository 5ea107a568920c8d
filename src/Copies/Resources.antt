-- ===== src/Copies/Resources.antt =====
-- The methods `DeepCopy` and `DeepCopyObject` (operator/api/v1beta1/zz_generated.deepcopy.go) of the resources, from pointer to pointer.
use oai_k8s.Common.{◌≡◌, refl, ap, sym, subst, ◌∙◌, Option, none, some}
use oai_k8s.Copies.Memory.{
  Memory, Cell, Reading, Copying, ◌>>=◌, pure, read_nil, read_slice, read_pointer, copy_nil,
  copy_slice, copy_pointer,
}
use oai_k8s.Copies.Separate.{Holds, Copied, IsCopy}
use oai_k8s.Copies.Parts.{pair-Copied}
use oai_k8s.Copies.Rules.{nil-IsCopy, slice-IsCopy, pointer-IsCopy}
use oai_k8s.Copies.Objects.{Foreign, MaybeAddress}
use oai_k8s.Copies.Blocks.{Block}
use oai_k8s.Copies.Blocks
use oai_k8s.Copies.Generated.{
  MetaCopies, deep_copy, deep_copy_object, disaggregation_into, topology_into, split_into,
  splits_placer_into, split_list_into, splits_placer_list_into,
}
use oai_k8s.Copies.Methods.{
  disaggregation_copy, topology_copy, split_list_copy_object, splits_placer_list_copy_object,
}
use oai_k8s.Copies.Values.{
  DisaggregationValue, TopologyValue, SplitListValue, PlacerListValue, list_of, read_disaggregation,
  read_topology, read_split, read_splits_placer, read_split_list, read_splits_placer_list,
}
use oai_k8s.Copies.Deep.{
  disaggregation-IsCopy, topology-IsCopy, split-IsCopy, splits_placer-IsCopy, some-inj,
}

-- The call gives a copy of the value in memory of its own, and the original stays as it was: each of them stands for the value
-- whatever is written to the memory of the other one.
pub record IsDeepCopy {Block A V : Type 0} (read : A → Reading Block V) (original : A)
    (h : Memory Block) (v : V) (r : Option (A × Memory Block)) : Type 0 where
  pub copied : Copied read h v r
  pub untouched : Holds 0 h.next copied.after (read original) v

deep :
    {Block A V : Type 0} (read : A → Reading Block V) (copy : A → Copying Block A)
    → IsCopy read copy
    → (a : A) (h : Memory Block) (v : V) → Holds 0 h.next h (read a) v
    → IsDeepCopy read a h v (copy a h)
deep read copy i a h v holds =
    let c = i a h v holds in
    record { copied = c; untouched = λ h' g. holds h' (λ p x y. g p x y ∙ c.kept p x y) }

-- What a pointer that may be nil stands for.
abbrev pub read_at :
    {B A V : Type 0} → Cell B A → (A → Reading B V) → MaybeAddress → Reading B (Option V)
read_at cell read = read_nil (read_pointer cell read)

deep_copy-IsCopy :
    {B A V : Type 0} (cell : Cell B A) (read : A → Reading B V) (into : A → Copying B A)
    → IsCopy read into
    → IsCopy (read_at cell read) (deep_copy cell into)
unfolding deep_copy
deep_copy-IsCopy cell read into i =
    nil-IsCopy (read_pointer cell read) (copy_pointer cell into) (pointer-IsCopy cell read into i)

-- The copy of an object is the copy.
deep_copy_object_lem :
    {B A : Type 0} (cell : Cell B A) (into : A → Copying B A) (p : MaybeAddress) (h : Memory B)
    → deep_copy_object cell into p h ≡ deep_copy cell into p h
unfolding deep_copy_object
deep_copy_object_lem {B} cell into p h = same (deep_copy cell into p h)
  where
    same :
        (o : Option (MaybeAddress × Memory B))
        → ◌>>=◌ (λ _. o) (λ c. elim c [ none ↦ pure none | some q ↦ pure (some q) ]) h ≡ o
    same none = refl
    same (some (none, h')) = refl
    same (some (some q, h')) = refl

deep_copy_object-IsCopy :
    {B A V : Type 0} (cell : Cell B A) (read : A → Reading B V) (into : A → Copying B A)
    → IsCopy read into
    → IsCopy (read_at cell read) (deep_copy_object cell into)
deep_copy_object-IsCopy cell read into i p h v holds =
    subst (Copied (read_at cell read) h v) (sym (deep_copy_object_lem cell into p h))
      (deep_copy-IsCopy cell read into i p h v holds)

module _ (F : Foreign) where
  -- In every memory in which the pointer stands for a disaggregation, or is nil, `DeepCopy` gives a deep copy.
  pub disaggregation_copy-IsDeepCopy :
      (p : MaybeAddress) (h : Memory (Block F)) (v : Option (DisaggregationValue F))
      → Holds 0 h.next h (read_at (Blocks.disaggregation_cell F) (read_disaggregation F) p) v
      → IsDeepCopy
          (read_at (Blocks.disaggregation_cell F) (read_disaggregation F))
          p
          h
          v
          (disaggregation_copy F p h)
  unfolding disaggregation_copy
  disaggregation_copy-IsDeepCopy =
      let cell = Blocks.disaggregation_cell F in
      deep (read_at cell (read_disaggregation F)) (deep_copy cell (disaggregation_into F)) (
        deep_copy-IsCopy cell (read_disaggregation F) (disaggregation_into F)
          (disaggregation-IsCopy F))

  -- In every memory in which the pointer stands for a topology, or is nil, `DeepCopy` gives a deep copy, nodes and links
  -- included.
  pub topology_copy-IsDeepCopy :
      (p : MaybeAddress) (h : Memory (Block F)) (v : Option (TopologyValue F))
      → Holds 0 h.next h (read_at (Blocks.topology_cell F) (read_topology F) p) v
      → IsDeepCopy (read_at (Blocks.topology_cell F) (read_topology F)) p h v (topology_copy F p h)
  unfolding topology_copy
  topology_copy-IsDeepCopy =
      let cell = Blocks.topology_cell F in
      deep (read_at cell (read_topology F)) (deep_copy cell (topology_into F))
        (deep_copy-IsCopy cell (read_topology F) (topology_into F) (topology-IsCopy F))

  module _ (M : MetaCopies F) {ObjectValue ListValue : Type 0}
      (read_object_meta : F.ObjectMeta → Reading (Block F) ObjectValue)
      (read_list_meta : F.ListMeta → Reading (Block F) ListValue)
      (object_meta-IsCopy : IsCopy read_object_meta M.object_meta_into)
      (list_meta-IsCopy : IsCopy read_list_meta M.list_meta_into) where
    split_list-IsCopy :
        IsCopy (read_split_list F read_object_meta read_list_meta) (split_list_into F M)
    unfolding read_split_list split_list_into
    split_list-IsCopy x =
        let read = read_split F read_object_meta read_list_meta in
        let r = read_slice (Blocks.splits_cell F) read in
        let c = copy_slice (Blocks.splits_cell F) (split_into F M) in
        pair-Copied read_list_meta M.list_meta_into (read_nil r) (copy_nil c) (list_of x.type_meta)
          (list_of x.type_meta) (read_split_list F read_object_meta read_list_meta)
          (λ a a' b b' e. let f = some-inj e in (ap (λ l. l.list_meta) f, ap (λ l. l.items) f))
          (λ a b h. refl) x.list_meta x.items (list_meta-IsCopy x.list_meta)
          (nil-IsCopy r c
            (slice-IsCopy (Blocks.splits_cell F) read (split_into F M) (
              split-IsCopy F M read_object_meta read_list_meta object_meta-IsCopy list_meta-IsCopy))
            x.items)

    placer_list-IsCopy :
        IsCopy
          (read_splits_placer_list F read_object_meta read_list_meta)
          (splits_placer_list_into F M)
    unfolding read_splits_placer_list splits_placer_list_into
    placer_list-IsCopy x =
        let read = read_splits_placer F read_object_meta read_list_meta in
        let r = read_slice (Blocks.placers_cell F) read in
        let c = copy_slice (Blocks.placers_cell F) (splits_placer_into F M) in
        pair-Copied read_list_meta M.list_meta_into (read_nil r) (copy_nil c) (list_of x.type_meta)
          (list_of x.type_meta) (read_splits_placer_list F read_object_meta read_list_meta)
          (λ a a' b b' e. let f = some-inj e in (ap (λ l. l.list_meta) f, ap (λ l. l.items) f))
          (λ a b h. refl) x.list_meta x.items (list_meta-IsCopy x.list_meta)
          (nil-IsCopy r c
            (slice-IsCopy (Blocks.placers_cell F) read (splits_placer_into F M) (
              splits_placer-IsCopy F M read_object_meta read_list_meta object_meta-IsCopy
                list_meta-IsCopy))
            x.items)

    -- Where the copies of the metadata are deep, and in every memory in which the pointer stands for a list of splits, or is nil,
    -- `DeepCopyObject` gives a deep copy.
    pub split_list_copy_object-IsDeepCopy :
        (p : MaybeAddress) (h : Memory (Block F))
        (v : Option (SplitListValue F ObjectValue ListValue))
        → Holds 0 h.next h
            (read_at
              (Blocks.split_list_cell F)
              (read_split_list F read_object_meta read_list_meta)
              p)
            v
        → IsDeepCopy
            (read_at (Blocks.split_list_cell F) (read_split_list F read_object_meta read_list_meta))
            p
            h
            v
            (split_list_copy_object F M p h)
    unfolding split_list_copy_object
    split_list_copy_object-IsDeepCopy =
        let cell = Blocks.split_list_cell F in
        let read = read_split_list F read_object_meta read_list_meta in
        deep (read_at cell read) (deep_copy_object cell (split_list_into F M))
          (deep_copy_object-IsCopy cell read (split_list_into F M) split_list-IsCopy)

    -- Where the copies of the metadata are deep, and in every memory in which the pointer stands for a list of placers, or is nil,
    -- `DeepCopyObject` gives a deep copy, down to the paths of their units and the map of the remaining bandwidths.
    pub splits_placer_list_copy_object-IsDeepCopy :
        (p : MaybeAddress) (h : Memory (Block F))
        (v : Option (PlacerListValue F ObjectValue ListValue))
        → Holds 0 h.next h
            (read_at
              (Blocks.placer_list_cell F)
              (read_splits_placer_list F read_object_meta read_list_meta)
              p)
            v
        → IsDeepCopy
            (read_at
              (Blocks.placer_list_cell F)
              (read_splits_placer_list F read_object_meta read_list_meta))
            p
            h
            v
            (splits_placer_list_copy_object F M p h)
    unfolding splits_placer_list_copy_object
    splits_placer_list_copy_object-IsDeepCopy =
        let cell = Blocks.placer_list_cell F in
        let read = read_splits_placer_list F read_object_meta read_list_meta in
        deep (read_at cell read) (deep_copy_object cell (splits_placer_list_into F M))
          (deep_copy_object-IsCopy cell read (splits_placer_list_into F M) placer_list-IsCopy)
