-- ===== src/Tests/Listings.antt =====
-- Copies of a list of splits and of a list of placers (operator/api/v1beta1/zz_generated.deepcopy.go).
use oai_k8s.Common.{String, ◌≡◌, refl, ◌∙◌, Option, none, some, [], ◌∷◌, true, arith}
use oai_k8s.Common.Int.{pos}
use oai_k8s.Copies.Memory.{
  Memory, Address, Slice, Reading, give, pure, read_list, read_nil, read_slice, read_pointer,
  read_map, read_entry, and_then, part_of,
}
use oai_k8s.Copies.Separate.{Agree, scalar-IsCopy, and_then-some}
use oai_k8s.Copies.Rules.{and_then-load}
use oai_k8s.Copies.Objects.{
  ChainPositionOf, SplitsPlacerSpecOf, SplitsPlacerStatusOf, StoredPlacer, StoredList, StoredSplit,
}
use oai_k8s.Copies.Blocks.{Block}
use oai_k8s.Copies.Blocks
use oai_k8s.Copies.Generated.{MetaCopies}
use oai_k8s.Copies.Methods.{split_list_copy_object, splits_placer_list_copy_object}
use oai_k8s.Copies.Values.{
  Texts, Positions, PlacerValue, SplitListValue, PlacerListValue, with_path, with_rus,
  with_bandwidth, placer_of, list_of, read_strings, read_chain_position, read_positions, read_spec,
  read_bandwidth, read_status, read_split, read_splits_placer, read_split_list,
  read_splits_placer_list,
}
use oai_k8s.Copies.Resources.{
  IsDeepCopy, read_at, split_list_copy_object-IsDeepCopy, splits_placer_list_copy_object-IsDeepCopy,
}
use oai_k8s.Tests.Copies.{plain, held}

-- Metadata without references.
abbrev meta : MetaCopies plain
meta = record { object_meta_into = λ m. pure m; list_meta_into = λ m. pure m }

abbrev read_meta : String → Reading (Block plain) String
read_meta m = give m

abbrev one_split : StoredSplit plain
one_split = record {
  type_meta = "Split";
  object_meta = "split1";
  spec = record { core_ip = "10.0.0.1"; ru_node = "node3"; du_node = "node2"; cu_node = "node1" };
  status = record {
    cu_node = "node1";
    cu_ip = "";
    du_node = "node2";
    du_ip = "";
    ru_node = "node3";
    ru_ip = "";
    state = "Running";
  };
}

abbrev first_block : Slice
first_block = record { array = 0; start = 0; size = 1 }

abbrev split_list : StoredList plain
split_list = record { type_meta = "SplitList"; list_meta = "7"; items = some first_block }

abbrev splits_memory : Memory (Block plain)
splits_memory = record {
  next = 2;
  cell = held (Blocks.splits (one_split ∷ []) ∷ Blocks.split_list split_list ∷ []);
}

abbrev splits_value : SplitListValue plain String String
splits_value = record { type_meta = "SplitList"; list_meta = "7"; items = some (one_split ∷ []) }

module _ (h : Memory (Block plain)) (g : Agree 0 2 splits_memory h) where
  splits_lem :
      read_nil
        (read_slice (Blocks.splits_cell plain) (read_split plain read_meta read_meta))
        (some first_block)
        h
      ≡ some splits_value.items
  unfolding read_nil read_slice read_list read_split
  splits_lem =
      let cell = Blocks.splits_cell plain in
      let read = read_split plain read_meta read_meta in
      and_then-some (read_slice cell read first_block) (λ v. give (some v)) h
        (and_then-load cell 0 (one_split ∷ []) (λ xs. read_list read (part_of first_block xs)) h
          (g 0 (omega arith) (omega arith)) refl)

  split_list_lem :
      read_at (Blocks.split_list_cell plain) (read_split_list plain read_meta read_meta) (some 1) h
      ≡ some (some splits_value)
  unfolding read_nil read_pointer read_split_list
  split_list_lem =
      let cell = Blocks.split_list_cell plain in
      let read = read_split_list plain read_meta read_meta in
      let items =
        read_nil (read_slice (Blocks.splits_cell plain) (read_split plain read_meta read_meta))
          (some first_block) in
      and_then-some (read_pointer cell read 1) (λ v. give (some v)) h
        (and_then-load cell 1 split_list read h (g 1 (omega arith) (omega arith))
          (and_then-some items (λ xs. give (list_of "SplitList" "7" xs)) h splits_lem))

split_list_copy_object-IsDeepCopy_example :
    IsDeepCopy
      (read_at (Blocks.split_list_cell plain) (read_split_list plain read_meta read_meta))
      (some 1)
      splits_memory
      (some splits_value)
      (split_list_copy_object plain meta (some 1) splits_memory)
split_list_copy_object-IsDeepCopy_example =
    split_list_copy_object-IsDeepCopy plain meta read_meta read_meta scalar-IsCopy scalar-IsCopy
      (some 1) splits_memory (some splits_value) split_list_lem

abbrev unit_of : {A : Type 0} → A → ChainPositionOf A
unit_of path = record {
  split_name = "split1";
  ru_node = "node3";
  cu_node = "node1";
  du_node = "node2";
  path = path;
  disaggregation = "dsg8";
}

abbrev path_value : Texts
path_value = some ("core" ∷ "node1" ∷ "node2" ∷ "node3" ∷ [])

abbrev units : Slice
units = record { array = 2; start = 0; size = 2 }

abbrev placers : Slice
placers = record { array = 4; start = 0; size = 1 }

abbrev spec_of : {A : Type 0} → A → SplitsPlacerSpecOf A
spec_of rus = record {
  rus = rus;
  core_ip = "10.0.0.1";
  topology_config = "topology";
  retrigger = true;
}

abbrev status_of : {A : Type 0} → A → SplitsPlacerStatusOf A
status_of bandwidth = record {
  state = "Finished";
  remaining_bandwidth = bandwidth;
  allocated_rus = pos 1;
  allocation_time = "1ms";
}

abbrev one_placer : StoredPlacer plain
one_placer = record {
  type_meta = "SplitsPlacer";
  object_meta = "placer1";
  spec = spec_of (some units);
  status = status_of (some 3);
}

abbrev placer_list : StoredList plain
placer_list = record { type_meta = "SplitsPlacerList"; list_meta = "9"; items = some placers }

abbrev full_path : Slice
full_path = record { array = 0; start = 0; size = 4 }

abbrev placers_memory : Memory (Block plain)
placers_memory = record {
  next = 6;
  cell = held (
      Blocks.strings ("core" ∷ "node1" ∷ "node2" ∷ "node3" ∷ [])
      ∷ Blocks.position (unit_of (some full_path))
      ∷ Blocks.positions (some 1 ∷ none ∷ [])
      ∷ Blocks.texts (("link1", "10") ∷ [])
      ∷ Blocks.placers (one_placer ∷ [])
      ∷ Blocks.placer_list placer_list
      ∷ []);
}

abbrev units_value : Positions
units_value = some (some (unit_of path_value) ∷ none ∷ [])

abbrev placer_value : PlacerValue plain String
placer_value = record {
  type_meta = "SplitsPlacer";
  object_meta = "placer1";
  spec = spec_of units_value;
  status = status_of (some (("link1", "10") ∷ []));
}

abbrev placers_value : PlacerListValue plain String String
placers_value = record {
  type_meta = "SplitsPlacerList";
  list_meta = "9";
  items = some (placer_value ∷ []);
}

abbrev read_unit : Option Address → Reading (Block plain) (Option (ChainPositionOf Texts))
read_unit = read_nil (read_pointer (Blocks.position_cell plain) (read_chain_position plain))

module _ (h : Memory (Block plain)) (g : Agree 0 6 placers_memory h) where
  path_lem : read_strings plain (some full_path) h ≡ some path_value
  unfolding read_strings read_nil read_slice
  path_lem =
      let read : String → Reading (Block plain) String = λ s. give s in
      let cell = Blocks.strings_cell plain in
      and_then-some (read_slice cell read full_path) (λ v. give (some v)) h
        (and_then-load cell 0 ("core" ∷ "node1" ∷ "node2" ∷ "node3" ∷ [])
          (λ xs. read_list read (part_of full_path xs)) h (g 0 (omega arith) (omega arith)) refl)

  unit_lem : read_unit (some 1) h ≡ some (some (unit_of path_value))
  unfolding read_nil read_pointer read_chain_position
  unit_lem =
      let cell = Blocks.position_cell plain in
      let x : ChainPositionOf (Option Slice) = unit_of (some full_path) in
      and_then-some (read_pointer cell (read_chain_position plain) 1) (λ v. give (some v)) h
        (and_then-load cell 1 x (read_chain_position plain) h (g 1 (omega arith) (omega arith)) (
          and_then-some (read_strings plain (some full_path)) (λ p. give (with_path x p)) h
            path_lem))

  units_lem : read_positions plain (some units) h ≡ some units_value
  unfolding read_positions read_nil read_slice read_list
  units_lem =
      let cell = Blocks.positions_cell plain in
      let rest = read_list read_unit (none ∷ []) in
      and_then-some (read_slice cell read_unit units) (λ v. give (some v)) h
        (and_then-load cell 2 (some 1 ∷ none ∷ []) (λ xs. read_list read_unit (part_of units xs)) h
          (g 2 (omega arith) (omega arith))
          (and_then-some (read_unit (some 1)) (λ v. and_then rest (λ vs. give (v ∷ vs))) h
            unit_lem))

  bandwidth_lem : read_bandwidth plain (some 3) h ≡ some (some (("link1", "10") ∷ []))
  unfolding read_bandwidth read_nil read_map read_pointer read_list read_entry
  bandwidth_lem =
      let read : String → Reading (Block plain) String = λ s. give s in
      let cell = Blocks.texts_cell plain in
      and_then-some (read_map cell read 3) (λ v. give (some v)) h
        (and_then-load cell 3 (("link1", "10") ∷ []) (read_list (read_entry read)) h
          (g 3 (omega arith) (omega arith)) refl)

  placer_lem : read_splits_placer plain read_meta read_meta one_placer h ≡ some placer_value
  unfolding read_splits_placer read_spec read_status
  placer_lem =
      let status = λ (s : SplitsPlacerSpecOf Positions).
        and_then (read_status plain one_placer.status)
          (λ t. give (placer_of "SplitsPlacer" "placer1" s t)) in
      and_then-some (read_spec plain one_placer.spec) status h (
        and_then-some (read_positions plain (some units)) (λ r. give (with_rus one_placer.spec r)) h
          units_lem)
      ∙ and_then-some (read_status plain one_placer.status)
          (λ t. give (placer_of "SplitsPlacer" "placer1" placer_value.spec t)) h
          (and_then-some (read_bandwidth plain (some 3))
            (λ b. give (with_bandwidth one_placer.status b)) h bandwidth_lem)

  placers_lem :
      read_nil
        (read_slice (Blocks.placers_cell plain) (read_splits_placer plain read_meta read_meta))
        (some placers)
        h
      ≡ some placers_value.items
  unfolding read_nil read_slice read_list
  placers_lem =
      let cell = Blocks.placers_cell plain in
      let read = read_splits_placer plain read_meta read_meta in
      let rest = read_list read [] in
      and_then-some (read_slice cell read placers) (λ v. give (some v)) h
        (and_then-load cell 4 (one_placer ∷ []) (λ xs. read_list read (part_of placers xs)) h
          (g 4 (omega arith) (omega arith))
          (and_then-some (read one_placer) (λ v. and_then rest (λ vs. give (v ∷ vs))) h placer_lem))

  placer_list_lem :
      read_at
        (Blocks.placer_list_cell plain)
        (read_splits_placer_list plain read_meta read_meta)
        (some 5)
        h
      ≡ some (some placers_value)
  unfolding read_nil read_pointer read_splits_placer_list
  placer_list_lem =
      let cell = Blocks.placer_list_cell plain in
      let read = read_splits_placer_list plain read_meta read_meta in
      let items =
        read_nil
          (read_slice (Blocks.placers_cell plain) (read_splits_placer plain read_meta read_meta))
          (some placers) in
      and_then-some (read_pointer cell read 5) (λ v. give (some v)) h
        (and_then-load cell 5 placer_list read h (g 5 (omega arith) (omega arith))
          (and_then-some items (λ xs. give (list_of "SplitsPlacerList" "9" xs)) h placers_lem))

splits_placer_list_copy_object-IsDeepCopy_example :
    IsDeepCopy
      (read_at (Blocks.placer_list_cell plain) (read_splits_placer_list plain read_meta read_meta))
      (some 5)
      placers_memory
      (some placers_value)
      (splits_placer_list_copy_object plain meta (some 5) placers_memory)
splits_placer_list_copy_object-IsDeepCopy_example =
    splits_placer_list_copy_object-IsDeepCopy plain meta read_meta read_meta scalar-IsCopy
      scalar-IsCopy (some 5) placers_memory (some placers_value) placer_list_lem
