-- ===== src/Copies/Values.antt =====
-- What the resources in memory stand for (operator/api/v1beta1): the value behind each reference in its place.
use oai_k8s.Common.{String, Option, List}
use oai_k8s.Common.Dict.{Dict}
use oai_k8s.Api.{TopologyLink, NetworkRequirements}
use oai_k8s.Copies.Memory.{Reading, and_then, give, read_nil, read_slice, read_pointer, read_map}
use oai_k8s.Copies.Objects.{
  Foreign, MaybeSlice, MaybeAddress, StoredDisaggregation, StoredTopology, StoredSplit,
  StoredPlacer, StoredList, ChainPositionOf, ProtocolStackOf, DisaggregationOf, NodeOf, TopologyOf,
  SplitsPlacerSpecOf, SplitsPlacerStatusOf, SplitsPlacerOf, SplitOf, ListOf,
}
use oai_k8s.Copies.Blocks.{Block}
use oai_k8s.Copies.Blocks

-- A nil slice or map is not an empty one.
abbrev pub Texts : Type 0
Texts = Option (List String)

abbrev pub Positions : Type 0
Positions = Option (List (Option (ChainPositionOf Texts)))

abbrev pub Bandwidth : Type 0
Bandwidth = Option (Dict String)

abbrev pub DisaggregationValue : Foreign → Type 0
DisaggregationValue F = DisaggregationOf Texts (Option (NetworkRequirements F.Float))

abbrev pub TopologyValue : Foreign → Type 0
TopologyValue F =
    TopologyOf (Option (Dict (Option (NodeOf Texts))))
      (Option (Dict (Option (TopologyLink F.Float))))

abbrev pub PlacerValue : Foreign → Type 0 → Type 0
PlacerValue F ObjectValue = SplitsPlacerOf F.TypeMeta ObjectValue Positions Bandwidth

abbrev pub SplitListValue : Foreign → Type 0 → Type 0 → Type 0
SplitListValue F ObjectValue ListValue =
    ListOf F.TypeMeta ListValue (Option (List (SplitOf F.TypeMeta ObjectValue)))

abbrev pub PlacerListValue : Foreign → Type 0 → Type 0 → Type 0
PlacerListValue F ObjectValue ListValue =
    ListOf F.TypeMeta ListValue (Option (List (PlacerValue F ObjectValue)))

abbrev pub with_path : {A B : Type 0} → ChainPositionOf A → B → ChainPositionOf B
with_path x path = record {
  split_name = x.split_name;
  ru_node = x.ru_node;
  cu_node = x.cu_node;
  du_node = x.du_node;
  path = path;
  disaggregation = x.disaggregation;
}

abbrev pub with_interfaces : {A B : Type 0} → NodeOf A → B → NodeOf B
with_interfaces x interfaces = record { interfaces = interfaces; core = x.core; hops = x.hops }

abbrev pub stack_of : {A : Type 0} → A → A → A → ProtocolStackOf A
stack_of cu du ru = record { cu = cu; du = du; ru = ru }

abbrev pub disaggregation_of : {A B : Type 0} → ProtocolStackOf A → B → B → B → DisaggregationOf A B
disaggregation_of stack backhaul midhaul fronthaul = record {
  protocol_stack = stack;
  backhaul = backhaul;
  midhaul = midhaul;
  fronthaul = fronthaul;
}

abbrev pub topology_of : {A B : Type 0} → A → B → TopologyOf A B
topology_of nodes links = record { nodes = nodes; links = links }

abbrev pub with_rus : {A B : Type 0} → SplitsPlacerSpecOf A → B → SplitsPlacerSpecOf B
with_rus x rus = record {
  rus = rus;
  core_ip = x.core_ip;
  topology_config = x.topology_config;
  retrigger = x.retrigger;
}

abbrev pub with_bandwidth : {A B : Type 0} → SplitsPlacerStatusOf A → B → SplitsPlacerStatusOf B
with_bandwidth x bandwidth = record {
  state = x.state;
  remaining_bandwidth = bandwidth;
  allocated_rus = x.allocated_rus;
  allocation_time = x.allocation_time;
}

abbrev pub with_meta : {T A B : Type 0} → SplitOf T A → B → SplitOf T B
with_meta x meta = record {
  type_meta = x.type_meta;
  object_meta = meta;
  spec = x.spec;
  status = x.status;
}

abbrev pub placer_of :
    {T A B C : Type 0}
    → T
    → A
    → SplitsPlacerSpecOf B
    → SplitsPlacerStatusOf C
    → SplitsPlacerOf T A B C
placer_of type_meta meta spec status = record {
  type_meta = type_meta;
  object_meta = meta;
  spec = spec;
  status = status;
}

abbrev pub list_of : {T A B : Type 0} → T → A → B → ListOf T A B
list_of type_meta meta items = record { type_meta = type_meta; list_meta = meta; items = items }

module _ (F : Foreign) where
  unfoldable pub read_strings : MaybeSlice → Reading (Block F) Texts
  unfolding read_nil read_slice
  read_strings = read_nil (read_slice (Blocks.strings_cell F) (λ s. give s))

  unfoldable pub read_chain_position :
      ChainPositionOf MaybeSlice → Reading (Block F) (ChainPositionOf Texts)
  unfolding read_strings
  read_chain_position x = and_then (read_strings x.path) λ path. give (with_path x path)

  unfoldable pub read_protocol_stack :
      ProtocolStackOf MaybeSlice → Reading (Block F) (ProtocolStackOf Texts)
  unfolding read_strings
  read_protocol_stack x = and_then (read_strings x.cu) λ cu.
      and_then (read_strings x.du) λ du. and_then (read_strings x.ru) λ ru. give (stack_of cu du ru)

  unfoldable pub read_requirements :
      MaybeAddress → Reading (Block F) (Option (NetworkRequirements F.Float))
  unfolding read_nil read_pointer
  read_requirements = read_nil (read_pointer (Blocks.requirements_cell F) (λ r. give r))

  unfoldable pub read_disaggregation :
      StoredDisaggregation → Reading (Block F) (DisaggregationValue F)
  unfolding read_protocol_stack read_requirements
  read_disaggregation x = and_then (read_protocol_stack x.protocol_stack) λ stack.
      and_then (read_requirements x.backhaul) λ backhaul.
        and_then (read_requirements x.midhaul) λ midhaul.
          and_then (read_requirements x.fronthaul)
            λ fronthaul. give (disaggregation_of stack backhaul midhaul fronthaul)

  unfoldable pub read_node : NodeOf MaybeSlice → Reading (Block F) (NodeOf Texts)
  unfolding read_strings
  read_node x =
      and_then (read_strings x.interfaces) λ interfaces. give (with_interfaces x interfaces)

  unfoldable pub read_nodes :
      MaybeAddress → Reading (Block F) (Option (Dict (Option (NodeOf Texts))))
  unfolding read_nil read_map read_pointer read_node
  read_nodes =
      read_nil
        (read_map (Blocks.nodes_cell F) (read_nil (read_pointer (Blocks.node_cell F) read_node)))

  unfoldable pub read_links :
      MaybeAddress → Reading (Block F) (Option (Dict (Option (TopologyLink F.Float))))
  unfolding read_nil read_map read_pointer
  read_links =
      read_nil (
        read_map (Blocks.links_cell F) (read_nil (read_pointer (Blocks.link_cell F) (λ l. give l))))

  unfoldable pub read_topology : StoredTopology → Reading (Block F) (TopologyValue F)
  unfolding read_nodes read_links
  read_topology x =
      and_then (read_nodes x.nodes)
        λ nodes. and_then (read_links x.links) λ links. give (topology_of nodes links)

  unfoldable pub read_positions : MaybeSlice → Reading (Block F) Positions
  unfolding read_nil read_slice read_pointer read_chain_position
  read_positions = read_nil (
      read_slice (Blocks.positions_cell F)
        (read_nil (read_pointer (Blocks.position_cell F) read_chain_position)))

  unfoldable pub read_spec :
      SplitsPlacerSpecOf MaybeSlice → Reading (Block F) (SplitsPlacerSpecOf Positions)
  unfolding read_positions
  read_spec x = and_then (read_positions x.rus) λ rus. give (with_rus x rus)

  unfoldable pub read_bandwidth : MaybeAddress → Reading (Block F) Bandwidth
  unfolding read_nil read_map
  read_bandwidth = read_nil (read_map (Blocks.texts_cell F) (λ text. give text))

  unfoldable pub read_status :
      SplitsPlacerStatusOf MaybeAddress → Reading (Block F) (SplitsPlacerStatusOf Bandwidth)
  unfolding read_bandwidth
  read_status x =
      and_then (read_bandwidth x.remaining_bandwidth) λ bandwidth. give (with_bandwidth x bandwidth)

  -- What the metadata stand for.
  module _ {ObjectValue ListValue : Type 0}
      (read_object_meta : F.ObjectMeta → Reading (Block F) ObjectValue)
      (read_list_meta : F.ListMeta → Reading (Block F) ListValue) where
    unfoldable pub read_split : StoredSplit F → Reading (Block F) (SplitOf F.TypeMeta ObjectValue)
    read_split x = and_then (read_object_meta x.object_meta) λ meta. give (with_meta x meta)

    unfoldable pub read_splits_placer :
        StoredPlacer F → Reading (Block F) (PlacerValue F ObjectValue)
    unfolding read_spec read_status
    read_splits_placer x = and_then (read_object_meta x.object_meta) λ meta.
        and_then (read_spec x.spec) λ spec.
          and_then (read_status x.status) λ status. give (placer_of x.type_meta meta spec status)

    unfoldable pub read_split_list :
        StoredList F → Reading (Block F) (SplitListValue F ObjectValue ListValue)
    unfolding read_nil read_slice read_split
    read_split_list x = and_then (read_list_meta x.list_meta) λ meta.
        and_then (read_nil (read_slice (Blocks.splits_cell F) read_split) x.items)
          λ items. give (list_of x.type_meta meta items)

    unfoldable pub read_splits_placer_list :
        StoredList F → Reading (Block F) (PlacerListValue F ObjectValue ListValue)
    unfolding read_nil read_slice read_splits_placer
    read_splits_placer_list x = and_then (read_list_meta x.list_meta) λ meta.
        and_then (read_nil (read_slice (Blocks.placers_cell F) read_splits_placer) x.items)
          λ items. give (list_of x.type_meta meta items)
