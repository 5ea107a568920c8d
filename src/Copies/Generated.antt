-- ===== src/Copies/Generated.antt =====
-- operator/api/v1beta1/zz_generated.deepcopy.go. `*out = *in` copies what lies in the thing itself; a statement for each reference
-- gives the copy one of its own. A method `DeepCopyInto` is a function from what `in` points to to what `out` then points to.
use oai_k8s.Common.{none, some}
use oai_k8s.Api.{Connection, TopologyLink, NetworkRequirements}
use oai_k8s.Cluster.{SplitSpec, SplitStatus}
use oai_k8s.Copies.Memory.{Cell, Copying, ◌>>=◌, pure, copy_nil, copy_slice, copy_pointer, copy_map}
use oai_k8s.Copies.Objects.{
  Foreign, MaybeSlice, MaybeAddress, StoredDisaggregation, StoredTopology, StoredSplit,
  StoredPlacer, StoredList, ChainPositionOf, ProtocolStackOf, NodeOf, SplitsPlacerSpecOf,
  SplitsPlacerStatusOf,
}
use oai_k8s.Copies.Blocks.{Block}
use oai_k8s.Copies.Blocks

-- The copies of metav1.ObjectMeta and metav1.ListMeta.
pub record MetaCopies (F : Foreign) : Type 0 where
  pub object_meta_into : F.ObjectMeta → Copying (Block F) F.ObjectMeta
  pub list_meta_into : F.ListMeta → Copying (Block F) F.ListMeta

-- A method `DeepCopy`: `if in == nil { return nil }`, `new`, and `DeepCopyInto`.
unfoldable pub deep_copy :
    {B A : Type 0} → Cell B A → (A → Copying B A) → MaybeAddress → Copying B MaybeAddress
unfolding copy_nil copy_pointer
deep_copy cell into = copy_nil (copy_pointer cell into)

-- A method `DeepCopyObject`: the interface is nil where the copy is.
unfoldable pub deep_copy_object :
    {B A : Type 0} → Cell B A → (A → Copying B A) → MaybeAddress → Copying B MaybeAddress
unfolding deep_copy
deep_copy_object cell into source = do
  c ← deep_copy cell into source
  elim c [ none ↦ pure none | some p ↦ pure (some p) ]

module _ (F : Foreign) where
  -- `if in.X != nil { *out = make([]string, len(*in)); copy(*out, *in) }`
  unfoldable pub strings_into : MaybeSlice → Copying (Block F) MaybeSlice
  unfolding copy_nil copy_slice
  strings_into = copy_nil (copy_slice (Blocks.strings_cell F) (λ s. pure s))

  unfoldable pub chain_position_into :
      ChainPositionOf MaybeSlice → Copying (Block F) (ChainPositionOf MaybeSlice)
  unfolding strings_into
  chain_position_into x = do path ← strings_into x.path; pure (record x { path = path })

  unfoldable pub connection_into : Connection → Copying (Block F) Connection
  connection_into x = pure x

  unfoldable pub network_requirements_into :
      NetworkRequirements F.Float → Copying (Block F) (NetworkRequirements F.Float)
  network_requirements_into x = pure x

  unfoldable pub protocol_stack_into :
      ProtocolStackOf MaybeSlice → Copying (Block F) (ProtocolStackOf MaybeSlice)
  unfolding strings_into
  protocol_stack_into x = do
    cu ← strings_into x.cu
    du ← strings_into x.du
    ru ← strings_into x.ru
    pure (record { cu = cu; du = du; ru = ru })

  -- `if in.X != nil { *out = new(NetworkRequirements); **out = **in }`
  unfoldable pub requirements_into : MaybeAddress → Copying (Block F) MaybeAddress
  unfolding copy_nil copy_pointer
  requirements_into = copy_nil (copy_pointer (Blocks.requirements_cell F) (λ r. pure r))

  unfoldable pub disaggregation_into : StoredDisaggregation → Copying (Block F) StoredDisaggregation
  unfolding protocol_stack_into requirements_into
  disaggregation_into x = do
    stack ← protocol_stack_into x.protocol_stack
    backhaul ← requirements_into x.backhaul
    midhaul ← requirements_into x.midhaul
    fronthaul ← requirements_into x.fronthaul
    pure (record {
      protocol_stack = stack;
      backhaul = backhaul;
      midhaul = midhaul;
      fronthaul = fronthaul;
    })

  unfoldable pub link_into : TopologyLink F.Float → Copying (Block F) (TopologyLink F.Float)
  link_into x = pure (record x { source = x.source; destination = x.destination })

  unfoldable pub node_into : NodeOf MaybeSlice → Copying (Block F) (NodeOf MaybeSlice)
  unfolding strings_into
  node_into x = do
    interfaces ← strings_into x.interfaces
    pure (record x { interfaces = interfaces })

  -- A value of the maps of a topology: `if val == nil { … nil } else { new, and the copy }`.
  unfoldable pub topology_into : StoredTopology → Copying (Block F) StoredTopology
  unfolding copy_nil copy_map copy_pointer node_into
  topology_into x = do
    nodes ←
        copy_nil
          (copy_map (Blocks.nodes_cell F) (copy_nil (copy_pointer (Blocks.node_cell F) node_into)))
          x.nodes
    links ←
        copy_nil
          (copy_map (Blocks.links_cell F)
            (copy_nil (copy_pointer (Blocks.link_cell F) (λ l. pure l))))
          x.links
    pure (record { nodes = nodes; links = links })

  unfoldable pub splits_placer_spec_into :
      SplitsPlacerSpecOf MaybeSlice → Copying (Block F) (SplitsPlacerSpecOf MaybeSlice)
  unfolding copy_nil copy_slice copy_pointer chain_position_into
  splits_placer_spec_into x = do
    rus ←
        copy_nil
          (copy_slice (Blocks.positions_cell F)
            (copy_nil (copy_pointer (Blocks.position_cell F) chain_position_into)))
          x.rus
    pure (record x { rus = rus })

  unfoldable pub splits_placer_status_into :
      SplitsPlacerStatusOf MaybeAddress → Copying (Block F) (SplitsPlacerStatusOf MaybeAddress)
  unfolding copy_nil copy_map
  splits_placer_status_into x = do
    bandwidth ← copy_nil (copy_map (Blocks.texts_cell F) (λ text. pure text)) x.remaining_bandwidth
    pure (record x { remaining_bandwidth = bandwidth })

  unfoldable pub split_spec_into : SplitSpec → Copying (Block F) SplitSpec
  split_spec_into x = pure x

  unfoldable pub split_status_into : SplitStatus → Copying (Block F) SplitStatus
  split_status_into x = pure x

  module _ (M : MetaCopies F) where
    open M use {object_meta_into, list_meta_into}

    unfoldable pub split_into : StoredSplit F → Copying (Block F) (StoredSplit F)
    split_into x = do
      meta ← object_meta_into x.object_meta
      pure (record x { object_meta = meta; spec = x.spec; status = x.status })

    unfoldable pub splits_placer_into : StoredPlacer F → Copying (Block F) (StoredPlacer F)
    unfolding splits_placer_spec_into splits_placer_status_into
    splits_placer_into x = do
      meta ← object_meta_into x.object_meta
      spec ← splits_placer_spec_into x.spec
      status ← splits_placer_status_into x.status
      pure (record x { object_meta = meta; spec = spec; status = status })

    unfoldable pub split_list_into : StoredList F → Copying (Block F) (StoredList F)
    unfolding copy_nil copy_slice split_into
    split_list_into x = do
      meta ← list_meta_into x.list_meta
      items ← copy_nil (copy_slice (Blocks.splits_cell F) split_into) x.items
      pure (record x { list_meta = meta; items = items })

    unfoldable pub splits_placer_list_into : StoredList F → Copying (Block F) (StoredList F)
    unfolding copy_nil copy_slice splits_placer_into
    splits_placer_list_into x = do
      meta ← list_meta_into x.list_meta
      items ← copy_nil (copy_slice (Blocks.placers_cell F) splits_placer_into) x.items
      pure (record x { list_meta = meta; items = items })
