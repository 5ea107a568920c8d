-- ===== src/Copies/Objects.antt =====
-- The resources as they lie in memory (operator/api/v1beta1): the types of splitsplacer_types.go and split_types.go over
-- what stands for their references, and the blocks that addresses hold.
use oai_k8s.Common.{String, Bool, Option}
use oai_k8s.Common.Int.{ℤ}
use oai_k8s.Cluster.{SplitSpec, SplitStatus}
use oai_k8s.Copies.Memory.{Address, Slice}

-- A parameter of a type stands for a reference: a slice, a pointer or a map in memory, and what it refers to in a value.
pub record ChainPositionOf (Nodes : Type 0) : Type 0 where
  pub split_name : String
  pub ru_node : String
  pub cu_node : String
  pub du_node : String
  pub path : Nodes
  pub disaggregation : String

pub record ProtocolStackOf (Stack : Type 0) : Type 0 where
  pub cu : Stack
  pub du : Stack
  pub ru : Stack

pub record DisaggregationOf (Stack Requirements : Type 0) : Type 0 where
  pub protocol_stack : ProtocolStackOf Stack
  pub backhaul : Requirements
  pub midhaul : Requirements
  pub fronthaul : Requirements

pub record NodeOf (Interfaces : Type 0) : Type 0 where
  pub interfaces : Interfaces
  pub core : Bool
  pub hops : ℤ

pub record TopologyOf (Nodes Links : Type 0) : Type 0 where
  pub nodes : Nodes
  pub links : Links

pub record SplitsPlacerSpecOf (Positions : Type 0) : Type 0 where
  pub rus : Positions
  pub core_ip : String
  pub topology_config : String
  pub retrigger : Bool

pub record SplitsPlacerStatusOf (Bandwidth : Type 0) : Type 0 where
  pub state : String
  pub remaining_bandwidth : Bandwidth
  pub allocated_rus : ℤ
  pub allocation_time : String

pub record SplitsPlacerOf (TypeMeta ObjectMeta Positions Bandwidth : Type 0) : Type 0 where
  pub type_meta : TypeMeta
  pub object_meta : ObjectMeta
  pub spec : SplitsPlacerSpecOf Positions
  pub status : SplitsPlacerStatusOf Bandwidth

pub record SplitOf (TypeMeta ObjectMeta : Type 0) : Type 0 where
  pub type_meta : TypeMeta
  pub object_meta : ObjectMeta
  pub spec : SplitSpec
  pub status : SplitStatus

-- SplitList and SplitsPlacerList
pub record ListOf (TypeMeta ListMeta Items : Type 0) : Type 0 where
  pub type_meta : TypeMeta
  pub list_meta : ListMeta
  pub items : Items

-- float32, and the types of k8s.io/apimachinery/pkg/apis/meta/v1, with what else their copies put into memory.
pub record Foreign : Type 1 where
  pub Float : Type 0
  pub TypeMeta : Type 0
  pub ObjectMeta : Type 0
  pub ListMeta : Type 0
  pub Other : Type 0

-- What is nil or a part of an array, and what is nil or at an address.
abbrev pub MaybeSlice : Type 0
MaybeSlice = Option Slice

abbrev pub MaybeAddress : Type 0
MaybeAddress = Option Address

abbrev pub StoredDisaggregation : Type 0
StoredDisaggregation = DisaggregationOf MaybeSlice MaybeAddress

abbrev pub StoredTopology : Type 0
StoredTopology = TopologyOf MaybeAddress MaybeAddress

abbrev pub StoredSplit : Foreign → Type 0
StoredSplit F = SplitOf F.TypeMeta F.ObjectMeta

abbrev pub StoredPlacer : Foreign → Type 0
StoredPlacer F = SplitsPlacerOf F.TypeMeta F.ObjectMeta MaybeSlice MaybeAddress

abbrev pub StoredList : Foreign → Type 0
StoredList F = ListOf F.TypeMeta F.ListMeta MaybeSlice
