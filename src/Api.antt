-- ===== src/Api.antt =====
-- operator/api/v1beta1: the resources of the two operators and the description of a topology.
use oai_k8s.Common.{String, Bool, Option, List}
use oai_k8s.Common.Dict.{Dict}
use oai_k8s.Common.Int.{ℤ}

-- splitsplacer_types.go
pub record ChainPosition : Type 0 where
  pub split_name : String
  pub ru_node : String
  pub cu_node : String
  pub du_node : String
  pub path : List String
  pub disaggregation : String

pub record Connection : Type 0 where
  pub node : String
  pub interface : String

pub record TopologyNode : Type 0 where
  pub interfaces : List String
  pub core : Bool
  pub hops : ℤ

pub record TopologyLink (Float : Type 0) : Type 0 where
  pub link_capacity : Float
  pub link_delay : Float
  pub source : Connection
  pub destination : Connection

-- The nodes and the links are pointers.
pub record Topology (Float : Type 0) : Type 0 where
  pub nodes : Dict (Option TopologyNode)
  pub links : Dict (Option (TopologyLink Float))

pub record NetworkRequirements (Float : Type 0) : Type 0 where
  pub latency : Float
  pub bandwidth : Float

pub record ProtocolStack : Type 0 where
  pub cu : List String
  pub du : List String
  pub ru : List String

-- The three requirements are pointers.
pub record Disaggregation (Float : Type 0) : Type 0 where
  pub protocol_stack : ProtocolStack
  pub backhaul : Option (NetworkRequirements Float)
  pub midhaul : Option (NetworkRequirements Float)
  pub fronthaul : Option (NetworkRequirements Float)
