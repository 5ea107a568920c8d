-- ===== src/Utils.antt =====
-- operator/controllers/utils/types.go: nodes and links of the placement graph and what they can
-- still carry.
pub mod Links
pub mod Nodes
pub mod NodeList
pub mod StringSets
use oai_k8s.Common.{String}
use oai_k8s.Common.Dict.{Dict}

pub record RequestedResources (Quantity : Type 0) : Type 0 where
  pub memory : Quantity
  pub cpu : Quantity

pub record Resources (Quantity : Type 0) : Type 0 where
  pub memory : Quantity
  pub memory_available : Quantity
  pub cpu : Quantity
  pub cpu_available : Quantity

-- A `*Link` is the name of the link, which is its key in the map of all links.
pub record Node (Quantity : Type 0) : Type 0 where
  pub node_name : String
  pub links : Dict String
  pub resources : Resources Quantity

pub record Link (Float : Type 0) : Type 0 where
  pub link_name : String
  pub available_bandwidth : Float
  pub latency : Float
