-- ===== src/Placement/State.antt =====
-- The data of operator/controllers/algorithm/placement.go.
use oai_k8s.Common.{String, ℕ, List}
use oai_k8s.Common.Dict.{Dict}
use oai_k8s.Api.{Topology, Disaggregation}
use oai_k8s.Utils.{Node, Link, RequestedResources}

-- The nodes and links, which all parts of the algorithm share by pointers. `links` is
-- `remainingBandwidth`: it holds the one `Link` that both ends of a link point to.
pub record Graph (Float Quantity : Type 0) : Type 0 where
  pub nodes : Dict (Node Quantity)
  pub links : Dict (Link Float)

pub record PlacementBfs (Float Quantity : Type 0) : Type 0 where
  pub root : String
  pub topology : Topology Float
  pub disaggregations : Dict (Disaggregation Float)
  pub requested_resources : RequestedResources Quantity
  pub graph : Graph Float Quantity
  pub cache_paths : Dict (List (List String))

pub record Position : Type 0 where
  pub cu_node_name : String
  pub du_node_name : String
  pub path : List String
  pub disaggregation_key : String

-- The orders in which Go's `range` meets the keys of a map, which the language leaves open: for the
-- links of a node, by the index of the unit that is placed and a round of the search, and for the
-- candidate positions of a unit.
pub record Orders : Type 0 where
  pub links : ℕ → ℕ → List String → List String
  pub positions : ℕ → List (ℕ × Position) → List (ℕ × Position)
