-- ===== src/Cluster.antt =====
-- The objects that the controllers read and write, and the Kubernetes API client
-- (sigs.k8s.io/controller-runtime/pkg/client), which is a parameter: each call may change the world
-- or fail, with `not_found` for an object that is missing.
pub mod Getters
use oai_k8s.Common.{String, ℕ, Bool, Option, List, Action}
use oai_k8s.Common.Dict.{Dict}
use oai_k8s.Api.{ChainPosition}
use oai_k8s.Utils.NodeList.{K8sNode}

-- types.NamespacedName
pub record ObjectKey : Type 0 where
  pub namespace : String
  pub name : String

-- A nil map of data is `none`.
pub record ConfigMap : Type 0 where
  pub key : ObjectKey
  pub owners : List String
  pub content : Option (Dict String)

-- operator/api/v1beta1/split_types.go
pub record SplitSpec : Type 0 where
  pub core_ip : String
  pub ru_node : String
  pub du_node : String
  pub cu_node : String

pub record SplitStatus : Type 0 where
  pub cu_node : String
  pub cu_ip : String
  pub du_node : String
  pub du_ip : String
  pub ru_node : String
  pub ru_ip : String
  pub state : String

pub record Split : Type 0 where
  pub key : ObjectKey
  pub owners : List String
  pub spec : SplitSpec
  pub status : SplitStatus

-- operator/api/v1beta1/splitsplacer_types.go
pub record SplitsPlacerSpec : Type 0 where
  pub rus : List ChainPosition
  pub core_ip : String
  pub topology_config : String
  pub retrigger : Bool

-- A nil map of bandwidths is the empty one: only its entries are ever read.
pub record SplitsPlacerStatus : Type 0 where
  pub state : String
  pub remaining_bandwidth : Dict String
  pub allocated_rus : ℕ
  pub allocation_time : String

pub record SplitsPlacer : Type 0 where
  pub key : ObjectKey
  pub spec : SplitsPlacerSpec
  pub status : SplitsPlacerStatus

pub record PlacerClient (World Quantity : Type 0) : Type 0 where
  pub get_splits_placer : ObjectKey → Action World SplitsPlacer
  -- Update and Status().Update, with the object as the server answers
  pub update_splits_placer : SplitsPlacer → Action World SplitsPlacer
  pub update_splits_placer_status : SplitsPlacer → Action World SplitsPlacer
  pub get_config_map : ObjectKey → Action World ConfigMap
  pub list_nodes : Action World (List (K8sNode Quantity))
  pub get_split : ObjectKey → Action World Split
  pub create_split : Split → Action World (Unit {0})
  -- ctrl.SetControllerReference, on the owners of the controlled object
  pub set_split_owner : SplitsPlacer → Split → Action World Split
  -- Recorder.Event
  pub record_event : (kind reason text : String) → World → World
