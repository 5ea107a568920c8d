-- ===== src/SplitController/Defs.antt =====
-- The pieces of a split, the objects that are made for them, and what the reconciler is given.
-- operator/controllers/types.go and the top of operator/controllers/split_controller.go.
use oai_k8s.Common.{String, ℕ, List, [], ◌∷◌, Bool, Action, Result, Error}
use oai_k8s.Common.{concat_text}
use oai_k8s.Common.Dict.{Dict}
use oai_k8s.Cluster.{ObjectKey, ConfigMap, Split}

-- The keys of `Splits`; `SplitPiece` is a string, and only these three values are ever used.
pub data SplitPiece : Type 0 where
  cu du ru : SplitPiece

abbrev pub piece_text : SplitPiece → String
piece_text cu = "cu"
piece_text du = "du"
piece_text ru = "ru"

-- `TemplateConfigMaps`
abbrev pub template_config_map : SplitPiece → String
template_config_map cu = "operator-cu-template"
template_config_map du = "operator-du-template"
template_config_map ru = "operator-ru-template"

pub record Port : Type 0 where
  pub number : ℕ
  pub protocol : String

abbrev udp : ℕ → Port
udp n = record { number = n; protocol = "UDP" }

abbrev tcp : ℕ → Port
tcp n = record { number = n; protocol = "TCP" }

abbrev pub split_ports : SplitPiece → List Port
split_ports cu = udp 501 ∷ udp 601 ∷ udp 2152 ∷ udp 36412 ∷ udp 36422 ∷ udp 30923 ∷ tcp 37659 ∷ []
split_ports du = udp 500 ∷ udp 600 ∷ udp 30923 ∷ udp 34878 ∷ tcp 45501 ∷ udp 50001 ∷ udp 50011 ∷ []
split_ports ru =
    udp 8888 ∷ udp 9999 ∷ udp 10000 ∷ udp 32123 ∷ tcp 38927 ∷ udp 50000 ∷ udp 50010 ∷ udp 58363 ∷ []

-- v1.Pod, with the fields that are read.
pub record Pod : Type 0 where
  pub node_name : String
  pub pod_ip : String
  pub phase : String

pub record ContainerPort : Type 0 where
  pub name : String
  pub container_port : ℕ
  pub protocol : String

pub record Container (Quantity : Type 0) : Type 0 where
  pub name : String
  pub image : String
  pub image_pull_policy : String
  pub volume_mounts : Dict String
  pub ports : List ContainerPort
  pub capabilities : List String
  pub privileged : Bool
  pub env : Dict String
  pub limits : Dict Quantity
  pub requests : Dict Quantity

pub record Volume : Type 0 where
  pub name : String
  pub config_map : String
  pub item_key : String
  pub item_path : String

pub record Deployment (Quantity : Type 0) : Type 0 where
  pub key : ObjectKey
  pub owners : List String
  pub match_labels : Dict String
  pub pod_labels : Dict String
  pub container : Container Quantity
  pub volumes : List Volume
  pub node_name : String

-- The orders in which `range` meets the pieces, in the three loops.
pub record PieceOrders : Type 0 where
  pub templates : List SplitPiece
  pub values : List SplitPiece
  pub deployments : List SplitPiece

-- The client, labels.Parse, the environment variable DOCKER_REPOSITORY, resource.MustParse and
-- fmt's "%d".
pub record SplitEnv (World Selector Quantity : Type 0) : Type 0 where
  pub get_split : ObjectKey → Action World Split
  pub update_split_status : Split → Action World Split
  pub get_config_map : ObjectKey → Action World ConfigMap
  pub create_config_map : ConfigMap → Action World (Unit {0})
  pub update_config_map : ConfigMap → Action World (Unit {0})
  pub set_config_map_owner : Split → ConfigMap → Action World ConfigMap
  pub get_deployment : ObjectKey → Action World (Deployment Quantity)
  pub create_deployment : Deployment Quantity → Action World (Unit {0})
  pub set_deployment_owner : Split → Deployment Quantity → Action World (Deployment Quantity)
  pub list_pods : (namespace : String) → Selector → Action World (List Pod)
  pub record_event : (kind reason text : String) → World → World
  pub parse_labels : String → Result Selector
  pub docker_repository : String
  pub parse_quantity : String → Quantity
  pub format_int : ℕ → String
  -- err.Error()
  pub error_text : Error → String
  pub orders : PieceOrders

-- `getResourceName`
unfoldable pub get_resource_name : Split → SplitPiece → String
get_resource_name owner split = concat_text (piece_text split ∷ "-" ∷ owner.key.name ∷ [])

-- `getSplitObjectKey`
unfoldable pub get_split_object_key : Split → SplitPiece → ObjectKey
unfolding get_resource_name
get_split_object_key owner split = record {
  namespace = owner.key.namespace;
  name = get_resource_name owner split;
}
