-- ===== src/SplitController/Deployments.antt =====
-- `getImageName`, `getContainerPorts`, `getSplitDeployment` and `syncDeployments`.
use oai_k8s.Common.{String, Option, none, some, List, [], ◌∷◌, true, map}
use oai_k8s.Common.{concat_text}
use oai_k8s.Common.{Action, pure, ◌>>=◌, ◌>>◌, with_context}
use oai_k8s.Common.Dict.{Dict}
use oai_k8s.Cluster.{Split}
use oai_k8s.Cluster.Getters.{get_if_exists}
use oai_k8s.SplitController.Defs.{
  SplitPiece, cu, du, ru, piece_text, template_config_map, Port, split_ports, ContainerPort,
  Deployment, SplitEnv, get_split_object_key, get_resource_name,
}

abbrev config_path : String
config_path = "/config"

unfoldable pub get_image_name : (docker_repository : String) → SplitPiece → String
get_image_name repository cu = concat_text (repository ∷ "/" ∷ "lte_softmodem_k8s" ∷ ":1" ∷ [])
get_image_name repository du = concat_text (repository ∷ "/" ∷ "lte_softmodem_k8s" ∷ ":1" ∷ [])
get_image_name repository ru = concat_text (repository ∷ "/" ∷ "ue_softmodem_k8s" ∷ ":1" ∷ [])

-- The node that the split asks for.
abbrev pub node_of : Split → SplitPiece → String
node_of owner cu = owner.spec.cu_node
node_of owner du = owner.spec.du_node
node_of owner ru = owner.spec.ru_node

unfoldable pub pod_labels_of : Split → SplitPiece → Dict String
pod_labels_of owner split = ("split", piece_text split) ∷ ("split-owner", owner.key.name) ∷ []

module _ {World Selector Quantity : Type 0} (env : SplitEnv World Selector Quantity) where
  open env use {
    get_deployment, create_deployment, set_deployment_owner, docker_repository, parse_quantity,
    format_int,
  }

  abbrev container_port_of : Port → ContainerPort
  container_port_of port = record {
    name = concat_text ("port-" ∷ format_int port.number ∷ []);
    container_port = port.number;
    protocol = port.protocol;
  }

  unfoldable pub get_container_ports : SplitPiece → List ContainerPort
  get_container_ports split = map container_port_of (split_ports split)

  unfoldable pub get_split_deployment : Split → SplitPiece → Deployment Quantity
  unfolding get_split_object_key get_resource_name pod_labels_of get_image_name get_container_ports
  get_split_deployment owner split = record {
    key = get_split_object_key owner split;
    owners = [];
    match_labels = pod_labels_of owner split;
    pod_labels = pod_labels_of owner split;
    container = record {
      name = piece_text split;
      image = get_image_name docker_repository split;
      image_pull_policy = "Always";
      volume_mounts =
          ("template", concat_text (config_path ∷ "/template" ∷ []))
          ∷ ("values", concat_text (config_path ∷ "/values" ∷ []))
          ∷ [];
      ports = get_container_ports split;
      capabilities = "NET_ADMIN" ∷ [];
      privileged = true;
      env = ("SplitPiece", piece_text split) ∷ [];
      limits = ("memory", parse_quantity "512Mi") ∷ ("cpu", parse_quantity "500m") ∷ [];
      requests = ("memory", parse_quantity "256Mi") ∷ ("cpu", parse_quantity "150m") ∷ [];
    };
    volumes =
        (record {
          name = "template";
          config_map = template_config_map split;
          item_key = "template";
          item_path = "template.conf";
        })
        ∷ (record {
          name = "values";
          config_map = get_resource_name owner split;
          item_key = "values";
          item_path = "values.yaml";
        })
        ∷ [];
    node_name = node_of owner split;
  }

  unfoldable pub create_owned_deployment : Split → SplitPiece → Action World (Unit {0})
  unfolding get_split_deployment
  create_owned_deployment owner split = do
    deployment ←
        with_context "error setting config map owner reference"
          (set_deployment_owner owner (get_split_deployment owner split))
    with_context "error creating deployment" (create_deployment deployment)

  abbrev pub deploy_unless_exists :
      Split → SplitPiece → Option (Deployment Quantity) → Action World (Unit {0})
  deploy_unless_exists owner split (some deployment) = pure tt
  deploy_unless_exists owner split none = create_owned_deployment owner split

  -- One round of the loop of `syncDeployments`.
  unfoldable pub sync_deployment : Split → SplitPiece → Action World (Unit {0})
  unfolding create_owned_deployment
  sync_deployment owner split =
      with_context "error getting deployment" (
        get_if_exists "error getting deployment"
          (get_deployment (get_split_object_key owner split)))
      >>= deploy_unless_exists owner split

  unfoldable pub sync_deployments : Split → List SplitPiece → Action World (Unit {0})
  unfolding sync_deployment
  sync_deployments owner [] = pure tt
  sync_deployments owner (split ∷ rest) = do
    sync_deployment owner split
    sync_deployments owner rest
