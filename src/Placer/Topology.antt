-- ===== src/Placer/Topology.antt =====
-- `syncTopology` and its parts (operator/controllers/splitsplacer_controller.go).
use oai_k8s.Common.{Option, String, ◌-◌, none, some, List, [], ◌∷◌, Bool}
use oai_k8s.Common.{◌==◌, if◌then◌else◌, length, concat_text, get_or_empty}
use oai_k8s.Common.{ok, err, panic, hang, out_of_fuel, Error, message, wrapped}
use oai_k8s.Common.{Action, pure, ◌>>=◌, ◌>>◌, lift, with_context}
use oai_k8s.Common.Dict.{Dict, insert, lookup}
use oai_k8s.Extern.{Platform}
use oai_k8s.Api.{ChainPosition, Topology, Disaggregation, TopologyNode}
use oai_k8s.Utils.{Link, RequestedResources}
use oai_k8s.Utils.NodeList.{NodeMap, node_list_to_map, get}
use oai_k8s.Placement.State.{PlacementBfs}
use oai_k8s.Placement.Build.{new_placement_bfs}
use oai_k8s.Placement.Place.{place}
use oai_k8s.Cluster.{ObjectKey, SplitsPlacer}
use oai_k8s.Cluster.Getters.{get_if_exists}
use oai_k8s.Placer.Defs.{Session, PlacerEnv, is_unplaced, run_client, emit}

abbrev pub operator_namespace : String
operator_namespace = "operator-system"

-- `len(rus) - len(notAllocatedRUs)`
unfoldable pub not_allocated : List ChainPosition → List ChainPosition
not_allocated [] = []
not_allocated (ru ∷ rest) =
    let later = not_allocated rest in if is_unplaced ru then ru ∷ later else later

module _ {P : Platform} {World : Type 0} (env : PlacerEnv P World) where
  open P use {Float, Quantity}
  open env use {
    client, parse_topology, parse_disaggregations, parse_quantity, format_float, elapsed,
    error_text, orders,
  }

  unfoldable pub read_topology : ObjectKey → Action World (Topology Float)
  read_topology key = do
    found ←
        with_context "error getting topology config map"
          (get_if_exists "error getting config map" (client.get_config_map key))
    lift (elim found [
      | none ↦ err (message "topology config map does not exists")
      | some cm ↦ elim (lookup "topology" (get_or_empty cm.content)) [
        | none ↦ err (message "invalid topology config map. Key 'topology' does not exist")
        | some text ↦ wrapped "error unmarshaling topology" (parse_topology text)
      ]
    ])

  -- A missing key reads as the empty text.
  unfoldable pub read_disaggregations_metadata : Action World (Dict (Disaggregation Float))
  read_disaggregations_metadata = do
    found ← with_context "error getting disaggregation config map" (
        get_if_exists "error getting config map" (
          client.get_config_map
            (record { namespace = operator_namespace; name = "operator-disaggregations" })))
    lift (elim found [
      | none ↦ err (message "disaggregation config map not found")
      | some cm ↦ wrapped "error unmarshaling disaggregation config map data" (
          parse_disaggregations
            (elim (lookup "disaggregations" (get_or_empty cm.content)) [ none ↦ "" | some t ↦ t ]))
    ])

  -- The names of the topology that no node of the cluster has.
  unfoldable pub missing_nodes : NodeMap Quantity → Dict (Option TopologyNode) → List Error
  missing_nodes k8s_node_map [] = []
  missing_nodes k8s_node_map ((name, _) ∷ rest) =
      let later = missing_nodes k8s_node_map rest in
      elim (get k8s_node_map name) [
        | none ↦ message (concat_text ("node '" ∷ name ∷ "' does not exist" ∷ [])) ∷ later
        | some k8s_node ↦ later
      ]

  -- The errors; none is the nil slice.
  unfoldable pub validate_topology_nodes : Topology Float → Action World (List Error)
  unfolding missing_nodes get node_list_to_map
  validate_topology_nodes topology w =
      let (r, w') = with_context "error listing nodes" client.list_nodes w in
      elim r [
        | ok nodes ↦ (ok (missing_nodes (node_list_to_map nodes) topology.nodes), w')
        | err e ↦ (ok (e ∷ []), w')
        | panic ↦ (panic, w')
        | hang ↦ (hang, w')
        | out_of_fuel ↦ (out_of_fuel, w')
      ]

  unfoldable pub write_bandwidth : Dict (Link Float) → Dict String → Dict String
  write_bandwidth [] d = d
  write_bandwidth ((k, v) ∷ rest) d =
      write_bandwidth rest (insert k (format_float v.available_bandwidth) d)

  -- The object after the placement, also where that fails.
  unfoldable pub record_placement :
      Dict (Link Float) → List ChainPosition → SplitsPlacer → SplitsPlacer
  unfolding not_allocated write_bandwidth
  record_placement links rus object = record object {
    spec = record (object.spec) { rus = rus };
    status = record (object.status) {
      allocated_rus = length rus - length (not_allocated rus);
      remaining_bandwidth = write_bandwidth links object.status.remaining_bandwidth;
    };
  }

  -- The call of `Place` and what is written behind it, also where it fails.
  unfoldable pub allocate : PlacementBfs Float Quantity → Action (Session World) Bool
  unfolding record_placement
  allocate graph s =
      let (r, g, rus) = place P graph orders s.object.spec.rus in
      (r, record s { object = record_placement g.links rus s.object })

  unfoldable pub place_chains :
      Topology Float → Dict (Disaggregation Float) → Action (Session World) (Unit {0})
  unfolding allocate
  place_chains topology disaggregations = do
    nodes ← run_client env (
        with_context "error listing K8S nodes"
          (with_context "error listing nodes" client.list_nodes))
    let requested : RequestedResources Quantity = record {
      memory = parse_quantity "256Mi";
      cpu = parse_quantity "150m";
    }
    graph ← lift (new_placement_bfs topology disaggregations nodes requested)
    success ← allocate graph
    lift (if success then ok tt else err (message "unable to allocate all RUs"))

  unfoldable pub report_all : List Error → Action (Session World) (Unit {0})
  report_all [] = pure tt
  report_all (e ∷ es) = do emit env "Warning" "InvalidTopologyNode" (error_text e); report_all es

  -- The placement, unless nodes of the topology are missing.
  unfoldable pub unless_invalid : Topology Float → List Error → Action (Session World) (Unit {0})
  unfolding read_disaggregations_metadata place_chains report_all
  unless_invalid topology [] = do
    disaggregations ←
        with_context "error reading disaggregation metadata"
          (run_client env read_disaggregations_metadata)
    with_context "error placing service functions" (place_chains topology disaggregations)
  unless_invalid topology (e ∷ es) = do
    report_all (e ∷ es)
    lift (err (message "error validating topology nodes"))

  -- The part of `syncTopology` behind the test of the name.
  unfoldable pub sync_topology_at : ObjectKey → Action (Session World) (Unit {0})
  unfolding read_topology validate_topology_nodes unless_invalid
  sync_topology_at key = do
    topology ← with_context "error reading topology" (run_client env (read_topology key))
    errors ← run_client env (validate_topology_nodes topology)
    unless_invalid topology errors

  unfoldable pub sync_topology : Action (Session World) (Unit {0})
  unfolding sync_topology_at
  sync_topology s =
      let key : ObjectKey = record {
        namespace = s.object.key.namespace;
        name = s.object.spec.topology_config;
      } in
      if s.object.spec.topology_config == "" then (ok tt, s) else sync_topology_at key s
