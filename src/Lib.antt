-- ===== src/Lib.antt =====
-- A model of the operator that places and runs the parts of a 5G radio access network (CU, DU and RU) on
-- the nodes of a Kubernetes cluster, with the theorems that make it correct.
--
-- The program has two reconcilers. The one for SplitsPlacer objects
-- (operator/controllers/splitsplacer_controller.go) reads a topology from a config map, builds a graph of
-- nodes and links (`NewPlacementBFS`), searches the paths from the core to each radio unit
-- (`findPathsTo`), chooses on them a node for the CU and one for the DU with the requirements of
-- disaggregation 8 (operator/controllers/algorithm), and creates a Split object for each unit that has
-- its nodes. The one for Split objects (operator/controllers/split_controller.go) writes the config maps
-- and the deployments of the three pieces of a split, and reports the state of their pods. In each container
-- the replacer (replacer/cmd/main.go) waits until the addresses are in the config map, and fills the
-- configuration of the piece.
--
-- Files and code:
--   Common         names of the mounted libraries, maps (Dict), results and state passing (Results),
--                  integers on the native numbers (Int), membership and lists without repetition,
--                  contracts of actions (Contracts), calls that end (Runs)
--   Extern         what comes from outside the repository and the standard of Go: float32,
--                  resource.Quantity and the queue of go-datastructures, with their documented laws;
--                  Extern/Sample is a concrete instance
--   Api            operator/api/v1beta1/splitsplacer_types.go (topology, requirements, units)
--   Utils          operator/controllers/utils/types.go and NodeListToMap: Links, Nodes, StringSets, NodeList
--   Placement      operator/controllers/algorithm: State (the structs), Build (`NewPlacementBFS`), Paths
--                  (`findPathsTo`), Dsg8 (the first loop of `Validate`), Network (`validateNetwork`), Place
--                  (`Validate`, `AllocateResources`, `Place`, with a module for each thing that is proved of them),
--                  Plan (building the graph and then `Place`, against the topology), Samples (data of
--                  placement_test.go)
--   Cluster        the objects and the API client; Cluster/Getters is operator/controllers/utils/k8s_getters.go
--   Placer         operator/controllers/splitsplacer_controller.go: Defs (`updateStatus`, what it is given), Topology
--                  (`syncTopology`, `place`), Splits (`syncSplits`), Reconcile; proofs in Status, Machine
--                  (the states of the object) and Checked (the check of the topology)
--   SplitController  operator/controllers/split_controller.go and operator/controllers/types.go: Defs, Pods
--                  (`getPod`, `syncStatus`), ConfigMaps, Deployments, Reconcile; proofs in Observed, Deployed,
--                  Values, Templates, Whole (the first steps of `Reconcile` together), Listing (what depends on
--                  the pods only), Again and Steady (one run after another), Untouched (what the status
--                  leaves as it is) and Reconciled (a whole run of `Reconcile`)
--   Replacer       replacer/cmd/main.go; Waits is about its loops, Filled and Fed about the way of the
--                  addresses from the operator to it
--   Copies         operator/api/v1beta1/zz_generated.deepcopy.go: Memory (blocks, pointers, slices and maps), Objects and
--                  Blocks (the resources in memory), Generated (`DeepCopyInto`), Methods (`DeepCopy`,
--                  `DeepCopyObject`), Values (what they stand for); proofs in Separate, Parts, Rules, Deep and Resources
--   Tests          concrete runs
--
-- State. A call that changes something is an `Action`: it takes the state and gives a `Result` with the
-- new state, which stays changed after an error. A result is `ok`, `err`, `panic` (nil pointer, index out
-- of range, write to a nil map), `hang` (a wait that nothing ends) or `out_of_fuel`. The graph is a map of
-- nodes and a map of links: a node's `Links` hold the name of the link that the pointer of the source
-- points to, so that both ends and the map of remaining bandwidth share it, as in the source. The API
-- server, the event recorder and encoding/json are records of operations on an abstract world
-- (`PlacerClient`, `PlacerEnv`, `SplitEnv`).
--
-- Memory. Objects are values, except in Copies, where pointers, slices and maps are addresses of a memory: a copy is a
-- value of its own there only if it shares no block.
--
-- Orders. Go's `range` over a map has no fixed order. A map is a list of entries; loops whose order
-- matters and that run more than once take the order from a parameter (`Orders`, `PieceOrders`), of which
-- theorems ask at most that it is a permutation.
--
-- Fuel. The loops of the replacer have the number of their rounds as fuel, since the source may wait for
-- ever. The search for paths has as fuel the `weight` of the largest number of links of a node
-- and the number of nodes. A path that waits in the queue has no repeated node, and a bound on the walks that can
-- still extend it, summed over the queue, falls in each round; so the fuel is enough on every graph.
--
-- Numbers. `AllocatedRUs` is a difference of lengths that is never negative. float32 is abstract, with the
-- law that what is at least the amount taken does not become negative.
--
-- Not modelled: logging; the texts of error messages beyond their fixed parts, as where they print an
-- object's key; main.go and `SetupWithManager` (registration with controller-runtime); vendored packages. The paths'
-- cache `cachePaths` is never written by the source; the model keeps its lookup.
-- The units of a placer are not nil: the CRD (operator/config/crd/bases) asks for an object in each item of
-- `rus`. The nodes and links of a topology come from a config map that nothing checks, and may be nil.
pub mod Common
pub mod Extern
pub mod Api
pub mod Utils
pub mod Placement
pub mod Cluster
pub mod Copies
pub mod Placer
pub mod SplitController
pub mod Replacer
pub mod Tests
