-- ===== src/Placer/Defs.antt =====
-- The session of `SplitsPlacerReconciler`, what it is given, and `updateStatus`
-- (operator/controllers/splitsplacer_controller.go).
use oai_k8s.Common.{String, ℕ, Bool, ◌||◌}
use oai_k8s.Common.{◌==◌, if◌then◌else◌}
use oai_k8s.Common.{Result, ok, err, panic, hang, out_of_fuel, Error}
use oai_k8s.Common.{Action, with_context}
use oai_k8s.Common.Dict.{Dict}
use oai_k8s.Extern.{Platform}
use oai_k8s.Api.{ChainPosition, Topology, Disaggregation}
use oai_k8s.Placement.State.{Orders}
use oai_k8s.Cluster.{SplitsPlacer, PlacerClient}

-- ctrl.Result
pub record ReconcileResult : Type 0 where
  pub requeue : Bool
  pub requeue_after : ℕ

-- The world and the object that the reconciler holds a pointer to.
pub record Session (World : Type 0) : Type 0 where
  pub world : World
  pub object : SplitsPlacer

-- What the reconciler takes from elsewhere: the client, encoding/json for the two documents,
-- resource.MustParse, fmt's "%f", the clock, and the orders of `range`.
pub record PlacerEnv (P : Platform) (World : Type 0) : Type 0 where
  pub client : PlacerClient World P.Quantity
  pub parse_topology : String → Result (Topology P.Float)
  pub parse_disaggregations : String → Result (Dict (Disaggregation P.Float))
  pub parse_quantity : String → P.Quantity
  pub format_float : P.Float → String
  pub elapsed : World → String
  -- err.Error()
  pub error_text : Error → String
  pub orders : Orders

-- `ru.CUNode == "" || ru.DUNode == ""`
abbrev pub is_unplaced : ChainPosition → Bool
is_unplaced ru = ru.cu_node == "" || ru.du_node == ""

module _ {P : Platform} {World : Type 0} (env : PlacerEnv P World) where
  open P use {Float, Quantity}
  open env use {
    client, parse_topology, parse_disaggregations, parse_quantity, format_float, elapsed,
    error_text, orders,
  }

  abbrev pub run_client : {A : Type 0} → Action World A → Action (Session World) A
  run_client m s = let (r, w) = m s.world in (r, record s { world = w })

  -- A write of the object, into which the client puts the answer.
  unfoldable pub receive :
      SplitsPlacer → Result SplitsPlacer × World → Result (Unit {0}) × Session World
  receive object (ok object', w) = (ok tt, record { world = w; object = object' })
  receive object (err e, w) = (err e, record { world = w; object = object })
  receive object (panic, w) = (panic, record { world = w; object = object })
  receive object (hang, w) = (hang, record { world = w; object = object })
  receive object (out_of_fuel, w) = (out_of_fuel, record { world = w; object = object })

  unfoldable pub send :
      (SplitsPlacer → Action World SplitsPlacer) → Action (Session World) (Unit {0})
  unfolding receive
  send write s = receive s.object (write s.object s.world)

  abbrev pub emit : String → String → String → Action (Session World) (Unit {0})
  emit kind reason text s =
      (ok tt, record s { world = client.record_event kind reason text s.world })

  -- Also where the call fails the object has the new state.
  unfoldable pub update_status : String → Action (Session World) (Unit {0})
  unfolding send
  update_status desired s =
      let object' = record (s.object) { status = record (s.object.status) { state = desired } } in
      if s.object.status.state == desired
      then (ok tt, s)
      else with_context "error updating splitsplacer status"
          (send client.update_splits_placer_status) (record s { object = object' })
