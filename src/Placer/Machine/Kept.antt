-- ===== src/Placer/Machine/Kept.antt =====
-- `syncTopology` (operator/controllers/splitsplacer_controller.go) keeps the state of the object.
use oai_k8s.Common.{String, ◌≡◌, List, [], ◌∷◌, ◌==◌, Bool-cases, inl, inr}
use oai_k8s.Common.{Error, Action}
use oai_k8s.Common.Contracts.{always, Keeps, always-After, keeps_rules, Keeps-bind}
use oai_k8s.Common.Dict.{Dict}
use oai_k8s.Extern.{Platform}
use oai_k8s.Api.{Topology, Disaggregation}
use oai_k8s.Placement.State.{PlacementBfs}
use oai_k8s.Cluster.{ObjectKey}
use oai_k8s.Placer.Defs.{PlacerEnv, Session, run_client, emit}
use oai_k8s.Placer.Topology.{
  report_all, allocate, unless_invalid, sync_topology_at, sync_topology, place_chains,
  record_placement,
}

module _ {P : Platform} {World : Type 0} (env : PlacerEnv P World) where
  open env use {client}

  -- The object that is reconciled, in a state.
  abbrev pub At : ObjectKey → String → Session World → Type 0
  At key state s = (s.object.key ≡ key) × (s.object.status.state ≡ state)

  run_client-Keeps :
      {A : Type 0} (k : ObjectKey) (state : String) (m : Action World A)
      → Keeps (always (At k state)) (run_client env m)
  run_client-Keeps k state m = record {
    at = λ s h. always-After (At k state) (run_client env m s).0 (run_client env m s).1 h;
  }

  emit-Keeps :
      (k : ObjectKey) (state kind reason text : String)
      → Keeps (always (At k state)) (emit env kind reason text)
  emit-Keeps k state kind reason text = record { at = λ s h. h }

  report_all-Keeps :
      (k : ObjectKey) (state : String) (errors : List Error)
      → Keeps (always (At k state)) (report_all env errors)
  unfolding report_all
  report_all-Keeps k state [] = search keeps_rules
  report_all-Keeps k state (e ∷ es) =
      Keeps-bind (always (At k state)) (emit env "Warning" "InvalidTopologyNode" (env.error_text e))
        (λ _. report_all env es)
        (emit-Keeps k state "Warning" "InvalidTopologyNode" (env.error_text e))
        (λ _. report_all-Keeps k state es)

  allocate-Keeps :
      (k : ObjectKey) (state : String) (graph : PlacementBfs P.Float P.Quantity)
      → Keeps (always (At k state)) (allocate env graph)
  unfolding allocate record_placement
  allocate-Keeps k state graph = record {
    at = λ s h. always-After (At k state) (allocate env graph s).0 (allocate env graph s).1 h;
  }

  place_chains-Keeps :
      (k : ObjectKey) (state : String) (topology : Topology P.Float)
      (disaggregations : Dict (Disaggregation P.Float))
      → Keeps (always (At k state)) (place_chains env topology disaggregations)
  unfolding place_chains
  place_chains-Keeps k state topology disaggregations =
      search (keeps_rules, run_client-Keeps k state, allocate-Keeps k state)

  unless_invalid-Keeps :
      (k : ObjectKey) (state : String) (topology : Topology P.Float) (errors : List Error)
      → Keeps (always (At k state)) (unless_invalid env topology errors)
  unfolding unless_invalid
  unless_invalid-Keeps k state topology [] =
      search (keeps_rules, run_client-Keeps k state, place_chains-Keeps k state topology)
  unless_invalid-Keeps k state topology (e ∷ es) = search (keeps_rules, report_all-Keeps k state)

  sync_topology_at-Keeps :
      (k : ObjectKey) (state : String) (key : ObjectKey)
      → Keeps (always (At k state)) (sync_topology_at env key)
  unfolding sync_topology_at
  sync_topology_at-Keeps k state key =
      search (keeps_rules, run_client-Keeps k state, unless_invalid-Keeps k state)

  pub sync_topology-Keeps :
      (k : ObjectKey) (state : String) → Keeps (always (At k state)) (sync_topology env)
  unfolding sync_topology
  sync_topology-Keeps k state = record {
    at = λ s h.
        let key : ObjectKey = record {
          namespace = s.object.key.namespace;
          name = s.object.spec.topology_config;
        } in
        elim (Bool-cases (s.object.spec.topology_config == "")) [
          | inl t ↦ rw t h
          | inr f ↦ rw f ((sync_topology_at-Keeps k state key).at s h)
        ];
  }
