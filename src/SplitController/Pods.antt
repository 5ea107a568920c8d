-- ===== src/SplitController/Pods.antt =====
-- `getPod` and `syncStatus`.
use oai_k8s.Common.{
  String, Option, none, some, List, [], ◌∷◌, Bool, true, false, ◌&&◌, ◌==◌, if◌then◌else◌,
}
use oai_k8s.Common.{Result, ok, err, panic, hang, out_of_fuel, message, wrapped, concat_text}
use oai_k8s.Common.{Action, ◌>>=◌, ◌>>◌, lift, with_context}
use oai_k8s.Cluster.{Split, SplitStatus}
use oai_k8s.Cluster.Getters.{get_if_exists}
use oai_k8s.SplitController.Defs.{SplitPiece, cu, du, ru, piece_text, Pod, SplitEnv}

pub record SplitSession (World : Type 0) : Type 0 where
  pub world : World
  pub object : Split

-- What the list of pods that match a piece says.
unfoldable pub only_pod : Option (List Pod) → Result (Option Pod)
only_pod none = ok none
only_pod (some []) = ok none
only_pod (some (pod ∷ [])) = ok (some pod)
only_pod (some (pod ∷ next ∷ rest)) =
    err (message "incorrect number of pods, currently only 1 should be available")

abbrev piece_reason : SplitPiece → String
piece_reason cu = "CU"
piece_reason du = "DU"
piece_reason ru = "RU"

abbrev pub pod_context : SplitPiece → String
pod_context cu = "error getting cu pod"
pod_context du = "error getting du pod"
pod_context ru = "error getting du pod"

-- The fields of the status that belong to a piece.
unfoldable pub set_piece : SplitPiece → Pod → SplitStatus → SplitStatus
set_piece cu pod s = record s { cu_node = pod.node_name; cu_ip = pod.pod_ip }
set_piece du pod s = record s { du_node = pod.node_name; du_ip = pod.pod_ip }
set_piece ru pod s = record s { ru_node = pod.node_name; ru_ip = pod.pod_ip }

abbrev pub is_running : Pod → Bool
is_running pod = pod.phase == "Running"

abbrev pub state_text : Bool → String
state_text true = "Running"
state_text false = "Error"

module _ {World Selector Quantity : Type 0} (env : SplitEnv World Selector Quantity) where
  abbrev pub label_text : Split → SplitPiece → String
  label_text owner split =
      concat_text ("split=" ∷ piece_text split ∷ ",split-owner=" ∷ owner.key.name ∷ [])

  -- `getPod` behind `getCUPod`, `getDUPod` or `getRUPod`; `none` is `false`.
  unfoldable pub get_pod : Split → SplitPiece → Action World (Option Pod)
  unfolding only_pod
  get_pod owner split = with_context (pod_context split) (do
    selector ←
        lift (wrapped "error getting label selector" (env.parse_labels (label_text owner split)))
    pods ← get_if_exists "error getting pods" (env.list_pods owner.key.namespace selector)
    lift (only_pod pods))

  abbrev pub split_client : {A : Type 0} → Action World A → Action (SplitSession World) A
  split_client m s = let (r, w) = m s.world in (r, record s { world = w })

  abbrev pub note_event : String → String → String → Action (SplitSession World) (Unit {0})
  note_event kind reason text s =
      (ok tt, record s { world = env.record_event kind reason text s.world })

  -- What `syncStatus` writes down of one pod, and whether there is no error with it.
  unfoldable pub see_pod : SplitPiece → Option Pod → Action (SplitSession World) Bool
  unfolding set_piece
  see_pod split none s = (ok true, s)
  see_pod split (some pod) s =
      let object' = record (s.object) { status = set_piece split pod s.object.status } in
      let s' : SplitSession World = record s { object = object' } in
      if is_running pod then (ok true, s') else (
        ok false,
        (note_event "Warning" (piece_reason split)
            (concat_text (piece_text split ∷ " pod in state '" ∷ pod.phase ∷ "'" ∷ [])) s').1,
      )

  -- Status().Update, with the object as the server answers.
  unfoldable pub send_status : Action (SplitSession World) (Unit {0})
  send_status s =
      let (r, w) = env.update_split_status s.object s.world in
      elim r [
        | ok object' ↦ (ok tt, record { world = w; object = object' })
        | err e ↦ (err e, record s { world = w })
        | panic ↦ (panic, record s { world = w })
        | hang ↦ (hang, record s { world = w })
        | out_of_fuel ↦ (out_of_fuel, record s { world = w })
      ]

  unfoldable pub look_at : String → SplitPiece → Action (SplitSession World) Bool
  unfolding get_pod see_pod
  look_at context split s =
      (do pod ← with_context context (split_client (get_pod s.object split)); see_pod split pod) s

  -- The state that three looks give.
  abbrev pub conclude : Bool → Bool → Bool → Action (SplitSession World) (Unit {0})
  conclude cu_good du_good ru_good s =
      let state' = state_text (cu_good && du_good && ru_good) in
      let object' = record (s.object) { status = record (s.object.status) { state = state' } } in
      (ok tt, record s { object = object' })

  unfoldable pub observe : Action (SplitSession World) (Unit {0})
  unfolding look_at
  observe = do
    cu_good ← look_at "error getting cu pod" cu
    du_good ← look_at "error getting du pod" du
    ru_good ← look_at "error getting ru pod" ru
    conclude cu_good du_good ru_good

  unfoldable pub sync_status : Action (SplitSession World) (Unit {0})
  unfolding observe send_status
  sync_status = do observe; with_context "error updating status" send_status
