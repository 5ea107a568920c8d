-- ===== src/Placer/Machine/Stores.antt =====
-- The state that `updateStatus` (operator/controllers/splitsplacer_controller.go) leaves with the API server.
use oai_k8s.Common.{
  String, ◌≡◌, refl, sym, ap, ◌∙◌, subst, Bool, false, ◌==◌, inl, inr, ◌⊎◌, ⊎_elim, ◌≢◌,
  if◌then◌else◌,
}
use oai_k8s.Common.{Result, ok, err, panic, hang, out_of_fuel, with_context}
use oai_k8s.Extern.{Platform}
use oai_k8s.Cluster.{ObjectKey, SplitsPlacer}
use oai_k8s.Placer.Defs.{PlacerEnv, Session, update_status, send, receive}
use oai_k8s.Placer.Reconcile.{try_status}
use oai_k8s.Placer.Machine.Kept.{At}

module _ {P : Platform} {World : Type 0} (env : PlacerEnv P World) where
  open env use {client}

  -- The API server where nobody else writes the object: the answer to an update has its key and state, an update of
  -- the status that is accepted is stored, and events change no object. It may refuse any update.
  pub record StoresStatus : Type 0 where
    pub update_answers :
        (o o' : SplitsPlacer) (w w' : World)
        → client.update_splits_placer o w ≡ (ok o', w')
        → (o'.key ≡ o.key) × (o'.status.state ≡ o.status.state)
    pub status_stored :
        (o o' : SplitsPlacer) (w w' : World)
        → client.update_splits_placer_status o w ≡ (ok o', w')
        → (o'.status.state ≡ o.status.state) × (client.get_splits_placer o.key w' ≡ (ok o', w'))
    pub event_keeps :
        (k : ObjectKey) (o : SplitsPlacer) (kind reason text : String) (w : World)
        → client.get_splits_placer k w ≡ (ok o, w)
        → let w' = client.record_event kind reason text w in
          client.get_splits_placer k w' ≡ (ok o, w')

  -- The server has the object in a state.
  abbrev pub Stored : ObjectKey → String → World → Type 0
  Stored k state w =
      (o : SplitsPlacer) × (client.get_splits_placer k w ≡ (ok o, w)) × (o.status.state ≡ state)

  -- The world `v`, and then nothing but events.
  pub data Behind (v : World) : World → Type 0 where
    here : Behind v v
    noted :
        {w : World} (kind reason text : String)
        → Behind v w
        → Behind v (client.record_event kind reason text w)

  -- The last write was an update of the status to that state, and the server did not accept it.
  pub record Refused (k : ObjectKey) (state : String) (w : World) : Type 0 where
    sent : SplitsPlacer
    before : World
    named : sent.key ≡ k
    state_sent : sent.status.state ≡ state
    failed : (o : SplitsPlacer) → (client.update_splits_placer_status sent before).0 ≢ ok o
    left : Behind (client.update_splits_placer_status sent before).1 w

  -- The state was stored, or the update to it was not accepted, which `Reconcile` only logs.
  abbrev pub Reported : ObjectKey → String → World → Type 0
  Reported k state w = Stored k state w ⊎ Refused k state w

  module _ (K : StoresStatus) (k : ObjectKey) where
    answer-Reported :
        (state : String) (o : SplitsPlacer) (w : World)
        → o.key ≡ k
        → o.status.state ≡ state
        → (x : Result SplitsPlacer × World) → client.update_splits_placer_status o w ≡ x
        → Reported k state (receive env o x).1.world
    unfolding receive
    answer-Reported state o w named is x e = go x e
      where
        refused :
            (r : Result SplitsPlacer) (v : World)
            → ((o' : SplitsPlacer) → r ≢ ok o')
            → client.update_splits_placer_status o w ≡ (r, v)
            → Reported k state v
        refused r v n e = inr (record {
          sent = o;
          before = w;
          named = named;
          state_sent = is;
          failed = λ o' h. n o' (sym (ap (λ y. y.0) e) ∙ h);
          left = subst (Behind (client.update_splits_placer_status o w).1) (ap (λ y. y.1) e) here;
        })

        go :
            (x : Result SplitsPlacer × World)
            → client.update_splits_placer_status o w ≡ x
            → Reported k state (receive env o x).1.world
        go (ok o', w') e =
            let (kept, stored) = K.status_stored o o' w w' e in
            inl
              (o', subst (λ z. client.get_splits_placer z w' ≡ (ok o', w')) named stored, kept ∙ is)
        go (err a, w') e = refused (err a) w' (λ o' h. cc) e
        go (panic, w') e = refused panic w' (λ o' h. cc) e
        go (hang, w') e = refused hang w' (λ o' h. cc) e
        go (out_of_fuel, w') e = refused out_of_fuel w' (λ o' h. cc) e

    pub event-Reported :
        (state kind reason text : String) (w : World)
        → Reported k state w
        → Reported k state (client.record_event kind reason text w)
    event-Reported state kind reason text w =
        ⊎_elim (λ (o, stored, is). inl (o, K.event_keeps k o kind reason text w stored, is))
          (λ r. inr (record {
            sent = r.sent;
            before = r.before;
            named = r.named;
            state_sent = r.state_sent;
            failed = r.failed;
            left = noted kind reason text r.left;
          }))

    pub try_status-Reported :
        (desired : String) (s : Session World)
        → At env k "" s
        → ("" == desired) ≡ false
        → Reported k desired (try_status env desired s).world
    unfolding update_status send receive
    try_status-Reported desired s (named, state) differ =
        let object' = record (s.object) { status = record (s.object.status) { state = desired } } in
        let write = client.update_splits_placer_status in
        let sent =
          with_context "error updating splitsplacer status" (send env write)
            (record s { object = object' }) in
        let answer = write object' s.world in
        let written : try_status env desired s ≡ (receive env object' answer).1 =
          ap (λ (b : Bool). (if b then (ok tt, s) else sent).1)
            (subst (λ x. (x == desired) ≡ false) (sym state) differ) in
        subst (λ (t : Session World). Reported k desired t.world) (sym written)
          (answer-Reported desired object' s.world named refl answer refl)
