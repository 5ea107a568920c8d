-- ===== src/SplitController/Untouched.antt =====
-- The steps of `Reconcile` of a split that write no config map and no deployment (operator/controllers/split_controller.go).
use oai_k8s.Common.{String, ◌≡◌, sym, ◌∙◌, subst, Option, none, some, Bool, true}
use oai_k8s.Common.{◌>>=◌, with_context, Bool-cases, inl, inr}
use oai_k8s.Common.Contracts.{
  always, Keeps, always-After, Keeps-bind, Keeps-pure, Keeps-with_context,
}
use oai_k8s.Cluster.{ObjectKey, Split}
use oai_k8s.SplitController.Defs.{SplitPiece, cu, du, ru, SplitEnv, Pod, get_split_object_key}
use oai_k8s.SplitController.Pods.{
  SplitSession, split_client, note_event, observe, look_at, see_pod, conclude, get_pod, is_running,
}
use oai_k8s.SplitController.Values.{KeepsConfigMaps, get_pod-keeps}
use oai_k8s.SplitController.Whole.{Provided, SameMaps, SameMaps-Synced}

module _ {World Selector Quantity : Type 0} (env : SplitEnv World Selector Quantity) where
  open env use {
    get_split, update_split_status, get_config_map, get_deployment, record_event, orders,
  }

  -- The config maps and the deployments are those of another world.
  abbrev pub Same : World → World → Type 0
  Same w₀ w =
      SameMaps env w₀ w × ((k : ObjectKey) → (get_deployment k w).0 ≡ (get_deployment k w₀).0)

  -- An event and an update of the status write neither.
  pub record LeavesObjects : Type 0 where
    pub by_event :
        (kind reason text : String) (w : World) → Same w (record_event kind reason text w)
    pub by_status : (o : Split) (w : World) → Same w (update_split_status o w).1

  pub Same-trans : (w₀ w₁ w₂ : World) → Same w₀ w₁ → Same w₁ w₂ → Same w₀ w₂
  Same-trans w₀ w₁ w₂ (a, b) (c, d) = (λ k. c k ∙ a k, λ k. d k ∙ b k)

  pub Same-Provided :
      (owner : Split) (split : SplitPiece) (w w' : World)
      → Same w w'
      → Provided env owner split w
      → Provided env owner split w'
  Same-Provided owner split w w' (maps, deployments) p =
      let (text, v, made, (cm, there, value)) = p.values in
      let (d, deployed) = p.deployment in
      record {
        template = SameMaps-Synced env owner.key.namespace split w w' maps p.template;
        values = (text, v, made, (cm, maps (get_split_object_key owner split) ∙ there, value));
        deployment = (d, deployments (get_split_object_key owner split) ∙ deployed);
      }

  module _ (K : KeepsConfigMaps env) (E : LeavesObjects) (w₀ : World) where
    abbrev pub SameSession : SplitSession World → Type 0
    SameSession s = Same w₀ s.world

    pub note_event-Same :
        (kind reason text : String) (s : SplitSession World)
        → SameSession s
        → SameSession (note_event env kind reason text s).1
    note_event-Same kind reason text s h =
        Same-trans w₀ s.world (record_event kind reason text s.world) h
          (E.by_event kind reason text s.world)

    see_pod-Keeps :
        (split : SplitPiece) (pod : Option Pod) → Keeps (always SameSession) (see_pod env split pod)
    unfolding see_pod
    see_pod-Keeps split none = Keeps-pure (always SameSession) true
    see_pod-Keeps split (some pod) = record {
      at = λ s h. elim (Bool-cases (is_running pod)) [
        | inl t ↦ rw (t, see_pod) h
        | inr f ↦ rw (f, see_pod) (note_event-Same "Warning" _ _ s h)
      ];
    }

    look_at-Keeps :
        (context : String) (split : SplitPiece)
        → Keeps (always SameSession) (look_at env context split)
    unfolding look_at
    look_at-Keeps context split = record {
      at = λ s h.
          let listing = split_client env (get_pod env s.object split) in
          let listed : Keeps (always SameSession) listing = record {
            at = λ t k.
                always-After SameSession (listing t).0 (listing t).1
                  (subst (Same w₀) (sym (get_pod-keeps env K s.object split t.world)) k);
          } in
          (Keeps-bind (always SameSession) (with_context context listing) (see_pod env split)
              (Keeps-with_context (always SameSession) context listing listed)
              (see_pod-Keeps split)).at
            s h;
    }

    pub observe-Keeps : Keeps (always SameSession) (observe env)
    unfolding observe
    observe-Keeps =
        let rest₂ = λ (a b : Bool). look_at env "error getting ru pod" ru >>= conclude env a b in
        let rest₁ = λ (a : Bool). look_at env "error getting du pod" du >>= rest₂ a in
        Keeps-bind (always SameSession) (look_at env "error getting cu pod" cu) rest₁
          (look_at-Keeps "error getting cu pod" cu)
          (λ a.
            Keeps-bind (always SameSession) (look_at env "error getting du pod" du) (rest₂ a)
              (look_at-Keeps "error getting du pod" du)
              (λ b.
                Keeps-bind (always SameSession) (look_at env "error getting ru pod" ru)
                  (conclude env a b) (look_at-Keeps "error getting ru pod" ru)
                  (λ c. record { at = λ s h. h })))
