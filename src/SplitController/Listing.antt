-- ===== src/SplitController/Listing.antt =====
-- What the pods that are listed decide (operator/controllers/split_controller.go): the contents of the config maps, and
-- what leaves them as they are.
use oai_k8s.Common.{String, ◌≡◌, refl, ap, sym, ◌∙◌, Option, none, some, List, [], ◌∷◌}
use oai_k8s.Common.{
  Result, ok, err, panic, hang, out_of_fuel, Action, ◌>>=◌, >>=-keeps, with_context, pure, lift,
  wrapped,
}
use oai_k8s.Common.Contracts.{
  always, Keeps, always-After, keeps_rules, Keeps-pure, Keeps-bind, Keeps-with_context,
}
use oai_k8s.Cluster.{ObjectKey, ConfigMap, Split}
use oai_k8s.Cluster.Getters.{get_if_exists, absent_or}
use oai_k8s.SplitController.Defs.{
  SplitPiece, cu, du, ru, Deployment, SplitEnv, get_split_object_key,
}
use oai_k8s.SplitController.Pods.{get_pod, only_pod, label_text}
use oai_k8s.SplitController.ConfigMaps.{
  address, pod_address, get_config_map_content, put_values, sync_value,
}
use oai_k8s.SplitController.Deployments.{
  create_owned_deployment, deploy_unless_exists, sync_deployment, sync_deployments,
}
use oai_k8s.SplitController.Values.{KeepsConfigMaps}

module _ {World Selector Quantity : Type 0} (env : SplitEnv World Selector Quantity) where
  open env use {
    get_config_map, create_config_map, update_config_map, set_config_map_owner, list_pods,
    get_deployment, create_deployment, set_deployment_owner,
  }

  -- The pods are those of another world.
  abbrev pub SamePods : World → World → Type 0
  SamePods w₀ w = (n : String) (s : Selector) → (list_pods n s w).0 ≡ (list_pods n s w₀).0

  -- A call that leaves the pods alone.
  abbrev pub LeavesPods : {A : Type 0} → Action World A → Type 0
  LeavesPods m = (w : World) → SamePods w (m w).1

  -- Pods come and go by themselves: no call of the reconciler changes them at once.
  pub record KeepsPods : Type 0 where
    pub by_get_map : (k : ObjectKey) → LeavesPods (get_config_map k)
    pub by_create_map : (cm : ConfigMap) → LeavesPods (create_config_map cm)
    pub by_update_map : (cm : ConfigMap) → LeavesPods (update_config_map cm)
    pub by_map_owner : (o : Split) (cm : ConfigMap) → LeavesPods (set_config_map_owner o cm)
    pub by_get : (k : ObjectKey) → LeavesPods (get_deployment k)
    pub by_create : (d : Deployment Quantity) → LeavesPods (create_deployment d)
    pub by_owner : (o : Split) (d : Deployment Quantity) → LeavesPods (set_deployment_owner o d)

  -- A call that only looks at the pods.
  record Looks {A : Type 0} (m : Action World A) : Type 0 where
    reads : (w : World) → (m w).1 ≡ w
    alike : (w w' : World) → SamePods w w' → (m w').0 ≡ (m w).0

  Looks-pure : {A : Type 0} (a : A) → Looks (pure a)
  Looks-pure a = record { reads = λ w. refl; alike = λ w w' h. refl }

  Looks-lift : {A : Type 0} (r : Result A) → Looks (lift r)
  Looks-lift r = record { reads = λ w. refl; alike = λ w w' h. refl }

  Looks-with_context :
      {A : Type 0} (c : String) (m : Action World A) → Looks m → Looks (with_context c m)
  Looks-with_context c m l = record {
    reads = l.reads;
    alike = λ w w' h. ap (wrapped c) (l.alike w w' h);
  }

  bind_alike :
      {A B : Type 0} (r : Result A) (f : A → Action World B) (w w' : World)
      → ((a : A) → (f a w').0 ≡ (f a w).0)
      → (◌>>=◌ (lift r) f w').0 ≡ (◌>>=◌ (lift r) f w).0
  bind_alike (ok a) f w w' h = h a
  bind_alike (err e) f w w' h = refl
  bind_alike panic f w w' h = refl
  bind_alike hang f w w' h = refl
  bind_alike out_of_fuel f w w' h = refl

  bind_reads :
      {A B : Type 0} (m : Action World A) (f : A → Action World B) (w : World)
      → (m w).1 ≡ w
      → (◌>>=◌ m f w).0 ≡ (◌>>=◌ (lift (m w).0) f w).0
  bind_reads m f w h = ap (λ x. (◌>>=◌ (λ _. ((m w).0, x)) f w).0) h

  Looks-bind :
      {A B : Type 0} (m : Action World A) (f : A → Action World B)
      → Looks m
      → ((a : A) → Looks (f a))
      → Looks (m >>= f)
  Looks-bind m f l k = record {
    reads = λ w. >>=-keeps m f w (l.reads w) (λ a. (k a).reads w);
    alike = λ w w' h.
        bind_reads m f w' (l.reads w')
        ∙ ap (λ r. (◌>>=◌ (lift r) f w').0) (l.alike w w' h)
        ∙ bind_alike (m w).0 f w w' (λ a. (k a).alike w w' h)
        ∙ sym (bind_reads m f w (l.reads w));
  }

  ruleset looks_rules = (Looks-pure, Looks-lift, Looks-with_context, Looks-bind)

  module _ (K : KeepsConfigMaps env) where
    Looks-list :
        (n : String) (s : Selector) → Looks (get_if_exists "error getting pods" (list_pods n s))
    Looks-list n s = record {
      reads = K.list_reads n s;
      alike = λ w w' h. ap (absent_or "error getting pods") (h n s);
    }

    get_pod-Looks : (owner : Split) (split : SplitPiece) → Looks (get_pod env owner split)
    unfolding get_pod
    get_pod-Looks owner split =
        let parsed = lift (
          wrapped "error getting label selector" (env.parse_labels (label_text env owner split))) in
        let pods_of = λ (selector : Selector).
          get_if_exists "error getting pods" (list_pods owner.key.namespace selector) in
        Looks-with_context _
          (parsed >>= λ selector. pods_of selector >>= λ pods. lift (only_pod pods))
          (Looks-bind parsed (λ selector. pods_of selector >>= λ pods. lift (only_pod pods))
            (Looks-lift _)
            (λ selector.
              Looks-bind (pods_of selector) (λ pods. lift (only_pod pods))
                (Looks-list owner.key.namespace selector) (λ pods. Looks-lift (only_pod pods))))

    address-Looks :
        (c : String) (owner : Split) (split : SplitPiece) → Looks (address env c owner split)
    unfolding address
    address-Looks c owner split =
        Looks-bind (with_context c (get_pod env owner split)) (λ pod. pure (pod_address pod))
          (Looks-with_context c (get_pod env owner split) (get_pod-Looks owner split))
          (λ pod. Looks-pure (pod_address pod))

    content-Looks :
        (split : SplitPiece) (owner : Split) → Looks (get_config_map_content env split owner)
    unfolding get_config_map_content
    content-Looks cu owner = search (looks_rules, address-Looks)
    content-Looks du owner = search (looks_rules, address-Looks)
    content-Looks ru owner = search (looks_rules, address-Looks)

    -- The content that is computed for a piece depends on the pods only.
    pub content-same :
        (split : SplitPiece) (owner : Split) (w w' : World)
        → SamePods w w'
        → (get_config_map_content env split owner w').0
          ≡ (get_config_map_content env split owner w).0
    content-same split owner = (content-Looks split owner).alike

    module _ (P : KeepsPods) (w₀ : World) where
      leaves : {A : Type 0} (m : Action World A) → LeavesPods m → Keeps (always (SamePods w₀)) m
      leaves m l = record {
        at = λ w h. always-After (SamePods w₀) (m w).0 (m w).1 (λ n s. l w n s ∙ h n s);
      }

      reading : {A : Type 0} (m : Action World A) → Looks m → Keeps (always (SamePods w₀)) m
      reading m l = leaves m (λ w n s. ap (λ x. (list_pods n s x).0) (l.reads w))

      put_values-Keeps :
          (owner : Split) (key : ObjectKey) (text : String) (found : Option ConfigMap)
          → Keeps (always (SamePods w₀)) (put_values env owner key text found)
      unfolding put_values
      put_values-Keeps owner key text (some cm) = search (keeps_rules, leaves, P.by_update_map)
      put_values-Keeps owner key text none =
          search (keeps_rules, leaves, P.by_map_owner, P.by_create_map)

      pub sync_value-Keeps :
          (owner : Split) (split : SplitPiece)
          → Keeps (always (SamePods w₀)) (sync_value env owner split)
      unfolding sync_value
      sync_value-Keeps owner split =
          let key = get_split_object_key owner split in
          let fetch = get_if_exists "error getting config map" (get_config_map key) in
          let content = get_config_map_content env split owner in
          let filled = with_context "error getting config map content" content in
          Keeps-bind (always (SamePods w₀)) (with_context "error getting config map" fetch)
            (λ found. filled >>= λ text. put_values env owner key text found)
            (Keeps-with_context (always (SamePods w₀)) "error getting config map" fetch
              (leaves fetch (P.by_get_map key)))
            (λ found.
              Keeps-bind (always (SamePods w₀)) filled (λ text. put_values env owner key text found)
                (Keeps-with_context (always (SamePods w₀)) "error getting config map content"
                  content (reading content (content-Looks split owner)))
                (λ text. put_values-Keeps owner key text found))

      deploy_unless_exists-Keeps :
          (owner : Split) (split : SplitPiece) (found : Option (Deployment Quantity))
          → Keeps (always (SamePods w₀)) (deploy_unless_exists env owner split found)
      unfolding create_owned_deployment
      deploy_unless_exists-Keeps owner split (some d) = Keeps-pure (always (SamePods w₀)) tt
      deploy_unless_exists-Keeps owner split none =
          search (keeps_rules, leaves, P.by_owner, P.by_create)

      sync_deployment-Keeps :
          (owner : Split) (split : SplitPiece)
          → Keeps (always (SamePods w₀)) (sync_deployment env owner split)
      unfolding sync_deployment
      sync_deployment-Keeps owner split =
          let fetch =
            get_if_exists "error getting deployment"
              (get_deployment (get_split_object_key owner split)) in
          Keeps-bind (always (SamePods w₀)) (with_context "error getting deployment" fetch)
            (deploy_unless_exists env owner split)
            (Keeps-with_context (always (SamePods w₀)) "error getting deployment" fetch
              (leaves fetch (P.by_get (get_split_object_key owner split))))
            (deploy_unless_exists-Keeps owner split)

      pub sync_deployments-Keeps :
          (owner : Split) (pieces : List SplitPiece)
          → Keeps (always (SamePods w₀)) (sync_deployments env owner pieces)
      unfolding sync_deployments
      sync_deployments-Keeps owner [] = Keeps-pure (always (SamePods w₀)) tt
      sync_deployments-Keeps owner (split ∷ rest) =
          Keeps-bind (always (SamePods w₀)) (sync_deployment env owner split)
            (λ _. sync_deployments env owner rest) (sync_deployment-Keeps owner split)
            (λ _. sync_deployments-Keeps owner rest)
