-- ===== src/SplitController/Again.antt =====
-- A step of `Reconcile` of a split that finds its objects in order writes nothing (operator/controllers/split_controller.go).
use oai_k8s.Common.{String, ◌≡◌, refl, ap, sym, ◌∙◌, some, List, [], ◌∷◌, true, ◌==◌, arith, Memᴰ}
use oai_k8s.Common.{ok, ◌>>=◌, >>=-ok, with_context, concat_text, wrapped}
use oai_k8s.Cluster.{ObjectKey, Split}
use oai_k8s.Cluster.Getters.{get_if_exists, absent_or}
use oai_k8s.SplitController.Defs.{SplitPiece, template_config_map, SplitEnv, get_split_object_key}
use oai_k8s.SplitController.ConfigMaps.{
  operator_key, value_of, operator_template, template_of, put_template, put_values, sync_template,
  sync_templates, get_config_map_content, sync_value, sync_values,
}
use oai_k8s.SplitController.Deployments.{deploy_unless_exists, sync_deployment, sync_deployments}
use oai_k8s.SplitController.Templates.{Synced}
use oai_k8s.SplitController.Values.{KeepsConfigMaps, Holds, content-keeps}
use oai_k8s.SplitController.Deployed.{KeepsDeployments, Deployed}
use oai_k8s.SplitController.Listing.{SamePods, content-same}

test_of_eq : (a b : String) → a ≡ b → (a == b) ≡ true
test_of_eq a b e = ground (arith, e)

-- A call by its two results.
both : {A B : Type 0} (p : A × B) {a : A} {b : B} → p.0 ≡ a → p.1 ≡ b → p ≡ (a, b)
both p e f = λ i. (e i, f i)

module _ {World Selector Quantity : Type 0} (env : SplitEnv World Selector Quantity) where
  open env use {get_config_map, get_deployment}

  -- The config map of a piece holds the content of the pods that there are.
  pub record Current (owner : Split) (split : SplitPiece) (w : World) : Type 0 where
    pub text : String
    pub made : (get_config_map_content env split owner w).0 ≡ ok text
    pub held : Holds env (get_split_object_key owner split) text w

  module _ (K : KeepsConfigMaps env) where
    sync_template-again :
        (namespace : String) (split : SplitPiece) (w : World)
        → Synced env namespace split w
        → sync_template env namespace split w ≡ (ok tt, w)
    unfolding sync_template operator_template put_template template_of
    sync_template-again namespace split w s =
        let name = template_config_map split in
        let key : ObjectKey = record { namespace = namespace; name = name } in
        let context =
          concat_text
            ("error getting template config map " ∷ name ∷ " from the operator namespace" ∷ []) in
        let text = value_of "template" s.source in
        let fetch =
          with_context "error getting config map"
            (get_if_exists "error getting config map" (get_config_map key)) in
        let first : operator_template env name w ≡ (ok text, w) =
          ap (λ p. template_of env context (absent_or "error getting config map" p.0, p.1))
            (both (get_config_map (operator_key env name) w) s.shipped
              (K.get_reads (operator_key env name) w)) in
        let second : fetch w ≡ (ok (some s.target), w) =
          ap
            (λ p.
              (wrapped "error getting config map" (absent_or "error getting config map" p.0), p.1))
            (both (get_config_map key w) s.copied (K.get_reads key w)) in
        >>=-ok (operator_template env name) (λ t. fetch >>= put_template env key t) w first
        ∙ >>=-ok fetch (put_template env key text) w second
        ∙ rw (test_of_eq (value_of "template" s.target) text s.same) refl

    sync_value-again :
        (owner : Split) (split : SplitPiece) (w : World)
        → Current owner split w
        → sync_value env owner split w ≡ (ok tt, w)
    unfolding sync_value put_values
    sync_value-again owner split w c =
        let key = get_split_object_key owner split in
        let fetch =
          with_context "error getting config map"
            (get_if_exists "error getting config map" (get_config_map key)) in
        let content =
          with_context "error getting config map content"
            (get_config_map_content env split owner) in
        let (cm, there, value) = c.held in
        let first : fetch w ≡ (ok (some cm), w) =
          ap
            (λ p.
              (wrapped "error getting config map" (absent_or "error getting config map" p.0), p.1))
            (both (get_config_map key w) there (K.get_reads key w)) in
        let second : content w ≡ (ok c.text, w) =
          ap (λ p. (wrapped "error getting config map content" p.0, p.1))
            (both (get_config_map_content env split owner w) c.made
              (content-keeps env K owner split w)) in
        >>=-ok fetch (λ found. content >>= λ text. put_values env owner key text found) w first
        ∙ >>=-ok content (λ text. put_values env owner key text (some cm)) w second
        ∙ rw (test_of_eq c.text (value_of "values" cm) (sym value)) refl

  sync_deployment-again :
      (D : KeepsDeployments env) (owner : Split) (split : SplitPiece) (w : World)
      → Deployed env (get_split_object_key owner split) w
      → sync_deployment env owner split w ≡ (ok tt, w)
  unfolding sync_deployment
  sync_deployment-again D owner split w (d, there) =
      let key = get_split_object_key owner split in
      let fetch =
        with_context "error getting deployment"
          (get_if_exists "error getting deployment" (get_deployment key)) in
      let first : fetch w ≡ (ok (some d), w) =
        ap
          (λ p.
            (wrapped "error getting deployment" (absent_or "error getting deployment" p.0), p.1))
          (both (get_deployment key w) there (D.get_reads key w)) in
      >>=-ok fetch (deploy_unless_exists env owner split) w first

  pub sync_deployments-again :
      (D : KeepsDeployments env) (owner : Split) (pieces : List SplitPiece) (w : World)
      → ((split : SplitPiece)
          → Memᴰ split pieces
          → Deployed env (get_split_object_key owner split) w)
      → sync_deployments env owner pieces w ≡ (ok tt, w)
  unfolding sync_deployments
  sync_deployments-again D owner [] w h = refl
  sync_deployments-again D owner (split ∷ rest) w h =
      >>=-ok (sync_deployment env owner split) (λ _. sync_deployments env owner rest) w
        (sync_deployment-again D owner split w (h split (Memᴰ.head refl)))
      ∙ sync_deployments-again D owner rest w (λ x m. h x (Memᴰ.tail m))

  module _ (K : KeepsConfigMaps env) where
    pub sync_templates-again :
        (namespace : String) (pieces : List SplitPiece) (w : World)
        → ((split : SplitPiece) → Memᴰ split pieces → Synced env namespace split w)
        → sync_templates env namespace pieces w ≡ (ok tt, w)
    unfolding sync_templates
    sync_templates-again namespace [] w h = refl
    sync_templates-again namespace (split ∷ rest) w h =
        >>=-ok (sync_template env namespace split) (λ _. sync_templates env namespace rest) w
          (sync_template-again K namespace split w (h split (Memᴰ.head refl)))
        ∙ sync_templates-again namespace rest w (λ x m. h x (Memᴰ.tail m))

    pub sync_values-again :
        (owner : Split) (pieces : List SplitPiece) (w : World)
        → ((split : SplitPiece) → Memᴰ split pieces → Current owner split w)
        → sync_values env owner pieces w ≡ (ok tt, w)
    unfolding sync_values
    sync_values-again owner [] w h = refl
    sync_values-again owner (split ∷ rest) w h =
        >>=-ok (sync_value env owner split) (λ _. sync_values env owner rest) w
          (sync_value-again K owner split w (h split (Memᴰ.head refl)))
        ∙ sync_values-again owner rest w (λ x m. h x (Memᴰ.tail m))

    pub Current-moved :
        (owner : Split) (split : SplitPiece) (w w' : World)
        → SamePods env w w'
        → (get_config_map (get_split_object_key owner split) w').0
          ≡ (get_config_map (get_split_object_key owner split) w).0
        → Current owner split w
        → Current owner split w'
    Current-moved owner split w w' pods same c =
        let (cm, there, value) = c.held in
        record {
          text = c.text;
          made = content-same env K split owner w w' pods ∙ c.made;
          held = (cm, same ∙ there, value);
        }
