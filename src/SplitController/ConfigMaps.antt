-- ===== src/SplitController/ConfigMaps.antt =====
-- `syncTemplatesConfigMap`, `syncValuesConfigMap` and `syncConfigMaps`.
use oai_k8s.Common.{String, Option, none, some, List, [], ◌∷◌, ◌==◌, if◌then◌else◌}
use oai_k8s.Common.{
  Result, ok, err, panic, hang, out_of_fuel, wrap, wrap_nil, concat_text, get_or_empty,
}
use oai_k8s.Common.{Action, pure, ◌>>=◌, ◌>>◌, lift, with_context}
use oai_k8s.Common.Dict.{insert, lookup}
use oai_k8s.Cluster.{ObjectKey, ConfigMap, Split}
use oai_k8s.Cluster.Getters.{get_if_exists}
use oai_k8s.SplitController.Defs.{
  SplitPiece, cu, du, ru, template_config_map, Pod, SplitEnv, get_split_object_key,
}
use oai_k8s.SplitController.Pods.{get_pod}

abbrev pub operator_namespace : String
operator_namespace = "operator-system"

-- `cm.Data[key]`, also of a nil map
abbrev pub value_of : String → ConfigMap → String
value_of key cm = elim (lookup key (get_or_empty cm.content)) [ none ↦ "" | some t ↦ t ]

-- `cm.Data[key] = text` on a map that may be nil
unfoldable pub assign : String → String → ConfigMap → Result ConfigMap
assign key text cm = elim cm.content [
  | none ↦ panic
  | some d ↦ ok (record cm { content = some (insert key text d) })
]

-- The config map that has one entry only.
abbrev pub single : ObjectKey → String → String → ConfigMap
single key entry text = record { key = key; owners = []; content = some (insert entry text []) }

-- The address of a pod, `""` where there is none.
abbrev pub pod_address : Option Pod → String
pod_address none = ""
pod_address (some pod) = pod.pod_ip

-- The three templates, filled.
abbrev pub cu_text : Split → (local south : String) → String
cu_text owner local south = concat_text (
    "upfaddress: " ∷ owner.spec.core_ip ∷ "\nlocaladdress: " ∷ local ∷ "\nsouthaddress: " ∷ south
    ∷ "\n" ∷ [])

abbrev pub du_text : (north local south : String) → String
du_text north local south =
    concat_text (
      "northaddress: " ∷ north ∷ "\nlocaladdress: " ∷ local ∷ "\nsouthaddress: " ∷ south ∷ "\n"
      ∷ [])

abbrev pub ru_text : (north local : String) → String
ru_text north local =
    concat_text ("northaddress: " ∷ north ∷ "\nlocaladdress: " ∷ local ∷ "\n" ∷ [])

module _ {World Selector Quantity : Type 0} (env : SplitEnv World Selector Quantity) where
  open env use {get_config_map, create_config_map, update_config_map, set_config_map_owner, orders}

  -- The branches behind the fetch of the operator's template; the error is wrapped also where it is nil.
  unfoldable pub template_of : String → Result (Option ConfigMap) × World → Result String × World
  template_of context (ok none, w) = (err (wrap_nil context), w)
  template_of context (ok (some cm), w) = (ok (value_of "template" cm), w)
  template_of context (err e, w) = (err (wrap context e), w)
  template_of context (panic, w) = (panic, w)
  template_of context (hang, w) = (hang, w)
  template_of context (out_of_fuel, w) = (out_of_fuel, w)

  abbrev pub operator_key : String → ObjectKey
  operator_key name = record { namespace = operator_namespace; name = name }

  -- The template that the operator ships.
  unfoldable pub operator_template : String → Action World String
  unfolding template_of
  operator_template name w =
      let context =
        concat_text
          ("error getting template config map " ∷ name ∷ " from the operator namespace" ∷ []) in
      template_of context
        (get_if_exists "error getting config map" (get_config_map (operator_key name)) w)

  -- Puts the template into the config map of the split's namespace, where it was found or not.
  unfoldable pub put_template : ObjectKey → String → Option ConfigMap → Action World (Unit {0})
  unfolding assign
  put_template key text (some cm) =
      let write = lift (assign "template" text cm) >>= λ cm'.
      with_context "error updating config map" (update_config_map cm') in
      if value_of "template" cm == text then pure tt else write
  put_template key text none =
      with_context "error creating config map" (create_config_map (single key "template" text))

  unfoldable pub sync_template : (namespace : String) → SplitPiece → Action World (Unit {0})
  unfolding operator_template put_template
  sync_template namespace split = do
    text ← operator_template (template_config_map split)
    let key : ObjectKey = record { namespace = namespace; name = template_config_map split }
    found ←
        with_context "error getting config map"
          (get_if_exists "error getting config map" (get_config_map key))
    put_template key text found

  unfoldable pub sync_templates : (namespace : String) → List SplitPiece → Action World (Unit {0})
  unfolding sync_template
  sync_templates namespace [] = pure tt
  sync_templates namespace (split ∷ rest) = do
    sync_template namespace split
    sync_templates namespace rest

  -- The address of the pod of a piece.
  unfoldable pub address : String → Split → SplitPiece → Action World String
  unfolding get_pod
  address context owner split = do
    pod ← with_context context (get_pod env owner split)
    pure (pod_address pod)

  unfoldable pub get_cu_config_map_content : Split → Action World String
  unfolding address
  get_cu_config_map_content owner = do
    local ← address "error getting CU config map content from cu pod" owner cu
    south ← address "error getting CU config map content from du pod" owner du
    pure (cu_text owner local south)

  unfoldable pub get_du_config_map_content : Split → Action World String
  unfolding address
  get_du_config_map_content owner = do
    north ← address "error getting DU config map content from cu pod" owner cu
    local ← address "error getting DU config map content from du pod" owner du
    south ← address "error getting DU config map content from ru pod" owner ru
    pure (du_text north local south)

  unfoldable pub get_ru_config_map_content : Split → Action World String
  unfolding address
  get_ru_config_map_content owner = do
    north ← address "error getting RU config map content from du pod" owner du
    local ← address "error getting RU config map content from ru pod" owner ru
    pure (ru_text north local)

  unfoldable pub get_config_map_content : SplitPiece → Split → Action World String
  unfolding get_cu_config_map_content get_du_config_map_content get_ru_config_map_content
  get_config_map_content cu owner = get_cu_config_map_content owner
  get_config_map_content du owner = get_du_config_map_content owner
  get_config_map_content ru owner = get_ru_config_map_content owner

  -- Puts the values into the config map of a piece, where it was found or not.
  unfoldable pub put_values :
      Split → ObjectKey → String → Option ConfigMap → Action World (Unit {0})
  put_values owner key text (some cm) =
      let content' = some (insert "values" text (get_or_empty cm.content)) in
      let write =
        with_context "error updating config map"
          (update_config_map (record cm { content = content' })) in
      if text == value_of "values" cm then pure tt else write
  put_values owner key text none = do
    cm ←
        with_context "error setting config map owner reference"
          (set_config_map_owner owner (record { key = key; owners = []; content = none }))
    with_context "error creating config map"
        (create_config_map (record cm { content = some (insert "values" text []) }))

  unfoldable pub sync_value : Split → SplitPiece → Action World (Unit {0})
  unfolding put_values get_split_object_key
  sync_value owner split = do
    let key = get_split_object_key owner split
    found ←
        with_context "error getting config map"
          (get_if_exists "error getting config map" (get_config_map key))
    text ← with_context "error getting config map content" (get_config_map_content split owner)
    put_values owner key text found

  unfoldable pub sync_values : Split → List SplitPiece → Action World (Unit {0})
  unfolding sync_value
  sync_values owner [] = pure tt
  sync_values owner (split ∷ rest) = do sync_value owner split; sync_values owner rest

  unfoldable pub sync_config_maps : Split → Action World (Unit {0})
  unfolding sync_templates sync_values
  sync_config_maps owner = do
    with_context "error syncing template config maps"
        (sync_templates owner.key.namespace orders.templates)
    with_context "error syncing values config maps" (sync_values owner orders.values)
