-- ===== src/Tests/Values.antt =====
-- The values of a split's pieces with an API server in memory.
use oai_k8s.Common.{
  String, ◌≡◌, refl, ap, sym, ◌∙◌, subst, some, List, [], ◌∷◌, true, false, ◌==◌, if◌then◌else◌,
  str_dec, arith,
}
use oai_k8s.Common.{Result, ok, err, not_found, Action, Bool-cases, inl, inr}
use oai_k8s.Common.Dict.{insert}
use oai_k8s.Cluster.{ObjectKey, ConfigMap}
use oai_k8s.SplitController.Defs.{cu, du, ru, SplitEnv, Pod, get_split_object_key}
use oai_k8s.SplitController.ConfigMaps.{sync_value, get_config_map_content}
use oai_k8s.SplitController.Values.{KeepsConfigMaps, Holds, sync_value-Holds}
use oai_k8s.SplitController.ConfigMaps.{sync_templates}
use oai_k8s.SplitController.Values.Pieces.{KeepsWorld, Valued, sync_values-Valued}
use oai_k8s.SplitController.ConfigMaps.{sync_values}
use oai_k8s.SplitController.Templates.Writing.{KeepsOthers}
use oai_k8s.SplitController.Templates.{Synced, sync_templates-Synced}
use oai_k8s.Common.{Memᴰ, ◌≢◌}
use oai_k8s.Tests.Splits.{same_key, same_key_self}
use oai_k8s.Tests.Deployments.{owner}

abbrev pub Store : Type 0
Store = List ConfigMap

abbrev pub find_config_map : ObjectKey → Store → Result ConfigMap
find_config_map k [] = err not_found
find_config_map k (cm ∷ w) = if same_key cm.key k then ok cm else find_config_map k w

abbrev missing : {A : Type 0} → Action Store A
missing w = (err not_found, w)

abbrev pods_of : String → List Pod
pods_of selector =
    if selector == "split=cu,split-owner=split1"
    then record { node_name = "node1"; pod_ip = "10.1.0.1"; phase = "Running" } ∷ []
    else []

abbrev pub memory_env : SplitEnv Store String String
memory_env = record {
  get_split = λ k. missing;
  update_split_status = λ s w. (ok s, w);
  get_config_map = λ k w. (find_config_map k w, w);
  create_config_map = λ cm w. (ok tt, cm ∷ w);
  update_config_map = λ cm w. (ok tt, cm ∷ w);
  set_config_map_owner = λ s cm w. (ok (record cm { owners = s.key.name ∷ cm.owners }), w);
  get_deployment = λ k. missing;
  create_deployment = λ d w. (ok tt, w);
  set_deployment_owner = λ s d w. (ok d, w);
  list_pods = λ namespace selector w. (ok (pods_of selector), w);
  record_event = λ kind reason text w. w;
  parse_labels = λ text. ok text;
  docker_repository = "registry";
  parse_quantity = λ text. text;
  format_int = λ n. "";
  error_text = λ e. "";
  orders = record {
    templates = cu ∷ du ∷ ru ∷ [];
    values = cu ∷ du ∷ ru ∷ [];
    deployments = cu ∷ du ∷ ru ∷ [];
  };
}

text_eq : (a b : String) → (a == b) ≡ true → a ≡ b
text_eq a b h = ground (arith, h)

same_key_eq : (j k : ObjectKey) → same_key j k ≡ true → j ≡ k
same_key_eq j k h = elim (Bool-cases (j.namespace == k.namespace)) [
  | inl t ↦
      let n = text_eq j.namespace k.namespace t in
      let m = text_eq j.name k.name (rw t at h) in
      ap (λ (p : String × String). let o : ObjectKey = record { namespace = p.0; name = p.1 } in o)
        (let e : ◌≡◌ {A = String × String} (j.namespace, j.name) (k.namespace, k.name) =
            rw (n, m) refl in
          e)
  | inr f ↦ let bad : false ≡ true = rw f at h in cc
]

pub find_config_map-key :
    (k : ObjectKey) (cm : ConfigMap) (w : Store) → find_config_map k w ≡ ok cm → cm.key ≡ k
find_config_map-key k cm [] h = cc
find_config_map-key k cm (d ∷ w) h = elim (Bool-cases (same_key d.key k)) [
  | inl t ↦
      let e : ok d ≡ ok cm = rw t at h in
      let same : d ≡ cm = cc in sym (ap (λ x. x.key) same) ∙ same_key_eq d.key k t
  | inr f ↦ find_config_map-key k cm w (rw f at h)
]

pub memory_keeps : KeepsConfigMaps memory_env
memory_keeps = record {
  get_reads = λ k w. refl;
  list_reads = λ n s w. refl;
  get_finds = find_config_map-key;
  owner_keeps = λ o cm cm' w w' h.
      let e : ok (record cm { owners = o.key.name ∷ cm.owners }) ≡ ok cm' = ap (λ x. x.0) h in
      let f : record cm { owners = o.key.name ∷ cm.owners } ≡ cm' = cc in sym (ap (λ x. x.key) f);
  create_stores = λ cm w w' h.
      subst (λ x. find_config_map cm.key x ≡ ok cm) (ap (λ x. x.1) h)
        (rw (same_key_self cm.key) refl);
  update_stores = λ cm w w' h.
      subst (λ x. find_config_map cm.key x ≡ ok cm) (ap (λ x. x.1) h)
        (rw (same_key_self cm.key) refl);
}

abbrev pub written : Store
written =
    (record {
      key = record { namespace = "oai"; name = "cu-split1" };
      owners = "split1" ∷ [];
      content =
          some (("values", "upfaddress: 10.0.0.1\nlocaladdress: 10.1.0.1\nsouthaddress: \n") ∷ []);
    })
    ∷ []

pub sync_cu : sync_value memory_env owner cu [] ≡ (ok tt, written)
unfolding sync_value get_config_map_content insert str_dec
sync_cu = refl

sync_value-Holds_example :
    (text : String) × ((get_config_map_content memory_env cu owner []).0 ≡ ok text)
    × Holds memory_env (get_split_object_key owner cu) text written
sync_value-Holds_example = sync_value-Holds memory_env memory_keeps owner cu [] written sync_cu

pub absent_of_ne :
    (cm : ConfigMap) (k : ObjectKey) (w : Store)
    → k ≢ cm.key
    → find_config_map k (cm ∷ w) ≡ find_config_map k w
absent_of_ne cm k w n = elim (Bool-cases (same_key cm.key k)) [
  | inl t ↦ absurd (n (sym (same_key_eq cm.key k t)))
  | inr f ↦ rw f refl
]

memory_apart : KeepsOthers memory_env
memory_apart = record {
  create_apart =
      λ cm k w w' h n. ap (find_config_map k) (sym (ap (λ x. x.1) h)) ∙ absent_of_ne cm k w n;
  update_apart =
      λ cm k w w' h n. ap (find_config_map k) (sym (ap (λ x. x.1) h)) ∙ absent_of_ne cm k w n;
}

abbrev template : String → String → String → ConfigMap
template namespace name text = record {
  key = record { namespace = namespace; name = name };
  owners = [];
  content = some (("template", text) ∷ []);
}

-- The templates of the operator, and an old one in the namespace of the split.
abbrev pub shipped : Store
shipped =
    template "operator-system" "operator-cu-template" "cu.conf"
    ∷ template "operator-system" "operator-du-template" "du.conf"
    ∷ template "operator-system" "operator-ru-template" "ru.conf"
    ∷ template "oai" "operator-du-template" "old.conf"
    ∷ []

abbrev copied : Store
copied =
    template "oai" "operator-ru-template" "ru.conf"
    ∷ template "oai" "operator-du-template" "du.conf"
    ∷ template "oai" "operator-cu-template" "cu.conf"
    ∷ shipped

sync_three : sync_templates memory_env "oai" (cu ∷ du ∷ ru ∷ []) shipped ≡ (ok tt, copied)
unfolding sync_templates insert str_dec
sync_three = refl

sync_templates-Synced_example : Synced memory_env "oai" du copied
sync_templates-Synced_example =
    sync_templates-Synced memory_env memory_keeps memory_apart "oai" (cu ∷ du ∷ ru ∷ []) shipped
      copied sync_three du (Memᴰ.tail (Memᴰ.head refl))

abbrev values_map : String → String → ConfigMap
values_map name text = record {
  key = record { namespace = "oai"; name = name };
  owners = "split1" ∷ [];
  content = some (("values", text) ∷ []);
}

abbrev all_written : Store
all_written =
    values_map "ru-split1" "northaddress: \nlocaladdress: \n"
    ∷ values_map "du-split1" "northaddress: 10.1.0.1\nlocaladdress: \nsouthaddress: \n"
    ∷ written

sync_all : sync_values memory_env owner (cu ∷ du ∷ ru ∷ []) [] ≡ (ok tt, all_written)
unfolding sync_values get_config_map_content insert str_dec
sync_all = refl

memory_world : KeepsWorld memory_env
memory_world = record { owner_local = λ o cm cm' w w' h. sym (ap (λ x. x.1) h) }

sync_values-Valued_example : Valued memory_env owner du all_written
sync_values-Valued_example =
    sync_values-Valued memory_env memory_keeps memory_apart memory_world owner (cu ∷ du ∷ ru ∷ [])
      [] all_written sync_all du (Memᴰ.tail (Memᴰ.head refl))
