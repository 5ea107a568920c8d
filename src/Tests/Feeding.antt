-- ===== src/Tests/Feeding.antt =====
-- The addresses of a split's CU from its pods to the replacer.
use oai_k8s.Common.{String, ◌≡◌, refl, ap, subst, str_dec, if◌then◌else◌, []}
use oai_k8s.Common.{Result, ok, out_of_fuel}
use oai_k8s.Cluster.{ConfigMap}
use oai_k8s.SplitController.Defs.{SplitPiece, cu, du, ru, get_split_object_key}
use oai_k8s.SplitController.Pods.{get_pod}
use oai_k8s.SplitController.ConfigMaps.{value_of, address, get_config_map_content}
use oai_k8s.Replacer.{no_values, get_content}
use oai_k8s.Replacer.Filled.{text_of, values_for, waits_of}
use oai_k8s.Replacer.Fed.{Neighbours, sync_value-get_content}
use oai_k8s.Tests.Deployments.{owner}
use oai_k8s.Tests.Values.{Store, memory_env, memory_keeps, written, sync_cu, find_config_map}
use oai_k8s.Tests.Yaml.{Plain, files_of_one, one-Reads}

of_address :
    (x : String) (a : String) (w w' : Store)
    → Plain x
    → ◌≡◌ {A = Result String × Store} (ok x, w) (ok a, w')
    → Plain a
of_address x a w w' p h =
    let e : ok x ≡ ok a = ap (λ y. y.0) h in subst Plain (let f : x ≡ a = cc in f) p

addresses-Plain :
    (c : String) (split : SplitPiece) (a : String) (w w' : Store)
    → address memory_env c owner split w ≡ (ok a, w')
    → Plain a
unfolding address get_pod str_dec
addresses-Plain c cu a w w' h = of_address "10.1.0.1" a w w' refl h
addresses-Plain c du a w w' h = of_address "" a w w' refl h
addresses-Plain c ru a w w' h = of_address "" a w w' refl h

abbrev mounted_text : String
mounted_text = "upfaddress: 10.0.0.1\nlocaladdress: 10.1.0.1\nsouthaddress: \n"

mounted :
    (cm : ConfigMap)
    → find_config_map (get_split_object_key owner cu) written ≡ ok cm
    → ◌≡◌ {A = Result String × String}
        (ok mounted_text, mounted_text)
        (ok (value_of "values" cm), mounted_text)
unfolding get_split_object_key str_dec
mounted cm h =
    let same : ok _ ≡ ok cm = h in
    ap
      (λ (r : Result ConfigMap).
        (elim r [ ok x ↦ ok (value_of "values" x) | _ ↦ ok "" ], mounted_text))
      same

-- The pod of the DU has no address yet, and the replacer of the CU waits for it.
sync_value-get_content_example :
    (n l s : String) × ((get_config_map_content memory_env cu owner []).0
      ≡ ok (text_of cu owner n l s))
    × Neighbours memory_env owner cu [] n l s
    × (let v = values_for cu owner n l s in
        get_content files_of_one "cu" 3 no_values mounted_text
        ≡ (if waits_of cu v then out_of_fuel else ok v, mounted_text))
unfolding str_dec
sync_value-get_content_example =
    sync_value-get_content memory_env owner Plain refl addresses-Plain memory_keeps files_of_one
      one-Reads cu [] written mounted_text 2 sync_cu mounted
