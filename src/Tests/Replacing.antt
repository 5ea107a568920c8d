-- ===== src/Tests/Replacing.antt =====
-- The replacer over a file whose second version is complete.
use oai_k8s.Common.{String, ℕ, ◌≤◌, ◌≡◌, ◌↔◌, refl, List, [], ◌∷◌, ◌==◌, str_dec, if◌then◌else◌}
use oai_k8s.Common.{Result, ok, err, not_found, Action}
use oai_k8s.Replacer.{Values, Files, no_values, load_file, get_content, main}
use oai_k8s.Replacer.Waits.{Loads, Complete, get_content_iff}
use oai_k8s.SplitController.Defs.{cu}

-- The versions of the file that are still to be read, and the results that were written.
record Disk : Type 0 where
  versions : List String
  written : List String

abbrev read_next : Action Disk String
read_next disk = elim disk.versions [
  | [] ↦ (err not_found, disk)
  | text ∷ rest ↦ (ok text, record disk { versions = rest })
]

abbrev parse : String → Values → Result Values
parse text v =
    if text == "partial"
    then ok (record v { local_address = "10.1.0.1" })
    else ok (record v {
      local_address = "10.1.0.1";
      south_address = "10.1.0.2";
      upf_address = "10.0.0.1";
    })

abbrev disk_files : Files Disk
disk_files = record {
  read_values = read_next;
  unmarshal = parse;
  read_template = λ disk. (ok "template", disk);
  create_result = λ disk. (ok tt, record disk { written = [] });
  execute = λ template v disk. (ok tt, record disk { written = v.upf_address ∷ disk.written });
}

abbrev at_start : Disk
at_start = record { versions = "partial" ∷ "full" ∷ "full" ∷ []; written = [] }

abbrev at_end : Disk
at_end = record { versions = "full" ∷ []; written = [] }

abbrev all_values : Values
all_values = record {
  local_address = "10.1.0.1";
  south_address = "10.1.0.2";
  north_address = "";
  upf_address = "10.0.0.1";
}

get_content_iff_example :
    (get_content disk_files "cu" 5 no_values at_start ≡ (ok all_values, at_end)) ↔ (
      (n : ℕ) × (n ≤ 5)
      × Loads disk_files (Complete cu) n no_values at_start all_values at_end
      × Complete cu all_values)
get_content_iff_example = get_content_iff disk_files cu 5 no_values all_values at_start at_end

content_test : get_content disk_files "cu" 5 no_values at_start ≡ (ok all_values, at_end)
unfolding get_content load_file str_dec
content_test = refl

main_test : main disk_files "cu" 5 at_start ≡ (ok tt, record at_end { written = "10.0.0.1" ∷ [] })
unfolding main load_file str_dec
main_test = refl
