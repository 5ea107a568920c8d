-- ===== src/Tests/Yaml.antt =====
-- A reader of lines `key: text`, and the replacer over a file that the operator writes.
use oai_k8s.Common.{
  String, ◌≡◌, refl, ap, sym, ◌∙◌, List, [], ◌∷◌, Bool, true, false, not, ◌&&◌, if◌then◌else◌,
  str_dec, ◌==◌,
}
use oai_k8s.Common.{ok, out_of_fuel}
use Prim.Native.Char.{Char}
use Prim.Native.String.{◌++◌ as ◌<>◌}
use text.Mathlib.TextLemmas.{append_assoc, append-nil, nil-append, cons-append}
use oai_k8s.Cluster.{Split}
use oai_k8s.SplitController.Defs.{cu}
use oai_k8s.Replacer.{Values, Files, no_values, load_file, get_content}
use oai_k8s.Replacer.Filled.{
  Field, local, south, north, upf, tag, set_field, document, fill, AllPlain, Reads, text_of,
  get_content-text_of,
}

abbrev char : Char → String
char c = String.◌∷◌ c String.[]

-- The value of a key, among the four that are read.
abbrev write : String → String → Values → Values
write key text v =
    if key == "localaddress"
    then set_field local text v
    else if key == "southaddress"
    then set_field south text v
    else if key == "northaddress"
    then set_field north text v
    else if key == "upfaddress"
    then set_field upf text v
    else v

-- Reads a key up to a colon, or a text up to the end of the line.
pub scan : (in_key : Bool) → (key text : String) → String → Values → Values
scan in_key key text String.[] v = v
scan true key text (String.◌∷◌ c rest) v =
    let in_line = scan false key "" rest v in
    let longer = scan true (key <> char c) "" rest v in if char c == ":" then in_line else longer
scan false key text (String.◌∷◌ c rest) v =
    let next = scan true "" "" rest (write key text v) in
    let skipped = scan false key text rest v in
    let longer = scan false key (text <> char c) rest v in
    if char c == "\n" then next else if char c == " " then skipped else longer

-- Neither a blank nor the end of a line.
abbrev pub is_plain : String → Bool
is_plain String.[] = true
is_plain (String.◌∷◌ c rest) = not (char c == "\n") && (not (char c == " ") && is_plain rest)

abbrev pub Plain : String → Type 0
Plain text = is_plain text ≡ true

abbrev has_no_colon : String → Bool
has_no_colon String.[] = true
has_no_colon (String.◌∷◌ c rest) = not (char c == ":") && has_no_colon rest

not_both : (a b : Bool) → (not a && b) ≡ true → (a ≡ false) × (b ≡ true)
not_both true b h = cc
not_both false b h = (refl, h)

scan_key :
    (k key rest : String) (v : Values)
    → has_no_colon k ≡ true
    → scan true key "" (k <> (":" <> rest)) v ≡ scan false (key <> k) "" rest v
unfolding scan str_dec
scan_key String.[] key rest v p =
    ap (λ t. scan true key "" t v)
      (nil-append (":" <> rest) ∙ cons-append ":" "" rest ∙ ap (String.◌∷◌ ":") (nil-append rest))
    ∙ ap (λ k. scan false k "" rest v) (sym (append-nil key))
scan_key (String.◌∷◌ c k) key rest v h =
    let (n, p) = not_both (char c == ":") (has_no_colon k) h in
    ap (λ t. scan true key "" t v) (cons-append c k (":" <> rest))
    ∙ rw n (scan_key k (key <> char c) rest v p)
    ∙ ap (λ z. scan false z "" rest v)
        (append_assoc key (char c) k
          ∙ ap (λ z. key <> z) (cons-append c "" k ∙ ap (String.◌∷◌ c) (nil-append k)))

scan_text :
    (x key text rest : String) (v : Values)
    → Plain x
    → scan false key text (x <> ("\n" <> rest)) v ≡ scan true "" "" rest (write key (text <> x) v)
unfolding scan str_dec
scan_text String.[] key text rest v p =
    ap (λ t. scan false key text t v)
      (nil-append ("\n" <> rest)
        ∙ cons-append "\n" "" rest
        ∙ ap (String.◌∷◌ "\n") (nil-append rest))
    ∙ ap (λ z. scan true "" "" rest (write key z v)) (sym (append-nil text))
scan_text (String.◌∷◌ c x) key text rest v h =
    let (n, t) = not_both (char c == "\n") (not (char c == " ") && is_plain x) h in
    let (b, p) = not_both (char c == " ") (is_plain x) t in
    ap (λ t. scan false key text t v) (cons-append c x ("\n" <> rest))
    ∙ rw (n, b) (scan_text x key (text <> char c) rest v p)
    ∙ ap (λ z. scan true "" "" rest (write key z v))
        (append_assoc text (char c) x
          ∙ ap (λ z. text <> z) (cons-append c "" x ∙ ap (String.◌∷◌ c) (nil-append x)))

tag-has_no_colon : (f : Field) → has_no_colon (tag f) ≡ true
unfolding str_dec
tag-has_no_colon local = refl
tag-has_no_colon south = refl
tag-has_no_colon north = refl
tag-has_no_colon upf = refl

write_field : (f : Field) (text : String) (v : Values) → write (tag f) text v ≡ set_field f text v
unfolding str_dec
write_field local text v = refl
write_field south text v = refl
write_field north text v = refl
write_field upf text v = refl

skip_blank :
    (key rest : String) (v : Values) → scan false key "" (" " <> rest) v ≡ scan false key "" rest v
unfolding scan str_dec
skip_blank key rest v =
    ap (λ t. scan false key "" t v)
      (cons-append " " "" rest ∙ ap (String.◌∷◌ " ") (nil-append rest))

-- One line.
scan_line :
    (f : Field) (text rest : String) (v : Values)
    → Plain text
    → scan true "" "" ((tag f <> ": ") <> (text <> ("\n" <> rest))) v
      ≡ scan true "" "" rest (set_field f text v)
scan_line f text rest v p =
    let line = text <> ("\n" <> rest) in
    ap (λ t. scan true "" "" t v)
      (ap (λ z. z <> line) (sym (append_assoc (tag f) ":" " "))
        ∙ append_assoc (tag f <> ":") " " line
        ∙ append_assoc (tag f) ":" (" " <> line))
    ∙ scan_key (tag f) "" (" " <> line) v (tag-has_no_colon f)
    ∙ ap (λ k. scan false k "" (" " <> line) v) (nil-append (tag f))
    ∙ skip_blank (tag f) line v
    ∙ scan_text text (tag f) "" rest v p
    ∙ ap (λ z. scan true "" "" rest (write (tag f) z v)) (nil-append text)
    ∙ ap (λ z. scan true "" "" rest z) (write_field f text v)

scan-document :
    (es : List (Field × String)) (v : Values)
    → AllPlain Plain es
    → scan true "" "" (document es) v ≡ fill es v
unfolding scan
scan-document [] v p = refl
scan-document ((f, text) ∷ rest) v (p, q) =
    scan_line f text (document rest) v p ∙ scan-document rest (set_field f text v) q

-- A disk whose state is the text of the file.
abbrev pub files_of_one : Files String
files_of_one = record {
  read_values = λ text. (ok text, text);
  unmarshal = λ text v. ok (scan true "" "" text v);
  read_template = λ w. (ok "template", w);
  create_result = λ w. (ok tt, w);
  execute = λ template v w. (ok tt, w);
}

pub one-Reads : Reads files_of_one Plain
one-Reads = record { decodes = λ es v p. ap ok (scan-document es v p) }

abbrev test_split : Split
test_split = record {
  key = record { namespace = "oai"; name = "split1" };
  owners = [];
  spec = record { core_ip = "10.0.0.1"; ru_node = "node6"; du_node = "node3"; cu_node = "node1" };
  status = record {
    cu_node = "";
    cu_ip = "";
    du_node = "";
    du_ip = "";
    ru_node = "";
    ru_ip = "";
    state = "";
  };
}

-- Of the addresses that a CU needs, the one of the DU is there in the first file only.
get_content-text_of_example :
    get_content files_of_one "cu" 3 no_values (text_of cu test_split "" "10.1.0.1" "10.1.0.2") ≡ (
      ok (record {
        local_address = "10.1.0.1";
        south_address = "10.1.0.2";
        north_address = "";
        upf_address = "10.0.0.1";
      }),
      text_of cu test_split "" "10.1.0.1" "10.1.0.2",
    )
unfolding str_dec
get_content-text_of_example =
    get_content-text_of files_of_one one-Reads cu test_split "" "10.1.0.1" "10.1.0.2"
      (text_of cu test_split "" "10.1.0.1" "10.1.0.2") 2 (refl, (refl, (refl, tt))) refl

waiting_test :
    (get_content files_of_one "cu" 3 no_values (text_of cu test_split "" "10.1.0.1" "")).0
    ≡ out_of_fuel
unfolding get_content load_file scan str_dec
waiting_test = refl
