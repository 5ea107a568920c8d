-- ===== src/Replacer/Filled.antt =====
-- From the operator to the replacer: the config map that the operator writes for a piece
-- (operator/controllers/split_controller.go, types.go), read as a file by replacer/cmd/main.go.
use oai_k8s.Common.{
  String, ℕ, zero, suc, ◌≡◌, refl, ap, ◌∙◌, List, [], ◌∷◌, Bool, true, Bool-cases, str_dec, inl,
  inr, if◌then◌else◌,
}
use oai_k8s.Common.{Result, ok, out_of_fuel, >>=-ok, with_context, wrapped, lift}
use text.Mathlib.TextLemmas.{append_assoc}
use Prim.Native.String.{◌++◌ as ◌<>◌}
use oai_k8s.Cluster.{Split}
use oai_k8s.SplitController.Defs.{SplitPiece, cu, du, ru, piece_text}
use oai_k8s.SplitController.ConfigMaps.{cu_text, du_text, ru_text}
use oai_k8s.Replacer.{
  Values, no_values, Files, cu_waits, du_waits, ru_waits, load_file, load_until, get_content,
}

-- The fields of `values`, with their keys in yaml.
pub data Field : Type 0 where
  local : Field
  south : Field
  north : Field
  upf : Field

abbrev pub tag : Field → String
tag local = "localaddress"
tag south = "southaddress"
tag north = "northaddress"
tag upf = "upfaddress"

abbrev pub set_field : Field → String → Values → Values
set_field local text v = record v { local_address = text }
set_field south text v = record v { south_address = text }
set_field north text v = record v { north_address = text }
set_field upf text v = record v { upf_address = text }

-- A line `key: text` for each entry.
abbrev pub document : List (Field × String) → String
document [] = ""
document ((f, text) ∷ rest) = (tag f <> ": ") <> (text <> ("\n" <> document rest))

abbrev pub fill : List (Field × String) → Values → Values
fill [] v = v
fill ((f, text) ∷ rest) v = fill rest (set_field f text v)

abbrev pub AllPlain : (String → Type 0) → List (Field × String) → Type 0
AllPlain Plain [] = Unit
AllPlain Plain ((f, text) ∷ rest) = Plain text × AllPlain Plain rest

-- The addresses that the operator writes for a piece.
abbrev pub entries : SplitPiece → Split → (north local south : String) → List (Field × String)
entries cu owner n l s = (upf, owner.spec.core_ip) ∷ (local, l) ∷ (south, s) ∷ []
entries du owner n l s = (north, n) ∷ (local, l) ∷ (south, s) ∷ []
entries ru owner n l s = (north, n) ∷ (local, l) ∷ []

abbrev pub text_of : SplitPiece → Split → (north local south : String) → String
text_of cu owner n l s = cu_text owner l s
text_of du owner n l s = du_text n l s
text_of ru owner n l s = ru_text n l

text_of-document :
    (split : SplitPiece) (owner : Split) (n l s : String)
    → text_of split owner n l s ≡ document (entries split owner n l s)
text_of-document cu owner n l s =
    ap (λ z. "upfaddress: " <> (owner.spec.core_ip <> z))
      (append_assoc "\n" "localaddress: " _
        ∙ ap (λ z. "\n" <> ("localaddress: " <> (l <> z)))
            (append_assoc "\n" "southaddress: " (s <> "\n")))
text_of-document du owner n l s =
    ap (λ z. "northaddress: " <> (n <> z))
      (append_assoc "\n" "localaddress: " _
        ∙ ap (λ z. "\n" <> ("localaddress: " <> (l <> z)))
            (append_assoc "\n" "southaddress: " (s <> "\n")))
text_of-document ru owner n l s =
    ap (λ z. "northaddress: " <> (n <> z)) (append_assoc "\n" "localaddress: " (l <> "\n"))

-- yaml.v2 on lines `key: text` with texts that it reads as plain scalars, and a file that holds a text.
pub record Reads {World : Type 0} (files : Files World) (Plain : String → Type 0) : Type 0 where
  pub decodes :
      (es : List (Field × String)) (v : Values)
      → AllPlain Plain es
      → files.unmarshal (document es) v ≡ ok (fill es v)

-- The condition of the loop for a piece, and its name.
abbrev pub waits_of : SplitPiece → Values → Bool
waits_of cu = cu_waits
waits_of du = du_waits
waits_of ru = ru_waits

-- The values that a piece gets.
abbrev pub values_for : SplitPiece → Split → (north local south : String) → Values
values_for split owner n l s = fill (entries split owner n l s) no_values

fill_twice :
    (split : SplitPiece) (owner : Split) (n l s : String)
    → fill (entries split owner n l s) (values_for split owner n l s) ≡ values_for split owner n l s
fill_twice cu owner n l s = refl
fill_twice du owner n l s = refl
fill_twice ru owner n l s = refl

module _ {World : Type 0} (files : Files World) (waits : Values → Bool) (context : String)
    (w : World) where
  -- A file that does not change: a second load changes nothing, and the loop stops behind the first or never.
  load_until_fixed :
      (v : Values) (fuel : ℕ)
      → load_file files v w ≡ (ok v, w)
      → load_until files waits context fuel v w ≡ (if waits v then out_of_fuel else ok v, w)
  unfolding load_until
  load_until_fixed v zero e = refl
  load_until_fixed v (suc fuel) e = elim (Bool-cases (waits v)) [
    | inr f ↦ rw f refl
    | inl t ↦
        let rest = load_until_fixed v fuel e in
        rw t (
          >>=-ok (with_context context (load_file files v)) (load_until files waits context fuel) w
            (ap (λ p. (wrapped context p.0, p.1)) e)
          ∙ rest
          ∙ ap (λ (b : Bool). (if b then out_of_fuel else ok v, w)) t)
  ]

  load_until_first :
      (v v' : Values) (fuel : ℕ)
      → waits v ≡ true
      → load_file files v w ≡ (ok v', w)
      → load_file files v' w ≡ (ok v', w)
      → load_until files waits context (suc fuel) v w ≡ (if waits v' then out_of_fuel else ok v', w)
  unfolding load_until
  load_until_first v v' fuel t e e' = rw t (
      >>=-ok (with_context context (load_file files v)) (load_until files waits context fuel) w
        (ap (λ p. (wrapped context p.0, p.1)) e)
      ∙ load_until_fixed v' fuel e')

module _ {World : Type 0} (files : Files World) {Plain : String → Type 0}
    (R : Reads files Plain) where
  loads :
      (split : SplitPiece) (owner : Split) (n l s : String) (v : Values) (w : World)
      → AllPlain Plain (entries split owner n l s)
      → files.read_values w ≡ (ok (text_of split owner n l s), w)
      → load_file files v w ≡ (ok (fill (entries split owner n l s) v), w)
  unfolding load_file
  loads split owner n l s v w plain e =
      let es = entries split owner n l s in
      >>=-ok (with_context "error reading file" files.read_values)
        (λ text. with_context "error unmarshaling file" (lift (files.unmarshal text v))) w
        (ap (λ p. (wrapped "error reading file" p.0, p.1)) e)
      ∙ ap (λ (r : Result Values). (wrapped "error unmarshaling file" r, w))
          (ap (λ t. files.unmarshal t v) (text_of-document split owner n l s)
            ∙ R.decodes es v plain)

  module _ (split : SplitPiece) (owner : Split) (n l s : String) (w : World)
      (plain : AllPlain Plain (entries split owner n l s))
      (e : files.read_values w ≡ (ok (text_of split owner n l s), w)) where
    abbrev filled : Values
    filled = values_for split owner n l s

    first_load : load_file files no_values w ≡ (ok filled, w)
    first_load = loads split owner n l s no_values w plain e

    second_load : load_file files filled w ≡ (ok filled, w)
    second_load =
        loads split owner n l s filled w plain e
        ∙ ap (λ (v : Values). (ok v, w)) (fill_twice split owner n l s)

  -- Where the file holds the text that the operator writes for a piece, made of plain texts: the replacer for that piece
  -- gets, from the first load on, the addresses that were written if it waits for none of them any more, and
  -- waits for ever if one that it needs is empty.
  pub get_content-text_of :
      (split : SplitPiece) (owner : Split) (n l s : String) (w : World) (fuel : ℕ)
      → AllPlain Plain (entries split owner n l s)
      → files.read_values w ≡ (ok (text_of split owner n l s), w)
      → let v = values_for split owner n l s in
        get_content files (piece_text split) (suc fuel) no_values w
        ≡ (if waits_of split v then out_of_fuel else ok v, w)
  unfolding get_content str_dec
  get_content-text_of cu owner n l s w fuel plain e =
      load_until_first files cu_waits "error loading file for CU split" w no_values
        (values_for cu owner n l s) fuel refl (first_load cu owner n l s w plain e)
        (second_load cu owner n l s w plain e)
  get_content-text_of du owner n l s w fuel plain e =
      load_until_first files du_waits "error loading file for DU split" w no_values
        (values_for du owner n l s) fuel refl (first_load du owner n l s w plain e)
        (second_load du owner n l s w plain e)
  get_content-text_of ru owner n l s w fuel plain e =
      load_until_first files ru_waits "error loading file for RU split" w no_values
        (values_for ru owner n l s) fuel refl (first_load ru owner n l s w plain e)
        (second_load ru owner n l s w plain e)
