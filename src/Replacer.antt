-- ===== src/Replacer.antt =====
-- The replacer (replacer/cmd/main.go), which runs before a piece of a split and fills its configuration.
pub mod Waits
pub mod Filled
pub mod Fed
use oai_k8s.Common.{
  String, ℕ, zero, suc, ◌≡◌, none, some, List, [], ◌∷◌, Bool, true, false, ◌||◌, ◌==◌,
  if◌then◌else◌,
}
use oai_k8s.Common.{
  Result, ok, err, panic, hang, out_of_fuel, message, Action, pure, ◌>>=◌, ◌>>◌, lift, with_context,
  concat_text,
}

-- `values`
pub record Values : Type 0 where
  pub local_address : String
  pub south_address : String
  pub north_address : String
  pub upf_address : String

abbrev pub no_values : Values
no_values = record { local_address = ""; south_address = ""; north_address = ""; upf_address = "" }

-- ioutil.ReadFile and os.Create, yaml.Unmarshal into values that are there, and text/template.
pub record Files (World : Type 0) : Type 0 where
  pub read_values : Action World String
  pub unmarshal : String → Values → Result Values
  pub read_template : Action World String
  pub create_result : Action World (Unit {0})
  -- Execute, with the created file as its output
  pub execute : (template : String) → Values → Action World (Unit {0})

-- The conditions of the three loops.
abbrev pub cu_waits : Values → Bool
cu_waits cu = cu.local_address == "" || cu.upf_address == "" || cu.south_address == ""

abbrev pub du_waits : Values → Bool
du_waits du = du.local_address == "" || du.north_address == "" || du.south_address == ""

abbrev pub ru_waits : Values → Bool
ru_waits ru = ru.local_address == "" || ru.north_address == ""

module _ {World : Type 0} (files : Files World) where
  unfoldable pub load_file : Values → Action World Values
  load_file v = do
    text ← with_context "error reading file" files.read_values
    with_context "error unmarshaling file" (lift (files.unmarshal text v))

  -- The body of `getCUContent`, `getDUContent` and `getRUContent`: it loads the file until the values are
  -- there, for at most `fuel` rounds. An error ends the process.
  unfoldable pub load_until : (Values → Bool) → String → ℕ → Values → Action World Values
  load_until waits context zero v w = (if waits v then out_of_fuel else ok v, w)
  load_until waits context (suc fuel) v w =
      let again = with_context context (load_file v) >>= load_until waits context fuel in
      if waits v then again w else (ok v, w)

  unfoldable pub get_cu_content : ℕ → Values → Action World Values
  unfolding load_until
  get_cu_content = load_until cu_waits "error loading file for CU split"

  unfoldable pub get_du_content : ℕ → Values → Action World Values
  unfolding load_until
  get_du_content = load_until du_waits "error loading file for DU split"

  unfoldable pub get_ru_content : ℕ → Values → Action World Values
  unfolding load_until
  get_ru_content = load_until ru_waits "error loading file for RU split"

  -- The output is created before the template is executed, and stays also where that fails.
  unfoldable pub replacer : Values → Action World (Unit {0})
  replacer v = do
    template ← with_context "error parsing template file" files.read_template
    with_context "error opening shoot file" files.create_result
    with_context "error replacing shoot template files" (files.execute template v)

  -- The `switch` of `main`, on the environment variable SplitPiece.
  unfoldable pub get_content : String → ℕ → Values → Action World Values
  unfolding get_cu_content get_du_content get_ru_content
  get_content split_piece fuel v =
      if split_piece == "cu"
      then get_cu_content fuel v
      else if split_piece == "du"
      then get_du_content fuel v
      else if split_piece == "ru"
      then get_ru_content fuel v
      else lift (err (message (concat_text ("Split '" ∷ split_piece ∷ "' is not valid" ∷ []))))

  unfoldable pub main : (split_piece : String) → ℕ → Action World (Unit {0})
  unfolding get_content replacer
  main split_piece fuel = do
    v ← get_content split_piece fuel no_values
    with_context "error replacing values" (replacer v)
