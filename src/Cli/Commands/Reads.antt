-- ===== src/Cli/Commands/Reads.antt =====
-- What the laws of json-c say of the parameters of src/main.c, as src/server/server.c reads them.
use axctl_c.Prelude.{
  ◌≡◌, refl, ◌∙◌, Bool, true, false, Option, none, some, CString, str_eq, ℤ, get_elem?,
}
use axctl_c.Json.{JsonC, JsonLaws}
use axctl_c.Json.Helpers.{param_str, param_int, param_bool}
use axctl_c.Cli.Commands.{optional}
use axctl_c.Cli.Params.{add_text}

-- The argument that may be left out, where it is the last one.
pub arg_optional : (s : Option CString) → get_elem? (optional s) 0 ≡ s
arg_optional none = refl
arg_optional (some s) = refl

module _ (j : JsonC) (laws : JsonLaws j) where
  pub get_same :
      (o v : j.Json) {k k' : CString}
      → str_eq k k' ≡ true
      → j.object_get (j.object_add o k v) k' ≡ some v
  get_same o v {k} {k'} same = laws.get-add o v k k' ∙ rw (same) refl

  pub get_other :
      (o v : j.Json) {k k' : CString}
      → str_eq k k' ≡ false
      → j.object_get (j.object_add o k v) k' ≡ j.object_get o k'
  get_other o v {k} {k'} other = laws.get-add o v k k' ∙ rw (other) refl

  -- An argument is read back under its key, and changes no other.
  pub get_text :
      (o : j.Json) (key : CString) (arg : Option CString)
      → str_eq key key ≡ true
      → j.object_get o key ≡ none
      → param_str j (some (add_text j o key arg)) key ≡ arg
  unfolding add_text param_str
  get_text o key none same absent = rw (absent, param_str) refl
  get_text o key (some s) same absent =
      rw (get_same o (j.new_string s) same, param_str) (laws.get_string-new_string s)

  pub skip_text :
      (o : j.Json) (key key' : CString) (arg : Option CString)
      → str_eq key key' ≡ false
      → j.object_get (add_text j o key arg) key' ≡ j.object_get o key'
  unfolding add_text
  skip_text o key key' none other = refl
  skip_text o key key' (some s) other = get_other o (j.new_string s) other

  -- What is found under a key, by its kind.
  pub read_text :
      (o : j.Json) (key s : CString)
      → j.object_get o key ≡ some (j.new_string s)
      → param_str j (some o) key ≡ some s
  unfolding param_str
  read_text o key s found = rw (found, param_str) (laws.get_string-new_string s)

  pub read_number :
      (o : j.Json) (key : CString) (i def : ℤ)
      → j.object_get o key ≡ some (j.new_int i)
      → param_int j (some o) key def ≡ i
  unfolding param_int
  read_number o key i def found = rw (found, param_int) (laws.get_int-new_int i)

  pub read_flag :
      (o : j.Json) (key : CString) (x def : Bool)
      → j.object_get o key ≡ some (j.new_boolean x)
      → param_bool j (some o) key def ≡ x
  unfolding param_bool
  read_flag o key x def found = rw (found, param_bool) (laws.get_boolean-new_boolean x)

  -- A value, and behind it the window's id, under another key.
  module _ (v : j.Json) (key key' : CString) (id : Option CString) (other : str_eq key key' ≡ false)
      (other' : str_eq key' key ≡ false) (same : str_eq key key ≡ true)
      (same' : str_eq key' key' ≡ true) where
    abbrev pub pair : j.Json
    pair = add_text j (j.object_add j.new_object key v) key' id

    pub first_of : j.object_get pair key ≡ some v
    first_of =
        skip_text (j.object_add j.new_object key v) key' key id other'
        ∙ get_same j.new_object v same

    pub second_of : param_str j (some pair) key' ≡ id
    second_of = get_text _ key' id same' (get_other j.new_object v other ∙ laws.get-new_object key')

  -- Two values, and behind them a text.
  module _ (v v' : j.Json) (key key' key'' : CString) (id : Option CString)
      (same : str_eq key key ≡ true) (same' : str_eq key' key' ≡ true)
      (same'' : str_eq key'' key'' ≡ true) (skip : str_eq key'' key ≡ false)
      (skip' : str_eq key'' key' ≡ false) (other : str_eq key' key ≡ false)
      (before : str_eq key key'' ≡ false) (before' : str_eq key' key'' ≡ false) where
    abbrev pub two : j.Json
    two = j.object_add (j.object_add j.new_object key v) key' v'

    abbrev pub triple : j.Json
    triple = add_text j two key'' id

    pub get_first : j.object_get triple key ≡ some v
    get_first =
        skip_text two key'' key id skip
        ∙ get_other (j.object_add j.new_object key v) v' other
        ∙ get_same j.new_object v same

    pub get_second : j.object_get triple key' ≡ some v'
    get_second =
        skip_text two key'' key' id skip' ∙ get_same (j.object_add j.new_object key v) v' same'

    pub get_third : param_str j (some triple) key'' ≡ id
    get_third = get_text two key'' id same'' (
        get_other (j.object_add j.new_object key v) v' before'
        ∙ get_other j.new_object v before
        ∙ laws.get-new_object key'')
