-- ===== src/Json.antt =====
-- json-c, which is not part of the repository: what the program uses of it.
pub mod Values
pub mod Helpers
use axctl_c.Prelude.{
  ℕ, length, ◌≡◌, Bool, true, Option, none, some, List, [], ◌∷◌, ◌++◌, CString, str_eq,
  if◌then◌else◌, ℤ,
}

-- The operations. A key whose value is null is left out of the model. An object is a value here; where
-- the program shares one, it lies in a `Heap`.
pub record JsonC : Type 1 where
  pub Json : Type 0
  pub new_object : Json
  pub new_string : CString → Json
  pub new_boolean : Bool → Json
  pub new_int : ℤ → Json
  pub object_add : Json → CString → Json → Json
  -- `json_object_object_get_ex`: the value, or none if there is no such key
  pub object_get : Json → CString → Option Json
  -- `none` is a NULL result
  pub get_string : Json → Option CString
  -- the length of a string; 0 for any other value
  pub get_string_len : Json → ℕ
  pub get_boolean : Json → Bool
  pub get_int : Json → ℤ
  pub new_array : Json
  pub array_add : Json → Json → Json
  -- the items, or none for a value that is no array
  pub array_items : Json → Option (List Json)

-- Its documented behaviour, as far as the theorems rely on it.
pub record JsonLaws (j : JsonC) : Type 0 where
  -- adding replaces the value of the key, and leaves the other keys
  pub get-add :
      (o v : j.Json) (k k' : CString)
      → j.object_get (j.object_add o k v) k' ≡ (if str_eq k k' then some v else j.object_get o k')
  pub get-new_object : (k : CString) → j.object_get j.new_object k ≡ none
  pub get_string-new_string : (s : CString) → j.get_string (j.new_string s) ≡ some s
  pub get_string_len-new_string : (s : CString) → j.get_string_len (j.new_string s) ≡ length s
  pub get_boolean-new_boolean : (b : Bool) → j.get_boolean (j.new_boolean b) ≡ b
  pub get_int-new_int : (i : ℤ) → j.get_int (j.new_int i) ≡ i
  pub items-new_array : j.array_items j.new_array ≡ some []
  pub items-array_add :
      (a v : j.Json) {vs : List j.Json}
      → j.array_items a ≡ some vs
      → j.array_items (j.array_add a v) ≡ some (vs ++ v ∷ [])

-- What the configuration also uses: the values by their kinds, and the parser. `D` is C's `double`.
pub record JsonKinds (j : JsonC) (D : Type 0) : Type 0 where
  -- `json_object_object_foreach`: the keys and values in the order in which they were added; none for
  -- a value that is no object
  pub entries : j.Json → Option (List (CString × j.Json))
  pub is_int : j.Json → Bool
  pub is_string : j.Json → Bool
  pub get_double : j.Json → D
  -- `json_tokener_parse`
  pub parse : CString → Option j.Json

pub record KindsLaws (j : JsonC) {D : Type 0} (k : JsonKinds j D) : Type 0 where
  pub entries-new_object : k.entries j.new_object ≡ some []
  -- a new key stands behind the others
  pub entries-object_add :
      (o : j.Json) (key : CString) (v : j.Json) {es : List (CString × j.Json)}
      → k.entries o ≡ some es
      → j.object_get o key ≡ none
      → k.entries (j.object_add o key v) ≡ some (es ++ (key, v) ∷ [])
  pub is_int-new_int : (i : ℤ) → k.is_int (j.new_int i) ≡ true
  pub is_string-new_string : (s : CString) → k.is_string (j.new_string s) ≡ true
