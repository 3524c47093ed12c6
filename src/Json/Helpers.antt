-- ===== src/Json/Helpers.antt =====
-- src/utils/json_helpers.c, and the same reads where other files write them out.
use axctl_c.Prelude.{Bool, Option, none, some, [], CString, ℤ}
use axctl_c.Json.{JsonC, JsonKinds}

-- `json_object_new_string(s ? s : "")`
unfoldable pub string_or_empty : (j : JsonC) → Option CString → j.Json
string_or_empty j none = j.new_string []
string_or_empty j (some s) = j.new_string s

module _ (j : JsonC) where
  unfoldable pub json_get_string : j.Json → CString → CString
  json_get_string obj key = elim (j.object_get obj key) [
    | none ↦ []
    | some val ↦ elim (j.get_string val) [ none ↦ [] | some s ↦ s ]
  ]

  unfoldable pub json_get_int : j.Json → CString → ℤ → ℤ
  json_get_int obj key def = elim (j.object_get obj key) [ none ↦ def | some val ↦ j.get_int val ]

  unfoldable pub json_get_bool : j.Json → CString → Bool → Bool
  json_get_bool obj key def = elim (j.object_get obj key) [
    | none ↦ def
    | some val ↦ j.get_boolean val
  ]

  unfoldable pub json_get_array : j.Json → CString → Option j.Json
  json_get_array obj key = elim (j.object_get obj key) [
    | none ↦ none
    | some val ↦ elim (j.array_items val) [ none ↦ none | some items ↦ some val ]
  ]

  unfoldable pub json_create_metadata : j.Json
  json_create_metadata = j.new_object

  unfoldable pub json_metadata_add_string : j.Json → CString → Option CString → j.Json
  unfolding string_or_empty
  json_metadata_add_string meta key val = j.object_add meta key (string_or_empty j val)

  unfoldable pub json_metadata_add_int : j.Json → CString → ℤ → j.Json
  json_metadata_add_int meta key val = j.object_add meta key (j.new_int val)

  -- The reads of server.c, whose object may be NULL.
  unfoldable pub param_str : Option j.Json → CString → Option CString
  param_str none key = none
  param_str (some params) key = elim (j.object_get params key) [
    | none ↦ none
    | some val ↦ j.get_string val
  ]

  unfoldable pub param_str_safe : Option j.Json → CString → CString
  unfolding param_str
  param_str_safe params key = elim (param_str params key) [ none ↦ [] | some s ↦ s ]

  unfoldable pub param_int : Option j.Json → CString → ℤ → ℤ
  param_int none key def = def
  param_int (some params) key def = elim (j.object_get params key) [
    | none ↦ def
    | some val ↦ j.get_int val
  ]

  unfoldable pub param_bool : Option j.Json → CString → Bool → Bool
  param_bool none key def = def
  param_bool (some params) key def = elim (j.object_get params key) [
    | none ↦ def
    | some val ↦ j.get_boolean val
  ]

  module _ {D : Type 0} (k : JsonKinds j D) where
    unfoldable pub json_get_double : j.Json → CString → D → D
    json_get_double obj key def = elim (j.object_get obj key) [
      | none ↦ def
      | some val ↦ k.get_double val
    ]

    unfoldable pub json_get_object : j.Json → CString → Option j.Json
    json_get_object obj key = elim (j.object_get obj key) [
      | none ↦ none
      | some val ↦ elim (k.entries val) [ none ↦ none | some es ↦ some val ]
    ]
