-- ===== src/Json/Values.antt =====
-- Json-c's operations on a data type of values, with which the tests run.
use axctl_c.Prelude.{
  length, refl, Bool, false, Option, none, some, CString, ℤ, pos, List, [], ◌∷◌, ◌++◌,
  if◌then◌else◌, str_eq, true,
}
use axctl_c.Json.{JsonC, JsonLaws, JsonKinds, KindsLaws}

-- Objects as chains of keys, the last added first.
pub data Value : Type 0 where
  empty : Value
  text : CString → Value
  flag : Bool → Value
  number : ℤ → Value
  entry : CString → Value → Value → Value
  no_items : Value
  item : Value → Value → Value

unfoldable pub lookup : Value → CString → Option Value
lookup (entry k v o) k' = if str_eq k k' then some v else lookup o k'
lookup empty k' = none
lookup (text s) k' = none
lookup (flag b) k' = none
lookup (number i) k' = none
lookup no_items k' = none
lookup (item a v) k' = none

unfoldable pub text_of : Value → Option CString
text_of (text s) = some s
text_of empty = none
text_of (flag b) = none
text_of (number i) = none
text_of (entry k v o) = none
text_of no_items = none
text_of (item a v) = none

unfoldable pub flag_of : Value → Bool
flag_of (flag b) = b
flag_of empty = false
flag_of (text s) = false
flag_of (number i) = false
flag_of (entry k v o) = false
flag_of no_items = false
flag_of (item a v) = false

unfoldable pub number_of : Value → ℤ
number_of (number i) = i
number_of empty = pos 0
number_of (text s) = pos 0
number_of (flag b) = pos 0
number_of (entry k v o) = pos 0
number_of no_items = pos 0
number_of (item a v) = pos 0

unfoldable pub items_of : Value → Option (List Value)
items_of no_items = some []
items_of (item a v) = elim (items_of a) [ none ↦ none | some vs ↦ some (vs ++ v ∷ []) ]
items_of empty = none
items_of (text s) = none
items_of (flag b) = none
items_of (number i) = none
items_of (entry k v o) = none

abbrev pub values : JsonC
values = record {
  Json = Value;
  new_object = empty;
  new_string = text;
  new_boolean = flag;
  new_int = number;
  object_add = λ o k v. entry k v o;
  object_get = lookup;
  get_string = text_of;
  get_string_len = λ v. elim (text_of v) [ none ↦ 0 | some s ↦ length s ];
  get_boolean = flag_of;
  get_int = number_of;
  new_array = no_items;
  array_add = item;
  array_items = items_of;
}

pub values-JsonLaws : JsonLaws values
unfolding lookup text_of flag_of number_of items_of
values-JsonLaws = record {
  get-add = λ o v k k'. refl;
  get-new_object = λ k. refl;
  get_string-new_string = λ s. refl;
  get_string_len-new_string = λ s. refl;
  get_boolean-new_boolean = λ b. refl;
  get_int-new_int = λ i. refl;
  items-new_array = refl;
  items-array_add = λ a v h. rw (h, items_of);
}

-- The value of a key that is there, replaced in its place.
unfoldable pub replaced : CString → Value → List (CString × Value) → List (CString × Value)
replaced k v [] = []
replaced k v ((k', v') ∷ es) = (k', if str_eq k k' then v else v') ∷ replaced k v es

unfoldable pub entries_of : Value → Option (List (CString × Value))
unfolding lookup replaced
entries_of empty = some []
entries_of (entry k v o) = elim (entries_of o) [
  | none ↦ none
  | some es ↦ elim (lookup o k) [
    | none ↦ some (es ++ (k, v) ∷ [])
    | some old ↦ some (replaced k v es)
  ]
]
entries_of (text s) = none
entries_of (flag b) = none
entries_of (number i) = none
entries_of no_items = none
entries_of (item a v) = none

unfoldable pub is_number : Value → Bool
is_number (number i) = true
is_number empty = false
is_number (text s) = false
is_number (flag b) = false
is_number (entry k v o) = false
is_number no_items = false
is_number (item a v) = false

unfoldable pub is_text : Value → Bool
unfolding text_of
is_text v = elim (text_of v) [ none ↦ false | some s ↦ true ]

-- The whole numbers as `double`s, and a parser that knows the text `{}`.
abbrev pub kinds : JsonKinds values ℤ
kinds = record {
  entries = entries_of;
  is_int = is_number;
  is_string = is_text;
  get_double = number_of;
  parse = λ s. if str_eq s (b'{' ∷ b'}' ∷ []) then some empty else none;
}

pub kinds-KindsLaws : KindsLaws values kinds
unfolding entries_of is_number is_text
kinds-KindsLaws = record {
  entries-new_object = refl;
  entries-object_add = λ o key v h new. rw (h, entries_of) rw (new) refl;
  is_int-new_int = λ i. refl;
  is_string-new_string = λ s. refl;
}
