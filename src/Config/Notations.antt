-- ===== src/Config/Notations.antt =====
-- The two notations of src/ipc/config_types.c for a setting of the appearance.
use axctl_c.Prelude.{
  ◌≡◌, ap, ◌∙◌, [], ◌∷◌, ◌++◌, none, some, CString, codes, str_eq, ℤ, if◌then◌else◌, arith,
}
use axctl_c.Json.{JsonC, JsonLaws, JsonKinds, KindsLaws}
use axctl_c.Json.Helpers.{json_get_object, json_get_string}
use axctl_c.Config.{Gaps, Border, Opacity, Appearance, no_appearance}
use axctl_c.Config.Parse.{parse_appearance}

-- The settings that have both notations, with their values.
pub data Setting (j : JsonC) : Type 0 where
  inner outer width : ℤ → Setting j
  active_color inactive_color : CString → Setting j
  active inactive : j.Json → Setting j

module _ (j : JsonC) where
  unfoldable pub group_of : Setting j → CString
  group_of (inner i) = codes "gaps"
  group_of (outer i) = codes "gaps"
  group_of (width i) = codes "border"
  group_of (active_color s) = codes "border"
  group_of (inactive_color s) = codes "border"
  group_of (active v) = codes "opacity"
  group_of (inactive v) = codes "opacity"

  unfoldable pub name_of : Setting j → CString
  name_of (inner i) = codes "inner"
  name_of (outer i) = codes "outer"
  name_of (width i) = codes "width"
  name_of (active_color s) = codes "active_color"
  name_of (inactive_color s) = codes "inactive_color"
  name_of (active v) = codes "active"
  name_of (inactive v) = codes "inactive"

  unfoldable pub value_of : Setting j → j.Json
  value_of (inner i) = j.new_int i
  value_of (outer i) = j.new_int i
  value_of (width i) = j.new_int i
  value_of (active_color s) = j.new_string s
  value_of (inactive_color s) = j.new_string s
  value_of (active v) = v
  value_of (inactive v) = v

  abbrev pub one : CString → j.Json → j.Json
  one key v = j.object_add j.new_object key v

  -- `{"gaps.inner": 5}` and `{"gaps": {"inner": 5}}`
  unfoldable pub flat : Setting j → j.Json
  unfolding group_of name_of value_of
  flat s = one (group_of s ++ codes "." ++ name_of s) (value_of s)

  unfoldable pub nested : Setting j → j.Json
  unfolding group_of name_of value_of
  nested s = one (group_of s) (one (name_of s) (value_of s))

module _ (j : JsonC) (laws : JsonLaws j) {D : Type 0} (k : JsonKinds j D)
    (more : KindsLaws j k) where
  get_one :
      (key key' : CString) (v : j.Json)
      → j.object_get (one j key v) key' ≡ (if str_eq key key' then some v else none)
  get_one key key' v =
      laws.get-add j.new_object v key key'
      ∙ ap (λ o. if str_eq key key' then some v else o) (laws.get-new_object key')

  entries_one : (key : CString) (v : j.Json) → k.entries (one j key v) ≡ some ((key, v) ∷ [])
  entries_one key v =
      more.entries-object_add j.new_object key v more.entries-new_object (laws.get-new_object key)

  -- The reads of the appearance on an object with one key.
  abbrev Lone : CString → j.Json → Type 0
  Lone key v =
      (k.entries (one j key v) ≡ some ((key, v) ∷ []))
      × (j.object_get (one j key v) (codes "gaps")
          ≡ (if str_eq key (codes "gaps") then some v else none))
      × (j.object_get (one j key v) (codes "border")
          ≡ (if str_eq key (codes "border") then some v else none))
      × (j.object_get (one j key v) (codes "opacity")
          ≡ (if str_eq key (codes "opacity") then some v else none))
      × (j.object_get (one j key v) (codes "blur")
          ≡ (if str_eq key (codes "blur") then some v else none))
      × (j.object_get (one j key v) (codes "shadow")
          ≡ (if str_eq key (codes "shadow") then some v else none))
      × (j.object_get (one j key v) (codes "animations")
          ≡ (if str_eq key (codes "animations") then some v else none))
      × (j.object_get (one j key v) (codes "layout")
          ≡ (if str_eq key (codes "layout") then some v else none))

  lone : (key : CString) (v : j.Json) → Lone key v
  lone key v = (
    entries_one key v,
    get_one key (codes "gaps") v,
    get_one key (codes "border") v,
    get_one key (codes "opacity") v,
    get_one key (codes "blur") v,
    get_one key (codes "shadow") v,
    get_one key (codes "animations") v,
    get_one key (codes "layout") v,
  )

  -- The appearance with one setting.
  abbrev gaps_with : Gaps → Appearance D
  gaps_with g = record no_appearance { gaps = some g }

  abbrev border_with : Border → Appearance D
  border_with b = record no_appearance { border = some b }

  abbrev opacity_with : Opacity D → Appearance D
  opacity_with o = record no_appearance { opacity = some o }

  abbrev no_border : Border
  no_border = record { width = none; active_color = none; inactive_color = none; rounding = none }

  unfoldable pub appearance_of : Setting j → Appearance D
  appearance_of (inner i) = gaps_with (record { inner = some i; outer = none })
  appearance_of (outer i) = gaps_with (record { inner = none; outer = some i })
  appearance_of (width i) = border_with (record no_border { width = some i })
  appearance_of (active_color s) = border_with (record no_border { active_color = some s })
  appearance_of (inactive_color s) = border_with (record no_border { inactive_color = some s })
  appearance_of (active v) =
      opacity_with (record { active = some (k.get_double v); inactive = none })
  appearance_of (inactive v) =
      opacity_with (record { active = none; inactive = some (k.get_double v) })

  parse_appearance-flat : (s : Setting j) → parse_appearance j k (flat j s) ≡ appearance_of s
  unfolding flat parse_appearance str_eq json_get_object json_get_string appearance_of
  parse_appearance-flat (inner i) = ground (
    arith,
    lone (codes "gaps.inner") (j.new_int i),
    more.is_int-new_int i,
    laws.get_int-new_int i,
  )
  parse_appearance-flat (outer i) = ground (
    arith,
    lone (codes "gaps.outer") (j.new_int i),
    more.is_int-new_int i,
    laws.get_int-new_int i,
  )
  parse_appearance-flat (width i) = ground (
    arith,
    lone (codes "border.width") (j.new_int i),
    more.is_int-new_int i,
    laws.get_int-new_int i,
  )
  parse_appearance-flat (active_color s) = ground (
    arith,
    lone (codes "border.active_color") (j.new_string s),
    more.is_string-new_string s,
    laws.get_string-new_string s,
  )
  parse_appearance-flat (inactive_color s) = ground (
    arith,
    lone (codes "border.inactive_color") (j.new_string s),
    more.is_string-new_string s,
    laws.get_string-new_string s,
  )
  parse_appearance-flat (active v) = ground (arith, lone (codes "opacity.active") v)
  parse_appearance-flat (inactive v) = ground (arith, lone (codes "opacity.inactive") v)

  parse_appearance-nested : (s : Setting j) → parse_appearance j k (nested j s) ≡ appearance_of s
  unfolding nested parse_appearance str_eq json_get_object json_get_string appearance_of
  parse_appearance-nested (inner i) = ground (
    arith,
    lone (codes "gaps") (one j (codes "inner") (j.new_int i)),
    entries_one (codes "inner") (j.new_int i),
    get_one (codes "inner") (codes "inner") (j.new_int i),
    get_one (codes "inner") (codes "outer") (j.new_int i),
    more.is_int-new_int i,
    laws.get_int-new_int i,
  )
  parse_appearance-nested (outer i) = ground (
    arith,
    lone (codes "gaps") (one j (codes "outer") (j.new_int i)),
    entries_one (codes "outer") (j.new_int i),
    get_one (codes "outer") (codes "inner") (j.new_int i),
    get_one (codes "outer") (codes "outer") (j.new_int i),
    more.is_int-new_int i,
    laws.get_int-new_int i,
  )
  parse_appearance-nested (width i) = ground (
    arith,
    lone (codes "border") (one j (codes "width") (j.new_int i)),
    entries_one (codes "width") (j.new_int i),
    get_one (codes "width") (codes "width") (j.new_int i),
    get_one (codes "width") (codes "active_color") (j.new_int i),
    get_one (codes "width") (codes "inactive_color") (j.new_int i),
    get_one (codes "width") (codes "rounding") (j.new_int i),
    more.is_int-new_int i,
    laws.get_int-new_int i,
  )
  parse_appearance-nested (active_color s) = ground (
    arith,
    lone (codes "border") (one j (codes "active_color") (j.new_string s)),
    entries_one (codes "active_color") (j.new_string s),
    get_one (codes "active_color") (codes "width") (j.new_string s),
    get_one (codes "active_color") (codes "active_color") (j.new_string s),
    get_one (codes "active_color") (codes "inactive_color") (j.new_string s),
    get_one (codes "active_color") (codes "rounding") (j.new_string s),
    more.is_string-new_string s,
    laws.get_string-new_string s,
  )
  parse_appearance-nested (inactive_color s) = ground (
    arith,
    lone (codes "border") (one j (codes "inactive_color") (j.new_string s)),
    entries_one (codes "inactive_color") (j.new_string s),
    get_one (codes "inactive_color") (codes "width") (j.new_string s),
    get_one (codes "inactive_color") (codes "active_color") (j.new_string s),
    get_one (codes "inactive_color") (codes "inactive_color") (j.new_string s),
    get_one (codes "inactive_color") (codes "rounding") (j.new_string s),
    more.is_string-new_string s,
    laws.get_string-new_string s,
  )
  parse_appearance-nested (active v) = ground (
    arith,
    lone (codes "opacity") (one j (codes "active") v),
    entries_one (codes "active") v,
    get_one (codes "active") (codes "active") v,
    get_one (codes "active") (codes "inactive") v,
  )
  parse_appearance-nested (inactive v) = ground (
    arith,
    lone (codes "opacity") (one j (codes "inactive") v),
    entries_one (codes "inactive") v,
    get_one (codes "inactive") (codes "active") v,
    get_one (codes "inactive") (codes "inactive") v,
  )

  -- A setting of the gaps, of the width and the colors of the border, or of the opacity means the same
  -- in both notations, with a dot in its key or in an object of its own: that setting alone.
  pub parse_appearance-notations :
      (s : Setting j)
      → (parse_appearance j k (flat j s) ≡ appearance_of s)
        × (parse_appearance j k (nested j s) ≡ appearance_of s)
  parse_appearance-notations s = (parse_appearance-flat s, parse_appearance-nested s)
