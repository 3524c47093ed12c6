-- ===== src/Hyprland/Lua/Appearance.antt =====
-- src/ipc/hyprland/generator.c: the appearance as a program of Lua.
use axctl_c.Prelude.{
  ◌-◌, Bool, true, false, ◌||◌, ◌&&◌, List, [], ◌∷◌, ◌++◌, Option, none, some, CString, codes,
  str_eq, ltb, ◌==◌, if◌then◌else◌, length, take, drop, ℤ,
}
use axctl_c.Colors.{parse_color_string}
use axctl_c.Text.{show_int, when_set, bool_text}
use axctl_c.Config.{Gaps, Border, Opacity, Blur, Shadow, Animations, Appearance}

unfoldable pub number_line : CString → Option ℤ → CString
unfolding when_set show_int
number_line before v = when_set v (λ i. before ++ show_int i ++ codes ",\n")

unfoldable pub flag_line : CString → Option Bool → CString
unfolding when_set
flag_line before v = when_set v (λ b. before ++ bool_text b ++ codes ",\n")

-- `"    name = \"%s\",\n"` for the colors of a color string, if there are any
unfoldable pub color_line : CString → Option CString → CString
unfolding when_set parse_color_string
color_line before none = []
color_line before (some color) =
    when_set (parse_color_string (some color)).0
      (λ colors. before ++ codes "\"" ++ colors ++ codes "\",\n")

-- The angle without `deg` behind it.
unfoldable pub angle_number : CString → CString
angle_number angle =
    if ltb 3 (length angle) && str_eq (drop (length angle - 3) angle) (codes "deg")
    then take (length angle - 3) angle
    else angle

-- The words between spaces, which `strtok_r` answers.
unfoldable pub add_word : CString → List CString → List CString
add_word [] words = words
add_word (c ∷ word) words = (c ∷ word) ∷ words

unfoldable pub words_from : CString → CString → List CString
unfolding add_word
words_from word [] = add_word word []
words_from word (c ∷ s) = elim (c == b' ') [
  | true ↦ add_word word (words_from [] s)
  | false ↦ words_from (word ++ c ∷ []) s
]

unfoldable pub quoted_words : List CString → CString
quoted_words [] = []
quoted_words (w ∷ []) = codes "\"" ++ w ++ codes "\""
quoted_words (w ∷ v ∷ words) = codes "\"" ++ w ++ codes "\", " ++ quoted_words (v ∷ words)

unfoldable pub active_line : Option CString × Option CString → CString
unfolding words_from quoted_words angle_number
active_line (none, angle) = []
active_line (some colors, none) = codes "            active_border = \"" ++ colors ++ codes "\",\n"
active_line (some colors, some angle) =
    codes "            active_border = { colors = {"
    ++ quoted_words (words_from [] colors)
    ++ codes "}, angle = "
    ++ angle_number angle
    ++ codes " },\n"

unfoldable pub active_border : Option CString → CString
unfolding active_line parse_color_string
active_border none = []
active_border (some color) = active_line (parse_color_string (some color))

abbrev is_set {ℓ} : {A : Type ℓ} → Option A → Bool
is_set none = false
is_set (some a) = true

-- The table of the colors, if one of them is set.
unfoldable pub col_table : Border → CString
unfolding active_border color_line
col_table b =
    if is_set b.active_color || is_set b.inactive_color
    then codes "        col = {\n"
      ++ active_border b.active_color
      ++ color_line (codes "            inactive_border = ") b.inactive_color
      ++ codes "        },\n"
    else []

-- `layout && *layout`
unfoldable pub layout_of : Option CString → Option CString
layout_of none = none
layout_of (some []) = none
layout_of (some (c ∷ s)) = some (c ∷ s)

unfoldable pub gaps_fields : Gaps → CString
unfolding number_line
gaps_fields g =
    number_line (codes "        gaps_in = ") g.inner
    ++ number_line (codes "        gaps_out = ") g.outer

unfoldable pub border_fields : Border → CString
unfolding number_line col_table
border_fields b = number_line (codes "        border_size = ") b.width ++ col_table b

unfoldable pub blur_table : Blur → CString
unfolding number_line flag_line
blur_table b =
    codes "        blur = {\n"
    ++ flag_line (codes "            enabled = ") b.enabled
    ++ number_line (codes "            size = ") b.size
    ++ number_line (codes "            passes = ") b.passes
    ++ codes "        },\n"

-- The table of the shadow is written only if its flag is set.
unfoldable pub shadow_table : Shadow → CString
unfolding when_set number_line color_line
shadow_table s = when_set s.enabled λ on.
    codes "        shadow = {\n            enabled = "
    ++ bool_text on
    ++ codes ",\n"
    ++ number_line (codes "            range = ") s.size
    ++ color_line (codes "            color = ") s.color
    ++ codes "        },\n"

-- The calls behind the flag of the animations.
abbrev pub curves : CString
curves =
    codes "hl.curve(\"myBezier\", { type = \"bezier\", points = { {0.4, 0.0}, {0.2, 1.0} } })\n\n"
    ++ codes
        "hl.animation({ leaf = \"windows\", enabled = true, speed = 2.5, bezier = \"myBezier\", style = \"popin 80%\" })\n"
    ++ codes
        "hl.animation({ leaf = \"border\", enabled = true, speed = 2.5, bezier = \"myBezier\" })\n"
    ++ codes
        "hl.animation({ leaf = \"fade\", enabled = true, speed = 2.5, bezier = \"myBezier\" })\n"
    ++ codes
        "hl.animation({ leaf = \"workspaces\", enabled = true, speed = 2.5, bezier = \"myBezier\", style = \"slidefade 20%\" })\n"

unfoldable pub animations_calls : Animations → CString
unfolding when_set
animations_calls a = when_set a.enabled λ on.
    codes "hl.config({\n    animations = { enabled = "
    ++ bool_text on
    ++ codes " },\n})\n\n"
    ++ (if on then curves else [])

module _ {D : Type 0} (show_double : D → CString) where
  unfoldable pub needs_general : Appearance D → Bool
  unfolding layout_of
  needs_general cfg = is_set cfg.gaps || is_set cfg.border || is_set (layout_of cfg.layout)

  abbrev has_rounding : Option Border → Bool
  has_rounding none = false
  has_rounding (some b) = is_set b.rounding

  unfoldable pub needs_decoration : Appearance D → Bool
  needs_decoration cfg =
      has_rounding cfg.border || is_set cfg.opacity || is_set cfg.shadow || is_set cfg.blur

  unfoldable pub general_table : Appearance D → CString
  unfolding when_set gaps_fields border_fields layout_of
  general_table cfg =
      codes "    general = {\n"
      ++ when_set cfg.gaps gaps_fields
      ++ when_set cfg.border border_fields
      ++ when_set (layout_of cfg.layout) (λ s. codes "        layout = \"" ++ s ++ codes "\",\n")
      ++ codes "    },\n"

  unfoldable pub opacity_fields : Opacity D → CString
  unfolding when_set
  opacity_fields o =
      when_set o.active (λ v. codes "        active_opacity = " ++ show_double v ++ codes ",\n")
      ++ when_set o.inactive
          (λ v. codes "        inactive_opacity = " ++ show_double v ++ codes ",\n")

  unfoldable pub decoration_table : Appearance D → CString
  unfolding when_set number_line opacity_fields shadow_table blur_table
  decoration_table cfg =
      codes "    decoration = {\n"
      ++ when_set cfg.border (λ b. number_line (codes "        rounding = ") b.rounding)
      ++ when_set cfg.opacity opacity_fields
      ++ when_set cfg.shadow shadow_table
      ++ when_set cfg.blur blur_table
      ++ codes "    },\n"

  -- One call with both tables, either of them, or none.
  unfoldable pub config_call : Appearance D → CString
  unfolding needs_general needs_decoration general_table decoration_table
  config_call cfg =
      (if needs_general cfg then codes "hl.config({\n" ++ general_table cfg else [])
      ++ (if needs_decoration cfg
          then (if needs_general cfg then [] else codes "hl.config({\n") ++ decoration_table cfg
          else [])
      ++ (if needs_general cfg || needs_decoration cfg then codes "})\n\n" else [])

  unfoldable pub hyprland_generate_appearance_lua : Appearance D → CString
  unfolding config_call animations_calls when_set
  hyprland_generate_appearance_lua cfg =
      codes "-- Appearance (generated by axctl)\n"
      ++ config_call cfg
      ++ when_set cfg.animations animations_calls
