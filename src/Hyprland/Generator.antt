-- ===== src/Hyprland/Generator.antt =====
-- src/ipc/hyprland/generator.c: the configuration in Hyprland's own syntax. `%.2f` is a parameter.
use axctl_c.Prelude.{
  Bool, true, false, ◌&&◌, List, [], ◌∷◌, ◌++◌, Option, none, some, CString, codes, ◌==◌, ℤ,
  if◌then◌else◌,
}
use axctl_c.Strutil.{tolower}
use axctl_c.Colors.{parse_color_string}
use axctl_c.Text.{show_int, when_set, when_true, bool_text, text_of, concat_map}
use axctl_c.Config.{
  Gaps, Border, Opacity, Blur, Shadow, Animations, Appearance, Keybind, WindowRule, LayerRule,
}

-- A line of the form `name = value`.
unfoldable pub setting : CString → CString → CString
setting name value = name ++ codes " = " ++ value ++ codes "\n"

unfoldable pub number_setting : CString → Option ℤ → CString
unfolding when_set setting show_int
number_setting name v = when_set v (λ i. setting name (show_int i))

unfoldable pub flag_setting : CString → Option Bool → CString
unfolding when_set setting
flag_setting name v = when_set v (λ b. setting name (bool_text b))

-- The colors, with the angle of a gradient behind them; nothing if there is no color.
unfoldable pub colors_text : Option CString × Option CString → CString → CString
unfolding setting
colors_text (none, angle) name = []
colors_text (some colors, none) name = setting name colors
colors_text (some colors, some angle) name = setting name (colors ++ codes " " ++ angle)

unfoldable pub color_setting : CString → Option CString → CString
unfolding colors_text parse_color_string
color_setting name none = []
color_setting name (some color) = colors_text (parse_color_string (some color)) name

-- The color of a shadow has no angle.
unfoldable pub shadow_setting : CString → Option CString → CString
unfolding colors_text parse_color_string
shadow_setting name none = []
shadow_setting name (some color) = colors_text ((parse_color_string (some color)).0, none) name

unfoldable pub gaps_lines : Gaps → CString
unfolding number_setting
gaps_lines g =
    number_setting (codes "general:gaps_in") g.inner
    ++ number_setting (codes "general:gaps_out") g.outer

unfoldable pub border_lines : Border → CString
unfolding number_setting color_setting
border_lines b =
    number_setting (codes "general:border_size") b.width
    ++ color_setting (codes "general:col.active_border") b.active_color
    ++ color_setting (codes "general:col.inactive_border") b.inactive_color
    ++ number_setting (codes "decoration:rounding") b.rounding

unfoldable pub blur_lines : Blur → CString
unfolding number_setting flag_setting
blur_lines b =
    flag_setting (codes "decoration:blur:enabled") b.enabled
    ++ number_setting (codes "decoration:blur:size") b.size
    ++ number_setting (codes "decoration:blur:passes") b.passes

unfoldable pub shadow_lines : Shadow → CString
unfolding number_setting flag_setting shadow_setting
shadow_lines s =
    flag_setting (codes "decoration:shadow:enabled") s.enabled
    ++ number_setting (codes "decoration:shadow:range") s.size
    ++ shadow_setting (codes "decoration:shadow:color") s.color

unfoldable pub animations_lines : Animations → CString
unfolding flag_setting
animations_lines a = flag_setting (codes "animations:enabled") a.enabled

module _ {D : Type 0} (show_double : D → CString) where
  unfoldable pub opacity_lines : Opacity D → CString
  unfolding when_set setting
  opacity_lines o =
      when_set o.active (λ v. setting (codes "decoration:active_opacity") (show_double v))
      ++ when_set o.inactive (λ v. setting (codes "decoration:inactive_opacity") (show_double v))

  unfoldable pub hyprland_generate_appearance : Appearance D → CString
  unfolding when_set gaps_lines border_lines opacity_lines blur_lines shadow_lines animations_lines
      setting
  hyprland_generate_appearance cfg =
      codes "# Appearance (generated by axctl)\n"
      ++ when_set cfg.gaps gaps_lines
      ++ when_set cfg.border border_lines
      ++ when_set cfg.opacity opacity_lines
      ++ when_set cfg.blur blur_lines
      ++ when_set cfg.shadow shadow_lines
      ++ when_set cfg.animations animations_lines
      ++ when_set cfg.layout (λ layout. setting (codes "general:layout") layout)

  -- The rule on alpha has a value, or none.
  unfoldable pub alpha_rule : LayerRule D → CString → CString
  alpha_rule r namespace = elim r.ignore_alpha_value [
    | none ↦ codes "layerrule = ignorealpha, " ++ namespace ++ codes "\n"
    | some v ↦
        codes "layerrule = ignorealpha " ++ show_double v ++ codes ", " ++ namespace ++ codes "\n"
  ]

  unfoldable pub layer_rule_lines : LayerRule D → CString
  unfolding when_true when_set alpha_rule
  layer_rule_lines r = when_set r.namespace_str λ namespace.
      when_true r.blur (codes "layerrule = blur, " ++ namespace ++ codes "\n")
      ++ when_true r.no_anim (codes "layerrule = noanim, " ++ namespace ++ codes "\n")
      ++ when_true r.no_shadow (codes "layerrule = noshadow, " ++ namespace ++ codes "\n")
      ++ when_true r.ignore_alpha (alpha_rule r namespace)

  unfoldable pub hyprland_generate_layer_rules : List (LayerRule D) → CString
  unfolding layer_rule_lines concat_map
  hyprland_generate_layer_rules [] = []
  hyprland_generate_layer_rules (r ∷ rules) =
      codes "# Layer Rules (generated by axctl)\n" ++ concat_map layer_rule_lines (r ∷ rules)

-- `kb->enabled && kb->key && *kb->key`: the key of a binding that is used.
unfoldable pub used_key : Keybind → Option CString
used_key kb = elim kb.key [
  | none ↦ none
  | some [] ↦ none
  | some (c ∷ key) ↦ if kb.enabled then some (c ∷ key) else none
]

-- The loop over the modifiers; one that is NULL adds nothing but the separator.
unfoldable pub modifiers_text : CString → List (Option CString) → CString
modifiers_text separator [] = []
modifiers_text separator (m ∷ []) = text_of m
modifiers_text separator (m ∷ m' ∷ mods) =
    text_of m ++ separator ++ modifiers_text separator (m' ∷ mods)

-- `strncasecmp(s, prefix, n) == 0`, for a prefix of `n` bytes
unfoldable pub has_prefix_ci : CString → CString → Bool
unfolding tolower
has_prefix_ci s [] = true
has_prefix_ci [] (p ∷ prefix) = false
has_prefix_ci (c ∷ s) (p ∷ prefix) = (tolower c == tolower p) && has_prefix_ci s prefix

unfoldable pub is_mouse : CString → Bool
unfolding has_prefix_ci
is_mouse key = has_prefix_ci key (codes "mouse:")

-- `kb->argument && *kb->argument`
unfoldable pub argument_text : Option CString → CString
argument_text none = []
argument_text (some []) = []
argument_text (some (c ∷ s)) = codes ", " ++ c ∷ s

-- `dispatcher ? dispatcher : "exec"`
unfoldable pub dispatcher_or : CString → Option CString → CString
dispatcher_or other none = other
dispatcher_or other (some d) = d

unfoldable pub bind_line : Keybind → CString
unfolding when_set used_key modifiers_text is_mouse argument_text dispatcher_or
bind_line kb = when_set (used_key kb) λ key.
    (if is_mouse key then codes "bindm" else codes "bind")
    ++ codes " = "
    ++ modifiers_text (codes " ") kb.modifiers
    ++ codes ", "
    ++ key
    ++ codes ", "
    ++ dispatcher_or (codes "exec") kb.dispatcher
    ++ argument_text kb.argument
    ++ codes "\n"

unfoldable pub hyprland_generate_keybinds : List Keybind → CString
unfolding bind_line concat_map
hyprland_generate_keybinds [] = []
hyprland_generate_keybinds (kb ∷ binds) =
    codes "# Keybinds (generated by axctl)\n" ++ concat_map bind_line (kb ∷ binds)

-- The single line of a rule, or its fields on one line.
unfoldable pub fields_line : WindowRule → CString → CString
unfolding when_true when_set
fields_line r matched =
    codes "windowrulev2 = "
    ++ when_true r.is_float (codes "float, ")
    ++ when_true r.fullscreen (codes "fullscreen, ")
    ++ when_true r.pin (codes "pin, ")
    ++ when_true r.no_blur (codes "noblur, ")
    ++ when_true r.no_shadow (codes "noshadow, ")
    ++ when_true r.idle_inhibit (codes "idleinhibit always, ")
    ++ when_set r.size (λ s. codes "size " ++ s ++ codes ", ")
    ++ when_set r.move (λ s. codes "move " ++ s ++ codes ", ")
    ++ matched
    ++ codes "\n"

unfoldable pub window_rule_line : WindowRule → CString
unfolding when_set fields_line
window_rule_line r = when_set r.matches λ matched. elim r.rule [
  | none ↦ fields_line r matched
  | some rule ↦ codes "windowrulev2 = " ++ rule ++ codes ", " ++ matched ++ codes "\n"
]

unfoldable pub hyprland_generate_window_rules : List WindowRule → CString
unfolding window_rule_line concat_map
hyprland_generate_window_rules [] = []
hyprland_generate_window_rules (r ∷ rules) =
    codes "# Window Rules (generated by axctl)\n" ++ concat_map window_rule_line (r ∷ rules)

-- A command that is not empty, as a line.
unfoldable pub command_line : CString → Option CString → CString
command_line before none = []
command_line before (some []) = []
command_line before (some (c ∷ s)) = before ++ (c ∷ s) ++ codes "\n"

unfoldable pub hyprland_generate_startup : List (Option CString) → List (Option CString) → CString
unfolding command_line concat_map
hyprland_generate_startup exec exec_once =
    codes "# Startup (generated by axctl)\n"
    ++ concat_map (command_line (codes "exec-once = ")) exec_once
    ++ concat_map (command_line (codes "exec = ")) exec
