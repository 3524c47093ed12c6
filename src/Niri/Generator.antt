-- ===== src/Niri/Generator.antt =====
-- src/ipc/niri/generator.c: the configuration in Niri's syntax. `%.2f` is a parameter; `%s` writes a
-- NULL pointer as `(null)`, as glibc does.
use axctl_c.Prelude.{List, [], ◌∷◌, ◌++◌, Option, none, some, CString, codes, if◌then◌else◌}
use axctl_c.Colors.{first_color}
use axctl_c.Text.{show_int, when_set, when_true, text_of, concat_map}
use axctl_c.Config.{Border, Opacity, Animations, Appearance, Gaps, Keybind, WindowRule, LayerRule}
use axctl_c.Hyprland.Generator.{used_key, dispatcher_or}

unfoldable pub gaps_block : Gaps → CString
unfolding when_set show_int
gaps_block g = when_set g.inner (λ i. codes "layout {\n    gaps " ++ show_int i ++ codes "\n}\n")

unfoldable pub color_block : CString → Option CString → CString
unfolding when_set first_color
color_block name color =
    when_set color
      λ c. codes "    border { " ++ name ++ codes " \"" ++ first_color (some c) ++ codes "\"; }\n"

unfoldable pub border_block : Border → CString
unfolding when_set show_int color_block
border_block b =
    codes "window-rule {\n    match is-active=true\n"
    ++ when_set b.width (λ i. codes "    border { width " ++ show_int i ++ codes "; }\n")
    ++ color_block (codes "active-color") b.active_color
    ++ color_block (codes "inactive-color") b.inactive_color
    ++ when_set b.rounding (λ i. codes "    corner-radius " ++ show_int i ++ codes "\n")
    ++ codes "}\n"

unfoldable pub animations_block : Animations → CString
unfolding when_set
animations_block a =
    when_set a.enabled (λ on. if on then [] else codes "animations {\n    off\n}\n")

module _ {D : Type 0} (show_double : D → CString) where
  unfoldable pub opacity_block : Opacity D → CString
  unfolding when_set
  opacity_block o =
      when_set o.active (λ v.
        codes "window-rule {\n    match is-active=true\n    opacity "
        ++ show_double v
        ++ codes "\n}\n")
      ++ when_set o.inactive (λ v.
        codes "window-rule {\n    match is-active=false\n    opacity "
        ++ show_double v
        ++ codes "\n}\n")

  unfoldable pub niri_generate_appearance : Appearance D → CString
  unfolding when_set gaps_block border_block opacity_block animations_block
  niri_generate_appearance cfg =
      codes "// Appearance (generated by axctl)\n"
      ++ when_set cfg.gaps gaps_block
      ++ when_set cfg.border border_block
      ++ when_set cfg.opacity opacity_block
      ++ when_set cfg.animations animations_block

-- Each modifier with a `+` behind it; one that is NULL adds only the `+`.
unfoldable pub modifiers_prefix : List (Option CString) → CString
modifiers_prefix [] = []
modifiers_prefix (m ∷ mods) = text_of m ++ codes "+" ++ modifiers_prefix mods

unfoldable pub bind_block : Keybind → CString
unfolding when_set used_key modifiers_prefix dispatcher_or
bind_block kb = when_set (used_key kb) λ key.
    codes "    "
    ++ modifiers_prefix kb.modifiers
    ++ key
    ++ codes " { "
    ++ dispatcher_or (codes "spawn") kb.dispatcher
    ++ codes " \""
    ++ text_of kb.argument
    ++ codes "\"; }\n"

unfoldable pub niri_generate_keybinds : List Keybind → CString
unfolding bind_block concat_map
niri_generate_keybinds [] = []
niri_generate_keybinds (kb ∷ binds) =
    codes "// Keybinds (generated by axctl)\nbinds {\n"
    ++ concat_map bind_block (kb ∷ binds)
    ++ codes "}\n"

unfoldable pub window_rule_block : WindowRule → CString
unfolding when_set when_true
window_rule_block r = when_set r.matches λ matched.
    codes "window-rule {\n    match "
    ++ matched
    ++ codes "\n"
    ++ when_true r.is_float (codes "    open-floating true\n")
    ++ when_true r.fullscreen (codes "    open-fullscreen true\n")
    ++ when_true r.no_shadow (codes "    draw-border-with-background false\n")
    ++ when_set r.size (λ s. codes "    default-column-width { fixed " ++ s ++ codes "; }\n")
    ++ codes "}\n"

unfoldable pub niri_generate_window_rules : List WindowRule → CString
unfolding window_rule_block concat_map
niri_generate_window_rules [] = []
niri_generate_window_rules (r ∷ rules) =
    codes "// Window Rules (generated by axctl)\n" ++ concat_map window_rule_block (r ∷ rules)

unfoldable pub layer_rule_block : {D : Type 0} → LayerRule D → CString
unfolding when_set when_true
layer_rule_block r = when_set r.namespace_str λ namespace.
    codes "layer-rule {\n    match namespace=\""
    ++ namespace
    ++ codes "\"\n"
    ++ when_true r.blur (codes "    blur { enable true; }\n")
    ++ when_true r.no_shadow (codes "    shadow { enable false; }\n")
    ++ codes "}\n"

unfoldable pub niri_generate_layer_rules : {D : Type 0} → List (LayerRule D) → CString
unfolding layer_rule_block concat_map
niri_generate_layer_rules [] = []
niri_generate_layer_rules (r ∷ rules) =
    codes "// Layer Rules (generated by axctl)\n" ++ concat_map layer_rule_block (r ∷ rules)

unfoldable pub spawn_line : Option CString → CString
spawn_line none = codes "spawn-at-startup \"(null)\"\n"
spawn_line (some s) = codes "spawn-at-startup \"" ++ s ++ codes "\"\n"

unfoldable pub niri_generate_startup : List (Option CString) → List (Option CString) → CString
unfolding spawn_line concat_map
niri_generate_startup exec exec_once =
    codes "// Startup (generated by axctl)\n"
    ++ concat_map spawn_line exec
    ++ concat_map spawn_line exec_once
