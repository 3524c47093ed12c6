-- ===== src/Hyprland/Lua.antt =====
-- src/ipc/hyprland/generator.c: the configuration as a program of Lua. `%.2f` is a parameter.
mod Appearance
use axctl_c.Prelude.{
  ℕ, Bool, true, false, ◌||◌, List, [], ◌∷◌, ◌++◌, Option, none, some, CString, codes, str_eq, ◌==◌,
  if◌then◌else◌, ℤ,
}
pub use Appearance.{hyprland_generate_appearance_lua}
use axctl_c.Text.{show_int, when_set, when_true, text_of, concat_map}
use axctl_c.Config.{Keybind, WindowRule, LayerRule}
use axctl_c.Hyprland.Quote.{lua_quote}
use axctl_c.Hyprland.Actions.{dispatcher_to_lua, bind_flags_to_lua}
use axctl_c.Hyprland.Generator.{used_key, modifiers_text, is_mouse}

-- `MOD1 + MOD2 + KEY`
unfoldable pub key_text : List (Option CString) → CString → CString
unfolding modifiers_text
key_text [] key = key
key_text (m ∷ mods) key = modifiers_text (codes " + ") (m ∷ mods) ++ codes " + " ++ key

-- `!dispatcher || !*dispatcher || strcmp(dispatcher, "exec") == 0`
unfoldable pub is_exec : Option CString → Bool
is_exec none = true
is_exec (some []) = true
is_exec (some (c ∷ s)) = str_eq (c ∷ s) (codes "exec")

-- The options behind the action of a binding.
abbrev options_text : CString → CString
options_text [] = []
options_text (c ∷ flags) = codes ", { " ++ (c ∷ flags) ++ codes " }"

unfoldable pub bind_call : Keybind → CString → CString
unfolding is_exec is_mouse lua_quote dispatcher_to_lua bind_flags_to_lua key_text
bind_call kb key =
    let quoted_key = lua_quote (key_text kb.modifiers key) in
    if is_exec kb.dispatcher
    then codes "hl.bind("
      ++ quoted_key
      ++ codes ", hl.dsp.exec_cmd("
      ++ lua_quote (text_of kb.argument)
      ++ codes "))\n"
    else codes "hl.bind("
      ++ quoted_key
      ++ codes ", "
      ++ dispatcher_to_lua kb.dispatcher kb.argument
      ++ (if is_mouse key
          then codes ", { mouse = true }"
          else options_text (bind_flags_to_lua kb.flags))
      ++ codes ")\n"

unfoldable pub bind_call_line : Keybind → CString
unfolding when_set used_key bind_call
bind_call_line kb = when_set (used_key kb) (bind_call kb)

unfoldable pub hyprland_generate_keybinds_lua : List Keybind → CString
unfolding bind_call_line concat_map
hyprland_generate_keybinds_lua [] = []
hyprland_generate_keybinds_lua (kb ∷ binds) =
    codes "-- Keybinds (generated by axctl)\n" ++ concat_map bind_call_line (kb ∷ binds)

-- `if (s && *s)` with the quoted text
unfoldable pub quoted_field : CString → Option CString → CString → CString
unfolding lua_quote
quoted_field before none after = []
quoted_field before (some []) after = []
quoted_field before (some (c ∷ s)) after = before ++ lua_quote (c ∷ s) ++ after

unfoldable pub number_field : CString → Option ℤ → CString
unfolding when_set show_int
number_field before v = when_set v (λ i. before ++ show_int i ++ codes ",\n")

unfoldable pub window_rule_call : WindowRule → CString
unfolding when_set when_true number_field quoted_field lua_quote
window_rule_call r =
    codes "hl.window_rule({\n"
    ++ when_set r.name (λ s. codes "    name = " ++ lua_quote s ++ codes ",\n")
    ++ when_set r.matches (λ s. codes "    match = { class = " ++ lua_quote s ++ codes " },\n")
    ++ when_true r.is_float (codes "    float = true,\n")
    ++ when_true r.no_blur (codes "    no_blur = true,\n")
    ++ when_true r.no_shadow (codes "    no_shadow = true,\n")
    ++ number_field (codes "    rounding = ") r.rounding
    ++ number_field (codes "    border_size = ") r.border_size
    ++ when_true r.pin (codes "    pin = true,\n")
    ++ when_true r.fullscreen (codes "    fullscreen = true,\n")
    ++ when_true r.idle_inhibit (codes "    idle_inhibit = \"always\",\n")
    ++ when_true r.no_screen_share (codes "    no_screen_share = true,\n")
    ++ quoted_field (codes "    move = ") r.move (codes ",\n")
    ++ quoted_field (codes "    size = ") r.size (codes ",\n")
    ++ quoted_field (codes "    -- legacy rule: ") r.rule (codes "\n")
    ++ codes "})\n\n"

-- A rule with neither a match nor a name is passed over.
unfoldable pub window_rule_calls : WindowRule → CString
unfolding window_rule_call
window_rule_calls r = elim r.matches [
  | none ↦ elim r.name [ none ↦ [] | some n ↦ window_rule_call r ]
  | some m ↦ window_rule_call r
]

unfoldable pub hyprland_generate_window_rules_lua : List WindowRule → CString
unfolding window_rule_calls concat_map
hyprland_generate_window_rules_lua [] = []
hyprland_generate_window_rules_lua (r ∷ rules) =
    codes "-- Window Rules (generated by axctl)\n" ++ concat_map window_rule_calls (r ∷ rules)

module _ {D : Type 0} (show_double : D → CString) where
  unfoldable pub alpha_field : LayerRule D → CString
  unfolding when_true
  alpha_field r = elim r.ignore_alpha_value [
    | none ↦ when_true r.ignore_alpha (codes "    ignore_alpha = 0,\n")
    | some v ↦ codes "    ignore_alpha = " ++ show_double v ++ codes ",\n"
  ]

  unfoldable pub layer_rule_calls : LayerRule D → CString
  unfolding when_set when_true alpha_field lua_quote
  layer_rule_calls r = when_set r.namespace_str λ namespace.
      codes "hl.layer_rule({\n"
      ++ when_true r.no_anim (codes "    no_anim = true,\n")
      ++ when_true r.blur (codes "    blur = true,\n")
      ++ when_true r.blur_popups (codes "    blur_popups = true,\n")
      ++ alpha_field r
      ++ when_true r.ignore_zero_alpha (codes "    ignore_zero = true,\n")
      ++ when_true r.no_shadow (codes "    no_shadow = true,\n")
      ++ codes "    match = { namespace = "
      ++ lua_quote namespace
      ++ codes " },\n})\n\n"

  unfoldable pub hyprland_generate_layer_rules_lua : List (LayerRule D) → CString
  unfolding layer_rule_calls concat_map
  hyprland_generate_layer_rules_lua [] = []
  hyprland_generate_layer_rules_lua (r ∷ rules) =
      codes "-- Layer Rules (generated by axctl)\n" ++ concat_map layer_rule_calls (r ∷ rules)

unfoldable pub exec_call : CString → Option CString → CString
unfolding quoted_field
exec_call before command = quoted_field (before ++ codes "hl.exec_cmd(") command (codes ")\n")

unfoldable pub start_calls : List (Option CString) → CString
unfolding exec_call concat_map
start_calls [] = []
start_calls (c ∷ exec_once) =
    codes "hl.on(\"hyprland.start\", function()\n"
    ++ concat_map (exec_call (codes "    ")) (c ∷ exec_once)
    ++ codes "end)\n\n"

unfoldable pub hyprland_generate_startup_lua :
    List (Option CString) → List (Option CString) → CString
unfolding start_calls exec_call concat_map
hyprland_generate_startup_lua [] [] = []
hyprland_generate_startup_lua (c ∷ exec) exec_once =
    codes "-- Startup (generated by axctl)\n"
    ++ start_calls exec_once
    ++ concat_map (exec_call []) (c ∷ exec)
hyprland_generate_startup_lua [] (c ∷ exec_once) =
    codes "-- Startup (generated by axctl)\n" ++ start_calls (c ∷ exec_once)
