-- ===== src/Config/Tests.antt =====
-- Configurations at concrete payloads.
use axctl_c.Prelude.{◌≡◌, true, [], ◌++◌, map, none, some, codes, pos}
use axctl_c.Json.Values.{Value, values, values-JsonLaws, kinds, kinds-KindsLaws, entry, text, empty}
use axctl_c.Text.{show_int}
use axctl_c.Config.{no_config}
use axctl_c.Config.Parse.{parse_appearance, parse_keybind, from_root}
use axctl_c.Config.Notations.{
  Setting, inner, flat, nested, appearance_of, parse_appearance-notations,
}
use axctl_c.Config.Handler.{section, file_text, hyprland_own, Applied, Target, config_handler_apply}
use axctl_c.Config.Sources.{bind_forms, file_text-from_root}

abbrev inner_five : Setting values
inner_five = inner (pos 5)

parse_appearance-notations_example :
    (parse_appearance values kinds (flat values inner_five)
      ≡ appearance_of values values-JsonLaws kinds kinds-KindsLaws inner_five)
    × (parse_appearance values kinds (nested values inner_five)
        ≡ appearance_of values values-JsonLaws kinds kinds-KindsLaws inner_five)
parse_appearance-notations_example =
    parse_appearance-notations values values-JsonLaws kinds kinds-KindsLaws inner_five

-- One binding of the system, and a command.
abbrev payload : Value
payload = entry (codes "exec") (text (codes "waybar")) (
    entry (codes "keybinds")
      (entry (codes "ambxst")
        (entry (codes "system")
          (entry (codes "menu") (entry (codes "key") (text (codes "M")) empty) empty) empty)
        empty)
      empty)

file_text-from_root_example :
    file_text (codes "#") (hyprland_own show_int) (from_root values kinds payload)
    ≡ codes "#"
      ++ section ((hyprland_own show_int).startup [] [])
      ++ section ((hyprland_own show_int).appearance (from_root values kinds payload).appearance)
      ++ section (
          (hyprland_own show_int).keybinds
            (map (parse_keybind values kinds) (bind_forms values kinds payload)))
      ++ section ((hyprland_own show_int).window_rules [])
      ++ section ((hyprland_own show_int).layer_rules [])
file_text-from_root_example =
    file_text-from_root values kinds (codes "#") (hyprland_own show_int) payload

-- Every file can be opened, and the compositor takes the configuration.
abbrev willing : Target
willing = record { opens = λ path. true; reload_config = some true; home = some (codes "/home/a") }

abbrev applied : Applied
applied = config_handler_apply show_int willing (some (codes "Hyprland")) no_config none []
