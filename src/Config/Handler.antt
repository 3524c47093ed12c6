-- ===== src/Config/Handler.antt =====
-- src/server/config_handler.c: from a configuration to the files that the compositor reads. The file
-- system is a parameter: whether a file can be opened for writing. `system("mkdir -p …")` is left out.
use axctl_c.Prelude.{
  Bool, true, false, List, [], ◌∷◌, ◌++◌, Option, none, some, CString, codes, str_eq, ◌==◌,
  if◌then◌else◌, reverse,
}
use axctl_c.Errors.{set_error}
use axctl_c.Config.{Appearance, Keybind, WindowRule, LayerRule, ConfigUniversal}
use axctl_c.Hyprland.Generator.{
  hyprland_generate_appearance, hyprland_generate_keybinds, hyprland_generate_window_rules,
  hyprland_generate_layer_rules, hyprland_generate_startup,
}
use axctl_c.Hyprland.Lua.{
  hyprland_generate_appearance_lua, hyprland_generate_keybinds_lua,
  hyprland_generate_window_rules_lua, hyprland_generate_layer_rules_lua,
  hyprland_generate_startup_lua,
}
use axctl_c.Niri.Generator.{
  niri_generate_appearance, niri_generate_keybinds, niri_generate_window_rules,
  niri_generate_layer_rules, niri_generate_startup,
}
use axctl_c.Mango.Generator.{
  mango_generate_appearance, mango_generate_keybinds, mango_generate_window_rules,
  mango_generate_layer_rules, mango_generate_startup,
}

-- The generators of one syntax.
pub record Generators (D : Type 0) : Type 0 where
  pub appearance : Appearance D → CString
  pub keybinds : List Keybind → CString
  pub window_rules : List WindowRule → CString
  pub layer_rules : List (LayerRule D) → CString
  pub startup : List (Option CString) → List (Option CString) → CString

-- `generator_set_t`: those of the first file, and those of the second if there is one.
pub record GeneratorSet (D : Type 0) : Type 0 where
  pub own : Generators D
  pub lua : Option (Generators D)

module _ {D : Type 0} (show_double : D → CString) where
  abbrev pub hyprland_own : Generators D
  hyprland_own = record {
    appearance = hyprland_generate_appearance show_double;
    keybinds = hyprland_generate_keybinds;
    window_rules = hyprland_generate_window_rules;
    layer_rules = hyprland_generate_layer_rules show_double;
    startup = hyprland_generate_startup;
  }

  abbrev pub hyprland_lua : Generators D
  hyprland_lua = record {
    appearance = hyprland_generate_appearance_lua show_double;
    keybinds = hyprland_generate_keybinds_lua;
    window_rules = hyprland_generate_window_rules_lua;
    layer_rules = hyprland_generate_layer_rules_lua show_double;
    startup = hyprland_generate_startup_lua;
  }

  abbrev pub niri_own : Generators D
  niri_own = record {
    appearance = niri_generate_appearance show_double;
    keybinds = niri_generate_keybinds;
    window_rules = niri_generate_window_rules;
    layer_rules = niri_generate_layer_rules;
    startup = niri_generate_startup;
  }

  abbrev pub mango_own : Generators D
  mango_own = record {
    appearance = mango_generate_appearance;
    keybinds = mango_generate_keybinds;
    window_rules = mango_generate_window_rules;
    layer_rules = mango_generate_layer_rules;
    startup = mango_generate_startup;
  }

  -- The comparisons with the compositor's name.
  unfoldable pub generators_for : CString → Option (GeneratorSet D)
  generators_for name =
      if str_eq name (codes "Hyprland")
      then some (record { own = hyprland_own; lua = some hyprland_lua })
      else if str_eq name (codes "Niri")
      then some (record { own = niri_own; lua = none })
      else if str_eq name (codes "Mango")
      then some (record { own = mango_own; lua = none })
      else none

-- The bindings of all sources in one array.
unfoldable pub merged_binds : {D : Type 0} → ConfigUniversal D → List Keybind
merged_binds cfg = cfg.ambxst_system_keybinds ++ cfg.ambxst_binds ++ cfg.custom_keybinds

-- `if (s && *s) fprintf(fp, "%s\n", s)`
unfoldable pub section : CString → CString
section [] = []
section (c ∷ s) = (c ∷ s) ++ codes "\n"

-- What one file gets.
unfoldable pub file_text : {D : Type 0} → CString → Generators D → ConfigUniversal D → CString
unfolding section merged_binds
file_text header gen cfg =
    header
    ++ section (gen.startup cfg.exec cfg.exec_once)
    ++ section (gen.appearance cfg.appearance)
    ++ section (gen.keybinds (merged_binds cfg))
    ++ section (gen.window_rules cfg.window_rules)
    ++ section (gen.layer_rules cfg.layer_rules)

-- `strrchr(path, '.')` cuts the path; the search is from the end, over the reversed path.
unfoldable pub cut_reversed : CString → Option CString
cut_reversed [] = none
cut_reversed (c ∷ s) = if c == b'.' then some s else cut_reversed s

unfoldable pub without_extension : CString → CString
unfolding cut_reversed
without_extension path = elim (cut_reversed (reverse path)) [ none ↦ path | some s ↦ reverse s ]

-- `axctl_config_default_output_path`, by the value of `HOME`
unfoldable pub config_default_output_path : Option CString → CString
config_default_output_path none = codes "/root/.local/share/ambxst/hyprland.conf"
config_default_output_path (some home) = home ++ codes "/.local/share/ambxst/hyprland.conf"

-- What is done to the world: a file is written, with its path and its text, or the compositor is told
-- to read its configuration again.
pub data Action : Type 0 where
  write : CString → CString → Action
  reload : Action

-- What is done, in order, whether the result is 0, and the error message.
pub record Applied : Type 0 where
  pub actions : List Action
  pub ok : Bool
  pub error : CString

-- What the function relies on: which files can be opened, and the answer of `reload_config`, none if the
-- compositor has no such operation.
pub record Target : Type 0 where
  pub opens : CString → Bool
  pub reload_config : Option Bool
  pub home : Option CString

module _ {D : Type 0} (show_double : D → CString) (t : Target) where
  unfoldable pub write_file : CString → CString → List Action
  write_file path text = if t.opens path then write path text ∷ [] else []

  unfoldable pub lua_file : Option (Generators D) → CString → ConfigUniversal D → List Action
  unfolding write_file without_extension file_text
  lua_file none config_path cfg = []
  lua_file (some gen) config_path cfg =
      write_file (without_extension config_path ++ codes ".lua")
        (file_text (codes "-- Generated by axctl - do not edit manually\n\n") gen cfg)

  unfoldable pub reload_result : List Action → CString → Applied
  reload_result actions error = elim t.reload_config [
    | none ↦ record { actions = actions; ok = true; error = error }
    | some answer ↦ record { actions = actions ++ reload ∷ []; ok = answer; error = error }
  ]

  unfoldable pub apply_set : GeneratorSet D → ConfigUniversal D → CString → CString → Applied
  unfolding lua_file reload_result file_text set_error
  apply_set gen cfg config_path error =
      let text = file_text (codes "# Generated by axctl - do not edit manually\n\n") gen.own cfg in
      if t.opens config_path
      then reload_result (write config_path text ∷ lua_file gen.lua config_path cfg) error
      else record {
        actions = [];
        ok = false;
        error = set_error error (codes "failed to write config to " ++ config_path);
      }

  -- For the compositor's name, which may be NULL; `error` is the message before.
  unfoldable pub config_handler_apply :
      Option CString → ConfigUniversal D → Option CString → CString → Applied
  unfolding generators_for apply_set config_default_output_path set_error
  config_handler_apply comp_name cfg output_path error =
      let name : CString = elim comp_name [ none ↦ [] | some n ↦ n ] in
      let config_path : CString = elim output_path [
        | none ↦ config_default_output_path t.home
        | some path ↦ path
      ] in
      elim (generators_for show_double name) [
        | none ↦ record {
          actions = [];
          ok = false;
          error = set_error error (codes "config generator not supported for compositor: " ++ name);
        }
        | some gen ↦ apply_set gen cfg config_path error
      ]
