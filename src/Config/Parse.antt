-- ===== src/Config/Parse.antt =====
-- src/ipc/config_types.c: the universal configuration from its JSON form.
use axctl_c.Prelude.{
  Bool, true, false, not, ◌&&◌, List, [], ◌∷◌, map, Option, none, some, CString, codes, str_eq,
  if◌then◌else◌,
}
use axctl_c.Json.{JsonC, JsonKinds}
use axctl_c.Json.Helpers.{json_get_string, json_get_bool, json_get_array, json_get_object}
use axctl_c.Strutil.{strdup, strsplit}
use axctl_c.Colors.{strchr}
use axctl_c.Config.{
  Gaps, Border, Opacity, Blur, Shadow, Animations, Appearance, Keybind, ConfigUniversal,
  no_appearance, no_config,
}

-- The key that the loop over the named bindings passes over.
abbrev pub is_system : CString → Bool
is_system key = str_eq key (codes "system")

module _ (j : JsonC) {D : Type 0} (k : JsonKinds j D) where
  -- `if (json_object_object_get_ex(o, key, &v)) … = opt_…_new(json_object_get_…(v))`
  unfoldable pub read {ℓ} : {A : Type ℓ} → (j.Json → A) → j.Json → CString → Option A
  read get o key = elim (j.object_get o key) [ none ↦ none | some v ↦ some (get v) ]

  unfoldable pub read_text : j.Json → CString → Option CString
  unfolding strdup
  read_text o key = elim (j.object_get o key) [ none ↦ none | some v ↦ strdup (j.get_string v) ]

  -- A part of the appearance that has an object of its own.
  unfoldable pub part {ℓ} : {A : Type ℓ} → (j.Json → A) → j.Json → CString → Option A
  unfolding json_get_object
  part parse obj key = elim (json_get_object j k obj key) [ none ↦ none | some o ↦ some (parse o) ]

  unfoldable pub parse_gaps : j.Json → Gaps
  unfolding read
  parse_gaps o = record {
    inner = read j.get_int o (codes "inner");
    outer = read j.get_int o (codes "outer");
  }

  unfoldable pub parse_border : j.Json → Border
  unfolding read read_text
  parse_border o = record {
    width = read j.get_int o (codes "width");
    active_color = read_text o (codes "active_color");
    inactive_color = read_text o (codes "inactive_color");
    rounding = read j.get_int o (codes "rounding");
  }

  unfoldable pub parse_opacity : j.Json → Opacity D
  unfolding read
  parse_opacity o = record {
    active = read k.get_double o (codes "active");
    inactive = read k.get_double o (codes "inactive");
  }

  unfoldable pub parse_blur : j.Json → Blur
  unfolding read
  parse_blur o = record {
    enabled = read j.get_boolean o (codes "enabled");
    size = read j.get_int o (codes "size");
    passes = read j.get_int o (codes "passes");
  }

  unfoldable pub parse_shadow : j.Json → Shadow
  unfolding read read_text
  parse_shadow o = record {
    enabled = read j.get_boolean o (codes "enabled");
    size = read j.get_int o (codes "size");
    color = read_text o (codes "color");
  }

  unfoldable pub parse_animations : j.Json → Animations
  unfolding read
  parse_animations o = record { enabled = read j.get_boolean o (codes "enabled") }

  -- `if (layout && *layout) …`
  unfoldable pub parse_layout : CString → Option CString
  parse_layout [] = none
  parse_layout (c ∷ s) = some (c ∷ s)

  -- The nested form.
  unfoldable pub parse_nested : j.Json → Appearance D
  unfolding part parse_gaps parse_border parse_opacity parse_blur parse_shadow parse_animations
      json_get_string parse_layout
  parse_nested obj = record {
    gaps = part parse_gaps obj (codes "gaps");
    border = part parse_border obj (codes "border");
    opacity = part parse_opacity obj (codes "opacity");
    blur = part parse_blur obj (codes "blur");
    shadow = part parse_shadow obj (codes "shadow");
    animations = part parse_animations obj (codes "animations");
    layout = parse_layout (json_get_string j obj (codes "layout"));
  }

  -- The flat form: a key of two parts. A part of the appearance that is not there yet is made.
  abbrev gaps_of : Option Gaps → Gaps
  gaps_of none = record { inner = none; outer = none }
  gaps_of (some g) = g

  abbrev border_of : Option Border → Border
  border_of none = record {
    width = none;
    active_color = none;
    inactive_color = none;
    rounding = none;
  }
  border_of (some b) = b

  abbrev opacity_of : Option (Opacity D) → Opacity D
  opacity_of none = record { active = none; inactive = none }
  opacity_of (some o) = o

  unfoldable pub flat_gaps : Gaps → CString → j.Json → Gaps
  flat_gaps g name v =
      if str_eq name (codes "inner") && k.is_int v
      then record g { inner = some (j.get_int v) }
      else if str_eq name (codes "outer") && k.is_int v
      then record g { outer = some (j.get_int v) }
      else g

  unfoldable pub flat_border : Border → CString → j.Json → Border
  unfolding strdup
  flat_border b name v =
      if str_eq name (codes "width") && k.is_int v
      then record b { width = some (j.get_int v) }
      else if str_eq name (codes "active_color") && k.is_string v
      then record b { active_color = strdup (j.get_string v) }
      else if str_eq name (codes "inactive_color") && k.is_string v
      then record b { inactive_color = strdup (j.get_string v) }
      else b

  unfoldable pub flat_opacity : Opacity D → CString → j.Json → Opacity D
  flat_opacity o name v =
      if str_eq name (codes "active")
      then record o { active = some (k.get_double v) }
      else if str_eq name (codes "inactive")
      then record o { inactive = some (k.get_double v) }
      else o

  unfoldable pub flat_parts : Appearance D → List CString → j.Json → Appearance D
  unfolding flat_gaps flat_border flat_opacity
  flat_parts app (group ∷ name ∷ []) v =
      if str_eq group (codes "gaps")
      then record app { gaps = some (flat_gaps (gaps_of app.gaps) name v) }
      else if str_eq group (codes "border")
      then record app { border = some (flat_border (border_of app.border) name v) }
      else if str_eq group (codes "opacity")
      then record app { opacity = some (flat_opacity (opacity_of app.opacity) name v) }
      else app
  flat_parts app [] v = app
  flat_parts app (group ∷ []) v = app
  flat_parts app (group ∷ name ∷ more ∷ parts) v = app

  unfoldable pub flat_entry : Appearance D → CString → j.Json → Appearance D
  unfolding strchr strsplit flat_parts
  flat_entry app key v = elim (strchr key b'.') [
    | none ↦ app
    | some dot ↦ flat_parts app (strsplit (some key) b'.').out v
  ]

  unfoldable pub flat_entries : Appearance D → List (CString × j.Json) → Appearance D
  unfolding flat_entry
  flat_entries app [] = app
  flat_entries app ((key, v) ∷ es) = flat_entries (flat_entry app key v) es

  -- A value that is no object has no entries.
  abbrev pub entries_or_none : j.Json → List (CString × j.Json)
  entries_or_none o = elim (k.entries o) [ none ↦ [] | some es ↦ es ]

  unfoldable pub parse_appearance : j.Json → Appearance D
  unfolding parse_nested flat_entries
  parse_appearance obj = flat_entries (parse_nested obj) (entries_or_none obj)

  unfoldable pub parse_keybind : j.Json → Keybind
  unfolding json_get_string json_get_bool json_get_array strdup
  parse_keybind kb = record {
    modifiers = elim (json_get_array j kb (codes "modifiers")) [
      | none ↦ []
      | some mods ↦ elim (j.array_items mods) [ none ↦ [] | some items ↦ map j.get_string items ]
    ];
    key = strdup (some (json_get_string j kb (codes "key")));
    dispatcher = strdup (some (json_get_string j kb (codes "dispatcher")));
    argument = strdup (some (json_get_string j kb (codes "argument")));
    flags = strdup (some (json_get_string j kb (codes "flags")));
    enabled = json_get_bool j kb (codes "enabled") true;
  }

  abbrev pub is_object : j.Json → Bool
  is_object v = elim (k.entries v) [ none ↦ false | some es ↦ true ]

  -- The loops over the maps of keybinds: those of the values that are objects. In the second the key
  -- `system` is passed over.
  unfoldable pub parse_map : (CString → Bool) → List (CString × j.Json) → List Keybind
  unfolding parse_keybind
  parse_map skipped [] = []
  parse_map skipped ((key, v) ∷ es) =
      let binds = parse_map skipped es in
      if not (skipped key) && is_object v then parse_keybind v ∷ binds else binds

  unfoldable pub system_keybinds : j.Json → List Keybind
  unfolding json_get_object parse_map
  system_keybinds ambxst = elim (json_get_object j k ambxst (codes "system")) [
    | none ↦ []
    | some o ↦ parse_map (λ key. false) (entries_or_none o)
  ]

  unfoldable pub parse_keybinds : j.Json → ConfigUniversal D → ConfigUniversal D
  unfolding json_get_object json_get_array system_keybinds parse_map parse_keybind
  parse_keybinds kb cfg =
      let ambxst = json_get_object j k kb (codes "ambxst") in
      record cfg {
        ambxst_system_keybinds = elim ambxst [ none ↦ [] | some o ↦ system_keybinds o ];
        ambxst_binds = elim ambxst [ none ↦ [] | some o ↦ parse_map is_system (entries_or_none o) ];
        custom_keybinds = elim (json_get_array j kb (codes "custom")) [
          | none ↦ []
          | some a ↦ elim (j.array_items a) [ none ↦ [] | some items ↦ map parse_keybind items ]
        ];
      }

  unfoldable pub from_root : j.Json → ConfigUniversal D
  unfolding json_get_object parse_appearance parse_keybinds
  from_root root =
      let cfg : ConfigUniversal D = record no_config {
        appearance = elim (json_get_object j k root (codes "appearance")) [
          | none ↦ no_appearance
          | some app_obj ↦ parse_appearance app_obj
        ];
      } in
      elim (json_get_object j k root (codes "keybinds")) [
        | none ↦ cfg
        | some kb_obj ↦ parse_keybinds kb_obj cfg
      ]

  -- `none` is `AXCTL_ERR_PARSE`.
  unfoldable pub config_universal_from_json : CString → Option (ConfigUniversal D)
  unfolding from_root
  config_universal_from_json json_str = elim (k.parse json_str) [
    | none ↦ none
    | some root ↦ some (from_root root)
  ]
