-- ===== src/Hyprland/Tests.antt =====
-- The text for Hyprland at concrete strings and bindings.
use axctl_c.Prelude.{
  ℕ, List, ◌∷◌, CString, All, arith, true, false, ◌≡◌, refl, [], ◌++◌, none, some, codes,
  if◌then◌else◌, str_eq,
}
use axctl_c.Json.Values.{values-JsonLaws, Value, values, kinds, entry, text, flag, empty, lookup}
use axctl_c.Json.Values
use axctl_c.Json.Helpers.{json_get_bool}
use axctl_c.Text.{text_of}
use axctl_c.Config.Parse.{parse_keybind}
use axctl_c.Hyprland.Generator.{is_mouse, modifiers_text, argument_text, bind_line}
use axctl_c.Hyprland.Quote.{lua_quote, one_line, read_string, read_string-lua_quote}
use axctl_c.Hyprland.Lua.{key_text, bind_call_line}
use axctl_c.Strutil.Split.{IsFree}
use axctl_c.Types.{array_init}
use axctl_c.Cache.{Cache, Heap, has_id}
use axctl_c.Server.Refresh.{Compositor}
use axctl_c.Hyprland.Events.{with_0x, read_event}
use axctl_c.Hyprland.Sessions.{
  open_line, close_line, opened_window, read_event_open_close, read_event_silent,
}
use axctl_c.Hyprland.Binds.{bind_line-no_dispatcher}

read_string-lua_quote_example :
    read_string (lua_quote (codes "a\"b") ++ codes ", 1")
    ≡ (if one_line (codes "a\"b") then some (codes "a\"b", codes ", 1") else none)
read_string-lua_quote_example = read_string-lua_quote (codes "a\"b") (codes ", 1")

-- A key, enabled.
abbrev enabled_key : Value
enabled_key = entry (codes "key") (text (codes "M")) (entry (codes "enabled") (flag true) empty)

bind_line-no_dispatcher_example :
    (bind_line (parse_keybind values kinds enabled_key)
      ≡ (if is_mouse (codes "M") then codes "bindm" else codes "bind")
        ++ codes " = "
        ++ modifiers_text (codes " ") (parse_keybind values kinds enabled_key).modifiers
        ++ codes ", "
        ++ codes "M"
        ++ codes ", "
        ++ argument_text (parse_keybind values kinds enabled_key).argument
        ++ codes "\n")
    × (bind_call_line (parse_keybind values kinds enabled_key)
        ≡ codes "hl.bind("
          ++ lua_quote (key_text (parse_keybind values kinds enabled_key).modifiers (codes "M"))
          ++ codes ", hl.dsp.exec_cmd("
          ++ lua_quote (text_of (parse_keybind values kinds enabled_key).argument)
          ++ codes "))\n")
unfolding lookup Values.text_of str_eq json_get_bool Values.flag_of
bind_line-no_dispatcher_example =
    bind_line-no_dispatcher values kinds enabled_key (text (codes "M")) 77 [] refl refl refl refl

-- A cache with one window, and a compositor that answers nothing.
abbrev one_cached : Cache ℕ
one_cached = record {
  windows = record { items = opened_window (codes "1") (codes "1") [] [] ∷ []; capacity = 8 };
  workspaces = array_init;
  monitors = array_init;
}

abbrev no_answers : Compositor ℕ
no_answers = record {
  list_windows = none;
  active_window = none;
  list_workspaces = none;
  list_monitors = none;
}

abbrev no_objects : Heap values
no_objects h = empty

-- The title `x, y` is cut at its comma.
abbrev mail : List CString
mail = codes "2" ∷ codes "1" ∷ codes "mail" ∷ codes "x" ∷ codes " y" ∷ []

mail-IsFree : All (IsFree b',') mail
mail-IsFree = omega arith

other_id : All (λ w. has_id (with_0x (codes "2")) w ≡ false) one_cached.windows.items
unfolding has_id opened_window str_eq
other_id = (refl, tt)

read_event_open_close_example :
    let opened = read_event values no_answers no_objects 0 one_cached (open_line mail) in
    (opened.0.windows.items
      ≡ one_cached.windows.items
        ++ opened_window (codes "2") (codes "1") (codes "mail") (codes "x") ∷ [])
    × ((read_event values no_answers opened.1 0 opened.0 (close_line (codes "2"))).0.windows.items
        ≡ one_cached.windows.items)
read_event_open_close_example =
    read_event_open_close values values-JsonLaws no_answers 0 no_objects one_cached (codes "2")
      (codes "1") (codes "mail") (codes "x") (codes " y" ∷ []) mail-IsFree other_id

read_event_silent_example :
    ((read_event values no_answers no_objects 0 one_cached (codes "windowtitle>>" ++ codes "1\n")).0
      ≡ one_cached)
    × ((read_event values no_answers no_objects 0 one_cached
          (codes "windowtitlev2>>" ++ codes "1\n")).0
        ≡ one_cached)
    × ((read_event values no_answers no_objects 0 one_cached
          (codes "fullscreen>>" ++ codes "1\n")).0
        ≡ one_cached)
read_event_silent_example =
    read_event_silent values values-JsonLaws no_answers 0 no_objects one_cached (codes "1\n")
