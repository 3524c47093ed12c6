-- ===== src/Hyprland/Binds.antt =====
-- The bindings of a payload in src/ipc/config_types.c and src/ipc/hyprland/generator.c.
use axctl_c.Prelude.{
  ◌≡◌, refl, true, [], ◌∷◌, ◌++◌, Option, none, some, CString, codes, if◌then◌else◌, ℕ, arith,
}
use mathlib.Core.List.{append-nil}
use axctl_c.Json.{JsonC, JsonKinds}
use axctl_c.Json.Helpers.{json_get_string, json_get_bool}
use axctl_c.Text.{text_of}
use axctl_c.Config.{Keybind}
use axctl_c.Config.Parse.{parse_keybind}
use axctl_c.Hyprland.Generator.{
  used_key, modifiers_text, is_mouse, argument_text, dispatcher_or, bind_line,
}
use axctl_c.Hyprland.Quote.{lua_quote}
use axctl_c.Hyprland.Lua.{key_text, is_exec, bind_call_line}

used :
    (kb : Keybind) (c : ℕ) (key : CString)
    → kb.key ≡ some (c ∷ key)
    → kb.enabled ≡ true
    → used_key kb ≡ some (c ∷ key)
unfolding used_key
used kb c key has on = ground arith

dispatcher_empty : (other : CString) (d : Option CString) → d ≡ some [] → dispatcher_or other d ≡ []
unfolding dispatcher_or
dispatcher_empty other d e = rw e refl

bind_line-empty :
    (kb : Keybind) (key : CString)
    → used_key kb ≡ some key
    → kb.dispatcher ≡ some []
    → bind_line kb
      ≡ (if is_mouse key then codes "bindm" else codes "bind")
        ++ codes " = "
        ++ modifiers_text (codes " ") kb.modifiers
        ++ codes ", "
        ++ key
        ++ codes ", "
        ++ argument_text kb.argument
        ++ codes "\n"
unfolding bind_line
bind_line-empty kb key uses empty =
    rw (uses, bind_line) rw (dispatcher_empty (codes "exec") kb.dispatcher empty, append-nil) refl

is_exec-empty : (d : Option CString) → d ≡ some [] → is_exec d ≡ true
unfolding is_exec
is_exec-empty d e = rw e refl

bind_call_line-empty :
    (kb : Keybind) (key : CString)
    → used_key kb ≡ some key
    → kb.dispatcher ≡ some []
    → bind_call_line kb
      ≡ codes "hl.bind("
        ++ lua_quote (key_text kb.modifiers key)
        ++ codes ", hl.dsp.exec_cmd("
        ++ lua_quote (text_of kb.argument)
        ++ codes "))\n"
unfolding bind_call_line
bind_call_line-empty kb key uses empty =
    rw (uses, bind_call_line) rw (is_exec-empty kb.dispatcher empty) refl

module _ (j : JsonC) {D : Type 0} (k : JsonKinds j D) where
  parse_keybind-key :
      (kb v : j.Json) (c : ℕ) (key : CString)
      → j.object_get kb (codes "key") ≡ some v
      → j.get_string v ≡ some (c ∷ key)
      → (parse_keybind j k kb).key ≡ some (c ∷ key)
  unfolding parse_keybind
  parse_keybind-key kb v c key has text = rw (has, json_get_string) rw (text) refl

  parse_keybind-dispatcher :
      (kb : j.Json)
      → j.object_get kb (codes "dispatcher") ≡ none
      → (parse_keybind j k kb).dispatcher ≡ some []
  unfolding parse_keybind
  parse_keybind-dispatcher kb missing = rw (missing, json_get_string) refl

  parse_keybind-enabled :
      (kb : j.Json)
      → json_get_bool j kb (codes "enabled") true ≡ true
      → (parse_keybind j k kb).enabled ≡ true
  unfolding parse_keybind
  parse_keybind-enabled kb enabled = enabled

  -- A binding of the payload that has a key that is not empty, whose `enabled` is absent or reads as
  -- true, and that names no dispatcher, is a command in Lua; in Hyprland's own syntax it is a line
  -- with an empty dispatcher, not `exec`.
  pub bind_line-no_dispatcher :
      (kb v : j.Json) (c : ℕ) (key : CString)
      → j.object_get kb (codes "key") ≡ some v
      → j.get_string v ≡ some (c ∷ key)
      → json_get_bool j kb (codes "enabled") true ≡ true
      → j.object_get kb (codes "dispatcher") ≡ none
      → (bind_line (parse_keybind j k kb)
          ≡ (if is_mouse (c ∷ key) then codes "bindm" else codes "bind")
            ++ codes " = "
            ++ modifiers_text (codes " ") (parse_keybind j k kb).modifiers
            ++ codes ", "
            ++ (c ∷ key)
            ++ codes ", "
            ++ argument_text (parse_keybind j k kb).argument
            ++ codes "\n")
        × (bind_call_line (parse_keybind j k kb)
            ≡ codes "hl.bind("
              ++ lua_quote (key_text (parse_keybind j k kb).modifiers (c ∷ key))
              ++ codes ", hl.dsp.exec_cmd("
              ++ lua_quote (text_of (parse_keybind j k kb).argument)
              ++ codes "))\n")
  bind_line-no_dispatcher kb v c key has text enabled missing =
      let bind = parse_keybind j k kb in
      let key_read = parse_keybind-key kb v c key has text in
      let on = parse_keybind-enabled kb enabled in
      let empty = parse_keybind-dispatcher kb missing in
      (
        bind_line-empty bind (c ∷ key) (used bind c key key_read on) empty,
        bind_call_line-empty bind (c ∷ key) (used bind c key key_read on) empty,
      )
