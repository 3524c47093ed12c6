-- ===== src/Hyprland/Actions.antt =====
-- src/ipc/hyprland/generator.c: the actions and the flags of a key binding in Lua.
use axctl_c.Prelude.{
  ℕ, Bool, true, false, ◌||◌, List, [], ◌∷◌, ◌++◌, Option, none, some, CString, codes, str_eq, ◌==◌,
  if◌then◌else◌, length,
}
use axctl_c.Strutil.{tolower, strncmp_eq}
use axctl_c.Text.{text_of}
use axctl_c.Hyprland.Quote.{lua_quote}

-- `arg && strcmp(arg, s) == 0`, and `strncmp` with the length of `s`
unfoldable pub arg_is : Option CString → CString → Bool
arg_is none s = false
arg_is (some arg) s = str_eq arg s

unfoldable pub arg_begins : Option CString → CString → Bool
unfolding strncmp_eq
arg_begins none s = false
arg_begins (some arg) s = strncmp_eq (length s) arg s

-- `call(%s)` and `call({ field = %s })` for the quoted argument
unfoldable pub quoted_call : CString → Option CString → CString → CString
unfolding lua_quote
quoted_call before arg after = before ++ lua_quote (text_of arg) ++ after

unfoldable pub fullscreen_action : Option CString → CString
unfolding arg_is
fullscreen_action arg =
    if arg_is arg (codes "1")
    then codes "hl.dsp.window.fullscreen({ action = \"set\" })"
    else if arg_is arg (codes "0")
    then codes "hl.dsp.window.fullscreen({ action = \"unset\" })"
    else codes "hl.dsp.window.fullscreen()"

-- `arg ? axctl_sprintf("focus %s", arg) : axctl_strdup("")`
abbrev focus_arg : Option CString → CString
focus_arg none = []
focus_arg (some arg) = codes "focus " ++ arg

unfoldable pub movefocus_action : Option CString → CString
unfolding lua_quote
movefocus_action arg =
    codes "function() if hl.get_active_workspace().tiled_layout == \"scrolling\" "
    ++ codes "then hl.dispatch(hl.dsp.layout("
    ++ lua_quote (focus_arg arg)
    ++ codes ")) else hl.dispatch(hl.dsp.focus({ direction = "
    ++ lua_quote (text_of arg)
    ++ codes " })) end end"

unfoldable pub movewindow_action : Option CString → CString
unfolding quoted_call
movewindow_action none = codes "hl.dsp.window.drag()"
movewindow_action (some []) = codes "hl.dsp.window.drag()"
movewindow_action (some (c ∷ s)) =
    quoted_call (codes "hl.dsp.window.move({ direction = ") (some (c ∷ s)) (codes " })")

unfoldable pub resizewindow_action : Option CString → CString
resizewindow_action none = codes "hl.dsp.window.resize()"
resizewindow_action (some []) = codes "hl.dsp.window.resize()"
resizewindow_action (some (c ∷ s)) = codes "hl.dsp.window.resize({ " ++ (c ∷ s) ++ codes " })"

unfoldable pub group_action : Option CString → CString
unfolding arg_is
group_action arg =
    codes "hl.dsp.group."
    ++ (if arg_is arg (codes "b") || arg_is arg (codes "prev") then codes "prev" else codes "next")
    ++ codes "()"

unfoldable pub is_scrolling_message : Option CString → Bool
unfolding arg_begins
is_scrolling_message arg =
    arg_begins arg (codes "focus ")
    || arg_begins arg (codes "movewindowto ")
    || arg_begins arg (codes "colresize")
    || arg_begins arg (codes "promote")
    || arg_begins arg (codes "togglefit")
    || arg_begins arg (codes "swapcol ")
    || arg_begins arg (codes "movecoltoworkspace")

unfoldable pub is_dwindle_message : Option CString → Bool
unfolding arg_is
is_dwindle_message arg = arg_is arg (codes "rotatesplit") || arg_is arg (codes "togglesplit")

unfoldable pub layoutmsg_action : Option CString → CString
unfolding is_scrolling_message is_dwindle_message quoted_call
layoutmsg_action arg =
    if is_scrolling_message arg
    then quoted_call
        (codes
          "function() if hl.get_active_workspace().tiled_layout == \"scrolling\" then hl.dispatch(hl.dsp.layout(")
        arg (codes ")) end end")
    else if is_dwindle_message arg
    then quoted_call
        (codes
          "function() if hl.get_active_workspace().tiled_layout == \"dwindle\" then hl.dispatch(hl.dsp.layout(")
        arg (codes ")) end end")
    else quoted_call (codes "hl.dsp.layout(") arg (codes ")")

-- The last branch: a command.
unfoldable pub exec_action : CString → Option CString → CString
unfolding lua_quote
exec_action dispatcher none = codes "hl.dsp.exec_cmd(" ++ lua_quote dispatcher ++ codes ")"
exec_action dispatcher (some []) = codes "hl.dsp.exec_cmd(" ++ lua_quote dispatcher ++ codes ")"
exec_action dispatcher (some (c ∷ s)) =
    codes "hl.dsp.exec_cmd(" ++ lua_quote (dispatcher ++ codes " " ++ (c ∷ s)) ++ codes ")"

-- The chain of comparisons, as a table from names to actions.
abbrev pub action_table : List (CString × (Option CString → CString))
action_table =
    (codes "killactive", λ arg. codes "hl.dsp.window.close()")
    ∷ (codes "exit", λ arg. codes "hl.dsp.exit()")
    ∷ (codes "togglefloating", λ arg. codes "hl.dsp.window.float({ action = \"toggle\" })")
    ∷ (codes "fullscreen", fullscreen_action)
    ∷ (codes "movefocus", movefocus_action)
    ∷ (codes "movewindow", movewindow_action)
    ∷ (codes "resizewindow", resizewindow_action)
    ∷ (
      codes "movetoworkspace",
      λ arg. quoted_call (codes "hl.dsp.window.move({ workspace = ") arg (codes " })"),
    )
    ∷ (
      codes "movetoworkspacesilent",
      λ arg. quoted_call (codes "hl.dsp.window.move({ workspace = ") arg (codes " })"),
    )
    ∷ (
      codes "workspace",
      λ arg. quoted_call (codes "hl.dsp.focus({ workspace = ") arg (codes " })"),
    )
    ∷ (
      codes "togglespecialworkspace",
      λ arg. quoted_call (codes "hl.dsp.workspace.toggle_special(") arg (codes ")"),
    )
    ∷ (codes "pin", λ arg. codes "hl.dsp.window.pin({ action = \"toggle\" })")
    ∷ (codes "togglegroup", λ arg. codes "hl.dsp.group.toggle()")
    ∷ (codes "changegroupactive", group_action)
    ∷ (codes "focuswindow", λ arg. quoted_call (codes "hl.dsp.focus({ window = ") arg (codes " })"))
    ∷ (codes "closewindow", λ arg. quoted_call (codes "hl.dsp.window.close(") arg (codes ")"))
    ∷ (codes "dpms", λ arg. quoted_call (codes "hl.dsp.dpms({ action = ") arg (codes " })"))
    ∷ (codes "layoutmsg", layoutmsg_action)
    ∷ (
      codes "resizewindowpixel",
      λ arg. codes "hl.dsp.window.resize({ " ++ text_of arg ++ codes " })",
    )
    ∷ (codes "movewindowpixel", λ arg. codes "hl.dsp.window.move({ " ++ text_of arg ++ codes " })")
    ∷ (codes "pseudo", λ arg. codes "hl.dsp.window.pseudo()")
    ∷ (codes "centerwindow", λ arg. codes "hl.dsp.window.center()")
    ∷ []

unfoldable pub find_action :
    List (CString × (Option CString → CString)) → CString → Option CString → CString
unfolding exec_action
find_action [] dispatcher arg = exec_action dispatcher arg
find_action ((name, action) ∷ entries) dispatcher arg =
    if str_eq dispatcher name then action arg else find_action entries dispatcher arg

-- A dispatcher that is missing or empty is `exec`.
unfoldable pub dispatcher_to_lua : Option CString → Option CString → CString
unfolding find_action
dispatcher_to_lua none arg = find_action action_table (codes "exec") arg
dispatcher_to_lua (some []) arg = find_action action_table (codes "exec") arg
dispatcher_to_lua (some (c ∷ s)) arg = find_action action_table (c ∷ s) arg

-- The field of a flag.
unfoldable pub flag_field : ℕ → Option CString
unfolding tolower
flag_field c =
    let low = tolower c in
    if low == b'l'
    then some (codes "locked = true")
    else if low == b'e'
    then some (codes "release = true")
    else if low == b'n'
    then some (codes "non_consuming = true")
    else if low == b'm'
    then some (codes "mouse = true")
    else if low == b'r'
    then some (codes "repeating = true")
    else none

-- The loop, with `first`.
unfoldable pub flag_fields : Bool → CString → CString
unfolding flag_field
flag_fields first [] = []
flag_fields first (c ∷ flags) = elim (flag_field c) [
  | none ↦ flag_fields first flags
  | some field ↦ (if first then [] else codes ", ") ++ field ++ flag_fields false flags
]

unfoldable pub bind_flags_to_lua : Option CString → CString
unfolding flag_fields
bind_flags_to_lua none = []
bind_flags_to_lua (some flags) = flag_fields true flags
