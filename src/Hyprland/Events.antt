-- ===== src/Hyprland/Events.antt =====
-- src/ipc/hyprland/client.c: the lines of Hyprland's event socket, as `fgets` answers them, and the events
-- that they are.
use axctl_c.Prelude.{
  ℕ, Bool, false, List, [], ◌∷◌, ◌++◌, Option, none, some, CString, codes, str_eq, ◌==◌,
  if◌then◌else◌, get_elem?, drop,
}
use axctl_c.Json.{JsonC}
use axctl_c.Strutil.{strsplit, strstr}
use axctl_c.Types.{
  Window, EventType, window_created, window_closed, window_focused, window_title_changed,
  window_moved, workspace_changed, monitor_changed, config_reloaded, fullscreen_changed,
  focused_monitor_changed, floating_changed, unknown,
}
use axctl_c.Cache.{Cache, Heap}
use axctl_c.Server.Refresh.{Compositor}
use axctl_c.Server.Events.{Event, event_callback}

-- The names, in the order of the comparisons.
abbrev pub event_names : List (CString × EventType)
event_names =
    (codes "openwindow", window_created)
    ∷ (codes "closewindow", window_closed)
    ∷ (codes "activewindow", window_focused)
    ∷ (codes "activewindowv2", window_focused)
    ∷ (codes "windowtitle", window_title_changed)
    ∷ (codes "windowtitlev2", window_title_changed)
    ∷ (codes "movewindow", window_moved)
    ∷ (codes "movewindowv2", window_moved)
    ∷ (codes "workspace", workspace_changed)
    ∷ (codes "workspacev2", workspace_changed)
    ∷ (codes "monitoradded", monitor_changed)
    ∷ (codes "monitorremoved", monitor_changed)
    ∷ (codes "monitoraddedv2", monitor_changed)
    ∷ (codes "configreloaded", config_reloaded)
    ∷ (codes "fullscreen", fullscreen_changed)
    ∷ (codes "focusedmon", focused_monitor_changed)
    ∷ (codes "changefloatingmode", floating_changed)
    ∷ []

unfoldable pub find_event : List (CString × EventType) → CString → EventType
find_event [] name = unknown
find_event ((known, type) ∷ names) name = if str_eq name known then type else find_event names name

unfoldable pub parse_hypr_event_type : CString → EventType
unfolding find_event
parse_hypr_event_type name = find_event event_names name

-- The newline at the end of the data, if there is one, is cut off.
unfoldable pub cut_newline : CString → CString
cut_newline [] = []
cut_newline (c ∷ []) = if c == 10 then [] else c ∷ []
cut_newline (c ∷ d ∷ s) = c ∷ cut_newline (d ∷ s)

-- `axctl_sprintf("0x%s", s)`
abbrev pub with_0x : CString → CString
with_0x s = codes "0x" ++ s

-- `s[0] == '1'`
abbrev pub is_one : CString → Bool
is_one [] = false
is_one (c ∷ s) = c == b'1'

abbrev pub pieces : CString → List CString
pieces body = (strsplit (some body) b',').out

-- `(n > i) ? axctl_strdup(parts[i]) : axctl_strdup("")`
abbrev pub part_or_empty : List CString → ℕ → CString
part_or_empty parts i = elim (get_elem? parts i) [ none ↦ [] | some s ↦ s ]

-- The window of an event; there is always a first part.
unfoldable pub created_window : List CString → Window
created_window parts = record {
  id = elim (get_elem? parts 0) [ none ↦ none | some addr ↦ some (with_0x addr) ];
  title = some (part_or_empty parts 3);
  app_id = some (part_or_empty parts 2);
  workspace_id = some (part_or_empty parts 1);
  is_focused = false;
  is_floating = false;
  is_fullscreen = false;
  is_hidden = false;
  metadata = none;
}

module _ (j : JsonC) where
  abbrev pub with_text : j.Json → CString → CString → j.Json
  with_text o key s = j.object_add o key (j.new_string s)

  -- `if (n > i) json_object_object_add(evt.payload, key, json_object_new_string(parts[i]))`
  unfoldable pub add_part : List CString → CString → ℕ → j.Json → j.Json
  add_part parts key i o = elim (get_elem? parts i) [ none ↦ o | some s ↦ with_text o key s ]

  -- The same for the address, which is the first part.
  unfoldable pub add_address : List CString → CString → j.Json → j.Json
  add_address parts key o = elim (get_elem? parts 0) [
    | none ↦ o
    | some addr ↦ with_text o key (with_0x addr)
  ]

  unfoldable pub created_payload : List CString → j.Json
  unfolding add_address add_part
  created_payload parts = add_part parts (codes "workspace") 1 (
      add_part parts (codes "title") 3
        (add_part parts (codes "class") 2 (add_address parts (codes "address") j.new_object)))

  unfoldable pub focused_payload : CString → CString → j.Json
  unfolding add_part strsplit
  focused_payload name body =
      if str_eq name (codes "activewindowv2")
      then with_text j.new_object (codes "address") (with_0x body)
      else add_part (pieces body) (codes "title") 1
          (add_part (pieces body) (codes "class") 0 j.new_object)

  unfoldable pub moved_payload : List CString → j.Json
  unfolding add_address add_part
  moved_payload parts =
      add_part parts (codes "workspace") 2
        (add_address parts (codes "id") (add_address parts (codes "address") j.new_object))

  unfoldable pub floating_payload : List CString → j.Json
  unfolding add_address
  floating_payload parts =
      let o = add_address parts (codes "address") j.new_object in
      elim (get_elem? parts 1) [
        | none ↦ o
        | some state ↦ j.object_add o (codes "floating") (j.new_boolean (is_one state))
      ]

  -- The payload of an event, by its type, its name and its data.
  unfoldable pub payload_of : EventType → CString → CString → j.Json
  unfolding created_payload focused_payload moved_payload floating_payload strsplit
  payload_of window_created name body = created_payload (pieces body)
  payload_of window_closed name body =
      with_text (with_text j.new_object (codes "address") (with_0x body)) (codes "id")
        (with_0x body)
  payload_of window_focused name body = focused_payload name body
  payload_of window_title_changed name body = with_text j.new_object (codes "address") body
  payload_of workspace_changed name body = with_text j.new_object (codes "name") body
  payload_of window_moved name body = moved_payload (pieces body)
  payload_of fullscreen_changed name body =
      j.object_add j.new_object (codes "fullscreen") (j.new_boolean (is_one body))
  payload_of floating_changed name body = floating_payload (pieces body)
  payload_of monitor_changed name body = with_text j.new_object (codes "data") body
  payload_of config_reloaded name body = with_text j.new_object (codes "data") body
  payload_of focused_monitor_changed name body = with_text j.new_object (codes "data") body
  payload_of unknown name body = with_text j.new_object (codes "data") body

  unfoldable pub window_of : EventType → CString → Option Window
  unfolding created_window strsplit
  window_of window_created body = some (created_window (pieces body))
  window_of window_closed body = none
  window_of window_focused body = none
  window_of window_title_changed body = none
  window_of window_moved body = none
  window_of workspace_changed body = none
  window_of monitor_changed body = none
  window_of config_reloaded body = none
  window_of fullscreen_changed body = none
  window_of focused_monitor_changed body = none
  window_of floating_changed body = none
  window_of unknown body = none

  -- A line of the form `name>>data`; any other is passed over.
  unfoldable pub event_of : CString → Option (Event j)
  unfolding strstr parse_hypr_event_type cut_newline payload_of window_of
  event_of line = elim (strstr (codes ">>") line) [
    | none ↦ none
    | some (name, rest) ↦
        let body = cut_newline (drop 2 rest) in
        let kind = parse_hypr_event_type name in
        some (record {
          kind = kind;
          window = window_of kind body;
          payload = some (payload_of kind name body);
        })
  ]

  -- A round of the loop, with the server's callback: the cache and the metadata objects afterwards.
  unfoldable pub read_event :
      {D : Type 0} → Compositor D → Heap j → ℕ → Cache D → CString → Cache D × Heap j
  unfolding event_of event_callback
  read_event comp heap fresh c line = elim (event_of line) [
    | none ↦ (c, heap)
    | some event ↦ let r = event_callback j comp heap fresh c event in (r.cache, r.heap)
  ]
