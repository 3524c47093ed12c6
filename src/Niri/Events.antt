-- ===== src/Niri/Events.antt =====
-- src/ipc/niri/client.c: the lines of Niri's event stream, and the events that they are. The parser is
-- json-c's.
use axctl_c.Prelude.{
  ℕ, Bool, false, [], ◌∷◌, Option, none, some, CString, codes, str_eq, if◌then◌else◌, pos, ◌||◌,
}
use axctl_c.Json.{JsonC, JsonKinds}
use axctl_c.Json.Helpers.{json_get_object, json_get_int, json_get_string, json_get_bool}
use axctl_c.Text.{show_int}
use axctl_c.Strutil.{strdup}
use axctl_c.Types.{
  Window, window_created, window_closed, window_focused, workspace_changed, unknown,
}
use axctl_c.Cache.{Cache, Heap}
use axctl_c.Server.Refresh.{Compositor}
use axctl_c.Server.Events.{Event, event_callback}

module _ (j : JsonC) {D : Type 0} (k : JsonKinds j D) where
  unfoldable pub niri_window : j.Json → Window
  unfolding json_get_int json_get_string json_get_bool strdup show_int
  niri_window w = record {
    id = some (show_int (json_get_int j w (codes "id") (pos 0)));
    title = strdup (some (json_get_string j w (codes "title")));
    app_id = strdup (some (json_get_string j w (codes "app_id")));
    workspace_id = elim (j.object_get w (codes "workspace_id")) [
      | none ↦ some []
      | some wid ↦ some (show_int (j.get_int wid))
    ];
    is_focused = json_get_bool j w (codes "is_focused") false;
    is_floating = false;
    is_fullscreen = false;
    is_hidden = false;
    metadata = none;
  }

  -- The payload with the number under `id`, if there is one.
  unfoldable pub id_payload : j.Json → CString → j.Json
  unfolding show_int
  id_payload val key = elim (j.object_get val (codes "id")) [
    | none ↦ j.new_object
    | some id ↦ j.object_add j.new_object key (j.new_string (show_int (j.get_int id)))
  ]

  abbrev pub is_opened : CString → Bool
  is_opened key = str_eq key (codes "WindowOpened") || str_eq key (codes "WindowOpenedOrChanged")

  -- The event of a key and its value.
  unfoldable pub niri_event : CString → j.Json → Event j
  unfolding json_get_object niri_window id_payload
  niri_event key val =
      if str_eq key (codes "WorkspacesChanged")
      then record { kind = workspace_changed; window = none; payload = some j.new_object }
      else if is_opened key
      then record {
        kind = window_created;
        window = elim (json_get_object j k val (codes "window")) [
          | none ↦ none
          | some w ↦ some (niri_window w)
        ];
        payload = some j.new_object;
      }
      else if str_eq key (codes "WindowClosed")
      then record {
        kind = window_closed;
        window = none;
        payload = some (id_payload val (codes "id"));
      }
      else if str_eq key (codes "WindowFocusChanged")
      then record {
        kind = window_focused;
        window = none;
        payload = some (id_payload val (codes "address"));
      }
      else record { kind = unknown; window = none; payload = some j.new_object }

  -- Only the first key counts. With no key the type stays 0, which is that of a new window. A value
  -- that is no object, on which the loop is not defined, is passed over here.
  unfoldable pub event_of_object : j.Json → Option (Event j)
  unfolding niri_event
  event_of_object obj = elim (k.entries obj) [
    | none ↦ none
    | some entries ↦ elim entries [
      | [] ↦ some (record { kind = window_created; window = none; payload = some j.new_object })
      | entry ∷ rest ↦ some (niri_event entry.0 entry.1)
    ]
  ]

  unfoldable pub event_of : CString → Option (Event j)
  unfolding event_of_object
  event_of line = elim (k.parse line) [ none ↦ none | some obj ↦ event_of_object obj ]

  -- A round of the loop, with the server's callback.
  unfoldable pub read_event : Compositor D → Heap j → ℕ → Cache D → CString → Cache D × Heap j
  unfolding event_of event_callback
  read_event comp heap fresh c line = elim (event_of line) [
    | none ↦ (c, heap)
    | some event ↦ let r = event_callback j comp heap fresh c event in (r.cache, r.heap)
  ]
