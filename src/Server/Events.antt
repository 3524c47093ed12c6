-- ===== src/Server/Events.antt =====
-- src/server/server.c: what an event of the compositor does to the cache, and the notification that
-- it causes. The answers of the compositor are a parameter. The state that goes with a notification is in
-- Server.Dump.
use axctl_c.Prelude.{ℕ, Bool, false, Option, none, some, CString, codes}
use axctl_c.Json.{JsonC}
use axctl_c.Json.Helpers.{string_or_empty}
use axctl_c.Types.{
  Window, EventType, window_created, window_closed, window_focused, window_title_changed,
  window_moved, workspace_changed, monitor_changed, config_reloaded, fullscreen_changed,
  focused_monitor_changed, floating_changed, unknown,
}
use axctl_c.Server.Refresh.{Compositor, server_init_cache}
use axctl_c.Cache.{
  Cache, Heap, add_window, remove_window, update_window_title, update_window_state,
  update_window_floating, update_window_workspace, mark_window_focused,
}

-- `axctl_event_t`, less its time stamp.
pub record Event (j : JsonC) : Type 0 where
  pub kind : EventType
  pub window : Option Window
  pub payload : Option j.Json

module _ {D : Type 0} where
  -- The window of an event is cached if there is one, and for a focus event if it has an id.
  unfoldable pub add_given : Cache D → Option Window → Cache D
  add_given c none = c
  add_given c (some w) = add_window c w

  unfoldable pub add_named : Cache D → Option Window → Cache D
  add_named c none = c
  add_named c (some w) = elim w.id [ none ↦ c | some id ↦ add_window c w ]

  unfoldable pub remove_given : Cache D → Option CString → Cache D
  remove_given c none = c
  remove_given c (some id) = remove_window c id

  unfoldable pub title_given : Cache D → Option CString → Option CString → Cache D
  title_given c none title = c
  title_given c (some id) none = c
  title_given c (some id) (some title) = update_window_title c id (some title)

  unfoldable pub state_given : Cache D → Option CString → Bool → Cache D
  state_given c none fs = c
  state_given c (some id) fs = update_window_state c id fs

  unfoldable pub floating_given : Cache D → Option CString → Bool → Cache D
  floating_given c none floating = c
  floating_given c (some id) floating = update_window_floating c id floating

module _ (j : JsonC) where
  -- The value of a key of the payload.
  unfoldable pub payload_get : Option j.Json → CString → Option j.Json
  payload_get none key = none
  payload_get (some o) key = j.object_get o key

  unfoldable pub payload_string : Option j.Json → CString → Option CString
  unfolding payload_get
  payload_string payload key = elim (payload_get payload key) [
    | none ↦ none
    | some v ↦ j.get_string v
  ]

  unfoldable pub payload_boolean : Option j.Json → CString → Bool
  unfolding payload_get
  payload_boolean payload key = elim (payload_get payload key) [
    | none ↦ false
    | some v ↦ j.get_boolean v
  ]

  -- The value of `address`, or that of `id` if there is no `address`.
  unfoldable pub payload_id : Option j.Json → Option CString
  unfolding payload_string payload_get
  payload_id payload = elim (payload_get payload (codes "address")) [
    | none ↦ payload_string payload (codes "id")
    | some v ↦ j.get_string v
  ]

  -- What `broadcast_event` is called with.
  pub record Notification : Type 0 where
    pub method : CString
    pub params : Option j.Json

  -- What the callback leaves behind.
  pub record Reaction (D : Type 0) : Type 0 where
    pub cache : Cache D
    pub heap : Heap j
    pub method : CString
    pub params : Option j.Json

  abbrev pub object_of : CString → j.Json → j.Json
  object_of key v = j.object_add j.new_object key v

  -- The parameters of `Event.WorkspaceChanged`.
  unfoldable pub workspace_params : Option j.Json → Option j.Json
  unfolding payload_get string_or_empty
  workspace_params payload = elim (payload_get payload (codes "name")) [
    | none ↦ payload
    | some name ↦ some (object_of (codes "Name") (string_or_empty j (j.get_string name)))
  ]

  module _ {D : Type 0} where
    -- The cached window is moved if both the id and the workspace are given.
    unfoldable pub move_window :
        Heap j → ℕ → Cache D → Option j.Json → Option CString → Option CString → Reaction D
    unfolding payload_string
    move_window heap fresh c payload (some id) (some ws) =
        let (c', heap') =
          update_window_workspace j heap fresh c id (some ws)
            (payload_string payload (codes "monitor")) in
        record {
          cache = c';
          heap = heap';
          method = codes "Event.WindowMoved";
          params = some (
              j.object_add (object_of (codes "ID") (j.new_string id)) (codes "WorkspaceID")
                (j.new_string ws));
        }
    move_window heap fresh c payload none ws = record {
      cache = c;
      heap = heap;
      method = codes "Event.WindowMoved";
      params = payload;
    }
    move_window heap fresh c payload (some id) none = record {
      cache = c;
      heap = heap;
      method = codes "Event.WindowMoved";
      params = payload;
    }

    unfoldable pub focus_given : Cache D → Option j.Json → Cache D
    unfolding payload_get
    focus_given c payload = elim (payload_get payload (codes "address")) [
      | none ↦ c
      | some v ↦ mark_window_focused c (j.get_string v)
    ]

    -- `event_callback`, by the type of the event.
    unfoldable pub react :
        Compositor D → Heap j → ℕ → Cache D → Option Window → Option j.Json → EventType → Reaction D
    unfolding payload_id payload_string payload_boolean string_or_empty
    react comp heap fresh c window payload window_created = record {
      cache = add_given c window;
      heap = heap;
      method = codes "Event.WindowCreated";
      params = payload;
    }
    react comp heap fresh c window payload window_closed = record {
      cache = remove_given c (payload_id payload);
      heap = heap;
      method = codes "Event.WindowClosed";
      params = some (object_of (codes "ID") (string_or_empty j (payload_id payload)));
    }
    react comp heap fresh c window payload window_focused = record {
      cache = add_named (focus_given c payload) window;
      heap = heap;
      method = codes "Event.WindowFocused";
      params = payload;
    }
    react comp heap fresh c window payload window_title_changed = record {
      cache = title_given c (payload_id payload) (payload_string payload (codes "title"));
      heap = heap;
      method = codes "Event.WindowTitleChanged";
      params = payload;
    }
    react comp heap fresh c window payload workspace_changed = record {
      cache = server_init_cache comp c;
      heap = heap;
      method = codes "Event.WorkspaceChanged";
      params = workspace_params payload;
    }
    react comp heap fresh c window payload window_moved =
        move_window heap fresh c payload (payload_id payload)
          (payload_string payload (codes "workspace"))
    react comp heap fresh c window payload monitor_changed = record {
      cache = server_init_cache comp c;
      heap = heap;
      method = codes "Event.MonitorChanged";
      params = payload;
    }
    react comp heap fresh c window payload config_reloaded = record {
      cache = server_init_cache comp c;
      heap = heap;
      method = codes "Event.ConfigReloaded";
      params = none;
    }
    react comp heap fresh c window payload fullscreen_changed = record {
      cache = state_given c (payload_id payload) (payload_boolean payload (codes "fullscreen"));
      heap = heap;
      method = codes "Event.FullscreenChanged";
      params = payload;
    }
    react comp heap fresh c window payload focused_monitor_changed = record {
      cache = server_init_cache comp c;
      heap = heap;
      method = codes "Event.FocusedMonitorChanged";
      params = payload;
    }
    react comp heap fresh c window payload floating_changed = record {
      cache = floating_given c (payload_id payload) (payload_boolean payload (codes "floating"));
      heap = heap;
      method = codes "Event.FloatingChanged";
      params = payload;
    }
    react comp heap fresh c window payload unknown = record {
      cache = server_init_cache comp c;
      heap = heap;
      method = codes "Event.CacheRefreshed";
      params = none;
    }

    unfoldable pub event_callback : Compositor D → Heap j → ℕ → Cache D → Event j → Reaction D
    event_callback comp heap fresh c event =
        react comp heap fresh c event.window event.payload event.kind
