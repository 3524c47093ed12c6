-- ===== src/Server/Distinctness.antt =====
-- Events and the ids of the cached windows.
use axctl_c.Prelude.{ℕ, Option, none, some, CString, codes}
use axctl_c.Json.{JsonC}
use axctl_c.Types.{
  Window, EventType, window_created, window_closed, window_focused, window_title_changed,
  window_moved, workspace_changed, monitor_changed, config_reloaded, fullscreen_changed,
  focused_monitor_changed, floating_changed, unknown,
}
use axctl_c.Cache.{Cache, Heap, mark_window_focused}
use axctl_c.Cache.Focus.{Distinct}
use axctl_c.Server.Kept.{
  focused-MayJoin, title_given-Distinct, add_given-Distinct, update_window_workspace-Distinct,
  server_init_cache-Distinct, remove_given-Distinct, state_given-Distinct, floating_given-Distinct,
  mark_window_focused-WithDistinct, add_named-Distinct, ListsDistinct, MayJoin, WithDistinct,
}
use axctl_c.Server.Refresh.{Compositor}
use axctl_c.Server.Events.{
  Event, focus_given, move_window, react, event_callback, payload_get, payload_id, payload_string,
  payload_boolean,
}

module _ (j : JsonC) {D : Type 0} where
  focus_given-Distinct :
      (c : Cache D) (payload : Option j.Json) (w : Option Window)
      → WithDistinct c
      → MayJoin w c.windows.items
      → WithDistinct (focus_given j c payload) × MayJoin w (focus_given j c payload).windows.items
  unfolding focus_given
  focus_given-Distinct c payload w d n =
      elim (payload_get j payload (codes "address"))
        as (λ o.
          let c' : Cache D = elim o [
            | none ↦ c
            | some v ↦ mark_window_focused c (j.get_string v)
          ] in
          WithDistinct c' × MayJoin w c'.windows.items) [
            | none ↦ (d, n)
            | some v ↦ (
              mark_window_focused-WithDistinct c (j.get_string v) d,
              focused-MayJoin c (j.get_string v) w n,
            )
          ]

  move_window-Distinct :
      (heap : Heap j) (fresh : ℕ) (c : Cache D) (payload : Option j.Json) (id ws : Option CString)
      → WithDistinct c
      → WithDistinct (move_window j heap fresh c payload id ws).cache
  unfolding move_window
  move_window-Distinct heap fresh c payload none ws d = d
  move_window-Distinct heap fresh c payload (some id) none d = d
  move_window-Distinct heap fresh c payload (some id) (some ws) d =
      update_window_workspace-Distinct j heap fresh c id (some ws)
        (payload_string j payload (codes "monitor")) d

  react-Distinct :
      (comp : Compositor D) (heap : Heap j) (fresh : ℕ) (c : Cache D) (window : Option Window)
      (payload : Option j.Json) (kind : EventType)
      → ListsDistinct comp
      → WithDistinct c
      → MayJoin window c.windows.items
      → WithDistinct (react j comp heap fresh c window payload kind).cache
  unfolding react
  react-Distinct comp heap fresh c window payload window_created l d n =
      add_given-Distinct c window d n
  react-Distinct comp heap fresh c window payload window_closed l d n =
      remove_given-Distinct c (payload_id j payload) d
  react-Distinct comp heap fresh c window payload window_focused l d n =
      let focused = focus_given-Distinct c payload window d n in
      add_named-Distinct (focus_given j c payload) window focused.0 focused.1
  react-Distinct comp heap fresh c window payload window_title_changed l d n =
      title_given-Distinct c (payload_id j payload) (payload_string j payload (codes "title")) d
  react-Distinct comp heap fresh c window payload window_moved l d n =
      move_window-Distinct heap fresh c payload (payload_id j payload)
        (payload_string j payload (codes "workspace")) d
  react-Distinct comp heap fresh c window payload fullscreen_changed l d n =
      state_given-Distinct c (payload_id j payload) (payload_boolean j payload (codes "fullscreen"))
        d
  react-Distinct comp heap fresh c window payload floating_changed l d n =
      floating_given-Distinct c (payload_id j payload)
        (payload_boolean j payload (codes "floating")) d
  react-Distinct comp heap fresh c window payload workspace_changed l d n =
      server_init_cache-Distinct comp c l d
  react-Distinct comp heap fresh c window payload monitor_changed l d n =
      server_init_cache-Distinct comp c l d
  react-Distinct comp heap fresh c window payload config_reloaded l d n =
      server_init_cache-Distinct comp c l d
  react-Distinct comp heap fresh c window payload focused_monitor_changed l d n =
      server_init_cache-Distinct comp c l d
  react-Distinct comp heap fresh c window payload unknown l d n =
      server_init_cache-Distinct comp c l d

  -- Where the ids of the cached windows are distinct, and so are those of the windows that the
  -- compositor lists, they are after an event, unless the event brings a window whose id is cached.
  pub event_callback-Distinct :
      (comp : Compositor D) (heap : Heap j) (fresh : ℕ) (c : Cache D) (event : Event j)
      → ListsDistinct comp
      → Distinct c.windows.items
      → MayJoin event.window c.windows.items
      → Distinct (event_callback j comp heap fresh c event).cache.windows.items
  unfolding event_callback
  event_callback-Distinct comp heap fresh c event l d n =
      react-Distinct comp heap fresh c event.window event.payload event.kind l d n
