-- ===== src/Server/Refreshed.antt =====
-- The cache after `server_init_cache`.
use axctl_c.Prelude.{ℕ, ◌≡◌, refl, ◌∙◌, ◌∷◌, map, none, some, CString}
use axctl_c.Types.{Window, Workspace, MonitorInfo, Array}
use axctl_c.Types.Arrays.{array_dup-items}
use axctl_c.Cache.{
  Cache, given, focus_by, workspace_dup, monitor_dup, mark_window_focused, set_windows,
  set_workspaces, set_monitors, get_windows, get_workspaces, get_monitors,
}
use axctl_c.Cache.Windows.{get_windows-items}
use axctl_c.Cache.Replaced.{map-workspace_dup, map-monitor_dup}
use axctl_c.Server.Refresh.{
  Compositor, refresh_windows, refresh_focus, refresh_workspaces, refresh_monitors,
  server_init_cache,
}

module _ {D : Type 0} where
  -- A compositor that answers everything, with an active window.
  abbrev pub answers :
      Array Window → ℕ → CString → Array Workspace → Array (MonitorInfo D) → Compositor D
  answers ws b s ss ms = record {
    list_windows = some ws;
    active_window = some (some (b ∷ s));
    list_workspaces = some ss;
    list_monitors = some ms;
  }

  -- A compositor that fails at everything.
  abbrev pub fails : Compositor D
  fails = record {
    list_windows = none;
    active_window = none;
    list_workspaces = none;
    list_monitors = none;
  }

  -- After a refresh with an answer to everything, the getters answer what the compositor listed,
  -- whatever was cached, with the windows marked by the id of the active one; and a refresh with no
  -- answer changes nothing.
  pub get_windows-server_init_cache :
      (c : Cache D) (ws : Array Window) (b : ℕ) (s : CString) (ss : Array Workspace)
      (ms : Array (MonitorInfo D))
      → let c' = server_init_cache (answers ws b s ss ms) c in
        ((get_windows c').items ≡ map (focus_by (some (b ∷ s))) ws.items)
        × ((get_workspaces c').items ≡ ss.items)
        × ((get_monitors c').items ≡ ms.items)
        × (server_init_cache fails c ≡ c)
  unfolding server_init_cache refresh_windows refresh_focus refresh_workspaces refresh_monitors
      given mark_window_focused set_windows set_workspaces set_monitors get_workspaces get_monitors
  get_windows-server_init_cache c ws b s ss ms = (
    get_windows-items (server_init_cache (answers ws b s ss ms) c),
    array_dup-items workspace_dup ss ∙ map-workspace_dup ss.items,
    array_dup-items monitor_dup ms ∙ map-monitor_dup ms.items,
    refl,
  )
