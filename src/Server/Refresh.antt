-- ===== src/Server/Refresh.antt =====
-- src/server/server.c: `server_init_cache`, with the answers of the compositor as a parameter.
use axctl_c.Prelude.{Option, none, some, CString}
use axctl_c.Types.{Window, Workspace, MonitorInfo, Array}
use axctl_c.Cache.{Cache, given, mark_window_focused, set_windows, set_workspaces, set_monitors}

-- What the operations of the compositor answer; `none` is a result that is not 0.
pub record Compositor (D : Type 0) : Type 0 where
  pub list_windows : Option (Array Window)
  pub active_window : Option (Option CString)
  pub list_workspaces : Option (Array Workspace)
  pub list_monitors : Option (Array (MonitorInfo D))

module _ {D : Type 0} where
  -- The four parts of `server_init_cache`.
  unfoldable pub refresh_windows : Compositor D → Cache D → Cache D
  refresh_windows comp c = elim comp.list_windows [ none ↦ c | some ws ↦ (set_windows c ws).0 ]

  unfoldable pub refresh_focus : Compositor D → Cache D → Cache D
  refresh_focus comp c = elim comp.active_window [
    | none ↦ c
    | some active_id ↦ elim (given active_id) [
      | none ↦ c
      | some id ↦ mark_window_focused c (some id)
    ]
  ]

  unfoldable pub refresh_workspaces : Compositor D → Cache D → Cache D
  refresh_workspaces comp c = elim comp.list_workspaces [
    | none ↦ c
    | some ws ↦ (set_workspaces c ws).0
  ]

  unfoldable pub refresh_monitors : Compositor D → Cache D → Cache D
  refresh_monitors comp c = elim comp.list_monitors [ none ↦ c | some ms ↦ (set_monitors c ms).0 ]

  unfoldable pub server_init_cache : Compositor D → Cache D → Cache D
  server_init_cache comp c =
      refresh_monitors comp (refresh_workspaces comp (refresh_focus comp (refresh_windows comp c)))
