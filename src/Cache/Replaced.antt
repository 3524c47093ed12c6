-- ===== src/Cache/Replaced.antt =====
-- The setters, as the getters show them.
use axctl_c.Prelude.{◌≡◌, refl, ◌∙◌, List, [], ◌∷◌, map, arith}
use axctl_c.Types.{Window, Workspace, MonitorInfo, Array, array_init, window_dup}
use axctl_c.Types.Arrays.{array_dup-items}
use axctl_c.Cache.{
  Cache, workspace_dup, monitor_dup, get_windows, set_windows, get_workspaces, set_workspaces,
  get_monitors, set_monitors,
}
use axctl_c.Cache.Windows.{strdup_lem, map-window_dup}

workspace_dup_lem : (w : Workspace) → workspace_dup w ≡ w
unfolding workspace_dup
workspace_dup_lem w = ground (arith, strdup_lem w.id, strdup_lem w.name, strdup_lem w.monitor_id)

monitor_dup_lem : {D : Type 0} (m : MonitorInfo D) → monitor_dup m ≡ m
unfolding monitor_dup
monitor_dup_lem m = rw (strdup_lem m.id, strdup_lem m.name, strdup_lem m.description)

pub map-workspace_dup : (ws : List Workspace) → map workspace_dup ws ≡ ws
map-workspace_dup [] = refl
map-workspace_dup (w ∷ ws) = rw (workspace_dup_lem w, map-workspace_dup ws)

pub map-monitor_dup : {D : Type 0} (ms : List (MonitorInfo D)) → map monitor_dup ms ≡ ms
map-monitor_dup [] = refl
map-monitor_dup (m ∷ ms) = rw (monitor_dup_lem m, map-monitor_dup ms)

module _ {D : Type 0} where
  -- What a setter put in, the getter of its kind answers in order, and the caller's own array is
  -- left with nothing in it; a setter of one kind leaves the other two getters' answers alone.
  pub setters-getters :
      (c : Cache D) (ws : Array Window) (ss : Array Workspace) (ms : Array (MonitorInfo D))
      → let filled = (set_monitors (set_workspaces (set_windows c ws).0 ss).0 ms).0 in
        ((get_windows filled).items ≡ ws.items)
        × ((get_workspaces filled).items ≡ ss.items)
        × ((get_monitors filled).items ≡ ms.items)
        × ((set_windows c ws).1.items ≡ [])
        × ((set_workspaces c ss).1.items ≡ [])
        × ((set_monitors c ms).1.items ≡ [])
  unfolding set_windows set_workspaces set_monitors get_windows get_workspaces get_monitors
      array_init
  setters-getters c ws ss ms = (
    array_dup-items window_dup ws ∙ map-window_dup ws.items,
    array_dup-items workspace_dup ss ∙ map-workspace_dup ss.items,
    array_dup-items monitor_dup ms ∙ map-monitor_dup ms.items,
    refl,
    refl,
    refl,
  )
