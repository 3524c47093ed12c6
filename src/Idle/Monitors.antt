-- ===== src/Idle/Monitors.antt =====
-- src/server/idle.c: the idle monitors, and the callback of their notifications.
use axctl_c.Prelude.{
  ℕ, Bool, true, false, not, ◌&&◌, ◌||◌, List, [], ◌∷◌, ◌++◌, Option, none, some, ◌==◌, leb,
  if◌then◌else◌, length, get_elem?, same_flag, set,
}
use axctl_c.Table.{find_first, update_first}
use axctl_c.Idle.State.{
  Monitor, Manager, Wayland, Request, get_notification, add_listener, destroy_notification, flush,
  Outcome, fail, max_monitors, next_u32,
}

-- The test of `find_monitor`.
abbrev pub is_monitor : ℕ → Monitor → Bool
is_monitor id mon = mon.id == id && not mon.deleted

unfoldable pub find_monitor : Manager → ℕ → Option Monitor
find_monitor im id = find_first (is_monitor id) im.monitors

-- `axctl_idle_monitor_state_t`, as the operations fill it in.
pub record MonitorState : Type 0 where
  pub id : ℕ
  pub enabled : Bool
  pub timeout_ms : ℕ
  pub respect_inhibitors : Bool
  pub is_idle : Bool

abbrev pub snapshot : Monitor → MonitorState
snapshot mon = record {
  id = mon.id;
  enabled = mon.enabled;
  timeout_ms = mon.timeout_ms;
  respect_inhibitors = mon.respect_inhibitors;
  is_idle = mon.is_idle;
}

-- `refresh_monitor`: the old notification goes first.
abbrev destroy_old : Monitor → List Request
destroy_old mon = elim mon.notification [ none ↦ [] | some p ↦ destroy_notification p ∷ [] ]

-- The part of `refresh_monitor` behind its guards.
renew_notification : Wayland → Monitor → Monitor
renew_notification w mon = record mon {
  manager = true;
  notification = w.get_idle_notification mon.timeout_ms;
}

renew_requests : Wayland → Monitor → List Request
renew_requests w mon = elim (w.get_idle_notification mon.timeout_ms) [
  | none ↦ []
  | some p ↦ get_notification p ∷ add_listener p ∷ flush ∷ []
]

unfoldable pub refresh_monitor : Wayland → Monitor → Monitor
unfolding renew_notification
refresh_monitor w mon =
    let dropped = record mon { notification = none } in
    if not mon.enabled
    then dropped
    else if not w.notifier || not w.seat
    then dropped
    else renew_notification w dropped

unfoldable pub refresh_monitor_requests : Wayland → Monitor → List Request
unfolding renew_requests
refresh_monitor_requests w mon =
    if not mon.enabled
    then destroy_old mon
    else if not w.notifier || not w.seat
    then destroy_old mon
    else destroy_old mon ++ renew_requests w mon

-- The slot that `axctl_idle_monitor_create` fills, before it is refreshed.
abbrev pub fresh_monitor : ℕ → ℕ → Bool → Bool → Monitor
fresh_monitor id timeout_ms respect_inhibitors enabled = record {
  id = id;
  timeout_ms = timeout_ms;
  respect_inhibitors = respect_inhibitors;
  enabled = enabled;
  is_idle = false;
  deleted = false;
  notification = none;
  manager = true;
  signaled = false;
}

unfoldable pub monitor_create : Wayland → Manager → ℕ → Bool → Bool → Outcome MonitorState
monitor_create w im timeout_ms respect_inhibitors enabled =
    if leb max_monitors (length im.monitors)
    then fail im
    else let id = next_u32 im.next_monitor_id in
      let mon = fresh_monitor id timeout_ms respect_inhibitors enabled in
      record {
        state = record im {
          monitors = im.monitors ++ refresh_monitor w mon ∷ [];
          next_monitor_id = id;
        };
        requests = refresh_monitor_requests w mon;
        result = some (snapshot (refresh_monitor w mon));
      }

-- The assignments of `axctl_idle_monitor_update`.
abbrev pub set_params : ℕ → Bool → Bool → Monitor → Monitor
set_params timeout_ms respect_inhibitors enabled mon = record mon {
  timeout_ms = timeout_ms;
  respect_inhibitors = respect_inhibitors;
  enabled = enabled;
}

unfoldable pub monitor_update : Wayland → Manager → ℕ → ℕ → Bool → Bool → Outcome MonitorState
unfolding find_monitor
monitor_update w im id timeout_ms respect_inhibitors enabled = elim (find_monitor im id) [
  | none ↦ fail im
  | some mon ↦
      let change =
        λ (m : Monitor). refresh_monitor w (set_params timeout_ms respect_inhibitors enabled m) in
      record {
        state = record im { monitors = update_first (is_monitor id) change im.monitors };
        requests =
            refresh_monitor_requests w (set_params timeout_ms respect_inhibitors enabled mon);
        result = some (snapshot (change mon));
      }
]

unfoldable pub monitor_get : Manager → ℕ → Option MonitorState
unfolding find_monitor
monitor_get im id = elim (find_monitor im id) [ none ↦ none | some mon ↦ some (snapshot mon) ]

abbrev pub retire_monitor : Monitor → Monitor
retire_monitor mon = record mon { notification = none; deleted = true; manager = false }

unfoldable pub monitor_destroy : Manager → ℕ → Outcome (Unit {0})
unfolding find_monitor
monitor_destroy im id = elim (find_monitor im id) [
  | none ↦ fail im
  | some mon ↦ record {
    state = record im { monitors = update_first (is_monitor id) retire_monitor im.monitors };
    requests = elim mon.notification [ none ↦ [] | some p ↦ destroy_notification p ∷ flush ∷ [] ];
    result = some tt;
  }
]

-- A call of the `on_changed` callback: the monitor's id, and the new state.
pub record Change : Type 0 where
  pub id : ℕ
  pub is_idle : Bool

-- What `set_monitor_idle` makes of the monitor.
unfoldable pub mark_idle : Bool → Monitor → Monitor
unfolding same_flag
mark_idle idle mon =
    if not mon.manager
    then mon
    else if same_flag mon.is_idle idle
    then mon
    else record mon { is_idle = idle; signaled = true }

-- The callbacks that it makes.
unfoldable pub idle_changes : Bool → Bool → Monitor → List Change
unfolding same_flag
idle_changes cb idle mon =
    if not mon.manager
    then []
    else if same_flag mon.is_idle idle
    then []
    else if cb
    then record { id = mon.id; is_idle = idle } ∷ []
    else []

-- `notification_idled` (`true`) and `notification_resumed` (`false`) on the slot at `i`.
unfoldable pub set_monitor_idle : Manager → ℕ → Bool → Manager × List Change
set_monitor_idle im i idle = elim (get_elem? im.monitors i) [
  | none ↦ (im, [])
  | some mon ↦ (
    record im { monitors = set im.monitors i (mark_idle idle mon) },
    idle_changes im.on_changed idle mon,
  )
]
