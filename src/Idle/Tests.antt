-- ===== src/Idle/Tests.antt =====
-- Runs of the idle manager, and its theorems at concrete histories.
use axctl_c.Prelude.{
  ℕ, zero, suc, ◌+◌, ◌≡◌, ◌≢◌, ◌⊎◌, refl, true, false, Bool, List, [], ◌∷◌, none, some, arith, ◌==◌,
  if◌then◌else◌, length, map, get_elem?, same_flag, CString, codes, str_eq,
}
use axctl_c.Table.{find_first, update_first}
use axctl_c.Idle.State.{Monitor, Manager, Wayland, create, set_callback}
use axctl_c.Idle.Monitors.{
  find_monitor, refresh_monitor, refresh_monitor_requests, mark_idle, monitor_create,
  monitor_update, monitor_get, monitor_destroy, set_monitor_idle, fresh_monitor,
}
use axctl_c.Idle.Inhibitors.{
  find_inhibitor, refresh_inhibitor, ensure_legacy, set_enabled, inhibit_found, inhibit,
  is_inhibited, inhibitor_create,
}
use axctl_c.Idle.System.{inhibit_system}
use axctl_c.Idle.Calls.{
  Call, monitor_creates, monitor_destroys, notifies, inhibits, inhibitor_creates,
  inhibitor_destroys, inhibits_system, sets_callback, step, run, run_requests,
}
use axctl_c.Idle.Invariant.{Inv, run-create-Inv}
use axctl_c.Idle.Lookup.{
  with_params, monitor_update-monitor_get, monitor_create-monitor_get, monitor_destroy-monitor_get,
}
use axctl_c.Idle.Capacity.{monitor_create_full}
use axctl_c.Idle.Proxies.{held, made, destroyed, run-held}
use axctl_c.Idle.Toggle.{inhibit-is_inhibited, inhibit_lost}
use axctl_c.Idle.Waits.{idled, resumed, idle_wait, idle_wait_resume, idle_is_idle}
use axctl_c.Idle.Waiting.{comes, waited, checked, waits_return}
use axctl_c.Strutil.{strncmp_eq, strcasecmp}
use axctl_c.Idle.Checks.{
  counts, read_name, read_line, is_header, skip_blanks, str_contains_ci, is_flag, is_properties,
  property_value, is_media_blacklisted,
}
use axctl_c.Idle.Blocks.{blocks, read_lines, playing}
use axctl_c.Idle.Events.{notify_all, news, last_report, change_for, notify_all-news}

-- Every global is bound, and each request gets a proxy.
abbrev wayland : Wayland
wayland = record {
  notifier = true;
  seat = true;
  get_idle_notification = λ timeout. some (timeout + 100);
  inhibit_manager = true;
  compositor = true;
  create_surface = some 7;
  create_inhibitor = λ surface. some (surface + 1);
}

abbrev history : List (Wayland × Call)
history =
    (wayland, sets_callback true)
    ∷ (wayland, monitor_creates 500 true true)
    ∷ (wayland, monitor_creates 900 true true)
    ∷ (wayland, notifies 0 true)
    ∷ (wayland, monitor_destroys 2)
    ∷ (wayland, inhibits true)
    ∷ (wayland, inhibits_system (some 41) true)
    ∷ []

-- A manager with monitor 1 idle and monitor 2 destroyed.
abbrev busy : Manager
busy = run create history

busy-Inv : Inv busy
busy-Inv = run-create-Inv history

busy_counts :
    (length busy.monitors ≡ 2) × (busy.next_monitor_id ≡ 2) × (busy.system_inhibit_pid ≡ 42)
unfolding run step create set_callback monitor_create monitor_destroy find_monitor find_first
    update_first refresh_monitor refresh_monitor_requests set_monitor_idle mark_idle inhibit
    ensure_legacy inhibit_found find_inhibitor set_enabled inhibit_system same_flag
busy_counts = (refl, refl, refl)

run-create-Inv_example : Inv (run create history)
run-create-Inv_example = run-create-Inv history

monitor_update-monitor_get_example :
    let o = monitor_update wayland busy 1 250 false true in
    (o.result
      ≡ elim (monitor_get busy 1) [ none ↦ none | some st ↦ some (with_params 250 false true st) ])
    × (monitor_get o.state 1 ≡ (if 1 == 1 then o.result else monitor_get busy 1))
monitor_update-monitor_get_example = monitor_update-monitor_get wayland busy 1 250 false true 1

monitor_create-monitor_get_example :
    let o = monitor_create wayland create 500 true true in
    (o.result
      ≡ some (record {
        id = 1;
        enabled = true;
        timeout_ms = 500;
        respect_inhibitors = true;
        is_idle = false;
      }))
    × (monitor_get create 1 ≡ none)
    × (monitor_get o.state 1 ≡ (if 1 == 1 then o.result else monitor_get create 1))
unfolding create run
monitor_create-monitor_get_example =
    monitor_create-monitor_get wayland create 500 true true 1 (run-create-Inv []) (omega arith)

monitor_destroy-monitor_get_example :
    monitor_get (monitor_destroy busy 1).state 1 ≡ (if 1 == 1 then none else monitor_get busy 1)
monitor_destroy-monitor_get_example = monitor_destroy-monitor_get busy 1 1 busy-Inv

abbrev repeat : ℕ → Call → List (Wayland × Call)
repeat zero c = []
repeat (suc n) c = (wayland, c) ∷ repeat n c

abbrev full_monitors : Manager
full_monitors = run create (repeat 64 (monitor_creates 500 true true))

full_monitors-length : length full_monitors.monitors ≡ 64
unfolding run step create monitor_create refresh_monitor refresh_monitor_requests
full_monitors-length = refl

monitor_create_full_example :
    let im = run full_monitors ((wayland, monitor_destroys 3) ∷ []) in
    ((monitor_create wayland im 500 true true).result ≡ none)
    × ((monitor_create wayland im 500 true true).state ≡ im)
monitor_create_full_example =
    monitor_create_full full_monitors ((wayland, monitor_destroys 3) ∷ []) wayland 500 true true
      (run-create-Inv (repeat 64 (monitor_creates 500 true true))) full_monitors-length

run-held_example :
    held 1000 (run create history).monitors + destroyed 1000 (run_requests create history)
    ≡ held 1000 create.monitors + made 1000 (run_requests create history)
run-held_example = run-held 1000 create history

inhibit-is_inhibited_example :
    ((((inhibit wayland busy false).result ≡ some tt)
        × (is_inhibited (inhibit wayland busy false).state ≡ false))
      ⊎ (((inhibit wayland busy false).result ≡ none)
          × (is_inhibited (inhibit wayland busy false).state ≡ false)))
    × ((length busy.inhibitors ≡ 64)
        ⊎ (busy.legacy_inhibitor_id ≢ 0)
        ⊎ ((inhibit wayland busy false).result ≡ some tt))
inhibit-is_inhibited_example = inhibit-is_inhibited wayland busy false busy-Inv

abbrev full_inhibitors : Manager
full_inhibitors = run create (repeat 64 (inhibitor_creates false))

full_inhibitors_counts :
    (length full_inhibitors.inhibitors ≡ 64) × (full_inhibitors.legacy_inhibitor_id ≡ 0)
unfolding run step create inhibitor_create refresh_inhibitor
full_inhibitors_counts = (refl, refl)

inhibit_lost_example :
    ((inhibit wayland full_inhibitors true).result ≡ none)
    × ((inhibit wayland
          (run (inhibit wayland full_inhibitors true).state ((wayland, inhibitor_destroys 1) ∷ []))
          true).result
        ≡ none)
inhibit_lost_example =
    inhibit_lost wayland wayland full_inhibitors true true ((wayland, inhibitor_destroys 1) ∷ [])
      (run-create-Inv (repeat 64 (inhibitor_creates false))) full_inhibitors_counts.0
      full_inhibitors_counts.1

-- A manager with a callback and one monitor in use.
abbrev watching : Manager
watching = record create { monitors = fresh_monitor 1 500 true true ∷ []; on_changed = true }

abbrev reports : List Bool
reports = true ∷ true ∷ false ∷ true ∷ []

notify_all-news_example :
    ((notify_all watching 0 reports).1 ≡ map (change_for 1) (news false reports))
    × ((mon' : Monitor) × (get_elem? (notify_all watching 0 reports).0.monitors 0 ≡ some mon')
        × (mon'.is_idle ≡ last_report false reports))
notify_all-news_example =
    notify_all-news 0 watching reports (fresh_monitor 1 500 true true) refl refl refl

waits_return_example :
    (idle_wait wayland 500 (resumed ∷ idled ∷ []) ≡ waited 600 (comes idled (resumed ∷ idled ∷ [])))
    × (idle_wait_resume wayland 500 (resumed ∷ idled ∷ [])
        ≡ waited 600 (comes resumed (resumed ∷ idled ∷ [])))
    × (idle_is_idle wayland 500 (resumed ∷ idled ∷ [])
        ≡ checked 600 (comes idled (resumed ∷ idled ∷ [])))
waits_return_example = waits_return wayland 500 600 (resumed ∷ idled ∷ []) refl refl refl

-- Two blocks, the second of which is muted.
abbrev listing : List CString
listing =
    codes "Sink Input #1\n"
    ∷ codes "  Mute: no\n"
    ∷ codes "  Properties:\n"
    ∷ codes "    application.name = \"mpv\"\n"
    ∷ codes "Sink Input #2\n"
    ∷ codes "  Mute: yes\n"
    ∷ codes "  Properties:\n"
    ∷ codes "    application.name = \"vlc\"\n"
    ∷ []

playing-listing : playing (blocks listing).1 ≡ codes "mpv" ∷ []
unfolding playing blocks read_lines is_header skip_blanks counts read_line str_eq strncmp_eq
    strcasecmp is_flag is_properties read_name property_value is_media_blacklisted str_contains_ci
playing-listing = refl
