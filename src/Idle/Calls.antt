-- ===== src/Idle/Calls.antt =====
-- src/server/idle.c: a history of the manager: the calls of its operations and of its callbacks,
-- each with the answers of Wayland. The mutex makes each of them one step.
use axctl_c.Prelude.{ℕ, suc, Bool, List, [], ◌∷◌, ◌++◌, Option, none, some}
use axctl_c.Idle.State.{Manager, Wayland, Request, set_callback}
use axctl_c.Idle.Monitors.{monitor_create, monitor_update, monitor_destroy, set_monitor_idle}
use axctl_c.Idle.Inhibitors.{inhibit, inhibitor_create, inhibitor_set, inhibitor_destroy}
use axctl_c.Idle.System.{inhibit_system}

pub data Call : Type 0 where
  monitor_creates : ℕ → Bool → Bool → Call
  monitor_updates : ℕ → ℕ → Bool → Bool → Call
  monitor_destroys : ℕ → Call
  -- the notification of the slot at a position reports idle, or resumed
  notifies : ℕ → Bool → Call
  inhibits : Bool → Call
  inhibitor_creates : Bool → Call
  inhibitor_sets : ℕ → Bool → Call
  inhibitor_destroys : ℕ → Call
  -- the pid of the child, less one, or none if `fork` fails
  inhibits_system : Option ℕ → Bool → Call
  sets_callback : Bool → Call

abbrev pub pid_of : Option ℕ → Option ℕ
pid_of none = none
pid_of (some n) = some (suc n)

unfoldable pub step : Manager → Wayland × Call → Manager
step im (w, monitor_creates t r e) = (monitor_create w im t r e).state
step im (w, monitor_updates id t r e) = (monitor_update w im id t r e).state
step im (w, monitor_destroys id) = (monitor_destroy im id).state
step im (w, notifies i idle) = (set_monitor_idle im i idle).0
step im (w, inhibits on) = (inhibit w im on).state
step im (w, inhibitor_creates e) = (inhibitor_create w im e).state
step im (w, inhibitor_sets id e) = (inhibitor_set w im id e).state
step im (w, inhibitor_destroys id) = (inhibitor_destroy im id).state
step im (w, inhibits_system fork on) = (inhibit_system (pid_of fork) im on).state
step im (w, sets_callback cb) = set_callback im cb

unfoldable pub run : Manager → List (Wayland × Call) → Manager
unfolding step
run im [] = im
run im (c ∷ cs) = run (step im c) cs

-- The requests to Wayland that a call makes.
unfoldable pub step_requests : Manager → Wayland × Call → List Request
step_requests im (w, monitor_creates t r e) = (monitor_create w im t r e).requests
step_requests im (w, monitor_updates id t r e) = (monitor_update w im id t r e).requests
step_requests im (w, monitor_destroys id) = (monitor_destroy im id).requests
step_requests im (w, notifies i idle) = []
step_requests im (w, inhibits on) = (inhibit w im on).requests
step_requests im (w, inhibitor_creates e) = (inhibitor_create w im e).requests
step_requests im (w, inhibitor_sets id e) = (inhibitor_set w im id e).requests
step_requests im (w, inhibitor_destroys id) = (inhibitor_destroy im id).requests
step_requests im (w, inhibits_system fork on) = []
step_requests im (w, sets_callback cb) = []

unfoldable pub run_requests : Manager → List (Wayland × Call) → List Request
unfolding step_requests step
run_requests im [] = []
run_requests im (c ∷ cs) = step_requests im c ++ run_requests (step im c) cs
