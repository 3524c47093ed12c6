-- ===== src/Idle/Invariant.antt =====
-- What holds of the idle manager after any history.
pub mod Monitors
pub mod Inhibitors
pub mod System
use axctl_c.Prelude.{ℕ, ◌≡◌, refl, inr, Bool, true, Option, none, some, List, [], ◌∷◌, arith}
use axctl_c.Idle.State.{Monitor, Inhibitor, Manager, Wayland, create, set_callback}
use axctl_c.Idle.Monitors.{monitor_create, monitor_update, monitor_destroy, set_monitor_idle}
use axctl_c.Idle.Inhibitors.{
  ensure_legacy, set_enabled, inhibit_found, inhibit, inhibitor_create, inhibitor_set,
  inhibitor_destroy,
}
use axctl_c.Idle.System.{inhibit_system}
use axctl_c.Idle.Calls.{
  Call, monitor_creates, monitor_updates, monitor_destroys, notifies, inhibits, inhibitor_creates,
  inhibitor_sets, inhibitor_destroys, inhibits_system, sets_callback, pid_of, step, run,
}
use Monitors.{
  MonitorsInv, nil-MonitorsInv, monitor_create-MonitorsInv, monitor_update-MonitorsInv,
  monitor_destroy-MonitorsInv, set_monitor_idle-MonitorsInv,
}
use Inhibitors.{
  InhibitorsInv, nil-InhibitorsInv, inhibit-InhibitorsInv, inhibitor_create-InhibitorsInv,
  inhibitor_set-InhibitorsInv, inhibitor_destroy-InhibitorsInv,
}
use System.{SystemInv, inhibit_system-SystemInv}

pub record Inv (im : Manager) : Type 0 where
  pub monitors_inv : MonitorsInv im.monitors im.next_monitor_id
  pub inhibitors_inv : InhibitorsInv im.inhibitors im.next_inhibitor_id im.legacy_inhibitor_id
  pub system_inv : SystemInv im

-- Two managers agree on all that an operation on monitors leaves alone, or one on inhibitors.
abbrev pub KeepsRest : Manager → Manager → Type 0
KeepsRest im im' =
    (im'.inhibitors ≡ im.inhibitors)
    × (im'.next_inhibitor_id ≡ im.next_inhibitor_id)
    × (im'.legacy_inhibitor_id ≡ im.legacy_inhibitor_id)
    × (im'.system_inhibited ≡ im.system_inhibited)
    × (im'.system_inhibit_pid ≡ im.system_inhibit_pid)

abbrev pub KeepsMonitors : Manager → Manager → Type 0
KeepsMonitors im im' =
    (im'.monitors ≡ im.monitors)
    × (im'.next_monitor_id ≡ im.next_monitor_id)
    × (im'.system_inhibited ≡ im.system_inhibited)
    × (im'.system_inhibit_pid ≡ im.system_inhibit_pid)

Inv-monitors :
    (im im' : Manager)
    → Inv im
    → KeepsRest im im'
    → MonitorsInv im'.monitors im'.next_monitor_id
    → Inv im'
Inv-monitors im im' v k m = record {
  monitors_inv = m;
  inhibitors_inv = rw (k.0, k.1, k.2) v.inhibitors_inv;
  system_inv = rw (k.3, k.4) v.system_inv;
}

Inv-inhibitors :
    (im im' : Manager)
    → Inv im
    → KeepsMonitors im im'
    → InhibitorsInv im'.inhibitors im'.next_inhibitor_id im'.legacy_inhibitor_id
    → Inv im'
Inv-inhibitors im im' v k i = record {
  monitors_inv = rw (k.0, k.1) v.monitors_inv;
  inhibitors_inv = i;
  system_inv = rw (k.2, k.3) v.system_inv;
}

pub monitor_step-KeepsRest :
    (w : Wayland) (im : Manager) (id t : ℕ) (r e : Bool)
    → KeepsRest im (monitor_create w im t r e).state
      × KeepsRest im (monitor_update w im id t r e).state
      × KeepsRest im (monitor_destroy im id).state
      × KeepsRest im (set_monitor_idle im id e).0
unfolding monitor_create monitor_update monitor_destroy set_monitor_idle
monitor_step-KeepsRest w im id t r e = (ground arith, ground arith, ground arith, ground arith)

inhibit_found-KeepsMonitors :
    (w : Wayland) (im : Manager) (on : Bool) → KeepsMonitors im (inhibit_found w im on).state
unfolding inhibit_found set_enabled
inhibit_found-KeepsMonitors w im on = ground arith

pub inhibit-KeepsMonitors :
    (w : Wayland) (im : Manager) (on : Bool) → KeepsMonitors im (inhibit w im on).state
unfolding inhibit ensure_legacy
inhibit-KeepsMonitors w im on = ground (arith, inhibit_found-KeepsMonitors w (ensure_legacy im) on)

pub inhibitor_step-KeepsMonitors :
    (w : Wayland) (im : Manager) (id : ℕ) (e : Bool)
    → KeepsMonitors im (inhibitor_create w im e).state
      × KeepsMonitors im (inhibitor_set w im id e).state
      × KeepsMonitors im (inhibitor_destroy im id).state
unfolding inhibitor_create inhibitor_set inhibitor_destroy set_enabled
inhibitor_step-KeepsMonitors w im id e = (ground arith, ground arith, ground arith)

pub system_step :
    (fork : Option ℕ) (im : Manager) (on : Bool)
    → let im' = (inhibit_system fork im on).state in
      (im'.monitors ≡ im.monitors)
      × (im'.next_monitor_id ≡ im.next_monitor_id)
      × (im'.inhibitors ≡ im.inhibitors)
      × (im'.next_inhibitor_id ≡ im.next_inhibitor_id)
      × (im'.legacy_inhibitor_id ≡ im.legacy_inhibitor_id)
unfolding inhibit_system
system_step none im on = ground arith
system_step (some pid) im on = ground arith

pub create-Inv : Inv create
unfolding create
create-Inv = record {
  monitors_inv = nil-MonitorsInv;
  inhibitors_inv = nil-InhibitorsInv;
  system_inv = inr (refl, refl);
}

pub step-Inv : (im : Manager) (c : Wayland × Call) → Inv im → Inv (step im c)
unfolding step set_callback
step-Inv im (w, monitor_creates t r e) v =
    Inv-monitors im _ v (monitor_step-KeepsRest w im 0 t r e).0
      (monitor_create-MonitorsInv w im t r e v.monitors_inv)
step-Inv im (w, monitor_updates id t r e) v =
    Inv-monitors im _ v (monitor_step-KeepsRest w im id t r e).1
      (monitor_update-MonitorsInv w im id t r e v.monitors_inv)
step-Inv im (w, monitor_destroys id) v =
    Inv-monitors im _ v (monitor_step-KeepsRest w im id 0 true true).2
      (monitor_destroy-MonitorsInv im id v.monitors_inv)
step-Inv im (w, notifies i idle) v =
    Inv-monitors im _ v (monitor_step-KeepsRest w im i 0 idle idle).3
      (set_monitor_idle-MonitorsInv im i idle v.monitors_inv)
step-Inv im (w, inhibits on) v =
    Inv-inhibitors im _ v (inhibit-KeepsMonitors w im on)
      (inhibit-InhibitorsInv w im on v.inhibitors_inv)
step-Inv im (w, inhibitor_creates e) v =
    Inv-inhibitors im _ v (inhibitor_step-KeepsMonitors w im 0 e).0
      (inhibitor_create-InhibitorsInv w im e v.inhibitors_inv)
step-Inv im (w, inhibitor_sets id e) v =
    Inv-inhibitors im _ v (inhibitor_step-KeepsMonitors w im id e).1
      (inhibitor_set-InhibitorsInv w im id e v.inhibitors_inv)
step-Inv im (w, inhibitor_destroys id) v =
    Inv-inhibitors im _ v (inhibitor_step-KeepsMonitors w im id true).2
      (inhibitor_destroy-InhibitorsInv im id v.inhibitors_inv)
step-Inv im (w, inhibits_system fork on) v =
    let k = system_step (pid_of fork) im on in
    record {
      monitors_inv = rw (k.0, k.1) v.monitors_inv;
      inhibitors_inv = rw (k.2, k.3, k.4) v.inhibitors_inv;
      system_inv = inhibit_system-SystemInv fork im on v.system_inv;
    }
step-Inv im (w, sets_callback cb) v = record {
  monitors_inv = v.monitors_inv;
  inhibitors_inv = v.inhibitors_inv;
  system_inv = v.system_inv;
}

pub run-Inv : (im : Manager) (cs : List (Wayland × Call)) → Inv im → Inv (run im cs)
unfolding run
run-Inv im [] v = v
run-Inv im (c ∷ cs) v = run-Inv (step im c) cs (step-Inv im c v)

-- From the creation of the manager on, after any sequence of operations and idle notifications with
-- any answers of Wayland: both tables have at most 64 slots, numbered 1, 2, 3, … in order, so that
-- no number is given twice and the counters do not wrap; a destroyed monitor has no notification
-- and its callbacks cannot reach the manager; a Wayland inhibitor exists only for an inhibitor that
-- is enabled and has a surface; and a child process exists exactly while the system is inhibited.
pub run-create-Inv : (cs : List (Wayland × Call)) → Inv (run create cs)
run-create-Inv cs = run-Inv create cs create-Inv
