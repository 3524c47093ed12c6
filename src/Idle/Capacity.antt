-- ===== src/Idle/Capacity.antt =====
-- The tables never shrink: a destroyed entry keeps its slot.
use axctl_c.Prelude.{
  ℕ, ◌≤◌, ◌≡◌, Bool, true, List, [], ◌∷◌, none, arith, length, length-append, length-set, get_elem?,
  Option-cases, inl, inr,
}
use axctl_c.Table.{length-update_first}
use axctl_c.Idle.State.{Monitor, Manager, Wayland, next_u32, set_callback}
use axctl_c.Idle.Monitors.{
  is_monitor, fresh_monitor, set_params, retire_monitor, refresh_monitor, mark_idle, monitor_create,
  monitor_update, monitor_destroy, set_monitor_idle,
}
use axctl_c.Idle.Calls.{
  Call, monitor_creates, monitor_updates, monitor_destroys, notifies, inhibits, inhibitor_creates,
  inhibitor_sets, inhibitor_destroys, inhibits_system, sets_callback, pid_of, step, run,
}
use axctl_c.Idle.Invariant.{
  Inv, run-Inv, inhibit-KeepsMonitors, inhibitor_step-KeepsMonitors, system_step,
}

step-length : (im : Manager) (c : Wayland × Call) → length im.monitors ≤ length (step im c).monitors
unfolding step monitor_create monitor_update monitor_destroy set_monitor_idle set_callback
step-length im (w, monitor_creates t r e) =
    let mon = refresh_monitor w (fresh_monitor (next_u32 im.next_monitor_id) t r e) in
    ground (arith, length-append im.monitors (mon ∷ []))
step-length im (w, monitor_updates id t r e) =
    let f = λ (mon : Monitor). refresh_monitor w (set_params t r e mon) in
    ground (arith, length-update_first (is_monitor id) f im.monitors)
step-length im (w, monitor_destroys id) =
    ground (arith, length-update_first (is_monitor id) retire_monitor im.monitors)
step-length im (w, notifies i idle) = elim (Option-cases (get_elem? im.monitors i)) [
  | inl missing ↦ ground (arith, missing)
  | inr (mon, found) ↦ ground (arith, found, length-set im.monitors i (mark_idle idle mon))
]
step-length im (w, inhibits on) = ground (arith, inhibit-KeepsMonitors w im on)
step-length im (w, inhibitor_creates e) = ground (arith, inhibitor_step-KeepsMonitors w im 0 e)
step-length im (w, inhibitor_sets id e) = ground (arith, inhibitor_step-KeepsMonitors w im id e)
step-length im (w, inhibitor_destroys id) =
    ground (arith, inhibitor_step-KeepsMonitors w im id true)
step-length im (w, inhibits_system fork on) = ground (arith, system_step (pid_of fork) im on)
step-length im (w, sets_callback cb) = omega arith

run-length :
    (im : Manager) (cs : List (Wayland × Call)) → length im.monitors ≤ length (run im cs).monitors
unfolding run
run-length im [] = omega arith
run-length im (c ∷ cs) = omega (arith, step-length im c, run-length (step im c) cs)

-- Once a manager that satisfies the invariant has 64 monitor slots in use or destroyed, a create
-- fails and changes nothing, whatever is destroyed or done in between.
pub monitor_create_full :
    (im : Manager) (cs : List (Wayland × Call)) (w : Wayland) (t : ℕ) (r e : Bool)
    → Inv im
    → length im.monitors ≡ 64
    → ((monitor_create w (run im cs) t r e).result ≡ none)
      × ((monitor_create w (run im cs) t r e).state ≡ run im cs)
unfolding monitor_create
monitor_create_full im cs w t r e v full =
    let room = (run-Inv im cs v).monitors_inv.room in
    let size : length (run im cs).monitors ≡ 64 = omega (arith, run-length im cs, room) in
    (ground (arith, size), ground (arith, size))
