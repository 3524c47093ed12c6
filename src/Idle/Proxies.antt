-- ===== src/Idle/Proxies.antt =====
-- The requests to Wayland account for every proxy that the manager holds.
use axctl_c.Prelude.{
  ℕ, zero, suc, ◌+◌, ◌≡◌, refl, Bool, true, List, [], ◌∷◌, ◌++◌, Option, none, some, arith, ◌==◌,
  if◌then◌else◌, length, set, get_elem?, Option-cases, Bool-cases, inl, inr, leb,
}
use axctl_c.Table.{total, total-append, total-update_first}
use axctl_c.Idle.State.{
  Monitor, Inhibitor, Manager, Wayland, Request, get_notification, destroy_notification, next_u32,
  set_callback,
}
use axctl_c.Idle.Monitors.{
  is_monitor, find_monitor, fresh_monitor, set_params, retire_monitor, refresh_monitor,
  refresh_monitor_requests, mark_idle, monitor_create, monitor_update, monitor_destroy,
  set_monitor_idle,
}
use axctl_c.Idle.Inhibitors.{
  find_inhibitor, fresh_inhibitor, inhibit_found, ensure_legacy, inhibit, inhibitor_create,
  inhibitor_set, inhibitor_destroy, refresh_inhibitor,
}
use axctl_c.Idle.Calls.{
  Call, monitor_creates, monitor_updates, monitor_destroys, notifies, inhibits, inhibitor_creates,
  inhibitor_sets, inhibitor_destroys, inhibits_system, sets_callback, pid_of, step, run,
  step_requests, run_requests,
}
use axctl_c.Idle.Invariant.{inhibit-KeepsMonitors, inhibitor_step-KeepsMonitors, system_step}

-- 1 if the pointer is the proxy `p`.
abbrev pub holds : ℕ → Option ℕ → ℕ
holds p none = 0
holds p (some q) = if q == p then 1 else 0

-- How many monitors have the notification `p`.
abbrev pub held : ℕ → List Monitor → ℕ
held p = total (λ mon. holds p mon.notification)

-- How often the requests make the notification `p`, and how often they destroy it.
pub made : ℕ → List Request → ℕ
made p [] = 0
made p (get_notification q ∷ rs) = (if q == p then 1 else 0) + made p rs
made p (r ∷ rs) = made p rs

pub destroyed : ℕ → List Request → ℕ
destroyed p [] = 0
destroyed p (destroy_notification q ∷ rs) = (if q == p then 1 else 0) + destroyed p rs
destroyed p (r ∷ rs) = destroyed p rs

made-append : (p : ℕ) (rs qs : List Request) → made p (rs ++ qs) ≡ made p rs + made p qs
unfolding made
made-append p [] qs = omega arith
made-append p (get_notification q ∷ rs) qs = ground (arith, made-append p rs qs)
made-append p (_ ∷ rs) qs = made-append p rs qs

destroyed-append :
    (p : ℕ) (rs qs : List Request) → destroyed p (rs ++ qs) ≡ destroyed p rs + destroyed p qs
unfolding destroyed
destroyed-append p [] qs = omega arith
destroyed-append p (destroy_notification q ∷ rs) qs = ground (arith, destroyed-append p rs qs)
destroyed-append p (_ ∷ rs) qs = destroyed-append p rs qs

-- Refreshing a monitor drops its old proxy and holds the new one.
refresh_monitor-holds :
    (p : ℕ) (w : Wayland) (mon : Monitor)
    → holds p (refresh_monitor w mon).notification + destroyed p (refresh_monitor_requests w mon)
      ≡ holds p mon.notification + made p (refresh_monitor_requests w mon)
unfolding refresh_monitor refresh_monitor_requests made destroyed
refresh_monitor-holds p w mon = ground arith

-- The balance of one call.
abbrev Balanced : ℕ → Manager → Manager → List Request → Type 0
Balanced p im im' rs = held p im'.monitors + destroyed p rs ≡ held p im.monitors + made p rs

module _ (p : ℕ) where
  monitor_create-Balanced :
      (w : Wayland) (im : Manager) (t : ℕ) (r e : Bool)
      → let o = monitor_create w im t r e in Balanced p im o.state o.requests
  unfolding monitor_create
  monitor_create-Balanced w im t r e = elim (Bool-cases (leb 64 (length im.monitors))) [
    | inl full ↦ rw full (unfold made destroyed in refl)
    | inr free ↦
        let mon = fresh_monitor (next_u32 im.next_monitor_id) t r e in
        rw free (
          omega (
            arith,
            refresh_monitor-holds p w mon,
            total-append (λ mon. holds p mon.notification) im.monitors (refresh_monitor w mon),
          ))
  ]

  monitor_update-Balanced :
      (w : Wayland) (im : Manager) (id t : ℕ) (r e : Bool)
      → let o = monitor_update w im id t r e in Balanced p im o.state o.requests
  unfolding monitor_update find_monitor
  monitor_update-Balanced w im id t r e = elim (Option-cases (find_monitor im id)) [
    | inl missing ↦ rw (missing, monitor_update) (unfold made destroyed in refl)
    | inr (mon, found) ↦
        rw (found, monitor_update)
          (omega (
            arith,
            refresh_monitor-holds p w (set_params t r e mon),
            total-update_first (λ mon. holds p mon.notification) (is_monitor id)
                (λ m. refresh_monitor w (set_params t r e m)) im.monitors found,
          ))
  ]

  monitor_destroy-Balanced :
      (im : Manager) (id : ℕ) → let o = monitor_destroy im id in Balanced p im o.state o.requests
  unfolding monitor_destroy find_monitor made destroyed
  monitor_destroy-Balanced im id = elim (Option-cases (find_monitor im id)) [
    | inl missing ↦ rw (missing, monitor_destroy)
    | inr (mon, found) ↦
        let sums =
          total-update_first (λ mon. holds p mon.notification) (is_monitor id) retire_monitor
            im.monitors found in
        rw (found, monitor_destroy) (ground (arith, sums))
  ]

  held-set :
      (ms : List Monitor) (i : ℕ) (mon mon' : Monitor)
      → get_elem? ms i ≡ some mon
      → mon'.notification ≡ mon.notification
      → held p (set ms i mon') ≡ held p ms
  unfolding total
  held-set [] i mon mon' g e = refl
  held-set (m ∷ ms) zero mon mon' g e = ground arith
  held-set (m ∷ ms) (suc i) mon mon' g e = ground (arith, held-set ms i mon mon' g e)

  mark_idle-notification :
      (idle : Bool) (mon : Monitor) → (mark_idle idle mon).notification ≡ mon.notification
  unfolding mark_idle
  mark_idle-notification idle mon = ground arith

  set_monitor_idle-held :
      (im : Manager) (i : ℕ) (idle : Bool)
      → held p (set_monitor_idle im i idle).0.monitors ≡ held p im.monitors
  unfolding set_monitor_idle
  set_monitor_idle-held im i idle = elim (Option-cases (get_elem? im.monitors i)) [
    | inl missing ↦ rw (missing, set_monitor_idle)
    | inr (mon, found) ↦
        rw (found, set_monitor_idle)
          (held-set im.monitors i mon (mark_idle idle mon) found (mark_idle-notification idle mon))
  ]

  -- The operations on inhibitors neither make nor destroy a notification.
  abbrev NoNotification : List Request → Type 0
  NoNotification rs = (made p rs ≡ 0) × (destroyed p rs ≡ 0)

  refresh_inhibitor-NoNotification :
      (w : Wayland) (inh : Inhibitor) → NoNotification (refresh_inhibitor w inh).requests
  unfolding refresh_inhibitor made destroyed
  refresh_inhibitor-NoNotification w inh = ground arith

  inhibit_found-NoNotification :
      (w : Wayland) (im : Manager) (on : Bool) → NoNotification (inhibit_found w im on).requests
  unfolding inhibit_found made destroyed
  inhibit_found-NoNotification w im on =
      elim (Option-cases (find_inhibitor im im.legacy_inhibitor_id)) [
        | inl missing ↦ rw (missing, inhibit_found) (refl, refl)
        | inr (inh, found) ↦
            ground (arith, found, refresh_inhibitor-NoNotification w (record inh { enabled = on }))
      ]

  inhibitor_step-NoNotification :
      (w : Wayland) (im : Manager) (id : ℕ) (e : Bool)
      → NoNotification (inhibit w im e).requests
        × NoNotification (inhibitor_create w im e).requests
        × NoNotification (inhibitor_set w im id e).requests
        × NoNotification (inhibitor_destroy im id).requests
  unfolding inhibit inhibitor_create inhibitor_set inhibitor_destroy made destroyed
  inhibitor_step-NoNotification w im id e =
      let fresh = fresh_inhibitor (next_u32 im.next_inhibitor_id) e in
      (
        inhibit_found-NoNotification w (ensure_legacy im) e,
        ground (arith, refresh_inhibitor-NoNotification w fresh),
        elim (Option-cases (find_inhibitor im id)) [
          | inl missing ↦ rw (missing, inhibitor_set) (refl, refl)
          | inr (inh, found) ↦
              ground (arith, found, refresh_inhibitor-NoNotification w (record inh { enabled = e }))
        ],
        ground arith,
      )

  step-Balanced :
      (im : Manager) (c : Wayland × Call) → Balanced p im (step im c) (step_requests im c)
  unfolding step step_requests
  step-Balanced im (w, monitor_creates t r e) = monitor_create-Balanced w im t r e
  step-Balanced im (w, monitor_updates id t r e) = monitor_update-Balanced w im id t r e
  step-Balanced im (w, monitor_destroys id) = monitor_destroy-Balanced im id
  step-Balanced im (w, notifies i idle) =
      unfold made destroyed in omega (arith, set_monitor_idle-held im i idle)
  step-Balanced im (w, inhibits on) =
      ground (arith, inhibit-KeepsMonitors w im on, inhibitor_step-NoNotification w im 0 on)
  step-Balanced im (w, inhibitor_creates e) =
      ground (arith, inhibitor_step-KeepsMonitors w im 0 e, inhibitor_step-NoNotification w im 0 e)
  step-Balanced im (w, inhibitor_sets id e) =
      ground
        (arith, inhibitor_step-KeepsMonitors w im id e, inhibitor_step-NoNotification w im id e)
  step-Balanced im (w, inhibitor_destroys id) =
      ground (
        arith,
        inhibitor_step-KeepsMonitors w im id true,
        inhibitor_step-NoNotification w im id true,
      )
  step-Balanced im (w, inhibits_system fork on) =
      unfold made destroyed in ground (arith, system_step (pid_of fork) im on)
  step-Balanced im (w, sets_callback cb) = unfold made destroyed set_callback in refl

  -- Over any history, each notification proxy is held now and was destroyed as often as it was held
  -- at first and made: none is lost while it exists, and none is destroyed twice.
  pub run-held :
      (im : Manager) (cs : List (Wayland × Call))
      → held p (run im cs).monitors + destroyed p (run_requests im cs)
        ≡ held p im.monitors + made p (run_requests im cs)
  unfolding run run_requests
  run-held im [] = unfold made destroyed in refl
  run-held im (c ∷ cs) = omega (
    arith,
    step-Balanced im c,
    run-held (step im c) cs,
    made-append p (step_requests im c) (run_requests (step im c) cs),
    destroyed-append p (step_requests im c) (run_requests (step im c) cs),
  )
