-- ===== src/Idle/Lookup.antt =====
-- The operations on monitors against what `axctl_idle_monitor_get` answers before and after.
use axctl_c.Prelude.{
  ℕ, suc, ◌<◌, ◌≡◌, ◌∙◌, inl, inr, Bool, true, false, none, some, arith, ◌==◌, if◌then◌else◌,
  length, Option-cases, Bool-cases,
}
use axctl_c.Table.{
  find_first, update_first, find_first-hit, find_first-append, find_first-update_first_self,
  find_first-update_first_other, find_first_above, find_first_gone,
}
use axctl_c.Idle.State.{Monitor, Manager, Wayland, next_u32}
use axctl_c.Idle.Monitors.{
  is_monitor, find_monitor, MonitorState, snapshot, fresh_monitor, set_params, retire_monitor,
  refresh_monitor, monitor_create, monitor_update, monitor_get, monitor_destroy,
}
use axctl_c.Idle.Invariant.{Inv}
use axctl_c.Idle.Invariant.Monitors.{refresh_monitor_keeps}

-- A state with the parameters of an update.
pub with_params : ℕ → Bool → Bool → MonitorState → MonitorState
with_params t r e st = record st { timeout_ms = t; respect_inhibitors = r; enabled = e }

snapshot-refresh :
    (w : Wayland) (t : ℕ) (r e : Bool) (mon : Monitor)
    → snapshot (refresh_monitor w (set_params t r e mon)) ≡ with_params t r e (snapshot mon)
unfolding with_params
snapshot-refresh w t r e mon = ground (arith, refresh_monitor_keeps w (set_params t r e mon))

-- The test of another number fails where the test of a number holds.
other_monitor :
    (id id' : ℕ) (mon : Monitor)
    → (id == id') ≡ false
    → is_monitor id mon ≡ true
    → is_monitor id' mon ≡ false
other_monitor id id' mon ne h = ground arith

module _ (w : Wayland) (im : Manager) (id t : ℕ) (r e : Bool) where
  update_result :
      (monitor_update w im id t r e).result
      ≡ elim (monitor_get im id) [ none ↦ none | some st ↦ some (with_params t r e st) ]
  unfolding monitor_update monitor_get
  update_result = elim (Option-cases (find_monitor im id)) [
    | inl missing ↦ rw (missing, monitor_update, monitor_get)
    | inr (mon, found) ↦ rw (found, monitor_update, monitor_get) (rw (snapshot-refresh w t r e mon))
  ]

  abbrev change : Monitor → Monitor
  change mon = refresh_monitor w (set_params t r e mon)

  change_hit : (id' : ℕ) (mon : Monitor) → is_monitor id' (change mon) ≡ is_monitor id' mon
  change_hit id' mon = ground (arith, refresh_monitor_keeps w (set_params t r e mon))

  update_found :
      {mon : Monitor}
      → find_monitor im id ≡ some mon
      → find_first (is_monitor id) (update_first (is_monitor id) change im.monitors)
        ≡ some (change mon)
  unfolding find_monitor
  update_found {mon} found =
      find_first-update_first_self (is_monitor id) change im.monitors found
        (change_hit id mon ∙ find_first-hit (is_monitor id) im.monitors found)

  update_other :
      (id' : ℕ)
      → (id == id') ≡ false
      → find_first (is_monitor id') (update_first (is_monitor id) change im.monitors)
        ≡ find_first (is_monitor id') im.monitors
  update_other id' ne =
      find_first-update_first_other (is_monitor id) (is_monitor id') change im.monitors
        (λ a h. other_monitor id id' a ne h) (λ a h. change_hit id' a ∙ other_monitor id id' a ne h)

  update_get :
      (id' : ℕ)
      → monitor_get (monitor_update w im id t r e).state id'
        ≡ (if id == id' then (monitor_update w im id t r e).result else monitor_get im id')
  unfolding monitor_update monitor_get find_monitor
  update_get id' = elim (Option-cases (find_monitor im id)) [
    | inl missing ↦ ground (arith, missing)
    | inr (mon, found) ↦ elim (Bool-cases (id == id')) [
      | inl same ↦ let e' : id ≡ id' = ground arith in ground (arith, found, update_found found)
      | inr other ↦ ground (arith, found, update_other id' other)
    ]
  ]

-- An update answers the state that the monitor had, with the new timeout and flags and the old
-- `is_idle`, and fails for a number that is not in use; afterwards the number has that state, and
-- every other number the state that it had.
pub monitor_update-monitor_get :
    (w : Wayland) (im : Manager) (id t : ℕ) (r e : Bool) (id' : ℕ)
    → ((monitor_update w im id t r e).result
        ≡ elim (monitor_get im id) [ none ↦ none | some st ↦ some (with_params t r e st) ])
      × (monitor_get (monitor_update w im id t r e).state id'
          ≡ (if id == id' then (monitor_update w im id t r e).result else monitor_get im id'))
monitor_update-monitor_get w im id t r e id' =
    (update_result w im id t r e, update_get w im id t r e id')

-- In a manager that satisfies the invariant, and with a free slot, a create answers the next number
-- with the parameters and not idle; afterwards that number has this state, which it had not before,
-- and every other number the state that it had.
pub monitor_create-monitor_get :
    (w : Wayland) (im : Manager) (t : ℕ) (r e : Bool) (id' : ℕ)
    → Inv im
    → length im.monitors < 64
    → let id = suc (length im.monitors) in
      let o = monitor_create w im t r e in
      (o.result
        ≡ some (record {
          id = id;
          enabled = e;
          timeout_ms = t;
          respect_inhibitors = r;
          is_idle = false;
        }))
      × (monitor_get im id ≡ none)
      × (monitor_get o.state id' ≡ (if id == id' then o.result else monitor_get im id'))
unfolding monitor_create monitor_get find_monitor
monitor_create-monitor_get w im t r e id' v room =
    let id : ℕ = suc (length im.monitors) in
    let mon = fresh_monitor (next_u32 im.next_monitor_id) t r e in
    let next : next_u32 im.next_monitor_id ≡ suc (length im.monitors) =
      omega (arith, v.monitors_inv.next_is) in
    let unused : find_first (is_monitor id) im.monitors ≡ none =
      find_first_above (λ mon. mon.id) (is_monitor id) id 0 im.monitors (λ a h. ground arith)
        (omega arith) v.monitors_inv.numbered in
    let keeps = refresh_monitor_keeps w mon in
    let after = find_first-append (is_monitor id') im.monitors (refresh_monitor w mon) in
    (
      ground (arith, next, keeps),
      ground (arith, unused),
      ground (arith, next, keeps, unused, after),
    )

-- In a manager that satisfies the invariant a destroyed number is in use no more, and every other
-- number has the state that it had.
pub monitor_destroy-monitor_get :
    (im : Manager) (id id' : ℕ)
    → Inv im
    → monitor_get (monitor_destroy im id).state id'
      ≡ (if id == id' then none else monitor_get im id')
unfolding monitor_destroy monitor_get find_monitor
monitor_destroy-monitor_get im id id' v = elim (Option-cases (find_monitor im id)) [
  | inl missing ↦ ground (arith, missing)
  | inr (mon, found) ↦ elim (Bool-cases (id == id')) [
    | inl same ↦
        let e' : id ≡ id' = ground arith in
        let gone =
          find_first_gone (λ mon. mon.id) (is_monitor id) retire_monitor id 0 im.monitors
            (λ a h. ground arith) (λ a. ground arith) v.monitors_inv.numbered in
        ground (arith, found, gone)
    | inr other ↦
        let kept =
          find_first-update_first_other (is_monitor id) (is_monitor id') retire_monitor im.monitors
            (λ a h. other_monitor id id' a other h) (λ a h. ground arith) in
        ground (arith, found, kept)
  ]
]
