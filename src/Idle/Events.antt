-- ===== src/Idle/Events.antt =====
-- The callbacks that the notifications of one monitor cause.
use axctl_c.Prelude.{
  ℕ, zero, suc, ◌≡◌, refl, Bool, true, List, [], ◌∷◌, ◌++◌, some, arith, if◌then◌else◌, set,
  get_elem?, same_flag, same_flag_iff, map,
}
use axctl_c.Idle.State.{Monitor, Manager}
use axctl_c.Idle.Monitors.{mark_idle, Change, idle_changes, set_monitor_idle}

-- The notifications of the slot at `i`, in order: the manager afterwards, and the callbacks made.
pub notify_all : Manager → ℕ → List Bool → Manager × List Change
notify_all im i [] = (im, [])
notify_all im i (idle ∷ rest) =
    let (im', changes) = set_monitor_idle im i idle in
    let (im'', later) = notify_all im' i rest in (im'', changes ++ later)

-- The reports that differ from the one before them.
pub news : Bool → List Bool → List Bool
news last [] = []
news last (idle ∷ rest) = if same_flag last idle then news idle rest else idle ∷ news idle rest

-- The last report.
pub last_report : Bool → List Bool → Bool
last_report last [] = last
last_report last (idle ∷ rest) = last_report idle rest

pub change_for : ℕ → Bool → Change
change_for id idle = record { id = id; is_idle = idle }

get_elem?-set :
    (ms : List Monitor) (i : ℕ) (mon mon' : Monitor)
    → get_elem? ms i ≡ some mon
    → get_elem? (set ms i mon') i ≡ some mon'
get_elem?-set [] i mon mon' e = cc
get_elem?-set (m ∷ ms) zero mon mon' e = refl
get_elem?-set (m ∷ ms) (suc i) mon mon' e = get_elem?-set ms i mon mon' e

-- What one report does to a monitor in use.
mark_idle_fields :
    (idle : Bool) (mon : Monitor)
    → mon.manager ≡ true
    → ((mark_idle idle mon).is_idle ≡ idle)
      × ((mark_idle idle mon).id ≡ mon.id)
      × ((mark_idle idle mon).manager ≡ true)
unfolding mark_idle
mark_idle_fields idle mon h = ground (arith, same_flag_iff mon.is_idle idle)

idle_changes_lem :
    (idle : Bool) (mon : Monitor)
    → mon.manager ≡ true
    → idle_changes true idle mon
      ≡ (if same_flag mon.is_idle idle then [] else change_for mon.id idle ∷ [])
unfolding idle_changes change_for
idle_changes_lem idle mon h = ground arith

module _ (i : ℕ) where
  set_monitor_idle_found :
      (im : Manager) (idle : Bool) (mon : Monitor)
      → get_elem? im.monitors i ≡ some mon
      → set_monitor_idle im i idle ≡ (
        record im { monitors = set im.monitors i (mark_idle idle mon) },
        idle_changes im.on_changed idle mon,
      )
  unfolding set_monitor_idle
  set_monitor_idle_found im idle mon found = rw (found, set_monitor_idle)

  notify_all_changes :
      (im : Manager) (reports : List Bool) (mon : Monitor)
      → get_elem? im.monitors i ≡ some mon
      → mon.manager ≡ true
      → im.on_changed ≡ true
      → (notify_all im i reports).1 ≡ map (change_for mon.id) (news mon.is_idle reports)
  unfolding notify_all news
  notify_all_changes im [] mon found live cb = refl
  notify_all_changes im (idle ∷ rest) mon found live cb =
      let mon' = mark_idle idle mon in
      let fields = mark_idle_fields idle mon live in
      let later =
        notify_all_changes (record im { monitors = set im.monitors i mon' }) rest mon'
          (get_elem?-set im.monitors i mon mon' found) fields.2 cb in
      rw (set_monitor_idle_found im idle mon found)
        (ground (arith, later, fields, cb, idle_changes_lem idle mon live))

  notify_all_state :
      (im : Manager) (reports : List Bool) (mon : Monitor)
      → get_elem? im.monitors i ≡ some mon
      → mon.manager ≡ true
      → (mon' : Monitor) × (get_elem? (notify_all im i reports).0.monitors i ≡ some mon')
        × (mon'.is_idle ≡ last_report mon.is_idle reports)
  unfolding notify_all last_report
  notify_all_state im [] mon found live = (mon, found, refl)
  notify_all_state im (idle ∷ rest) mon found live =
      let mon' = mark_idle idle mon in
      let fields = mark_idle_fields idle mon live in
      let (m, at_end, flag) =
        notify_all_state (record im { monitors = set im.monitors i mon' }) rest mon'
          (get_elem?-set im.monitors i mon mon' found) fields.2 in
      rw (set_monitor_idle_found im idle mon found) (m, at_end, ground (arith, flag, fields))

  -- However often the notification of a monitor in use reports idle or resumed, with a callback set,
  -- the callback is called for exactly the reports that differ from the state before them, in their
  -- order, with the monitor's number; and the monitor then has the last reported state.
  pub notify_all-news :
      (im : Manager) (reports : List Bool) (mon : Monitor)
      → get_elem? im.monitors i ≡ some mon
      → mon.manager ≡ true
      → im.on_changed ≡ true
      → ((notify_all im i reports).1 ≡ map (change_for mon.id) (news mon.is_idle reports))
        × ((mon' : Monitor) × (get_elem? (notify_all im i reports).0.monitors i ≡ some mon')
            × (mon'.is_idle ≡ last_report mon.is_idle reports))
  notify_all-news im reports mon found live cb =
      (notify_all_changes im reports mon found live cb, notify_all_state im reports mon found live)
