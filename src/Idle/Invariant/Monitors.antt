-- ===== src/Idle/Invariant/Monitors.antt =====
-- The table of monitors.
use axctl_c.Prelude.{
  ℕ, zero, suc, ◌≤◌, ◌<◌, leb, ◌≡◌, refl, ◌⊎◌, inl, inr, Bool, true, false, List, [], ◌∷◌, ◌++◌,
  none, some, arith, length, length-append, All, All-append, set, get_elem?, Option-cases,
  length-set, Bool-cases,
}
use axctl_c.Table.{
  update_first, length-update_first, All-update_first, Numbered, Numbered-append,
  Numbered-update_first,
}
use axctl_c.Idle.State.{Monitor, Manager, Wayland, next_u32}
use axctl_c.Idle.Monitors.{
  is_monitor, find_monitor, fresh_monitor, set_params, retire_monitor, refresh_monitor, mark_idle,
  monitor_create, monitor_update, monitor_destroy, set_monitor_idle,
}

-- A monitor in use can reach the manager from its callback. A destroyed one cannot, and has no
-- notification.
abbrev pub IsSettled : Monitor → Type 0
IsSettled mon =
    ((mon.deleted ≡ false) × (mon.manager ≡ true))
    ⊎ ((mon.deleted ≡ true) × (mon.manager ≡ false) × (mon.notification ≡ none))

-- The slots are numbered from 1 on, in order, and `next_monitor_id` is the last number.
pub record MonitorsInv (monitors : List Monitor) (next_monitor_id : ℕ) : Type 0 where
  pub numbered : Numbered (λ mon. mon.id) 0 monitors
  pub next_is : next_monitor_id ≡ length monitors
  pub room : length monitors ≤ 64
  pub settled : All IsSettled monitors

-- `refresh_monitor` leaves all but the notification and the back pointer.
pub refresh_monitor_keeps :
    (w : Wayland) (mon : Monitor)
    → ((refresh_monitor w mon).id ≡ mon.id)
      × ((refresh_monitor w mon).timeout_ms ≡ mon.timeout_ms)
      × ((refresh_monitor w mon).respect_inhibitors ≡ mon.respect_inhibitors)
      × ((refresh_monitor w mon).enabled ≡ mon.enabled)
      × ((refresh_monitor w mon).is_idle ≡ mon.is_idle)
      × ((refresh_monitor w mon).deleted ≡ mon.deleted)
unfolding refresh_monitor
refresh_monitor_keeps w mon = ground arith

refresh_monitor-IsSettled :
    (w : Wayland) (mon : Monitor)
    → mon.deleted ≡ false
    → mon.manager ≡ true
    → IsSettled (refresh_monitor w mon)
unfolding refresh_monitor
refresh_monitor-IsSettled w mon d m = ground arith

pub nil-MonitorsInv : MonitorsInv [] 0
nil-MonitorsInv = record { numbered = tt; next_is = refl; room = omega arith; settled = tt }

push-MonitorsInv :
    (ms : List Monitor) (next : ℕ) (mon : Monitor)
    → length ms < 64
    → mon.id ≡ next_u32 next
    → IsSettled mon
    → MonitorsInv ms next
    → MonitorsInv (ms ++ mon ∷ []) (next_u32 next)
push-MonitorsInv ms next mon l e s v = record {
  numbered = Numbered-append (λ mon. mon.id) 0 ms mon v.numbered (omega (arith, v.next_is));
  next_is = omega (arith, v.next_is, length-append ms (mon ∷ []));
  room = omega (arith, length-append ms (mon ∷ []));
  settled = All-append IsSettled ms (mon ∷ []) v.settled (s, tt);
}

change-MonitorsInv :
    (hit : Monitor → Bool) (f : Monitor → Monitor) (ms : List Monitor) (next : ℕ)
    → ((mon : Monitor) → (f mon).id ≡ mon.id)
    → ((mon : Monitor) → hit mon ≡ true → IsSettled mon → IsSettled (f mon))
    → MonitorsInv ms next
    → MonitorsInv (update_first hit f ms) next
change-MonitorsInv hit f ms next k s v = record {
  numbered = Numbered-update_first (λ mon. mon.id) hit f 0 ms k v.numbered;
  next_is = omega (arith, v.next_is, length-update_first hit f ms);
  room = omega (arith, v.room, length-update_first hit f ms);
  settled = All-update_first IsSettled hit f ms s v.settled;
}

pub monitor_create-MonitorsInv :
    (w : Wayland) (im : Manager) (t : ℕ) (r e : Bool)
    → MonitorsInv im.monitors im.next_monitor_id
    → let im' = (monitor_create w im t r e).state in MonitorsInv im'.monitors im'.next_monitor_id
unfolding monitor_create
monitor_create-MonitorsInv w im t r e v = elim (Bool-cases (leb 64 (length im.monitors))) [
  | inl full ↦ rw full v
  | inr free ↦
      let mon = fresh_monitor (next_u32 im.next_monitor_id) t r e in
      rw free (
        push-MonitorsInv im.monitors im.next_monitor_id (refresh_monitor w mon) (ground arith)
          (refresh_monitor_keeps w mon).0 (refresh_monitor-IsSettled w mon refl refl) v)
]

live_of_hit :
    (id : ℕ) (mon : Monitor)
    → is_monitor id mon ≡ true
    → IsSettled mon
    → (mon.deleted ≡ false) × (mon.manager ≡ true)
live_of_hit id mon h s = ground arith

pub monitor_update-MonitorsInv :
    (w : Wayland) (im : Manager) (id t : ℕ) (r e : Bool)
    → MonitorsInv im.monitors im.next_monitor_id
    → let im' = (monitor_update w im id t r e).state in MonitorsInv im'.monitors im'.next_monitor_id
unfolding monitor_update
monitor_update-MonitorsInv w im id t r e v = elim (Option-cases (find_monitor im id)) [
  | inl missing ↦ rw (missing, monitor_update) v
  | inr (mon, found) ↦
      rw (found, monitor_update)
        (change-MonitorsInv (is_monitor id) _ im.monitors im.next_monitor_id
          (λ m. (refresh_monitor_keeps w (set_params t r e m)).0)
          (λ m h s.
            let live = live_of_hit id m h s in
            refresh_monitor-IsSettled w (set_params t r e m) live.0 live.1)
          v)
]

pub monitor_destroy-MonitorsInv :
    (im : Manager) (id : ℕ)
    → MonitorsInv im.monitors im.next_monitor_id
    → let im' = (monitor_destroy im id).state in MonitorsInv im'.monitors im'.next_monitor_id
unfolding monitor_destroy
monitor_destroy-MonitorsInv im id v = elim (Option-cases (find_monitor im id)) [
  | inl missing ↦ rw (missing, monitor_destroy) v
  | inr (mon, found) ↦
      rw (found, monitor_destroy)
        (change-MonitorsInv (is_monitor id) retire_monitor im.monitors im.next_monitor_id
          (λ m. refl) (λ m h s. inr (refl, refl, refl)) v)
]

-- A slot written back with its number and settled keeps the table so.
set_kept :
    (ms : List Monitor) (i : ℕ) (mon mon' : Monitor) (n : ℕ)
    → get_elem? ms i ≡ some mon
    → mon'.id ≡ mon.id
    → (IsSettled mon → IsSettled mon')
    → Numbered (λ mon. mon.id) n ms
    → All IsSettled ms
    → Numbered (λ mon. mon.id) n (set ms i mon') × All IsSettled (set ms i mon')
set_kept [] i mon mon' n g e s v a = cc
set_kept (m ∷ ms) zero mon mon' n g e s v a =
    let same : m ≡ mon = cc in ((cc, v.1), (s (rw same at (a.0)), a.1))
set_kept (m ∷ ms) (suc i) mon mon' n g e s v a =
    let rest = set_kept ms i mon mon' (suc n) g e s v.1 a.1 in ((v.0, rest.0), (a.0, rest.1))

mark_idle-IsSettled : (idle : Bool) (mon : Monitor) → IsSettled mon → IsSettled (mark_idle idle mon)
unfolding mark_idle
mark_idle-IsSettled idle mon s = ground arith

mark_idle-id : (idle : Bool) (mon : Monitor) → (mark_idle idle mon).id ≡ mon.id
unfolding mark_idle
mark_idle-id idle mon = ground arith

pub set_monitor_idle-MonitorsInv :
    (im : Manager) (i : ℕ) (idle : Bool)
    → MonitorsInv im.monitors im.next_monitor_id
    → let im' = (set_monitor_idle im i idle).0 in MonitorsInv im'.monitors im'.next_monitor_id
unfolding set_monitor_idle
set_monitor_idle-MonitorsInv im i idle v = elim (Option-cases (get_elem? im.monitors i)) [
  | inl missing ↦ rw (missing, set_monitor_idle) v
  | inr (mon, found) ↦
      let kept =
        set_kept im.monitors i mon (mark_idle idle mon) 0 found (mark_idle-id idle mon)
          (mark_idle-IsSettled idle mon) v.numbered v.settled in
      let size = length-set im.monitors i (mark_idle idle mon) in
      rw (found, set_monitor_idle)
        (record {
          numbered = kept.0;
          next_is = omega (arith, v.next_is, size);
          room = omega (arith, v.room, size);
          settled = kept.1;
        })
]
