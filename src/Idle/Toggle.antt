-- ===== src/Idle/Toggle.antt =====
-- The simple toggle, `axctl_idle_inhibit` and `axctl_idle_is_inhibited`.
use native.Mathlib.Decide.{dec_lt, ℕ_discrete}
use axctl_c.Prelude.{
  ℕ, ◌<◌, ◌≡◌, ◌≢◌, refl, ◌⊎◌, inl, inr, Bool, true, false, List, [], ◌∷◌, none, some, arith,
  length, Option-cases, Bool-cases, same_flag, same_flag_iff,
}
use axctl_c.Table.{
  Numbered, find_first-hit, find_first-append, find_first-update_first_self, find_first_above,
}
use axctl_c.Idle.State.{Inhibitor, Manager, Wayland, next_u32, set_callback}
use axctl_c.Idle.Inhibitors.{
  is_inhibitor, find_inhibitor, fresh_inhibitor, refresh_inhibitor, ensure_legacy, set_enabled,
  inhibit_found, inhibit, is_inhibited, inhibitor_create, inhibitor_set, inhibitor_destroy,
}
use axctl_c.Idle.Calls.{
  Call, monitor_creates, monitor_updates, monitor_destroys, notifies, inhibits, inhibitor_creates,
  inhibitor_sets, inhibitor_destroys, inhibits_system, sets_callback, pid_of, step, run,
}
use axctl_c.Idle.Invariant.{Inv, step-Inv, run-Inv, monitor_step-KeepsRest, system_step}
use axctl_c.Idle.Invariant.Inhibitors.{InhibitorsInv, found-le, refresh_inhibitor_keeps}

abbrev ToggleInv : Manager → Type 0
ToggleInv im = InhibitorsInv im.inhibitors im.next_inhibitor_id im.legacy_inhibitor_id

-- No slot has a number past the end of the table.
past_end :
    (im : Manager) (id : ℕ)
    → Numbered (λ inh. inh.id) 0 im.inhibitors
    → length im.inhibitors < id
    → find_inhibitor im id ≡ none
unfolding find_inhibitor
past_end im id v h =
    find_first_above (λ inh. inh.id) (is_inhibitor id) id 0 im.inhibitors (λ a h. ground arith)
      (omega arith) v

-- The toggle has a number, and a slot for it unless the table is full.
ensure_legacy-found :
    (im : Manager)
    → ToggleInv im
    → length im.inhibitors < 64
    → im.legacy_inhibitor_id ≡ 0
    → find_inhibitor (ensure_legacy im) (ensure_legacy im).legacy_inhibitor_id
      ≡ some (fresh_inhibitor (ensure_legacy im).legacy_inhibitor_id false)
unfolding ensure_legacy find_inhibitor
ensure_legacy-found im v room e =
    let id = next_u32 im.next_inhibitor_id in
    let unused = past_end im id v.numbered (omega (arith, v.counted)) in
    ground
      (arith, unused, find_first-append (is_inhibitor id) im.inhibitors (fresh_inhibitor id false))

set_enabled-found :
    (w : Wayland) (im : Manager) (id : ℕ) (on : Bool) {inh : Inhibitor}
    → find_inhibitor im id ≡ some inh
    → find_inhibitor (set_enabled w im id on) id
      ≡ some (refresh_inhibitor w (record inh { enabled = on })).inh
unfolding set_enabled find_inhibitor
set_enabled-found w im id on {inh} found =
    find_first-update_first_self (is_inhibitor id)
      (λ inh. (refresh_inhibitor w (record inh { enabled = on })).inh) im.inhibitors found
      (ground (
        arith,
        refresh_inhibitor_keeps w (record inh { enabled = on }),
        find_first-hit (is_inhibitor id) im.inhibitors found,
      ))

set_enabled-legacy :
    (w : Wayland) (im : Manager) (id : ℕ) (on : Bool)
    → (set_enabled w im id on).legacy_inhibitor_id ≡ im.legacy_inhibitor_id
unfolding set_enabled
set_enabled-legacy w im id on = refl

-- What the second part of the toggle does when the number has a slot, and when it has none.
inhibit_found_cases :
    (w : Wayland) (im : Manager) (on : Bool)
    → im.legacy_inhibitor_id ≢ 0
    → (((inhibit_found w im on).result ≡ some tt)
        × (is_inhibited (inhibit_found w im on).state ≡ on))
      ⊎ (((inhibit_found w im on).result ≡ none)
          × ((inhibit_found w im on).state ≡ im)
          × (find_inhibitor im im.legacy_inhibitor_id ≡ none))
unfolding inhibit_found is_inhibited
inhibit_found_cases w im on ne = elim (Option-cases (find_inhibitor im im.legacy_inhibitor_id)) [
  | inl missing ↦ inr (ground (arith, missing), ground (arith, missing), missing)
  | inr (inh, found) ↦ elim (Bool-cases (same_flag inh.enabled on)) [
    | inl same ↦
        let e = (same_flag_iff inh.enabled on).0 same in
        inl (ground (arith, found, same), ground (arith, found, same, e))
    | inr other ↦
        let after = set_enabled-found w im im.legacy_inhibitor_id on found in
        let flag = (refresh_inhibitor_keeps w (record inh { enabled = on })).1 in
        let number = set_enabled-legacy w im im.legacy_inhibitor_id on in
        inl (ground (arith, found, other), ground (arith, found, other, after, flag, number))
  ]
]

-- Number 65 has no slot: the toggle fails and changes nothing.
lost_inhibit :
    (w : Wayland) (im : Manager) (on : Bool)
    → ToggleInv im
    → im.legacy_inhibitor_id ≡ 65
    → ((inhibit w im on).result ≡ none) × ((inhibit w im on).state ≡ im)
unfolding inhibit inhibit_found ensure_legacy
lost_inhibit w im on v h =
    let missing = past_end im im.legacy_inhibitor_id v.numbered (omega (arith, v.room)) in
    (ground (arith, missing), ground (arith, missing))

ensure_legacy-ne-zero : (im : Manager) → ToggleInv im → (ensure_legacy im).legacy_inhibitor_id ≢ 0
unfolding ensure_legacy
ensure_legacy-ne-zero im v = ground (arith, v.counted, v.room)

-- In a manager that satisfies the invariant, a toggle that succeeds leaves the toggle reading what
-- was asked for, and one that fails leaves it reading not inhibited; while the table has a free
-- slot and no number was taken yet, it succeeds.
pub inhibit-is_inhibited :
    (w : Wayland) (im : Manager) (on : Bool)
    → Inv im
    → ((((inhibit w im on).result ≡ some tt) × (is_inhibited (inhibit w im on).state ≡ on))
        ⊎ (((inhibit w im on).result ≡ none) × (is_inhibited (inhibit w im on).state ≡ false)))
      × ((length im.inhibitors ≡ 64)
          ⊎ (im.legacy_inhibitor_id ≢ 0)
          ⊎ ((inhibit w im on).result ≡ some tt))
unfolding inhibit
inhibit-is_inhibited w im on v =
    let ne = ensure_legacy-ne-zero im v.inhibitors_inv in
    let cases = inhibit_found_cases w (ensure_legacy im) on ne in
    (
      elim cases [
        | inl good ↦ inl good
        | inr bad ↦ inr (bad.0, unfold is_inhibited in ground (arith, bad.1, bad.2))
      ],
      elim (dec_lt (length im.inhibitors) 64) [
        | no full ↦ inl (omega (arith, v.inhibitors_inv.room))
        | yes room ↦ elim (ℕ_discrete im.legacy_inhibitor_id 0) [
          | no taken ↦ inr (inl taken)
          | yes zero_id ↦
              let found = ensure_legacy-found im v.inhibitors_inv room zero_id in
              inr (inr (ground (arith, cases, found)))
        ]
      ],
    )

lost_step :
    (im : Manager) (c : Wayland × Call)
    → Inv im
    → im.legacy_inhibitor_id ≡ 65
    → (step im c).legacy_inhibitor_id ≡ 65
unfolding step set_callback inhibitor_create inhibitor_set inhibitor_destroy
lost_step im (w, monitor_creates t r e) v h = ground (arith, monitor_step-KeepsRest w im 0 t r e)
lost_step im (w, monitor_updates id t r e) v h =
    ground (arith, monitor_step-KeepsRest w im id t r e)
lost_step im (w, monitor_destroys id) v h =
    ground (arith, monitor_step-KeepsRest w im id 0 true true)
lost_step im (w, notifies i idle) v h = ground (arith, monitor_step-KeepsRest w im i 0 idle idle)
lost_step im (w, inhibits on) v h = ground (arith, lost_inhibit w im on v.inhibitors_inv h)
lost_step im (w, inhibitor_creates e) v h = ground arith
lost_step im (w, inhibitor_sets id e) v h = elim (Option-cases (find_inhibitor im id)) [
  | inl missing ↦ ground (arith, missing)
  | inr (inh, found) ↦ ground (arith, found, set_enabled-legacy w im id e)
]
lost_step im (w, inhibitor_destroys id) v h = elim (Option-cases (find_inhibitor im id)) [
  | inl missing ↦ ground (arith, missing)
  | inr (inh, found) ↦
      let bound = found-le im id v.inhibitors_inv.numbered found in
      ground (arith, found, bound, v.inhibitors_inv.room)
]
lost_step im (w, inhibits_system fork on) v h = ground (arith, system_step (pid_of fork) im on)
lost_step im (w, sets_callback cb) v h = h

lost_run :
    (im : Manager) (cs : List (Wayland × Call))
    → Inv im
    → im.legacy_inhibitor_id ≡ 65
    → (run im cs).legacy_inhibitor_id ≡ 65
unfolding run
lost_run im [] v h = h
lost_run im (c ∷ cs) v h = lost_run (step im c) cs (step-Inv im c v) (lost_step im c v h)

lost_first :
    (w : Wayland) (im : Manager) (on : Bool)
    → ToggleInv im
    → length im.inhibitors ≡ 64
    → im.legacy_inhibitor_id ≡ 0
    → ((inhibit w im on).result ≡ none) × ((inhibit w im on).state.legacy_inhibitor_id ≡ 65)
unfolding inhibit inhibit_found ensure_legacy
lost_first w im on v full e =
    let id = next_u32 im.next_inhibitor_id in
    let taken : id ≡ 65 = omega (arith, v.counted) in
    let missing = past_end im id v.numbered (omega arith) in
    (ground (arith, missing, taken), ground (arith, missing, taken))

-- In a manager that satisfies the invariant, when the toggle is used for the first time while the
-- table of inhibitors is full, it fails then and for ever, whatever is destroyed or done later.
pub inhibit_lost :
    (w w' : Wayland) (im : Manager) (on on' : Bool) (cs : List (Wayland × Call))
    → Inv im
    → length im.inhibitors ≡ 64
    → im.legacy_inhibitor_id ≡ 0
    → ((inhibit w im on).result ≡ none)
      × ((inhibit w' (run (inhibit w im on).state cs) on').result ≡ none)
inhibit_lost w w' im on on' cs v full e =
    let first = lost_first w im on v.inhibitors_inv full e in
    let inv' = step-Inv im (w, inhibits on) v in
    (
      first.0,
      unfold step in
          (lost_inhibit w' (run (inhibit w im on).state cs) on'
            (run-Inv (inhibit w im on).state cs inv').inhibitors_inv
            (lost_run (inhibit w im on).state cs inv' first.1)).0,
    )
