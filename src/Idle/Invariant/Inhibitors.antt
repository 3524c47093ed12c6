-- ===== src/Idle/Invariant/Inhibitors.antt =====
-- The table of inhibitors, and the number of the toggle's inhibitor.
use axctl_c.Prelude.{
  ℕ, ◌≤◌, ◌<◌, ◌≡◌, refl, ◌⊎◌, inl, inr, Bool, true, false, List, [], ◌∷◌, ◌++◌, none, some, arith,
  length, length-append, All, All-append, Option-cases, Bool-cases, leb, ltb, ◌==◌, same_flag,
}
use axctl_c.Table.{
  update_first, length-update_first, All-update_first, Numbered, Numbered-append,
  Numbered-update_first, find_first_above,
}
use axctl_c.Idle.State.{Inhibitor, Manager, Wayland, next_u32}
use axctl_c.Idle.Inhibitors.{
  is_inhibitor, find_inhibitor, fresh_inhibitor, refresh_inhibitor, ensure_legacy, set_enabled,
  inhibit_found, inhibit, inhibitor_create, inhibitor_set, retire_inhibitor, inhibitor_destroy,
}

-- A Wayland inhibitor stands on a surface and belongs to an inhibitor that is enabled. A destroyed
-- one has neither.
abbrev pub IsSound : Inhibitor → Type 0
IsSound inh =
    ((inh.deleted ≡ false) × (inh.inhibitor ≡ none))
    ⊎ ((inh.deleted ≡ false) × (inh.enabled ≡ true) × (s : ℕ) × (inh.surface ≡ some s))
    ⊎ ((inh.deleted ≡ true) × (inh.inhibitor ≡ none) × (inh.surface ≡ none))

-- The slots are numbered from 1 on. The last number is that of the last slot, unless the table is
-- full and the toggle has taken number 65, which has no slot.
pub record InhibitorsInv (inhibitors : List Inhibitor) (next legacy : ℕ) : Type 0 where
  pub numbered : Numbered (λ inh. inh.id) 0 inhibitors
  pub counted :
      (next ≡ length inhibitors) ⊎ ((length inhibitors ≡ 64) × (next ≡ 65) × (legacy ≡ 65))
  pub room : length inhibitors ≤ 64
  pub legacy_le : legacy ≤ next
  pub sound : All IsSound inhibitors

pub nil-InhibitorsInv : InhibitorsInv [] 0 0
nil-InhibitorsInv = record {
  numbered = tt;
  counted = inl refl;
  room = omega arith;
  legacy_le = omega arith;
  sound = tt;
}

pub refresh_inhibitor_keeps :
    (w : Wayland) (inh : Inhibitor)
    → ((refresh_inhibitor w inh).inh.id ≡ inh.id)
      × ((refresh_inhibitor w inh).inh.enabled ≡ inh.enabled)
      × ((refresh_inhibitor w inh).inh.deleted ≡ inh.deleted)
unfolding refresh_inhibitor
refresh_inhibitor_keeps w inh = ground arith

refresh_inhibitor-IsSound :
    (w : Wayland) (inh : Inhibitor)
    → inh.deleted ≡ false
    → (inh.inhibitor ≡ none) ⊎ ((s : ℕ) × (inh.surface ≡ some s))
    → IsSound (refresh_inhibitor w inh).inh
unfolding refresh_inhibitor
refresh_inhibitor-IsSound w inh d h = ground arith

push-InhibitorsInv :
    (xs : List Inhibitor) (next legacy legacy' : ℕ) (inh : Inhibitor)
    → length xs < 64
    → inh.id ≡ next_u32 next
    → legacy' ≤ next_u32 next
    → IsSound inh
    → InhibitorsInv xs next legacy
    → InhibitorsInv (xs ++ inh ∷ []) (next_u32 next) legacy'
push-InhibitorsInv xs next legacy legacy' inh l e le s v = record {
  numbered = Numbered-append (λ inh. inh.id) 0 xs inh v.numbered (omega (arith, v.counted));
  counted = inl (omega (arith, v.counted, length-append xs (inh ∷ [])));
  room = omega (arith, length-append xs (inh ∷ []));
  legacy_le = le;
  sound = All-append IsSound xs (inh ∷ []) v.sound (s, tt);
}

change-InhibitorsInv :
    (hit : Inhibitor → Bool) (f : Inhibitor → Inhibitor) (xs : List Inhibitor) (next legacy : ℕ)
    → ((inh : Inhibitor) → (f inh).id ≡ inh.id)
    → ((inh : Inhibitor) → hit inh ≡ true → IsSound inh → IsSound (f inh))
    → InhibitorsInv xs next legacy
    → InhibitorsInv (update_first hit f xs) next legacy
change-InhibitorsInv hit f xs next legacy k s v = record {
  numbered = Numbered-update_first (λ inh. inh.id) hit f 0 xs k v.numbered;
  counted = rw (length-update_first hit f xs) (v.counted);
  room = omega (arith, v.room, length-update_first hit f xs);
  legacy_le = v.legacy_le;
  sound = All-update_first IsSound hit f xs s v.sound;
}

set_enabled-IsSound :
    (w : Wayland) (id : ℕ) (on : Bool) (inh : Inhibitor)
    → is_inhibitor id inh ≡ true
    → IsSound inh
    → IsSound (refresh_inhibitor w (record inh { enabled = on })).inh
set_enabled-IsSound w id on inh h s =
    refresh_inhibitor-IsSound w (record inh { enabled = on }) (ground arith) (ground arith)

set_enabled-InhibitorsInv :
    (w : Wayland) (im : Manager) (id : ℕ) (on : Bool)
    → InhibitorsInv im.inhibitors im.next_inhibitor_id im.legacy_inhibitor_id
    → let im' = set_enabled w im id on in
      InhibitorsInv im'.inhibitors im'.next_inhibitor_id im'.legacy_inhibitor_id
unfolding set_enabled
set_enabled-InhibitorsInv w im id on v =
    change-InhibitorsInv (is_inhibitor id) _ im.inhibitors im.next_inhibitor_id
      im.legacy_inhibitor_id (λ inh. (refresh_inhibitor_keeps w (record inh { enabled = on })).0)
      (set_enabled-IsSound w id on) v

pub ensure_legacy-InhibitorsInv :
    (im : Manager)
    → InhibitorsInv im.inhibitors im.next_inhibitor_id im.legacy_inhibitor_id
    → let im' = ensure_legacy im in
      InhibitorsInv im'.inhibitors im'.next_inhibitor_id im'.legacy_inhibitor_id
unfolding ensure_legacy
ensure_legacy-InhibitorsInv im v = elim (Bool-cases (im.legacy_inhibitor_id == 0)) [
  | inr taken ↦ rw taken v
  | inl missing ↦ elim (Bool-cases (ltb (length im.inhibitors) 64)) [
    | inl free ↦
        let id = next_u32 im.next_inhibitor_id in
        rw (missing, free)
          (push-InhibitorsInv im.inhibitors im.next_inhibitor_id im.legacy_inhibitor_id id
            (fresh_inhibitor id false) (ground arith) refl (omega arith) (inl (refl, refl)) v)
    | inr full ↦
        let e : im.legacy_inhibitor_id ≡ 0 = ground arith in
        let size : length im.inhibitors ≡ 64 = ground (arith, v.room) in
        rw (missing, full)
          (record {
            numbered = v.numbered;
            counted = inr (size, omega (arith, v.counted), omega (arith, v.counted));
            room = v.room;
            legacy_le = omega arith;
            sound = v.sound;
          })
  ]
]

inhibit_found-InhibitorsInv :
    (w : Wayland) (im : Manager) (on : Bool)
    → InhibitorsInv im.inhibitors im.next_inhibitor_id im.legacy_inhibitor_id
    → let im' = (inhibit_found w im on).state in
      InhibitorsInv im'.inhibitors im'.next_inhibitor_id im'.legacy_inhibitor_id
unfolding inhibit_found
inhibit_found-InhibitorsInv w im on v =
    elim (Option-cases (find_inhibitor im im.legacy_inhibitor_id)) [
      | inl missing ↦ rw (missing, inhibit_found) v
      | inr (inh, found) ↦ elim (Bool-cases (same_flag inh.enabled on)) [
        | inl same ↦ rw (found, inhibit_found, same) v
        | inr other ↦
            rw (found, inhibit_found, other)
              (set_enabled-InhibitorsInv w im im.legacy_inhibitor_id on v)
      ]
    ]

pub inhibit-InhibitorsInv :
    (w : Wayland) (im : Manager) (on : Bool)
    → InhibitorsInv im.inhibitors im.next_inhibitor_id im.legacy_inhibitor_id
    → let im' = (inhibit w im on).state in
      InhibitorsInv im'.inhibitors im'.next_inhibitor_id im'.legacy_inhibitor_id
unfolding inhibit
inhibit-InhibitorsInv w im on v =
    inhibit_found-InhibitorsInv w (ensure_legacy im) on (ensure_legacy-InhibitorsInv im v)

pub inhibitor_create-InhibitorsInv :
    (w : Wayland) (im : Manager) (e : Bool)
    → InhibitorsInv im.inhibitors im.next_inhibitor_id im.legacy_inhibitor_id
    → let im' = (inhibitor_create w im e).state in
      InhibitorsInv im'.inhibitors im'.next_inhibitor_id im'.legacy_inhibitor_id
unfolding inhibitor_create
inhibitor_create-InhibitorsInv w im e v = elim (Bool-cases (leb 64 (length im.inhibitors))) [
  | inl full ↦ rw full v
  | inr free ↦
      let id = next_u32 im.next_inhibitor_id in
      let fresh = fresh_inhibitor id e in
      let size : length im.inhibitors < 64 = ground arith in
      rw free (
        push-InhibitorsInv im.inhibitors im.next_inhibitor_id im.legacy_inhibitor_id
          im.legacy_inhibitor_id (refresh_inhibitor w fresh).inh size
          (refresh_inhibitor_keeps w fresh).0 (omega (arith, v.counted, v.legacy_le))
          (refresh_inhibitor-IsSound w fresh refl (inl refl)) v)
]

pub inhibitor_set-InhibitorsInv :
    (w : Wayland) (im : Manager) (id : ℕ) (e : Bool)
    → InhibitorsInv im.inhibitors im.next_inhibitor_id im.legacy_inhibitor_id
    → let im' = (inhibitor_set w im id e).state in
      InhibitorsInv im'.inhibitors im'.next_inhibitor_id im'.legacy_inhibitor_id
unfolding inhibitor_set
inhibitor_set-InhibitorsInv w im id e v = elim (Option-cases (find_inhibitor im id)) [
  | inl missing ↦ rw (missing, inhibitor_set) v
  | inr (inh, found) ↦ rw (found, inhibitor_set) (set_enabled-InhibitorsInv w im id e v)
]

-- A number that is found belongs to a slot.
pub found-le :
    (im : Manager) (id : ℕ) {inh : Inhibitor}
    → Numbered (λ inh. inh.id) 0 im.inhibitors
    → find_inhibitor im id ≡ some inh
    → id ≤ length im.inhibitors
unfolding find_inhibitor
found-le im id v e = ground (
  arith,
  find_first_above (λ inh. inh.id) (is_inhibitor id) id 0 im.inhibitors (λ a h. ground arith),
)

pub inhibitor_destroy-InhibitorsInv :
    (im : Manager) (id : ℕ)
    → InhibitorsInv im.inhibitors im.next_inhibitor_id im.legacy_inhibitor_id
    → let im' = (inhibitor_destroy im id).state in
      InhibitorsInv im'.inhibitors im'.next_inhibitor_id im'.legacy_inhibitor_id
unfolding inhibitor_destroy
inhibitor_destroy-InhibitorsInv im id v = elim (Option-cases (find_inhibitor im id)) [
  | inl missing ↦ rw (missing, inhibitor_destroy) v
  | inr (inh, found) ↦
      let kept =
        change-InhibitorsInv (is_inhibitor id) retire_inhibitor im.inhibitors im.next_inhibitor_id
          im.legacy_inhibitor_id (λ a. refl) (λ a h s. inr (inr (refl, refl, refl))) v in
      let bound : id ≤ length im.inhibitors = found-le im id v.numbered found in
      rw (found, inhibitor_destroy)
        (record {
          numbered = kept.numbered;
          counted = ground (
            arith,
            kept.counted,
            v.counted,
            length-update_first (is_inhibitor id) retire_inhibitor im.inhibitors,
          );
          room = kept.room;
          legacy_le = ground (arith, v.legacy_le);
          sound = kept.sound;
        })
]
