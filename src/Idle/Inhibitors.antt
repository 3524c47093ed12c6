-- ===== src/Idle/Inhibitors.antt =====
-- src/server/idle.c: the idle inhibitors, and the one behind the simple toggle.
use axctl_c.Prelude.{
  ℕ, Bool, true, false, not, ◌&&◌, ◌||◌, List, [], ◌∷◌, ◌++◌, Option, none, some, ◌==◌, ltb, leb,
  if◌then◌else◌, length, same_flag,
}
use axctl_c.Table.{find_first, update_first}
use axctl_c.Idle.State.{
  Inhibitor, Manager, Wayland, Request, make_surface, destroy_surface, make_inhibitor,
  destroy_inhibitor, flush, Outcome, fail, max_inhibitors, next_u32,
}

-- The test of `find_inhibitor`.
abbrev pub is_inhibitor : ℕ → Inhibitor → Bool
is_inhibitor id inh = inh.id == id && not inh.deleted

unfoldable pub find_inhibitor : Manager → ℕ → Option Inhibitor
find_inhibitor im id = find_first (is_inhibitor id) im.inhibitors

-- `axctl_idle_inhibitor_state_t`
pub record InhibitorState : Type 0 where
  pub id : ℕ
  pub enabled : Bool

abbrev pub state_of : Inhibitor → InhibitorState
state_of inh = record { id = inh.id; enabled = inh.enabled }

-- An inhibitor with the requests that brought it about.
pub record Refreshed : Type 0 where
  pub inh : Inhibitor
  pub requests : List Request

-- With the surface at hand: `zwp_idle_inhibit_manager_v1_create_inhibitor`.
attach : Wayland → Inhibitor → ℕ → List Request → Refreshed
attach w inh surface made = record {
  inh = record inh { surface = some surface; inhibitor = w.create_inhibitor surface };
  requests = made ++ elim (w.create_inhibitor surface) [
    | none ↦ flush ∷ []
    | some p ↦ make_inhibitor p ∷ flush ∷ []
  ];
}

-- The surface is made unless there is one.
with_surface : Wayland → Inhibitor → Refreshed
unfolding attach
with_surface w inh = elim inh.surface [
  | some surface ↦ attach w inh surface []
  | none ↦ elim w.create_surface [
    | none ↦ record { inh = inh; requests = [] }
    | some surface ↦ attach w inh surface (make_surface surface ∷ [])
  ]
]

drop_surface : Inhibitor → List Request
drop_surface inh = elim inh.surface [ none ↦ [] | some s ↦ destroy_surface s ∷ [] ]

-- `refresh_inhibitor`
unfoldable pub refresh_inhibitor : Wayland → Inhibitor → Refreshed
unfolding with_surface drop_surface
refresh_inhibitor w inh = elim inh.inhibitor [
  | none ↦
      if inh.enabled
      then (if not w.inhibit_manager || not w.compositor
          then record { inh = inh; requests = [] }
          else with_surface w inh)
      else record { inh = inh; requests = [] }
  | some p ↦
      if not inh.enabled
      then record {
        inh = record inh { inhibitor = none; surface = none };
        requests = destroy_inhibitor p ∷ (drop_surface inh ++ flush ∷ []);
      }
      else record { inh = inh; requests = [] }
]

abbrev pub fresh_inhibitor : ℕ → Bool → Inhibitor
fresh_inhibitor id enabled = record {
  id = id;
  enabled = enabled;
  deleted = false;
  surface = none;
  inhibitor = none;
}

-- The first part of `axctl_idle_inhibit`: the number of the toggle's inhibitor is taken, also when
-- the table has no slot for it.
unfoldable pub ensure_legacy : Manager → Manager
ensure_legacy im =
    let id = next_u32 im.next_inhibitor_id in
    if im.legacy_inhibitor_id == 0
    then record im {
      next_inhibitor_id = id;
      legacy_inhibitor_id = id;
      inhibitors =
          if ltb (length im.inhibitors) max_inhibitors
          then im.inhibitors ++ fresh_inhibitor id false ∷ []
          else im.inhibitors;
    }
    else im

-- `inh->enabled = on; refresh_inhibitor(im, inh)` on the slot with this number.
unfoldable pub set_enabled : Wayland → Manager → ℕ → Bool → Manager
set_enabled w im id on = record im {
  inhibitors =
      update_first (is_inhibitor id)
        (λ inh. (refresh_inhibitor w (record inh { enabled = on })).inh) im.inhibitors;
}

-- The second part, on the state that the first part leaves.
unfoldable pub inhibit_found : Wayland → Manager → Bool → Outcome (Unit {0})
unfolding find_inhibitor same_flag
inhibit_found w im on = elim (find_inhibitor im im.legacy_inhibitor_id) [
  | none ↦ fail im
  | some inh ↦
      if same_flag inh.enabled on
      then record { state = im; requests = []; result = some tt }
      else record {
        state = set_enabled w im im.legacy_inhibitor_id on;
        requests = (refresh_inhibitor w (record inh { enabled = on })).requests;
        result = some tt;
      }
]

unfoldable pub inhibit : Wayland → Manager → Bool → Outcome (Unit {0})
inhibit w im on = inhibit_found w (ensure_legacy im) on

unfoldable pub is_inhibited : Manager → Bool
unfolding find_inhibitor
is_inhibited im =
    if im.legacy_inhibitor_id == 0
    then false
    else elim (find_inhibitor im im.legacy_inhibitor_id) [ none ↦ false | some inh ↦ inh.enabled ]

unfoldable pub inhibitor_create : Wayland → Manager → Bool → Outcome InhibitorState
inhibitor_create w im enabled =
    if leb max_inhibitors (length im.inhibitors)
    then fail im
    else let id = next_u32 im.next_inhibitor_id in
      let fresh = refresh_inhibitor w (fresh_inhibitor id enabled) in
      record {
        state = record im { inhibitors = im.inhibitors ++ fresh.inh ∷ []; next_inhibitor_id = id };
        requests = fresh.requests;
        result = some (state_of fresh.inh);
      }

unfoldable pub inhibitor_set : Wayland → Manager → ℕ → Bool → Outcome InhibitorState
unfolding find_inhibitor
inhibitor_set w im id enabled = elim (find_inhibitor im id) [
  | none ↦ fail im
  | some inh ↦
      let changed = refresh_inhibitor w (record inh { enabled = enabled }) in
      record {
        state = set_enabled w im id enabled;
        requests = changed.requests;
        result = some (state_of changed.inh);
      }
]

unfoldable pub inhibitor_get : Manager → ℕ → Option InhibitorState
unfolding find_inhibitor
inhibitor_get im id = elim (find_inhibitor im id) [ none ↦ none | some inh ↦ some (state_of inh) ]

abbrev pub retire_inhibitor : Inhibitor → Inhibitor
retire_inhibitor inh = record inh { inhibitor = none; surface = none; deleted = true }

abbrev drop_inhibitor : Inhibitor → List Request
drop_inhibitor inh = elim inh.inhibitor [ none ↦ [] | some p ↦ destroy_inhibitor p ∷ [] ]

unfoldable pub inhibitor_destroy : Manager → ℕ → Outcome (Unit {0})
unfolding find_inhibitor drop_surface
inhibitor_destroy im id = elim (find_inhibitor im id) [
  | none ↦ fail im
  | some inh ↦ record {
    state = record im {
      inhibitors = update_first (is_inhibitor id) retire_inhibitor im.inhibitors;
      legacy_inhibitor_id = if im.legacy_inhibitor_id == id then 0 else im.legacy_inhibitor_id;
    };
    requests = drop_inhibitor inh ++ (drop_surface inh ++ flush ∷ []);
    result = some tt;
  }
]
