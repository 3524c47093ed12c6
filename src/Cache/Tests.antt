-- ===== src/Cache/Tests.antt =====
-- The cache with two windows, and its theorems there.
use axctl_c.Prelude.{
  ℕ, ◌≡◌, ◌≢◌, ◌≤◌, refl, true, false, [], ◌∷◌, Option, none, some, codes, All, str_eq,
}
use axctl_c.Table.{find_first, update_first}
use axctl_c.Strutil.{strdup}
use axctl_c.Json.Values.{empty, text, lookup, values, values-JsonLaws}
use axctl_c.Types.{Window, Workspace, MonitorInfo, Array, array_init}
use axctl_c.Cache.{
  Cache, has_id, focus_by, Heap, remove_window, update_window_title, update_window_state,
  update_window_floating, mark_window_focused, get_windows, update_window_workspace,
}
use axctl_c.Cache.Windows.{FirstWith, window_operations}
use axctl_c.Cache.Focus.{Distinct, count, same_id, mark_window_focused-Distinct}
use axctl_c.Cache.Sharing.{get_windows-update_window_workspace}

abbrev window : ℕ → Option ℕ → Window
window n metadata = record {
  id = some (n ∷ []);
  title = some (n ∷ n ∷ []);
  app_id = none;
  workspace_id = some (codes "1");
  is_focused = true;
  is_floating = false;
  is_fullscreen = false;
  is_hidden = false;
  metadata = metadata;
}

abbrev two : Cache ℕ
two = record {
  windows = record { items = window 65 (some 5) ∷ window 66 none ∷ []; capacity = 8 };
  workspaces = array_init;
  monitors = array_init;
}

two-FirstWith : FirstWith (66 ∷ []) two.windows.items (window 65 (some 5) ∷ []) (window 66 none) []
unfolding has_id str_eq
two-FirstWith = record { splits = refl; before = (refl, tt); hit = refl }

two-Distinct : Distinct two.windows.items
unfolding has_id same_id str_eq
two-Distinct = ((refl, tt), (tt, tt))

moved :
    ((update_window_title two (66 ∷ []) none).windows.items
      ≡ window 65 (some 5) ∷ record (window 66 none) { title = none } ∷ [])
    × ((mark_window_focused two (some (66 ∷ []))).windows.items
        ≡ record (window 65 (some 5)) { is_focused = false } ∷ window 66 none ∷ [])
unfolding update_window_title mark_window_focused update_first has_id str_eq strdup focus_by
moved = (refl, refl)

window_operations_example :
    ((get_windows (remove_window two (66 ∷ []))).items ≡ window 65 (some 5) ∷ [])
    × ((get_windows (update_window_title two (66 ∷ []) none)).items
        ≡ window 65 (some 5) ∷ record (window 66 none) { title = none } ∷ [])
    × ((get_windows (update_window_state two (66 ∷ []) true)).items
        ≡ window 65 (some 5) ∷ record (window 66 none) { is_fullscreen = true } ∷ [])
    × ((get_windows (update_window_floating two (66 ∷ []) true)).items
        ≡ window 65 (some 5) ∷ record (window 66 none) { is_floating = true } ∷ [])
window_operations_example = window_operations two (66 ∷ []) none true two-FirstWith

two_absent : All (λ v. has_id (67 ∷ []) v ≡ false) two.windows.items
unfolding has_id str_eq
two_absent = (refl, (refl, tt))

mark_window_focused-Distinct_example :
    let ws = (mark_window_focused two (some (66 ∷ []))).windows.items in
    Distinct ws
    × (count (λ w. w.is_focused) ws ≡ count (has_id (66 ∷ [])) two.windows.items)
    × (count (λ w. w.is_focused) ws ≤ 1)
mark_window_focused-Distinct_example = mark_window_focused-Distinct two (66 ∷ []) two-Distinct

same_as_second : same_id (window 66 none) (window 66 (some 9)) ≡ true
unfolding same_id has_id str_eq
same_as_second = refl

first_found : find_first (has_id (65 ∷ [])) two.windows.items ≡ some (window 65 (some 5))
unfolding has_id find_first str_eq
first_found = refl

get_windows-update_window_workspace_example :
    let heap : Heap values = λ k. empty in
    let heap' = (update_window_workspace values heap 9 two (65 ∷ []) none (some (codes "DP"))).1 in
    (find_first (has_id (65 ∷ [])) (get_windows two).items ≡ some (window 65 (some 5)))
    × (lookup (heap' 5) (codes "monitor_id") ≡ some (text (codes "DP")))
    × ((k : ℕ) → k ≢ 5 → heap' k ≡ empty)
get_windows-update_window_workspace_example =
    get_windows-update_window_workspace values values-JsonLaws (λ k. empty) 9 two (65 ∷ []) none 68
      (80 ∷ []) first_found refl

abbrev third_only : Array Window
third_only = record { items = window 67 none ∷ []; capacity = 8 }

abbrev one_workspace : Array Workspace
one_workspace = record {
  items =
      record {
        id = some (codes "1");
        name = none;
        monitor_id = none;
        is_active = true;
        is_empty = false;
        metadata = none;
      }
      ∷ [];
  capacity = 8;
}

abbrev no_monitors : Array (MonitorInfo ℕ)
no_monitors = record { items = []; capacity = 0 }
