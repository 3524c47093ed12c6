-- ===== src/Cache.antt =====
-- src/ipc/cache.c: the state cache. The lock makes each operation one step on the state. Copies of a
-- record share its metadata object, so these objects lie in a heap beside the cache.
pub mod Windows
pub mod Replaced
pub mod Focus
pub mod Changes
pub mod Sharing
mod Tests
use axctl_c.Prelude.{
  ℕ, Bool, true, false, ◌&&◌, List, [], ◌∷◌, Option, none, some, CString, codes, str_eq, map,
  if◌then◌else◌, ◌==◌,
}
use axctl_c.Table.{find_first, update_first}
use axctl_c.Strutil.{strdup}
use axctl_c.Json.{JsonC}
use axctl_c.Types.{
  Window, Workspace, MonitorInfo, Array, array_init, array_push, array_dup, window_dup,
}

pub record Cache (D : Type 0) : Type 0 where
  pub windows : Array Window
  pub workspaces : Array Workspace
  pub monitors : Array (MonitorInfo D)

-- `realloc` succeeds.
abbrev pub memory : ℕ → Bool
memory n = true

-- `workspace_dup` and `monitor_dup`
unfoldable pub workspace_dup : Workspace → Workspace
unfolding strdup
workspace_dup src = record {
  id = strdup src.id;
  name = strdup src.name;
  monitor_id = strdup src.monitor_id;
  is_active = src.is_active;
  is_empty = src.is_empty;
  metadata = src.metadata;
}

unfoldable pub monitor_dup : {D : Type 0} → MonitorInfo D → MonitorInfo D
unfolding strdup
monitor_dup src = record {
  id = strdup src.id;
  name = strdup src.name;
  description = strdup src.description;
  width = src.width;
  height = src.height;
  refresh_rate = src.refresh_rate;
  scale = src.scale;
  is_focused = src.is_focused;
  metadata = src.metadata;
}

-- `items[i].id && strcmp(items[i].id, id) == 0`
unfoldable pub has_id : CString → Window → Bool
has_id id w = elim w.id [ none ↦ false | some own ↦ str_eq own id ]

-- The loop of `axctl_cache_remove_window`: the slots behind the first match move up by one.
unfoldable pub remove_first : (Window → Bool) → List Window → List Window
remove_first hit [] = []
remove_first hit (w ∷ ws) = if hit w then ws else w ∷ remove_first hit ws

-- The assignments of the updates.
abbrev pub set_title : Option CString → Window → Window
set_title title w = record w { title = strdup title }

abbrev pub set_workspace : Option CString → Option ℕ → Window → Window
set_workspace workspace_id metadata w = record w {
  workspace_id = strdup workspace_id;
  metadata = metadata;
}

abbrev pub set_fullscreen : Bool → Window → Window
set_fullscreen on w = record w { is_fullscreen = on }

abbrev pub set_floating : Bool → Window → Window
set_floating on w = record w { is_floating = on }

-- The flag is set where both ids are given and equal, and cleared elsewhere.
unfoldable pub focus_by : Option CString → Window → Window
unfolding has_id
focus_by id w = record w { is_focused = elim id [ none ↦ false | some wanted ↦ has_id wanted w ] }

-- The objects behind the handles.
abbrev pub Heap : JsonC → Type 0
Heap j = ℕ → j.Json

unfoldable pub write {ℓ} : {A : Type ℓ} → (ℕ → A) → ℕ → A → ℕ → A
write heap h v k = if h == k then v else heap k

-- The part of `axctl_cache_update_window_workspace` for a monitor: the object gets the key, and is
-- made first, at the handle `fresh`, if the window has none.
abbrev pub handle_or : ℕ → Option ℕ → ℕ
handle_or fresh none = fresh
handle_or fresh (some h) = h

unfoldable pub add_monitor_id : (j : JsonC) → Heap j → ℕ → Option ℕ → CString → Heap j
unfolding write
add_monitor_id j heap fresh metadata monitor_id =
    let made : Heap j = elim metadata [ none ↦ write heap fresh j.new_object | some h ↦ heap ] in
    let h = handle_or fresh metadata in
    write made h (j.object_add (made h) (codes "monitor_id") (j.new_string monitor_id))

-- `monitor_id && *monitor_id`
unfoldable pub given : Option CString → Option CString
given none = none
given (some []) = none
given (some (b ∷ s)) = some (b ∷ s)

module _ {D : Type 0} where
  unfoldable pub cache_new : Cache D
  unfolding array_init
  cache_new = record { windows = array_init; workspaces = array_init; monitors = array_init }

  unfoldable pub add_window : Cache D → Window → Cache D
  unfolding array_push window_dup
  add_window c w = record c { windows = array_push memory c.windows (window_dup w) }

  abbrev pub with_items : Cache D → List Window → Cache D
  with_items c ws = record c { windows = record (c.windows) { items = ws } }

  unfoldable pub remove_window : Cache D → CString → Cache D
  unfolding remove_first has_id
  remove_window c id = with_items c (remove_first (has_id id) c.windows.items)

  abbrev pub update_window : Cache D → CString → (Window → Window) → Cache D
  update_window c id f = with_items c (update_first (has_id id) f c.windows.items)

  unfoldable pub update_window_title : Cache D → CString → Option CString → Cache D
  update_window_title c id title = update_window c id (set_title title)

  unfoldable pub update_window_state : Cache D → CString → Bool → Cache D
  update_window_state c id is_fullscreen = update_window c id (set_fullscreen is_fullscreen)

  unfoldable pub update_window_floating : Cache D → CString → Bool → Cache D
  update_window_floating c id floating = update_window c id (set_floating floating)

  unfoldable pub mark_window_focused : Cache D → Option CString → Cache D
  mark_window_focused c id = with_items c (map (focus_by id) c.windows.items)

  -- The setters take the caller's array over and leave it empty; the getters answer copies.
  unfoldable pub set_windows : Cache D → Array Window → Cache D × Array Window
  unfolding array_init
  set_windows c arr = (record c { windows = arr }, array_init)

  unfoldable pub get_windows : Cache D → Array Window
  unfolding array_dup
  get_windows c = array_dup memory window_dup c.windows

  unfoldable pub set_workspaces : Cache D → Array Workspace → Cache D × Array Workspace
  unfolding array_init
  set_workspaces c arr = (record c { workspaces = arr }, array_init)

  unfoldable pub get_workspaces : Cache D → Array Workspace
  unfolding array_dup
  get_workspaces c = array_dup memory workspace_dup c.workspaces

  unfoldable pub set_monitors : Cache D → Array (MonitorInfo D) → Cache D × Array (MonitorInfo D)
  unfolding array_init
  set_monitors c arr = (record c { monitors = arr }, array_init)

  unfoldable pub get_monitors : Cache D → Array (MonitorInfo D)
  unfolding array_dup
  get_monitors c = array_dup memory monitor_dup c.monitors

  unfoldable pub update_window_workspace :
      (j : JsonC)
      → Heap j
      → ℕ
      → Cache D
      → CString
      → Option CString
      → Option CString
      → Cache D × Heap j
  unfolding has_id given
  update_window_workspace j heap fresh c id workspace_id monitor_id =
      elim (find_first (has_id id) c.windows.items) [
        | none ↦ (c, heap)
        | some w ↦ elim (given monitor_id) [
          | none ↦ (update_window c id (set_workspace workspace_id w.metadata), heap)
          | some mon ↦ (
            update_window c id (set_workspace workspace_id (some (handle_or fresh w.metadata))),
            add_monitor_id j heap fresh w.metadata mon,
          )
        ]
      ]
