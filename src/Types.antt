-- ===== src/Types.antt =====
-- src/ipc/types.c and include/ipc/types.h: the records of the compositor's state, and the growing
-- arrays. The three array types of the source have the same code, modelled once. A pointer to
-- metadata is a handle, since copies of a record share it; a `double` is of any type `D`.
-- Reference counts and memory given back are left out.
pub mod Arrays
pub mod ToJson
pub mod Focused
mod Tests
use axctl_c.Prelude.{
  ℕ, ◌*◌, Bool, true, false, List, [], ◌∷◌, ◌++◌, Option, none, some, CString, ℤ, ltb, leb, ◌==◌,
  if◌then◌else◌, length,
}
use axctl_c.Strutil.{strdup}

pub record Window : Type 0 where
  pub id : Option CString
  pub title : Option CString
  pub app_id : Option CString
  pub workspace_id : Option CString
  pub is_focused : Bool
  pub is_floating : Bool
  pub is_fullscreen : Bool
  pub is_hidden : Bool
  pub metadata : Option ℕ

pub record Workspace : Type 0 where
  pub id : Option CString
  pub name : Option CString
  pub monitor_id : Option CString
  pub is_active : Bool
  pub is_empty : Bool
  pub metadata : Option ℕ

pub record MonitorInfo (D : Type 0) : Type 0 where
  pub id : Option CString
  pub name : Option CString
  pub description : Option CString
  pub width : ℤ
  pub height : ℤ
  pub refresh_rate : D
  pub scale : D
  pub is_focused : Bool
  pub metadata : Option ℕ

-- `axctl_event_type_t`
pub data EventType : Type 0 where
  window_created window_closed window_focused window_title_changed window_moved : EventType
  workspace_changed monitor_changed config_reloaded fullscreen_changed : EventType
  focused_monitor_changed floating_changed unknown : EventType

-- `axctl_window_dup`
unfoldable pub window_dup : Window → Window
unfolding strdup
window_dup src = record {
  id = strdup src.id;
  title = strdup src.title;
  app_id = strdup src.app_id;
  workspace_id = strdup src.workspace_id;
  is_focused = src.is_focused;
  is_floating = src.is_floating;
  is_fullscreen = src.is_fullscreen;
  is_hidden = src.is_hidden;
  metadata = src.metadata;
}

-- The used part of an array, whose length is `count`, and its capacity.
pub record Array {ℓ} (A : Type ℓ) : Type ℓ where
  pub items : List A
  pub capacity : ℕ

module _ {ℓ} {A : Type ℓ} where
  unfoldable pub array_init : Array A
  array_init = record { items = []; capacity = 0 }

  -- `axctl_window_array_push`, with the answer of `realloc` for the new capacity.
  unfoldable pub array_push : (ℕ → Bool) → Array A → A → Array A
  array_push realloc arr w =
      let new_cap = if arr.capacity == 0 then 8 else arr.capacity * 2 in
      if leb arr.capacity (length arr.items)
      then (if realloc new_cap
          then record { items = arr.items ++ w ∷ []; capacity = new_cap }
          else arr)
      else record arr { items = arr.items ++ w ∷ [] }

  -- The loop of `dup_windows`, `dup_workspaces` and `dup_monitors`.
  unfoldable pub array_dup_onto : (ℕ → Bool) → (A → A) → Array A → List A → Array A
  unfolding array_push
  array_dup_onto realloc dup dst [] = dst
  array_dup_onto realloc dup dst (x ∷ src) =
      array_dup_onto realloc dup (array_push realloc dst (dup x)) src

  unfoldable pub array_dup : (ℕ → Bool) → (A → A) → Array A → Array A
  unfolding array_dup_onto array_init
  array_dup realloc dup src = array_dup_onto realloc dup array_init src.items
