-- ===== src/Types/ToJson.antt =====
-- src/ipc/types.c: the JSON forms of the records. The metadata lies in the heap of the cache; the
-- form of a workspace may add a key to it there.
use axctl_c.Prelude.{
  ℕ, Bool, List, [], ◌∷◌, Option, none, some, CString, ℤ, codes, ◌==◌, if◌then◌else◌,
}
use axctl_c.Json.{JsonC}
use axctl_c.Json.Helpers.{string_or_empty}
use axctl_c.Types.{Window, Workspace, MonitorInfo, EventType}

-- C's `double`, in the type `D`, with what the source does with one: compare it with 0, find the
-- whole number that it is (`v == (double)(int64_t)v`), and make a JSON number of it.
pub record Doubles (j : JsonC) (D : Type 0) : Type 0 where
  pub is_zero_double : D → Bool
  pub whole : D → Option ℤ
  pub new_int64 : ℤ → j.Json
  pub new_double : D → j.Json

-- `axctl_capabilities_t`
pub record Capabilities : Type 0 where
  pub blur : Bool
  pub shadows : Bool
  pub animations : Bool
  pub rounded_corners : Bool
  pub workspaces_supported : Bool
  pub windows_supported : Bool

-- `axctl_event_type_str`
unfoldable pub event_type_str : EventType → CString
event_type_str EventType.window_created = codes "window_created"
event_type_str EventType.window_closed = codes "window_closed"
event_type_str EventType.window_focused = codes "window_focused"
event_type_str EventType.window_title_changed = codes "window_title_changed"
event_type_str EventType.window_moved = codes "window_moved"
event_type_str EventType.workspace_changed = codes "workspace_changed"
event_type_str EventType.monitor_changed = codes "monitor_changed"
event_type_str EventType.config_reloaded = codes "config_reloaded"
event_type_str EventType.fullscreen_changed = codes "fullscreen_changed"
event_type_str EventType.focused_monitor_changed = codes "focused_monitor_changed"
event_type_str EventType.floating_changed = codes "floating_changed"
event_type_str EventType.unknown = codes "unknown"

module _ (j : JsonC) where
  -- The keys added one after the other to an object.
  unfoldable pub add_all : j.Json → List (CString × j.Json) → j.Json
  add_all o [] = o
  add_all o ((k, v) ∷ fields) = add_all (j.object_add o k v) fields

  abbrev pub object_with : List (CString × j.Json) → j.Json
  object_with fields = add_all j.new_object fields

  -- The object behind the handle, or an empty one.
  unfoldable pub metadata_or_empty : (ℕ → j.Json) → Option ℕ → j.Json
  metadata_or_empty heap none = j.new_object
  metadata_or_empty heap (some h) = heap h

  unfoldable pub window_to_json : (ℕ → j.Json) → Window → j.Json
  unfolding metadata_or_empty string_or_empty add_all
  window_to_json heap w = object_with (
      (codes "id", string_or_empty j w.id)
      ∷ (codes "title", string_or_empty j w.title)
      ∷ (codes "app_id", string_or_empty j w.app_id)
      ∷ (codes "workspace_id", string_or_empty j w.workspace_id)
      ∷ (codes "is_focused", j.new_boolean w.is_focused)
      ∷ (codes "is_floating", j.new_boolean w.is_floating)
      ∷ (codes "is_fullscreen", j.new_boolean w.is_fullscreen)
      ∷ (codes "is_hidden", j.new_boolean w.is_hidden)
      ∷ (codes "metadata", metadata_or_empty heap w.metadata)
      ∷ [])

  -- The metadata of a workspace, once it has the key `focused`.
  unfoldable pub with_focused : j.Json → Bool → j.Json
  with_focused meta is_active = elim (j.object_get meta (codes "focused")) [
    | none ↦ j.object_add meta (codes "focused") (j.new_boolean is_active)
    | some existing ↦ meta
  ]

  -- The object in the heap is the one that the key is added to.
  unfoldable pub focus_metadata : (ℕ → j.Json) → Workspace → ℕ → j.Json
  unfolding with_focused
  focus_metadata heap w k = elim w.metadata [
    | none ↦ heap k
    | some h ↦ if h == k then with_focused (heap k) w.is_active else heap k
  ]

  unfoldable pub workspace_to_json : (ℕ → j.Json) → Workspace → j.Json × (ℕ → j.Json)
  unfolding focus_metadata string_or_empty add_all
  workspace_to_json heap w =
      let heap' = focus_metadata heap w in
      let meta : j.Json = elim w.metadata [
        | none ↦ j.object_add j.new_object (codes "focused") (j.new_boolean w.is_active)
        | some h ↦ heap' h
      ] in
      (
        object_with (
            (codes "id", string_or_empty j w.id)
            ∷ (codes "name", string_or_empty j w.name)
            ∷ (codes "monitor_id", string_or_empty j w.monitor_id)
            ∷ (codes "is_active", j.new_boolean w.is_active)
            ∷ (codes "is_empty", j.new_boolean w.is_empty)
            ∷ (codes "metadata", meta)
            ∷ []),
        heap',
      )

  -- `omitempty`
  unfoldable pub description_field : Option CString → List (CString × j.Json)
  description_field none = []
  description_field (some []) = []
  description_field (some (b ∷ s)) = (codes "description", j.new_string (b ∷ s)) ∷ []

  module _ {D : Type 0} (d : Doubles j D) where
    unfoldable pub json_smart_double : D → j.Json
    json_smart_double v = elim (d.whole v) [ none ↦ d.new_double v | some i ↦ d.new_int64 i ]

    unfoldable pub double_field : CString → D → List (CString × j.Json)
    unfolding json_smart_double
    double_field key v = if d.is_zero_double v then [] else (key, json_smart_double v) ∷ []

    unfoldable pub monitor_to_json : (ℕ → j.Json) → MonitorInfo D → j.Json
    unfolding metadata_or_empty string_or_empty add_all double_field description_field
    monitor_to_json heap m =
        let named =
          object_with (
            (codes "id", string_or_empty j m.id) ∷ (codes "name", string_or_empty j m.name) ∷ []) in
        let described = add_all named (description_field m.description) in
        let sized =
          add_all described
            ((codes "width", j.new_int m.width) ∷ (codes "height", j.new_int m.height) ∷ []) in
        let rated = add_all sized (double_field (codes "refresh_rate") m.refresh_rate) in
        let scaled = add_all rated (double_field (codes "scale") m.scale) in
        add_all scaled (
          (codes "is_focused", j.new_boolean m.is_focused)
          ∷ (codes "metadata", metadata_or_empty heap m.metadata)
          ∷ [])

    unfoldable pub monitor_array_onto : (ℕ → j.Json) → j.Json → List (MonitorInfo D) → j.Json
    unfolding monitor_to_json
    monitor_array_onto heap a [] = a
    monitor_array_onto heap a (m ∷ ms) =
        monitor_array_onto heap (j.array_add a (monitor_to_json heap m)) ms

  unfoldable pub capabilities_to_json : Capabilities → j.Json
  unfolding add_all
  capabilities_to_json c = object_with (
      (codes "blur", j.new_boolean c.blur)
      ∷ (codes "shadows", j.new_boolean c.shadows)
      ∷ (codes "animations", j.new_boolean c.animations)
      ∷ (codes "rounded_corners", j.new_boolean c.rounded_corners)
      ∷ (codes "workspaces_supported", j.new_boolean c.workspaces_supported)
      ∷ (codes "windows_supported", j.new_boolean c.windows_supported)
      ∷ [])

  -- The loops of the array forms.
  unfoldable pub window_array_onto : (ℕ → j.Json) → j.Json → List Window → j.Json
  unfolding window_to_json
  window_array_onto heap a [] = a
  window_array_onto heap a (w ∷ ws) =
      window_array_onto heap (j.array_add a (window_to_json heap w)) ws

  unfoldable pub workspace_array_onto :
      (ℕ → j.Json) → j.Json → List Workspace → j.Json × (ℕ → j.Json)
  unfolding workspace_to_json
  workspace_array_onto heap a [] = (a, heap)
  workspace_array_onto heap a (w ∷ ws) =
      let (o, heap') = workspace_to_json heap w in workspace_array_onto heap' (j.array_add a o) ws
