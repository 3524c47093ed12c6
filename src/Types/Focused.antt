-- ===== src/Types/Focused.antt =====
-- src/ipc/types.c: the forms of workspaces, and what making them does to the metadata that they share.
use axctl_c.Prelude.{
  ◌≡◌, refl, sym, ap, ◌∙◌, inl, inr, ℕ, Bool, List, [], ◌∷◌, ◌++◌, map, some, codes, str_eq, ◌==◌,
  append_assoc, append-nil, Option-cases, Bool-cases, ==_iff,
}
use axctl_c.Json.{JsonC, JsonLaws}
use axctl_c.Types.{Workspace, MonitorInfo, Window}
use axctl_c.Types.ToJson.{
  with_focused, focus_metadata, workspace_to_json, workspace_array_onto, window_to_json,
  window_array_onto, Doubles, monitor_to_json, monitor_array_onto,
}

module _ (j : JsonC) where
  -- The object has the key.
  abbrev pub HasFocused : j.Json → Type 0
  HasFocused meta = (v : j.Json) × (j.object_get meta (codes "focused") ≡ some v)

  -- The form of a workspace.
  abbrev pub workspace_form : (ℕ → j.Json) → Workspace → j.Json
  workspace_form heap w = (workspace_to_json j heap w).0

module _ (j : JsonC) (laws : JsonLaws j) where
  with_focused-HasFocused :
      (meta : j.Json) (active : Bool) → HasFocused j (with_focused j meta active)
  unfolding with_focused str_eq
  with_focused-HasFocused meta active = elim (Option-cases (j.object_get meta (codes "focused"))) [
    | inl absent ↦
        rw (absent, with_focused)
          (j.new_boolean active, laws.get-add meta (j.new_boolean active) (codes "focused") _)
    | inr (v, e) ↦ rw (e, with_focused) (v, e)
  ]

  with_focused_again :
      (meta : j.Json) (active : Bool) → HasFocused j meta → with_focused j meta active ≡ meta
  unfolding with_focused
  with_focused_again meta active (v, e) = rw (e, with_focused)

  -- Once an object has the key, no form changes it.
  focus_metadata_again :
      (heap : ℕ → j.Json) (w : Workspace) (h : ℕ)
      → HasFocused j (heap h)
      → focus_metadata j heap w h ≡ heap h
  unfolding focus_metadata
  focus_metadata_again heap w h has = elim (Option-cases w.metadata) [
    | inl e ↦ rw (e, focus_metadata)
    | inr (k, e) ↦ elim (Bool-cases (k == h)) [
      | inl y ↦ rw (e, focus_metadata) rw (y) (with_focused_again (heap h) w.is_active has)
      | inr n ↦ rw (e, focus_metadata) rw (n)
    ]
  ]

  pub workspace_array_onto_again :
      (heap : ℕ → j.Json) (a : j.Json) (ws : List Workspace) (h : ℕ)
      → HasFocused j (heap h)
      → (workspace_array_onto j heap a ws).1 h ≡ heap h
  unfolding workspace_array_onto workspace_to_json
  workspace_array_onto_again heap a [] h has = refl
  workspace_array_onto_again heap a (w ∷ ws) h has =
      let same = focus_metadata_again heap w h has in
      workspace_array_onto_again (focus_metadata j heap w) _ ws h (rw same has) ∙ same

  focus_metadata_own :
      (heap : ℕ → j.Json) (w : Workspace) (h : ℕ)
      → w.metadata ≡ some h
      → focus_metadata j heap w h ≡ with_focused j (heap h) w.is_active
  unfolding focus_metadata
  focus_metadata_own heap w h e = rw (e, focus_metadata) rw ((==_iff h h).1 refl)

  -- It stays the same when others are made behind it.
  workspace_form_later :
      (heap : ℕ → j.Json) (a : j.Json) (w : Workspace) (ws : List Workspace)
      → workspace_form j (workspace_array_onto j (focus_metadata j heap w) a ws).1 w
        ≡ workspace_form j heap w
  unfolding workspace_to_json
  workspace_form_later heap a w ws =
      let later = (workspace_array_onto j (focus_metadata j heap w) a ws).1 in
      elim (Option-cases w.metadata) [
        | inl e ↦ rw (e, workspace_to_json)
        | inr (h, e) ↦
            let own = focus_metadata_own heap w h e in
            let has : HasFocused j (focus_metadata j heap w h) =
              rw own (with_focused-HasFocused (heap h) w.is_active) in
            let same : later h ≡ focus_metadata j heap w h =
              workspace_array_onto_again (focus_metadata j heap w) a ws h has in
            let again : focus_metadata j later w h ≡ focus_metadata j heap w h =
              focus_metadata_again later w h (rw same has) ∙ same in
            rw (e, workspace_to_json) rw again refl
      ]

  -- The forms of a list, each of which shows the metadata as they are when all are made.
  pub items-workspace_array_onto :
      (heap : ℕ → j.Json) (a : j.Json) (ws : List Workspace) (vs : List j.Json)
      → j.array_items a ≡ some vs
      → j.array_items (workspace_array_onto j heap a ws).0
        ≡ some (vs ++ map (workspace_form j (workspace_array_onto j heap a ws).1) ws)
  unfolding workspace_array_onto
  items-workspace_array_onto heap a [] vs e = e ∙ ap (λ x. some x) (sym (append-nil vs))
  items-workspace_array_onto heap a (w ∷ ws) vs e =
      let o = workspace_form j heap w in
      let a' : j.Json = j.array_add a o in
      let final = (workspace_array_onto j (focus_metadata j heap w) a' ws).1 in
      items-workspace_array_onto (focus_metadata j heap w) (j.array_add a o) ws (vs ++ o ∷ [])
        (laws.items-array_add a o e)
      ∙ ap (λ x. some x) (append_assoc vs (o ∷ []) (map (workspace_form j final) ws))
      ∙ ap (λ x. some (vs ++ x ∷ map (workspace_form j final) ws))
          (sym (workspace_form_later heap a' w ws))

  pub items-window_array_onto :
      (heap : ℕ → j.Json) (a : j.Json) (ws : List Window) (vs : List j.Json)
      → j.array_items a ≡ some vs
      → j.array_items (window_array_onto j heap a ws) ≡ some (vs ++ map (window_to_json j heap) ws)
  unfolding window_array_onto
  items-window_array_onto heap a [] vs e = e ∙ ap (λ x. some x) (sym (append-nil vs))
  items-window_array_onto heap a (w ∷ ws) vs e =
      let o = window_to_json j heap w in
      items-window_array_onto heap (j.array_add a (window_to_json j heap w)) ws (vs ++ o ∷ [])
        (laws.items-array_add a o e)
      ∙ ap (λ x. some x) (append_assoc vs (o ∷ []) (map (window_to_json j heap) ws))

  module _ {D : Type 0} (d : Doubles j D) where
    pub items-monitor_array_onto :
        (heap : ℕ → j.Json) (a : j.Json) (ms : List (MonitorInfo D)) (vs : List j.Json)
        → j.array_items a ≡ some vs
        → j.array_items (monitor_array_onto j d heap a ms)
          ≡ some (vs ++ map (monitor_to_json j d heap) ms)
    unfolding monitor_array_onto
    items-monitor_array_onto heap a [] vs e = e ∙ ap (λ x. some x) (sym (append-nil vs))
    items-monitor_array_onto heap a (m ∷ ms) vs e =
        let o = monitor_to_json j d heap m in
        items-monitor_array_onto heap (j.array_add a (monitor_to_json j d heap m)) ms (vs ++ o ∷ [])
          (laws.items-array_add a o e)
        ∙ ap (λ x. some x) (append_assoc vs (o ∷ []) (map (monitor_to_json j d heap) ms))
