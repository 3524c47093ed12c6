-- ===== src/Server/Kept.antt =====
-- The ids of the cached windows under what single events do to the cache.
use axctl_c.Prelude.{
  ℕ, ◌≡◌, refl, ◌∙◌, ap, Bool, List, [], ◌∷◌, ◌++◌, map, Option, none, some, arith, CString, inl,
  inr, Option-cases,
}
use axctl_c.Table.{find_first}
use axctl_c.Json.{JsonC}
use axctl_c.Types.{Window, Array, window_dup}
use axctl_c.Types.Arrays.{array_push-items}
use axctl_c.Cache.{
  Cache, Heap, handle_or, has_id, focus_by, given, add_window, remove_window, update_window_title,
  update_window_state, update_window_floating, update_window_workspace, update_window,
  mark_window_focused, set_windows, set_workspaces, set_monitors, set_title, set_workspace,
  set_fullscreen, set_floating,
}
use axctl_c.Cache.Windows.{window_dup_lem}
use axctl_c.Cache.Focus.{same_id, Distinct, focus_by-Distinct}
use axctl_c.Cache.Changes.{
  IsNew, KeepsId, append-Distinct, remove_first-Distinct, update_first-Distinct,
}
use axctl_c.Server.Refresh.{
  Compositor, refresh_windows, refresh_focus, refresh_workspaces, refresh_monitors,
  server_init_cache,
}
use axctl_c.Server.Events.{
  add_given, add_named, remove_given, title_given, state_given, floating_given,
}

-- The ids of the windows of the array are distinct, if there is one.
abbrev pub AreDistinct : Option (Array Window) → Type 0
AreDistinct none = Unit {0}
AreDistinct (some ws) = Distinct ws.items

-- The ids of the listed windows are distinct, if the compositor answers.
abbrev pub ListsDistinct : {D : Type 0} → Compositor D → Type 0
ListsDistinct comp = AreDistinct comp.list_windows

-- No window, or one that is new.
abbrev pub MayJoin : Option Window → List Window → Type 0
MayJoin none ws = Unit {0}
MayJoin (some w) ws = IsNew w ws

focused-IsNew :
    (id : Option CString) (w : Window) (ws : List Window)
    → IsNew w ws
    → IsNew w (map (focus_by id) ws)
unfolding focus_by same_id has_id
focused-IsNew id w [] n = tt
focused-IsNew id w (v ∷ ws) n = (n.0, focused-IsNew id w ws n.1)

module _ {D : Type 0} where
  abbrev pub WithDistinct : Cache D → Type 0
  WithDistinct c = Distinct c.windows.items

  add_window-Distinct :
      (c : Cache D) (w : Window)
      → WithDistinct c
      → IsNew w c.windows.items
      → WithDistinct (add_window c w)
  unfolding add_window
  add_window-Distinct c w d n =
      let items : (add_window c w).windows.items ≡ c.windows.items ++ w ∷ [] =
        array_push-items c.windows (window_dup w) ∙ rw (window_dup_lem w) in
      rw items (append-Distinct c.windows.items w d n)

  pub add_given-Distinct :
      (c : Cache D) (w : Option Window)
      → WithDistinct c
      → MayJoin w c.windows.items
      → WithDistinct (add_given c w)
  unfolding add_given
  add_given-Distinct c none d n = d
  add_given-Distinct c (some w) d n = add_window-Distinct c w d n

  pub add_named-Distinct :
      (c : Cache D) (w : Option Window)
      → WithDistinct c
      → MayJoin w c.windows.items
      → WithDistinct (add_named c w)
  unfolding add_named
  add_named-Distinct c none d n = d
  add_named-Distinct c (some w) d n =
      elim w.id as (λ i. WithDistinct (elim i [ none ↦ c | some id ↦ add_window c w ])) [
        | none ↦ d
        | some id ↦ add_window-Distinct c w d n
      ]

  set_windows-Distinct :
      (c : Cache D) (listed : Option (Array Window))
      → AreDistinct listed
      → WithDistinct c
      → let c' : Cache D = elim listed [ none ↦ c | some ws ↦ (set_windows c ws).0 ] in
        WithDistinct c'
  unfolding set_windows
  set_windows-Distinct c none l d = d
  set_windows-Distinct c (some ws) l d = l

  refresh_windows-Distinct :
      (comp : Compositor D) (c : Cache D)
      → ListsDistinct comp
      → WithDistinct c
      → WithDistinct (refresh_windows comp c)
  unfolding refresh_windows
  refresh_windows-Distinct comp c l d = set_windows-Distinct c comp.list_windows l d

  pub mark_window_focused-WithDistinct :
      (c : Cache D) (id : Option CString) → WithDistinct c → WithDistinct (mark_window_focused c id)
  unfolding mark_window_focused
  mark_window_focused-WithDistinct c id d = focus_by-Distinct id c.windows.items d

  pub focused-MayJoin :
      (c : Cache D) (id : Option CString) (w : Option Window)
      → MayJoin w c.windows.items
      → MayJoin w (mark_window_focused c id).windows.items
  unfolding mark_window_focused
  focused-MayJoin c id none n = tt
  focused-MayJoin c id (some w) n = focused-IsNew id w c.windows.items n

  refresh_focus-Distinct :
      (comp : Compositor D) (c : Cache D) → WithDistinct c → WithDistinct (refresh_focus comp c)
  unfolding refresh_focus
  refresh_focus-Distinct comp c d =
      elim comp.active_window
        as (λ o. WithDistinct (elim o [
          | none ↦ c
          | some a ↦ elim (given a) [ none ↦ c | some id ↦ mark_window_focused c (some id) ]
        ])) [
          | none ↦ d
          | some a ↦
              elim (given a)
                as (λ g.
                  WithDistinct (elim g [ none ↦ c | some id ↦ mark_window_focused c (some id) ])) [
                    | none ↦ d
                    | some id ↦ mark_window_focused-WithDistinct c (some id) d
                  ]
        ]

  -- The workspaces and the monitors are kept apart from the windows.
  refresh_others :
      (comp : Compositor D) (c : Cache D)
      → (refresh_monitors comp (refresh_workspaces comp c)).windows ≡ c.windows
  unfolding refresh_workspaces refresh_monitors set_workspaces set_monitors
  refresh_others comp c = ground arith

  pub server_init_cache-Distinct :
      (comp : Compositor D) (c : Cache D)
      → ListsDistinct comp
      → WithDistinct c
      → WithDistinct (server_init_cache comp c)
  unfolding server_init_cache
  server_init_cache-Distinct comp c l d =
      let shown = refresh_focus comp (refresh_windows comp c) in
      let windows_kept : (server_init_cache comp c).windows ≡ shown.windows =
        refresh_others comp shown in
      rw (ap (λ ws. ws.items) windows_kept)
        (refresh_focus-Distinct comp (refresh_windows comp c) (refresh_windows-Distinct comp c l d))

  pub remove_given-Distinct :
      (c : Cache D) (id : Option CString) → WithDistinct c → WithDistinct (remove_given c id)
  unfolding remove_given remove_window
  remove_given-Distinct c none d = d
  remove_given-Distinct c (some id) d = remove_first-Distinct (has_id id) c.windows.items d

  pub title_given-Distinct :
      (c : Cache D) (id title : Option CString)
      → WithDistinct c
      → WithDistinct (title_given c id title)
  unfolding title_given update_window_title KeepsId
  title_given-Distinct c none title d = d
  title_given-Distinct c (some id) none d = d
  title_given-Distinct c (some id) (some title) d =
      update_first-Distinct (has_id id) (set_title (some title)) c.windows.items (λ w. refl) d

  pub state_given-Distinct :
      (c : Cache D) (id : Option CString) (fs : Bool)
      → WithDistinct c
      → WithDistinct (state_given c id fs)
  unfolding state_given update_window_state KeepsId
  state_given-Distinct c none fs d = d
  state_given-Distinct c (some id) fs d =
      update_first-Distinct (has_id id) (set_fullscreen fs) c.windows.items (λ w. refl) d

  pub floating_given-Distinct :
      (c : Cache D) (id : Option CString) (floating : Bool)
      → WithDistinct c
      → WithDistinct (floating_given c id floating)
  unfolding floating_given update_window_floating KeepsId
  floating_given-Distinct c none floating d = d
  floating_given-Distinct c (some id) floating d =
      update_first-Distinct (has_id id) (set_floating floating) c.windows.items (λ w. refl) d

  pub update_window_workspace-Distinct :
      (j : JsonC) (heap : Heap j) (fresh : ℕ) (c : Cache D) (id : CString) (ws mon : Option CString)
      → WithDistinct c
      → WithDistinct (update_window_workspace j heap fresh c id ws mon).0
  unfolding update_window_workspace KeepsId
  update_window_workspace-Distinct j heap fresh c id ws mon d =
      let moved = λ (metadata : Option ℕ).
        update_first-Distinct (has_id id) (set_workspace ws metadata) c.windows.items (λ w. refl)
          d in
      elim (Option-cases (find_first (has_id id) c.windows.items)) [
        | inl missing ↦
            let e : (update_window_workspace j heap fresh c id ws mon).0 ≡ c =
              rw (missing, update_window_workspace) in
            rw e d
        | inr (w, found) ↦ elim (Option-cases (given mon)) [
          | inl stays ↦
              let e : (update_window_workspace j heap fresh c id ws mon).0
                  ≡ update_window c id (set_workspace ws w.metadata) =
                rw (found, stays, update_window_workspace) in
              rw e (moved w.metadata)
          | inr (m, goes) ↦
              let e : (update_window_workspace j heap fresh c id ws mon).0
                  ≡ update_window c id (set_workspace ws (some (handle_or fresh w.metadata))) =
                rw (found, goes, update_window_workspace) in
              rw e (moved (some (handle_or fresh w.metadata)))
        ]
      ]
