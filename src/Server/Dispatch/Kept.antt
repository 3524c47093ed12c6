-- ===== src/Server/Dispatch/Kept.antt =====
-- What a request leaves of the server: the cached records always, the metadata objects that they refer to
-- but for one key, and the list of subscribed clients, unless the request subscribes.
use axctl_c.Prelude.{
  ◌≡◌, refl, ◌∙◌, ap, sym, ◌⊎◌, inl, inr, ℕ, List, [], ◌∷◌, ◌++◌, Option, none, some, CString,
  codes, str_eq, ◌==◌, ==_iff, Option-cases, Bool-cases,
}
use mathlib.Core.Path.{subst}
use axctl_c.Json.{JsonC, JsonLaws}
use axctl_c.Types.{Workspace}
use axctl_c.Types.ToJson.{
  Doubles, with_focused, focus_metadata, workspace_to_json, workspace_array_onto,
}
use axctl_c.Types.Focused.{HasFocused, workspace_form, workspace_array_onto_again}
use axctl_c.Cache.{Heap, get_workspaces}
use axctl_c.Server.{subscribe}
use axctl_c.Server.Methods.{
  Method, window, workspace, monitor, layout_set, config, system, idle, workspace_list,
  workspace_active, workspace_switch, workspace_move_to, workspace_toggle_special, system_execute,
  system_get_cursor_position, system_exit, system_switch_keyboard_layout,
  system_set_keyboard_layouts, system_get_capabilities, system_subscribe, method_of,
}
use axctl_c.Server.Backend.{Backend, Host, Server, Done}
use axctl_c.Server.Dump.{build_state_dump, subscribe_messages}
use axctl_c.Server.Dispatch.Answer.{dispatch_method}
use axctl_c.Server.Dispatch.Effect.{Leaves, effect, effect_of}
use axctl_c.Server.Dispatch.Left.{dispatch_method-Leaves}

module _ (j : JsonC) where
  -- The object at a handle is as it was; or it had no key `focused`, one of the workspaces has it as its
  -- metadata, and it has got the key with the flag of that workspace.
  pub IsFocusedBy : List Workspace → ℕ → j.Json → j.Json → Type 0
  IsFocusedBy ws h old new =
      (new ≡ old)
      ⊎ ((j.object_get old (codes "focused") ≡ none)
          × (before : List Workspace) × (w : Workspace) × (after : List Workspace) × (ws
              ≡ before ++ w ∷ after)
          × (w.metadata ≡ some h)
          × (new ≡ j.object_add old (codes "focused") (j.new_boolean w.is_active)))

  focus_metadata_cases :
      (heap : Heap j) (w : Workspace) (h : ℕ)
      → (focus_metadata j heap w h ≡ heap h)
        ⊎ ((j.object_get (heap h) (codes "focused") ≡ none)
            × (w.metadata ≡ some h)
            × (focus_metadata j heap w h
                ≡ j.object_add (heap h) (codes "focused") (j.new_boolean w.is_active)))
  unfolding focus_metadata with_focused
  focus_metadata_cases heap w h = elim (Option-cases w.metadata) [
    | inl e ↦ inl (rw (e, focus_metadata) refl)
    | inr (k, e) ↦ elim (Bool-cases (k == h)) [
      | inl y ↦ elim (Option-cases (j.object_get (heap h) (codes "focused"))) [
        | inl absent ↦ inr (
          absent,
          e ∙ ap (λ x. some x) ((==_iff k h).0 y),
          rw (e, focus_metadata) rw (y) rw (absent, with_focused) refl,
        )
        | inr (v, found) ↦ inl (rw (e, focus_metadata) rw (y) rw (found, with_focused) refl)
      ]
      | inr n ↦ inl (rw (e, focus_metadata) rw (n) refl)
    ]
  ]

  one_more :
      (w : Workspace) (ws : List Workspace) (h : ℕ) (old new : j.Json)
      → IsFocusedBy ws h old new
      → IsFocusedBy (w ∷ ws) h old new
  unfolding IsFocusedBy
  one_more w ws h old new (inl same) = inl same
  one_more w ws h old new (inr (absent, before, v, after, split, has, added)) =
      inr (absent, w ∷ before, v, after, ap (λ x. w ∷ x) split, has, added)

  module _ (laws : JsonLaws j) where
    workspace_array_onto-IsFocusedBy :
        (heap : Heap j) (a : j.Json) (ws : List Workspace) (h : ℕ)
        → IsFocusedBy ws h (heap h) ((workspace_array_onto j heap a ws).1 h)
    unfolding IsFocusedBy workspace_array_onto workspace_to_json str_eq
    workspace_array_onto-IsFocusedBy heap a [] h = inl refl
    workspace_array_onto-IsFocusedBy heap a (w ∷ ws) h =
        let heap' = focus_metadata j heap w in
        let a' : j.Json = j.array_add a (workspace_form j heap w) in
        elim (focus_metadata_cases heap w h) [
          | inl same ↦ one_more w ws h (heap h) _ (
              subst (λ o. IsFocusedBy ws h o ((workspace_array_onto j heap' a' ws).1 h)) same
                (workspace_array_onto-IsFocusedBy heap' a' ws h))
          | inr (absent, has, added) ↦
              let found : HasFocused j (heap' h) =
                subst (λ o. HasFocused j o) (sym added)
                  (_, laws.get-add (heap h) _ (codes "focused") (codes "focused")) in
              inr (
                absent,
                [],
                w,
                ws,
                refl,
                has,
                workspace_array_onto_again j laws heap' a' ws h found ∙ added,
              )
        ]

-- The methods that make forms of workspaces, and the one that subscribes.
pub data Kind : Type 0 where
  subscribes lists remaining : Kind

unfoldable pub kind : Option Method → Kind
kind none = remaining
kind (some (system system_subscribe)) = subscribes
kind (some (workspace workspace_list)) = lists
kind (some (workspace workspace_active)) = remaining
kind (some (workspace workspace_switch)) = remaining
kind (some (workspace workspace_move_to)) = remaining
kind (some (workspace workspace_toggle_special)) = remaining
kind (some (window m)) = remaining
kind (some (monitor m)) = remaining
kind (some (config m)) = remaining
kind (some (idle m)) = remaining
kind (some layout_set) = remaining
kind (some (system system_execute)) = remaining
kind (some (system system_get_cursor_position)) = remaining
kind (some (system system_exit)) = remaining
kind (some (system system_switch_keyboard_layout)) = remaining
kind (some (system system_set_keyboard_layouts)) = remaining
kind (some (system system_get_capabilities)) = remaining

module _ (j : JsonC) {D : Type 0} (s : Server j D) where
  -- The clients after a request, by the kind of its method.
  pub clients_after : ℕ → Kind → List ℕ
  clients_after fd subscribes = subscribe s.client_fds fd
  clients_after fd lists = s.client_fds
  clients_after fd remaining = s.client_fds

  -- The metadata after it.
  pub IsMetadataAfter : Kind → Heap j → Type 0
  unfolding IsFocusedBy
  IsMetadataAfter subscribes heap =
      (h : ℕ) → IsFocusedBy j (get_workspaces s.cache).items h (s.heap h) (heap h)
  IsMetadataAfter lists heap =
      (h : ℕ) → IsFocusedBy j (get_workspaces s.cache).items h (s.heap h) (heap h)
  IsMetadataAfter remaining heap = heap ≡ s.heap

module _ (j : JsonC) (laws : JsonLaws j) {D : Type 0} (d : Doubles j D) (b : Backend j)
    (s : Server j D) where
  -- What is written before the response: the state, twice.
  unfoldable pub sent_before : Kind → List j.Json
  sent_before subscribes = subscribe_messages j d (build_state_dump j d s.heap s.cache).0
  sent_before lists = []
  sent_before remaining = []

  effect-kind :
      (fd : ℕ) (m : Option Method)
      → ((effect_of j s d fd m).client_fds ≡ clients_after j s fd (kind m))
        × IsMetadataAfter j s (kind m) (effect_of j s d fd m).heap
        × ((effect_of j s d fd m).sent ≡ sent_before (kind m))
  unfolding effect_of effect kind clients_after IsMetadataAfter sent_before
  effect-kind fd none = (refl, refl, refl)
  effect-kind fd (some (system system_subscribe)) =
      (refl, workspace_array_onto-IsFocusedBy j laws s.heap _ _, refl)
  effect-kind fd (some (workspace workspace_list)) =
      (refl, workspace_array_onto-IsFocusedBy j laws s.heap _ _, refl)
  effect-kind fd (some (workspace workspace_active)) = (refl, refl, refl)
  effect-kind fd (some (workspace workspace_switch)) = (refl, refl, refl)
  effect-kind fd (some (workspace workspace_move_to)) = (refl, refl, refl)
  effect-kind fd (some (workspace workspace_toggle_special)) = (refl, refl, refl)
  effect-kind fd (some (window m)) = (refl, refl, refl)
  effect-kind fd (some (monitor m)) = (refl, refl, refl)
  effect-kind fd (some (config m)) = (refl, refl, refl)
  effect-kind fd (some (idle m)) = (refl, refl, refl)
  effect-kind fd (some layout_set) = (refl, refl, refl)
  effect-kind fd (some (system system_execute)) = (refl, refl, refl)
  effect-kind fd (some (system system_get_cursor_position)) = (refl, refl, refl)
  effect-kind fd (some (system system_exit)) = (refl, refl, refl)
  effect-kind fd (some (system system_switch_keyboard_layout)) = (refl, refl, refl)
  effect-kind fd (some (system system_set_keyboard_layouts)) = (refl, refl, refl)
  effect-kind fd (some (system system_get_capabilities)) = (refl, refl, refl)

  -- A request, if it is answered, leaves the cached records as they were, whatever it asks for. The
  -- subscribed clients are as they were too, unless its method is `System.Subscribe`, which puts the
  -- connection behind them if they are fewer than 64. The metadata objects are as they were, unless the
  -- method is `System.Subscribe` or `Workspace.List`: then each is as it was, or it is the metadata of a
  -- cached workspace, had no key `focused`, and has got it with the flag of that workspace.
  pub dispatch_method-Kept :
      (params : Option j.Json) (h : Host j) (fd : ℕ) (method : CString) (done : Done j D)
      → dispatch_method j d b h fd s method params ≡ some done
      → (done.server.cache ≡ s.cache)
        × (done.server.client_fds ≡ clients_after j s fd (kind (method_of method)))
        × IsMetadataAfter j s (kind (method_of method)) done.server.heap
  unfolding Leaves
  dispatch_method-Kept params h fd method done e =
      let left = dispatch_method-Leaves j d b s params fd h method done e in
      let by_kind = effect-kind fd (method_of method) in
      (
        left.0,
        left.1 ∙ by_kind.0,
        subst (λ heap. IsMetadataAfter j s (kind (method_of method)) heap) (sym left.2) by_kind.1,
      )

  pub dispatch_method-sent :
      (params : Option j.Json) (h : Host j) (fd : ℕ) (method : CString) (done : Done j D)
      → dispatch_method j d b h fd s method params ≡ some done
      → done.sent ≡ sent_before (kind (method_of method))
  unfolding Leaves
  dispatch_method-sent params h fd method done e =
      (dispatch_method-Leaves j d b s params fd h method done e).3
      ∙ (effect-kind fd (method_of method)).2
