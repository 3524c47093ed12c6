-- ===== src/Server/Dispatch/Quiet.antt =====
-- The methods that only make calls of the compositor leave the cache, the subscribed clients and the
-- metadata as they were, and write nothing before the response.
use axctl_c.Prelude.{
  ℕ, Bool, true, false, List, [], ◌∷◌, ◌++◌, Option, none, some, CString, codes, pos,
}
use axctl_c.Json.{JsonC}
use axctl_c.Json.Helpers.{param_str, param_str_safe, param_int, param_bool}
use axctl_c.Errors.{set_error}
use axctl_c.Types.ToJson.{Doubles}
use axctl_c.Server.Methods.{
  WindowMethod, window_list, window_active, window_focus, window_focus_dir, window_close,
  window_move, window_resize, window_toggle_floating, window_fullscreen, window_maximize,
  window_pin, window_toggle_group, window_group_nav, window_layout_prop, window_move_pixel,
  window_move_to_workspace_silent, WorkspaceMethod, workspace_list, workspace_active,
  workspace_switch, workspace_move_to, workspace_toggle_special, MonitorMethod, monitor_list,
  monitor_focus, monitor_move_to, monitor_set_dpms, ConfigMethod, config_get, config_set,
  config_apply, config_batch, config_keybinds_batch, config_raw_batch, config_reload,
  config_get_animations, config_bind_key, config_unbind_key,
}
use axctl_c.Server.Backend.{
  Call, close_window, move_window, resize_window, toggle_floating, set_fullscreen, set_maximized,
  pin_window, toggle_group, set_layout_property, move_window_pixel, move_to_workspace,
  move_to_workspace_silent, move_to_monitor, get_config, apply_config, batch_config, get_animations,
  Backend, Server, Done, plain, perform,
}
use axctl_c.Prelude.{◌≡◌, refl, ◌∙◌}
use axctl_c.Server.Backend.{note, note_all}
use axctl_c.Server.Dispatch.{
  resolve_id, on_window, window_method, workspace_method, monitor_method, config_method,
}
use axctl_c.Server.Methods.{workspace}
use axctl_c.Server.Dispatch.Effect.{unchanged, listed, Leaves, effect}

module _ (j : JsonC) {D : Type 0} where
  unfoldable pub Kept : Server j D → Server j D → Type 0
  Kept s s' = (s'.cache ≡ s.cache) × (s'.client_fds ≡ s.client_fds) × (s'.heap ≡ s.heap)

  note-Kept : (s : Server j D) (message : Option CString) → Kept s (note j s message)
  unfolding Kept note
  note-Kept s none = (refl, refl, refl)
  note-Kept s (some message) = (refl, refl, refl)

  note_all-Kept :
      (b : Backend j) (s : Server j D) (calls : List (Call j)) → Kept s (note_all j b s calls)
  unfolding Kept note_all
  note_all-Kept b s [] = (refl, refl, refl)
  note_all-Kept b s (call ∷ calls) =
      let first = note-Kept s (b.reply call).error in
      let rest = note_all-Kept b (note j s (b.reply call).error) calls in
      (rest.0 ∙ first.0, rest.1 ∙ first.1, rest.2 ∙ first.2)

  module _ (b : Backend j) (s : Server j D) (params : Option j.Json) where
    abbrev pub Quiet : Done j D → Type 0
    Quiet done = Leaves j s (unchanged j s) done

    pub perform-Quiet :
        (before : List (Call j)) (call : Call j) (result : Option j.Json)
        → Quiet (perform j b s before call result)
    unfolding perform Leaves Kept
    perform-Quiet before call result =
        let kept = note_all-Kept b s (before ++ call ∷ []) in (kept.0, kept.1, kept.2, refl)

    on_window-Quiet :
        (key : CString) (call : CString → Call j) → Quiet (on_window j b s params key call)
    unfolding on_window
    on_window-Quiet key call =
        let (id, before) = resolve_id j b (param_str j params key) in
        perform-Quiet before (call id) none

    result-Quiet :
        (done : Done j D) (r : Option j.Json) → Quiet done → Quiet (record done { result = r })
    unfolding Leaves
    result-Quiet done r quiet = quiet

    same-Quiet :
        (s' : Server j D)
        → Kept s s'
        → (failed : Bool) (result : Option j.Json) → Quiet (plain j s' failed result)
    unfolding Leaves Kept
    same-Quiet s' kept failed result = (kept.0, kept.1, kept.2, refl)

    pub window_method-Quiet : (m : WindowMethod) → Quiet (window_method j b s params m)
    unfolding window_method Kept
    window_method-Quiet window_list = same-Quiet s (refl, refl, refl) _ _
    window_method-Quiet window_active = perform-Quiet [] _ _
    window_method-Quiet window_focus = perform-Quiet [] _ _
    window_method-Quiet window_focus_dir = perform-Quiet [] _ _
    window_method-Quiet window_close = on_window-Quiet (codes "id") (λ id. close_window id)
    window_method-Quiet window_move =
        on_window-Quiet (codes "id")
          (λ id. move_window id (param_str_safe j params (codes "direction")))
    window_method-Quiet window_resize = on_window-Quiet (codes "id") (λ id.
        resize_window id (param_int j params (codes "width") (pos 0))
          (param_int j params (codes "height") (pos 0)))
    window_method-Quiet window_toggle_floating =
        on_window-Quiet (codes "id") (λ id. toggle_floating id)
    window_method-Quiet window_fullscreen =
        on_window-Quiet (codes "id")
          (λ id. set_fullscreen id (param_bool j params (codes "state") false))
    window_method-Quiet window_maximize =
        on_window-Quiet (codes "id")
          (λ id. set_maximized id (param_bool j params (codes "state") false))
    window_method-Quiet window_pin =
        on_window-Quiet (codes "id")
          (λ id. pin_window id (param_bool j params (codes "state") false))
    window_method-Quiet window_toggle_group = on_window-Quiet (codes "id") (λ id. toggle_group id)
    window_method-Quiet window_group_nav = perform-Quiet [] _ _
    window_method-Quiet window_layout_prop = on_window-Quiet (codes "id") (λ id.
        set_layout_property id (param_str j params (codes "key"))
          (param_str j params (codes "value")))
    window_method-Quiet window_move_pixel = on_window-Quiet (codes "id") (λ id.
        move_window_pixel id (param_int j params (codes "x") (pos 0))
          (param_int j params (codes "y") (pos 0)))
    window_method-Quiet window_move_to_workspace_silent =
        on_window-Quiet (codes "window_id")
          (λ id. move_to_workspace_silent id (param_str j params (codes "workspace_id")))

    list-Leaves :
        (failed : Bool) (result : Option j.Json)
        → Leaves j s
            (record (unchanged j s) { heap = listed j s })
            (plain j (record s { heap = listed j s }) failed result)
    unfolding Leaves
    list-Leaves failed result = (refl, refl, refl, refl)

    pub workspace_method-Leaves :
        (d : Doubles j D) (fd : ℕ) (m : WorkspaceMethod)
        → Leaves j s (effect j s d fd (workspace m)) (workspace_method j b s params m)
    unfolding workspace_method effect
    workspace_method-Leaves d fd workspace_list = list-Leaves _ _
    workspace_method-Leaves d fd workspace_active = perform-Quiet [] _ _
    workspace_method-Leaves d fd workspace_switch = perform-Quiet [] _ _
    workspace_method-Leaves d fd workspace_move_to =
        on_window-Quiet (codes "window_id")
          (λ id. move_to_workspace id (param_str j params (codes "workspace_id")))
    workspace_method-Leaves d fd workspace_toggle_special = perform-Quiet [] _ _

    pub monitor_method-Quiet :
        (d : Doubles j D) (m : MonitorMethod) → Quiet (monitor_method j b s params d m)
    unfolding monitor_method Kept
    monitor_method-Quiet d monitor_list = same-Quiet s (refl, refl, refl) _ _
    monitor_method-Quiet d monitor_focus = perform-Quiet [] _ _
    monitor_method-Quiet d monitor_move_to =
        on_window-Quiet (codes "window_id")
          (λ id. move_to_monitor id (param_str j params (codes "monitor_id")))
    monitor_method-Quiet d monitor_set_dpms = perform-Quiet [] _ _

    apply-Quiet :
        (payload : Option CString)
        → Quiet (elim payload [
          | none ↦
              plain j (record s { error = set_error s.error (codes "missing payload") }) true none
          | some p ↦ perform j b s [] (apply_config p) none
        ])
    unfolding Kept
    apply-Quiet none =
        same-Quiet (record s { error = set_error s.error (codes "missing payload") })
          (refl, refl, refl) _ _
    apply-Quiet (some p) = perform-Quiet [] _ _

    batch-Quiet :
        (configs : Option j.Json)
        → Quiet (elim configs [
          | none ↦ plain j s false none
          | some c ↦ perform j b s [] (batch_config c) none
        ])
    unfolding Kept
    batch-Quiet none = same-Quiet s (refl, refl, refl) _ _
    batch-Quiet (some c) = perform-Quiet [] _ _

    pub config_method-Quiet : (m : ConfigMethod) → Quiet (config_method j b s params m)
    unfolding config_method
    config_method-Quiet config_get = result-Quiet _ _ (perform-Quiet [] (get_config _) none)
    config_method-Quiet config_set = perform-Quiet [] _ _
    config_method-Quiet config_apply = apply-Quiet _
    config_method-Quiet config_batch = batch-Quiet _
    config_method-Quiet config_keybinds_batch = perform-Quiet [] _ _
    config_method-Quiet config_raw_batch = perform-Quiet [] _ _
    config_method-Quiet config_reload = perform-Quiet [] _ _
    config_method-Quiet config_get_animations =
        result-Quiet _ _ (perform-Quiet [] get_animations none)
    config_method-Quiet config_bind_key = perform-Quiet [] _ _
    config_method-Quiet config_unbind_key = perform-Quiet [] _ _
