-- ===== src/Server/Dispatch.antt =====
-- src/server/server.c: `dispatch_method` for windows, workspaces, monitors, the layout, the configuration
-- and the system. The children have the idle methods and the answer to a request.
pub mod Idle
pub mod Answer
pub mod Silent
pub mod Effect
mod Quiet
pub mod Left
pub mod Kept
use axctl_c.Prelude.{
  ℕ, Bool, true, false, List, [], ◌∷◌, ◌++◌, Option, none, some, CString, codes, ℤ, pos,
}
use axctl_c.Json.{JsonC}
use axctl_c.Json.Helpers.{string_or_empty, param_str, param_str_safe, param_int, param_bool}
use axctl_c.Errors.{set_error}
use axctl_c.Types.ToJson.{
  Doubles, object_with, window_array_onto, workspace_to_json, workspace_array_onto,
  monitor_array_onto, capabilities_to_json, add_all,
}
use axctl_c.Cache.{get_windows, get_workspaces, get_monitors}
use axctl_c.Server.{subscribe}
use axctl_c.Server.Dump.{build_state_dump, subscribe_messages}
use axctl_c.Server.Methods.{
  WindowMethod, window_list, window_active, window_focus, window_focus_dir, window_close,
  window_move, window_resize, window_toggle_floating, window_fullscreen, window_maximize,
  window_pin, window_toggle_group, window_group_nav, window_layout_prop, window_move_pixel,
  window_move_to_workspace_silent, WorkspaceMethod, workspace_list, workspace_active,
  workspace_switch, workspace_move_to, workspace_toggle_special, MonitorMethod, monitor_list,
  monitor_focus, monitor_move_to, monitor_set_dpms, ConfigMethod, config_get, config_set,
  config_apply, config_batch, config_keybinds_batch, config_raw_batch, config_reload,
  config_get_animations, config_bind_key, config_unbind_key, SystemMethod, system_execute,
  system_get_cursor_position, system_exit, system_switch_keyboard_layout,
  system_set_keyboard_layouts, system_get_capabilities, system_subscribe,
}
use axctl_c.Server.Backend.{
  Call, active_window, focus_window, focus_dir, close_window, move_window, resize_window,
  toggle_floating, set_fullscreen, set_maximized, pin_window, toggle_group, group_nav,
  set_layout_property, move_window_pixel, active_workspace, switch_workspace, move_to_workspace,
  move_to_workspace_silent, toggle_special_workspace, focus_monitor, move_to_monitor, set_dpms,
  set_layout, get_config, set_config, apply_config, batch_config, batch_keybinds, raw_batch,
  reload_config, get_animations, get_cursor_position, bind_key, unbind_key, execute,
  compositor_exit, switch_keyboard_layout, set_keyboard_layouts, get_capabilities, Backend, Server,
  Done, plain, perform,
}

module _ (j : JsonC) where
  -- `resolve_id`: the id, and the call made for it.
  unfoldable pub resolve_id : Backend j → Option CString → CString × List (Call j)
  resolve_id b (some (c ∷ id)) = (c ∷ id, [])
  resolve_id b (some []) =
      (elim b.active_id [ none ↦ [] | some active ↦ active ], active_window ∷ [])
  resolve_id b none = (elim b.active_id [ none ↦ [] | some active ↦ active ], active_window ∷ [])

module _ (j : JsonC) {D : Type 0} where
  module _ (b : Backend j) (s : Server j D) (params : Option j.Json) where
    -- A call with no result.
    abbrev asks : Call j → Done j D
    asks call = perform j b s [] call none

    -- A call on the window of a key, or on the active one.
    unfoldable pub on_window : CString → (CString → Call j) → Done j D
    unfolding perform resolve_id param_str
    on_window key call =
        let (id, before) = resolve_id j b (param_str j params key) in
        perform j b s before (call id) none

    unfoldable pub window_method : WindowMethod → Done j D
    unfolding perform on_window param_str param_str_safe param_int param_bool window_array_onto
        string_or_empty add_all get_windows
    window_method window_list =
        plain j s false (some (window_array_onto j s.heap j.new_array (get_windows s.cache).items))
    window_method window_active =
        perform j b s [] active_window
          (some (object_with j ((codes "id", string_or_empty j b.active_id) ∷ [])))
    window_method window_focus = asks (focus_window (param_str j params (codes "id")))
    window_method window_focus_dir = asks (focus_dir (param_str_safe j params (codes "direction")))
    window_method window_close = on_window (codes "id") (λ id. close_window id)
    window_method window_move =
        on_window (codes "id") (λ id. move_window id (param_str_safe j params (codes "direction")))
    window_method window_resize = on_window (codes "id") (λ id.
        resize_window id (param_int j params (codes "width") (pos 0))
          (param_int j params (codes "height") (pos 0)))
    window_method window_toggle_floating = on_window (codes "id") (λ id. toggle_floating id)
    window_method window_fullscreen =
        on_window (codes "id") (λ id. set_fullscreen id (param_bool j params (codes "state") false))
    window_method window_maximize =
        on_window (codes "id") (λ id. set_maximized id (param_bool j params (codes "state") false))
    window_method window_pin =
        on_window (codes "id") (λ id. pin_window id (param_bool j params (codes "state") false))
    window_method window_toggle_group = on_window (codes "id") (λ id. toggle_group id)
    window_method window_group_nav = asks (group_nav (param_str_safe j params (codes "direction")))
    window_method window_layout_prop = on_window (codes "id") (λ id.
        set_layout_property id (param_str j params (codes "key"))
          (param_str j params (codes "value")))
    window_method window_move_pixel = on_window (codes "id") (λ id.
        move_window_pixel id (param_int j params (codes "x") (pos 0))
          (param_int j params (codes "y") (pos 0)))
    window_method window_move_to_workspace_silent =
        on_window (codes "window_id")
          (λ id. move_to_workspace_silent id (param_str j params (codes "workspace_id")))

    unfoldable pub workspace_method : WorkspaceMethod → Done j D
    unfolding perform on_window param_str workspace_array_onto workspace_to_json get_workspaces
    workspace_method workspace_list =
        let (a, heap') = workspace_array_onto j s.heap j.new_array (get_workspaces s.cache).items in
        plain j (record s { heap = heap' }) false (some a)
    workspace_method workspace_active =
        perform j b s [] active_workspace (some (workspace_to_json j s.heap b.workspace).0)
    workspace_method workspace_switch = asks (switch_workspace (param_str j params (codes "id")))
    workspace_method workspace_move_to =
        on_window (codes "window_id")
          (λ id. move_to_workspace id (param_str j params (codes "workspace_id")))
    workspace_method workspace_toggle_special =
        asks (toggle_special_workspace (param_str j params (codes "name")))

    unfoldable pub monitor_method : Doubles j D → MonitorMethod → Done j D
    unfolding perform on_window param_str param_bool monitor_array_onto get_monitors
    monitor_method d monitor_list =
        plain j s false
          (some (monitor_array_onto j d s.heap j.new_array (get_monitors s.cache).items))
    monitor_method d monitor_focus = asks (focus_monitor (param_str j params (codes "id")))
    monitor_method d monitor_move_to =
        on_window (codes "window_id")
          (λ id. move_to_monitor id (param_str j params (codes "monitor_id")))
    monitor_method d monitor_set_dpms =
        asks (
          set_dpms (param_str j params (codes "monitor_id"))
            (param_bool j params (codes "on") true))

    unfoldable pub layout_set_method : Done j D
    unfolding perform param_str
    layout_set_method = asks (set_layout (param_str j params (codes "name")))

    -- The value of a key of the parameters, which may be NULL.
    unfoldable pub param_get : CString → Option j.Json
    param_get key = elim params [ none ↦ none | some o ↦ j.object_get o key ]

    unfoldable pub config_method : ConfigMethod → Done j D
    unfolding perform param_str param_str_safe param_get set_error
    config_method config_get =
        let key = param_str j params (codes "key") in
        record (asks (get_config key)) { result = b.config_value key }
    config_method config_set =
        let val : Option CString = elim (param_get (codes "value")) [
          | none ↦ some []
          | some v ↦ j.get_string v
        ] in
        asks (set_config (param_str j params (codes "key")) val)
    config_method config_apply = elim (param_str j params (codes "payload")) [
      | none ↦ plain j (record s { error = set_error s.error (codes "missing payload") }) true none
      | some payload ↦ asks (apply_config payload)
    ]
    config_method config_batch = elim (param_get (codes "configs")) [
      | none ↦ plain j s false none
      | some configs ↦ asks (batch_config configs)
    ]
    config_method config_keybinds_batch =
        asks (batch_keybinds (param_str j params (codes "payload")))
    config_method config_raw_batch = asks (raw_batch (param_str j params (codes "command")))
    config_method config_reload = asks reload_config
    config_method config_get_animations = record (asks get_animations) { result = b.animations }
    config_method config_bind_key = asks (
        bind_key (param_str_safe j params (codes "mods")) (param_str_safe j params (codes "key"))
          (param_str_safe j params (codes "command")))
    config_method config_unbind_key = asks (
        unbind_key (param_str_safe j params (codes "mods")) (param_str_safe j params (codes "key")))

    -- `System.Subscribe` also writes the state to the client; making its forms adds keys to metadata.
    unfoldable pub system_method : Doubles j D → ℕ → SystemMethod → Done j D
    unfolding perform param_str add_all capabilities_to_json subscribe build_state_dump
        subscribe_messages
    system_method d client_fd system_execute = asks (execute (param_str j params (codes "command")))
    system_method d client_fd system_get_cursor_position = perform j b s [] get_cursor_position (
        some (
          object_with j
            ((codes "x", j.new_int b.cursor.0) ∷ (codes "y", j.new_int b.cursor.1) ∷ [])))
    system_method d client_fd system_exit = asks compositor_exit
    system_method d client_fd system_switch_keyboard_layout =
        let action : CString = elim (param_str j params (codes "action")) [
          | none ↦ codes "next"
          | some a ↦ a
        ] in
        asks (switch_keyboard_layout action)
    system_method d client_fd system_set_keyboard_layouts = asks (
        set_keyboard_layouts (param_str j params (codes "layouts"))
          (param_str j params (codes "variants")))
    system_method d client_fd system_get_capabilities =
        perform j b s [] get_capabilities (some (capabilities_to_json j b.capabilities))
    system_method d client_fd system_subscribe =
        let (state, heap') = build_state_dump j d s.heap s.cache in
        record (plain j (record s { heap = heap'; client_fds = subscribe s.client_fds client_fd })
          false (some (j.new_string (codes "subscribed")))) { sent = subscribe_messages j d state }
