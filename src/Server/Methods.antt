-- ===== src/Server/Methods.antt =====
-- src/server/server.c: the methods, as the chain of comparisons in `dispatch_method` tells them apart.
use axctl_c.Prelude.{List, [], ◌∷◌, Option, none, some, CString, codes, str_eq, if◌then◌else◌}

pub data WindowMethod : Type 0 where
  window_list window_active window_focus window_focus_dir window_close window_move : WindowMethod
  window_resize window_toggle_floating window_fullscreen window_maximize : WindowMethod
  window_pin window_toggle_group window_group_nav window_layout_prop : WindowMethod
  window_move_pixel window_move_to_workspace_silent : WindowMethod

pub data WorkspaceMethod : Type 0 where
  workspace_list workspace_active workspace_switch workspace_move_to : WorkspaceMethod
  workspace_toggle_special : WorkspaceMethod

pub data MonitorMethod : Type 0 where
  monitor_list monitor_focus monitor_move_to monitor_set_dpms : MonitorMethod

pub data ConfigMethod : Type 0 where
  config_get config_set config_apply config_batch config_keybinds_batch : ConfigMethod
  config_raw_batch config_reload config_get_animations config_bind_key : ConfigMethod
  config_unbind_key : ConfigMethod

pub data SystemMethod : Type 0 where
  system_execute system_get_cursor_position system_exit : SystemMethod
  system_switch_keyboard_layout system_set_keyboard_layouts : SystemMethod
  system_get_capabilities system_subscribe : SystemMethod

pub data IdleMethod : Type 0 where
  idle_inhibit idle_wait idle_resume_wait idle_input_idle_wait : IdleMethod
  idle_input_resume_wait idle_is_idle idle_is_input_idle idle_is_inhibited : IdleMethod
  idle_monitor_create idle_monitor_update idle_monitor_get idle_monitor_destroy : IdleMethod
  idle_inhibitor_create idle_inhibitor_set idle_inhibitor_get : IdleMethod
  idle_inhibitor_destroy idle_inhibit_system idle_is_system_inhibited : IdleMethod
  idle_app_inhibit_check idle_media_inhibit_check : IdleMethod

pub data Method : Type 0 where
  window : WindowMethod → Method
  workspace : WorkspaceMethod → Method
  monitor : MonitorMethod → Method
  layout_set : Method
  config : ConfigMethod → Method
  system : SystemMethod → Method
  idle : IdleMethod → Method

-- The names, in the order of the comparisons.
abbrev pub method_table : List (CString × Method)
method_table =
    (codes "Window.List", window window_list)
    ∷ (codes "Window.Active", window window_active)
    ∷ (codes "Window.Focus", window window_focus)
    ∷ (codes "Window.FocusDir", window window_focus_dir)
    ∷ (codes "Window.Close", window window_close)
    ∷ (codes "Window.Move", window window_move)
    ∷ (codes "Window.Resize", window window_resize)
    ∷ (codes "Window.ToggleFloating", window window_toggle_floating)
    ∷ (codes "Window.Fullscreen", window window_fullscreen)
    ∷ (codes "Window.Maximize", window window_maximize)
    ∷ (codes "Window.Pin", window window_pin)
    ∷ (codes "Window.ToggleGroup", window window_toggle_group)
    ∷ (codes "Window.GroupNav", window window_group_nav)
    ∷ (codes "Window.LayoutProp", window window_layout_prop)
    ∷ (codes "Window.MovePixel", window window_move_pixel)
    ∷ (codes "Window.MoveToWorkspaceSilent", window window_move_to_workspace_silent)
    ∷ (codes "Workspace.List", workspace workspace_list)
    ∷ (codes "Workspace.Active", workspace workspace_active)
    ∷ (codes "Workspace.Switch", workspace workspace_switch)
    ∷ (codes "Workspace.MoveTo", workspace workspace_move_to)
    ∷ (codes "Workspace.ToggleSpecial", workspace workspace_toggle_special)
    ∷ (codes "Monitor.List", monitor monitor_list)
    ∷ (codes "Monitor.Focus", monitor monitor_focus)
    ∷ (codes "Monitor.MoveTo", monitor monitor_move_to)
    ∷ (codes "Monitor.SetDpms", monitor monitor_set_dpms)
    ∷ (codes "Layout.Set", layout_set)
    ∷ (codes "Config.Get", config config_get)
    ∷ (codes "Config.Set", config config_set)
    ∷ (codes "Config.Apply", config config_apply)
    ∷ (codes "Config.Batch", config config_batch)
    ∷ (codes "Config.KeybindsBatch", config config_keybinds_batch)
    ∷ (codes "Config.RawBatch", config config_raw_batch)
    ∷ (codes "Config.Reload", config config_reload)
    ∷ (codes "Config.GetAnimations", config config_get_animations)
    ∷ (codes "Config.BindKey", config config_bind_key)
    ∷ (codes "Config.UnbindKey", config config_unbind_key)
    ∷ (codes "System.Execute", system system_execute)
    ∷ (codes "System.GetCursorPosition", system system_get_cursor_position)
    ∷ (codes "System.Exit", system system_exit)
    ∷ (codes "System.SwitchKeyboardLayout", system system_switch_keyboard_layout)
    ∷ (codes "System.SetKeyboardLayouts", system system_set_keyboard_layouts)
    ∷ (codes "System.IdleInhibit", idle idle_inhibit)
    ∷ (codes "System.IdleWait", idle idle_wait)
    ∷ (codes "System.ResumeWait", idle idle_resume_wait)
    ∷ (codes "System.InputIdleWait", idle idle_input_idle_wait)
    ∷ (codes "System.InputResumeWait", idle idle_input_resume_wait)
    ∷ (codes "System.IsIdle", idle idle_is_idle)
    ∷ (codes "System.IsInputIdle", idle idle_is_input_idle)
    ∷ (codes "System.IsInhibited", idle idle_is_inhibited)
    ∷ (codes "System.IdleMonitorCreate", idle idle_monitor_create)
    ∷ (codes "System.IdleMonitorUpdate", idle idle_monitor_update)
    ∷ (codes "System.IdleMonitorGet", idle idle_monitor_get)
    ∷ (codes "System.IdleMonitorDestroy", idle idle_monitor_destroy)
    ∷ (codes "System.IdleInhibitorCreate", idle idle_inhibitor_create)
    ∷ (codes "System.IdleInhibitorSet", idle idle_inhibitor_set)
    ∷ (codes "System.IdleInhibitorGet", idle idle_inhibitor_get)
    ∷ (codes "System.IdleInhibitorDestroy", idle idle_inhibitor_destroy)
    ∷ (codes "System.InhibitSystem", idle idle_inhibit_system)
    ∷ (codes "System.IsSystemInhibited", idle idle_is_system_inhibited)
    ∷ (codes "System.AppInhibitCheck", idle idle_app_inhibit_check)
    ∷ (codes "System.MediaInhibitCheck", idle idle_media_inhibit_check)
    ∷ (codes "System.GetCapabilities", system system_get_capabilities)
    ∷ (codes "System.Subscribe", system system_subscribe)
    ∷ []

-- The first entry with the name.
unfoldable pub find_method : List (CString × Method) → CString → Option Method
find_method [] s = none
find_method ((name, m) ∷ entries) s = if str_eq s name then some m else find_method entries s

unfoldable pub method_of : CString → Option Method
unfolding find_method
method_of s = find_method method_table s
