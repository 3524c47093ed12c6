-- ===== src/Server/Names.antt =====
-- The methods and their names.
use axctl_c.Prelude.{
  ◌≡◌, ◌↔◌, refl, List, [], ◌∷◌, some, Bool, true, ◌&&◌, arith, CString, codes, str_eq, str_eq_iff,
}
use axctl_c.Server.Methods.{
  Method, window, workspace, monitor, layout_set, config, system, idle, method_table, find_method,
  method_of, WindowMethod, WorkspaceMethod, MonitorMethod, ConfigMethod, SystemMethod, IdleMethod,
  window_list, window_active, window_focus, window_focus_dir, window_close, window_move,
  window_resize, window_toggle_floating, window_fullscreen, window_maximize, window_pin,
  window_toggle_group, window_group_nav, window_layout_prop, window_move_pixel,
  window_move_to_workspace_silent, workspace_list, workspace_active, workspace_switch,
  workspace_move_to, workspace_toggle_special, monitor_list, monitor_focus, monitor_move_to,
  monitor_set_dpms, config_get, config_set, config_apply, config_batch, config_keybinds_batch,
  config_raw_batch, config_reload, config_get_animations, config_bind_key, config_unbind_key,
  system_execute, system_get_cursor_position, system_exit, system_switch_keyboard_layout,
  system_set_keyboard_layouts, system_get_capabilities, system_subscribe, idle_inhibit, idle_wait,
  idle_resume_wait, idle_input_idle_wait, idle_input_resume_wait, idle_is_idle, idle_is_input_idle,
  idle_is_inhibited, idle_monitor_create, idle_monitor_update, idle_monitor_get,
  idle_monitor_destroy, idle_inhibitor_create, idle_inhibitor_set, idle_inhibitor_get,
  idle_inhibitor_destroy, idle_inhibit_system, idle_is_system_inhibited, idle_app_inhibit_check,
  idle_media_inhibit_check,
}

unfoldable pub window_name : WindowMethod → CString
window_name window_list = codes "Window.List"
window_name window_active = codes "Window.Active"
window_name window_focus = codes "Window.Focus"
window_name window_focus_dir = codes "Window.FocusDir"
window_name window_close = codes "Window.Close"
window_name window_move = codes "Window.Move"
window_name window_resize = codes "Window.Resize"
window_name window_toggle_floating = codes "Window.ToggleFloating"
window_name window_fullscreen = codes "Window.Fullscreen"
window_name window_maximize = codes "Window.Maximize"
window_name window_pin = codes "Window.Pin"
window_name window_toggle_group = codes "Window.ToggleGroup"
window_name window_group_nav = codes "Window.GroupNav"
window_name window_layout_prop = codes "Window.LayoutProp"
window_name window_move_pixel = codes "Window.MovePixel"
window_name window_move_to_workspace_silent = codes "Window.MoveToWorkspaceSilent"

unfoldable pub workspace_name : WorkspaceMethod → CString
workspace_name workspace_list = codes "Workspace.List"
workspace_name workspace_active = codes "Workspace.Active"
workspace_name workspace_switch = codes "Workspace.Switch"
workspace_name workspace_move_to = codes "Workspace.MoveTo"
workspace_name workspace_toggle_special = codes "Workspace.ToggleSpecial"

unfoldable pub monitor_name : MonitorMethod → CString
monitor_name monitor_list = codes "Monitor.List"
monitor_name monitor_focus = codes "Monitor.Focus"
monitor_name monitor_move_to = codes "Monitor.MoveTo"
monitor_name monitor_set_dpms = codes "Monitor.SetDpms"

unfoldable pub config_name : ConfigMethod → CString
config_name config_get = codes "Config.Get"
config_name config_set = codes "Config.Set"
config_name config_apply = codes "Config.Apply"
config_name config_batch = codes "Config.Batch"
config_name config_keybinds_batch = codes "Config.KeybindsBatch"
config_name config_raw_batch = codes "Config.RawBatch"
config_name config_reload = codes "Config.Reload"
config_name config_get_animations = codes "Config.GetAnimations"
config_name config_bind_key = codes "Config.BindKey"
config_name config_unbind_key = codes "Config.UnbindKey"

unfoldable pub system_name : SystemMethod → CString
system_name system_execute = codes "System.Execute"
system_name system_get_cursor_position = codes "System.GetCursorPosition"
system_name system_exit = codes "System.Exit"
system_name system_switch_keyboard_layout = codes "System.SwitchKeyboardLayout"
system_name system_set_keyboard_layouts = codes "System.SetKeyboardLayouts"
system_name system_get_capabilities = codes "System.GetCapabilities"
system_name system_subscribe = codes "System.Subscribe"

unfoldable pub idle_name : IdleMethod → CString
idle_name idle_inhibit = codes "System.IdleInhibit"
idle_name idle_wait = codes "System.IdleWait"
idle_name idle_resume_wait = codes "System.ResumeWait"
idle_name idle_input_idle_wait = codes "System.InputIdleWait"
idle_name idle_input_resume_wait = codes "System.InputResumeWait"
idle_name idle_is_idle = codes "System.IsIdle"
idle_name idle_is_input_idle = codes "System.IsInputIdle"
idle_name idle_is_inhibited = codes "System.IsInhibited"
idle_name idle_monitor_create = codes "System.IdleMonitorCreate"
idle_name idle_monitor_update = codes "System.IdleMonitorUpdate"
idle_name idle_monitor_get = codes "System.IdleMonitorGet"
idle_name idle_monitor_destroy = codes "System.IdleMonitorDestroy"
idle_name idle_inhibitor_create = codes "System.IdleInhibitorCreate"
idle_name idle_inhibitor_set = codes "System.IdleInhibitorSet"
idle_name idle_inhibitor_get = codes "System.IdleInhibitorGet"
idle_name idle_inhibitor_destroy = codes "System.IdleInhibitorDestroy"
idle_name idle_inhibit_system = codes "System.InhibitSystem"
idle_name idle_is_system_inhibited = codes "System.IsSystemInhibited"
idle_name idle_app_inhibit_check = codes "System.AppInhibitCheck"
idle_name idle_media_inhibit_check = codes "System.MediaInhibitCheck"

unfoldable pub method_name : Method → CString
unfolding window_name workspace_name monitor_name config_name system_name idle_name
method_name (window m) = window_name m
method_name (workspace m) = workspace_name m
method_name (monitor m) = monitor_name m
method_name layout_set = codes "Layout.Set"
method_name (config m) = config_name m
method_name (system m) = system_name m
method_name (idle m) = idle_name m

method_of-window_name : (m : WindowMethod) → method_of (window_name m) ≡ some (window m)
unfolding method_of str_eq window_name
method_of-window_name window_list = refl
method_of-window_name window_active = refl
method_of-window_name window_focus = refl
method_of-window_name window_focus_dir = refl
method_of-window_name window_close = refl
method_of-window_name window_move = refl
method_of-window_name window_resize = refl
method_of-window_name window_toggle_floating = refl
method_of-window_name window_fullscreen = refl
method_of-window_name window_maximize = refl
method_of-window_name window_pin = refl
method_of-window_name window_toggle_group = refl
method_of-window_name window_group_nav = refl
method_of-window_name window_layout_prop = refl
method_of-window_name window_move_pixel = refl
method_of-window_name window_move_to_workspace_silent = refl

method_of-workspace_name : (m : WorkspaceMethod) → method_of (workspace_name m) ≡ some (workspace m)
unfolding method_of str_eq workspace_name
method_of-workspace_name workspace_list = refl
method_of-workspace_name workspace_active = refl
method_of-workspace_name workspace_switch = refl
method_of-workspace_name workspace_move_to = refl
method_of-workspace_name workspace_toggle_special = refl

method_of-monitor_name : (m : MonitorMethod) → method_of (monitor_name m) ≡ some (monitor m)
unfolding method_of str_eq monitor_name
method_of-monitor_name monitor_list = refl
method_of-monitor_name monitor_focus = refl
method_of-monitor_name monitor_move_to = refl
method_of-monitor_name monitor_set_dpms = refl

method_of-config_name : (m : ConfigMethod) → method_of (config_name m) ≡ some (config m)
unfolding method_of str_eq config_name
method_of-config_name config_get = refl
method_of-config_name config_set = refl
method_of-config_name config_apply = refl
method_of-config_name config_batch = refl
method_of-config_name config_keybinds_batch = refl
method_of-config_name config_raw_batch = refl
method_of-config_name config_reload = refl
method_of-config_name config_get_animations = refl
method_of-config_name config_bind_key = refl
method_of-config_name config_unbind_key = refl

method_of-system_name : (m : SystemMethod) → method_of (system_name m) ≡ some (system m)
unfolding method_of str_eq system_name
method_of-system_name system_execute = refl
method_of-system_name system_get_cursor_position = refl
method_of-system_name system_exit = refl
method_of-system_name system_switch_keyboard_layout = refl
method_of-system_name system_set_keyboard_layouts = refl
method_of-system_name system_get_capabilities = refl
method_of-system_name system_subscribe = refl

method_of-idle_name : (m : IdleMethod) → method_of (idle_name m) ≡ some (idle m)
unfolding method_of str_eq idle_name
method_of-idle_name idle_inhibit = refl
method_of-idle_name idle_wait = refl
method_of-idle_name idle_resume_wait = refl
method_of-idle_name idle_input_idle_wait = refl
method_of-idle_name idle_input_resume_wait = refl
method_of-idle_name idle_is_idle = refl
method_of-idle_name idle_is_input_idle = refl
method_of-idle_name idle_is_inhibited = refl
method_of-idle_name idle_monitor_create = refl
method_of-idle_name idle_monitor_update = refl
method_of-idle_name idle_monitor_get = refl
method_of-idle_name idle_monitor_destroy = refl
method_of-idle_name idle_inhibitor_create = refl
method_of-idle_name idle_inhibitor_set = refl
method_of-idle_name idle_inhibitor_get = refl
method_of-idle_name idle_inhibitor_destroy = refl
method_of-idle_name idle_inhibit_system = refl
method_of-idle_name idle_is_system_inhibited = refl
method_of-idle_name idle_app_inhibit_check = refl
method_of-idle_name idle_media_inhibit_check = refl

method_of-method_name : (m : Method) → method_of (method_name m) ≡ some m
unfolding method_name
method_of-method_name (window m) = method_of-window_name m
method_of-method_name (workspace m) = method_of-workspace_name m
method_of-method_name (monitor m) = method_of-monitor_name m
method_of-method_name layout_set = unfold method_of str_eq in refl
method_of-method_name (config m) = method_of-config_name m
method_of-method_name (system m) = method_of-system_name m
method_of-method_name (idle m) = method_of-idle_name m

-- Every entry of a table has the name of its method, as a test.
are_names : List (CString × Method) → Bool
are_names [] = true
are_names ((name, m) ∷ entries) = str_eq name (method_name m) && are_names entries

find_method_sound :
    (entries : List (CString × Method)) (s : CString) (m : Method)
    → are_names entries ≡ true
    → find_method entries s ≡ some m
    → s ≡ method_name m
unfolding find_method are_names
find_method_sound [] s m h e = cc
find_method_sound ((name, n) ∷ entries) s m h e =
    ground
      (arith, str_eq_iff s name, str_eq_iff name (method_name n), find_method_sound entries s m)

method_table_named : are_names method_table ≡ true
unfolding are_names method_name str_eq
method_table_named = refl

-- A name is that of a method exactly when the chain of comparisons stops there: it finds each method
-- by its name, and no method by any other text.
pub method_of_iff : (s : CString) (m : Method) → (method_of s ≡ some m) ↔ (s ≡ method_name m)
method_of_iff s m = (
  λ e. unfold method_of in find_method_sound method_table s m method_table_named e,
  λ e. rw e (method_of-method_name m),
)
