-- ===== src/Cli/Params.antt =====
-- src/main.c: the parameters of a request, by its method. The parser of json-c is a parameter.
use axctl_c.Prelude.{
  ℕ, ◌+◌, ◌*◌, ◌-◌, ◌&&◌, List, [], ◌∷◌, Option, none, some, CString, codes, str_eq, leb, ◌==◌,
  if◌then◌else◌, ℤ, pos, neg, get_elem?,
}
use axctl_c.Json.{JsonC}
use axctl_c.Strutil.{isspace}
use axctl_c.Idle.Checks.{string_array}
use axctl_c.Server.Methods.{
  WindowMethod, window_list, window_active, window_focus, window_focus_dir, window_close,
  window_move, window_resize, window_toggle_floating, window_fullscreen, window_maximize,
  window_pin, window_toggle_group, window_group_nav, window_layout_prop, window_move_pixel,
  window_move_to_workspace_silent, WorkspaceMethod, workspace_list, workspace_active,
  workspace_switch, workspace_move_to, workspace_toggle_special, MonitorMethod, monitor_list,
  monitor_focus, monitor_move_to, monitor_set_dpms, ConfigMethod, config_get, config_set,
  config_apply, config_batch, config_keybinds_batch, config_raw_batch, config_reload,
  config_get_animations, config_bind_key, config_unbind_key, SystemMethod, system_execute,
  system_get_cursor_position, system_exit, system_switch_keyboard_layout,
  system_set_keyboard_layouts, system_get_capabilities, system_subscribe, IdleMethod, Method,
  window, workspace, monitor, layout_set, config, system, idle, method_of,
}

-- `atoi` of the C library, where the number fits an `int`.
unfoldable pub digits_from : ℕ → CString → ℕ
digits_from n [] = n
digits_from n (c ∷ s) = if leb b'0' c && leb c b'9' then digits_from (n * 10 + (c - b'0')) s else n

unfoldable pub signed_from : CString → ℤ
unfolding digits_from
signed_from [] = pos 0
signed_from (c ∷ s) =
    if c == b'-'
    then neg (pos (digits_from 0 s))
    else if c == b'+'
    then pos (digits_from 0 s)
    else pos (digits_from 0 (c ∷ s))

unfoldable pub atoi : CString → ℤ
unfolding signed_from isspace
atoi [] = pos 0
atoi (c ∷ s) = if isspace c then atoi s else signed_from (c ∷ s)

module _ (j : JsonC) where
  -- `if (argc > n) json_object_object_add(params, key, …)`, by the kind of value.
  unfoldable pub add_text : j.Json → CString → Option CString → j.Json
  add_text o key none = o
  add_text o key (some s) = j.object_add o key (j.new_string s)

  unfoldable pub add_flag : j.Json → CString → Option CString → j.Json
  add_flag o key none = o
  add_flag o key (some s) = j.object_add o key (j.new_boolean (str_eq s (codes "1")))

  unfoldable pub add_number : j.Json → CString → Option CString → j.Json
  unfolding atoi
  add_number o key none = o
  add_number o key (some s) = j.object_add o key (j.new_int (atoi s))

  -- `if (argc > 2) { …; … }`: both of the first two arguments, or neither.
  unfoldable pub add_two :
      (j.Json → CString → Option CString → j.Json)
      → j.Json
      → CString
      → CString
      → List CString
      → j.Json
  add_two add o key key' [] = o
  add_two add o key key' (x ∷ []) = o
  add_two add o key key' (x ∷ y ∷ args) = add (add o key (some x)) key' (some y)

  module _ (parse : CString → Option j.Json) (args : List CString) where
    abbrev arg : ℕ → Option CString
    arg n = get_elem? args n

    -- One text, the first argument.
    abbrev first : CString → j.Json
    first key = add_text j.new_object key (arg 0)

    abbrev state_and_id : j.Json
    state_and_id = add_text (add_flag j.new_object (codes "state") (arg 0)) (codes "id") (arg 1)

    unfoldable pub window_params : WindowMethod → j.Json
    unfolding add_text add_flag add_number add_two
    window_params window_list = j.new_object
    window_params window_active = j.new_object
    window_params window_focus = first (codes "id")
    window_params window_focus_dir = first (codes "direction")
    window_params window_close = first (codes "id")
    window_params window_move = add_text (first (codes "direction")) (codes "id") (arg 1)
    window_params window_resize =
        add_text (add_two add_number j.new_object (codes "width") (codes "height") args)
          (codes "id") (arg 2)
    window_params window_toggle_floating = first (codes "id")
    window_params window_fullscreen = state_and_id
    window_params window_maximize = state_and_id
    window_params window_pin = state_and_id
    window_params window_toggle_group = first (codes "id")
    window_params window_group_nav = first (codes "direction")
    window_params window_layout_prop =
        add_text (add_two add_text j.new_object (codes "key") (codes "value") args) (codes "id")
          (arg 2)
    window_params window_move_pixel =
        add_text (add_two add_number j.new_object (codes "x") (codes "y") args) (codes "id") (arg 2)
    window_params window_move_to_workspace_silent =
        add_text (first (codes "workspace_id")) (codes "window_id") (arg 1)

    unfoldable pub workspace_params : WorkspaceMethod → j.Json
    unfolding add_text
    workspace_params workspace_list = j.new_object
    workspace_params workspace_active = j.new_object
    workspace_params workspace_switch = first (codes "id")
    workspace_params workspace_move_to =
        add_text (first (codes "workspace_id")) (codes "window_id") (arg 1)
    workspace_params workspace_toggle_special = first (codes "name")

    unfoldable pub monitor_params : MonitorMethod → j.Json
    unfolding add_text add_flag
    monitor_params monitor_list = j.new_object
    monitor_params monitor_focus = first (codes "id")
    monitor_params monitor_move_to =
        add_text (first (codes "monitor_id")) (codes "window_id") (arg 1)
    monitor_params monitor_set_dpms = add_flag (first (codes "monitor_id")) (codes "on") (arg 1)

    -- The bindings are added if all their arguments are there.
    unfoldable pub bind_params : List CString → j.Json
    unfolding add_text
    bind_params (mods ∷ key ∷ command ∷ rest) =
        add_text
          (add_text (add_text j.new_object (codes "mods") (some mods)) (codes "key") (some key))
          (codes "command") (some command)
    bind_params (mods ∷ key ∷ []) = j.new_object
    bind_params (mods ∷ []) = j.new_object
    bind_params [] = j.new_object

    unfoldable pub batch_params : Option CString → j.Json
    batch_params none = j.new_object
    batch_params (some text) = elim (parse text) [
      | none ↦ j.new_object
      | some configs ↦ j.object_add j.new_object (codes "configs") configs
    ]

    unfoldable pub config_params : ConfigMethod → j.Json
    unfolding add_text add_two bind_params batch_params
    config_params config_get = first (codes "key")
    config_params config_set = add_two add_text j.new_object (codes "key") (codes "value") args
    config_params config_apply = first (codes "payload")
    config_params config_batch = batch_params (arg 0)
    config_params config_keybinds_batch = first (codes "payload")
    config_params config_raw_batch = first (codes "command")
    config_params config_reload = j.new_object
    config_params config_get_animations = j.new_object
    config_params config_bind_key = bind_params args
    config_params config_unbind_key =
        add_two add_text j.new_object (codes "mods") (codes "key") args

    unfoldable pub system_params : SystemMethod → j.Json
    unfolding add_text
    system_params system_execute = first (codes "command")
    system_params system_get_cursor_position = j.new_object
    system_params system_exit = j.new_object
    system_params system_switch_keyboard_layout =
        let action : CString = elim (arg 0) [ none ↦ codes "next" | some a ↦ a ] in
        j.object_add j.new_object (codes "action") (j.new_string action)
    system_params system_set_keyboard_layouts =
        add_text (first (codes "layouts")) (codes "variants") (arg 1)
    system_params system_get_capabilities = j.new_object
    system_params system_subscribe = j.new_object

    abbrev timeout_only : j.Json
    timeout_only = add_number j.new_object (codes "timeout_ms") (arg 0)

    abbrev id_only : j.Json
    id_only = add_number j.new_object (codes "id") (arg 0)

    unfoldable pub set_params : List CString → j.Json
    unfolding add_number add_flag
    set_params (id ∷ enabled ∷ rest) =
        add_flag (add_number j.new_object (codes "id") (some id)) (codes "enabled") (some enabled)
    set_params (id ∷ []) = j.new_object
    set_params [] = j.new_object

    unfoldable pub check_params : List CString → j.Json
    unfolding string_array
    check_params [] = j.new_object
    check_params (p ∷ patterns) =
        j.object_add j.new_object (codes "patterns") (string_array j j.new_array (p ∷ patterns))

    unfoldable pub idle_params : IdleMethod → j.Json
    unfolding add_flag add_number set_params check_params
    idle_params IdleMethod.idle_inhibit = add_flag j.new_object (codes "on") (arg 0)
    idle_params IdleMethod.idle_wait = timeout_only
    idle_params IdleMethod.idle_resume_wait = timeout_only
    idle_params IdleMethod.idle_input_idle_wait = timeout_only
    idle_params IdleMethod.idle_input_resume_wait = timeout_only
    idle_params IdleMethod.idle_is_idle = timeout_only
    idle_params IdleMethod.idle_is_input_idle = timeout_only
    idle_params IdleMethod.idle_is_inhibited = j.new_object
    idle_params IdleMethod.idle_monitor_create =
        add_flag (add_flag timeout_only (codes "respect_inhibitors") (arg 1)) (codes "enabled")
          (arg 2)
    idle_params IdleMethod.idle_monitor_update =
        add_flag
          (add_flag (add_number id_only (codes "timeout_ms") (arg 1)) (codes "respect_inhibitors")
            (arg 2))
          (codes "enabled") (arg 3)
    idle_params IdleMethod.idle_monitor_get = id_only
    idle_params IdleMethod.idle_monitor_destroy = id_only
    idle_params IdleMethod.idle_inhibitor_create = add_flag j.new_object (codes "enabled") (arg 0)
    idle_params IdleMethod.idle_inhibitor_set = set_params args
    idle_params IdleMethod.idle_inhibitor_get = id_only
    idle_params IdleMethod.idle_inhibitor_destroy = id_only
    idle_params IdleMethod.idle_inhibit_system = add_flag j.new_object (codes "on") (arg 0)
    idle_params IdleMethod.idle_is_system_inhibited = j.new_object
    idle_params IdleMethod.idle_app_inhibit_check = check_params args
    idle_params IdleMethod.idle_media_inhibit_check = j.new_object

    unfoldable pub method_params : Method → j.Json
    unfolding window_params workspace_params monitor_params config_params system_params idle_params
    method_params (window m) = window_params m
    method_params (workspace m) = workspace_params m
    method_params (monitor m) = monitor_params m
    method_params layout_set = first (codes "name")
    method_params (config m) = config_params m
    method_params (system m) = system_params m
    method_params (idle m) = idle_params m

    -- A method that no comparison names has no parameters.
    unfoldable pub rpc_params : CString → j.Json
    unfolding method_params
    rpc_params method = elim (method_of method) [ none ↦ j.new_object | some m ↦ method_params m ]
