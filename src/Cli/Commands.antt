-- ===== src/Cli/Commands.antt =====
-- src/main.c and src/server/server.c together: what a command on the command line asks the compositor
-- for, by way of the request that the client makes of it and the server's handling of that.
mod Reads
mod Asked
mod Named
mod Plain
mod States
mod Settings
mod Waits
pub mod Handled
use axctl_c.Prelude.{
  ℕ, ◌≡◌, refl, sym, ap, ◌∙◌, Bool, true, false, List, [], ◌∷◌, ◌++◌, Option, none, some, CString,
  codes, str_eq, pos, ℤ, if◌then◌else◌, Option-cases, Bool-cases, inl, inr, arith,
}
use axctl_c.Json.{JsonC, JsonLaws}
use axctl_c.Json.Helpers.{param_str, param_str_safe, param_int, param_bool}
use axctl_c.Types.ToJson.{Doubles}
use axctl_c.Server.Methods.{
  Method, window, workspace, monitor, layout_set, config, system, method_of, window_focus,
  window_focus_dir, window_close, window_move, window_resize, window_toggle_floating,
  window_fullscreen, workspace_switch, workspace_move_to, workspace_toggle_special, monitor_focus,
  monitor_move_to, monitor_set_dpms, config_set, config_reload, system_execute,
}
use axctl_c.Server.Backend.{
  Call, active_window, focus_window, focus_dir, close_window, move_window, resize_window,
  toggle_floating, set_fullscreen, switch_workspace, move_to_workspace, toggle_special_workspace,
  focus_monitor, move_to_monitor, set_dpms, set_layout, set_config, reload_config, execute, Backend,
  Host, Server, Done, perform, active_workspace, set_maximized, pin_window, toggle_group, group_nav,
  set_layout_property, move_window_pixel, move_to_workspace_silent, get_config, batch_config,
  apply_config, bind_key, unbind_key, get_cursor_position, get_capabilities, switch_keyboard_layout,
  compositor_exit,
}
use axctl_c.Server.Dispatch.{
  resolve_id, on_window, window_method, workspace_method, monitor_method, layout_set_method,
  config_method, system_method, param_get,
}
use axctl_c.Server.Dispatch.Answer.{
  method_text, run_method, error_result, dispatch_method, handle_request,
}
use axctl_c.Cli.{Run, rpc, main, method_for, request_for}
use axctl_c.Cli.Params.{
  atoi, add_text, add_flag, add_number, add_two, method_params, window_params, workspace_params,
  monitor_params, config_params, system_params, rpc_params,
}

-- Commands as the usage describes them; a window that is not named is the active one.
pub data Command : Type 0 where
  focus towards : CString → Command
  close float : Option CString → Command
  move : CString → Option CString → Command
  resize : CString → CString → Option CString → Command
  fullscreen : CString → Option CString → Command
  switch : CString → Command
  toggle_special : Option CString → Command
  to_workspace to_monitor : CString → Option CString → Command
  look_at layout run : CString → Command
  dpms : CString → CString → Command
  set : CString → CString → Command
  reload : Command
  list_windows list_workspaces list_monitors ask_window ask_workspace : Command
  maximize pin : CString → Option CString → Command
  group : Option CString → Command
  towards_tab : CString → Command
  layout_prop move_pixel : CString → CString → Option CString → Command
  silently : CString → Option CString → Command
  get_key batch apply_payload : CString → Command
  bind : CString → CString → CString → Command
  unbind : CString → CString → Command
  ask_cursor ask_capabilities next_layout leave : Command
  inhibit_idle wait_idle check_idle : CString → Command

-- An argument that may be left out.
abbrev pub optional : Option CString → List CString
optional none = []
optional (some s) = s ∷ []

-- The category, the action and the arguments.
unfoldable pub words : Command → CString × CString × List CString
words (focus id) = (codes "window", codes "focus", id ∷ [])
words (towards dir) = (codes "window", codes "focus-dir", dir ∷ [])
words (close id) = (codes "window", codes "close", optional id)
words (float id) = (codes "window", codes "toggle-floating", optional id)
words (move dir id) = (codes "window", codes "move", dir ∷ optional id)
words (resize width height id) = (codes "window", codes "resize", width ∷ height ∷ optional id)
words (fullscreen state id) = (codes "window", codes "fullscreen", state ∷ optional id)
words (switch id) = (codes "workspace", codes "switch", id ∷ [])
words (toggle_special name) = (codes "workspace", codes "toggle-special", optional name)
words (to_workspace to id) = (codes "workspace", codes "move-to", to ∷ optional id)
words (to_monitor to id) = (codes "monitor", codes "move-to", to ∷ optional id)
words (look_at id) = (codes "monitor", codes "focus", id ∷ [])
words (layout name) = (codes "layout", codes "set", name ∷ [])
words (run command) = (codes "system", codes "execute", command ∷ [])
words (dpms id on) = (codes "monitor", codes "set-dpms", id ∷ on ∷ [])
words (set key value) = (codes "config", codes "set", key ∷ value ∷ [])
words reload = (codes "config", codes "reload", [])
words list_windows = (codes "window", codes "list", [])
words list_workspaces = (codes "workspace", codes "list", [])
words list_monitors = (codes "monitor", codes "list", [])
words ask_window = (codes "window", codes "active", [])
words ask_workspace = (codes "workspace", codes "active", [])
words (maximize state id) = (codes "window", codes "maximize", state ∷ optional id)
words (pin state id) = (codes "window", codes "pin", state ∷ optional id)
words (group id) = (codes "window", codes "toggle-group", optional id)
words (towards_tab dir) = (codes "window", codes "group-nav", dir ∷ [])
words (layout_prop key value id) = (codes "window", codes "layout-prop", key ∷ value ∷ optional id)
words (move_pixel x y id) = (codes "window", codes "move-pixel", x ∷ y ∷ optional id)
words (silently to id) = (codes "window", codes "move-to-workspace-silent", to ∷ optional id)
words (get_key key) = (codes "config", codes "get", key ∷ [])
words (batch text) = (codes "config", codes "batch", text ∷ [])
words (apply_payload payload) = (codes "config", codes "apply", payload ∷ [])
words (bind mods key command) = (codes "config", codes "bind-key", mods ∷ key ∷ command ∷ [])
words (unbind mods key) = (codes "config", codes "unbind-key", mods ∷ key ∷ [])
words ask_cursor = (codes "system", codes "get-cursor-position", [])
words ask_capabilities = (codes "system", codes "get-capabilities", [])
words next_layout = (codes "system", codes "switch-keyboard-layout", [])
words leave = (codes "system", codes "exit", [])
words (inhibit_idle state) = (codes "system", codes "idle-inhibit", state ∷ [])
words (wait_idle ms) = (codes "system", codes "idle-wait", ms ∷ [])
words (check_idle ms) = (codes "system", codes "is-idle", ms ∷ [])

-- The command that waits for Wayland, and may wait for ever.
unfoldable pub is_wait : Command → Bool
is_wait (wait_idle ms) = true
is_wait _ = false

unfoldable pub argv : Command → List CString
unfolding words
argv c = let (category, action, args) = words c in category ∷ action ∷ args

module _ (j : JsonC) where
  -- A call on the window that is named, or on the active one, which is then asked for.
  abbrev on : Backend j → Option CString → (CString → Call j) → List (Call j)
  on b id call = let (target, before) = resolve_id j b id in before ++ call target ∷ []

  abbrev is_on : CString → Bool
  is_on s = str_eq s (codes "1")

  -- What the compositor is to be asked: nothing for the lists, which are cached, and for the idle
  -- manager, nor for a batch that is no JSON.
  unfoldable pub meant : Backend j → (CString → Option j.Json) → Command → List (Call j)
  unfolding resolve_id
  meant b parse (focus id) = focus_window (some id) ∷ []
  meant b parse (towards dir) = focus_dir dir ∷ []
  meant b parse (close id) = on b id (λ w. close_window w)
  meant b parse (float id) = on b id (λ w. toggle_floating w)
  meant b parse (move dir id) = on b id (λ w. move_window w dir)
  meant b parse (resize width height id) = on b id (λ w. resize_window w (atoi width) (atoi height))
  meant b parse (fullscreen state id) = on b id (λ w. set_fullscreen w (is_on state))
  meant b parse (switch id) = switch_workspace (some id) ∷ []
  meant b parse (toggle_special name) = toggle_special_workspace name ∷ []
  meant b parse (to_workspace to id) = on b id (λ w. move_to_workspace w (some to))
  meant b parse (to_monitor to id) = on b id (λ w. move_to_monitor w (some to))
  meant b parse (look_at id) = focus_monitor (some id) ∷ []
  meant b parse (layout name) = set_layout (some name) ∷ []
  meant b parse (run command) = execute (some command) ∷ []
  meant b parse (dpms id on) = set_dpms (some id) (is_on on) ∷ []
  meant b parse (set key value) = set_config (some key) (some value) ∷ []
  meant b parse reload = reload_config ∷ []
  meant b parse list_windows = []
  meant b parse list_workspaces = []
  meant b parse list_monitors = []
  meant b parse ask_window = active_window ∷ []
  meant b parse ask_workspace = active_workspace ∷ []
  meant b parse (maximize state id) = on b id (λ w. set_maximized w (is_on state))
  meant b parse (pin state id) = on b id (λ w. pin_window w (is_on state))
  meant b parse (group id) = on b id (λ w. toggle_group w)
  meant b parse (towards_tab dir) = group_nav dir ∷ []
  meant b parse (layout_prop key value id) =
      on b id (λ w. set_layout_property w (some key) (some value))
  meant b parse (move_pixel x y id) = on b id (λ w. move_window_pixel w (atoi x) (atoi y))
  meant b parse (silently to id) = on b id (λ w. move_to_workspace_silent w (some to))
  meant b parse (get_key key) = get_config (some key) ∷ []
  meant b parse (batch text) = elim (parse text) [
    | none ↦ []
    | some configs ↦ batch_config configs ∷ []
  ]
  meant b parse (apply_payload payload) = apply_config payload ∷ []
  meant b parse (bind mods key command) = bind_key mods key command ∷ []
  meant b parse (unbind mods key) = unbind_key mods key ∷ []
  meant b parse ask_cursor = get_cursor_position ∷ []
  meant b parse ask_capabilities = get_capabilities ∷ []
  meant b parse next_layout = switch_keyboard_layout (codes "next") ∷ []
  meant b parse leave = compositor_exit ∷ []
  meant b parse (inhibit_idle state) = []
  meant b parse (wait_idle ms) = []
  meant b parse (check_idle ms) = []

  -- The request of `handle_rpc`.
  unfoldable pub request_of : (CString → Option j.Json) → CString → CString → List CString → j.Json
  unfolding request_for rpc_params method_for
  request_of parse category action args =
      let method = method_for category action in
      request_for j method (rpc_params j parse args method)

  -- The calls that were made for a request, if it was answered.
  unfoldable pub calls_of :
      {D : Type 0} → Option (Server j D × Done j D × j.Json) → Option (List (Call j))
  calls_of none = none
  calls_of (some (s', done, resp)) = some done.calls
