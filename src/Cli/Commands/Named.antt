-- ===== src/Cli/Commands/Named.antt =====
-- The commands on a window, which is named or is the active one.
use axctl_c.Prelude.{
  true, false, get_elem?, ℕ, ◌≡◌, refl, ap, ◌∙◌, [], ◌∷◌, Option, none, some, CString, codes,
  str_eq,
}
use axctl_c.Json.{JsonC, JsonLaws}
use axctl_c.Json.Helpers.{param_str, param_str_safe}
use axctl_c.Types.ToJson.{Doubles}
use axctl_c.Server.Methods.{
  Method, window_toggle_group, window_move_to_workspace_silent, window, workspace, monitor,
  method_of, window_close, window_move, window_toggle_floating, workspace_move_to, monitor_move_to,
}
use axctl_c.Server.Backend.{
  Call, toggle_group, move_to_workspace_silent, close_window, move_window, toggle_floating,
  move_to_workspace, move_to_monitor, Backend, Host, Server,
}
use axctl_c.Server.Dispatch.{on_window, window_method, workspace_method, monitor_method}
use axctl_c.Server.Dispatch.Answer.{handle_request, run_method}
use axctl_c.Cli.{method_for}
use axctl_c.Cli.Params.{add_text, method_params, window_params, workspace_params, monitor_params}
use axctl_c.Cli.Commands.Reads.{arg_optional, read_text, first_of, second_of}
use axctl_c.Cli.Commands.{
  optional, group, silently, request_of, calls_of, close, float, move, to_workspace, to_monitor,
  words, meant, on,
}
use axctl_c.Cli.Commands.Asked.{only, on_named, DoneBy}

module _ (j : JsonC) (laws : JsonLaws j) {D : Type 0} (d : Doubles j D) (b : Backend j) (h : Host j)
    (fd : ℕ) (s : Server j D) (parse : CString → Option j.Json) where
  -- A text, and behind it the window's id.
  abbrev text_and_id : CString → CString → CString → Option CString → j.Json
  text_and_id key key' to id =
      add_text j (j.object_add j.new_object key (j.new_string to)) key' (get_elem? (optional id) 0)

  text_done :
      (category action to : CString) (id : Option CString) (m : Method) (key key' : CString)
      (call : CString → Option CString → Call j)
      → method_of (method_for category action) ≡ some m
      → run_method j d b h fd s (some (method_params j parse (to ∷ optional id) m)) m
        ≡ some (
            on_window j b s
              (some (text_and_id key key' to id))
              key'
              (λ w. call w (param_str j (some (text_and_id key key' to id)) key)))
      → str_eq key key' ≡ false
      → str_eq key' key ≡ false
      → str_eq key key ≡ true
      → str_eq key' key' ≡ true
      → calls_of j
          (handle_request j d b fd h s (request_of j parse category action (to ∷ optional id)))
        ≡ some (on j b id (λ w. call w (some to)))
  text_done category action to id m key key' call found ran other other' same same' =
      let rest = get_elem? (optional id) 0 in
      let v = j.new_string to in
      let e =
        read_text j laws (text_and_id key key' to id) key to
          (first_of j laws v key key' rest other other' same same') in
      on_named j laws d b h fd s parse category action (to ∷ optional id) m
        (text_and_id key key' to id) key' id _ found ran
        (second_of j laws v key key' rest other other' same same' ∙ arg_optional id)
      ∙ ap (λ x. some (on j b id (λ w. call w x))) e

  pub close-done : (id : Option CString) → DoneBy j laws d b h fd s parse (close id)
  unfolding DoneBy words meant method_of method_for run_method window_method window_params str_eq
      method_params add_text
  close-done id =
      on_named j laws d b h fd s parse (codes "window") (codes "close") (optional id)
        (window window_close) _ (codes "id") id (λ w. close_window w) refl refl
        (only j laws d b h fd s parse (codes "id") _ refl ∙ arg_optional id)

  pub float-done : (id : Option CString) → DoneBy j laws d b h fd s parse (float id)
  unfolding DoneBy words meant method_of method_for run_method window_method window_params str_eq
      method_params add_text
  float-done id =
      on_named j laws d b h fd s parse (codes "window") (codes "toggle-floating") (optional id)
        (window window_toggle_floating) _ (codes "id") id (λ w. toggle_floating w) refl refl
        (only j laws d b h fd s parse (codes "id") _ refl ∙ arg_optional id)

  pub group-done : (id : Option CString) → DoneBy j laws d b h fd s parse (group id)
  unfolding DoneBy words meant method_of method_for run_method window_method window_params str_eq
      method_params add_text
  group-done id =
      on_named j laws d b h fd s parse (codes "window") (codes "toggle-group") (optional id)
        (window window_toggle_group) _ (codes "id") id (λ w. toggle_group w) refl refl
        (only j laws d b h fd s parse (codes "id") _ refl ∙ arg_optional id)

  pub to_workspace-done :
      (to : CString) (id : Option CString) → DoneBy j laws d b h fd s parse (to_workspace to id)
  unfolding DoneBy words meant method_of method_for run_method workspace_method workspace_params
      str_eq method_params add_text
  to_workspace-done to id =
      text_done (codes "workspace") (codes "move-to") to id (workspace workspace_move_to)
        (codes "workspace_id") (codes "window_id") (λ w x. move_to_workspace w x) refl refl refl
        refl refl refl

  pub to_monitor-done :
      (to : CString) (id : Option CString) → DoneBy j laws d b h fd s parse (to_monitor to id)
  unfolding DoneBy words meant method_of method_for run_method monitor_method monitor_params str_eq
      method_params add_text
  to_monitor-done to id =
      text_done (codes "monitor") (codes "move-to") to id (monitor monitor_move_to)
        (codes "monitor_id") (codes "window_id") (λ w x. move_to_monitor w x) refl refl refl refl
        refl refl

  pub silently-done :
      (to : CString) (id : Option CString) → DoneBy j laws d b h fd s parse (silently to id)
  unfolding DoneBy words meant method_of method_for run_method window_method window_params str_eq
      method_params add_text
  silently-done to id =
      text_done (codes "window") (codes "move-to-workspace-silent") to id
        (window window_move_to_workspace_silent) (codes "workspace_id") (codes "window_id")
        (λ w x. move_to_workspace_silent w x) refl refl refl refl refl refl

  pub move-done :
      (dir : CString) (id : Option CString) → DoneBy j laws d b h fd s parse (move dir id)
  unfolding DoneBy words meant method_of method_for run_method window_method window_params str_eq
      method_params add_text param_str_safe
  move-done dir id =
      text_done (codes "window") (codes "move") dir id (window window_move) (codes "direction")
        (codes "id") (λ w x. move_window w (elim x [ none ↦ [] | some t ↦ t ])) refl refl refl refl
        refl refl
