-- ===== src/Cli/Commands/Plain.antt =====
-- The commands that have no window.
use axctl_c.Prelude.{ℕ, ◌≡◌, refl, ap, ◌∙◌, true, [], ◌∷◌, Option, some, CString, codes, str_eq}
use axctl_c.Json.{JsonC, JsonLaws}
use axctl_c.Json.Helpers.{param_str, param_str_safe, param_bool}
use axctl_c.Types.ToJson.{Doubles}
use axctl_c.Server.Methods.{
  window, workspace, monitor, layout_set, config, system, method_of, window_focus, window_focus_dir,
  workspace_switch, workspace_toggle_special, monitor_focus, monitor_set_dpms, config_set,
  config_reload, system_execute,
}
use axctl_c.Server.Backend.{
  focus_window, focus_dir, switch_workspace, toggle_special_workspace, focus_monitor, set_dpms,
  set_layout, execute, Backend, Host, Server, perform,
}
use axctl_c.Server.Dispatch.{
  window_method, workspace_method, monitor_method, layout_set_method, config_method, system_method,
  param_get,
}
use axctl_c.Server.Dispatch.Answer.{run_method}
use axctl_c.Cli.{method_for}
use axctl_c.Cli.Params.{
  add_text, add_flag, add_two, method_params, window_params, workspace_params, monitor_params,
  config_params, system_params,
}
use axctl_c.Cli.Commands.Reads.{arg_optional, get_same, get_other, read_text, read_flag}
use axctl_c.Cli.Commands.{
  focus, towards, switch, toggle_special, look_at, layout, run, dpms, set, reload, optional, words,
  meant, on, is_on,
}
use axctl_c.Cli.Commands.Asked.{asked, only, DoneBy}

module _ (j : JsonC) (laws : JsonLaws j) {D : Type 0} (d : Doubles j D) (b : Backend j) (h : Host j)
    (fd : ℕ) (s : Server j D) (parse : CString → Option j.Json) where
  pub focus-done : (id : CString) → DoneBy j laws d b h fd s parse (focus id)
  unfolding DoneBy words meant method_of method_for run_method window_method window_params str_eq
      method_params add_text perform
  focus-done id =
      asked j laws d b h fd s parse (codes "window") (codes "focus") (id ∷ []) (window window_focus)
        _ refl refl
      ∙ ap (λ x. some (focus_window x ∷ []))
          (only j laws d b h fd s parse (codes "id") (some id) refl)

  pub towards-done : (dir : CString) → DoneBy j laws d b h fd s parse (towards dir)
  unfolding DoneBy words meant method_of method_for run_method window_method window_params str_eq
      method_params add_text perform param_str_safe
  towards-done dir =
      let o : j.Json = add_text j j.new_object (codes "direction") (some dir) in
      let e : param_str_safe j (some o) (codes "direction") ≡ dir =
        rw (only j laws d b h fd s parse (codes "direction") (some dir) refl, param_str_safe)
          refl in
      asked j laws d b h fd s parse (codes "window") (codes "focus-dir") (dir ∷ [])
        (window window_focus_dir) _ refl refl
      ∙ ap (λ x. some (focus_dir x ∷ [])) e

  pub switch-done : (id : CString) → DoneBy j laws d b h fd s parse (switch id)
  unfolding DoneBy words meant method_of method_for run_method workspace_method workspace_params
      str_eq method_params add_text perform
  switch-done id =
      asked j laws d b h fd s parse (codes "workspace") (codes "switch") (id ∷ [])
        (workspace workspace_switch) _ refl refl
      ∙ ap (λ x. some (switch_workspace x ∷ []))
          (only j laws d b h fd s parse (codes "id") (some id) refl)

  pub toggle_special-done :
      (name : Option CString) → DoneBy j laws d b h fd s parse (toggle_special name)
  unfolding DoneBy words meant method_of method_for run_method workspace_method workspace_params
      str_eq method_params add_text perform
  toggle_special-done name =
      asked j laws d b h fd s parse (codes "workspace") (codes "toggle-special") (optional name)
        (workspace workspace_toggle_special) _ refl refl
      ∙ ap (λ x. some (toggle_special_workspace x ∷ []))
          (only j laws d b h fd s parse (codes "name") _ refl ∙ arg_optional name)

  pub look_at-done : (id : CString) → DoneBy j laws d b h fd s parse (look_at id)
  unfolding DoneBy words meant method_of method_for run_method monitor_method monitor_params str_eq
      method_params add_text perform
  look_at-done id =
      asked j laws d b h fd s parse (codes "monitor") (codes "focus") (id ∷ [])
        (monitor monitor_focus) _ refl refl
      ∙ ap (λ x. some (focus_monitor x ∷ []))
          (only j laws d b h fd s parse (codes "id") (some id) refl)

  pub layout-done : (name : CString) → DoneBy j laws d b h fd s parse (layout name)
  unfolding DoneBy words meant method_of method_for run_method layout_set_method str_eq
      method_params add_text perform
  layout-done name =
      asked j laws d b h fd s parse (codes "layout") (codes "set") (name ∷ []) (layout_set) _ refl
        refl
      ∙ ap (λ x. some (set_layout x ∷ []))
          (only j laws d b h fd s parse (codes "name") (some name) refl)

  pub run-done : (command : CString) → DoneBy j laws d b h fd s parse (run command)
  unfolding DoneBy words meant method_of method_for run_method system_method system_params str_eq
      method_params add_text perform
  run-done command =
      asked j laws d b h fd s parse (codes "system") (codes "execute") (command ∷ [])
        (system system_execute) _ refl refl
      ∙ ap (λ x. some (execute x ∷ []))
          (only j laws d b h fd s parse (codes "command") (some command) refl)

  pub dpms-done : (id on : CString) → DoneBy j laws d b h fd s parse (dpms id on)
  unfolding DoneBy words meant method_of method_for run_method monitor_method monitor_params str_eq
      method_params add_text add_flag perform
  dpms-done id on =
      let o : j.Json = j.object_add j.new_object (codes "monitor_id") (j.new_string id) in
      let p : j.Json = j.object_add o (codes "on") (j.new_boolean (is_on j on)) in
      let i : param_str j (some p) (codes "monitor_id") ≡ some id =
        read_text j laws p (codes "monitor_id") id (
          get_other j laws o (j.new_boolean (is_on j on)) refl
          ∙ get_same j laws j.new_object (j.new_string id) refl) in
      let x : param_bool j (some p) (codes "on") true ≡ is_on j on =
        read_flag j laws p (codes "on") (is_on j on) true
          (get_same j laws o (j.new_boolean (is_on j on)) refl) in
      asked j laws d b h fd s parse (codes "monitor") (codes "set-dpms") (id ∷ on ∷ [])
        (monitor monitor_set_dpms) _ refl refl
      ∙ ap (λ t. some (set_dpms t (param_bool j (some p) (codes "on") true) ∷ [])) i
      ∙ ap (λ t. some (set_dpms (some id) t ∷ [])) x

  pub set-done : (key value : CString) → DoneBy j laws d b h fd s parse (set key value)
  unfolding DoneBy words meant method_of method_for run_method config_method config_params str_eq
      method_params add_text add_two perform param_get
  set-done key value =
      let o : j.Json = j.object_add j.new_object (codes "key") (j.new_string key) in
      let p : j.Json = j.object_add o (codes "value") (j.new_string value) in
      let k : param_str j (some p) (codes "key") ≡ some key = read_text j laws p (codes "key") key (
        get_other j laws o (j.new_string value) refl
        ∙ get_same j laws j.new_object (j.new_string key) refl) in
      let v : j.object_get p (codes "value") ≡ some (j.new_string value) =
        get_same j laws o (j.new_string value) refl in
      asked j laws d b h fd s parse (codes "config") (codes "set") (key ∷ value ∷ [])
        (config config_set) _ refl refl
      ∙ rw (k, v) rw (laws.get_string-new_string) refl

  pub reload-done : DoneBy j laws d b h fd s parse reload
  unfolding DoneBy words meant method_of method_for run_method config_method str_eq method_params
      perform
  reload-done =
      asked j laws d b h fd s parse (codes "config") (codes "reload") [] (config config_reload) _
        refl refl
