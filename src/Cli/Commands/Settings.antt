-- ===== src/Cli/Commands/Settings.antt =====
-- The commands on the configuration and the system, and those that only ask.
use axctl_c.Prelude.{
  ℕ, ◌≡◌, refl, ap, ◌∙◌, inl, inr, false, [], ◌∷◌, Option, none, some, CString, codes, str_eq,
  Option-cases,
}
use axctl_c.Json.{JsonC, JsonLaws}
use axctl_c.Json.Helpers.{param_str, param_str_safe}
use axctl_c.Types.ToJson.{Doubles}
use axctl_c.Server.Methods.{
  window, workspace, monitor, config, system, method_of, window_list, window_active,
  window_group_nav, workspace_list, workspace_active, monitor_list, config_get, config_apply,
  config_batch, config_bind_key, config_unbind_key, system_get_cursor_position,
  system_get_capabilities, system_switch_keyboard_layout, system_exit,
}
use axctl_c.Server.Backend.{
  group_nav, get_config, apply_config, batch_config, bind_key, unbind_key, Backend, Host, Server,
  Done, plain, perform,
}
use axctl_c.Server.Dispatch.{
  window_method, workspace_method, monitor_method, config_method, system_method, param_get,
}
use axctl_c.Server.Dispatch.Answer.{run_method}
use axctl_c.Cli.{method_for}
use axctl_c.Cli.Params.{
  add_text, add_two, bind_params, batch_params, method_params, window_params, config_params,
  system_params,
}
use axctl_c.Cli.Commands.Reads.{
  get_same, get_other, read_text, triple, get_first, get_second, get_third,
}
use axctl_c.Cli.Commands.{
  list_windows, list_workspaces, list_monitors, ask_window, ask_workspace, towards_tab, get_key,
  batch, apply_payload, bind, unbind, ask_cursor, ask_capabilities, next_layout, leave, words,
  meant,
}
use axctl_c.Cli.Commands.Asked.{asked, only, DoneBy}

module _ (j : JsonC) (laws : JsonLaws j) {D : Type 0} (d : Doubles j D) (b : Backend j) (h : Host j)
    (fd : ℕ) (s : Server j D) (parse : CString → Option j.Json) where
  -- A text that is found is the same where NULL stands for the empty one.
  safe_text :
      (o : j.Json) (key text : CString)
      → param_str j (some o) key ≡ some text
      → param_str_safe j (some o) key ≡ text
  unfolding param_str_safe
  safe_text o key text found = rw (found, param_str_safe) refl

  -- The two methods that look at their parameter before they call.
  apply-returns :
      (o : j.Json) (payload : CString)
      → param_str j (some o) (codes "payload") ≡ some payload
      → config_method j b s (some o) config_apply ≡ perform j b s [] (apply_config payload) none
  unfolding config_method
  apply-returns o payload found = rw (found, config_method) refl

  batch-returns :
      (o : j.Json) (configs : Option j.Json)
      → j.object_get o (codes "configs") ≡ configs
      → config_method j b s (some o) config_batch ≡ (elim configs [
        | none ↦ plain j s false none
        | some c ↦ perform j b s [] (batch_config c) none
      ])
  unfolding config_method param_get
  batch-returns o configs found = rw (found, config_method) refl

  pub list_windows-done : DoneBy j laws d b h fd s parse list_windows
  unfolding DoneBy words meant method_of method_for run_method window_method str_eq
  list_windows-done =
      asked j laws d b h fd s parse (codes "window") (codes "list") [] (window window_list) _ refl
        refl

  pub list_workspaces-done : DoneBy j laws d b h fd s parse list_workspaces
  unfolding DoneBy words meant method_of method_for run_method workspace_method str_eq
  list_workspaces-done =
      asked j laws d b h fd s parse (codes "workspace") (codes "list") [] (workspace workspace_list)
        _ refl refl

  pub list_monitors-done : DoneBy j laws d b h fd s parse list_monitors
  unfolding DoneBy words meant method_of method_for run_method monitor_method str_eq
  list_monitors-done =
      asked j laws d b h fd s parse (codes "monitor") (codes "list") [] (monitor monitor_list) _
        refl refl

  pub ask_window-done : DoneBy j laws d b h fd s parse ask_window
  unfolding DoneBy words meant method_of method_for run_method window_method perform str_eq
  ask_window-done =
      asked j laws d b h fd s parse (codes "window") (codes "active") [] (window window_active) _
        refl refl

  pub ask_workspace-done : DoneBy j laws d b h fd s parse ask_workspace
  unfolding DoneBy words meant method_of method_for run_method workspace_method perform str_eq
  ask_workspace-done =
      asked j laws d b h fd s parse (codes "workspace") (codes "active") []
        (workspace workspace_active) _ refl refl

  pub ask_cursor-done : DoneBy j laws d b h fd s parse ask_cursor
  unfolding DoneBy words meant method_of method_for run_method system_method perform str_eq
  ask_cursor-done =
      asked j laws d b h fd s parse (codes "system") (codes "get-cursor-position") []
        (system system_get_cursor_position) _ refl refl

  pub ask_capabilities-done : DoneBy j laws d b h fd s parse ask_capabilities
  unfolding DoneBy words meant method_of method_for run_method system_method perform str_eq
  ask_capabilities-done =
      asked j laws d b h fd s parse (codes "system") (codes "get-capabilities") []
        (system system_get_capabilities) _ refl refl

  pub leave-done : DoneBy j laws d b h fd s parse leave
  unfolding DoneBy words meant method_of method_for run_method system_method perform str_eq
  leave-done =
      asked j laws d b h fd s parse (codes "system") (codes "exit") [] (system system_exit) _ refl
        refl

  pub next_layout-done : DoneBy j laws d b h fd s parse next_layout
  unfolding DoneBy words meant method_of method_for run_method method_params system_method
      system_params perform str_eq add_text
  next_layout-done =
      asked j laws d b h fd s parse (codes "system") (codes "switch-keyboard-layout") []
        (system system_switch_keyboard_layout) _ refl refl
      ∙ rw (only j laws d b h fd s parse (codes "action") (some (codes "next")) refl) refl

  pub towards_tab-done : (dir : CString) → DoneBy j laws d b h fd s parse (towards_tab dir)
  unfolding DoneBy words meant method_of method_for run_method window_method window_params str_eq
      method_params add_text perform
  towards_tab-done dir =
      asked j laws d b h fd s parse (codes "window") (codes "group-nav") (dir ∷ [])
        (window window_group_nav) _ refl refl
      ∙ ap (λ x. some (group_nav x ∷ []))
          (safe_text _ (codes "direction") dir
            (only j laws d b h fd s parse (codes "direction") (some dir) refl))

  pub get_key-done : (key : CString) → DoneBy j laws d b h fd s parse (get_key key)
  unfolding DoneBy words meant method_of method_for run_method config_method config_params str_eq
      method_params add_text perform
  get_key-done key =
      asked j laws d b h fd s parse (codes "config") (codes "get") (key ∷ []) (config config_get) _
        refl refl
      ∙ ap (λ x. some (get_config x ∷ []))
          (only j laws d b h fd s parse (codes "key") (some key) refl)

  pub apply_payload-done :
      (payload : CString) → DoneBy j laws d b h fd s parse (apply_payload payload)
  unfolding DoneBy words meant method_of method_for run_method config_params str_eq method_params
      add_text perform
  apply_payload-done payload =
      asked j laws d b h fd s parse (codes "config") (codes "apply") (payload ∷ [])
        (config config_apply) _ refl
        (ap (λ done. some done)
          (apply-returns _ payload
            (only j laws d b h fd s parse (codes "payload") (some payload) refl)))

  batch_params-configs :
      (text : CString)
      → j.object_get (batch_params j parse (text ∷ []) (some text)) (codes "configs") ≡ parse text
  unfolding batch_params str_eq
  batch_params-configs text = elim (Option-cases (parse text)) [
    | inl e ↦ rw (e, batch_params) (laws.get-new_object (codes "configs"))
    | inr (configs, e) ↦
        rw (e, batch_params) (get_same j laws j.new_object configs {k = codes "configs"} refl)
  ]

  abbrev batched : Option j.Json → Done j D
  batched configs = elim configs [
    | none ↦ plain j s false none
    | some c ↦ perform j b s [] (batch_config c) none
  ]

  batch_calls :
      (configs : Option j.Json)
      → some (batched configs).calls
        ≡ some (elim configs [ none ↦ [] | some c ↦ batch_config c ∷ [] ])
  unfolding perform
  batch_calls none = refl
  batch_calls (some c) = refl

  pub batch-done : (text : CString) → DoneBy j laws d b h fd s parse (batch text)
  unfolding DoneBy words meant method_of method_for run_method config_params str_eq method_params
      perform
  batch-done text =
      asked j laws d b h fd s parse (codes "config") (codes "batch") (text ∷ [])
        (config config_batch) _ refl
        (ap (λ done. some done) (batch-returns _ (parse text) (batch_params-configs text)))
      ∙ batch_calls (parse text)

  pub bind-done :
      (mods key command : CString) → DoneBy j laws d b h fd s parse (bind mods key command)
  unfolding DoneBy words meant method_of method_for run_method config_method config_params str_eq
      method_params add_text bind_params perform
  bind-done mods key command =
      let m = j.new_string mods in
      let k = j.new_string key in
      let o =
        triple j laws m k (codes "mods") (codes "key") (codes "command") (some command) refl refl
          refl refl refl refl refl refl in
      let e = safe_text o (codes "mods") mods (
        read_text j laws o (codes "mods") mods (
          get_first j laws m k (codes "mods") (codes "key") (codes "command") (some command) refl
            refl refl refl refl refl refl refl)) in
      let e' = safe_text o (codes "key") key (
        read_text j laws o (codes "key") key (
          get_second j laws m k (codes "mods") (codes "key") (codes "command") (some command) refl
            refl refl refl refl refl refl refl)) in
      let e'' = safe_text o (codes "command") command (
        get_third j laws m k (codes "mods") (codes "key") (codes "command") (some command) refl refl
          refl refl refl refl refl refl) in
      asked j laws d b h fd s parse (codes "config") (codes "bind-key") (mods ∷ key ∷ command ∷ [])
        (config config_bind_key)
        (perform j b s []
          (bind_key (param_str_safe j (some o) (codes "mods"))
            (param_str_safe j (some o) (codes "key")) (param_str_safe j (some o) (codes "command")))
          none)
        refl refl
      ∙ rw (e, e', e'') refl

  pub unbind-done : (mods key : CString) → DoneBy j laws d b h fd s parse (unbind mods key)
  unfolding DoneBy words meant method_of method_for run_method config_method config_params str_eq
      method_params add_text add_two perform
  unbind-done mods key =
      let m = j.object_add j.new_object (codes "mods") (j.new_string mods) in
      let o = j.object_add m (codes "key") (j.new_string key) in
      let e = safe_text o (codes "mods") mods (
        read_text j laws o (codes "mods") mods (
          get_other j laws m (j.new_string key) {k = codes "key"} {k' = codes "mods"} refl
          ∙ get_same j laws j.new_object (j.new_string mods) {k = codes "mods"} refl)) in
      let e' = safe_text o (codes "key") key (
        read_text j laws o (codes "key") key
          (get_same j laws m (j.new_string key) {k = codes "key"} refl)) in
      asked j laws d b h fd s parse (codes "config") (codes "unbind-key") (mods ∷ key ∷ [])
        (config config_unbind_key)
        (perform j b s []
          (unbind_key (param_str_safe j (some o) (codes "mods"))
            (param_str_safe j (some o) (codes "key")))
          none)
        refl refl
      ∙ rw (e, e') refl
