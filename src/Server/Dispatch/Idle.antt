-- ===== src/Server/Dispatch/Idle.antt =====
-- src/server/server.c: the methods of the idle manager in `dispatch_method`. A wait that goes on has no
-- answer yet, `none`.
use axctl_c.Prelude.{
  ℕ, Bool, true, false, List, [], ◌∷◌, Option, none, some, CString, codes, pos, if◌then◌else◌, map,
}
use axctl_c.Json.{JsonC}
use axctl_c.Json.Helpers.{param_int, param_bool}
use axctl_c.Errors.{set_error}
use axctl_c.Types.ToJson.{object_with, add_all}
use axctl_c.Idle.State.{Manager, Outcome}
use axctl_c.Idle.Monitors.{
  MonitorState, monitor_create, monitor_update, monitor_get, monitor_destroy,
}
use axctl_c.Idle.Inhibitors.{
  InhibitorState, inhibit, is_inhibited, inhibitor_create, inhibitor_set, inhibitor_get,
  inhibitor_destroy,
}
use axctl_c.Idle.System.{inhibit_system, is_system_inhibited}
use axctl_c.Idle.Waits.{
  WaitOutcome, refused, blocked, answered, idle_wait, idle_wait_resume, idle_wait_input,
  idle_wait_input_resume, idle_is_idle, idle_is_input_idle,
}
use axctl_c.Idle.Checks.{media_check, app_check}
use axctl_c.Server.Methods.{IdleMethod}
use axctl_c.Server.Backend.{Host, Server, Done, plain, to_u32, of_u32}

module _ (j : JsonC) where
  -- `axctl_idle_monitor_state_to_json` and the same code in the methods.
  unfoldable pub monitor_json : MonitorState → j.Json
  unfolding add_all of_u32
  monitor_json st = object_with j (
      (codes "id", j.new_int (of_u32 st.id))
      ∷ (codes "enabled", j.new_boolean st.enabled)
      ∷ (codes "timeout_ms", j.new_int (of_u32 st.timeout_ms))
      ∷ (codes "respect_inhibitors", j.new_boolean st.respect_inhibitors)
      ∷ (codes "is_idle", j.new_boolean st.is_idle)
      ∷ [])

  unfoldable pub inhibitor_json : InhibitorState → j.Json
  unfolding add_all of_u32
  inhibitor_json st =
      object_with j
        ((codes "id", j.new_int (of_u32 st.id)) ∷ (codes "enabled", j.new_boolean st.enabled) ∷ [])

  -- `x ? "true" : "false"`
  abbrev pub bool_json : Bool → j.Json
  bool_json b = j.new_string (if b then codes "true" else codes "false")

  -- A `uint32_t` of the parameters, or its default.
  unfoldable pub given_u32 : Option j.Json → CString → ℕ → ℕ
  unfolding to_u32
  given_u32 none key def = def
  given_u32 (some o) key def = elim (j.object_get o key) [
    | none ↦ def
    | some v ↦ to_u32 (j.get_int v)
  ]

  -- The patterns of the check of applications; what is no array of them stands for none.
  unfoldable pub patterns_of : Option j.Json → List (Option CString)
  patterns_of none = []
  patterns_of (some o) = elim (j.object_get o (codes "patterns")) [
    | none ↦ []
    | some pats ↦ elim (j.array_items pats) [ none ↦ [] | some items ↦ map j.get_string items ]
  ]

module _ (j : JsonC) {D : Type 0} (s : Server j D) where
  -- The server after an operation of its idle manager.
  abbrev pub after : {A : Type 0} → Outcome A → (A → Option j.Json) → Done j D
  after o show = record {
    server = record s { idle_mgr = some o.state };
    calls = [];
    requests = o.requests;
    processes = [];
    sent = [];
    failed = elim o.result [ none ↦ true | some r ↦ false ];
    result = elim o.result [ none ↦ none | some r ↦ show r ];
  }

  abbrev pub after_wait : {A : Type 0} → WaitOutcome A → (A → Option j.Json) → Option (Done j D)
  after_wait o show = elim o.result [
    | refused ↦ some (record (plain j s true none) { requests = o.requests })
    | blocked ↦ none
    | answered r ↦ some (record (plain j s false (show r)) { requests = o.requests })
  ]

  -- The fields that the parameters do not have keep their value.
  unfoldable pub update_given : Host j → Manager → Option j.Json → ℕ → MonitorState → Done j D
  unfolding monitor_update given_u32 param_bool monitor_json
  update_given h im params mid current =
      after
        (monitor_update h.wayland im mid
          (given_u32 j params (codes "timeout_ms") current.timeout_ms)
          (param_bool j params (codes "respect_inhibitors") current.respect_inhibitors)
          (param_bool j params (codes "enabled") current.enabled))
        (λ st. some (monitor_json j st))

  abbrev manager_timeout : Option j.Json → ℕ
  manager_timeout params = to_u32 (param_int j params (codes "timeout_ms") (pos 0))

  abbrev monitor_id : Option j.Json → ℕ
  monitor_id params = to_u32 (param_int j params (codes "id") (pos 0))

  -- The methods, on the manager.
  unfoldable pub manager_method : Host j → Manager → Option j.Json → IdleMethod → Option (Done j D)
  unfolding param_int param_bool to_u32 update_given monitor_json inhibitor_json patterns_of add_all
      monitor_get inhibitor_get
  manager_method h im params IdleMethod.idle_inhibit =
      some (after (inhibit h.wayland im (param_bool j params (codes "on") false)) (λ u. none))
  manager_method h im params IdleMethod.idle_wait =
      after_wait (idle_wait h.wayland (manager_timeout params) h.events) (λ u. none)
  manager_method h im params IdleMethod.idle_resume_wait =
      after_wait (idle_wait_resume h.wayland (manager_timeout params) h.events) (λ u. none)
  manager_method h im params IdleMethod.idle_input_idle_wait =
      after_wait (idle_wait_input h.wayland (manager_timeout params) h.events) (λ u. none)
  manager_method h im params IdleMethod.idle_input_resume_wait =
      after_wait (idle_wait_input_resume h.wayland (manager_timeout params) h.events) (λ u. none)
  manager_method h im params IdleMethod.idle_is_idle =
      after_wait (idle_is_idle h.wayland (manager_timeout params) h.events)
        (λ idle. some (bool_json j idle))
  manager_method h im params IdleMethod.idle_is_input_idle =
      after_wait (idle_is_input_idle h.wayland (manager_timeout params) h.events)
        (λ idle. some (bool_json j idle))
  manager_method h im params IdleMethod.idle_is_inhibited =
      some (plain j s false (some (bool_json j (is_inhibited im))))
  manager_method h im params IdleMethod.idle_monitor_create = some (
      after
        (monitor_create h.wayland im (manager_timeout params)
          (param_bool j params (codes "respect_inhibitors") true)
          (param_bool j params (codes "enabled") true))
        (λ st. some (monitor_json j st)))
  manager_method h im params IdleMethod.idle_monitor_update =
      elim (monitor_get im (monitor_id params)) [
        | none ↦ some (plain j s true none)
        | some current ↦ some (update_given h im params (monitor_id params) current)
      ]
  manager_method h im params IdleMethod.idle_monitor_get =
      elim (monitor_get im (monitor_id params)) [
        | none ↦ some (plain j s true none)
        | some st ↦ some (plain j s false (some (monitor_json j st)))
      ]
  manager_method h im params IdleMethod.idle_monitor_destroy =
      some (after (monitor_destroy im (monitor_id params)) (λ u. none))
  manager_method h im params IdleMethod.idle_inhibitor_create = some (
      after (inhibitor_create h.wayland im (param_bool j params (codes "enabled") false))
        (λ st. some (inhibitor_json j st)))
  manager_method h im params IdleMethod.idle_inhibitor_set = some (
      after
        (inhibitor_set h.wayland im (monitor_id params)
          (param_bool j params (codes "enabled") false))
        (λ st. some (inhibitor_json j st)))
  manager_method h im params IdleMethod.idle_inhibitor_get =
      elim (inhibitor_get im (monitor_id params)) [
        | none ↦ some (plain j s true none)
        | some st ↦ some (plain j s false (some (inhibitor_json j st)))
      ]
  manager_method h im params IdleMethod.idle_inhibitor_destroy =
      some (after (inhibitor_destroy im (monitor_id params)) (λ u. none))
  manager_method h im params IdleMethod.idle_inhibit_system =
      let o = inhibit_system h.fork im (param_bool j params (codes "on") false) in
      some record {
        server = record s { idle_mgr = some o.state };
        calls = [];
        requests = [];
        processes = o.processes;
        sent = [];
        failed = elim o.result [ none ↦ true | some u ↦ false ];
        result = none;
      }
  manager_method h im params IdleMethod.idle_is_system_inhibited =
      some (plain j s false (some (bool_json j (is_system_inhibited im))))
  manager_method h im params IdleMethod.idle_app_inhibit_check =
      some (plain j s false (some (app_check j (patterns_of j params) h.applications)))
  manager_method h im params IdleMethod.idle_media_inhibit_check =
      some (plain j s false (some (media_check j h.pactl)))

  unfoldable pub idle_method : Host j → Option j.Json → IdleMethod → Option (Done j D)
  unfolding manager_method set_error
  idle_method h params m = elim s.idle_mgr [
    | none ↦
        some
          (plain j (record s { error = set_error s.error (codes "idle not supported") }) true none)
    | some im ↦ manager_method h im params m
  ]
