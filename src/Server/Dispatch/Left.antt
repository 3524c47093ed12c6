-- ===== src/Server/Dispatch/Left.antt =====
-- A request leaves the cache, the subscribed clients, the metadata and what is written before the response
-- as the effect of its method says.
use axctl_c.Prelude.{
  ◌≡◌, refl, inl, inr, ℕ, [], Option, none, some, CString, codes, Option-cases, Bool-cases,
}
use mathlib.Core.Path.{subst}
use axctl_c.Json.{JsonC}
use axctl_c.Json.Helpers.{param_str}
use axctl_c.Types.ToJson.{Doubles}
use axctl_c.Idle.State.{Manager}
use axctl_c.Server.Methods.{
  SystemMethod, system_execute, system_get_cursor_position, system_exit,
  system_switch_keyboard_layout, system_set_keyboard_layouts, system_get_capabilities,
  system_subscribe, IdleMethod, Method, window, workspace, monitor, layout_set, config, system,
  idle, method_of,
}
use axctl_c.Server.Backend.{execute, Backend, Host, Server, Done}
use axctl_c.Server.Dump.{build_state_dump}
use axctl_c.Server.Dispatch.{layout_set_method, system_method}
use axctl_c.Server.Dispatch.Idle.{idle_method}
use axctl_c.Server.Dispatch.Answer.{run_method, error_result, dispatch_method}
use axctl_c.Server.Dispatch.Silent.{Silent, IfDone, manager_method-IfDone}
use axctl_c.Server.Dispatch.Effect.{Effect, unchanged, Leaves, effect, effect_of}
use axctl_c.Server.Dispatch.Quiet.{
  perform-Quiet, window_method-Quiet, workspace_method-Leaves, monitor_method-Quiet,
  config_method-Quiet,
}

module _ (j : JsonC) {D : Type 0} (d : Doubles j D) (b : Backend j) (s : Server j D)
    (params : Option j.Json) (fd : ℕ) where
  subscribe-Leaves :
      Leaves j s
        (effect j s d fd (system system_subscribe))
        (system_method j b s params d fd system_subscribe)
  unfolding system_method Leaves effect build_state_dump
  subscribe-Leaves = (refl, refl, refl, refl)

  system_method-Leaves :
      (m : SystemMethod)
      → Leaves j s (effect j s d fd (system m)) (system_method j b s params d fd m)
  unfolding system_method effect
  system_method-Leaves system_execute =
      perform-Quiet j b s params [] (execute (param_str j params (codes "command"))) _
  system_method-Leaves system_get_cursor_position = perform-Quiet j b s params [] _ _
  system_method-Leaves system_exit = perform-Quiet j b s params [] _ _
  system_method-Leaves system_switch_keyboard_layout = perform-Quiet j b s params [] _ _
  system_method-Leaves system_set_keyboard_layouts = perform-Quiet j b s params [] _ _
  system_method-Leaves system_get_capabilities = perform-Quiet j b s params [] _ _
  system_method-Leaves system_subscribe = subscribe-Leaves

  -- A method, if it returns.
  IfLeaves : Effect j → Option (Done j D) → Type 0
  IfLeaves e none = Unit
  IfLeaves e (some done) = Leaves j s e done

  silent-IfLeaves : (ran : Option (Done j D)) → IfDone j s ran → IfLeaves (unchanged j s) ran
  unfolding IfLeaves Leaves IfDone Silent
  silent-IfLeaves none u = tt
  silent-IfLeaves (some done) silent = (silent.2, silent.3, silent.4, silent.5)

  idle-IfLeaves :
      (h : Host j) (mgr : Option Manager) (m : IdleMethod)
      → s.idle_mgr ≡ mgr
      → IfLeaves (unchanged j s) (idle_method j s h params m)
  unfolding IfLeaves Leaves idle_method
  idle-IfLeaves h none m e = rw (e, idle_method) (refl, refl, refl, refl)
  idle-IfLeaves h (some im) m e =
      rw (e, idle_method) (silent-IfLeaves _ (manager_method-IfDone j s h im params m))

  run_method-IfLeaves :
      (h : Host j) (m : Method) → IfLeaves (effect j s d fd m) (run_method j d b h fd s params m)
  unfolding IfLeaves run_method effect layout_set_method
  run_method-IfLeaves h (window m) = window_method-Quiet j b s params m
  run_method-IfLeaves h (workspace m) = workspace_method-Leaves j b s params d fd m
  run_method-IfLeaves h (monitor m) = monitor_method-Quiet j b s params d m
  run_method-IfLeaves h layout_set = perform-Quiet j b s params [] _ none
  run_method-IfLeaves h (config m) = config_method-Quiet j b s params m
  run_method-IfLeaves h (system m) = system_method-Leaves m
  run_method-IfLeaves h (idle m) = idle-IfLeaves h s.idle_mgr m refl

  error_result-Leaves :
      (e : Effect j) (done : Done j D) → Leaves j s e done → Leaves j s e (error_result j done)
  unfolding error_result Leaves
  error_result-Leaves e done leaves = elim (Option-cases done.result) [
    | inl absent ↦ elim (Bool-cases done.failed) [
      | inl y ↦ rw (absent, error_result) rw (y) leaves
      | inr n ↦ rw (absent, error_result) rw (n) leaves
    ]
    | inr (r, found) ↦ rw (found, error_result) leaves
  ]

  error_result-IfLeaves :
      (e : Effect j) (ran : Option (Done j D))
      → IfLeaves e ran
      → IfLeaves e (elim ran [ none ↦ none | some done ↦ some (error_result j done) ])
  unfolding IfLeaves
  error_result-IfLeaves e none u = tt
  error_result-IfLeaves e (some done) leaves = error_result-Leaves e done leaves

  pub dispatch_method-Leaves :
      (h : Host j) (method : CString) (done : Done j D)
      → dispatch_method j d b h fd s method params ≡ some done
      → Leaves j s (effect_of j s d fd (method_of method)) done
  unfolding IfLeaves Leaves dispatch_method effect_of
  dispatch_method-Leaves h method done e =
      subst (λ ran. IfLeaves (effect_of j s d fd (method_of method)) ran) e
        (elim (Option-cases (method_of method)) [
          | inl none_of ↦ rw (none_of, dispatch_method, effect_of) (refl, refl, refl, refl)
          | inr (m, one) ↦
              rw (one, dispatch_method, effect_of)
                (error_result-IfLeaves (effect j s d fd m) _ (run_method-IfLeaves h m))
        ])
