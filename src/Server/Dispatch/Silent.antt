-- ===== src/Server/Dispatch/Silent.antt =====
-- The methods of the idle manager: a failure leaves the error message as it was, and no result.
use axctl_c.Prelude.{◌≡◌, refl, ℕ, true, false, List, [], Option, none, some, arith}
use axctl_c.Json.{JsonC}
use axctl_c.Idle.State.{Manager, Request}
use axctl_c.Idle.Monitors.{MonitorState, monitor_get}
use axctl_c.Idle.Inhibitors.{inhibitor_get}
use axctl_c.Idle.Waits.{Waited, refused, blocked, answered}
use axctl_c.Server.Methods.{IdleMethod}
use axctl_c.Server.Backend.{Host, Server, Done, plain}
use axctl_c.Server.Dispatch.Idle.{after_wait, update_given, manager_method}

module _ (j : JsonC) {D : Type 0} (s : Server j D) where
  -- The message is the one before, and there is no result if the method failed; the cache, the
  -- subscribed clients and the metadata are as before, nothing is written before the response, and the compositor is not called.
  unfoldable pub Silent : Done j D → Type 0
  Silent done =
      (done.server.error ≡ s.error)
      × (done.failed ≡ true → done.result ≡ none)
      × (done.server.cache ≡ s.cache)
      × (done.server.client_fds ≡ s.client_fds)
      × (done.server.heap ≡ s.heap)
      × (done.sent ≡ [])
      × (done.calls ≡ [])

  unfoldable pub IfDone : Option (Done j D) → Type 0
  unfolding Silent
  IfDone none = Unit
  IfDone (some done) = Silent done

  result_lost :
      {A : Type 0} (r : Option A) (show : A → Option j.Json)
      → (elim r [ none ↦ true | some a ↦ false ]) ≡ true
      → (elim r [ none ↦ none | some a ↦ show a ]) ≡ none
  result_lost none show failed = refl
  result_lost (some a) show failed = ground arith

  after_wait-IfDone :
      {A : Type 0} (reqs : List Request) (w : Waited A) (show : A → Option j.Json)
      → IfDone (after_wait j s (record { requests = reqs; result = w }) show)
  unfolding IfDone Silent
  after_wait-IfDone reqs refused show = (refl, λ failed. refl, refl, refl, refl, refl, refl)
  after_wait-IfDone reqs blocked show = tt
  after_wait-IfDone reqs (answered r) show = (refl, ground arith, refl, refl, refl, refl, refl)

  -- What is looked up first: without it the method fails.
  looked_up-IfDone :
      {A : Type 0} (x : Option A) (f : A → Done j D)
      → ((a : A) → Silent (f a))
      → IfDone (elim x [ none ↦ some (plain j s true none) | some a ↦ some (f a) ])
  unfolding IfDone Silent
  looked_up-IfDone none f silent = (refl, λ failed. refl, refl, refl, refl, refl, refl)
  looked_up-IfDone (some a) f silent = silent a

  update_given-Silent :
      (h : Host j) (im : Manager) (params : Option j.Json) (id : ℕ) (st : MonitorState)
      → Silent (update_given j s h im params id st)
  unfolding update_given Silent
  update_given-Silent h im params id st = (refl, result_lost _ _, refl, refl, refl, refl, refl)

  pub manager_method-IfDone :
      (h : Host j) (im : Manager) (params : Option j.Json) (m : IdleMethod)
      → IfDone (manager_method j s h im params m)
  unfolding IfDone Silent manager_method update_given
  manager_method-IfDone h im params IdleMethod.idle_inhibit =
      (refl, result_lost _ _, refl, refl, refl, refl, refl)
  manager_method-IfDone h im params IdleMethod.idle_wait = after_wait-IfDone _ _ _
  manager_method-IfDone h im params IdleMethod.idle_resume_wait = after_wait-IfDone _ _ _
  manager_method-IfDone h im params IdleMethod.idle_input_idle_wait = after_wait-IfDone _ _ _
  manager_method-IfDone h im params IdleMethod.idle_input_resume_wait = after_wait-IfDone _ _ _
  manager_method-IfDone h im params IdleMethod.idle_is_idle = after_wait-IfDone _ _ _
  manager_method-IfDone h im params IdleMethod.idle_is_input_idle = after_wait-IfDone _ _ _
  manager_method-IfDone h im params IdleMethod.idle_is_inhibited =
      (refl, ground arith, refl, refl, refl, refl, refl)
  manager_method-IfDone h im params IdleMethod.idle_monitor_create =
      (refl, result_lost _ _, refl, refl, refl, refl, refl)
  manager_method-IfDone h im params IdleMethod.idle_monitor_update =
      looked_up-IfDone (monitor_get im _) _ (update_given-Silent h im params _)
  manager_method-IfDone h im params IdleMethod.idle_monitor_get =
      looked_up-IfDone (monitor_get im _) _
        (λ st. (refl, ground arith, refl, refl, refl, refl, refl))
  manager_method-IfDone h im params IdleMethod.idle_monitor_destroy =
      (refl, result_lost _ _, refl, refl, refl, refl, refl)
  manager_method-IfDone h im params IdleMethod.idle_inhibitor_create =
      (refl, result_lost _ _, refl, refl, refl, refl, refl)
  manager_method-IfDone h im params IdleMethod.idle_inhibitor_set =
      (refl, result_lost _ _, refl, refl, refl, refl, refl)
  manager_method-IfDone h im params IdleMethod.idle_inhibitor_get =
      looked_up-IfDone (inhibitor_get im _) _
        (λ st. (refl, ground arith, refl, refl, refl, refl, refl))
  manager_method-IfDone h im params IdleMethod.idle_inhibitor_destroy =
      (refl, result_lost _ _, refl, refl, refl, refl, refl)
  manager_method-IfDone h im params IdleMethod.idle_inhibit_system =
      (refl, λ failed. refl, refl, refl, refl, refl, refl)
  manager_method-IfDone h im params IdleMethod.idle_is_system_inhibited =
      (refl, ground arith, refl, refl, refl, refl, refl)
  manager_method-IfDone h im params IdleMethod.idle_app_inhibit_check =
      (refl, ground arith, refl, refl, refl, refl, refl)
  manager_method-IfDone h im params IdleMethod.idle_media_inhibit_check =
      (refl, ground arith, refl, refl, refl, refl, refl)
