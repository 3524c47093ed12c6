-- ===== src/Cli/Commands/Waits.antt =====
-- The commands of the idle manager: the compositor is asked for nothing, and a wait may have no answer.
use axctl_c.Prelude.{
  ℕ, ◌≡◌, refl, ap, ◌∙◌, ◌⊎◌, inl, inr, true, pos, Bool-cases, List, [], ◌∷◌, Option, none, some,
  CString, codes, str_eq, Option-cases,
}
use mathlib.Core.Path.{subst}
use axctl_c.Json.{JsonC, JsonLaws}
use axctl_c.Types.ToJson.{Doubles}
use axctl_c.Errors.{set_error}
use axctl_c.Idle.State.{Manager, Request}
use axctl_c.Server.Methods.{IdleMethod, idle, method_of}
use axctl_c.Server.Backend.{Backend, Host, Server, Done, plain, to_u32}
use axctl_c.Server.Dispatch.Idle.{after_wait, idle_method, manager_method}
use axctl_c.Idle.Waits.{Waited, refused, blocked, answered, idle_is_idle}
use axctl_c.Json.Helpers.{param_int}
use mathlib.Core.Bool.{not, ◌||◌}
use axctl_c.Server.Dispatch.Silent.{Silent, IfDone, manager_method-IfDone}
use axctl_c.Server.Dispatch.Answer.{handle_request, run_method}
use axctl_c.Cli.{method_for}
use axctl_c.Cli.Params.{method_params}
use axctl_c.Cli.Commands.{inhibit_idle, wait_idle, check_idle, words, meant, request_of, calls_of}
use axctl_c.Cli.Commands.Asked.{asked, asked_none, DoneBy}

module _ (j : JsonC) (laws : JsonLaws j) {D : Type 0} (d : Doubles j D) (b : Backend j) (h : Host j)
    (fd : ℕ) (s : Server j D) (parse : CString → Option j.Json) where
  -- A method, if it returns, has called nothing.
  NoCalls : Option (Done j D) → Type 0
  NoCalls none = Unit
  NoCalls (some done) = done.calls ≡ []

  silent-NoCalls : (ran : Option (Done j D)) → IfDone j s ran → NoCalls ran
  unfolding NoCalls IfDone Silent
  silent-NoCalls none u = tt
  silent-NoCalls (some done) silent = silent.6

  idle_method-NoCalls :
      (params : Option j.Json) (m : IdleMethod) → NoCalls (idle_method j s h params m)
  unfolding NoCalls idle_method
  idle_method-NoCalls params m = elim (Option-cases s.idle_mgr) [
    | inl e ↦ rw (e, idle_method) refl
    | inr (im, e) ↦ rw (e, idle_method) (silent-NoCalls _ (manager_method-IfDone j s h im params m))
  ]

  -- The command whose method returns.
  idle_done :
      (category action : CString) (args : List CString) (m : IdleMethod) (done : Done j D)
      → method_of (method_for category action) ≡ some (idle m)
      → idle_method j s h (some (method_params j parse args (idle m))) m ≡ some done
      → calls_of j (handle_request j d b fd h s (request_of j parse category action args)) ≡ some []
  unfolding NoCalls run_method
  idle_done category action args m done found returns =
      let none_made : done.calls ≡ [] =
        subst (λ ran. NoCalls ran) returns
          (idle_method-NoCalls (some (method_params j parse args (idle m))) m) in
      asked j laws d b h fd s parse category action args (idle m) done found returns
      ∙ ap (λ c. some c) none_made

  -- What a command of the idle manager comes to: no calls, or no answer.
  idle_asked :
      (category action : CString) (args : List CString) (m : IdleMethod)
      → method_of (method_for category action) ≡ some (idle m)
      → (calls_of j (handle_request j d b fd h s (request_of j parse category action args))
          ≡ some [])
        ⊎ (calls_of j (handle_request j d b fd h s (request_of j parse category action args))
            ≡ none)
  unfolding NoCalls run_method
  idle_asked category action args m found =
      let params = some (method_params j parse args (idle m)) in
      elim (Option-cases (idle_method j s h params m)) [
        | inl e ↦ inr (asked_none j laws d b h fd s parse category action args (idle m) found e)
        | inr (done, e) ↦ inl (idle_done category action args m done found e)
      ]

  -- A method returns if it does for every manager.
  idle_method-returns :
      (params : Option j.Json) (m : IdleMethod)
      → ((im : Manager) → (done : Done j D) × (manager_method j s h im params m ≡ some done))
      → (done : Done j D) × (idle_method j s h params m ≡ some done)
  unfolding idle_method
  idle_method-returns params m returns = elim (Option-cases s.idle_mgr) [
    | inl e ↦ (
      plain j (record s { error = set_error s.error (codes "idle not supported") }) true none,
      ap
          (λ mgr. elim mgr [
            | none ↦ some (
                plain j (record s { error = set_error s.error (codes "idle not supported") }) true
                  none)
            | some im ↦ manager_method j s h im params m
          ])
          e,
    )
    | inr (im, e) ↦ ((returns im).0, rw (e, idle_method) (returns im).1)
  ]

  -- A wait that is refused or answered.
  Ends : {A : Type 0} → Waited A → Type 0
  Ends refused = Unit
  Ends blocked = ⊥
  Ends (answered r) = Unit

  after_wait-returns :
      {A : Type 0} (reqs : List Request) (w : Waited A) (show : A → Option j.Json)
      → Ends w
      → (done : Done j D) × (after_wait j s (record { requests = reqs; result = w }) show
          ≡ some done)
  unfolding Ends
  after_wait-returns reqs refused show ends = (_, refl)
  after_wait-returns reqs blocked show ends = elim ends [ ]
  after_wait-returns reqs (answered r) show ends = (_, refl)

  is_idle-Ends : (timeout_ms : ℕ) → Ends (idle_is_idle h.wayland timeout_ms h.events).result
  unfolding Ends idle_is_idle
  is_idle-Ends timeout_ms = elim (Bool-cases (not h.wayland.notifier || not h.wayland.seat)) [
    | inl y ↦ rw (y, idle_is_idle) tt
    | inr n ↦ elim (Option-cases (h.wayland.get_idle_notification timeout_ms)) [
      | inl e ↦ rw (n, idle_is_idle) rw (e) tt
      | inr (p, e) ↦ rw (n, idle_is_idle) rw (e) tt
    ]
  ]

  is_idle-returns :
      (params : Option j.Json) (im : Manager)
      → (done : Done j D) × (manager_method j s h im params IdleMethod.idle_is_idle ≡ some done)
  unfolding manager_method
  is_idle-returns params im =
      let timeout_ms = to_u32 (param_int j params (codes "timeout_ms") (pos 0)) in
      after_wait-returns _ (idle_is_idle h.wayland timeout_ms h.events).result _
        (is_idle-Ends timeout_ms)

  pub inhibit_idle-done : (state : CString) → DoneBy j laws d b h fd s parse (inhibit_idle state)
  unfolding DoneBy words meant method_of method_for str_eq manager_method
  inhibit_idle-done state =
      let (done, returns) = idle_method-returns _ IdleMethod.idle_inhibit (λ im. (_, refl)) in
      idle_done (codes "system") (codes "idle-inhibit") (state ∷ []) IdleMethod.idle_inhibit done
        refl returns

  pub check_idle-done : (ms : CString) → DoneBy j laws d b h fd s parse (check_idle ms)
  unfolding DoneBy words meant method_of method_for str_eq
  check_idle-done ms =
      let (done, returns) = idle_method-returns _ IdleMethod.idle_is_idle (is_idle-returns _) in
      idle_done (codes "system") (codes "is-idle") (ms ∷ []) IdleMethod.idle_is_idle done refl
        returns

  -- The wait.
  pub wait_idle-done :
      (ms : CString)
      → DoneBy j laws d b h fd s parse (wait_idle ms)
        ⊎ (calls_of j (
              handle_request j d b fd h s
                (request_of j parse (codes "system") (codes "idle-wait") (ms ∷ [])))
            ≡ none)
  unfolding DoneBy words meant method_of method_for str_eq
  wait_idle-done ms =
      idle_asked (codes "system") (codes "idle-wait") (ms ∷ []) IdleMethod.idle_wait refl
