-- ===== src/Cli/Failures.antt =====
-- What the client prints when an operation of the idle manager fails.
use axctl_c.Prelude.{◌≡◌, refl, ap, ◌∙◌, ℕ, true, [], Option, some, codes, str_eq}
use mathlib.Core.Path.{subst}
use axctl_c.Json.{JsonC, JsonLaws}
use axctl_c.Types.ToJson.{Doubles}
use axctl_c.Idle.State.{Manager}
use axctl_c.Server.Methods.{IdleMethod, idle, method_of}
use axctl_c.Server.Backend.{Backend, Host, Server, Done}
use axctl_c.Server.Dispatch.Idle.{idle_method, manager_method}
use axctl_c.Server.Dispatch.Answer.{
  method_text, run_method, error_result, dispatch_method, handle_request,
}
use axctl_c.Server.Dispatch.Silent.{Silent, IfDone, manager_method-IfDone}
use axctl_c.Server.Dispatch.Kept.{kind}
use axctl_c.Cli.{json}
use axctl_c.Cli.Printing.{shown, outcome, printed, seen, seen_of, print_response-handle_request}

shown-error :
    (j : JsonC)
    → JsonLaws j
    → shown j (some (j.new_string (codes "error"))) ≡ json (j.new_string (codes "error"))
unfolding shown str_eq
shown-error j laws = rw (laws.get_string-new_string (codes "error"), shown) refl

module _ (j : JsonC) (laws : JsonLaws j) {D : Type 0} (d : Doubles j D) (b : Backend j) (fd : ℕ)
    (h : Host j) (s : Server j D) (req : j.Json) (m : IdleMethod) (im : Manager)
    (raw : Done j D) where
  abbrev params : Option j.Json
  params = j.object_get req (codes "params")

  -- When the daemon has an idle manager and no message is set, an operation of the idle manager that
  -- returns with a failure is answered with the request's id and no error: the client prints the
  -- text `error` as a result.
  pub handle_request_silent :
      method_of (method_text j req) ≡ some (idle m)
      → s.idle_mgr ≡ some im
      → s.error ≡ []
      → manager_method j s h im params m ≡ some raw
      → raw.failed ≡ true
      → seen j (handle_request j d b fd h s req)
        ≡ some (
          record raw.server { error = [] },
          json (j.new_string (codes "error")),
          j.object_get req (codes "id"),
        )
  unfolding Silent IfDone seen_of printed kind outcome dispatch_method run_method idle_method
      error_result str_eq
  handle_request_silent found manager quiet ran failed =
      let done : IfDone j s (some raw) =
        subst (λ x. IfDone j s x) ran (manager_method-IfDone j s h im params m) in
      let e : error_result j raw ≡ record raw { result = some (j.new_string (codes "error")) } =
        rw (done.1 failed, error_result) rw (failed) refl in
      let dispatched : dispatch_method j d b h fd s (method_text j req) params
          ≡ some (record raw { result = some (j.new_string (codes "error")) }) =
        rw (found, dispatch_method) rw (manager, idle_method) rw (ran) (ap (λ x. some x) e) in
      print_response-handle_request j laws d b fd h s req
      ∙ ap (seen_of j req) dispatched
      ∙ rw (done.0, quiet, found)
          (ap (λ p. some (record raw.server { error = [] }, p, j.object_get req (codes "id")))
            (shown-error j laws))
