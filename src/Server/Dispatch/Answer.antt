-- ===== src/Server/Dispatch/Answer.antt =====
-- src/server/server.c: `dispatch_method` as a whole, the response that `handle_connection` writes, and the
-- connection. The parser of json-c is a parameter: what it finds in each buffer that is read. The text
-- of a response is left out.
use axctl_c.Prelude.{
  ℕ, true, List, [], ◌∷◌, ◌++◌, Option, none, some, CString, codes, if◌then◌else◌,
}
use axctl_c.Json.{JsonC}
use axctl_c.Errors.{set_error, get_error, clear_error}
use axctl_c.Types.ToJson.{Doubles}
use axctl_c.Server.{unsubscribe}
use axctl_c.Server.Methods.{
  Method, window, workspace, monitor, layout_set, config, system, idle, method_of,
}
use axctl_c.Server.Backend.{Backend, Host, Server, Done, plain}
use axctl_c.Server.Dispatch.{
  window_method, workspace_method, monitor_method, layout_set_method, config_method, system_method,
}
use axctl_c.Server.Dispatch.Idle.{idle_method}

module _ (j : JsonC) where
  -- What the response has behind its id: an error, or a result.
  unfoldable pub outcome_field : CString → Option j.Json → CString × j.Json
  outcome_field (c ∷ err) result = (codes "error", j.new_string (c ∷ err))
  outcome_field [] (some r) = (codes "result", r)
  outcome_field [] none = (codes "result", j.new_string (codes "ok"))

  unfoldable pub response : Option j.Json → CString → Option j.Json → j.Json
  unfolding outcome_field
  response id err result =
      let (key, value) = outcome_field err result in
      let named : j.Json = elim id [
        | none ↦ j.new_object
        | some i ↦ j.object_add j.new_object (codes "id") i
      ] in
      j.object_add named key value

  -- The text of the method, which is empty if there is none.
  unfoldable pub method_text : j.Json → CString
  method_text req = elim (j.object_get req (codes "method")) [
    | none ↦ []
    | some m ↦ elim (j.get_string m) [ none ↦ [] | some s ↦ s ]
  ]

  -- What the parser finds when a buffer is read.
  pub data Read : Type 0 where
    request : Host j → j.Json → Read
    partial malformed : Read

module _ (j : JsonC) {D : Type 0} where
  -- The last `if`: a failure with no result has a result all the same.
  unfoldable pub error_result : Done j D → Done j D
  error_result done = elim done.result [
    | none ↦
        if done.failed then record done { result = some (j.new_string (codes "error")) } else done
    | some r ↦ done
  ]

  module _ (d : Doubles j D) (b : Backend j) (h : Host j) (client_fd : ℕ) where
    unfoldable pub run_method : Server j D → Option j.Json → Method → Option (Done j D)
    run_method s params (window m) = some (window_method j b s params m)
    run_method s params (workspace m) = some (workspace_method j b s params m)
    run_method s params (monitor m) = some (monitor_method j b s params d m)
    run_method s params layout_set = some (layout_set_method j b s params)
    run_method s params (config m) = some (config_method j b s params m)
    run_method s params (system m) = some (system_method j b s params d client_fd m)
    run_method s params (idle m) = idle_method j s h params m

    -- The last branch of the chain.
    unfoldable pub no_method : Server j D → Done j D
    unfolding set_error
    no_method s =
        plain j (record s { error = set_error s.error (codes "method not found") }) true none

    unfoldable pub dispatch_method : Server j D → CString → Option j.Json → Option (Done j D)
    unfolding run_method no_method error_result
    dispatch_method s method params =
        let ran : Option (Done j D) = elim (method_of method) [
          | none ↦ some (no_method s)
          | some m ↦ run_method s params m
        ] in
        elim ran [ none ↦ none | some done ↦ some (error_result done) ]

  -- The message is cleared once it is in a response.
  unfoldable pub take_error : Server j D → Server j D
  unfolding clear_error
  take_error s = record s { error = clear_error s.error }

  module _ (d : Doubles j D) (b : Backend j) (client_fd : ℕ) where
    -- One request: the state afterwards, what the method did, and the response.
    unfoldable pub handle_request :
        Host j → Server j D → j.Json → Option (Server j D × Done j D × j.Json)
    unfolding dispatch_method response take_error get_error method_text
    handle_request h s req =
        elim (dispatch_method d b h client_fd s (method_text j req)
          (j.object_get req (codes "params"))) [
            | none ↦ none
            | some done ↦ some (
              take_error done.server,
              done,
              response j (j.object_get req (codes "id")) (get_error done.server.error) done.result,
            )
          ]

  -- The connection, from its first read to its end: the state, and what is written to the client in order;
  -- `none` if a request is never answered.
  unfoldable pub serve :
      Doubles j D → Backend j → ℕ → Server j D → List (Read j) → Option (Server j D × List j.Json)
  unfolding handle_request unsubscribe
  serve d b fd s [] = some (record s { client_fds = unsubscribe s.client_fds fd }, [])
  serve d b fd s (partial ∷ reads) = serve d b fd s reads
  serve d b fd s (malformed ∷ reads) = serve d b fd s reads
  serve d b fd s (request h req ∷ reads) = elim (handle_request d b fd h s req) [
    | none ↦ none
    | some (s', done, resp) ↦ elim (serve d b fd s' reads) [
      | none ↦ none
      | some (s'', resps) ↦ some (s'', done.sent ++ resp ∷ resps)
    ]
  ]
