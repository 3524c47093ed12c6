-- ===== src/Cli/Commands/Asked.antt =====
-- The calls that the server makes for a request of the client.
use axctl_c.Prelude.{
  ℕ, ◌≡◌, refl, ap, ◌∙◌, true, List, Option, none, some, CString, codes, str_eq, pos, Option-cases,
  Bool-cases, inl, inr,
}
use axctl_c.Json.{JsonC, JsonLaws}
use axctl_c.Json.Helpers.{param_str}
use axctl_c.Types.ToJson.{Doubles}
use axctl_c.Server.Methods.{Method, method_of}
use axctl_c.Server.Backend.{Call, Backend, Host, Server, Done, perform}
use axctl_c.Server.Dispatch.{on_window}
use axctl_c.Server.Dispatch.Answer.{
  method_text, run_method, error_result, dispatch_method, handle_request,
}
use axctl_c.Cli.{method_for, request_for}
use axctl_c.Cli.Params.{add_text, method_params, rpc_params}
use axctl_c.Cli.Commands.Reads.{get_same, get_other, get_text}
use axctl_c.Cli.Commands.{calls_of, Command, words, meant, on, request_of}

module _ (j : JsonC) (laws : JsonLaws j) where
  -- What the server reads of a request.
  method_text-request_of :
      (parse : CString → Option j.Json) (category action : CString) (args : List CString)
      → method_text j (request_of j parse category action args) ≡ method_for category action
  unfolding request_of request_for str_eq method_text
  method_text-request_of parse category action args =
      let method : CString = method_for category action in
      let o : j.Json = j.object_add j.new_object (codes "id") (j.new_int (pos 1)) in
      let params : j.Json = rpc_params j parse args method in
      let e : j.object_get (request_of j parse category action args) (codes "method")
          ≡ some (j.new_string method) =
        get_other j laws (j.object_add o (codes "method") (j.new_string method)) params refl
        ∙ get_same j laws o (j.new_string method) refl in
      rw (e, method_text) rw (laws.get_string-new_string) refl

  get-request_of :
      (parse : CString → Option j.Json) (category action : CString) (args : List CString)
      → j.object_get (request_of j parse category action args) (codes "params")
        ≡ some (rpc_params j parse args (method_for category action))
  unfolding request_of request_for str_eq
  get-request_of parse category action args =
      let method : CString = method_for category action in
      let o : j.Json = j.object_add j.new_object (codes "id") (j.new_int (pos 1)) in
      get_same j laws (j.object_add o (codes "method") (j.new_string method))
        (rpc_params j parse args method) refl

  -- The calls that a method makes are those of the answered request.
  error_result-calls : {D : Type 0} (done : Done j D) → (error_result j done).calls ≡ done.calls
  unfolding error_result
  error_result-calls done = elim (Option-cases done.result) [
    | inl e ↦ elim (Bool-cases done.failed) [
      | inl y ↦ rw (e, y, error_result) refl
      | inr n ↦ rw (e, n, error_result) refl
    ]
    | inr (r, e) ↦ rw (e, error_result) refl
  ]

  module _ {D : Type 0} (d : Doubles j D) (b : Backend j) (h : Host j) (fd : ℕ) (s : Server j D)
      (parse : CString → Option j.Json) where
    -- Whether the method returns or not.
    dispatched :
        (category action : CString) (args : List CString) (m : Method) (ran : Option (Done j D))
        → method_of (method_for category action) ≡ some m
        → run_method j d b h fd s (some (method_params j parse args m)) m ≡ ran
        → dispatch_method j d b h fd s
            (method_text j (request_of j parse category action args))
            (j.object_get (request_of j parse category action args) (codes "params"))
          ≡ (elim ran [ none ↦ none | some done ↦ some (error_result j done) ])
    unfolding dispatch_method rpc_params
    dispatched category action args m ran found returns =
        let params : rpc_params j parse args (method_for category action)
            ≡ method_params j parse args m =
          rw (found, rpc_params) refl in
        let got = get-request_of parse category action args ∙ ap (λ p. some p) params in
        let text = method_text-request_of parse category action args in
        rw (text, got) rw (found, dispatch_method) rw (returns) refl

    pub asked :
        (category action : CString) (args : List CString) (m : Method) (done : Done j D)
        → method_of (method_for category action) ≡ some m
        → run_method j d b h fd s (some (method_params j parse args m)) m ≡ some done
        → calls_of j (handle_request j d b fd h s (request_of j parse category action args))
          ≡ some done.calls
    unfolding calls_of handle_request
    asked category action args m done found ran =
        rw (dispatched category action args m (some done) found ran, handle_request)
          (ap (λ c. some c) (error_result-calls done))

    pub asked_none :
        (category action : CString) (args : List CString) (m : Method)
        → method_of (method_for category action) ≡ some m
        → run_method j d b h fd s (some (method_params j parse args m)) m ≡ none
        → calls_of j (handle_request j d b fd h s (request_of j parse category action args)) ≡ none
    unfolding calls_of handle_request
    asked_none category action args m found ran =
        rw (dispatched category action args m none found ran, handle_request) refl

    pub on_window-calls :
        (params : j.Json) (key : CString) (id : Option CString) (call : CString → Call j)
        → param_str j (some params) key ≡ id
        → (on_window j b s (some params) key call).calls ≡ on j b id call
    unfolding on_window perform
    on_window-calls params key id call e = rw (e, on_window) refl

    -- One text as the only parameter.
    pub only :
        (key : CString) (arg : Option CString)
        → str_eq key key ≡ true
        → param_str j (some (add_text j j.new_object key arg)) key ≡ arg
    only key arg same = get_text j laws j.new_object key arg same (laws.get-new_object key)

    unfoldable pub DoneBy : Command → Type 0
    unfolding words meant
    DoneBy c =
        let (category, action, args) = words c in
        calls_of j (handle_request j d b fd h s (request_of j parse category action args))
        ≡ some (meant j b parse c)

    -- A method on a window, with the key that names it.
    pub on_named :
        (category action : CString) (args : List CString) (m : Method) (params : j.Json)
        (key : CString) (id : Option CString) (call : CString → Call j)
        → method_of (method_for category action) ≡ some m
        → run_method j d b h fd s (some (method_params j parse args m)) m
          ≡ some (on_window j b s (some params) key call)
        → param_str j (some params) key ≡ id
        → calls_of j (handle_request j d b fd h s (request_of j parse category action args))
          ≡ some (on j b id call)
    on_named category action args m params key id call found ran read =
        asked category action args m _ found ran
        ∙ ap (λ c. some c) (on_window-calls params key id call read)
