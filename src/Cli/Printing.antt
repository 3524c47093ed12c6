-- ===== src/Cli/Printing.antt =====
-- src/main.c and src/server/server.c together: what the client prints of the server's response.
use axctl_c.Prelude.{
  suc, ltb, length, arith, ◌≡◌, refl, ◌∙◌, inl, inr, ℕ, Bool, true, false, List, [], ◌∷◌, Option,
  none, some, CString, codes, str_eq, if◌then◌else◌, Option-cases,
}
use axctl_c.Json.{JsonC, JsonLaws}
use axctl_c.Errors.{get_error, clear_error}
use axctl_c.Types.ToJson.{Doubles, add_all}
use axctl_c.Server.Backend.{Backend, Host, Server, Done}
use axctl_c.Server.Methods.{method_of}
use axctl_c.Server.Dump.{subscribe_messages}
use axctl_c.Server.Dispatch.Kept.{
  Kind, subscribes, lists, remaining, kind, sent_before, dispatch_method-sent,
}
use axctl_c.Server.Dispatch.Answer.{
  take_error, outcome_field, response, method_text, dispatch_method, handle_request,
}
use axctl_c.Cli.{Printed, nothing, error, success, json, print_result, print_response}

module _ (j : JsonC) where
  -- A result, as it is printed.
  unfoldable pub shown : Option j.Json → Printed j
  shown none = success
  shown (some r) = elim (j.get_string r) [
    | none ↦ json r
    | some s ↦ if str_eq s (codes "ok") then success else json r
  ]

  -- What is to be printed of a message and a result: the message, if there is one.
  unfoldable pub outcome : CString → Option j.Json → Printed j
  unfolding shown
  outcome [] result = shown result
  outcome (c ∷ message) result = error (c ∷ message)

  -- What `handle_rpc` takes for the response: the parser gives the first object of its one read,
  -- which is the first that was written, if that is not too long for the read.
  unfoldable pub first_message : List j.Json → j.Json → j.Json
  first_message [] resp = resp
  first_message (message ∷ messages) resp = message

  module _ {D : Type 0} where
    -- What is seen of a request that is handled: the state, what the client prints, the response's id.
    unfoldable pub seen :
        Option (Server j D × Done j D × j.Json) → Option (Server j D × Printed j × Option j.Json)
    unfolding first_message
    seen none = none
    seen (some (s', done, resp)) =
        some (s', print_response j (first_message done.sent resp), j.object_get resp (codes "id"))

    -- What is to be printed, by the kind of the method.
    unfoldable pub printed : Kind → Done j D → Printed j
    unfolding outcome
    printed subscribes done = nothing
    printed lists done = outcome done.server.error done.result
    printed remaining done = outcome done.server.error done.result

    unfoldable pub seen_of :
        j.Json → Option (Done j D) → Option (Server j D × Printed j × Option j.Json)
    unfolding printed
    seen_of req none = none
    seen_of req (some done) = some (
      record done.server { error = [] },
      printed (kind (method_of (method_text j req))) done,
      j.object_get req (codes "id"),
    )

  module _ (laws : JsonLaws j) where
    field :
        (o v : j.Json) (k k' : CString) (same : Bool)
        → str_eq k k' ≡ same
        → j.object_get (j.object_add o k v) k' ≡ (if same then some v else j.object_get o k')
    field o v k k' same e = laws.get-add o v k k' ∙ rw (e) refl

    -- What a response has before its outcome.
    named : Option j.Json → j.Json
    named id = elim id [ none ↦ j.new_object | some i ↦ j.object_add j.new_object (codes "id") i ]

    no_error : (id : Option j.Json) → j.object_get (named id) (codes "error") ≡ none
    unfolding named str_eq
    no_error none = laws.get-new_object (codes "error")
    no_error (some i) =
        field j.new_object i (codes "id") (codes "error") false refl
        ∙ laws.get-new_object (codes "error")

    print_result-response :
        (o r : j.Json)
        → j.object_get o (codes "error") ≡ none
        → print_response j (j.object_add o (codes "result") r) ≡ shown (some r)
    unfolding print_response print_result shown str_eq
    print_result-response o r absent =
        let e : j.object_get (j.object_add o (codes "result") r) (codes "error") ≡ none =
          field o r (codes "result") (codes "error") false refl ∙ absent in
        let f : j.object_get (j.object_add o (codes "result") r) (codes "result") ≡ some r =
          field o r (codes "result") (codes "result") true refl in
        rw (e, print_response) rw (f, print_result) refl

    print_response-response :
        (id : Option j.Json) (message : CString) (result : Option j.Json)
        → print_response j (response j id message result) ≡ outcome message result
    unfolding response outcome_field outcome shown named print_response str_eq
    print_response-response id [] (some r) = print_result-response (named id) r (no_error id)
    print_response-response id [] none =
        print_result-response (named id) (j.new_string (codes "ok")) (no_error id)
        ∙ rw (laws.get_string-new_string, shown) refl
    print_response-response id (c ∷ message) result =
        let e : j.object_get (j.object_add (named id) (codes "error") (j.new_string (c ∷ message)))
              (codes "error")
            ≡ some (j.new_string (c ∷ message)) =
          field (named id) (j.new_string (c ∷ message)) (codes "error") (codes "error") true refl in
        let given : ltb 0 (suc (length message)) ≡ true = ground arith in
        rw (e, print_response) rw (laws.get_string_len-new_string) rw (given) rw
          (laws.get_string-new_string) refl

    get_id :
        (id : Option j.Json) (key : CString) (v : j.Json)
        → str_eq key (codes "id") ≡ false
        → j.object_get (j.object_add (named id) key v) (codes "id") ≡ id
    unfolding named str_eq
    get_id none key v other =
        field j.new_object v key (codes "id") false other ∙ laws.get-new_object (codes "id")
    get_id (some i) key v other =
        field (j.object_add j.new_object (codes "id") i) v key (codes "id") false other
        ∙ field j.new_object i (codes "id") (codes "id") true refl

    get_id-response :
        (id : Option j.Json) (message : CString) (result : Option j.Json)
        → j.object_get (response j id message result) (codes "id") ≡ id
    unfolding response outcome_field named str_eq
    get_id-response id [] (some r) = get_id id (codes "result") r refl
    get_id-response id [] none = get_id id (codes "result") (j.new_string (codes "ok")) refl
    get_id-response id (c ∷ message) result =
        get_id id (codes "error") (j.new_string (c ∷ message)) refl

    module _ {D : Type 0} (d : Doubles j D) (b : Backend j) (fd : ℕ) (h : Host j)
        (s : Server j D) where
      -- The notification of the state has neither an error nor a result.
      print_response-dump :
          (state resp : j.Json)
          → print_response j (first_message (subscribe_messages j d state) resp) ≡ nothing
      unfolding first_message subscribe_messages add_all print_response print_result str_eq
      print_response-dump state resp =
          let named = j.object_add j.new_object (codes "jsonrpc") (j.new_string (codes "2.0")) in
          let called = j.object_add named (codes "method") (j.new_string (codes "State.Dump")) in
          let dump = j.object_add called (codes "state") state in
          let absent : (key : CString)
              → str_eq (codes "jsonrpc") key ≡ false
              → str_eq (codes "method") key ≡ false
              → str_eq (codes "state") key ≡ false
              → j.object_get dump key ≡ none =
            λ key n m o.
              field called state (codes "state") key false o
              ∙ field named _ (codes "method") key false m
              ∙ field j.new_object _ (codes "jsonrpc") key false n
              ∙ laws.get-new_object key in
          rw (absent (codes "error") refl refl refl, print_response) rw
            (absent (codes "result") refl refl refl, print_result) refl

      printed_first :
          (k : Kind) (done : Done j D) (resp : j.Json)
          → print_response j resp ≡ outcome done.server.error done.result
          → done.sent ≡ sent_before j laws d b s k
          → print_response j (first_message done.sent resp) ≡ printed k done
      unfolding first_message printed sent_before
      printed_first subscribes done resp p e = rw (e) (print_response-dump _ resp)
      printed_first lists done resp p e = rw (e) p
      printed_first remaining done resp p e = rw (e) p

      -- A request is answered exactly when its method returns. The response has the request's id, and
      -- the message is cleared for the next request. If the first message that the server writes fits in
      -- the client's one read, the client prints the error message that the method left, or else its
      -- result, which is a success if there is none; but for `System.Subscribe` it prints nothing, since
      -- the state is written before the response.
      pub print_response-handle_request :
          (req : j.Json)
          → seen (handle_request j d b fd h s req)
            ≡ seen_of req (
                dispatch_method j d b h fd s
                  (method_text j req)
                  (j.object_get req (codes "params")))
      unfolding seen seen_of handle_request take_error get_error clear_error
      print_response-handle_request req =
          let params = j.object_get req (codes "params") in
          elim (Option-cases (dispatch_method j d b h fd s (method_text j req) params)) [
            | inl e ↦ rw (e, handle_request) refl
            | inr (done, e) ↦
                let id : Option j.Json = j.object_get req (codes "id") in
                let p =
                  printed_first (kind (method_of (method_text j req))) done _
                    (print_response-response id done.server.error done.result)
                    (dispatch_method-sent j laws d b s params h fd (method_text j req) done e) in
                let i = get_id-response id done.server.error done.result in
                rw (e, handle_request) rw (p, i) refl
          ]
