-- ===== src/Server/Tests.antt =====
-- Subscriptions at concrete descriptors.
use axctl_c.Prelude.{
  ◌≡◌, ◌≤◌, ◌<◌, ◌⊎◌, refl, true, false, List, [], ◌∷◌, arith, codes, length, some, none, ℤ, str_eq,
}
use axctl_c.Server.{subscribe, unsubscribe, broadcast}
use axctl_c.Server.Entries.{Step, subscribes, closes, step, run, received, length-run}
use axctl_c.Server.Clients.{live_after, broadcast-run, subscribe-run, subscribe_twice}
use axctl_c.Json.Values.{values, values-JsonLaws, text}
use axctl_c.Server.Samples.{doubles, backend, host, server}
use axctl_c.Server.Backend.{Done, plain}
use axctl_c.Server.Dispatch.{system_method}
use axctl_c.Server.Dump.{build_state_dump, subscribe_messages}
use axctl_c.Server.Methods.{find_method, method_of}
use axctl_c.Server.Dispatch.Answer.{run_method, error_result, dispatch_method}
use axctl_c.Server.Dispatch.Kept.{kind, clients_after, IsMetadataAfter, dispatch_method-Kept}

-- Three connections, the first of which goes.
abbrev three : List Step
three = subscribes 5 ∷ subscribes 6 ∷ subscribes 7 ∷ closes 5 ∷ []

-- The last entry takes the place of the one given up.
three_left : run [] three ≡ 7 ∷ 6 ∷ []
unfolding run step subscribe unsubscribe
three_left = refl

three_live : live_after (λ fd. false) three 5 ≡ false
unfolding live_after
three_live = refl

length-run_example : length (run (5 ∷ []) three) ≤ 64
length-run_example = length-run (5 ∷ []) three (omega arith)

broadcast-run_example :
    let bytes = received 7 (broadcast (run [] three) (codes "{}")) in
    (bytes ≡ []) ⊎ ((live_after (λ fd. false) three 7 ≡ true) × (bytes ≡ codes "{}\n"))
broadcast-run_example = broadcast-run three (codes "{}") 7 (refl, (refl, (refl, tt)))

one_before : length (run [] (subscribes 5 ∷ [])) < 64
unfolding run step subscribe
one_before = omega arith

subscribe-run_example : received 6 (broadcast (run [] three) (codes "{}")) ≡ codes "{}\n"
subscribe-run_example =
    subscribe-run (subscribes 5 ∷ []) (subscribes 7 ∷ closes 5 ∷ []) 6 (codes "{}")
      (refl, (refl, (refl, tt))) one_before (omega arith, tt)

subscribe_twice_example :
    received 6 (broadcast (run (5 ∷ []) (subscribes 6 ∷ subscribes 6 ∷ closes 6 ∷ [])) (codes "{}"))
    ≡ codes "{}\n"
subscribe_twice_example = subscribe_twice (5 ∷ []) 6 (codes "{}") (omega arith) refl

-- What the subscription of the descriptor 5 does.
abbrev subscribed_too : Done values ℤ
subscribed_too =
    let (state, heap') = build_state_dump values doubles server.heap server.cache in
    record (plain values
      (record server { heap = heap'; client_fds = subscribe server.client_fds 5 }) false
      (some (text (codes "subscribed")))) { sent = subscribe_messages values doubles state }

subscribed_too-done :
    dispatch_method values doubles backend host 5 server (codes "System.Subscribe") none
    ≡ some subscribed_too
unfolding dispatch_method method_of find_method run_method system_method error_result str_eq
subscribed_too-done = refl

dispatch_method-Kept_example :
    (subscribed_too.server.cache ≡ server.cache)
    × (subscribed_too.server.client_fds
        ≡ clients_after values server 5 (kind (method_of (codes "System.Subscribe"))))
    × IsMetadataAfter values server
        (kind (method_of (codes "System.Subscribe")))
        subscribed_too.server.heap
dispatch_method-Kept_example =
    dispatch_method-Kept values values-JsonLaws doubles backend server none host 5
      (codes "System.Subscribe") subscribed_too subscribed_too-done
