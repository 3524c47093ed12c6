-- ===== src/Idle/Waits.antt =====
-- src/server/idle.c: the blocking waits, which make a notification of their own. The events that Wayland
-- delivers to it are a list; a wait that has used the list up and goes on waiting is `blocked`.
use axctl_c.Prelude.{
  ℕ, Bool, true, false, not, ◌||◌, List, [], ◌∷◌, ◌++◌, none, some, if◌then◌else◌,
}
use axctl_c.Idle.State.{
  Wayland, Request, get_notification, add_listener, destroy_notification, flush,
}

-- `oneshot_idled` and `oneshot_resumed`
pub data Fired : Type 0 where
  idled resumed : Fired

-- The flags of `oneshot_ctx_t`.
pub record Oneshot : Type 0 where
  pub fired : Bool
  pub resumed : Bool

abbrev pub oneshot_ctx_new : Oneshot
oneshot_ctx_new = record { fired = false; resumed = false }

unfoldable pub oneshot_event : Fired → Oneshot → Oneshot
oneshot_event Fired.idled ctx = record ctx { fired = true }
oneshot_event Fired.resumed ctx = record ctx { resumed = true }

-- The loop on the condition variable: does it end?
unfoldable pub wait_for : (Oneshot → Bool) → Oneshot → List Fired → Bool
unfolding oneshot_event
wait_for test ctx [] = test ctx
wait_for test ctx (e ∷ events) =
    let rest = wait_for test (oneshot_event e ctx) events in if test ctx then true else rest

-- All events, with no wait for them.
unfoldable pub deliver : Oneshot → List Fired → Oneshot
unfolding oneshot_event
deliver ctx [] = ctx
deliver ctx (e ∷ events) = deliver (oneshot_event e ctx) events

pub data Waited (A : Type 0) : Type 0 where
  refused : Waited A
  blocked : Waited A
  answered : A → Waited A

pub record WaitOutcome (A : Type 0) : Type 0 where
  pub requests : List Request
  pub result : Waited A

abbrev refuse : {A : Type 0} → WaitOutcome A
refuse = record { requests = []; result = refused }

-- The requests of a wait until it blocks, and those after it.
abbrev pub opening : ℕ → List Request
opening p = get_notification p ∷ add_listener p ∷ flush ∷ []

abbrev pub closing : ℕ → List Request
closing p = destroy_notification p ∷ flush ∷ []

-- The wait on the notification `p`.
unfoldable pub wait_on : (Oneshot → Bool) → ℕ → List Fired → WaitOutcome (Unit {0})
unfolding wait_for
wait_on test p events =
    if wait_for test oneshot_ctx_new events
    then record { requests = opening p ++ closing p; result = answered tt }
    else record { requests = opening p; result = blocked }

-- `axctl_idle_wait` and `axctl_idle_wait_resume`, which differ in the flag that they wait for.
unfoldable pub wait_flag : (Oneshot → Bool) → Wayland → ℕ → List Fired → WaitOutcome (Unit {0})
unfolding wait_on
wait_flag test w timeout_ms events =
    if not w.notifier || not w.seat then refuse else elim (w.get_idle_notification timeout_ms) [
      | none ↦ refuse
      | some p ↦ wait_on test p events
    ]

unfoldable pub idle_wait : Wayland → ℕ → List Fired → WaitOutcome (Unit {0})
unfolding wait_flag
idle_wait w timeout_ms events = wait_flag (λ ctx. ctx.fired) w timeout_ms events

unfoldable pub idle_wait_resume : Wayland → ℕ → List Fired → WaitOutcome (Unit {0})
unfolding wait_flag
idle_wait_resume w timeout_ms events = wait_flag (λ ctx. ctx.resumed) w timeout_ms events

unfoldable pub idle_wait_input : Wayland → ℕ → List Fired → WaitOutcome (Unit {0})
unfolding idle_wait
idle_wait_input w timeout_ms events = idle_wait w timeout_ms events

unfoldable pub idle_wait_input_resume : Wayland → ℕ → List Fired → WaitOutcome (Unit {0})
unfolding idle_wait_resume
idle_wait_input_resume w timeout_ms events = idle_wait_resume w timeout_ms events

-- The events are those of the 50 ms that the check sleeps.
unfoldable pub idle_is_idle : Wayland → ℕ → List Fired → WaitOutcome Bool
unfolding deliver
idle_is_idle w timeout_ms events =
    if not w.notifier || not w.seat then refuse else elim (w.get_idle_notification timeout_ms) [
      | none ↦ refuse
      | some p ↦ record {
        requests = opening p ++ (flush ∷ closing p);
        result = answered (deliver oneshot_ctx_new events).fired;
      }
    ]

unfoldable pub idle_is_input_idle : Wayland → ℕ → List Fired → WaitOutcome Bool
unfolding idle_is_idle
idle_is_input_idle w timeout_ms events = idle_is_idle w timeout_ms events
