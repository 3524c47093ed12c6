-- ===== src/Idle/Waiting.antt =====
-- When the blocking waits of src/server/idle.c return.
use axctl_c.Prelude.{
  ◌≡◌, refl, ap, ◌∙◌, inl, inr, Bool-cases, ℕ, Bool, true, false, ◌||◌, List, [], ◌∷◌, ◌++◌, some,
  arith,
}
use axctl_c.Idle.State.{Wayland, flush}
use axctl_c.Idle.Waits.{
  Fired, idled, resumed, Oneshot, oneshot_ctx_new, oneshot_event, wait_for, deliver, blocked,
  answered, WaitOutcome, opening, closing, wait_on, wait_flag, idle_wait, idle_wait_resume,
  idle_is_idle,
}

-- Is the event among those that come?
pub comes : Fired → List Fired → Bool
comes e [] = false
comes idled (idled ∷ events) = true
comes idled (resumed ∷ events) = comes idled events
comes resumed (resumed ∷ events) = true
comes resumed (idled ∷ events) = comes resumed events

wait_for-fired :
    (r : Bool) (events : List Fired)
    → wait_for (λ ctx. ctx.fired) (record { fired = false; resumed = r }) events
      ≡ comes idled events
unfolding wait_for oneshot_event comes
wait_for-fired r [] = refl
wait_for-fired r (idled ∷ []) = refl
wait_for-fired r (idled ∷ idled ∷ events) = refl
wait_for-fired r (idled ∷ resumed ∷ events) = refl
wait_for-fired r (resumed ∷ events) = wait_for-fired true events

wait_for-resumed :
    (f : Bool) (events : List Fired)
    → wait_for (λ ctx. ctx.resumed) (record { fired = f; resumed = false }) events
      ≡ comes resumed events
unfolding wait_for oneshot_event comes
wait_for-resumed f [] = refl
wait_for-resumed f (resumed ∷ []) = refl
wait_for-resumed f (resumed ∷ idled ∷ events) = refl
wait_for-resumed f (resumed ∷ resumed ∷ events) = refl
wait_for-resumed f (idled ∷ events) = wait_for-resumed true events

deliver-fired :
    (ctx : Oneshot) (events : List Fired)
    → (deliver ctx events).fired ≡ (ctx.fired || comes idled events)
unfolding deliver oneshot_event comes
deliver-fired ctx [] = ground arith
deliver-fired ctx (idled ∷ events) = ground (arith, deliver-fired (oneshot_event idled ctx) events)
deliver-fired ctx (resumed ∷ events) = deliver-fired (oneshot_event resumed ctx) events

-- A wait that has its notification `p`: it returns if the event comes, and has destroyed the
-- notification then; if not, it goes on waiting, with the notification.
pub waited : ℕ → Bool → WaitOutcome (Unit {0})
waited p true = record { requests = opening p ++ closing p; result = answered tt }
waited p false = record { requests = opening p; result = blocked }

-- The check, which returns in any case.
pub checked : ℕ → Bool → WaitOutcome Bool
checked p idle = record { requests = opening p ++ (flush ∷ closing p); result = answered idle }

wait_on-wait_for :
    (test : Oneshot → Bool) (p : ℕ) (events : List Fired)
    → wait_on test p events ≡ waited p (wait_for test oneshot_ctx_new events)
unfolding wait_on waited
wait_on-wait_for test p events = elim (Bool-cases (wait_for test oneshot_ctx_new events)) [
  | inl y ↦ rw (y, wait_on) refl
  | inr n ↦ rw (n, wait_on) refl
]

-- With a notifier, a seat and a notification `p`, the wait for idleness returns exactly when Wayland
-- ever reports idleness, and the wait for activity exactly when it ever reports activity, whatever
-- else is reported before; on return the notification is destroyed, once. The check of idleness
-- always returns, with the notification destroyed, and answers if idleness was reported.
pub waits_return :
    (w : Wayland) (timeout_ms p : ℕ) (events : List Fired)
    → w.notifier ≡ true
    → w.seat ≡ true
    → w.get_idle_notification timeout_ms ≡ some p
    → (idle_wait w timeout_ms events ≡ waited p (comes idled events))
      × (idle_wait_resume w timeout_ms events ≡ waited p (comes resumed events))
      × (idle_is_idle w timeout_ms events ≡ checked p (comes idled events))
unfolding idle_wait idle_wait_resume idle_is_idle wait_flag checked
waits_return w timeout_ms p events notifier seat got = (
  rw (notifier, seat, wait_flag) rw (got)
      (wait_on-wait_for (λ ctx. ctx.fired) p events ∙ ap (waited p) (wait_for-fired false events)),
  rw (notifier, seat, wait_flag) rw (got)
      (wait_on-wait_for (λ ctx. ctx.resumed) p events
        ∙ ap (waited p) (wait_for-resumed false events)),
  rw (notifier, seat, idle_is_idle) rw (got)
      (ap (checked p) (deliver-fired oneshot_ctx_new events)),
)
