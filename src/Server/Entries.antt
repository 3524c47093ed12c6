-- ===== src/Server/Entries.antt =====
-- The entries of the list of clients, over sequences of subscriptions and closed connections.
use axctl_c.Prelude.{
  ℕ, suc, ◌+◌, ◌-◌, ◌≤◌, ◌≡◌, refl, ap, List, [], ◌∷◌, ◌++◌, arith, ◌==◌, if◌then◌else◌, length,
  length-append, CString,
}
use axctl_c.Server.{max_clients, subscribe, last_of, init_of, fill_with_last, unsubscribe, Write}

-- The connection with this descriptor subscribes, or is closed.
pub data Step : Type 0 where
  subscribes : ℕ → Step
  closes : ℕ → Step

unfoldable pub step : List ℕ → Step → List ℕ
step fds (subscribes fd) = subscribe fds fd
step fds (closes fd) = unsubscribe fds fd

unfoldable pub run : List ℕ → List Step → List ℕ
unfolding step
run fds [] = fds
run fds (s ∷ steps) = run (step fds s) steps

-- How often a descriptor stands in the list.
abbrev pub occurrences : ℕ → List ℕ → ℕ
occurrences k [] = 0
occurrences k (x ∷ xs) = (if k == x then 1 else 0) + occurrences k xs

-- What a descriptor gets of the writes, one after the other.
abbrev pub received : ℕ → List Write → CString
received k [] = []
received k (w ∷ ws) = if k == w.fd then w.bytes ++ received k ws else received k ws

pub occurrences-append :
    (k : ℕ) (xs ys : List ℕ) → occurrences k (xs ++ ys) ≡ occurrences k xs + occurrences k ys
occurrences-append k [] ys = omega arith
occurrences-append k (x ∷ xs) ys = omega (arith, occurrences-append k xs ys)

occurrences-last :
    (k y : ℕ) (ys : List ℕ) → occurrences k (last_of y ys ∷ init_of y ys) ≡ occurrences k (y ∷ ys)
unfolding last_of init_of
occurrences-last k y [] = refl
occurrences-last k y (z ∷ zs) = omega (arith, occurrences-last k z zs)

length-init_of : (y : ℕ) (ys : List ℕ) → length (init_of y ys) ≡ length ys
unfolding init_of
length-init_of y [] = refl
length-init_of y (z ∷ zs) = ap suc (length-init_of z zs)

-- Closing takes one entry of the descriptor away, if there is one, and no other entry.
pub occurrences-unsubscribe :
    (k fd : ℕ) (fds : List ℕ)
    → occurrences k (unsubscribe fds fd) ≡ occurrences k fds - (if k == fd then 1 else 0)
unfolding unsubscribe fill_with_last
occurrences-unsubscribe k fd [] = ground arith
occurrences-unsubscribe k fd (x ∷ []) = ground arith
occurrences-unsubscribe k fd (x ∷ y ∷ ys) =
    ground (arith, occurrences-last k y ys, occurrences-unsubscribe k fd (y ∷ ys))

length-unsubscribe : (fds : List ℕ) (fd : ℕ) → length (unsubscribe fds fd) ≤ length fds
unfolding unsubscribe fill_with_last
length-unsubscribe [] fd = omega arith
length-unsubscribe (x ∷ []) fd = ground arith
length-unsubscribe (x ∷ y ∷ ys) fd =
    ground (arith, length-init_of y ys, length-unsubscribe (y ∷ ys) fd)

pub occurrences-subscribe :
    (k : ℕ) (fds : List ℕ) (fd : ℕ)
    → (occurrences k fds ≤ occurrences k (subscribe fds fd))
      × (occurrences k (subscribe fds fd) ≤ occurrences k fds + (if k == fd then 1 else 0))
unfolding subscribe
occurrences-subscribe k fds fd = ground (arith, occurrences-append k fds (fd ∷ []))

length-subscribe :
    (fds : List ℕ) (fd : ℕ) → length fds ≤ max_clients → length (subscribe fds fd) ≤ max_clients
unfolding subscribe
length-subscribe fds fd h = ground (arith, length-append fds (fd ∷ []))

pub length-subscribed : (fds : List ℕ) (fd : ℕ) → length (subscribe fds fd) ≤ suc (length fds)
unfolding subscribe
length-subscribed fds fd = ground (arith, length-append fds (fd ∷ []))

-- However clients subscribe and go, at most 64 entries are in use.
pub length-run :
    (fds : List ℕ) (steps : List Step)
    → length fds ≤ max_clients
    → length (run fds steps) ≤ max_clients
unfolding run step
length-run fds [] h = h
length-run fds (subscribes fd ∷ steps) h =
    length-run (subscribe fds fd) steps (length-subscribe fds fd h)
length-run fds (closes fd ∷ steps) h =
    length-run (unsubscribe fds fd) steps (omega (arith, h, length-unsubscribe fds fd))
