-- ===== src/Server/Clients.antt =====
-- Who gets the notifications, over sequences of subscriptions and closed connections.
use axctl_c.Prelude.{
  ℕ, suc, ◌+◌, ◌≤◌, ◌<◌, ◌≡◌, ◌≢◌, ◌⊎◌, inl, inr, refl, ap, Bool, true, false, List, [], ◌∷◌, ◌++◌,
  arith, ◌==◌, if◌then◌else◌, length, CString, codes, Bool-cases,
}
use axctl_c.Server.Entries.{
  Step, subscribes, closes, step, run, occurrences, received, occurrences-append,
  occurrences-subscribe, occurrences-unsubscribe, length-subscribed,
}
use axctl_c.Server.{max_clients, subscribe, unsubscribe, broadcast}

-- Which descriptors have subscribed since they were closed last.
abbrev pub mark : (ℕ → Bool) → ℕ → Bool → ℕ → Bool
mark live fd on k = if k == fd then on else live k

unfoldable pub live_after : (ℕ → Bool) → List Step → ℕ → Bool
live_after live [] = live
live_after live (subscribes fd ∷ steps) = live_after (mark live fd true) steps
live_after live (closes fd ∷ steps) = live_after (mark live fd false) steps

-- No connection subscribes while it is subscribed.
abbrev pub Once : (ℕ → Bool) → List Step → Type 0
Once live [] = Unit {0}
Once live (subscribes fd ∷ steps) = (live fd ≡ false) × Once (mark live fd true) steps
Once live (closes fd ∷ steps) = Once (mark live fd false) steps

-- An entry stands for a live descriptor, and no descriptor has two.
abbrev Sound : (ℕ → Bool) → List ℕ → Type 0
Sound live fds = (k : ℕ) → occurrences k fds ≤ (if live k then 1 else 0)

subscribe-Sound :
    (live : ℕ → Bool) (fds : List ℕ) (fd : ℕ)
    → Sound live fds
    → live fd ≡ false
    → Sound (mark live fd true) (subscribe fds fd)
subscribe-Sound live fds fd h free k =
    let before = h k in
    let grown = occurrences-subscribe k fds fd in
    elim (Bool-cases (k == fd)) [
      | inl same ↦
          let e : k ≡ fd = ground arith in let idle : live k ≡ false = rw e free in ground arith
      | inr other ↦ ground arith
    ]

unsubscribe-Sound :
    (live : ℕ → Bool) (fds : List ℕ) (fd : ℕ)
    → Sound live fds
    → Sound (mark live fd false) (unsubscribe fds fd)
unsubscribe-Sound live fds fd h k =
    let before = h k in let left = occurrences-unsubscribe k fd fds in ground arith

run-Sound :
    (live : ℕ → Bool) (fds : List ℕ) (steps : List Step)
    → Sound live fds
    → Once live steps
    → Sound (live_after live steps) (run fds steps)
unfolding run step live_after
run-Sound live fds [] h o = h
run-Sound live fds (subscribes fd ∷ steps) h o =
    run-Sound (mark live fd true) (subscribe fds fd) steps (subscribe-Sound live fds fd h o.0) o.1
run-Sound live fds (closes fd ∷ steps) h o =
    run-Sound (mark live fd false) (unsubscribe fds fd) steps (unsubscribe-Sound live fds fd h) o

-- A descriptor gets the notification once for each entry.
received-none :
    (k : ℕ) (fds : List ℕ) (text : CString)
    → occurrences k fds ≡ 0
    → received k (broadcast fds text) ≡ []
unfolding broadcast
received-none k [] text h = refl
received-none k (x ∷ fds) text h = ground (arith, received-none k fds text)

received-once :
    (k : ℕ) (fds : List ℕ) (text : CString)
    → occurrences k fds ≡ 1
    → received k (broadcast fds text) ≡ text ++ codes "\n"
unfolding broadcast
received-once k [] text h = absurd (omega (arith, h))
received-once k (x ∷ fds) text h =
    ground (arith, received-none k fds text, received-once k fds text)

-- When no connection subscribes while it is subscribed, a notification goes to no descriptor but
-- those that subscribed since they were closed last, and to each of them at most once, as one line.
pub broadcast-run :
    (steps : List Step) (text : CString) (k : ℕ)
    → Once (λ fd. false) steps
    → let bytes = received k (broadcast (run [] steps) text) in
      (bytes ≡ []) ⊎ ((live_after (λ fd. false) steps k ≡ true) × (bytes ≡ text ++ codes "\n"))
broadcast-run steps text k o =
    let sound = run-Sound (λ fd. false) [] steps (λ k. omega arith) o k in
    elim (Bool-cases (live_after (λ fd. false) steps k)) [
      | inl live ↦
          let count : (occurrences k (run [] steps) ≡ 0) ⊎ (occurrences k (run [] steps) ≡ 1) =
            ground arith in
          elim count [
            | inl zero_of ↦ inl (received-none k (run [] steps) text zero_of)
            | inr one_of ↦ inr (live, received-once k (run [] steps) text one_of)
          ]
      | inr gone ↦ inl (received-none k (run [] steps) text (ground arith))
    ]

-- The descriptor is not closed.
abbrev pub Stays : ℕ → List Step → Type 0
Stays fd [] = Unit {0}
Stays fd (subscribes k ∷ steps) = Stays fd steps
Stays fd (closes k ∷ steps) = (fd ≢ k) × Stays fd steps

run-Stays :
    (fd : ℕ) (fds : List ℕ) (steps : List Step)
    → Stays fd steps
    → 1 ≤ occurrences fd fds
    → 1 ≤ occurrences fd (run fds steps)
unfolding run step
run-Stays fd fds [] s h = h
run-Stays fd fds (subscribes k ∷ steps) s h =
    run-Stays fd (subscribe fds k) steps s (omega (arith, h, (occurrences-subscribe fd fds k).0))
run-Stays fd fds (closes k ∷ steps) s h =
    let other = s.0 in
    let left = occurrences-unsubscribe fd k fds in
    run-Stays fd (unsubscribe fds k) steps s.1 (ground arith)

run-append : (fds : List ℕ) (xs ys : List Step) → run fds (xs ++ ys) ≡ run (run fds xs) ys
unfolding run
run-append fds [] ys = refl
run-append fds (x ∷ xs) ys = run-append (step fds x) xs ys

subscribe-occurrences :
    (fds : List ℕ) (fd : ℕ)
    → length fds < max_clients
    → occurrences fd (subscribe fds fd) ≡ suc (occurrences fd fds)
unfolding subscribe
subscribe-occurrences fds fd room = ground (arith, occurrences-append fd fds (fd ∷ []))

-- When no connection subscribes while it is subscribed, one that subscribes while fewer than 64 are
-- on the list, and is not closed since, gets each notification exactly once, as one line.
pub subscribe-run :
    (before after : List Step) (fd : ℕ) (text : CString)
    → Once (λ fd. false) (before ++ (subscribes fd ∷ after))
    → length (run [] before) < max_clients
    → Stays fd after
    → received fd (broadcast (run [] (before ++ (subscribes fd ∷ after))) text) ≡ text ++ codes "\n"
unfolding run step
subscribe-run before after fd text o room stays =
    let steps = before ++ (subscribes fd ∷ after) in
    let most = run-Sound (λ fd. false) [] steps (λ k. omega arith) o fd in
    let fresh = subscribe-occurrences (run [] before) fd room in
    let least = run-Stays fd (subscribe (run [] before) fd) after stays (omega (arith, fresh)) in
    let split = run-append [] before (subscribes fd ∷ after) in
    let same : occurrences fd (run [] steps)
        ≡ occurrences fd (run (subscribe (run [] before) fd) after) =
      ap (occurrences fd) split in
    received-once fd (run [] steps) text (ground (arith, most, least, same))

-- A connection that subscribes twice, with room on the list and not on it before, leaves an entry
-- behind: after it is closed, each notification is still written to its descriptor.
pub subscribe_twice :
    (fds : List ℕ) (fd : ℕ) (text : CString)
    → length fds + 2 ≤ max_clients
    → occurrences fd fds ≡ 0
    → received fd (broadcast (run fds (subscribes fd ∷ subscribes fd ∷ closes fd ∷ [])) text)
      ≡ text ++ codes "\n"
unfolding run step
subscribe_twice fds fd text room absent =
    let grown = length-subscribed fds fd in
    let once = subscribe-occurrences fds fd (omega (arith, room)) in
    let twice = subscribe-occurrences (subscribe fds fd) fd (omega (arith, room, grown)) in
    let left = occurrences-unsubscribe fd fd (subscribe (subscribe fds fd) fd) in
    received-once fd (unsubscribe (subscribe (subscribe fds fd) fd) fd) text
      (ground (arith, once, twice, left, absent))
