-- ===== src/Table.antt =====
-- The fixed tables of server/idle.c: a slot is found by a test, changed in place, never removed.
use axctl_c.Prelude.{
  ℕ, suc, ◌+◌, ◌≤◌, ◌<◌, ◌≡◌, refl, ◌∙◌, Bool, true, false, Option, none, some, List, [], ◌∷◌, ◌++◌,
  arith, if◌then◌else◌, length, All, inl, inr, Bool-cases,
}

module _ {ℓ} {A : Type ℓ} where
  -- `for (i …) if (hit(items[i])) return &items[i]; return NULL;`
  unfoldable pub find_first : (A → Bool) → List A → Option A
  find_first hit [] = none
  find_first hit (x ∷ xs) = if hit x then some x else find_first hit xs

  -- The table after the slot that `find_first` finds is changed through its pointer.
  unfoldable pub update_first : (A → Bool) → (A → A) → List A → List A
  update_first hit f [] = []
  update_first hit f (x ∷ xs) = if hit x then f x ∷ xs else x ∷ update_first hit f xs

  -- The sum of a measure over the slots.
  unfoldable pub total : (A → ℕ) → List A → ℕ
  total g [] = 0
  total g (x ∷ xs) = g x + total g xs

module _ {ℓ} {A : Type ℓ} where
  pub find_first-hit :
      (hit : A → Bool) (xs : List A) {a : A} → find_first hit xs ≡ some a → hit a ≡ true
  unfolding find_first
  find_first-hit hit [] e = cc
  find_first-hit hit (x ∷ xs) e = elim (Bool-cases (hit x)) [
    | inl yes_x ↦ let same : some x ≡ some _ = rw yes_x at e in ground arith
    | inr no_x ↦ find_first-hit hit xs (rw no_x at e)
  ]

  pub find_first-append :
      (hit : A → Bool) (xs : List A) (y : A)
      → find_first hit (xs ++ y ∷ [])
        ≡ elim (find_first hit xs) [ some a ↦ some a | none ↦ if hit y then some y else none ]
  unfolding find_first
  find_first-append hit [] y = refl
  find_first-append hit (x ∷ xs) y = ground (arith, find_first-append hit xs y)

  pub length-update_first :
      (hit : A → Bool) (f : A → A) (xs : List A) → length (update_first hit f xs) ≡ length xs
  unfolding update_first
  length-update_first hit f [] = refl
  length-update_first hit f (x ∷ xs) = ground (arith, length-update_first hit f xs)

  -- A changed slot that is still hit is the one that is found.
  pub find_first-update_first_self :
      (hit : A → Bool) (f : A → A) (xs : List A) {a : A}
      → find_first hit xs ≡ some a
      → hit (f a) ≡ true
      → find_first hit (update_first hit f xs) ≡ some (f a)
  unfolding find_first update_first
  find_first-update_first_self hit f [] e h = cc
  find_first-update_first_self hit f (x ∷ xs) e h = elim (Bool-cases (hit x)) [
    | inl yes_x ↦ ground arith
    | inr no_x ↦ ground (arith, find_first-update_first_self hit f xs {a = _} (rw no_x at e) h)
  ]

  -- A change is not seen by a test that holds neither of the slot before it nor after it.
  pub find_first-update_first_other :
      (hit other : A → Bool) (f : A → A) (xs : List A)
      → ((a : A) → hit a ≡ true → other a ≡ false)
      → ((a : A) → hit a ≡ true → other (f a) ≡ false)
      → find_first other (update_first hit f xs) ≡ find_first other xs
  unfolding find_first update_first
  find_first-update_first_other hit other f [] h k = refl
  find_first-update_first_other hit other f (x ∷ xs) h k =
      ground (arith, h x, k x, find_first-update_first_other hit other f xs h k)

  pub All-update_first {κ} :
      (P : A → Type κ) (hit : A → Bool) (f : A → A) (xs : List A)
      → ((a : A) → hit a ≡ true → P a → P (f a))
      → All P xs
      → All P (update_first hit f xs)
  unfolding update_first
  All-update_first P hit f [] k h = tt
  All-update_first P hit f (x ∷ xs) k h = elim (Bool-cases (hit x)) [
    | inl yes_x ↦ rw (yes_x, update_first) (k x yes_x h.0, h.1)
    | inr no_x ↦ rw (no_x, update_first) (h.0, All-update_first P hit f xs k h.1)
  ]

  pub total-append : (g : A → ℕ) (xs : List A) (y : A) → total g (xs ++ y ∷ []) ≡ total g xs + g y
  unfolding total
  total-append g [] y = omega arith
  total-append g (x ∷ xs) y = omega (arith, total-append g xs y)

  pub total-update_first :
      (g : A → ℕ) (hit : A → Bool) (f : A → A) (xs : List A) {a : A}
      → find_first hit xs ≡ some a
      → total g (update_first hit f xs) + g a ≡ total g xs + g (f a)
  unfolding total find_first update_first
  total-update_first g hit f [] e = cc
  total-update_first g hit f (x ∷ xs) {a} e = elim (Bool-cases (hit x)) [
    | inl yes_x ↦ ground arith
    | inr no_x ↦
        let ih = total-update_first g hit f xs {a = a} (rw no_x at e) in
        rw (no_x, update_first) (omega arith)
  ]

-- Slots with numbers: `key` counts up by one from slot to slot, beginning above `n`.
module _ {ℓ} {A : Type ℓ} (key : A → ℕ) where
  abbrev pub Numbered : ℕ → List A → Type 0
  Numbered n [] = Unit {0}
  Numbered n (x ∷ xs) = (key x ≡ suc n) × Numbered (suc n) xs

  pub Numbered-append :
      (n : ℕ) (xs : List A) (y : A)
      → Numbered n xs
      → key y ≡ suc (n + length xs)
      → Numbered n (xs ++ y ∷ [])
  Numbered-append n [] y h e = omega arith
  Numbered-append n (x ∷ xs) y h e = (h.0, Numbered-append (suc n) xs y h.1 (omega arith))

  pub Numbered-update_first :
      (hit : A → Bool) (f : A → A) (n : ℕ) (xs : List A)
      → ((a : A) → key (f a) ≡ key a)
      → Numbered n xs
      → Numbered n (update_first hit f xs)
  unfolding update_first
  Numbered-update_first hit f n [] k h = tt
  Numbered-update_first hit f n (x ∷ xs) k h = elim (Bool-cases (hit x)) [
    | inl yes_x ↦ rw (yes_x, update_first) (k x ∙ h.0, h.1)
    | inr no_x ↦ rw (no_x, update_first) (h.0, Numbered-update_first hit f (suc n) xs k h.1)
  ]

  -- No slot that stands above `n` has a number up to `n`.
  pub find_first_below :
      (hit : A → Bool) (id n : ℕ) (xs : List A)
      → ((a : A) → hit a ≡ true → key a ≡ id)
      → id ≤ n
      → Numbered n xs
      → find_first hit xs ≡ none
  unfolding find_first
  find_first_below hit id n [] k le h = refl
  find_first_below hit id n (x ∷ xs) k le h =
      ground (arith, k x, find_first_below hit id (suc n) xs k)

  -- Nor one past its end.
  pub find_first_above :
      (hit : A → Bool) (id n : ℕ) (xs : List A)
      → ((a : A) → hit a ≡ true → key a ≡ id)
      → n + length xs < id
      → Numbered n xs
      → find_first hit xs ≡ none
  unfolding find_first
  find_first_above hit id n [] k le h = refl
  find_first_above hit id n (x ∷ xs) k le h =
      ground (arith, k x, find_first_above hit id (suc n) xs k)

  -- Once its slot is changed so that the test fails there, a number is found no more.
  pub find_first_gone :
      (hit : A → Bool) (f : A → A) (id n : ℕ) (xs : List A)
      → ((a : A) → hit a ≡ true → key a ≡ id)
      → ((a : A) → hit (f a) ≡ false)
      → Numbered n xs
      → find_first hit (update_first hit f xs) ≡ none
  unfolding find_first update_first
  find_first_gone hit f id n [] k gone h = refl
  find_first_gone hit f id n (x ∷ xs) k gone h = ground (
    arith,
    k x,
    gone x,
    find_first_below hit id (suc n) xs k,
    find_first_gone hit f id (suc n) xs k gone,
  )
