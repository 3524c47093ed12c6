-- ===== src/Types/Arrays.antt =====
-- The growing arrays.
use axctl_c.Prelude.{
  ℕ, ◌*◌, ◌≤◌, ◌≡◌, ◌⊎◌, Bool, true, false, List, [], ◌∷◌, ◌++◌, map, arith, ◌==◌, if◌then◌else◌,
  length, length-append, append_assoc, append-nil,
}
use axctl_c.Types.{Array, array_init, array_push, array_dup_onto, array_dup}

-- What is used fits, and an array with no room has nothing in it.
abbrev pub Fits {ℓ} : {A : Type ℓ} → Array A → Type 0
Fits arr = length arr.items ≤ arr.capacity

module _ {A : Type 0} where
  -- From an array that fits, a push keeps it fitting; it appends the item, unless the array is full
  -- and `realloc` fails for twice the capacity (or 8 for an empty one), when nothing changes; and
  -- the capacity never falls.
  pub array_push-Fits :
      (realloc : ℕ → Bool) (arr : Array A) (w : A)
      → Fits arr
      → let arr' = array_push realloc arr w in
        Fits arr'
        × (arr.capacity ≤ arr'.capacity)
        × ((arr'.items ≡ arr.items ++ w ∷ [])
            ⊎ ((arr' ≡ arr)
                × (length arr.items ≡ arr.capacity)
                × (realloc (if arr.capacity == 0 then 8 else arr.capacity * 2) ≡ false)))
  unfolding array_push
  array_push-Fits realloc arr w h = ground (arith, length-append arr.items (w ∷ []))

module _ {ℓ} {A : Type ℓ} where
  pub array_push-items :
      (arr : Array A) (w : A) → (array_push (λ n. true) arr w).items ≡ arr.items ++ w ∷ []
  unfolding array_push
  array_push-items arr w = ground arith

  array_dup_onto-items :
      (dup : A → A) (dst : Array A) (src : List A)
      → (array_dup_onto (λ n. true) dup dst src).items ≡ dst.items ++ map dup src
  unfolding array_dup_onto
  array_dup_onto-items dup dst [] = simp append-nil
  array_dup_onto-items dup dst (x ∷ src) =
      rw
        (
          array_dup_onto-items dup (array_push (λ n. true) dst (dup x)) src,
          array_push-items dst (dup x),
        )
        (append_assoc dst.items (dup x ∷ []) (map dup src))

  -- While memory lasts, a copied array holds the copies of the items in their order.
  pub array_dup-items :
      (dup : A → A) (src : Array A) → (array_dup (λ n. true) dup src).items ≡ map dup src.items
  unfolding array_dup array_init
  array_dup-items dup src = array_dup_onto-items dup array_init src.items
