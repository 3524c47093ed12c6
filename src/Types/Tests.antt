-- ===== src/Types/Tests.antt =====
-- Arrays at concrete sizes.
use axctl_c.Prelude.{ℕ, ◌≡◌, refl, true, [], ◌∷◌, ltb}
use axctl_c.Types.{Array, array_push}

-- Eight items, and no room for a ninth.
abbrev full : Array ℕ
full = record { items = 1 ∷ 2 ∷ 3 ∷ 4 ∷ 5 ∷ 6 ∷ 7 ∷ 8 ∷ []; capacity = 8 }

full_grows : (array_push (λ n. true) full 9).capacity ≡ 16
unfolding array_push
full_grows = refl

full_stays : (array_push (λ n. ltb n 16) full 9).items ≡ full.items
unfolding array_push
full_stays = refl
