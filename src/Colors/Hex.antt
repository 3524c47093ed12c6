-- ===== src/Colors/Hex.antt =====
-- The lengths and the digits of converted colors.
use axctl_c.Prelude.{
  ℕ, zero, suc, ◌+◌, ◌*◌, ◌≤◌, ◌≡◌, ◌⊎◌, inl, inr, refl, ap, [], ◌∷◌, Option, none, some, arith,
  length, length-append, take, drop, CString, codes, leb, if◌then◌else◌,
}
use axctl_c.Colors.{
  doubled, mango_hex, mango_token, mango_color, first_color, strip_hash, strip_0x, strip_wrapper,
  hyprland_digits, hyprland_color,
}

length-take : (n : ℕ) (xs : CString) → n ≤ length xs → length (take n xs) ≡ n
length-take zero xs h = refl
length-take (suc n) [] h = omega (arith, h)
length-take (suc n) (x ∷ xs) h = ap suc (length-take n xs (omega (arith, h)))

pub take_whole : (n : ℕ) (xs : CString) → length xs ≤ n → take n xs ≡ xs
take_whole zero [] h = refl
take_whole zero (x ∷ xs) h = ground arith
take_whole (suc n) [] h = refl
take_whole (suc n) (x ∷ xs) h = ap (λ ys. x ∷ ys) (take_whole n xs (omega (arith, h)))

length-drop : (n : ℕ) (xs : CString) → length (drop n xs) + n ≡ length xs ⊎ length xs ≤ n
length-drop zero xs = inl (omega arith)
length-drop (suc n) [] = inr (omega arith)
length-drop (suc n) (x ∷ xs) = ground (arith, length-drop n xs)

length-doubled : (s : CString) → length (doubled s) ≡ 2 * length s
unfolding doubled
length-doubled [] = refl
length-doubled (c ∷ s) = omega (arith, length-doubled s)

-- The digits written for Mango: eight of them for three, four, six, or eight and more, and all of
-- them otherwise.
mango_hex-length : (c : CString) → (length (mango_hex c) ≡ 8) ⊎ ((length c ≤ 7) × (mango_hex c ≡ c))
unfolding mango_hex
mango_hex-length c = ground (
  arith,
  length-doubled c,
  length-append (doubled c) (codes "ff"),
  length-append c (codes "ff"),
  length-take 8 c,
  take_whole 15 c,
)

length-mango_token : (s : CString) → length (mango_token s) ≤ 10
unfolding mango_token
length-mango_token [] = omega arith
length-mango_token (c ∷ s) =
    ground (arith, mango_hex-length (strip_0x (strip_hash (strip_wrapper (c ∷ s)))))

length-hyprland_digits : (c : CString) → length (hyprland_digits c) ≡ 8
unfolding hyprland_digits
length-hyprland_digits c = ground (
  arith,
  length-append (if leb 6 (length c) then take 6 c else codes "000000")
      (if leb 8 (length c) then take 2 (drop 6 c) else codes "ff"),
  length-take 6 c,
  length-drop 6 c,
  length-take 2 (drop 6 c),
)

-- Whatever the input, a color for Hyprland has the fourteen bytes of `rgba(RRGGBBAA)`, and one for
-- Mango at most ten, `0x` included.
pub colors-length :
    (color_str : Option CString)
    → (length (hyprland_color color_str) ≡ 14) × (length (mango_color color_str) ≤ 10)
unfolding hyprland_color mango_color
colors-length none = (refl, length-mango_token (first_color none))
colors-length (some []) = (refl, length-mango_token (first_color (some [])))
colors-length (some (c ∷ s)) = (
  ground (
    arith,
    length-hyprland_digits (strip_hash (c ∷ s)),
    length-append (hyprland_digits (strip_hash (c ∷ s))) (codes ")"),
  ),
  length-mango_token (first_color (some (c ∷ s))),
)
