-- ===== src/Colors/Notations.antt =====
-- The ways to write one color.
use axctl_c.Prelude.{
  ℕ, zero, suc, ◌≡◌, refl, ◌∙◌, ap, true, false, [], ◌∷◌, ◌++◌, some, arith, length, length-append,
  All, take, drop, CString, codes, ◌==◌, append-nil,
}
use axctl_c.Strutil.{starts_with, strncmp_eq, isspace}
use axctl_c.Colors.Hex.{take_whole}
use axctl_c.Colors.{
  first_word, strchr, cut_at, strip_wrapper, strip_hash, strip_0x, mango_hex, mango_token,
  mango_color, hyprland_digits, hyprland_color, isxdigit,
}

-- All bytes are hexadecimal digits.
abbrev pub HexDigits : CString → Type 0
HexDigits = All (λ c. isxdigit c ≡ true)

-- What a digit is not.
digit_facts :
    (c : ℕ)
    → isxdigit c ≡ true
    → (isspace c ≡ false)
      × ((c == b')') ≡ false)
      × ((c == b'#') ≡ false)
      × ((c == b'x') ≡ false)
      × ((c == b'X') ≡ false)
      × ((c == b'r') ≡ false)
      × ((c == b'R') ≡ false)
unfolding isxdigit isspace
digit_facts c h = (
  ground arith,
  ground arith,
  ground arith,
  ground arith,
  ground arith,
  ground arith,
  ground arith,
)

first_word-digits : (h rest : CString) → HexDigits h → first_word (h ++ rest) ≡ h ++ first_word rest
unfolding first_word
first_word-digits [] rest d = refl
first_word-digits (c ∷ h) rest d = rw ((digit_facts c d.0).0, first_word-digits h rest d.1)

cut_at-digits : (h rest : CString) → HexDigits h → cut_at b')' (h ++ b')' ∷ rest) ≡ h
unfolding cut_at
cut_at-digits [] rest d = refl
cut_at-digits (c ∷ h) rest d = rw ((digit_facts c d.0).1, cut_at-digits h rest d.1)

strip_hash-digits : (h : CString) → HexDigits h → strip_hash h ≡ h
unfolding strip_hash
strip_hash-digits [] d = refl
strip_hash-digits (c ∷ h) d = rw ((digit_facts c d.0).2)

strip_0x-digits : (h : CString) → HexDigits h → strip_0x h ≡ h
unfolding strip_0x
strip_0x-digits [] d = refl
strip_0x-digits (c ∷ []) d = refl
strip_0x-digits (c ∷ x ∷ h) d = ground (arith, digit_facts x d.1.0)

strip_wrapper-digits : (h : CString) → HexDigits h → strip_wrapper h ≡ h
unfolding strip_wrapper starts_with strncmp_eq
strip_wrapper-digits [] d = refl
strip_wrapper-digits (c ∷ h) d = ground (arith, digit_facts c d.0)

strip_wrapper-rgba :
    (h : CString) → HexDigits h → strip_wrapper (codes "rgba(" ++ h ++ codes ")") ≡ h
unfolding strip_wrapper starts_with strncmp_eq strchr
strip_wrapper-rgba h d = cut_at-digits h [] d

-- What is left of the notations before the digits are expanded.
mango_token-digits :
    (c : ℕ) (h : CString)
    → HexDigits (c ∷ h)
    → (mango_token (c ∷ h) ≡ codes "0x" ++ mango_hex (c ∷ h))
      × (mango_token (b'#' ∷ c ∷ h) ≡ codes "0x" ++ mango_hex (c ∷ h))
      × (mango_token (codes "0x" ++ c ∷ h) ≡ codes "0x" ++ mango_hex (c ∷ h))
      × (mango_token (codes "rgba(" ++ (c ∷ h) ++ codes ")") ≡ codes "0x" ++ mango_hex (c ∷ h))
unfolding mango_token
mango_token-digits c h d = (
  rw (strip_wrapper-digits (c ∷ h) d, strip_hash-digits (c ∷ h) d, strip_0x-digits (c ∷ h) d),
  rw (strip_0x-digits (c ∷ h) d),
  refl,
  rw (strip_wrapper-rgba (c ∷ h) d, strip_hash-digits (c ∷ h) d, strip_0x-digits (c ∷ h) d),
)

first_word-closed :
    (h rest : CString)
    → HexDigits h
    → first_word rest ≡ []
    → first_word (h ++ b')' ∷ rest) ≡ h ++ codes ")"
unfolding first_word isspace
first_word-closed h rest d e = first_word-digits h (b')' ∷ rest) d ∙ ap (λ t. h ++ b')' ∷ t) e

first_word-open :
    (h rest : CString) → HexDigits h → first_word rest ≡ [] → first_word (h ++ rest) ≡ h
first_word-open h rest d e = first_word-digits h rest d ∙ rw e (append-nil h)

-- Hexadecimal digits, at least one, with nothing or white space behind them, are the same color for
-- Mango bare, behind `#` or `0x`, and inside `rgba(…)`: `0x`, and the digits in their long form.
pub mango_notations :
    (c : ℕ) (h rest : CString)
    → HexDigits (c ∷ h)
    → first_word rest ≡ []
    → let color = codes "0x" ++ mango_hex (c ∷ h) in
      (mango_color (some ((c ∷ h) ++ rest)) ≡ color)
      × (mango_color (some (b'#' ∷ ((c ∷ h) ++ rest))) ≡ color)
      × (mango_color (some (codes "0x" ++ ((c ∷ h) ++ rest))) ≡ color)
      × (mango_color (some (codes "rgba(" ++ ((c ∷ h) ++ b')' ∷ rest))) ≡ color)
unfolding mango_color first_word isspace
mango_notations c h rest d e =
    let word = first_word-open (c ∷ h) rest d e in
    let closed = first_word-closed (c ∷ h) rest d e in
    let same = mango_token-digits c h d in
    (
      ap mango_token word ∙ same.0,
      ap (λ t. mango_token (b'#' ∷ t)) word ∙ same.1,
      ap (λ t. mango_token (codes "0x" ++ t)) word ∙ same.2,
      ap (λ t. mango_token (codes "rgba(" ++ t)) closed ∙ same.3,
    )

take_all : (h t : CString) (n : ℕ) → length h ≡ n → (take n (h ++ t) ≡ h) × (drop n (h ++ t) ≡ t)
take_all [] t zero e = (refl, refl)
take_all [] t (suc n) e = absurd (omega (arith, e))
take_all (x ∷ h) t zero e = absurd (omega (arith, e))
take_all (x ∷ h) t (suc n) e =
    let ih = take_all h t n (omega (arith, e)) in (ap (λ y. x ∷ y) ih.0, ih.1)

hyprland_digits-opaque : (h : CString) → length h ≡ 6 → hyprland_digits h ≡ h ++ codes "ff"
unfolding hyprland_digits
hyprland_digits-opaque h e = ground (arith, take_whole 6 h)

hyprland_digits-alpha :
    (h : CString) (x y : ℕ) → length h ≡ 6 → hyprland_digits (h ++ x ∷ y ∷ []) ≡ h ++ x ∷ y ∷ []
unfolding hyprland_digits
hyprland_digits-alpha h x y e =
    let parts = take_all h (x ∷ y ∷ []) 6 e in ground (arith, parts, length-append h (x ∷ y ∷ []))

-- Six hexadecimal digits are an opaque color for Hyprland, and two more are its opacity, with `#`
-- before them or not.
pub hyprland_notations :
    (h : CString) (x y : ℕ)
    → HexDigits (h ++ x ∷ y ∷ [])
    → length h ≡ 6
    → (hyprland_color (some h) ≡ codes "rgba(" ++ ((h ++ codes "ff") ++ codes ")"))
      × (hyprland_color (some (b'#' ∷ h)) ≡ codes "rgba(" ++ ((h ++ codes "ff") ++ codes ")"))
      × (hyprland_color (some (h ++ x ∷ y ∷ [])) ≡ codes "rgba(" ++ (h ++ x ∷ y ∷ []) ++ codes ")")
      × (hyprland_color (some (b'#' ∷ (h ++ x ∷ y ∷ [])))
          ≡ codes "rgba(" ++ (h ++ x ∷ y ∷ []) ++ codes ")")
unfolding hyprland_color
hyprland_notations [] x y d e = absurd (omega (arith, e))
hyprland_notations (c ∷ h) x y d e =
    let opaque = hyprland_digits-opaque (c ∷ h) e in
    let alpha = hyprland_digits-alpha (c ∷ h) x y e in
    let plain = (digit_facts c d.0).2 in
    (rw (plain, opaque), rw opaque, rw (plain, alpha), rw alpha)
