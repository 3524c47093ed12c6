-- ===== src/Colors/Words.antt =====
-- The tokens of a color string, and the colors among them.
use axctl_c.Prelude.{
  ℕ, zero, suc, ◌-◌, ◌≡◌, refl, ◌∙◌, ap, true, false, List, [], ◌∷◌, ◌++◌, some, arith, length, All,
  All-append, take, drop, CString, codes, leb, ◌==◌, if◌then◌else◌, append_assoc, append-nil,
  Bool-cases, inl, inr, str_eq,
}
use axctl_c.Strutil.{strncmp_eq}
use axctl_c.Strutil.Split.{join}
use axctl_c.Colors.{
  strip_hash, hyprland_digits, hyprland_color, is_separator, flush_token, tokens_from, is_angle,
  is_rgb,
}

-- No byte separates tokens.
abbrev pub IsWord : CString → Type 0
IsWord = All (λ c. is_separator c ≡ false)

-- A color as the answer lists it.
abbrev pub IsColor : CString → Type 0
IsColor t = IsWord t × (is_angle t ≡ false) × (is_rgb t ≡ true)

tokens_from-space :
    (tok p s : CString)
    → IsWord p
    → tokens_from tok (p ++ b' ' ∷ s) ≡ flush_token (tok ++ p) (tokens_from [] s)
unfolding tokens_from
tokens_from-space tok [] s w = unfold is_separator in rw (append-nil tok)
tokens_from-space tok (c ∷ p) s w =
    rw (w.0, tokens_from)
      (tokens_from-space (tok ++ c ∷ []) p s w.1 ∙ rw (append_assoc tok (c ∷ []) p))

tokens_from-last : (tok p : CString) → IsWord p → tokens_from tok p ≡ flush_token (tok ++ p) []
unfolding tokens_from
tokens_from-last tok [] w = rw (append-nil tok)
tokens_from-last tok (c ∷ p) w =
    rw (w.0, tokens_from)
      (tokens_from-last (tok ++ c ∷ []) p w.1 ∙ rw (append_assoc tok (c ∷ []) p))

flush_token-color : (t : CString) (ts : List CString) → is_rgb t ≡ true → flush_token t ts ≡ t ∷ ts
unfolding is_rgb flush_token strncmp_eq
flush_token-color [] ts h = cc
flush_token-color (c ∷ t) ts h = refl

-- The pieces between spaces come back as the tokens.
pub tokens_from-join : (ps : List CString) → All IsColor ps → tokens_from [] (join b' ' ps) ≡ ps
unfolding join
tokens_from-join [] h = unfold tokens_from flush_token in refl
tokens_from-join (p ∷ []) h = tokens_from-last [] p h.0.0 ∙ flush_token-color p [] h.0.2
tokens_from-join (p ∷ q ∷ ps) h =
    tokens_from-space [] p (join b' ' (q ∷ ps)) h.0.0
    ∙ flush_token-color p (tokens_from [] (join b' ' (q ∷ ps))) h.0.2
    ∙ ap (λ ts. p ∷ ts) (tokens_from-join (q ∷ ps) h.1)

-- The tokens of any string hold no separators.
flush_token-words :
    (tok : CString) (ts : List CString)
    → IsWord tok
    → All IsWord ts
    → All IsWord (flush_token tok ts)
unfolding flush_token
flush_token-words [] ts w h = h
flush_token-words (c ∷ tok) ts w h = (w, h)

pub tokens_from-words : (tok s : CString) → IsWord tok → All IsWord (tokens_from tok s)
unfolding tokens_from
tokens_from-words tok [] w = flush_token-words tok [] w tt
tokens_from-words tok (c ∷ s) w = elim (Bool-cases (is_separator c)) [
  | inl hit ↦
      let e : tokens_from tok (c ∷ s) ≡ flush_token tok (tokens_from [] s) =
        rw (hit, tokens_from) in
      rw e (flush_token-words tok (tokens_from [] s) w (tokens_from-words [] s tt))
  | inr miss ↦
      let e : tokens_from tok (c ∷ s) ≡ tokens_from (tok ++ c ∷ []) s = rw (miss, tokens_from) in
      rw e (
        tokens_from-words (tok ++ c ∷ []) s
          (All-append (λ b. is_separator b ≡ false) tok (c ∷ []) w (miss, tt)))
]

-- A converted color is a color again.
deg_open : (n : ℕ) (s : CString) → str_eq (drop n (s ++ codes ")")) (codes "deg") ≡ false
unfolding str_eq
deg_open zero [] = refl
deg_open zero (a ∷ []) = ground arith
deg_open zero (a ∷ b ∷ []) = ground arith
deg_open zero (a ∷ b ∷ c ∷ []) = ground arith
deg_open zero (a ∷ b ∷ c ∷ d ∷ s) = ground arith
deg_open (suc zero) [] = refl
deg_open (suc (suc n)) [] = refl
deg_open (suc n) (a ∷ s) = deg_open n s

take-IsWord : (n : ℕ) (s : CString) → IsWord s → IsWord (take n s)
take-IsWord zero s w = tt
take-IsWord (suc n) [] w = tt
take-IsWord (suc n) (c ∷ s) w = (w.0, take-IsWord n s w.1)

drop-IsWord : (n : ℕ) (s : CString) → IsWord s → IsWord (drop n s)
drop-IsWord zero s w = w
drop-IsWord (suc n) [] w = tt
drop-IsWord (suc n) (c ∷ s) w = drop-IsWord n s w.1

hyprland_digits-IsWord : (c : CString) → IsWord c → IsWord (hyprland_digits c)
unfolding hyprland_digits
hyprland_digits-IsWord c w =
    All-append (λ b. is_separator b ≡ false) (if leb 6 (length c) then take 6 c else codes "000000")
      (if leb 8 (length c) then take 2 (drop 6 c) else codes "ff")
      (elim (leb 6 (length c)) as (λ b. IsWord (if b then take 6 c else codes "000000")) [
        | true ↦ take-IsWord 6 c w
        | false ↦ unfold is_separator in (refl, (refl, (refl, (refl, (refl, (refl, tt))))))
      ])
      (elim (leb 8 (length c)) as (λ b. IsWord (if b then take 2 (drop 6 c) else codes "ff")) [
        | true ↦ take-IsWord 2 (drop 6 c) (drop-IsWord 6 c w)
        | false ↦ unfold is_separator in (refl, (refl, tt))
      ])

strip_hash-IsWord : (c : ℕ) (t : CString) → IsWord (c ∷ t) → IsWord (strip_hash (c ∷ t))
unfolding strip_hash
strip_hash-IsWord c t w = elim (c == b'#') as (λ b. IsWord (if b then t else c ∷ t)) [
  | true ↦ w.1
  | false ↦ w
]

-- Digits in `rgba(…)` are a color.
wrapped-IsColor : (s : CString) → IsWord s → IsColor (codes "rgba(" ++ s ++ codes ")")
wrapped-IsColor s w = (
  unfold is_separator in
      (
        refl,
        (
          refl,
          (
            refl,
            (refl, (refl, All-append (λ c. is_separator c ≡ false) s (codes ")") w (refl, tt))),
          ),
        ),
      ),
  unfold is_angle in
      (let open_end =
          deg_open (length (codes "rgba(" ++ s ++ codes ")") - 3) (codes "rgba(" ++ s) in
        ground (arith, open_end)),
  unfold is_rgb strncmp_eq in refl,
)

pub hyprland_color-IsColor : (t : CString) → IsWord t → IsColor (hyprland_color (some t))
unfolding hyprland_color
hyprland_color-IsColor [] w =
    wrapped-IsColor (codes "00000000")
      (unfold is_separator in (refl, (refl, (refl, (refl, (refl, (refl, (refl, (refl, tt)))))))))
hyprland_color-IsColor (c ∷ t) w =
    wrapped-IsColor (hyprland_digits (strip_hash (c ∷ t)))
      (hyprland_digits-IsWord (strip_hash (c ∷ t)) (strip_hash-IsWord c t w))
