-- ===== src/Colors/Gradient.antt =====
-- `axctl_parse_color_string` on what it answered.
use axctl_c.Prelude.{
  ℕ, ◌≡◌, refl, sym, ◌∙◌, ap, true, false, List, [], ◌∷◌, ◌++◌, none, some, arith, length,
  length-append, All, All-append, CString, codes, ltb, if◌then◌else◌, append_assoc, append-nil,
  Bool-cases, inl, inr, Option,
}
use axctl_c.Strutil.Split.{join}
use axctl_c.Colors.Words.{
  IsWord, IsColor, tokens_from-join, tokens_from-words, hyprland_color-IsColor,
}
use axctl_c.Colors.{
  hyprland_color, tokens_from, Parsed, is_angle, is_rgb, is_hex, add_color, parse_token,
  parse_tokens, parse_color_string,
}

-- The variables of the loop stand for a list of colors.
pub record Listed (acc : Parsed) (ps : List CString) : Type 0 where
  pub colors_are : acc.colors ≡ join b' ' ps
  pub count_is : acc.color_count ≡ length ps

join-append :
    (d : ℕ) (p : CString) (ps : List CString) (t : CString)
    → join d ((p ∷ ps) ++ t ∷ []) ≡ join d (p ∷ ps) ++ (d ∷ t)
unfolding join
join-append d p [] t = refl
join-append d p (q ∷ ps) t =
    ap (λ r. p ++ (d ∷ r)) (join-append d q ps t)
    ∙ sym (append_assoc p (d ∷ join d (q ∷ ps)) (d ∷ t))

add_color-Listed :
    (acc : Parsed) (ps : List CString) (t : CString)
    → Listed acc ps
    → Listed (add_color acc t) (ps ++ t ∷ [])
unfolding add_color
add_color-Listed acc [] t l = record {
  colors_are =
      let none_yet : acc.colors ≡ [] = unfold join in l.colors_are in
      rw (l.count_is, none_yet) (unfold join in refl);
  count_is = omega (arith, l.count_is);
}
add_color-Listed acc (p ∷ ps) t l = record {
  colors_are =
      let more : ltb 0 acc.color_count ≡ true = ground (arith, l.count_is) in
      rw (more, l.colors_are)
        (append_assoc (join b' ' (p ∷ ps)) (codes " ") t ∙ sym (join-append b' ' p ps t));
  count_is = omega (arith, l.count_is, length-append ps (t ∷ []));
}

record SomeListed (acc : Parsed) : Type 0 where
  pieces : List CString
  colors : All IsColor pieces
  listed : Listed acc pieces

add_color-SomeListed :
    (acc : Parsed) (t : CString) → IsColor t → SomeListed acc → SomeListed (add_color acc t)
add_color-SomeListed acc t h l = record {
  pieces = l.pieces ++ t ∷ [];
  colors = All-append IsColor l.pieces (t ∷ []) l.colors (h, tt);
  listed = add_color-Listed acc l.pieces t l.listed;
}

parse_token-SomeListed :
    (acc : Parsed) (tok : CString) → IsWord tok → SomeListed acc → SomeListed (parse_token acc tok)
unfolding parse_token
parse_token-SomeListed acc tok w l = elim (Bool-cases (is_angle tok)) [
  | inl angle ↦
      let e : parse_token acc tok ≡ record acc { angle = some tok } = rw (angle, parse_token) in
      rw e (record {
        pieces = l.pieces;
        colors = l.colors;
        listed = record { colors_are = l.listed.colors_are; count_is = l.listed.count_is };
      })
  | inr straight ↦ elim (Bool-cases (is_rgb tok)) [
    | inl rgb ↦
        let e : parse_token acc tok ≡ add_color acc tok = rw (straight, rgb, parse_token) in
        rw e (add_color-SomeListed acc tok (w, straight, rgb) l)
    | inr bare ↦ elim (Bool-cases (is_hex tok)) [
      | inl hex ↦
          let e : parse_token acc tok ≡ add_color acc (hyprland_color (some tok)) =
            rw (straight, bare, hex, parse_token) in
          rw e
            (add_color-SomeListed acc (hyprland_color (some tok)) (hyprland_color-IsColor tok w) l)
      | inr unknown ↦
          let e : parse_token acc tok ≡ acc = rw (straight, bare, unknown, parse_token) in rw e l
    ]
  ]
]

parse_tokens-SomeListed :
    (acc : Parsed) (toks : List CString)
    → All IsWord toks
    → SomeListed acc
    → SomeListed (parse_tokens acc toks)
unfolding parse_tokens
parse_tokens-SomeListed acc [] w l = l
parse_tokens-SomeListed acc (tok ∷ toks) w l =
    parse_tokens-SomeListed (parse_token acc tok) toks w.1 (parse_token-SomeListed acc tok w.0 l)

-- Colors are taken as they are.
parse_token-color : (acc : Parsed) (t : CString) → IsColor t → parse_token acc t ≡ add_color acc t
unfolding parse_token
parse_token-color acc t h = rw (h.1, h.2)

add_color-angle : (acc : Parsed) (t : CString) → (add_color acc t).angle ≡ acc.angle
unfolding add_color
add_color-angle acc t = refl

parse_tokens-Listed :
    (acc : Parsed) (qs ps : List CString)
    → All IsColor ps
    → Listed acc qs
    → Listed (parse_tokens acc ps) (qs ++ ps) × ((parse_tokens acc ps).angle ≡ acc.angle)
unfolding parse_tokens
parse_tokens-Listed acc qs [] h l = (rw (append-nil qs) l, refl)
parse_tokens-Listed acc qs (p ∷ ps) h l =
    let ih =
      parse_tokens-Listed (add_color acc p) (qs ++ p ∷ []) ps h.1 (add_color-Listed acc qs p l) in
    let same = parse_token-color acc p h.0 in
    let e : parse_tokens acc (p ∷ ps) ≡ parse_tokens (add_color acc p) ps =
      ap (λ a. parse_tokens a ps) same in
    let all : Listed (parse_tokens (add_color acc p) ps) (qs ++ (p ∷ ps)) =
      rw (sym (append_assoc qs (p ∷ []) ps)) ih.0 in
    (rw e all, ap (λ a. a.angle) e ∙ ih.1 ∙ add_color-angle acc p)

-- What is answered for listed colors.
answer_pieces :
    (acc : Parsed) (ps : List CString) (colors : CString)
    → Listed acc ps
    → (if ltb 0 acc.color_count then some acc.colors else none) ≡ some colors
    → (colors ≡ join b' ' ps) × (ltb 0 (length ps) ≡ true)
answer_pieces acc ps colors l h = ground (arith, l.count_is, l.colors_are)

same_answer :
    (acc : Parsed) (ps : List CString) (colors : CString)
    → Listed acc ps
    → acc.angle ≡ none
    → (colors ≡ join b' ' ps) × (ltb 0 (length ps) ≡ true)
    → let answer : Option CString × Option CString =
        (if ltb 0 acc.color_count then some acc.colors else none, acc.angle) in
      answer ≡ (some colors, none)
same_answer acc ps colors l straight facts =
    ground (arith, l.count_is, l.colors_are, facts.0, facts.1, straight)

-- The colors that are answered for a string are answered again for themselves, with no angle.
pub parse_color_string-again :
    (str : Option CString) (colors : CString)
    → (parse_color_string str).0 ≡ some colors
    → parse_color_string (some colors) ≡ (some colors, none)
unfolding parse_color_string
parse_color_string-again none colors h = absurd (let f : false ≡ true = ground (arith, h) in cc)
parse_color_string-again (some str) colors h =
    let start : Parsed = record { colors = []; angle = none; color_count = 0 } in
    let clean : Listed start [] = record { colors_are = unfold join in refl; count_is = refl } in
    let first =
      parse_tokens-SomeListed start (tokens_from [] str) (tokens_from-words [] str tt)
        (record { pieces = []; colors = tt; listed = clean }) in
    let again = parse_tokens-Listed start [] first.pieces first.colors clean in
    let facts =
      answer_pieces (parse_tokens start (tokens_from [] str)) first.pieces colors first.listed h in
    let toks : tokens_from [] colors ≡ first.pieces =
      ap (tokens_from []) facts.0 ∙ tokens_from-join first.pieces first.colors in
    let e : parse_tokens start (tokens_from [] colors) ≡ parse_tokens start first.pieces =
      ap (parse_tokens start) toks in
    same_answer (parse_tokens start (tokens_from [] colors)) first.pieces colors (rw e again.0)
      (ap (λ a. a.angle) e ∙ again.1) facts
