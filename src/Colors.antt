-- ===== src/Colors.antt =====
-- src/ipc/colors.c: the color formats of the compositors, and the parts of string.h and ctype.h that
-- it uses. Strings are lists of bytes with no terminator; `none` is a NULL pointer. Allocation
-- succeeds.
pub mod Hex
pub mod Notations
pub mod Words
pub mod Gradient
mod Tests
use axctl_c.Prelude.{
  ℕ, suc, ◌-◌, Bool, true, false, ◌&&◌, ◌||◌, List, [], ◌∷◌, ◌++◌, Option, none, some, ltb, leb,
  ◌==◌, if◌then◌else◌, length, take, drop, CString, codes, str_eq,
}
use axctl_c.Strutil.{isspace, starts_with, strncmp_eq}

-- The bytes before the first white space.
unfoldable pub first_word : CString → CString
first_word [] = []
first_word (c ∷ s) = if isspace c then [] else c ∷ first_word s

unfoldable pub first_color : Option CString → CString
unfolding first_word
first_color none = []
first_color (some s) = first_word s

-- `strchr(s, b)`: the rest of the string from the first such byte on.
unfoldable pub strchr : CString → ℕ → Option CString
strchr [] b = none
strchr (c ∷ s) b = if c == b then some (c ∷ s) else strchr s b

-- The string once its first such byte is overwritten by the terminator.
unfoldable pub cut_at : ℕ → CString → CString
cut_at b [] = []
cut_at b (c ∷ s) = if c == b then [] else c ∷ cut_at b s

abbrev is_wrapped : CString → Bool
is_wrapped c =
    starts_with (some c) (some (codes "rgba("))
    || starts_with (some c) (some (codes "RGBA("))
    || starts_with (some c) (some (codes "rgb("))
    || starts_with (some c) (some (codes "RGB("))

unfoldable pub strip_wrapper : CString → CString
unfolding starts_with strchr cut_at
strip_wrapper c =
    if is_wrapped c
    then (elim (strchr c b'(') [
      | none ↦ c
      | some [] ↦ c
      | some (paren ∷ inner) ↦ cut_at b')' inner
    ])
    else c

unfoldable pub strip_hash : CString → CString
strip_hash [] = []
strip_hash (c ∷ s) = if c == b'#' then s else c ∷ s

unfoldable pub strip_0x : CString → CString
strip_0x [] = []
strip_0x (c ∷ []) = c ∷ []
strip_0x (c ∷ x ∷ s) = if c == b'0' && (x == b'x' || x == b'X') then s else c ∷ x ∷ s

-- `"%c%c%c%c…"` with each byte twice.
unfoldable pub doubled : CString → CString
doubled [] = []
doubled (c ∷ s) = c ∷ c ∷ doubled s

-- What is written to `hex`, which has room for 15 bytes.
unfoldable pub mango_hex : CString → CString
unfolding doubled
mango_hex c =
    if length c == 3
    then doubled c ++ codes "ff"
    else if length c == 4
    then doubled c
    else if length c == 6
    then c ++ codes "ff"
    else if leb 8 (length c)
    then take 8 c
    else take 15 c

-- `axctl_mango_color` on its first token, which is empty for a NULL or empty string as well.
unfoldable pub mango_token : CString → CString
unfolding strip_wrapper strip_hash strip_0x
mango_token [] = []
mango_token (c ∷ s) = codes "0x" ++ mango_hex (strip_0x (strip_hash (strip_wrapper (c ∷ s))))

unfoldable pub mango_color : Option CString → CString
unfolding first_color
mango_color color_str = mango_token (first_color color_str)

-- The four parts `r`, `g`, `b` and `a`, in one string.
unfoldable pub hyprland_digits : CString → CString
hyprland_digits c =
    (if leb 6 (length c) then take 6 c else codes "000000")
    ++ (if leb 8 (length c) then take 2 (drop 6 c) else codes "ff")

unfoldable pub hyprland_color : Option CString → CString
unfolding strip_hash
hyprland_color none = codes "rgba(00000000)"
hyprland_color (some []) = codes "rgba(00000000)"
hyprland_color (some (c ∷ s)) = codes "rgba(" ++ hyprland_digits (strip_hash (c ∷ s)) ++ codes ")"

-- The pieces that `strtok_r` answers one after the other.
unfoldable pub is_separator : ℕ → Bool
is_separator c = c == b' ' || c == 9

unfoldable pub flush_token : CString → List CString → List CString
flush_token [] toks = toks
flush_token (c ∷ tok) toks = (c ∷ tok) ∷ toks

unfoldable pub tokens_from : CString → CString → List CString
tokens_from tok [] = flush_token tok []
tokens_from tok (c ∷ s) = elim (is_separator c) [
  | true ↦ flush_token tok (tokens_from [] s)
  | false ↦ tokens_from (tok ++ c ∷ []) s
]

-- The variables of the loop of `axctl_parse_color_string`.
pub record Parsed : Type 0 where
  pub colors : CString
  pub angle : Option CString
  pub color_count : ℕ

unfoldable pub is_angle : CString → Bool
is_angle tok = ltb 3 (length tok) && str_eq (drop (length tok - 3) tok) (codes "deg")

unfoldable pub is_rgb : CString → Bool
is_rgb tok = strncmp_eq 4 tok (codes "rgb(") || strncmp_eq 5 tok (codes "rgba(")

-- `isxdigit` of the C locale.
unfoldable pub isxdigit : ℕ → Bool
isxdigit c = (leb b'0' c && leb c b'9') || (leb b'A' c && leb c b'F') || (leb b'a' c && leb c b'f')

unfoldable pub all_xdigits : CString → Bool
unfolding isxdigit
all_xdigits [] = true
all_xdigits (c ∷ s) = isxdigit c && all_xdigits s

unfoldable pub is_hex : CString → Bool
unfolding all_xdigits
is_hex [] = false
is_hex (c ∷ tok) =
    if c == b'#'
    then true
    else if length (c ∷ tok) == 6 || length (c ∷ tok) == 8
    then all_xdigits (c ∷ tok)
    else false

unfoldable pub add_color : Parsed → CString → Parsed
add_color acc color = record acc {
  colors = (if ltb 0 acc.color_count then acc.colors ++ codes " " else acc.colors) ++ color;
  color_count = suc acc.color_count;
}

-- One round of the loop.
unfoldable pub parse_token : Parsed → CString → Parsed
parse_token acc tok =
    if is_angle tok
    then record acc { angle = some tok }
    else if is_rgb tok
    then add_color acc tok
    else if is_hex tok
    then add_color acc (hyprland_color (some tok))
    else acc

unfoldable pub parse_tokens : Parsed → List CString → Parsed
unfolding parse_token
parse_tokens acc [] = acc
parse_tokens acc (tok ∷ toks) = parse_tokens (parse_token acc tok) toks

-- `*out_colors` and `*out_angle`. An empty string, for which the function returns early, has no
-- tokens.
unfoldable pub parse_color_string : Option CString → Option CString × Option CString
unfolding parse_tokens tokens_from
parse_color_string none = (none, none)
parse_color_string (some str) =
    let start : Parsed = record { colors = []; angle = none; color_count = 0 } in
    let acc = parse_tokens start (tokens_from [] str) in
    (if ltb 0 acc.color_count then some acc.colors else none, acc.angle)
