-- ===== src/Strutil.antt =====
-- src/utils/strutil.c: the string helpers, and the parts of ctype.h and string.h that they use.
-- Strings are lists of bytes with no terminator; `none` is a NULL pointer. Allocation succeeds.
-- `axctl_sprintf` and the `free` calls have no counterpart.
pub mod Search
pub mod Compare
pub mod Trim
pub mod Split
pub mod Replace
pub mod Capitalize
mod Tests
use axctl_c.Prelude.{
  ℕ, zero, suc, ◌+◌, ◌-◌, Bool, true, false, ◌&&◌, ◌||◌, List, [], ◌∷◌, ◌++◌, reverse, Option, none,
  some, ℤ, pos, negsuc, sub_ℕ, ltb, leb, ◌==◌, if◌then◌else◌, length, drop, CString, str_eq,
}

-- `tolower` and `isspace` of the C locale.
unfoldable pub tolower : ℕ → ℕ
tolower c = if leb b'A' c && leb c b'Z' then c + 32 else c

unfoldable pub isspace : ℕ → Bool
isspace c = c == b' ' || leb 9 c && leb c 13

-- `strncmp(a, b, n) == 0`
unfoldable pub strncmp_eq : ℕ → CString → CString → Bool
strncmp_eq zero a b = true
strncmp_eq (suc n) [] [] = true
strncmp_eq (suc n) (x ∷ a) (y ∷ b) = x == y && strncmp_eq n a b
strncmp_eq (suc n) _ _ = false

unfoldable pub strdup : Option CString → Option CString
strdup none = none
strdup (some s) = some s

unfoldable pub strcat : Option CString → Option CString → CString
strcat none none = []
strcat none (some b) = b
strcat (some a) none = a
strcat (some a) (some b) = a ++ b

-- The new value of `*dst`.
unfoldable pub str_append : Option CString → Option CString → Option CString
unfolding strdup strcat
str_append dst none = dst
str_append none (some src) = strdup (some src)
str_append (some old) (some src) = some (strcat (some old) (some src))

-- The byte that the loop of `axctl_capitalize` writes for `c`.
capitalize_byte : Bool → ℕ → ℕ
capitalize_byte next_upper c = if next_upper && (leb b'a' c && leb c b'z') then c - 32 else c

-- The loop; the result is what is written to `result`.
capitalize_loop : Bool → CString → CString
unfolding capitalize_byte
capitalize_loop next_upper [] = []
capitalize_loop next_upper (c ∷ s) = elim (c == b'-') [
  | true ↦ capitalize_loop true s
  | false ↦ capitalize_byte next_upper c ∷ capitalize_loop false s
]

unfoldable pub capitalize : Option CString → CString
unfolding capitalize_loop
capitalize none = []
capitalize (some s) = capitalize_loop true s

-- The inner loop: does `needle` match at the start of `haystack + i`?
icontains_at : CString → CString → Bool
unfolding tolower
icontains_at [] haystack = true
icontains_at (n ∷ needle) [] = false
icontains_at (n ∷ needle) (h ∷ haystack) =
    if tolower h == tolower n then icontains_at needle haystack else false

abbrev tail : CString → CString
tail [] = []
tail (c ∷ s) = s

-- The outer loop, with the number of rounds left.
icontains_scan : ℕ → CString → CString → Bool
unfolding icontains_at
icontains_scan zero needle haystack = false
icontains_scan (suc k) needle haystack =
    if icontains_at needle haystack then true else icontains_scan k needle (tail haystack)

unfoldable pub icontains : Option CString → Option CString → Bool
unfolding icontains_scan
icontains none needle = false
icontains (some haystack) none = false
icontains (some haystack) (some needle) =
    if length needle == 0
    then true
    else if ltb (length haystack) (length needle)
    then false
    else icontains_scan (suc (length haystack - length needle)) needle haystack

-- The loop of `axctl_strcasecmp`; past the end it reads the terminator.
casecmp_loop : CString → CString → ℤ
unfolding tolower
casecmp_loop [] [] = sub_ℕ (tolower 0) (tolower 0)
casecmp_loop [] (y ∷ b) = sub_ℕ (tolower 0) (tolower y)
casecmp_loop (x ∷ a) [] = sub_ℕ (tolower x) (tolower 0)
casecmp_loop (x ∷ a) (y ∷ b) =
    if tolower x == tolower y then casecmp_loop a b else sub_ℕ (tolower x) (tolower y)

unfoldable pub strcasecmp : Option CString → Option CString → ℤ
unfolding casecmp_loop
strcasecmp none none = pos 0
strcasecmp none (some b) = negsuc 0
strcasecmp (some a) none = pos 1
strcasecmp (some a) (some b) = casecmp_loop a b

-- The first loop of `axctl_strtrim`.
trim_start : CString → CString
unfolding isspace
trim_start [] = []
trim_start (c ∷ s) = if isspace c then trim_start s else c ∷ s

-- The second loop, over the string from its last byte to its first: `end > buf` keeps one byte.
trim_back : CString → CString
unfolding isspace
trim_back [] = []
trim_back (c ∷ []) = c ∷ []
trim_back (c ∷ d ∷ s) = if isspace c then trim_back (d ∷ s) else c ∷ d ∷ s

abbrev trim_end : CString → CString
trim_end [] = []
trim_end (c ∷ s) = reverse (trim_back (reverse (c ∷ s)))

unfoldable pub strtrim : Option CString → Option CString
unfolding trim_start trim_back
strtrim none = none
strtrim (some buf) = some (trim_end (trim_start buf))

unfoldable pub starts_with : Option CString → Option CString → Bool
unfolding strncmp_eq
starts_with none prefix = false
starts_with (some s) none = false
starts_with (some s) (some prefix) = strncmp_eq (length prefix) s prefix

unfoldable pub ends_with : Option CString → Option CString → Bool
unfolding str_eq
ends_with none suffix = false
ends_with (some s) none = false
ends_with (some s) (some suffix) =
    if ltb (length s) (length suffix)
    then false
    else str_eq (drop (length s - length suffix) s) suffix

-- The first loop of `axctl_strsplit`.
count_pieces : ℕ → CString → ℕ
count_pieces delim [] = 1
count_pieces delim (c ∷ p) = if c == delim then suc (count_pieces delim p) else count_pieces delim p

-- The second loop: `piece` holds the bytes from `start` up to `p`.
unfoldable pub split_loop : ℕ → CString → CString → List CString
split_loop delim piece [] = piece ∷ []
split_loop delim piece (c ∷ p) = elim (c == delim) [
  | true ↦ piece ∷ split_loop delim [] p
  | false ↦ split_loop delim (piece ++ c ∷ []) p
]

-- The result and the array behind `out`.
pub record Pieces : Type 0 where
  pub count : ℕ
  pub out : List CString

unfoldable pub strsplit : Option CString → ℕ → Pieces
unfolding count_pieces split_loop
strsplit none delim = record { count = 0; out = [] }
strsplit (some s) delim = record { count = count_pieces delim s; out = split_loop delim [] s }

-- `strstr(s, old)`: the bytes before the match, and those from it on.
unfoldable pub strstr : CString → CString → Option (CString × CString)
unfolding strncmp_eq
strstr old [] = if strncmp_eq (length old) [] old then some ([], []) else none
strstr old (c ∷ s) =
    if strncmp_eq (length old) (c ∷ s) old
    then some ([], c ∷ s)
    else elim (strstr old s) [ none ↦ none | some (pre, at) ↦ some (c ∷ pre, at) ]

abbrev text_or_empty : Option CString → CString
text_or_empty none = []
text_or_empty (some s) = s

unfoldable pub str_replace : Option CString → Option CString → Option CString → Option CString
unfolding strdup strstr
str_replace none old new = strdup none
str_replace (some s) none new = strdup (some s)
str_replace (some s) (some old) new = elim (strstr old s) [
  | none ↦ strdup (some s)
  | some (pre, at) ↦ some (pre ++ (text_or_empty new ++ drop (length old) at))
]
