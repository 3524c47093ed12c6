-- ===== src/Hyprland/Quote.antt =====
-- src/ipc/hyprland/generator.c: `lua_quote`, and that Lua reads back what was quoted.
use axctl_c.Prelude.{
  ◌≡◌, refl, ap, ◌∙◌, ℕ, Bool, true, false, ◌||◌, ◌&&◌, not, [], ◌∷◌, ◌++◌, Option, none, some,
  CString, ◌==◌, if◌then◌else◌, arith, Bool-cases, inl, inr, append_assoc,
}

-- The bytes `"` and `\`.
abbrev pub quote : ℕ
quote = 34

abbrev pub backslash : ℕ
backslash = 92

-- The loop.
unfoldable pub escaped : CString → CString
escaped [] = []
escaped (c ∷ s) = if c == quote || c == backslash then backslash ∷ c ∷ escaped s else c ∷ escaped s

unfoldable pub lua_quote : CString → CString
unfolding escaped
lua_quote s = quote ∷ escaped s ++ quote ∷ []

-- A byte before what is read.
pub push : ℕ → Option (CString × CString) → Option (CString × CString)
push c none = none
push c (some (s, rest)) = some (c ∷ s, rest)

-- The end of a line, which a string of Lua cannot hold.
abbrev pub is_line_end : ℕ → Bool
is_line_end c = c == 10 || c == 13

-- Lua's reading of a string behind its first `"`: the string, and what stands behind its end. The flag
-- says that a backslash was read.
pub read_quoted : Bool → CString → Option (CString × CString)
unfolding push
read_quoted flag [] = none
read_quoted true (c ∷ s) =
    let rest = push c (read_quoted false s) in if c == quote || c == backslash then rest else none
read_quoted false (c ∷ s) =
    let escape = read_quoted true s in
    let rest = push c (read_quoted false s) in
    if c == quote
    then some ([], s)
    else if c == backslash
    then escape
    else if is_line_end c
    then none
    else rest

pub one_line : CString → Bool
one_line [] = true
one_line (c ∷ s) = not (is_line_end c) && one_line s

read_quoted-escaped :
    (s rest : CString)
    → read_quoted false (escaped s ++ quote ∷ rest) ≡ (if one_line s then some (s, rest) else none)
unfolding read_quoted escaped one_line push
read_quoted-escaped [] rest = refl
read_quoted-escaped (c ∷ s) rest = elim (Bool-cases (c == quote || c == backslash)) [
  | inl special ↦ rw (special, escaped) ground (arith, read_quoted-escaped s rest)
  | inr plain ↦ rw (plain, escaped) ground (arith, read_quoted-escaped s rest)
]

-- A string of Lua, from its first `"` on.
pub read_string : CString → Option (CString × CString)
unfolding read_quoted
read_string [] = none
read_string (c ∷ s) = if c == quote then read_quoted false s else none

-- Lua reads a quoted string back as it was, whatever stands behind it, if there is no end of a line in
-- it, and cannot read it if there is one.
pub read_string-lua_quote :
    (s rest : CString)
    → read_string (lua_quote s ++ rest) ≡ (if one_line s then some (s, rest) else none)
unfolding lua_quote read_string
read_string-lua_quote s rest =
    ap (read_quoted false) (append_assoc (escaped s) (quote ∷ []) rest) ∙ read_quoted-escaped s rest
