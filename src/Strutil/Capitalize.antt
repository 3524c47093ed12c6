-- ===== src/Strutil/Capitalize.antt =====
-- `axctl_capitalize` capitalises each of the pieces between dashes.
use axctl_c.Prelude.{
  ℕ, ◌≡◌, refl, sym, ap, ◌∙◌, inl, inr, Bool, true, false, List, [], ◌∷◌, ◌++◌, some, ◌==◌,
  Bool-cases, CString, append_assoc,
}
use axctl_c.Strutil.{capitalize_byte, capitalize_loop, capitalize, split_loop, strsplit}

-- A piece with its first byte in upper case, if that is a lower case letter.
pub upper_first : CString → CString
upper_first [] = []
upper_first (c ∷ s) = capitalize_byte true c ∷ s

pub upper_pieces : List CString → CString
upper_pieces [] = []
upper_pieces (p ∷ ps) = upper_first p ++ upper_pieces ps

abbrev is_nil : CString → Bool
is_nil [] = true
is_nil (c ∷ s) = false

upper_first-concat :
    (piece : CString) (c : ℕ) (s : CString)
    → upper_first (piece ++ c ∷ []) ++ s ≡ upper_first piece ++ capitalize_byte (is_nil piece) c ∷ s
unfolding upper_first capitalize_byte
upper_first-concat [] c s = refl
upper_first-concat (b ∷ piece) c s =
    ap (◌∷◌ (capitalize_byte true b)) (append_assoc piece (c ∷ []) s)

is_nil-concat : (piece : CString) (c : ℕ) → is_nil (piece ++ c ∷ []) ≡ false
is_nil-concat [] c = refl
is_nil-concat (b ∷ piece) c = refl

upper_pieces-split_loop :
    (piece s : CString)
    → upper_pieces (split_loop b'-' piece s) ≡ upper_first piece ++ capitalize_loop (is_nil piece) s
unfolding upper_pieces split_loop capitalize_loop upper_first
upper_pieces-split_loop piece [] = refl
upper_pieces-split_loop piece (c ∷ s) = elim (Bool-cases (c == b'-')) [
  | inl dash ↦
      rw (dash, split_loop, capitalize_loop)
        (ap (◌++◌ (upper_first piece)) (upper_pieces-split_loop [] s))
  | inr other ↦
      rw (other, split_loop, capitalize_loop)
        (upper_pieces-split_loop (piece ++ c ∷ []) s
          ∙ rw (is_nil-concat piece c) (upper_first-concat piece c (capitalize_loop false s)))
]

-- The one pass over the string writes what splitting at the dashes, putting the first byte of each
-- piece in upper case and joining with nothing between gives.
pub capitalize-strsplit :
    (s : CString) → capitalize (some s) ≡ upper_pieces (strsplit (some s) b'-').out
unfolding capitalize strsplit upper_first
capitalize-strsplit s = sym (upper_pieces-split_loop [] s)
