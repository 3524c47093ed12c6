-- ===== src/Strutil/Split.antt =====
-- `axctl_strsplit` against joining with the delimiter.
use axctl_c.Prelude.{
  ℕ, ◌≡◌, ◌≢◌, refl, sym, ◌∙◌, inl, inr, List, [], ◌∷◌, ◌++◌, some, arith, ◌==◌, Bool-cases, length,
  All, All-append, CString, append_assoc, append-nil,
}
use axctl_c.Strutil.{count_pieces, split_loop, strsplit}

-- The pieces with the delimiter between them.
unfoldable pub join : ℕ → List CString → CString
join delim [] = []
join delim (p ∷ []) = p
join delim (p ∷ q ∷ ps) = p ++ (delim ∷ join delim (q ∷ ps))

-- The delimiter is not in the piece.
abbrev pub IsFree : ℕ → CString → Type 0
IsFree delim = All (λ c. c ≢ delim)

join-cons :
    (delim : ℕ) (p : CString) (ps : List CString)
    → ps ≢ []
    → join delim (p ∷ ps) ≡ p ++ (delim ∷ join delim ps)
unfolding join
join-cons delim p [] h = absurd (h refl)
join-cons delim p (q ∷ ps) h = refl

split_loop-ne-nil : (delim : ℕ) (piece s : CString) → split_loop delim piece s ≢ []
unfolding split_loop
split_loop-ne-nil delim piece [] = λ e. cc
split_loop-ne-nil delim piece (c ∷ s) = ground (arith, split_loop-ne-nil delim (piece ++ c ∷ []) s)

join-split_loop :
    (delim : ℕ) (piece s : CString) → join delim (split_loop delim piece s) ≡ piece ++ s
unfolding split_loop
join-split_loop delim piece [] = unfold join in sym (append-nil piece)
join-split_loop delim piece (c ∷ s) = elim (Bool-cases (c == delim)) [
  | inl hit ↦
      rw (hit, split_loop)
        (join-cons delim piece (split_loop delim [] s) (split_loop-ne-nil delim [] s)
          ∙ ground (arith, join-split_loop delim [] s))
  | inr miss ↦
      rw (miss, split_loop)
        (join-split_loop delim (piece ++ c ∷ []) s ∙ append_assoc piece (c ∷ []) s)
]

length-split_loop :
    (delim : ℕ) (piece s : CString) → length (split_loop delim piece s) ≡ count_pieces delim s
unfolding split_loop count_pieces
length-split_loop delim piece [] = refl
length-split_loop delim piece (c ∷ s) =
    ground (arith, length-split_loop delim [] s, length-split_loop delim (piece ++ c ∷ []) s)

split_loop-IsFree :
    (delim : ℕ) (piece s : CString)
    → IsFree delim piece
    → All (IsFree delim) (split_loop delim piece s)
unfolding split_loop
split_loop-IsFree delim piece [] h = (h, tt)
split_loop-IsFree delim piece (c ∷ s) h = elim (Bool-cases (c == delim)) [
  | inl hit ↦ rw (hit, split_loop) (h, split_loop-IsFree delim [] s tt)
  | inr miss ↦
      let ne : c ≢ delim = ground arith in
      rw (miss, split_loop)
        (split_loop-IsFree delim (piece ++ c ∷ []) s
          (All-append (λ c. c ≢ delim) piece (c ∷ []) h (ne, tt)))
]

-- A string splits into as many pieces as the array has places, no piece holds the delimiter, and
-- joining the pieces gives the string back.
pub join-strsplit :
    (s : CString) (delim : ℕ)
    → (length (strsplit (some s) delim).out ≡ (strsplit (some s) delim).count)
      × All (IsFree delim) (strsplit (some s) delim).out
      × (join delim (strsplit (some s) delim).out ≡ s)
unfolding strsplit
join-strsplit s delim =
    (length-split_loop delim [] s, split_loop-IsFree delim [] s tt, join-split_loop delim [] s)

split_loop-append :
    (delim : ℕ) (piece q rest : CString)
    → IsFree delim q
    → split_loop delim piece (q ++ rest) ≡ split_loop delim (piece ++ q) rest
unfolding split_loop
split_loop-append delim piece [] rest h = rw append-nil
split_loop-append delim piece (c ∷ q) rest h =
    ground (arith, split_loop-append delim (piece ++ c ∷ []) q rest, append_assoc piece (c ∷ []) q)

split_loop-join :
    (delim : ℕ) (p : CString) (ps : List CString)
    → All (IsFree delim) (p ∷ ps)
    → split_loop delim [] (join delim (p ∷ ps)) ≡ p ∷ ps
unfolding join split_loop
split_loop-join delim p [] h = ground (arith, split_loop-append delim [] p [], append-nil p)
split_loop-join delim p (q ∷ ps) h = ground (
  arith,
  split_loop-append delim [] p (delim ∷ join delim (q ∷ ps)),
  split_loop-join delim q ps h.1,
)

-- Splitting what one or more pieces without the delimiter join to gives those pieces.
pub strsplit-join :
    (delim : ℕ) (p : CString) (ps : List CString)
    → All (IsFree delim) (p ∷ ps)
    → (strsplit (some (join delim (p ∷ ps))) delim).out ≡ p ∷ ps
unfolding strsplit
strsplit-join delim p ps h = split_loop-join delim p ps h
