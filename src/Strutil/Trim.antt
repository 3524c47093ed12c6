-- ===== src/Strutil/Trim.antt =====
-- `axctl_strtrim` cuts white space off both ends, and nothing else.
use mathlib.Core.List.{reverse-append, reverse-reverse, reverse-cons}
use mathlib.Core.Path.{subst}
use axctl_c.Prelude.{
  ℕ, ◌≡◌, refl, sym, ap, ◌∙◌, inl, inr, true, false, [], ◌∷◌, ◌++◌, reverse, some, Bool-cases, All,
  All-append, CString, append_assoc, if◌then◌else◌,
}
use axctl_c.Strutil.{isspace, trim_start, trim_back, trim_end, strtrim}

abbrev pub AllSpace : CString → Type 0
AllSpace = All (λ c. isspace c ≡ true)

-- The string is empty, or its first byte is no white space.
abbrev pub StartsSolid : CString → Type 0
StartsSolid [] = Unit {0}
StartsSolid (c ∷ s) = isspace c ≡ false

-- `t` is `s` without the white space around it.
pub record Trimmed (s t : CString) : Type 0 where
  pub pre : CString
  pub post : CString
  pub splits : s ≡ pre ++ (t ++ post)
  pub space_before : AllSpace pre
  pub space_after : AllSpace post
  pub starts : StartsSolid t
  pub ends : StartsSolid (reverse t)

-- `t` is what is left of `s` behind some white space.
record Cut (s t : CString) : Type 0 where
  pre : CString
  splits : s ≡ pre ++ t
  space : AllSpace pre
  starts : StartsSolid t

Cut-cons : (c : ℕ) {s t : CString} → isspace c ≡ true → Cut s t → Cut (c ∷ s) t
Cut-cons c h k = record {
  pre = c ∷ k.pre;
  splits = ap (◌∷◌ c) k.splits;
  space = (h, k.space);
  starts = k.starts;
}

Cut-whole : (s : CString) → StartsSolid s → Cut s s
Cut-whole s h = record { pre = []; splits = refl; space = tt; starts = h }

trim_start-Cut : (s : CString) → Cut s (trim_start s)
unfolding trim_start
trim_start-Cut [] = Cut-whole [] tt
trim_start-Cut (c ∷ s) = elim (Bool-cases (isspace c)) [
  | inl space ↦ rw space (Cut-cons c space (trim_start-Cut s))
  | inr solid ↦ rw solid (Cut-whole (c ∷ s) solid)
]

-- While a byte remains behind it, a byte of white space is dropped.
trim_back-cons :
    (y c : ℕ) (ys : CString)
    → trim_back (y ∷ (ys ++ c ∷ []))
      ≡ (if isspace y then trim_back (ys ++ c ∷ []) else y ∷ (ys ++ c ∷ []))
unfolding trim_back
trim_back-cons y c [] = refl
trim_back-cons y c (x ∷ ys) = refl

trim_back-Cut :
    (ys : CString) (c : ℕ) → isspace c ≡ false → Cut (ys ++ c ∷ []) (trim_back (ys ++ c ∷ []))
trim_back-Cut [] c h = unfold trim_back in Cut-whole (c ∷ []) h
trim_back-Cut (y ∷ ys) c h = elim (Bool-cases (isspace y)) [
  | inl space ↦ rw (trim_back-cons y c ys, space) (Cut-cons y space (trim_back-Cut ys c h))
  | inr solid ↦ rw (trim_back-cons y c ys, solid) (Cut-whole (y ∷ (ys ++ c ∷ [])) solid)
]

AllSpace-reverse : (s : CString) → AllSpace s → AllSpace (reverse s)
AllSpace-reverse [] h = tt
AllSpace-reverse (c ∷ s) h =
    rw (reverse-cons c s)
      (All-append (λ c. isspace c ≡ true) (reverse s) (c ∷ []) (AllSpace-reverse s h.1) (h.0, tt))

-- A string that starts solid still does when white space is cut off its end.
StartsSolid-append : (t post : CString) → StartsSolid (t ++ post) → StartsSolid t
StartsSolid-append [] post h = tt
StartsSolid-append (c ∷ t) post h = h

Cut-of_reverse :
    (c : ℕ) (s : CString) → isspace c ≡ false → Cut (reverse (c ∷ s)) (trim_back (reverse (c ∷ s)))
Cut-of_reverse c s h = rw (reverse-cons c s) (trim_back-Cut (reverse s) c h)

reverse-splits : (s pre t : CString) → reverse s ≡ pre ++ t → s ≡ reverse t ++ reverse pre
reverse-splits s pre t e = sym (reverse-reverse s) ∙ ap reverse e ∙ reverse-append pre t

trim_end-Trimmed : (t : CString) → StartsSolid t → Trimmed t (trim_end t)
trim_end-Trimmed [] h = record {
  pre = [];
  post = [];
  splits = refl;
  space_before = tt;
  space_after = tt;
  starts = tt;
  ends = tt;
}
trim_end-Trimmed (c ∷ s) h =
    let k = Cut-of_reverse c s h in
    let e = reverse-splits (c ∷ s) k.pre (trim_back (reverse (c ∷ s))) k.splits in
    record {
      pre = [];
      post = reverse k.pre;
      splits = e;
      space_before = tt;
      space_after = AllSpace-reverse k.pre k.space;
      starts = StartsSolid-append (trim_end (c ∷ s)) (reverse k.pre) (subst StartsSolid e h);
      ends = rw (reverse-reverse (trim_back (reverse (c ∷ s)))) k.starts;
    }

Trimmed-after : {s u t : CString} → Cut s u → Trimmed u t → Trimmed s t
Trimmed-after {s} {u} {t} k m = record {
  pre = k.pre ++ m.pre;
  post = m.post;
  splits = k.splits ∙ ap (◌++◌ k.pre) m.splits ∙ sym (append_assoc k.pre m.pre (t ++ m.post));
  space_before = All-append (λ c. isspace c ≡ true) k.pre m.pre k.space m.space_before;
  space_after = m.space_after;
  starts = m.starts;
  ends = m.ends;
}

-- Trimming a string that is not NULL gives a string; it is the argument without white space at both
-- ends, and neither begins nor ends with white space.
pub strtrim-Trimmed : (s : CString) → (t : CString) × (strtrim (some s) ≡ some t) × Trimmed s t
unfolding strtrim
strtrim-Trimmed s =
    let k = trim_start-Cut s in
    (trim_end (trim_start s), refl, Trimmed-after k (trim_end-Trimmed (trim_start s) k.starts))
