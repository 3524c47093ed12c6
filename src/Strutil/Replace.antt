-- ===== src/Strutil/Replace.antt =====
-- `axctl_str_replace` replaces the first occurrence, and only that.
use axctl_c.Prelude.{
  ◌≢◌, ℕ, ◌≤◌, ◌≡◌, refl, ap, inl, inr, true, false, [], ◌∷◌, ◌++◌, Option, none, some, arith,
  Bool-cases, length, drop-append, CString,
}
use axctl_c.Strutil.{strncmp_eq, strstr, text_or_empty, str_replace}
use axctl_c.Strutil.Compare.{strncmp_eq_iff}

-- `s` is `pre`, `old` and `post`, and `old` occurs nowhere before the end of `pre`.
pub record IsFirst (s old pre post : CString) : Type 0 where
  pub splits : s ≡ pre ++ (old ++ post)
  pub first : (pre' post' : CString) → s ≡ pre' ++ (old ++ post') → length pre ≤ length pre'

strncmp_eq-append : (s old post : CString) → s ≡ old ++ post → strncmp_eq (length old) s old ≡ true
strncmp_eq-append s old post e = (strncmp_eq_iff s old).1 (post, e)

strstr_nil : (old post : CString) → strstr old (old ++ post) ≡ some ([], old ++ post)
unfolding strstr strncmp_eq
strstr_nil [] [] = refl
strstr_nil [] (c ∷ post) = refl
strstr_nil (o ∷ old) post = ground (arith, strncmp_eq-append (old ++ post) old post refl)

-- `old` does not occur at the start when its first occurrence is later.
not_at_start :
    (b c : ℕ) (s old pre post : CString)
    → IsFirst (b ∷ s) old (c ∷ pre) post
    → strncmp_eq (length old) (b ∷ s) old ≡ false
not_at_start b c s old pre post f = elim (Bool-cases (strncmp_eq (length old) (b ∷ s) old)) [
  | inl hit ↦
      let h = (strncmp_eq_iff (b ∷ s) old).0 hit in absurd (omega (arith, f.first [] h.0 h.1))
  | inr miss ↦ miss
]

IsFirst-tail :
    (b c : ℕ) {s old pre post : CString}
    → IsFirst (b ∷ s) old (c ∷ pre) post
    → IsFirst s old pre post
IsFirst-tail b c f = record {
  splits = cc (f.splits);
  first = λ pre' post' e. let h = f.first (b ∷ pre') post' (ap (◌∷◌ b) e) in omega arith;
}

strstr-IsFirst :
    (pre s old post : CString) → IsFirst s old pre post → strstr old s ≡ some (pre, old ++ post)
unfolding strstr
strstr-IsFirst [] s old post f = rw (f.splits) (strstr_nil old post)
strstr-IsFirst (c ∷ pre) [] old post f = cc (f.splits)
strstr-IsFirst (c ∷ pre) (b ∷ s) old post f = ground (
  arith,
  f.splits,
  not_at_start b c s old pre post f,
  strstr-IsFirst pre s old post (IsFirst-tail b c f),
)

strstr_absent :
    (s old : CString) → ((pre post : CString) → s ≢ pre ++ (old ++ post)) → strstr old s ≡ none
unfolding strstr
strstr_absent [] old h = elim (Bool-cases (strncmp_eq (length old) [] old)) [
  | inl hit ↦ let found = (strncmp_eq_iff [] old).0 hit in absurd (h [] found.0 found.1)
  | inr miss ↦ rw miss
]
strstr_absent (c ∷ s) old h = elim (Bool-cases (strncmp_eq (length old) (c ∷ s) old)) [
  | inl hit ↦ let found = (strncmp_eq_iff (c ∷ s) old).0 hit in absurd (h [] found.0 found.1)
  | inr miss ↦ rw (miss, strstr_absent s old (λ pre post e. h (c ∷ pre) post (ap (◌∷◌ c) e)))
]

-- Where the old text first occurs, the new text stands in its place, and all else is kept; a NULL
-- new text removes the occurrence.
pub str_replace_first :
    (s old : CString) (new : Option CString) (pre post : CString)
    → IsFirst s old pre post
    → str_replace (some s) (some old) new ≡ some (pre ++ (text_or_empty new ++ post))
unfolding str_replace
str_replace_first s old new pre post f =
    ground (arith, strstr-IsFirst pre s old post f, drop-append old post)

-- A text that does not occur is not replaced.
pub str_replace_absent :
    (s old : CString) (new : Option CString)
    → ((pre post : CString) → s ≢ pre ++ (old ++ post))
    → str_replace (some s) (some old) new ≡ some s
unfolding str_replace
str_replace_absent s old new h = ground (arith, strstr_absent s old h)
