-- ===== src/Strutil/Compare.antt =====
-- The comparisons: `axctl_strcasecmp`, `axctl_starts_with` and `axctl_ends_with`.
use axctl_c.Prelude.{
  ◌-◌, ◌<◌, ◌≡◌, refl, ◌↔◌, true, [], ◌∷◌, ◌++◌, map, Option, none, some, arith, length,
  length-append, take, drop, All, take-append-drop, drop-append, CString, str_eq_iff, pos, neg,
}
use axctl_c.Strutil.{tolower, strncmp_eq, casecmp_loop, strcasecmp, starts_with, ends_with}

-- The bytes of a C string: the terminator is not among them.
abbrev pub IsText : CString → Type 0
IsText = All (λ c. 0 < c)

casecmp_loop-zero :
    (a b : CString) → IsText a → IsText b → casecmp_loop a b ≡ pos 0 → map tolower a ≡ map tolower b
unfolding casecmp_loop
casecmp_loop-zero [] [] ha hb e = refl
casecmp_loop-zero [] (y ∷ b) ha hb e = ground arith
casecmp_loop-zero (x ∷ a) [] ha hb e = ground arith
casecmp_loop-zero (x ∷ a) (y ∷ b) ha hb e = ground (arith, casecmp_loop-zero a b ha.1 hb.1)

casecmp_loop-same : (a b : CString) → map tolower a ≡ map tolower b → casecmp_loop a b ≡ pos 0
unfolding casecmp_loop
casecmp_loop-same [] [] e = refl
casecmp_loop-same [] (y ∷ b) e = cc
casecmp_loop-same (x ∷ a) [] e = cc
casecmp_loop-same (x ∷ a) (y ∷ b) e = ground (arith, casecmp_loop-same a b)

-- On strings with no zero byte the comparison is 0 exactly when they agree up to the case of
-- ASCII letters.
pub strcasecmp-zero_iff :
    (a b : CString)
    → IsText a
    → IsText b
    → (strcasecmp (some a) (some b) ≡ pos 0) ↔ (map tolower a ≡ map tolower b)
unfolding strcasecmp
strcasecmp-zero_iff a b ha hb = (casecmp_loop-zero a b ha hb, casecmp_loop-same a b)

casecmp_loop-neg : (a b : CString) → casecmp_loop b a ≡ neg (casecmp_loop a b)
unfolding casecmp_loop
casecmp_loop-neg [] [] = refl
casecmp_loop-neg [] (y ∷ b) = ground arith
casecmp_loop-neg (x ∷ a) [] = ground arith
casecmp_loop-neg (x ∷ a) (y ∷ b) = ground (arith, casecmp_loop-neg a b)

-- Swapping the arguments, NULL or not, negates the result.
pub strcasecmp-neg : (a b : Option CString) → strcasecmp b a ≡ neg (strcasecmp a b)
unfolding strcasecmp
strcasecmp-neg none none = refl
strcasecmp-neg none (some b) = refl
strcasecmp-neg (some a) none = refl
strcasecmp-neg (some a) (some b) = casecmp_loop-neg a b

strncmp_eq_sound : (s p : CString) → strncmp_eq (length p) s p ≡ true → s ≡ p ++ drop (length p) s
unfolding strncmp_eq
strncmp_eq_sound s [] e = refl
strncmp_eq_sound [] (y ∷ p) e = cc
strncmp_eq_sound (x ∷ s) (y ∷ p) e = ground (arith, strncmp_eq_sound s p)

strncmp_eq_complete : (p post : CString) → strncmp_eq (length p) (p ++ post) p ≡ true
unfolding strncmp_eq
strncmp_eq_complete [] post = refl
strncmp_eq_complete (y ∷ p) post = ground (arith, strncmp_eq_complete p post)

-- The test of the first bytes answers true exactly when the string is the prefix and a rest.
pub strncmp_eq_iff :
    (s p : CString) → (strncmp_eq (length p) s p ≡ true) ↔ ((post : CString) × (s ≡ p ++ post))
strncmp_eq_iff s p =
    (λ e. (drop (length p) s, strncmp_eq_sound s p e), λ h. rw (h.1) (strncmp_eq_complete p h.0))

ends_with_sound :
    (s suffix : CString)
    → ends_with (some s) (some suffix) ≡ true
    → s ≡ take (length s - length suffix) s ++ suffix
unfolding ends_with
ends_with_sound s suffix e =
    let n = length s - length suffix in
    ground (arith, str_eq_iff (drop n s) suffix, take-append-drop n s)

ends_with_complete : (pre suffix : CString) → ends_with (some (pre ++ suffix)) (some suffix) ≡ true
unfolding ends_with
ends_with_complete pre suffix =
    ground (arith, length-append pre suffix, drop-append pre suffix, str_eq_iff suffix suffix)

-- For strings that are not NULL, the two tests answer true exactly when the string begins with the
-- prefix, and ends with the suffix.
pub starts_with-ends_with_iff :
    (s p : CString)
    → ((starts_with (some s) (some p) ≡ true) ↔ ((post : CString) × (s ≡ p ++ post)))
      × ((ends_with (some s) (some p) ≡ true) ↔ ((pre : CString) × (s ≡ pre ++ p)))
unfolding starts_with
starts_with-ends_with_iff s p = (
  strncmp_eq_iff s p,
  (
    λ e. (take (length s - length p) s, ends_with_sound s p e),
    λ h. rw (h.1) (ends_with_complete h.0 p),
  ),
)
