-- ===== src/Strutil/Search.antt =====
-- The search of `axctl_str_icontains`, against the existence of an occurrence.
use axctl_c.Prelude.{
  ℕ, zero, suc, ◌+◌, ◌-◌, ◌≤◌, ◌<◌, ◌≡◌, refl, sym, ap, ◌∙◌, ◌↔◌, inl, inr, true, false, [], ◌∷◌,
  ◌++◌, map, some, arith, ◌==◌, Bool-cases, length, length-append, length-map, CString,
}
use axctl_c.Strutil.{tolower, icontains_at, icontains_scan, icontains}

-- `needle` occurs in `haystack`, up to the case of ASCII letters.
pub record Contains (haystack needle : CString) : Type 0 where
  pub pre : CString
  pub mid : CString
  pub post : CString
  pub splits : haystack ≡ pre ++ (mid ++ post)
  pub same : map tolower mid ≡ map tolower needle

-- `haystack` begins with `needle`, up to case.
record Begins (haystack needle : CString) : Type 0 where
  mid : CString
  post : CString
  splits : haystack ≡ mid ++ post
  same : map tolower mid ≡ map tolower needle

Begins-cons :
    (h n : ℕ) {hs ns : CString} → tolower h ≡ tolower n → Begins hs ns → Begins (h ∷ hs) (n ∷ ns)
Begins-cons h n e b = record {
  mid = h ∷ b.mid;
  post = b.post;
  splits = ap (◌∷◌ h) b.splits;
  same = cc (e, b.same);
}

icontains_at_sound :
    (needle haystack : CString) → icontains_at needle haystack ≡ true → Begins haystack needle
unfolding icontains_at
icontains_at_sound [] haystack e = record { mid = []; post = haystack; splits = refl; same = refl }
icontains_at_sound (n ∷ needle) [] e = cc
icontains_at_sound (n ∷ needle) (h ∷ haystack) e = elim (Bool-cases (tolower h == tolower n)) [
  | inl same ↦ Begins-cons h n (ground arith) (icontains_at_sound needle haystack (rw same at e))
  | inr other ↦ let f : false ≡ true = rw other at e in cc
]

icontains_at_complete :
    (needle mid post : CString)
    → map tolower mid ≡ map tolower needle
    → icontains_at needle (mid ++ post) ≡ true
unfolding icontains_at
icontains_at_complete [] mid post e = refl
icontains_at_complete (n ∷ needle) [] post e = cc
icontains_at_complete (n ∷ needle) (m ∷ mid) post e =
    ground (arith, icontains_at_complete needle mid post)

Contains-cons :
    (c : ℕ) {haystack needle : CString} → Contains haystack needle → Contains (c ∷ haystack) needle
Contains-cons c o = record {
  pre = c ∷ o.pre;
  mid = o.mid;
  post = o.post;
  splits = ap (◌∷◌ c) o.splits;
  same = o.same;
}

Contains-of_Begins : {haystack needle : CString} → Begins haystack needle → Contains haystack needle
Contains-of_Begins b = record {
  pre = [];
  mid = b.mid;
  post = b.post;
  splits = b.splits;
  same = b.same;
}

icontains_scan_sound :
    (k : ℕ) (needle haystack : CString)
    → icontains_scan k needle haystack ≡ true
    → Contains haystack needle
unfolding icontains_scan
icontains_scan_sound zero needle haystack e = cc
icontains_scan_sound (suc k) needle [] e = elim (Bool-cases (icontains_at needle [])) [
  | inl hit ↦ Contains-of_Begins (icontains_at_sound needle [] hit)
  | inr miss ↦ icontains_scan_sound k needle [] (rw miss at e)
]
icontains_scan_sound (suc k) needle (c ∷ haystack) e =
    elim (Bool-cases (icontains_at needle (c ∷ haystack))) [
      | inl hit ↦ Contains-of_Begins (icontains_at_sound needle (c ∷ haystack) hit)
      | inr miss ↦ Contains-cons c (icontains_scan_sound k needle haystack (rw miss at e))
    ]

icontains_scan_complete :
    (k : ℕ) (needle pre mid post : CString)
    → length pre < k
    → map tolower mid ≡ map tolower needle
    → icontains_scan k needle (pre ++ (mid ++ post)) ≡ true
unfolding icontains_scan
icontains_scan_complete zero needle pre mid post h e = elim h [ ]
icontains_scan_complete (suc k) needle [] mid post h e =
    rw (icontains_at_complete needle mid post e)
icontains_scan_complete (suc k) needle (c ∷ pre) mid post h e =
    ground (arith, icontains_scan_complete k needle pre mid post)

length-mid :
    (mid needle : CString) → map tolower mid ≡ map tolower needle → length mid ≡ length needle
length-mid mid needle e = sym (length-map mid tolower) ∙ ap length e ∙ length-map needle tolower

Contains-fits :
    {haystack needle : CString} (o : Contains haystack needle)
    → length o.pre + length needle ≤ length haystack
Contains-fits {haystack} {needle} o = omega (
  arith,
  ap length o.splits,
  length-append o.pre (o.mid ++ o.post),
  length-append o.mid o.post,
  length-mid o.mid needle o.same,
)

icontains_scan-finds :
    (k : ℕ) {haystack needle : CString} (o : Contains haystack needle)
    → length o.pre < k
    → icontains_scan k needle haystack ≡ true
icontains_scan-finds k {haystack} {needle} o h =
    rw o.splits (icontains_scan_complete k needle o.pre o.mid o.post h o.same)

icontains_complete :
    {haystack needle : CString}
    → Contains haystack needle
    → icontains (some haystack) (some needle) ≡ true
unfolding icontains
icontains_complete {haystack} {needle} o =
    let k = suc (length haystack - length needle) in
    ground (arith, Contains-fits o, icontains_scan-finds k o (omega (arith, Contains-fits o)))

empty_needle : (haystack needle : CString) → length needle ≡ 0 → Contains haystack needle
empty_needle haystack [] e = record {
  pre = [];
  mid = [];
  post = haystack;
  splits = refl;
  same = refl;
}
empty_needle haystack (n ∷ needle) e = absurd (omega arith)

icontains_sound :
    (haystack needle : CString)
    → icontains (some haystack) (some needle) ≡ true
    → Contains haystack needle
unfolding icontains
icontains_sound haystack needle e = elim (Bool-cases (length needle == 0)) [
  | inl blank ↦ empty_needle haystack needle (ground arith)
  | inr more ↦
      icontains_scan_sound (suc (length haystack - length needle)) needle haystack (ground arith)
]

-- For strings that are not NULL, the search answers true exactly when the needle occurs in the
-- haystack up to the case of ASCII letters.
pub icontains_iff :
    (haystack needle : CString)
    → (icontains (some haystack) (some needle) ≡ true) ↔ Contains haystack needle
icontains_iff haystack needle = (icontains_sound haystack needle, icontains_complete)
