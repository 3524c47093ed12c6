-- ===== src/Strutil/Tests.antt =====
-- Runs of the string helpers, and their theorems at concrete strings.
use axctl_c.Prelude.{
  ◌≤◌, ◌≡◌, ◌↔◌, refl, true, List, [], ◌∷◌, ◌++◌, some, arith, length, All, CString, codes,
}
use axctl_c.Strutil.{icontains, strtrim, strsplit, str_replace, capitalize}
use axctl_c.Strutil.Search.{Contains, icontains_iff}
use axctl_c.Strutil.Trim.{Trimmed, strtrim-Trimmed}
use axctl_c.Strutil.Split.{join, IsFree, join-strsplit, strsplit-join}
use axctl_c.Strutil.Replace.{IsFirst}

finds_fox : icontains (some (codes "FireFox")) (some (codes "fox")) ≡ true
unfolding icontains
finds_fox = refl

trims : strtrim (some (codes " \ta b\n ")) ≡ some (codes "a b")
unfolding strtrim
trims = refl

capitalizes : capitalize (some (codes "focus-dir")) ≡ codes "FocusDir"
unfolding capitalize
capitalizes = refl

replaces_once :
    str_replace (some (codes "a.b.c")) (some (codes ".")) (some (codes "::"))
    ≡ some (codes "a::b.c")
unfolding str_replace
replaces_once = refl

abbrev words : List CString
words = codes "SUPER" ∷ codes "" ∷ codes "Return" ∷ []

splits : (strsplit (some (codes "SUPER,,Return")) b',').out ≡ words
unfolding strsplit
splits = refl

icontains_iff_example :
    (icontains (some (codes "FireFox")) (some (codes "fox")) ≡ true)
    ↔ Contains (codes "FireFox") (codes "fox")
icontains_iff_example = icontains_iff (codes "FireFox") (codes "fox")

strtrim-Trimmed_example :
    (t : CString) × (strtrim (some (codes " a ")) ≡ some t) × Trimmed (codes " a ") t
strtrim-Trimmed_example = strtrim-Trimmed (codes " a ")

join-strsplit_example :
    let pieces = strsplit (some (codes "a,b")) b',' in
    (length pieces.out ≡ pieces.count)
    × All (IsFree b',') pieces.out
    × (join b',' pieces.out ≡ codes "a,b")
join-strsplit_example = join-strsplit (codes "a,b") b','

strsplit-join_example : (strsplit (some (join b',' words)) b',').out ≡ words
strsplit-join_example =
    strsplit-join b',' (codes "SUPER") (codes "" ∷ codes "Return" ∷ []) (omega arith)

dot-IsFirst : IsFirst (codes "a.b") (codes ".") (codes "a") (codes "b")
dot-IsFirst = record { splits = refl; first = λ pre' post' e. first_le pre' post' e }
  where
    first_le : (pre' post' : CString) → codes "a.b" ≡ pre' ++ (codes "." ++ post') → 1 ≤ length pre'
    first_le [] post' e = ground arith
    first_le (c ∷ pre') post' e = omega arith

absent_dot : (pre post : CString) → codes "a" ≡ pre ++ (codes "." ++ post) → ⊥
absent_dot [] post e = ground arith
absent_dot (c ∷ []) post e = ground arith
absent_dot (c ∷ d ∷ pre) post e = ground arith
