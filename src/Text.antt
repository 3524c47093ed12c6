-- ===== src/Text.antt =====
-- The conversions of `printf` that the program's texts use: `%d`, and what stands for an optional part.
pub mod Numbers
use axctl_c.Prelude.{
  ℕ, zero, suc, ◌+◌, ◌%◌, Bool, List, [], ◌∷◌, ◌++◌, Option, none, some, CString, codes, ◌==◌, ℤ,
  pos, negsuc, if◌then◌else◌,
}
use Prim.Native.Nat.{◌/◌}

-- The digits of a number in front of `acc`, with the number of digits at most.
unfoldable pub digits_onto : ℕ → ℕ → CString → CString
digits_onto zero n acc = acc
digits_onto (suc fuel) n acc =
    let rest = digits_onto fuel (n / 10) ((b'0' + n % 10) ∷ acc) in
    if n / 10 == 0 then (b'0' + n % 10) ∷ acc else rest

-- No number has more digits than one more than itself.
unfoldable pub show_nat : ℕ → CString
unfolding digits_onto
show_nat n = digits_onto (suc n) n []

-- `%d`
unfoldable pub show_int : ℤ → CString
unfolding show_nat
show_int (pos n) = show_nat n
show_int (negsuc n) = b'-' ∷ show_nat (suc n)

-- The text for a value, if there is one.
unfoldable pub when_set {ℓ} : {A : Type ℓ} → Option A → (A → CString) → CString
when_set none f = []
when_set (some a) f = f a

-- `if (flag && flag->value)`
unfoldable pub when_true : Option Bool → CString → CString
when_true none s = []
when_true (some b) s = if b then s else []

-- `b ? "true" : "false"`
abbrev pub bool_text : Bool → CString
bool_text b = if b then codes "true" else codes "false"

-- `s ? s : ""`
abbrev pub text_of : Option CString → CString
text_of none = []
text_of (some s) = s

-- The texts of all items, one after the other.
unfoldable pub concat_map {ℓ} : {A : Type ℓ} → (A → CString) → List A → CString
concat_map f [] = []
concat_map f (x ∷ xs) = f x ++ concat_map f xs
