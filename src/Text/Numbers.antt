-- ===== src/Text/Numbers.antt =====
-- Numbers that are printed with `%d` are read again by `atoi`.
use axctl_c.Prelude.{
  ◌≡◌, refl, sym, ap, ◌∙◌, ℕ, zero, suc, ◌+◌, ◌%◌, ◌≤◌, ◌<◌, [], ◌∷◌, CString, ◌==◌, arith,
  Bool-cases, inl, inr, ℤ, pos, negsuc, neg,
}
use Prim.Native.Nat.{◌/◌}
use axctl_c.Text.{digits_onto, show_nat, show_int}
use axctl_c.Strutil.{isspace}
use axctl_c.Cli.Params.{digits_from, signed_from, atoi}

-- The number that digits stand for, with `m` in front of them.
digits_from-digits_onto :
    (fuel n : ℕ) (acc : CString)
    → n < fuel
    → digits_from 0 (digits_onto fuel n acc) ≡ digits_from n acc
unfolding digits_from digits_onto
digits_from-digits_onto zero n acc enough = elim enough [ ]
digits_from-digits_onto (suc fuel) n acc enough = elim (Bool-cases (n / 10 == 0)) [
  | inl last ↦ rw (last, digits_onto) ground arith
  | inr more ↦
      rw (more, digits_onto)
        (digits_from-digits_onto fuel (n / 10) ((b'0' + n % 10) ∷ acc) (ground arith)
          ∙ ground arith)
]

digits_onto-head :
    (fuel n : ℕ) (acc : CString)
    → n < fuel
    → (d : ℕ) × (rest : CString) × (digits_onto fuel n acc ≡ d ∷ rest) × (b'0' ≤ d) × (d ≤ b'9')
unfolding digits_onto
digits_onto-head zero n acc enough = elim enough [ ]
digits_onto-head (suc fuel) n acc enough = elim (Bool-cases (n / 10 == 0)) [
  | inl last ↦ rw (last, digits_onto) (b'0' + n % 10, acc, refl, omega arith, omega arith)
  | inr more ↦
      rw (more, digits_onto) (digits_onto-head fuel (n / 10) ((b'0' + n % 10) ∷ acc) (ground arith))
]

digits_from-show_nat : (n : ℕ) → digits_from 0 (show_nat n) ≡ n
unfolding show_nat
digits_from-show_nat n =
    digits_from-digits_onto (suc n) n [] (omega arith) ∙ unfold digits_from in refl

atoi-digits :
    (d : ℕ) (rest : CString)
    → b'0' ≤ d
    → d ≤ b'9'
    → atoi (d ∷ rest) ≡ pos (digits_from 0 (d ∷ rest))
unfolding atoi signed_from isspace
atoi-digits d rest low high = ground arith

-- An `int` that is printed with `%d` is read back by `atoi`.
pub atoi-show_int : (i : ℤ) → atoi (show_int i) ≡ i
unfolding show_int show_nat atoi signed_from isspace
atoi-show_int (pos n) =
    let (d, rest, e, low, high) = digits_onto-head (suc n) n [] (omega arith) in
    ap atoi e
    ∙ atoi-digits d rest low high
    ∙ ap (λ s. pos (digits_from 0 s)) (sym e)
    ∙ ap (λ m. pos m) (digits_from-show_nat n)
atoi-show_int (negsuc n) = ap (λ x. neg (pos x)) (digits_from-show_nat (suc n))
