-- ===== src/Amount/Fraction.antt =====
-- The fraction that `formatI128Amount` prints, of internal/service/webapp/amount.go.
use latch_api.Amount.Padded.{value-zeros, zeros_IsDigit, length-replicate}
use latch_api.Common.{
  ℕ, zero, suc, ◌+◌, ◌-◌, ◌*◌, ◌^◌, ◌≤◌, ◌<◌, [], ◌∷◌, ◌++◌, ◌≡◌, refl, sym, ap, ◌∙◌, inl, inr,
  arith, All, All-join, All-split, length, replicate, ◌==◌, ==_iff, Bool-cases, length-append,
}
use latch_api.Common.Text.{Text}
use latch_api.Amount.{trim_right_zeros, trim_zero, pad_left}
use latch_api.Amount.Digits.{
  IsDigit, value, value-append, format_nat, format_nat_lem, length-format_nat,
}

abbrev IsTrimmed : Text → Text → Type 0
IsTrimmed t s = (k : ℕ) × (t ++ replicate k b'0' ≡ s)

trim_zero-IsTrimmed : (c : ℕ) (t s : Text) → IsTrimmed t s → IsTrimmed (trim_zero c t) (c ∷ s)
trim_zero-IsTrimmed c [] s (k, e) = elim (Bool-cases (c == b'0')) [
  | inl zero_last ↦
      rw zero_last
        (suc k, ap (λ z. b'0' ∷ z) e ∙ ap (λ z. z ∷ s) (sym ((==_iff c b'0').0 zero_last)))
  | inr kept ↦ rw kept (k, ap (λ z. c ∷ z) e)
]
trim_zero-IsTrimmed c (a ∷ t) s (k, e) = (k, ap (λ z. c ∷ z) e)

trim_right_zeros-IsTrimmed : (s : Text) → IsTrimmed (trim_right_zeros s) s
unfolding trim_right_zeros
trim_right_zeros-IsTrimmed [] = (0, refl)
trim_right_zeros-IsTrimmed (c ∷ s) =
    trim_zero-IsTrimmed c (trim_right_zeros s) s (trim_right_zeros-IsTrimmed s)

value-leading : (k : ℕ) (s : Text) → value 0 (replicate k b'0' ++ s) ≡ value 0 s
value-leading zero s = refl
value-leading (suc k) s = value-leading k s

value-trailing : (n : ℕ) (t : Text) (k : ℕ) → value n (t ++ replicate k b'0') ≡ value n t * 10 ^ k
value-trailing n t k = value-append n t (replicate k b'0') ∙ value-zeros (value n t) k

-- The fraction that is printed: at most `decimals` digits, which spell the number to be printed.
abbrev pub IsFraction : ℕ → ℕ → Text → Type 0
IsFraction n decimals t =
    All IsDigit t × (length t ≤ decimals) × (value 0 t * 10 ^ (decimals - length t) ≡ n)

the_rest : (l k d : ℕ) → l + k ≡ d → d - l ≡ k
the_rest l k d h = omega arith

trimmed-IsFraction :
    (n d : ℕ) (s t : Text)
    → All IsDigit s
    → length s ≡ d
    → value 0 s ≡ n
    → IsTrimmed t s
    → IsFraction n d t
trimmed-IsFraction n d s t digits len spelt (k, e) =
    let sum = sym (length-append t (replicate k b'0')) ∙ ap length e ∙ len in
    let total = rw (length-replicate k b'0') at sum in
    let left = the_rest (length t) k d total in
    let trailing = sym (value-trailing 0 t k) ∙ ap (value 0) e ∙ spelt in
    (
      (All-split IsDigit t (replicate k b'0') (rw (sym e) at digits)).0,
      omega arith,
      ap (λ j. value 0 t * 10 ^ j) left ∙ trailing,
    )

unfoldable pub print_fraction : ℕ → ℕ → Text
unfolding trim_right_zeros
print_fraction n d = trim_right_zeros (pad_left d (format_nat n))

below_one : (n : ℕ) → n < 10 ^ 0 → n ≡ 0
below_one n h = omega arith

zero-IsFraction : IsFraction 0 0 (print_fraction 0 0)
unfolding print_fraction format_nat
zero-IsFraction = (tt, omega arith, refl)

pub print_fraction-IsFraction : (n d : ℕ) → n < 10 ^ d → IsFraction n d (print_fraction n d)
unfolding print_fraction
print_fraction-IsFraction n zero h = rw (below_one n h) zero-IsFraction
print_fraction-IsFraction n (suc k) h =
    let (digits, _, spelt) = format_nat_lem n in
    let zeros = suc k - length (format_nat n) in
    trimmed-IsFraction n (suc k) (pad_left (suc k) (format_nat n)) (print_fraction n (suc k))
      (All-join IsDigit (replicate zeros b'0') (format_nat n) (zeros_IsDigit zeros) digits)
      (rw (length-append (replicate zeros b'0') (format_nat n), length-replicate zeros b'0')
        (omega (arith, length-format_nat k n h)))
      (value-leading zeros (format_nat n) ∙ spelt)
      (trim_right_zeros-IsTrimmed (pad_left (suc k) (format_nat n)))
