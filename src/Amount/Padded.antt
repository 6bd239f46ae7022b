-- ===== src/Amount/Padded.antt =====
-- The digits that `parseAmountToI128` of internal/service/webapp/amount.go reads: a whole part and
-- a fraction brought to the number of decimals.
use native.Mathlib.Nat.{pow-succ'}
use latch_api.Common.{
  ℕ, zero, suc, ◌-◌, ◌*◌, ◌+◌, ◌^◌, ◌≤◌, ◌++◌, Option, none, some, ◌≡◌, refl, ap, arith, All,
  length, replicate, length-append, ◌∙◌, All-join, sym,
}
use latch_api.Common.Text.{Text}
use latch_api.Amount.Digits.{IsDigit, value, value-append, value_shift}
use latch_api.Amount.{padded_fraction, fraction}

pub zeros_IsDigit : (k : ℕ) → All IsDigit (replicate k b'0')
zeros_IsDigit zero = tt
zeros_IsDigit (suc k) = ((omega arith, omega arith), zeros_IsDigit k)

pub length-replicate : (k c : ℕ) → length (replicate k c) ≡ k
length-replicate zero c = refl
length-replicate (suc k) c = ap suc (length-replicate k c)

ten_times : (n p : ℕ) → (n * 10 + 0) * p ≡ n * (10 * p)
ten_times n p = omega arith

pub value-zeros : (n k : ℕ) → value n (replicate k b'0') ≡ n * 10 ^ k
value-zeros n zero = omega arith
value-zeros n (suc k) =
    value-zeros (n * 10 + (b'0' - b'0')) k
    ∙ ten_times n (10 ^ k)
    ∙ ap (λ p. n * p) (sym (pow-succ' 10 k))

padded_fraction_lem :
    (f : Option Text) (d : ℕ)
    → padded_fraction f d ≡ fraction f ++ replicate (d - length (fraction f)) b'0'
padded_fraction_lem none d = ap (λ k. replicate k b'0') (omega arith)
padded_fraction_lem (some f) d = refl

-- The number that a whole part and a fraction spell at a number of decimals.
abbrev pub amount_value : Text → Text → ℕ → ℕ
amount_value whole frac decimals =
    value 0 whole * 10 ^ decimals + value 0 frac * 10 ^ (decimals - length frac)

length-padded :
    (f : Option Text) (d : ℕ) → length (fraction f) ≤ d → length (padded_fraction f d) ≡ d
length-padded f d h =
    rw
      (
        padded_fraction_lem f d,
        length-append (fraction f) (replicate (d - length (fraction f)) b'0'),
        length-replicate (d - length (fraction f)) b'0',
      )
      (omega arith)

pub padded_IsDigit :
    (f : Option Text) (d : ℕ) → All IsDigit (fraction f) → All IsDigit (padded_fraction f d)
padded_IsDigit f d h = rw (padded_fraction_lem f d) (
    All-join IsDigit (fraction f) (replicate (d - length (fraction f)) b'0') h
      (zeros_IsDigit (d - length (fraction f))))

pub value-padded :
    (w : Text) (f : Option Text) (d : ℕ)
    → length (fraction f) ≤ d
    → value 0 (w ++ padded_fraction f d) ≡ amount_value w (fraction f) d
value-padded w f d h =
    value-append 0 w (padded_fraction f d)
    ∙ value_shift (value 0 w) (padded_fraction f d)
    ∙ rw
        (
          length-padded f d h,
          padded_fraction_lem f d,
          value-append 0 (fraction f) (replicate (d - length (fraction f)) b'0'),
          value-zeros (value 0 (fraction f)) (d - length (fraction f)),
        )
        refl
