-- ===== src/Amount/Digits.antt =====
-- big.Int.String() on non-negative numbers, which internal/service/webapp/amount.go prints with.
use mathlib.Core.Path.{refl}
use mathlib.Core.WellFounded
use mathlib.Core.List.{cons-ne-nil}
use native.Mathlib.Nat.{pow-succ'}
use mathlib.Core.Logic.{ite, dite}
use mathlib.Core.WellFounded.{Acc, Acc-prop, WellFounded}
use native.Mathlib.Decide.{dec_lt}
use latch_api.Common.{
  ℕ, zero, suc, ◌+◌, ◌*◌, ◌/◌, ◌%◌, ◌≤◌, ◌<◌, [], ◌∷◌, ◌++◌, ◌≡◌, arith, ◌-◌, ◌^◌, All, length, ◌≢◌,
  All-append, ◌∙◌, ap, sym, length-append,
}
use latch_api.Common.Text.{Text}

unfoldable up_to : (bound n : ℕ) → n ≤ bound → Acc ◌<◌ n
up_to zero n h = Acc.intro n λ m lt. absurd (omega arith)
up_to (suc bound) n h = Acc.intro n λ m lt. up_to bound m (omega arith)

unfoldable well : (n : ℕ) → Acc ◌<◌ n
unfolding up_to
well n = up_to n n (omega arith)

well_lt : WellFounded ◌<◌
well_lt = record { apply = well }

shorter : (n : ℕ) → ¬ n < 10 → n / 10 < n
shorter n h = omega arith

unfoldable print : (n : ℕ) → Acc ◌<◌ n → Text
unfolding shorter
print n (Acc.intro _ below) =
    dite (dec_lt n 10) (λ _. (b'0' + n) ∷ [])
      λ h. print (n / 10) (below (n / 10) (shorter n h)) ++ (b'0' + n % 10) ∷ []

unfoldable pub format_nat : ℕ → Text
unfolding print well up_to dec_lt shorter
format_nat n = print n (well n)

print_step :
    (n : ℕ) (w : Acc ◌<◌ n) (w' : Acc ◌<◌ (n / 10))
    → print n w ≡ ite (dec_lt n 10) ((b'0' + n) ∷ []) (print (n / 10) w' ++ (b'0' + n % 10) ∷ [])
unfolding print
print_step n (Acc.intro _ below) w' = λ i.
    dite (dec_lt n 10) (λ _. (b'0' + n) ∷ [])
      λ h. print (n / 10) (Acc-prop (below (n / 10) (shorter n h)) w' i) ++ (b'0' + n % 10) ∷ []

-- The last digit stands behind the print of the others.
pub format_nat_step :
    (n : ℕ)
    → format_nat n
      ≡ ite (dec_lt n 10) ((b'0' + n) ∷ []) (format_nat (n / 10) ++ (b'0' + n % 10) ∷ [])
unfolding format_nat
format_nat_step n = print_step n (well n) (well (n / 10))

format_nat-short : (n : ℕ) → n < 10 → format_nat n ≡ (b'0' + n) ∷ []
format_nat-short n h = ground (arith, format_nat_step n)

format_nat-long : (n : ℕ) → ¬ n < 10 → format_nat n ≡ format_nat (n / 10) ++ (b'0' + n % 10) ∷ []
format_nat-long n h = ground (arith, format_nat_step n)

abbrev pub IsDigit : ℕ → Type 0
IsDigit c = (b'0' ≤ c) × (c ≤ b'9')

-- The number that digits spell behind the digits of a number.
abbrev pub value : ℕ → Text → ℕ
value n [] = n
value n (c ∷ s) = value (n * 10 + (c - b'0')) s

pub value-append : (n : ℕ) (s t : Text) → value n (s ++ t) ≡ value (value n s) t
value-append n [] t = refl
value-append n (c ∷ s) t = value-append (n * 10 + (c - b'0')) s t

shift_ring : (n d p v : ℕ) → (n * 10 + d) * p + v ≡ n * (10 * p) + ((0 * 10 + d) * p + v)
shift_ring n d p v = omega arith

pub value_shift : (n : ℕ) (s : Text) → value n s ≡ n * 10 ^ length s + value 0 s
value_shift n [] = omega arith
value_shift n (c ∷ s) =
    value_shift (n * 10 + (c - b'0')) s
    ∙ shift_ring n (c - b'0') (10 ^ length s) (value 0 s)
    ∙ ap (λ p. n * p + ((0 * 10 + (c - b'0')) * 10 ^ length s + value 0 s))
        (sym (pow-succ' 10 (length s)))
    ∙ ap (λ v. n * 10 ^ suc (length s) + v) (sym (value_shift (0 * 10 + (c - b'0')) s))

abbrev IsPrint : ℕ → Type 0
IsPrint n = All IsDigit (format_nat n) × (format_nat n ≢ []) × (value 0 (format_nat n) ≡ n)

snoc_IsPrint :
    (s : Text) (n : ℕ)
    → All IsDigit s × (s ≢ []) × (value 0 s ≡ n / 10)
    → All IsDigit (s ++ (b'0' + n % 10) ∷ [])
      × (s ++ (b'0' + n % 10) ∷ [] ≢ [])
      × (value 0 (s ++ (b'0' + n % 10) ∷ []) ≡ n)
snoc_IsPrint [] n (_, h, _) = absurd (h refl)
snoc_IsPrint (c ∷ s) n (all_digits, _, spelt) = (
  All-append IsDigit (c ∷ s) (b'0' + n % 10) all_digits (omega arith),
  cons-ne-nil c (s ++ (b'0' + n % 10) ∷ []),
  value-append 0 (c ∷ s) ((b'0' + n % 10) ∷ [])
      ∙ ap (λ v. v * 10 + (b'0' + n % 10 - b'0')) spelt
      ∙ omega arith,
)

-- A number prints as one or more digits that spell it.
pub format_nat_lem : (n : ℕ) → IsPrint n
format_nat_lem n = WellFounded.induction well_lt {C = IsPrint} n λ m ih. elim (dec_lt m 10) [
  | yes short ↦
      rw (format_nat-short m short) ((omega arith, tt), cons-ne-nil (b'0' + m) [], omega arith)
  | no long ↦
      rw (format_nat-long m long)
        (snoc_IsPrint (format_nat (m / 10)) m (ih (m / 10) (shorter m long)))
]

-- A number below a power of ten prints in no more digits than the exponent, or in one.
pub length-format_nat : (k n : ℕ) → n < 10 ^ suc k → length (format_nat n) ≤ suc k
length-format_nat zero n h = rw (format_nat-short n (omega arith)) (omega arith)
length-format_nat (suc k) n h = elim (dec_lt n 10) [
  | yes short ↦ rw (format_nat-short n short) (omega arith)
  | no long ↦
      rw (format_nat-long n long, length-append (format_nat (n / 10)) ((b'0' + n % 10) ∷ []))
        (omega (arith, length-format_nat k (n / 10) (omega (arith, pow-succ' 10 (suc k)))))
]
