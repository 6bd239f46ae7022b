-- ===== src/Amount.antt =====
-- internal/service/webapp/amount.go: amounts between decimal text and a 128-bit number of the
-- contract's ABI in its high and low words. The numbers are non-negative, as the source says.
-- Below it: Digits, the decimal print and the accumulation of digits; Padded, the digits that are read; Parse, what an amount is
-- accepted as; Fraction, the print of a fraction; RoundTrip, the print read back.
pub mod Digits
pub mod Padded
pub mod Parse
pub mod Fraction
pub mod RoundTrip
use latch_api.Common.{
  ℕ, zero, suc, ◌-◌, ◌*◌, ◌+◌, ◌/◌, ◌%◌, ◌^◌, Bool, true, false, List, [], ◌∷◌, ◌++◌, Option, none,
  some, Result, ok, err, length, replicate, ltb, ◌==◌, if◌then◌else◌,
}
use latch_api.Common.Text.{Text, codes, is_empty, is_digit, trim_space, has_prefix}
use latch_api.Amount.Digits.{format_nat}

-- The errors of `parseAmountToI128`.
pub data AmountError : Type 0 where
  empty_amount negative_amount invalid_amount out_of_i128_range : AmountError
  too_many_decimals : ℕ → AmountError

-- xdr.Int128Parts
pub record I128 : Type 0 where
  pub hi : ℕ
  pub lo : ℕ

-- strings.Cut(s, "."): what stands before the first point, and what behind it where there is one.
unfoldable pub cut_point : Text → Text × Option Text
cut_point [] = ([], none)
cut_point (c ∷ s) =
    let rest = cut_point s in if c == b'.' then ([], some s) else (c ∷ rest.0, rest.1)

unfoldable pub scan_digits : Text → ℕ → Option ℕ
scan_digits [] n = some n
scan_digits (c ∷ s) n =
    let rest = scan_digits s (n * 10 + (c - b'0')) in if is_digit c then rest else none

abbrev pub scan_number : Text → Option ℕ
scan_number [] = none
scan_number (c ∷ s) = scan_digits (c ∷ s) 0

-- new(big.Int).SetString(s, 10) as a sign (`true` for a minus) and a magnitude.
unfoldable pub big_of_text : Text → Option (Bool × ℕ)
big_of_text [] = none
big_of_text (c ∷ s) =
    if c == b'-'
    then elim (scan_number s) [ none ↦ none | some n ↦ some (true, n) ]
    else if c == b'+'
    then elim (scan_number s) [ none ↦ none | some n ↦ some (false, n) ]
    else elim (scan_number (c ∷ s)) [ none ↦ none | some n ↦ some (false, n) ]

-- The two words of a non-negative number below 2 ^ 127; `raw.Sign() < 0 || raw.BitLen() > 127`.
unfoldable pub words_of_big : Option (Bool × ℕ) → Result AmountError I128
words_of_big none = err invalid_amount
words_of_big (some (minus, n)) =
    if (if minus then ltb 0 n else false)
    then err out_of_i128_range
    else if ltb n (2 ^ 127)
    then ok (record { hi = n / 2 ^ 64; lo = n % 2 ^ 64 })
    else err out_of_i128_range

-- The fraction with the zeros that bring it to the number of decimals.
abbrev pub padded_fraction : Option Text → ℕ → Text
padded_fraction none decimals = replicate decimals b'0'
padded_fraction (some f) decimals = f ++ replicate (decimals - length f) b'0'

abbrev pub fraction : Option Text → Text
fraction none = []
fraction (some f) = f

abbrev pub or_zero : Text → Text
or_zero whole = if is_empty whole then codes "0" else whole

unfoldable pub parse_cut : Text × Option Text → ℕ → Result AmountError I128
unfolding words_of_big big_of_text
parse_cut (whole, frac) decimals =
    if ltb decimals (length (fraction frac))
    then err (too_many_decimals decimals)
    else words_of_big (big_of_text (or_zero whole ++ padded_fraction frac decimals))

-- `parseAmountToI128`
unfoldable pub parse_amount_to_i128 : Text → ℕ → Result AmountError I128
unfolding parse_cut
parse_amount_to_i128 amount decimals =
    let trimmed = trim_space amount in
    if is_empty trimmed
    then err empty_amount
    else if has_prefix trimmed (codes "-")
    then err negative_amount
    else parse_cut (cut_point trimmed) decimals

abbrev pub trim_zero : ℕ → Text → Text
trim_zero c [] = if c == b'0' then [] else c ∷ []
trim_zero c (d ∷ s) = c ∷ d ∷ s

-- strings.TrimRight(s, "0")
unfoldable pub trim_right_zeros : Text → Text
trim_right_zeros [] = []
trim_right_zeros (c ∷ s) = trim_zero c (trim_right_zeros s)

abbrev pub join_fraction : Text → Text → Text
join_fraction whole [] = whole
join_fraction whole (c ∷ s) = whole ++ b'.' ∷ c ∷ s

abbrev pub pad_left : ℕ → Text → Text
pad_left decimals s = replicate (decimals - length s) b'0' ++ s

abbrev pub raw_of_words : I128 → ℕ
raw_of_words a = a.hi * 2 ^ 64 + a.lo

-- `formatI128Amount`
unfoldable pub format_i128_amount : I128 → ℕ → Text
unfolding trim_right_zeros
format_i128_amount a decimals =
    let raw = raw_of_words a in
    let scale = 10 ^ decimals in
    let frac_str = trim_right_zeros (pad_left decimals (format_nat (raw % scale))) in
    join_fraction (format_nat (raw / scale)) frac_str

-- `i128LessThan`
unfoldable pub i128_less_than : I128 → I128 → Bool
i128_less_than a b = ltb (raw_of_words a) (raw_of_words b)
