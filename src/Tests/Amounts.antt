-- ===== src/Tests/Amounts.antt =====
-- Runs of the conversions of amounts.
use latch_api.Amount.Padded.{amount_value}
use latch_api.Amount.Parse.{IsAmount, parse_amount_to_i128-IsAmount, words}
use latch_api.Amount.RoundTrip.{
  parse_amount_to_i128-format_i128_amount, parse_amount_to_i128-digits,
}
use latch_api.Amount.Digits.{format_nat}
use latch_api.Common.{◌≡◌, ok, false, if◌then◌else◌, refl, ltb, arith, length, err, ◌^◌}
use latch_api.Common.Text.{
  has_prefix, trim_space, codes, trim_left, is_space, strip_prefix, is_digit,
}
use latch_api.Amount.{
  I128, parse_amount_to_i128, format_i128_amount, cut_point, parse_cut, fraction, big_of_text,
  too_many_decimals, scan_digits, words_of_big, out_of_i128_range,
}

price : I128
price = record { hi = 0; lo = 12500000 }

parse_amount_to_i128-format_i128_amount_example :
    parse_amount_to_i128 (format_i128_amount price 7) 7 ≡ ok price
unfolding price
parse_amount_to_i128-format_i128_amount_example =
    parse_amount_to_i128-format_i128_amount price 7 (omega arith) (omega arith)

printed_price : format_i128_amount price 7 ≡ codes "1.25"
unfolding price format_i128_amount format_nat
printed_price = refl

read_price : parse_amount_to_i128 (codes " +1.25 ") 7 ≡ ok price
unfolding price parse_amount_to_i128 trim_space trim_left is_space strip_prefix cut_point parse_cut
    big_of_text scan_digits is_digit words_of_big
read_price = refl

-- A point alone is accepted as zero, where there is a decimal to fill.
read_point : parse_amount_to_i128 (codes ".") 7 ≡ ok (record { hi = 0; lo = 0 })
unfolding parse_amount_to_i128 trim_space trim_left is_space strip_prefix cut_point parse_cut
    big_of_text scan_digits is_digit words_of_big
read_point = refl

parse_amount_to_i128-IsAmount_example :
    (has_prefix (trim_space (codes " +1.25 ")) (codes "-") ≡ false)
    × IsAmount
        (cut_point (trim_space (codes " +1.25 "))).0
        (fraction (cut_point (trim_space (codes " +1.25 "))).1)
        7
        price
parse_amount_to_i128-IsAmount_example =
    parse_amount_to_i128-IsAmount (codes " +1.25 ") 7 price read_price

parse_amount_to_i128-digits_example : parse_amount_to_i128 (codes "12.5") 0 ≡ (
    if ltb 0 (length (codes "5"))
    then err (too_many_decimals 0)
    else if ltb (amount_value (codes "12") (codes "5") 0) (2 ^ 127)
    then ok (words (amount_value (codes "12") (codes "5") 0))
    else err out_of_i128_range)
parse_amount_to_i128-digits_example =
    parse_amount_to_i128-digits (codes "12") (codes "5") 0
      ((omega arith, omega arith), ((omega arith, omega arith), tt))
      ((omega arith, omega arith), tt)
