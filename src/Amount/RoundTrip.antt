-- ===== src/Amount/RoundTrip.antt =====
-- `formatI128Amount` and then `parseAmountToI128` of internal/service/webapp/amount.go.
use latch_api.Amount.Padded.{amount_value}
use latch_api.Amount.Fraction.{print_fraction, print_fraction-IsFraction}
use native.Mathlib.Nat.{mod-lt, one-le-pow, div-add-mod'}
use mathlib.Core.List.{reverse, reverse_aux, reverse-reverse, cons-ne-nil}
use latch_api.Common.{
  ℕ, ◌/◌, ◌%◌, ◌^◌, ◌≤◌, ◌<◌, [], ◌∷◌, ◌++◌, none, some, ok, err, ◌≡◌, ◌≢◌, refl, ap, ◌∙◌, arith,
  All, All-join, All-map_of, length, ltb, if◌then◌else◌,
}
use latch_api.Common.Text.{Text, is_space, trim_left, trim_space, strip_prefix}
use latch_api.Amount.{
  I128, too_many_decimals, out_of_i128_range, raw_of_words, parse_amount_to_i128,
  format_i128_amount, parse_cut, cut_point, join_fraction, false, true,
}
use latch_api.Amount.Digits.{IsDigit, format_nat, format_nat_lem}
use latch_api.Amount.Parse.{words, parse_cut_complete, cut_digits, cut_digits_point}

-- Digits and points stand behind the signs and the white space in ASCII.
abbrev IsPrinted : ℕ → Type 0
IsPrinted c = b'.' ≤ c

reverse_All : (P : ℕ → Type 0) (s t : Text) → All P s → All P t → All P (reverse_aux s t)
reverse_All P [] t _ h = h
reverse_All P (c ∷ s) t (p, l) h = reverse_All P s (c ∷ t) l (p, h)

trim_left_printed : (s : Text) → All IsPrinted s → trim_left s ≡ s
unfolding trim_left is_space
trim_left_printed [] h = refl
trim_left_printed (c ∷ s) (p, h) = ground arith

-- A text of digits and points has no white space to trim.
trim_space_printed : (s : Text) → All IsPrinted s → trim_space s ≡ s
unfolding trim_space
trim_space_printed s h =
    rw (trim_left_printed s h, trim_left_printed (reverse s) (reverse_All IsPrinted s [] h tt))
      (reverse-reverse s)

digits-IsPrinted : (s : Text) → All IsDigit s → All IsPrinted s
digits-IsPrinted s h = All-map_of IsDigit IsPrinted s (λ c p. omega arith) h

amount-IsPrinted : (w f : Text) → All IsDigit w → All IsDigit f → All IsPrinted (w ++ b'.' ∷ f)
amount-IsPrinted w f hw hf =
    All-join IsPrinted w (b'.' ∷ f) (digits-IsPrinted w hw) (omega arith, digits-IsPrinted f hf)

-- A text of digits and points is neither empty nor negative, and is cut as it stands.
parse_printed :
    (s : Text) (d : ℕ)
    → s ≢ []
    → All IsPrinted s
    → parse_amount_to_i128 s d ≡ parse_cut (cut_point s) d
unfolding parse_amount_to_i128 strip_prefix
parse_printed [] d h _ = absurd (h refl)
parse_printed (c ∷ s) d _ h = rw (trim_space_printed (c ∷ s) h) (ground arith)

point-ne-nil : (w f : Text) → w ++ b'.' ∷ f ≢ []
point-ne-nil [] f = cons-ne-nil b'.' f
point-ne-nil (c ∷ w) f = cons-ne-nil c (w ++ b'.' ∷ f)

no_digits : (d : ℕ) → ltb d 0 ≡ false
no_digits d = ground arith

-- A whole part and a fraction that are digits are accepted with the number they spell, unless the
-- fraction has more digits than decimals or the number needs more than 127 bits.
pub parse_amount_to_i128-digits :
    (whole frac : Text) (decimals : ℕ)
    → All IsDigit whole
    → All IsDigit frac
    → parse_amount_to_i128 (whole ++ b'.' ∷ frac) decimals ≡ (
        if ltb decimals (length frac)
        then err (too_many_decimals decimals)
        else if ltb (amount_value whole frac decimals) (2 ^ 127)
        then ok (words (amount_value whole frac decimals))
        else err out_of_i128_range)
parse_amount_to_i128-digits whole frac decimals hw hf =
    parse_printed (whole ++ b'.' ∷ frac) decimals (point-ne-nil whole frac)
      (amount-IsPrinted whole frac hw hf)
    ∙ ap (λ c. parse_cut c decimals) (cut_digits_point whole frac hw)
    ∙ parse_cut_complete whole (some frac) decimals hw hf

parse_amount_to_i128-whole :
    (whole : Text) (decimals : ℕ)
    → whole ≢ []
    → All IsDigit whole
    → parse_amount_to_i128 whole decimals ≡ (
        if ltb (amount_value whole [] decimals) (2 ^ 127)
        then ok (words (amount_value whole [] decimals))
        else err out_of_i128_range)
parse_amount_to_i128-whole whole decimals ne hw =
    parse_printed whole decimals ne (digits-IsPrinted whole hw)
    ∙ ap (λ c. parse_cut c decimals) (cut_digits whole hw)
    ∙ parse_cut_complete whole none decimals hw tt
    ∙ rw (no_digits decimals) refl

words_of_raw :
    (a : I128) (n : ℕ)
    → a.hi < 2 ^ 63
    → a.lo < 2 ^ 64
    → n ≡ raw_of_words a
    → (ltb n (2 ^ 127) ≡ true) × (words n ≡ a)
words_of_raw a n hi lo e =
    let high : n / 2 ^ 64 ≡ a.hi = omega arith in
    let low : n % 2 ^ 64 ≡ a.lo = omega arith in
    (ground arith, λ i. record { hi = high i; lo = low i })

fits_test : (d l : ℕ) → l ≤ d → ltb d l ≡ false
fits_test d l h = ground arith

read_back :
    (a : I128) (d : ℕ) (w t : Text)
    → a.hi < 2 ^ 63
    → a.lo < 2 ^ 64
    → w ≢ []
    → All IsDigit w
    → All IsDigit t
    → length t ≤ d
    → amount_value w t d ≡ raw_of_words a
    → parse_amount_to_i128 (join_fraction w t) d ≡ ok a
read_back a d w [] hi lo ne hw ht fits total =
    let (small, same) = words_of_raw a (amount_value w [] d) hi lo total in
    parse_amount_to_i128-whole w d ne hw ∙ rw (small, same) refl
read_back a d w (c ∷ t) hi lo ne hw ht fits total =
    let (small, same) = words_of_raw a (amount_value w (c ∷ t) d) hi lo total in
    parse_amount_to_i128-digits w (c ∷ t) d hw ht
    ∙ rw (fits_test d (length (c ∷ t)) fits, small, same) refl

-- What was printed is read back, at the same number of decimals.
pub parse_amount_to_i128-format_i128_amount :
    (a : I128) (decimals : ℕ)
    → a.hi < 2 ^ 63
    → a.lo < 2 ^ 64
    → parse_amount_to_i128 (format_i128_amount a decimals) decimals ≡ ok a
unfolding format_i128_amount print_fraction
parse_amount_to_i128-format_i128_amount a decimals hi lo =
    let raw = raw_of_words a in
    let (whole, ne, spelt) = format_nat_lem (raw / 10 ^ decimals) in
    let (frac, fits, rest) =
      print_fraction-IsFraction (raw % 10 ^ decimals) decimals
        (mod-lt raw (one-le-pow decimals 10 (omega arith))) in
    read_back a decimals (format_nat (raw / 10 ^ decimals))
      (print_fraction (raw % 10 ^ decimals) decimals) hi lo ne whole frac fits
      (rw (spelt, rest) (div-add-mod' raw (10 ^ decimals)))
