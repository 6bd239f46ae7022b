-- ===== src/Amount/Parse.antt =====
-- What `parseAmountToI128` of internal/service/webapp/amount.go accepts, and as which number.
use latch_api.Amount.Padded.{amount_value, value-padded, padded_IsDigit}
use mathlib.Core.List.{cons-ne-nil}
use latch_api.Common.{
  ℕ, zero, suc, ◌-◌, ◌*◌, ◌+◌, ◌/◌, ◌%◌, ◌^◌, ◌≤◌, ◌<◌, Bool, true, false, [], ◌∷◌, ◌++◌, Option,
  none, some, ◌≡◌, ◌≢◌, refl, ap, arith, ok, err, All, length, replicate, ltb, ◌==◌, if◌then◌else◌,
  ◌∙◌, All-join, ◌||◌, sym, ok-injective, All-split, Bool-cases, inl, inr, Option-cases,
}
use latch_api.Common.Text.{Text, is_digit}
use latch_api.Amount.Digits.{IsDigit, value}
use latch_api.Amount.{
  I128, raw_of_words, scan_digits, scan_number, big_of_text, words_of_big, padded_fraction,
  fraction, or_zero, parse_cut, cut_point, too_many_decimals, out_of_i128_range,
  parse_amount_to_i128, has_prefix, trim_space, codes, is_empty, empty_amount, negative_amount,
}

pub scan_digits_complete : (s : Text) (n : ℕ) → All IsDigit s → scan_digits s n ≡ some (value n s)
unfolding scan_digits is_digit
scan_digits_complete [] n h = refl
scan_digits_complete (c ∷ s) n (hc, hs) =
    ground (arith, scan_digits_complete s (n * 10 + (c - b'0')) hs)

scan_digits_sound :
    (s : Text) (n r : ℕ) → scan_digits s n ≡ some r → All IsDigit s × (r ≡ value n s)
unfolding scan_digits is_digit
scan_digits_sound [] n r h = ground arith
scan_digits_sound (c ∷ s) n r h = ground (arith, scan_digits_sound s (n * 10 + (c - b'0')) r)

big_of_text_complete : (s : Text) → s ≢ [] → All IsDigit s → big_of_text s ≡ some (false, value 0 s)
unfolding big_of_text scan_number
big_of_text_complete [] h _ = absurd (h refl)
big_of_text_complete (c ∷ s) _ (hc, hs) = grind (arith, scan_digits_complete (c ∷ s) 0 (hc, hs))

-- A sign in front of a number, taken off.
abbrev pub unsigned : Text → Text
unsigned [] = []
unsigned (c ∷ s) = if c == b'-' || c == b'+' then s else c ∷ s

scan_number_sound :
    (s : Text) (r : ℕ) → scan_number s ≡ some r → (s ≢ []) × All IsDigit s × (r ≡ value 0 s)
scan_number_sound [] r h = cc
scan_number_sound (c ∷ s) r h =
    let (all_digits, spelt) = scan_digits_sound (c ∷ s) 0 r h in
    (cons-ne-nil c s, all_digits, spelt)

big_of_text_sound :
    (s : Text) (minus : Bool) (r : ℕ)
    → big_of_text s ≡ some (minus, r)
    → All IsDigit (unsigned s) × (r ≡ value 0 (unsigned s))
unfolding big_of_text
big_of_text_sound [] minus r h = cc
big_of_text_sound (c ∷ s) minus r h =
    ground (arith, scan_number_sound s r, scan_number_sound (c ∷ s) r)

-- The whole part of an accepted amount without its sign.
sign_append : (w t : Text) → unsigned (or_zero w ++ t) ≡ unsigned (or_zero w) ++ t
sign_append [] t = refl
sign_append (c ∷ w) t = ground arith

pub value-unsigned : (w : Text) → value 0 (unsigned (or_zero w)) ≡ value 0 (unsigned w)
value-unsigned [] = refl
value-unsigned (c ∷ w) = refl

words_of_big_sound :
    (minus : Bool) (n : ℕ) (r : I128)
    → words_of_big (some (minus, n)) ≡ ok r
    → (raw_of_words r ≡ n) × (r.hi < 2 ^ 63) × (r.lo < 2 ^ 64)
unfolding words_of_big
words_of_big_sound true zero r h = rw (sym (ok-injective h)) (omega arith, omega arith, omega arith)
words_of_big_sound true (suc n) r h = absurd (ground arith)
words_of_big_sound false n r h = ground arith

-- What the digits of an accepted amount are, and its number.
abbrev pub IsAmount : Text → Text → ℕ → I128 → Type 0
IsAmount whole frac decimals r =
    (length frac ≤ decimals)
    × All IsDigit (unsigned whole)
    × All IsDigit frac
    × (raw_of_words r ≡ amount_value (unsigned whole) frac decimals)
    × (r.hi < 2 ^ 63)
    × (r.lo < 2 ^ 64)

unsigned-IsDigit : (w : Text) → All IsDigit (unsigned (or_zero w)) → All IsDigit (unsigned w)
unsigned-IsDigit [] h = tt
unsigned-IsDigit (c ∷ w) h = h

fraction-IsDigit :
    (f : Option Text) (d : ℕ) → All IsDigit (padded_fraction f d) → All IsDigit (fraction f)
fraction-IsDigit none d h = tt
fraction-IsDigit (some f) d h = (All-split IsDigit f (replicate (d - length f) b'0') h).0

digits_of_sum :
    (w : Text) (f : Option Text) (d n : ℕ)
    → length (fraction f) ≤ d
    → All IsDigit (unsigned (or_zero w ++ padded_fraction f d))
    → n ≡ value 0 (unsigned (or_zero w ++ padded_fraction f d))
    → All IsDigit (unsigned w)
      × All IsDigit (fraction f)
      × (n ≡ amount_value (unsigned w) (fraction f) d)
digits_of_sum w f d n fits all_digits spelt =
    let sign = sign_append w (padded_fraction f d) in
    let (wd, fd) =
      All-split IsDigit (unsigned (or_zero w)) (padded_fraction f d) (rw sign at all_digits) in
    (
      unsigned-IsDigit w wd,
      fraction-IsDigit f d fd,
      spelt
          ∙ ap (value 0) sign
          ∙ value-padded (unsigned (or_zero w)) f d fits
          ∙ ap (λ v. v * 10 ^ d + value 0 (fraction f) * 10 ^ (d - length (fraction f)))
              (value-unsigned w),
    )

pub parse_cut_sound :
    (w : Text) (f : Option Text) (d : ℕ) (r : I128)
    → parse_cut (w, f) d ≡ ok r
    → IsAmount w (fraction f) d r
unfolding parse_cut words_of_big
parse_cut_sound w f d r h = elim (Bool-cases (ltb d (length (fraction f)))) [
  | inl long ↦ absurd (ground (arith, rw long at h))
  | inr fits ↦ elim (Option-cases (big_of_text (or_zero w ++ padded_fraction f d))) [
    | inl e ↦ absurd (ground (arith, rw (fits, e) at h))
    | inr ((minus, n), e) ↦
        let (spelt, hi, lo) = words_of_big_sound minus n r (rw (fits, e) at h) in
        let (digits, v) = big_of_text_sound (or_zero w ++ padded_fraction f d) minus n e in
        let (wd, fd, sum) = digits_of_sum w f d n (ground arith) digits v in
        (ground arith, wd, fd, spelt ∙ sum, hi, lo)
  ]
]

or_zero-IsDigit : (w : Text) → All IsDigit w → All IsDigit (or_zero w)
or_zero-IsDigit [] h = ((omega arith, omega arith), tt)
or_zero-IsDigit (c ∷ w) h = h

value-or_zero : (w : Text) → value 0 (or_zero w) ≡ value 0 w
value-or_zero [] = refl
value-or_zero (c ∷ w) = refl

or_zero-ne-nil : (w t : Text) → or_zero w ++ t ≢ []
or_zero-ne-nil [] t = cons-ne-nil b'0' t
or_zero-ne-nil (c ∷ w) t = cons-ne-nil c (w ++ t)

-- The two words that a number below 2 ^ 127 has.
abbrev pub words : ℕ → I128
words n = record { hi = n / 2 ^ 64; lo = n % 2 ^ 64 }

-- Digits are accepted unless the fraction is too long or the number too large.
pub parse_cut_complete :
    (w : Text) (f : Option Text) (d : ℕ)
    → All IsDigit w
    → All IsDigit (fraction f)
    → parse_cut (w, f) d ≡ (
        if ltb d (length (fraction f))
        then err (too_many_decimals d)
        else if ltb (amount_value w (fraction f) d) (2 ^ 127)
        then ok (words (amount_value w (fraction f) d))
        else err out_of_i128_range)
unfolding parse_cut words_of_big
parse_cut_complete w f d hw hf = elim (Bool-cases (ltb d (length (fraction f)))) [
  | inl long ↦ rw long refl
  | inr fits ↦
      let digits =
        All-join IsDigit (or_zero w) (padded_fraction f d) (or_zero-IsDigit w hw)
          (padded_IsDigit f d hf) in
      let big =
        big_of_text_complete (or_zero w ++ padded_fraction f d)
          (or_zero-ne-nil w (padded_fraction f d)) digits in
      let v =
        value-padded (or_zero w) f d (ground arith)
        ∙ ap (λ v. v * 10 ^ d + value 0 (fraction f) * 10 ^ (d - length (fraction f)))
            (value-or_zero w) in
      rw (fits, big, v) refl
]

pub cut_digits : (w : Text) → All IsDigit w → cut_point w ≡ (w, none)
unfolding cut_point
cut_digits [] h = refl
cut_digits (c ∷ w) (hc, h) = ground (arith, cut_digits w h)

pub cut_digits_point : (w f : Text) → All IsDigit w → cut_point (w ++ b'.' ∷ f) ≡ (w, some f)
unfolding cut_point
cut_digits_point [] f h = refl
cut_digits_point (c ∷ w) f (hc, h) = ground (arith, cut_digits_point w f h)

accepted_text :
    (t : Text) (d : ℕ) (r : I128)
    → (if is_empty t
        then err empty_amount
        else if has_prefix t (codes "-")
        then err negative_amount
        else parse_cut (cut_point t) d)
      ≡ ok r
    → (has_prefix t (codes "-") ≡ false) × (parse_cut (cut_point t) d ≡ ok r)
accepted_text [] d r h = absurd (ground arith)
accepted_text (c ∷ t) d r h = elim (Bool-cases (has_prefix (c ∷ t) (codes "-"))) [
  | inl minus ↦ absurd (ground (arith, rw minus at h))
  | inr plain ↦ (plain, rw plain at h)
]

-- An amount that is accepted has no minus in front, no more fraction digits than decimals, digits
-- in both parts behind an optional sign, and the number that they spell at the decimals; both words
-- are in the range of their types.
pub parse_amount_to_i128-IsAmount :
    (amount : Text) (decimals : ℕ) (r : I128)
    → parse_amount_to_i128 amount decimals ≡ ok r
    → (has_prefix (trim_space amount) (codes "-") ≡ false)
      × IsAmount
          (cut_point (trim_space amount)).0
          (fraction (cut_point (trim_space amount)).1)
          decimals
          r
unfolding parse_amount_to_i128
parse_amount_to_i128-IsAmount amount decimals r h =
    let trimmed = trim_space amount in
    let (plain, accepted) = accepted_text trimmed decimals r h in
    (plain, parse_cut_sound (cut_point trimmed).0 (cut_point trimmed).1 decimals r accepted)
