-- ===== src/Common/Base64.antt =====
-- encoding/base64's RawURLEncoding on bytes.
use latch_api.Common.{
  ℕ, ◌+◌, ◌-◌, ◌*◌, ◌/◌, ◌%◌, ◌||◌, ◌&&◌, Option, none, some, List, [], ◌∷◌, ◌==◌, ltb, leb,
  if◌then◌else◌, keep, not, Bool,
}
use latch_api.Common.Text.{Text}

-- The character of a 6-bit value.
abbrev base64_char : ℕ → ℕ
base64_char n =
    if ltb n 26
    then b'A' + n
    else if ltb n 52
    then b'a' + (n - 26)
    else if ltb n 62
    then b'0' + (n - 52)
    else if n == 62
    then b'-'
    else b'_'

-- base64.RawURLEncoding.EncodeToString
unfoldable pub base64_url_encode : List ℕ → Text
base64_url_encode [] = []
base64_url_encode (a ∷ []) = base64_char (a / 4) ∷ base64_char (a % 4 * 16) ∷ []
base64_url_encode (a ∷ b ∷ []) =
    base64_char (a / 4) ∷ base64_char (a % 4 * 16 + b / 16) ∷ base64_char (b % 16 * 4) ∷ []
base64_url_encode (a ∷ b ∷ c ∷ s) =
    base64_char (a / 4)
    ∷ base64_char (a % 4 * 16 + b / 16)
    ∷ base64_char (b % 16 * 4 + c / 64)
    ∷ base64_char (c % 64)
    ∷ base64_url_encode s

abbrev base64_value : ℕ → Option ℕ
base64_value c =
    if leb b'A' c && leb c b'Z'
    then some (c - b'A')
    else if leb b'a' c && leb c b'z'
    then some (c - b'a' + 26)
    else if leb b'0' c && leb c b'9'
    then some (c - b'0' + 52)
    else if c == b'-'
    then some 62
    else if c == b'_'
    then some 63
    else none

-- The bytes of 6-bit values, with the bits that are left over dropped; one value alone is an error.
abbrev bytes_of_values : List ℕ → Option (List ℕ)
bytes_of_values [] = some []
bytes_of_values (p ∷ []) = none
bytes_of_values (p ∷ q ∷ []) = some ((p * 4 + q / 16) ∷ [])
bytes_of_values (p ∷ q ∷ r ∷ []) = some ((p * 4 + q / 16) ∷ (q % 16 * 16 + r / 4) ∷ [])
bytes_of_values (p ∷ q ∷ r ∷ t ∷ s) = elim (bytes_of_values s) [
  | none ↦ none
  | some bs ↦ some ((p * 4 + q / 16) ∷ (q % 16 * 16 + r / 4) ∷ (r % 4 * 64 + t) ∷ bs)
]

abbrev join_value : Option ℕ → Option (List ℕ) → Option (List ℕ)
join_value (some v) (some vs) = some (v ∷ vs)
join_value _ _ = none

abbrev values_of : Text → Option (List ℕ)
values_of [] = some []
values_of (c ∷ s) = join_value (base64_value c) (values_of s)

abbrev is_line_break : ℕ → Bool
is_line_break c = c == 10 || c == 13

-- base64.RawURLEncoding.DecodeString: line breaks are passed over.
unfoldable pub base64_url_decode : Text → Option (List ℕ)
base64_url_decode s = elim (values_of (keep (λ c. not (is_line_break c)) s)) [
  | none ↦ none
  | some vs ↦ bytes_of_values vs
]
