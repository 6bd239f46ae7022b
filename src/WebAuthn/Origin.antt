-- ===== src/WebAuthn/Origin.antt =====
-- Which origins an allow-list admits.

use latch_api.Common.{
  ◌≡◌, ◌||◌, ◌⊎◌, true, ◌++◌, any, arith, false, ◌==◌, Bool-cases, sym, inl, ◌∷◌, inr, [], refl,
  if◌then◌else◌,
}
use latch_api.WebAuthn.{https_form, origin_allowed, List}
use latch_api.Common.Text.{Text, codes, is_empty, text_eq, text_eq_iff, text_eq_self}
use mathlib.Core.Bool.{true≢false, Bool}

-- The two spellings of one origin: the same text, or a bare host and its https form.
abbrev pub SameOrigin : Text → Text → Type 0
SameOrigin o a =
    (o ≡ a)
    ⊎ ((o ≡ codes "https://" ++ a) × (any (λ c. c == b':') a ≡ false))
    ⊎ ((a ≡ codes "https://" ++ o) × (any (λ c. c == b':') o ≡ false))

drop_scheme : (s t : Text) → codes "https://" ++ s ≡ codes "https://" ++ t → s ≡ t
drop_scheme s t h = cc

https_form-SameOrigin : (o a : Text) → https_form o ≡ https_form a → SameOrigin o a
unfolding https_form
https_form-SameOrigin o a h = elim (Bool-cases (is_empty o || any (λ c. c == b':') o)) [
  | inl scheme ↦ elim (Bool-cases (is_empty a || any (λ c. c == b':') a)) [
    | inl scheme' ↦ inl (rw (scheme, scheme') at h)
    | inr bare' ↦ inr (inl (rw (scheme, bare') at h, no_colon a bare'))
  ]
  | inr bare ↦ elim (Bool-cases (is_empty a || any (λ c. c == b':') a)) [
    | inl scheme' ↦ inr (inr (sym (rw (bare, scheme') at h), no_colon o bare))
    | inr bare' ↦ inl (drop_scheme o a (rw (bare, bare') at h))
  ]
]
  where
    no_colon :
        (s : Text) → (is_empty s || any (λ c. c == b':') s) ≡ false → any (λ c. c == b':') s ≡ false
    no_colon s h = ground (arith, h)

either : (a b : Bool) → (a || b) ≡ true → (a ≡ true) ⊎ (b ≡ true)
either a b h = ground (arith, h)

either_right : (a : Bool) {b : Bool} → b ≡ true → (a || b) ≡ true
either_right a h = ground (arith, h)

admitted : (b c : Bool) → (if b then false else c) ≡ true → (b ≡ false) × (c ≡ true)
admitted b c h = ground (arith, h)

-- An origin that is admitted is not empty, and the allow-list has it, in the same spelling or as the
-- bare host of its https form or the other way round.
pub origin_allowed-SameOrigin :
    (origin : Text) (allowed : List Text)
    → origin_allowed origin allowed ≡ true
    → (is_empty origin ≡ false)
      × (a : Text) × (any (text_eq a) allowed ≡ true)
      × SameOrigin origin a
unfolding origin_allowed
origin_allowed-SameOrigin origin allowed h =
    let (full, some_one) =
      admitted (is_empty origin)
        (any (λ a. text_eq origin a || text_eq (https_form origin) (https_form a)) allowed) h in
    let (a, there, same) = listed allowed some_one in (full, a, there, same)
  where
    listed :
        (listing : List Text)
        → any (λ a. text_eq origin a || text_eq (https_form origin) (https_form a)) listing ≡ true
        → (a : Text) × (any (text_eq a) listing ≡ true) × SameOrigin origin a
    listed [] h = absurd (true≢false (sym h))
    listed (a ∷ rest) h =
        elim (either (text_eq origin a || text_eq (https_form origin) (https_form a)) _ h) [
          | inl here ↦ (
            a,
            rw (text_eq_self a) refl,
            elim (either (text_eq origin a) _ here) [
              | inl same ↦ inl ((text_eq_iff origin a).0 same)
              | inr form ↦
                  https_form-SameOrigin origin a
                    ((text_eq_iff (https_form origin) (https_form a)).0 form)
            ],
          )
          | inr later ↦
              let (b, there, same) = listed rest later in
              (b, either_right (text_eq b a) there, same)
        ]
