-- ===== src/WebAuthn/Assertion.antt =====
-- What an accepted assertion has proved.
use latch_api.Common.Text.{text_eq_iff}
use latch_api.Common.{
  ◌≡◌, some, ok, ◌↔◌, true, ◌≤◌, length, any, ◌++◌, Bool, Option-cases, inl, ◌==◌, if◌then◌else◌,
  err, false, arith, sym, inr, ◌∷◌, ltb, not, [], ap,
}
use latch_api.WebAuthn.{
  P256, List, verify_webauthn_assertion, ℕ, Text, ClientData, codes, base64_url_encode,
  origin_allowed, key_verifies, no_webauthn_signer, bad_signature, text_eq,
}
use latch_api.External.{External}
use mathlib.Core.Bool.{true≢false}

passed :
    (k l t c o s : Bool)
    → (if k
        then err no_webauthn_signer
        else if l
        then err bad_signature
        else if not t
        then err bad_signature
        else if not c
        then err bad_signature
        else if not o
        then err bad_signature
        else if s
        then ok tt
        else err bad_signature)
      ≡ ok tt
    → (l ≡ false) × (t ≡ true) × (c ≡ true) × (o ≡ true) × (s ≡ true)
passed k l t c o s h = ground arith

keys_there : {A : Type 0} (f : A → Bool) (xs : List A) → any f xs ≡ true → (length xs == 0) ≡ false
keys_there f [] h = absurd (true≢false (sym h))
keys_there f (x ∷ xs) h = ground arith

module _ (ext : External) (p256 : P256) where
  -- The client data name the nonce and an admitted origin, and one of the keys has signed them together
  -- with the authenticator data.
  abbrev pub IsSigned : List (List ℕ) → List ℕ → List ℕ → List ℕ → List ℕ → List Text → Type 0
  IsSigned keys nonce authenticator_data client_data_json signature origins =
      (cd : ClientData) × (p256.parse_client_data client_data_json ≡ some cd)
      × (cd.type_name ≡ codes "webauthn.get")
      × (cd.challenge ≡ base64_url_encode nonce)
      × (origin_allowed cd.origin origins ≡ true)
      × (37 ≤ length authenticator_data)
      × (any
            (key_verifies ext p256 (ext.sha256 (authenticator_data ++ ext.sha256 client_data_json))
              signature)
            keys
          ≡ true)

  -- An assertion is accepted exactly if it is long enough, its client data are of the right type and
  -- name the nonce and an admitted origin, and one of the keys verifies the signature.
  pub verify_webauthn_assertion_iff :
      (keys : List (List ℕ)) (nonce authenticator_data client_data_json signature : List ℕ)
      (origins : List Text)
      → (verify_webauthn_assertion ext p256 keys nonce authenticator_data client_data_json signature
            origins
          ≡ ok tt)
        ↔ IsSigned keys nonce authenticator_data client_data_json signature origins
  unfolding verify_webauthn_assertion
  verify_webauthn_assertion_iff keys nonce ad cdj signature origins = (to, from)
    where
      to :
          verify_webauthn_assertion ext p256 keys nonce ad cdj signature origins ≡ ok tt
          → IsSigned keys nonce ad cdj signature origins
      to h = elim (Option-cases (p256.parse_client_data cdj)) [
        | inl malformed ↦ absurd (ground (arith, rw (verify_webauthn_assertion, malformed) at h))
        | inr (cd, parsed) ↦
            let (long, typed, named, admitted, signed) =
              passed (length keys == 0) (ltb (length ad) 37)
                (text_eq cd.type_name (codes "webauthn.get"))
                (text_eq cd.challenge (base64_url_encode nonce)) (origin_allowed cd.origin origins)
                (any (key_verifies ext p256 (ext.sha256 (ad ++ ext.sha256 cdj)) signature) keys)
                (rw (verify_webauthn_assertion, parsed) at h) in
            (
              cd,
              parsed,
              (text_eq_iff cd.type_name (codes "webauthn.get")).0 typed,
              (text_eq_iff cd.challenge (base64_url_encode nonce)).0 named,
              admitted,
              ground (arith, long),
              signed,
            )
      ]

      from :
          IsSigned keys nonce ad cdj signature origins
          → verify_webauthn_assertion ext p256 keys nonce ad cdj signature origins ≡ ok tt
      from (cd, parsed, typed, named, admitted, long, signed) =
          let count =
            keys_there (key_verifies ext p256 (ext.sha256 (ad ++ ext.sha256 cdj)) signature) keys
              signed in
          let enough : ltb (length ad) 37 ≡ false = ground (arith, long) in
          rw
            (
              count,
              enough,
              parsed,
              (text_eq_iff cd.type_name (codes "webauthn.get")).1 typed,
              (text_eq_iff cd.challenge (base64_url_encode nonce)).1 named,
              admitted,
            )
            (ap (λ b. if b then ok tt else err bad_signature) signed)
