-- ===== src/WebAuthn.antt =====
-- Passkey assertions against the signer keys of a smart account:
-- internal/service/webauthn_signin.go.
use latch_api.Common.Base64.{base64_url_encode}
use latch_api.External.{External}
use latch_api.Common.{
  List, ℕ, Bool, if◌then◌else◌, Option, any, false, Result, ◌==◌, ◌||◌, ◌∷◌, ◌&&◌, length, some,
  err, [], ◌++◌, none, ltb, not, ok,
}
use latch_api.Common.Text.{Text, text_eq, is_empty, codes}
pub mod Origin
pub mod Assertion
pub mod Keys
pub mod Distinct

pub data WebAuthnError : Type 0 where
  bad_signature no_webauthn_signer read_failed : WebAuthnError

-- The parts of the client data that are read.
pub record ClientData : Type 0 where
  pub type_name : Text
  pub challenge : Text
  pub origin : Text

-- What the checks call: encoding/json on the client data, crypto/ecdh's test that bytes are a point of
-- P-256, and crypto/ecdsa's VerifyASN1 on the bytes of a key, a digest and a signature.
pub record P256 : Type 0 where
  pub parse_client_data : List ℕ → Option ClientData
  pub is_on_curve : List ℕ → Bool
  pub verify_asn1 : List ℕ → List ℕ → List ℕ → Bool

abbrev has_colon : Text → Bool
has_colon s = any (λ c. c == b':') s

-- `httpsForm`
unfoldable pub https_form : Text → Text
https_form origin =
    if is_empty origin || has_colon origin then origin else codes "https://" ++ origin

-- `originAllowed`
unfoldable pub origin_allowed : Text → List Text → Bool
unfolding https_form text_eq
origin_allowed origin allowed =
    if is_empty origin
    then false
    else any (λ a. text_eq origin a || text_eq (https_form origin) (https_form a)) allowed

-- An uncompressed point: 65 bytes, of which the first is 4.
unfoldable pub is_uncompressed : List ℕ → Bool
is_uncompressed [] = false
is_uncompressed (b ∷ bs) = length (b ∷ bs) == 65 && b == 4

module _ (ext : External) (p256 : P256) where
  -- `parseP256PubKey`: the bytes of a key that is one.
  unfoldable pub parse_p256_pub_key : List ℕ → Option (List ℕ)
  unfolding is_uncompressed
  parse_p256_pub_key raw = if is_uncompressed raw && p256.is_on_curve raw then some raw else none

  unfoldable pub key_verifies : List ℕ → List ℕ → List ℕ → Bool
  unfolding parse_p256_pub_key
  key_verifies digest signature raw = elim (parse_p256_pub_key raw) [
    | none ↦ false
    | some key ↦ p256.verify_asn1 key digest signature
  ]

  -- `VerifyWebAuthnAssertion`
  unfoldable pub verify_webauthn_assertion :
      List (List ℕ)
      → List ℕ
      → List ℕ
      → List ℕ
      → List ℕ
      → List Text
      → Result WebAuthnError (Unit {0})
  unfolding key_verifies origin_allowed text_eq base64_url_encode
  verify_webauthn_assertion keys nonce authenticator_data client_data_json signature origins =
      if length keys == 0
      then err no_webauthn_signer
      else if ltb (length authenticator_data) 37
      then err bad_signature
      else elim (p256.parse_client_data client_data_json) [
        | none ↦ err bad_signature
        | some cd ↦
            if not (text_eq cd.type_name (codes "webauthn.get"))
            then err bad_signature
            else if not (text_eq cd.challenge (base64_url_encode nonce))
            then err bad_signature
            else if not (origin_allowed cd.origin origins)
            then err bad_signature
            else if any
                (key_verifies (ext.sha256 (authenticator_data ++ ext.sha256 client_data_json))
                  signature)
                keys
            then ok tt
            else err bad_signature
      ]
