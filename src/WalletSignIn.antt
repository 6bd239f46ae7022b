-- ===== src/WalletSignIn.antt =====
-- Signing in with a wallet: internal/service/wallet_auth_service.go, with `VerifyEd25519` of
-- internal/service/walletsig.go, over the nonces in Redis and the tables of the tokens.
pub mod Verified
use latch_api.Common.Base64.{base64_url_decode, base64_url_encode}
use latch_api.WebAuthn.Keys.{AccountReader, webauthn_signer_keys}
use latch_api.External.{External}
use latch_api.Auth.Service.{
  AuthError, internal, Issuer, Lifetimes, valid_wallet_shape, key_type_ed25519, key_type_passkey,
  issue_wallet_token_pair, Draw,
}
use latch_api.WebAuthn.{
  WebAuthnError, P256, verify_webauthn_assertion, no_webauthn_signer, bad_signature,
}
use latch_api.Auth.Tables.{AuthTables}
use latch_api.Common.{
  Result, Option, List, ok, ℕ, err, Bool, some, if◌then◌else◌, ◌∷◌, not, [], length, ◌==◌, ◌/◌,
  none, false,
}
use latch_api.Redis.{Redis}
use latch_api.WalletNonce.{NetworkError, NonceError, resolve, issue_nonce, consume_nonce}
use latch_api.Common.Text.{Text, text_eq, hex_encode, hex_decode}
use latch_api.Common.Database.{World, Action, pure, fail, or_fail, fail_if, ◌>>=◌, ◌>>◌}

-- What the service calls outside the repository: `strkey.Decode` of an account, which is the public
-- key, and `ed25519.Verify` on a key, a message and a signature.
pub record Ed25519 : Type 0 where
  pub decode_account : Text → Option (List ℕ)
  pub verify : List ℕ → List ℕ → List ℕ → Bool

pub data SignInError : Type 0 where
  invalid_wallet unsupported_key_type nonce_invalid bad_wallet_address : SignInError
  network_error : NetworkError → SignInError
  nonce_error : NonceError → SignInError
  signature_error : WebAuthnError → SignInError
  auth_error : AuthError → SignInError

-- What a sign-in reads and writes: Redis and the tables.
pub record Stores (redis : Redis) : Type 0 where
  pub nonces : redis.State
  pub tables : AuthTables

-- The fields of `WalletSignInInput`.
pub record WalletSignInInput : Type 0 where
  pub wallet : Text
  pub key_type : Text
  pub network : Text
  pub nonce_b64url : Text
  pub signature : List ℕ
  pub authenticator_data : List ℕ
  pub client_data_json : List ℕ
  pub passkey_signature : List ℕ

-- `VerifyEd25519`
unfoldable pub verify_ed25519 : Ed25519 → Text → List ℕ → List ℕ → Result SignInError (Unit {0})
verify_ed25519 ed wallet message signature = elim (ed.decode_account wallet) [
  | none ↦ err bad_wallet_address
  | some key ↦
      if not (length key == 32)
      then err bad_wallet_address
      else if ed.verify key message signature
      then ok tt
      else err (signature_error bad_signature)
]

-- A call on one of the two stores, whose error is wrapped.
abbrev pub wrapped :
    {S T E F A : Type 0} → (E → F) → (T → S → S) → S → Result E A × World T → Result F A × World S
wrapped f put s (ok a, w) =
    (ok a, record { store = put w.store s; calls = w.calls; outage = w.outage })
wrapped f put s (err e, w) =
    (err (f e), record { store = put w.store s; calls = w.calls; outage = w.outage })

abbrev pub on : {S T E F A : Type 0} → (E → F) → (S → T) → (T → S → S) → Action T E A → Action S F A
on f get put m w =
    wrapped f put w.store (m (record { store = get w.store; calls = w.calls; outage = w.outage }))

abbrev pub either : {S E F A : Type 0} → (E → F) → Result E A → Action S F A
either f (ok a) = pure a
either f (err e) = fail (f e)

-- The error that a failed reading of the keys is wrapped in.
abbrev pub keys_error : WebAuthnError → SignInError
keys_error no_webauthn_signer = signature_error bad_signature
keys_error e = signature_error e

-- `len(nonceBytes) == 0`
abbrev pub not_empty : Option (List ℕ) → Option (List ℕ)
not_empty none = none
not_empty (some []) = none
not_empty (some (b ∷ bs)) = some (b ∷ bs)

module _ (ext : External) (ed : Ed25519) (p256 : P256) (reader : Text → AccountReader)
    (origins : List Text) where
  -- `verifyPasskey`
  unfoldable pub verify_passkey : WalletSignInInput → List ℕ → Result SignInError (Unit {0})
  unfolding webauthn_signer_keys verify_webauthn_assertion
  verify_passkey input nonce = elim (webauthn_signer_keys (reader input.wallet)) [
    | err e ↦ err (keys_error e)
    | ok keys ↦
        elim (verify_webauthn_assertion ext p256 keys nonce input.authenticator_data
          input.client_data_json input.passkey_signature origins) [
            | ok a ↦ ok a
            | err e ↦ err (signature_error e)
          ]
  ]

  -- The switch of `SignIn`.
  unfoldable pub verified : WalletSignInInput → List ℕ → Result SignInError (Unit {0})
  unfolding verify_passkey verify_ed25519 text_eq
  verified input nonce =
      if text_eq input.key_type key_type_ed25519
      then verify_ed25519 ed input.wallet nonce input.signature
      else if text_eq input.key_type key_type_passkey
      then verify_passkey input nonce
      else err unsupported_key_type

module _ (ext : External) (redis : Redis) (issuer : Issuer) (life : Lifetimes) (ed : Ed25519)
    (p256 : P256) (reader : Text → AccountReader) (origins : List Text) (deployed : Text) where
  abbrev pub SignInAction : Type 0 → Type 0
  SignInAction = Action (Stores redis) SignInError

  abbrev pub put_nonces : redis.State → Stores redis → Stores redis
  put_nonces n s = record s { nonces = n }

  abbrev pub put_tables : AuthTables → Stores redis → Stores redis
  put_tables t s = record s { tables = t }

  -- `Challenge`: the nonce, its lifetime in seconds and the network.
  unfoldable pub challenge :
      ℕ → Option (List ℕ) → Text → Text → Text → SignInAction (Text × ℕ × Text)
  unfolding valid_wallet_shape resolve issue_nonce base64_url_encode hex_decode
  challenge now random wallet key_type raw_network = do
    fail_if (not (valid_wallet_shape ext issuer wallet key_type)) invalid_wallet
    network ← either network_error (resolve deployed raw_network)
    issued ←
        on nonce_error Stores.nonces put_nonces
          (issue_nonce redis now random wallet key_type network)
    bytes ← or_fail nonce_invalid (hex_decode issued.0)
    pure (base64_url_encode bytes, issued.1 / 1000, network)

  -- `SignIn`
  unfoldable pub sign_in : ℕ → Draw → WalletSignInInput → SignInAction (Text × Text)
  unfolding valid_wallet_shape resolve base64_url_decode hex_encode consume_nonce verified
      issue_wallet_token_pair
  sign_in now draw input = do
    fail_if (not (valid_wallet_shape ext issuer input.wallet input.key_type)) invalid_wallet
    network ← either network_error (resolve deployed input.network)
    nonce ← or_fail nonce_invalid (not_empty (base64_url_decode input.nonce_b64url))
    on nonce_error Stores.nonces put_nonces
        (consume_nonce redis now (hex_encode nonce) input.wallet input.key_type network)
    either (λ e. e) (verified ext ed p256 reader origins input nonce)
    on auth_error Stores.tables put_tables
        (issue_wallet_token_pair ext issuer life draw input.wallet input.key_type)
