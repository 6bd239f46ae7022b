-- ===== src/Auth/Service.antt =====
-- The operations of AuthService, with `HashToken`, `KeyTypeForWallet` and `ValidWalletShape` of
-- walletsig.go. Times are in milliseconds; an expiry is a time, and the JWT's `exp` and `iat` are
-- whole seconds. A failed call of the database is `internal`.
use latch_api.Auth.Tables.{
  AuthTables, RefreshToken, insert_wallet_refresh_token, insert_refresh_token, wallet_token,
  get_refresh_token, revoke_refresh_token, upsert_user, verify_user_email, user_token, insert_token,
}
use latch_api.External.{External}
use latch_api.Common.Database.{
  Action, pure, try_query, ask, exec, or_fail, fail_if, ◌>>=◌, ◌>>◌, transaction,
}
use latch_api.Common.{
  Option, Bool, List, if◌then◌else◌, none, some, ◌*◌, [], false, ◌+◌, ◌/◌, ◌||◌, ltb,
}
use latch_api.Common.Text.{Text, codes, hex_encode, text_eq}
use Prim.Native.Nat.{ℕ}

-- What the services call outside the repository: the signing of github.com/golang-jwt/jwt/v5 and
-- `strkey.Decode` for contract addresses.
pub record Claims : Type 0 where
  pub sub : Text
  pub scope : Option Text
  pub kty : Option Text
  pub exp : ℕ
  pub iat : ℕ

pub record Issuer : Type 0 where
  pub signed_string : Claims → Option Text
  -- strkey.Decode(strkey.VersionByteContract, c) returns no error.
  pub is_contract_strkey : Text → Bool

pub data AuthError : Type 0 where
  invalid_refresh_token no_random_bytes bad_user_id not_signed internal : AuthError

abbrev pub AuthAction : Type 0 → Type 0
AuthAction = Action AuthTables AuthError

-- The two lifetimes of NewAuthService, which are configured in minutes and in days.
pub record Lifetimes : Type 0 where
  pub access_ttl : ℕ
  pub refresh_ttl : ℕ

abbrev pub new_auth_service : ℕ → ℕ → Lifetimes
new_auth_service access_ttl_min refresh_ttl_day = record {
  access_ttl = access_ttl_min * 60 * 1000;
  refresh_ttl = refresh_ttl_day * 24 * 60 * 60 * 1000;
}

-- What one operation reads of the clock, in the order it does, and draws.
pub record Draw : Type 0 where
  pub now : ℕ
  pub insert_time : ℕ
  pub sign_time : ℕ
  pub random : Option (List ℕ)
  pub new_uuid : ℕ

-- Whose a refresh token is.
pub data Owner : Type 0 where
  wallet_owner : Text → Owner
  user_owner : ℕ → Owner

-- What `RotateRefreshToken` returns.
pub record Rotated : Type 0 where
  pub subject : Text
  pub access_token : Text
  pub refresh_token : Text

abbrev pub key_type_ed25519 : Text
key_type_ed25519 = codes "ed25519"

abbrev pub key_type_passkey : Text
key_type_passkey = codes "passkey"

abbrev pub scope_wallet : Text
scope_wallet = codes "wallet"

-- `row.WalletAddress.Valid`, `row.UserID.Valid`
unfoldable pub owner_of : RefreshToken → Option Owner
owner_of row = elim row.wallet_address [
  | some wallet ↦ some (wallet_owner wallet)
  | none ↦ elim row.user_id [ some id ↦ some (user_owner id) | none ↦ none ]
]

unfoldable pub new_token : Lifetimes → Draw → Text → Owner → RefreshToken
new_token life draw h (wallet_owner wallet) =
    wallet_token draw.insert_time draw.new_uuid wallet h (draw.insert_time + life.refresh_ttl)
new_token life draw h (user_owner id) =
    user_token draw.insert_time draw.new_uuid id h (draw.insert_time + life.refresh_ttl)

module _ (ext : External) where
  -- `HashToken`
  unfoldable pub hash_token : Text → Text
  unfolding hex_encode
  hash_token raw = hex_encode (ext.sha256 raw)

  unfoldable pub subject_of : Owner → Text
  subject_of (wallet_owner wallet) = wallet
  subject_of (user_owner id) = ext.uuid_string id

  module _ (issuer : Issuer) where
    -- `KeyTypeForWallet`
    unfoldable pub key_type_for_wallet : Text → Text
    key_type_for_wallet wallet =
        if ext.is_account_strkey wallet
        then key_type_ed25519
        else if issuer.is_contract_strkey wallet
        then key_type_passkey
        else []

    -- `ValidWalletShape`
    unfoldable pub valid_wallet_shape : Text → Text → Bool
    unfolding text_eq
    valid_wallet_shape wallet key_type =
        if text_eq key_type key_type_ed25519
        then ext.is_account_strkey wallet
        else if text_eq key_type key_type_passkey
        then issuer.is_contract_strkey wallet
        else false

    module _ (life : Lifetimes) where
      -- `issueAccessToken`
      abbrev pub issue_access_token : ℕ → Text → Option Text
      issue_access_token now user_id = issuer.signed_string (record {
        sub = user_id;
        scope = none;
        kty = none;
        exp = (now + life.access_ttl) / 1000;
        iat = now / 1000;
      })

      -- `issueWalletAccessToken`
      abbrev pub issue_wallet_access_token : ℕ → Text → Text → Option Text
      issue_wallet_access_token now wallet key_type = issuer.signed_string (record {
        sub = wallet;
        scope = some scope_wallet;
        kty = some key_type;
        exp = (now + life.access_ttl) / 1000;
        iat = now / 1000;
      })

      -- `IssueRecoveryToken`
      abbrev pub issue_recovery_token : ℕ → Text → ℕ → Option Text
      issue_recovery_token now user_id ttl = issuer.signed_string (record {
        sub = user_id;
        scope = some (codes "recovery");
        kty = none;
        exp = (now + ttl) / 1000;
        iat = now / 1000;
      })

      -- `issueRefreshToken`
      unfoldable pub issue_refresh_token : Draw → Text → AuthAction Text
      unfolding hash_token
      issue_refresh_token draw user_id = do
        raw ← or_fail no_random_bytes draw.random
        uid ← or_fail bad_user_id (ext.uuid_parse user_id)
        try_query internal (
            insert_refresh_token draw.insert_time draw.new_uuid uid (hash_token (hex_encode raw))
              (draw.insert_time + life.refresh_ttl))
        pure (hex_encode raw)

      -- `issueWalletRefreshToken`
      unfoldable pub issue_wallet_refresh_token : Draw → Text → AuthAction Text
      unfolding hash_token
      issue_wallet_refresh_token draw wallet = do
        raw ← or_fail no_random_bytes draw.random
        try_query internal (
            insert_wallet_refresh_token draw.insert_time draw.new_uuid wallet
              (hash_token (hex_encode raw)) (draw.insert_time + life.refresh_ttl))
        pure (hex_encode raw)

      -- `IssueTokenPair`
      unfoldable pub issue_token_pair : Draw → Text → AuthAction (Text × Text)
      unfolding issue_refresh_token
      issue_token_pair draw user_id = do
        access ← or_fail not_signed (issue_access_token draw.now user_id)
        refresh ← issue_refresh_token draw user_id
        pure (access, refresh)

      -- `IssueWalletTokenPair`
      unfoldable pub issue_wallet_token_pair : Draw → Text → Text → AuthAction (Text × Text)
      unfolding issue_wallet_refresh_token
      issue_wallet_token_pair draw wallet key_type = do
        access ← or_fail not_signed (issue_wallet_access_token draw.now wallet key_type)
        refresh ← issue_wallet_refresh_token draw wallet
        pure (access, refresh)

      -- What `RotateRefreshToken` does before the commit.
      unfoldable pub rotate_in_transaction : Draw → Text → AuthAction (Owner × Text)
      unfolding hash_token owner_of new_token
      rotate_in_transaction draw raw_token = do
        found ← ask invalid_refresh_token (get_refresh_token (hash_token raw_token))
        row ← or_fail invalid_refresh_token found
        fail_if (row.revoked || ltb row.expires_at draw.now) invalid_refresh_token
        exec internal (revoke_refresh_token (hash_token raw_token))
        raw ← or_fail no_random_bytes draw.random
        owner ← or_fail invalid_refresh_token (owner_of row)
        try_query internal (insert_token (new_token life draw (hash_token (hex_encode raw)) owner))
        pure (owner, hex_encode raw)

      unfoldable pub access_for : Draw → Owner → Option Text
      unfolding key_type_for_wallet
      access_for draw (wallet_owner wallet) =
          issue_wallet_access_token draw.sign_time wallet (key_type_for_wallet wallet)
      access_for draw (user_owner id) = issue_access_token draw.sign_time (ext.uuid_string id)

      -- `RotateRefreshToken`
      unfoldable pub rotate_refresh_token : Draw → Text → AuthAction Rotated
      unfolding rotate_in_transaction access_for subject_of
      rotate_refresh_token draw raw_token = do
        rotated ← transaction internal (rotate_in_transaction draw raw_token)
        access ← or_fail not_signed (access_for draw rotated.0)
        pure (record {
          subject = subject_of rotated.0;
          access_token = access;
          refresh_token = rotated.1;
        })

  -- `RevokeRefreshToken`
  unfoldable pub revoke : Text → AuthAction (Unit {0})
  unfolding hash_token
  revoke raw_token = exec internal (revoke_refresh_token (hash_token raw_token))

  -- `UpsertUser`
  unfoldable pub upsert : Draw → Text → AuthAction Text
  upsert draw email = do
    id ← try_query internal (upsert_user draw.now draw.new_uuid email)
    pure (ext.uuid_string id)

  -- `VerifyEmail`
  unfoldable pub verify_email : Draw → Text → AuthAction Text
  verify_email draw email = do
    id ← try_query internal (verify_user_email draw.now email)
    pure (ext.uuid_string id)
