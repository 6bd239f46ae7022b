-- ===== src/Auth/Tables.antt =====
-- The rows of users and refresh_tokens in internal/db/generated/models.go, and the queries of
-- internal/db/generated/users.sql.go and internal/db/generated/refresh_tokens.sql.go. Rows keep what
-- the services read; times are in milliseconds.
use latch_api.Common.Find.{stored}
use latch_api.Common.Text.{Text, text_eq}
use latch_api.Common.{
  List, Option, true, Bool, ◌==◌, some, find?, false, if◌then◌else◌, update_where, is_some, none,
  ◌&&◌, any, ◌||◌, ◌++◌, ◌∷◌, [], ◌≡◌, Bool-cases, Option-cases, inl, arith, inr, ap,
}
use Prim.Native.Nat.{ℕ}

-- users
pub record User : Type 0 where
  pub id : ℕ
  pub email : Text
  pub email_verified : Bool
  pub created_at : ℕ
  pub updated_at : ℕ

-- refresh_tokens
pub record RefreshToken : Type 0 where
  pub id : ℕ
  pub user_id : Option ℕ
  pub wallet_address : Option Text
  pub token_hash : Text
  pub expires_at : ℕ
  pub revoked : Bool
  pub created_at : ℕ

pub record AuthTables : Type 0 where
  pub users : List User
  pub tokens : List RefreshToken

abbrev pub has_email : Text → User → Bool
has_email email u = text_eq u.email email

abbrev pub has_user_id : ℕ → User → Bool
has_user_id id u = u.id == id

abbrev pub has_token_hash : Text → RefreshToken → Bool
has_token_hash h t = text_eq t.token_hash h

abbrev id_of : Option User → Option ℕ
id_of none = none
id_of (some u) = some u.id

-- GetUserByEmail
unfoldable pub get_user_by_email : Text → AuthTables → Option ℕ
get_user_by_email email t = id_of (find? (has_email email) t.users)

-- GetVerifiedUserByEmail
unfoldable pub get_verified_user_by_email : Text → AuthTables → Option ℕ
get_verified_user_by_email email t =
    id_of (find? (λ u. has_email email u && u.email_verified) t.users)

-- GetUserEmailByID
unfoldable pub get_user_email_by_id : ℕ → AuthTables → Option Text
get_user_email_by_id id t = elim (find? (has_user_id id) t.users) [
  | none ↦ none
  | some u ↦ some u.email
]

abbrev pub new_user : ℕ → ℕ → Text → User
new_user now id email = record {
  id = id;
  email = email;
  email_verified = false;
  created_at = now;
  updated_at = now;
}

abbrev insert_user : User → AuthTables → Option (ℕ × AuthTables)
insert_user u t =
    if any (has_user_id u.id) t.users
    then none
    else some (u.id, record t { users = t.users ++ u ∷ [] })

-- UpsertUser: the UUID is drawn by the database.
unfoldable pub upsert_user : ℕ → ℕ → Text → AuthTables → Option (ℕ × AuthTables)
upsert_user now id email t = elim (find? (has_email email) t.users) [
  | none ↦ insert_user (new_user now id email) t
  | some u ↦ some (
    u.id,
    record t {
      users = update_where (has_email email) (λ u. record u { updated_at = now }) t.users;
    },
  )
]

abbrev as_verified : ℕ → User → User
as_verified now u = record u { email_verified = true; updated_at = now }

-- VerifyUserEmail
unfoldable pub verify_user_email : ℕ → Text → AuthTables → Option (ℕ × AuthTables)
verify_user_email now email t = elim (find? (has_email email) t.users) [
  | none ↦ none
  | some u ↦
      some (u.id, record t { users = update_where (has_email email) (as_verified now) t.users })
]

-- GetRefreshToken
unfoldable pub get_refresh_token : Text → AuthTables → Option RefreshToken
get_refresh_token h t = find? (has_token_hash h) t.tokens

abbrev pub as_revoked : RefreshToken → RefreshToken
as_revoked t = record t { revoked = true }

-- RevokeRefreshToken
unfoldable pub revoke_refresh_token : Text → AuthTables → AuthTables
revoke_refresh_token h t = record t { tokens = update_where (has_token_hash h) as_revoked t.tokens }

-- The foreign key on users, where a user is named.
abbrev pub is_known_user : Option ℕ → List User → Bool
is_known_user none us = true
is_known_user (some id) us = any (has_user_id id) us

abbrev pub has_owner : RefreshToken → Bool
has_owner r = is_some r.user_id || is_some r.wallet_address

-- An insertion into refresh_tokens: the primary key and the hash are unique, an owner
-- is set, and a user that is named exists.
unfoldable pub insert_token : RefreshToken → AuthTables → Option (Unit {0} × AuthTables)
insert_token r t =
    if any (λ x. x.id == r.id) t.tokens
    then none
    else if any (has_token_hash r.token_hash) t.tokens
    then none
    else if has_owner r && is_known_user r.user_id t.users
    then some (tt, record t { tokens = t.tokens ++ r ∷ [] })
    else none

abbrev pub user_token : ℕ → ℕ → ℕ → Text → ℕ → RefreshToken
user_token now id user h expires = record {
  id = id;
  user_id = some user;
  wallet_address = none;
  token_hash = h;
  expires_at = expires;
  revoked = false;
  created_at = now;
}

abbrev pub wallet_token : ℕ → ℕ → Text → Text → ℕ → RefreshToken
wallet_token now id wallet h expires = record {
  id = id;
  user_id = none;
  wallet_address = some wallet;
  token_hash = h;
  expires_at = expires;
  revoked = false;
  created_at = now;
}

-- InsertRefreshToken
abbrev pub insert_refresh_token : ℕ → ℕ → ℕ → Text → ℕ → AuthTables → Option (Unit {0} × AuthTables)
insert_refresh_token now id user h expires = insert_token (user_token now id user h expires)

-- InsertWalletRefreshToken
abbrev pub insert_wallet_refresh_token :
    ℕ → ℕ → Text → Text → ℕ → AuthTables → Option (Unit {0} × AuthTables)
insert_wallet_refresh_token now id wallet h expires =
    insert_token (wallet_token now id wallet h expires)

-- The queries on users leave the tokens alone.
insert_user-tokens :
    (u : User) (s t : AuthTables) (a : ℕ) → insert_user u s ≡ some (a, t) → t.tokens ≡ s.tokens
insert_user-tokens u s t a h = elim (Bool-cases (any (has_user_id u.id) s.users)) [
  | inl known ↦ absurd (ground (arith, rw known at h))
  | inr new ↦ ap (λ x. x.tokens) (stored (rw new at h))
]

pub upsert_user-tokens :
    (now id : ℕ) (email : Text) (s t : AuthTables) (a : ℕ)
    → upsert_user now id email s ≡ some (a, t)
    → t.tokens ≡ s.tokens
unfolding upsert_user
upsert_user-tokens now id email s t a h = elim (Option-cases (find? (has_email email) s.users)) [
  | inl new ↦ insert_user-tokens (new_user now id email) s t a (rw (upsert_user, new) at h)
  | inr (u, known) ↦ ap (λ x. x.tokens) (stored (rw (upsert_user, known) at h))
]

pub verify_user_email-tokens :
    (now : ℕ) (email : Text) (s t : AuthTables) (a : ℕ)
    → verify_user_email now email s ≡ some (a, t)
    → t.tokens ≡ s.tokens
unfolding verify_user_email
verify_user_email-tokens now email s t a h = elim (Option-cases (find? (has_email email) s.users)) [
  | inl new ↦ absurd (ground (arith, rw (verify_user_email, new) at h))
  | inr (u, known) ↦ ap (λ x. x.tokens) (stored (rw (verify_user_email, known) at h))
]
