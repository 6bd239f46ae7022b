-- ===== src/SignPayload.antt =====
-- Signing payloads that one device stores and another fetches once:
-- internal/service/webapp/signpayload_service.go over the table webapp.sign_payloads and its queries
-- in internal/db/generated/webapp_sign_payloads.sql.go. Times are in milliseconds; the
-- service's clock and the database's are two.
pub mod Create
pub mod Spent
pub mod Consume
use latch_api.Common.{
  List, Bool, Option, if◌then◌else◌, ◌&&◌, some, find?, none, ◌||◌, ◌*◌, ◌+◌, ◌==◌, not,
  update_where, any, ◌++◌, ltb, is_some, ◌∷◌, [],
}
use Prim.Native.Nat.{ℕ}
use latch_api.Common.Text.{Text, codes, hex_encode, to_lower, is_empty, text_eq}
use latch_api.Common.Database.{
  Action, pure, fail, query, try_query, ask, or_fail, fail_if, ◌>>=◌, ◌>>◌,
}

-- A length of time, which can be negative.
pub data ℤ : Type 0 where
  pos negsuc : ℕ → ℤ

abbrev pub sign_payload_min_ttl : ℕ
sign_payload_min_ttl = 60 * 1000

abbrev pub sign_payload_max_ttl : ℕ
sign_payload_max_ttl = 3600 * 1000

abbrev pub sign_payload_def_ttl : ℕ
sign_payload_def_ttl = 600 * 1000

-- `clampSignPayloadTTL`
unfoldable pub clamp_sign_payload_ttl : ℤ → ℕ
clamp_sign_payload_ttl (negsuc n) = sign_payload_def_ttl
clamp_sign_payload_ttl (pos n) =
    if n == 0
    then sign_payload_def_ttl
    else if ltb n sign_payload_min_ttl
    then sign_payload_min_ttl
    else if ltb sign_payload_max_ttl n
    then sign_payload_max_ttl
    else n

-- webapp.sign_payloads
pub record WebappSignPayload : Type 0 where
  pub id : Text
  pub payload : Text
  pub expires_at : ℕ
  pub consumed_at : Option ℕ
  pub created_at : ℕ

abbrev pub SignPayloads : Type 0
SignPayloads = List WebappSignPayload

abbrev pub has_payload_id : Text → WebappSignPayload → Bool
has_payload_id id p = text_eq p.id id

-- `WHERE id = $1 AND consumed_at IS NULL`
abbrev pub is_unconsumed : Text → WebappSignPayload → Bool
is_unconsumed id p = has_payload_id id p && not (is_some p.consumed_at)

abbrev pub as_consumed : ℕ → WebappSignPayload → WebappSignPayload
as_consumed now p = record p { consumed_at = some now }

abbrev pub returned : ℕ → Option WebappSignPayload → Option WebappSignPayload
returned now none = none
returned now (some p) = some (as_consumed now p)

-- ConsumeSignPayload: the updated row, where there is one.
unfoldable pub consume_sign_payload :
    ℕ → Text → SignPayloads → Option WebappSignPayload × SignPayloads
consume_sign_payload now id ps = (
  returned now (find? (is_unconsumed id) ps),
  update_where (is_unconsumed id) (as_consumed now) ps,
)

-- GetSignPayload
unfoldable pub get_sign_payload : Text → SignPayloads → Option WebappSignPayload
get_sign_payload id ps = find? (has_payload_id id) ps

abbrev pub new_sign_payload : ℕ → Text → Text → ℕ → WebappSignPayload
new_sign_payload now id payload expires = record {
  id = id;
  payload = payload;
  expires_at = expires;
  consumed_at = none;
  created_at = now;
}

-- What Postgres makes of a value for a column: JSONB refuses a text that is not JSON, and keeps another
-- in a normal form; TIMESTAMPTZ rounds a time.
pub record Columns : Type 0 where
  pub jsonb : Text → Option Text
  pub timestamptz : ℕ → ℕ

-- InsertSignPayload at the database's time, with the primary key unique.
unfoldable pub insert_sign_payload :
    Columns → ℕ → Text → Text → ℕ → SignPayloads → Option (Unit {0} × SignPayloads)
insert_sign_payload columns now id payload expires ps =
    if any (has_payload_id id) ps then none else elim (columns.jsonb payload) [
      | none ↦ none
      | some stored ↦
          some (tt, ps ++ new_sign_payload now id stored (columns.timestamptz expires) ∷ [])
    ]

pub data SignPayloadError : Type 0 where
  sign_payload_not_found sign_payload_consumed sign_payload_expired no_random_bytes internal :
      SignPayloadError

abbrev pub SignPayloadAction : Type 0 → Type 0
SignPayloadAction = Action SignPayloads SignPayloadError

-- The API's `SignPayload`.
pub record SignPayload : Type 0 where
  pub id : Text
  pub payload : Text
  pub expires_at : ℕ
  pub created_at : ℕ

-- `generateSignPayloadID` on the bytes that it draws.
unfoldable pub generate_sign_payload_id : Option (List ℕ) → Option Text
unfolding hex_encode
generate_sign_payload_id none = none
generate_sign_payload_id (some bytes) = some (codes "sp_" ++ hex_encode bytes)

-- `Create`, where the database's time is `stored_at`.
unfoldable pub create : Columns → ℕ → ℕ → Option (List ℕ) → Text → ℤ → SignPayloadAction (Text × ℕ)
unfolding generate_sign_payload_id clamp_sign_payload_ttl
create columns now stored_at random payload ttl = do
  id ← or_fail no_random_bytes (generate_sign_payload_id random)
  try_query internal
      (insert_sign_payload columns stored_at id payload (now + clamp_sign_payload_ttl ttl))
  pure (id, now + clamp_sign_payload_ttl ttl)

abbrev pub view_of : WebappSignPayload → SignPayload
view_of p = record {
  id = p.id;
  payload = p.payload;
  expires_at = p.expires_at;
  created_at = p.created_at;
}

-- What `Consume` answers to the result of its update.
unfoldable pub consumed_or_why : ℕ → Text → Option WebappSignPayload → SignPayloadAction SignPayload
consumed_or_why now id (some row) = do
  fail_if (ltb row.expires_at now) sign_payload_expired
  pure (view_of row)
consumed_or_why now id none = do
  found ← ask internal (get_sign_payload id)
  existing ← or_fail sign_payload_not_found found
  fail_if (ltb existing.expires_at now) sign_payload_expired
  fail sign_payload_consumed

-- `Consume`, where the database's time is `stored_at`.
unfoldable pub consume : ℕ → ℕ → Text → SignPayloadAction SignPayload
unfolding consumed_or_why
consume now stored_at id = do
  row ← query internal (consume_sign_payload stored_at id)
  consumed_or_why now id row

-- The parts of the result of net/url's `Parse` that are read.
pub record Url : Type 0 where
  pub scheme : Text
  pub host : Text
  pub hostname : Text

pub data CallbackError : Type 0 where
  callback_invalid callback_scheme : CallbackError

abbrev local_host : Text → Bool
local_host h = text_eq h (codes "localhost") || text_eq h (codes "127.0.0.1")

-- `ValidateCallbackURL` on what the callback parses as.
unfoldable pub validate_callback_url : Option Url → Option CallbackError
unfolding text_eq
validate_callback_url none = some callback_invalid
validate_callback_url (some u) =
    if is_empty u.scheme || is_empty u.host
    then some callback_invalid
    else if text_eq (to_lower u.scheme) (codes "https")
    then none
    else if text_eq (to_lower u.scheme) (codes "http") && local_host (to_lower u.hostname)
    then none
    else some callback_scheme
