-- ===== src/Sessions.antt =====
-- Cookie sessions of the web app and the credentials proved in them:
-- internal/service/webapp/session_service.go over the queries of
-- internal/db/generated/webapp_sessions.sql.go, webapp_users.sql.go and
-- webapp_session_proved_credentials.sql.go. Times are in milliseconds.
pub mod Resolve
pub mod Proved
use latch_api.Common.Text.{Text, is_empty, text_eq}
use latch_api.External.{External}
use latch_api.Common.{
  none, false, ◌==◌, ℕ, List, Option, ◌+◌, Bool, find?, if◌then◌else◌, update_where, ◌*◌, some, any,
  ◌&&◌, keep, map, leb, ◌++◌, not, ◌||◌, ◌∷◌, [],
}
use latch_api.Common.Database.{
  Action, pure, try_query, ask, ask_or, exec, or_fail, fail_if, ◌>>=◌, ◌>>◌, transaction,
}

-- webapp.users
pub record WebappUser : Type 0 where
  pub id : ℕ
  pub created_at : ℕ

-- webapp.sessions
pub record WebappSession : Type 0 where
  pub id : ℕ
  pub user_id : ℕ
  pub created_at : ℕ
  pub expires_at : ℕ

-- webapp.session_proved_credentials
pub record ProvedCredential : Type 0 where
  pub session_id : ℕ
  pub credential_id : Text
  pub proved_at : ℕ

pub record SessionTables : Type 0 where
  pub users : List WebappUser
  pub sessions : List WebappSession
  pub proved : List ProvedCredential

abbrev pub has_session_id : ℕ → WebappSession → Bool
has_session_id id s = s.id == id

abbrev pub has_webapp_user_id : ℕ → WebappUser → Bool
has_webapp_user_id id u = u.id == id

-- GetWebappSession
unfoldable pub get_webapp_session : ℕ → SessionTables → Option WebappSession
get_webapp_session id t = find? (has_session_id id) t.sessions

-- InsertWebappSession: the primary key is unique and the user exists.
unfoldable pub insert_webapp_session :
    WebappSession → SessionTables → Option (Unit {0} × SessionTables)
insert_webapp_session s t =
    if any (has_session_id s.id) t.sessions
    then none
    else if any (has_webapp_user_id s.user_id) t.users
    then some (tt, record t { sessions = t.sessions ++ s ∷ [] })
    else none

-- SlideWebappSessionExpiry
unfoldable pub slide_webapp_session_expiry : ℕ → ℕ → SessionTables → SessionTables
slide_webapp_session_expiry id expires t = record t {
  sessions = update_where (has_session_id id) (λ s. record s { expires_at = expires }) t.sessions;
}

-- InsertWebappUser, with the primary key unique.
unfoldable pub insert_webapp_user : WebappUser → SessionTables → Option (Unit {0} × SessionTables)
insert_webapp_user u t =
    if any (has_webapp_user_id u.id) t.users
    then none
    else some (tt, record t { users = t.users ++ u ∷ [] })

abbrev pub is_proof : ℕ → Text → ProvedCredential → Bool
is_proof sid credential p = p.session_id == sid && text_eq p.credential_id credential

-- DeleteSessionProvedCredentialsExcept
unfoldable pub delete_session_proved_credentials_except : ℕ → Text → SessionTables → SessionTables
delete_session_proved_credentials_except sid credential t = record t {
  proved =
      keep (λ p. not (p.session_id == sid && not (text_eq p.credential_id credential))) t.proved;
}

-- InsertSessionProvedCredential: a conflict updates the time; the session exists.
unfoldable pub insert_session_proved_credential :
    ProvedCredential → SessionTables → Option (Unit {0} × SessionTables)
insert_session_proved_credential p t =
    if any (has_session_id p.session_id) t.sessions
    then some (
      tt,
      record t {
        proved =
            if any (is_proof p.session_id p.credential_id) t.proved
            then update_where (is_proof p.session_id p.credential_id)
                (λ q. record q { proved_at = p.proved_at }) t.proved
            else t.proved ++ p ∷ [];
      },
    )
    else none

-- ListSessionProvedCredentials
unfoldable pub list_session_proved_credentials : ℕ → SessionTables → List Text
list_session_proved_credentials sid t =
    map (λ p. p.credential_id) (keep (λ p. p.session_id == sid) t.proved)

-- SessionHasProvedCredential
unfoldable pub session_has_proved_credential : ℕ → Text → SessionTables → Bool
session_has_proved_credential sid credential t = any (is_proof sid credential) t.proved

pub data SessionError : Type 0 where
  bad_id internal : SessionError

abbrev pub SessionAction : Type 0 → Type 0
SessionAction = Action SessionTables SessionError

-- 30 days.
abbrev pub session_ttl : ℕ
session_ttl = 30 * 24 * 60 * 60 * 1000

-- The API's `Session`, by the numbers of its UUIDs.
pub record Session : Type 0 where
  pub id : ℕ
  pub user_id : ℕ
  pub expires_at : ℕ

-- What one operation reads of the clock, `now` before the other two, and the UUIDs it draws.
pub record Moment : Type 0 where
  pub now : ℕ
  pub slide_time : ℕ
  pub create_time : ℕ
  pub new_user : ℕ
  pub new_session : ℕ

-- What `refresh` does with the row that it finds.
unfoldable pub refresh_found : Moment → ℕ → Option WebappSession → SessionAction (Option Session)
refresh_found m sid none = pure none
refresh_found m sid (some row) =
    if leb row.expires_at m.now
    then pure none
    else exec internal (slide_webapp_session_expiry sid (m.slide_time + session_ttl))
      >> pure (
          some
            (record { id = sid; user_id = row.user_id; expires_at = m.slide_time + session_ttl }))

-- `refresh`: a failed look-up counts as a missing session.
unfoldable pub refresh : Moment → ℕ → SessionAction (Option Session)
unfolding refresh_found
refresh m sid = do found ← ask_or none (get_webapp_session sid); refresh_found m sid found

abbrev pub new_webapp_session : ℕ → ℕ → ℕ → WebappSession
new_webapp_session now id user = record {
  id = id;
  user_id = user;
  created_at = now;
  expires_at = now + session_ttl;
}

-- `create`
unfoldable pub create_session : Moment → SessionAction Session
create_session m = transaction internal (do
  try_query internal (insert_webapp_user (record { id = m.new_user; created_at = m.create_time }))
  try_query internal
      (insert_webapp_session (new_webapp_session m.create_time m.new_session m.new_user))
  pure (record {
    id = m.new_session;
    user_id = m.new_user;
    expires_at = m.create_time + session_ttl;
  }))

abbrev pub or_create : Moment → Option Session → SessionAction Session
or_create m none = create_session m
or_create m (some s) = pure s

unfoldable pub resolve_session : Moment → Option ℕ → SessionAction Session
unfolding create_session refresh
resolve_session m none = create_session m
resolve_session m (some sid) = do found ← refresh m sid; or_create m found

module _ (ext : External) where
  -- `GetOrCreate`
  unfoldable pub get_or_create : Moment → Text → SessionAction Session
  unfolding resolve_session
  get_or_create m cookie =
      resolve_session m (if is_empty cookie then none else ext.uuid_parse cookie)

  -- `IssueForUser`
  unfoldable pub issue_for_user : Moment → Text → SessionAction Session
  issue_for_user m user_id = do
    uid ← or_fail bad_id (ext.uuid_parse user_id)
    try_query internal (insert_webapp_session (new_webapp_session m.now m.new_session uid))
    pure (record { id = m.new_session; user_id = uid; expires_at = m.now + session_ttl })

  -- `ReplaceProvedCredential`
  unfoldable pub replace_proved_credential : ℕ → Text → Text → SessionAction (Unit {0})
  replace_proved_credential now session_id credential = do
    sid ← or_fail bad_id (ext.uuid_parse session_id)
    transaction internal (do
      exec internal (delete_session_proved_credentials_except sid credential)
      try_query internal (
          insert_session_proved_credential
            (record { session_id = sid; credential_id = credential; proved_at = now })))

  -- `AddProvedCredential`
  unfoldable pub add_proved_credential : ℕ → Text → Text → SessionAction (Unit {0})
  add_proved_credential now session_id credential = do
    sid ← or_fail bad_id (ext.uuid_parse session_id)
    try_query internal (
        insert_session_proved_credential
          (record { session_id = sid; credential_id = credential; proved_at = now }))

  -- `ProvedCredentials`
  unfoldable pub proved_credentials : Text → SessionAction (List Text)
  proved_credentials session_id = do
    sid ← or_fail bad_id (ext.uuid_parse session_id)
    ask internal (list_session_proved_credentials sid)

  abbrev has_proved : Option ℕ → Text → SessionAction Bool
  has_proved none credential = pure false
  has_proved (some sid) credential = ask internal (session_has_proved_credential sid credential)

  -- `HasProvedCredential`
  unfoldable pub has_proved_credential : Text → Text → SessionAction Bool
  has_proved_credential session_id credential =
      if is_empty session_id || is_empty credential
      then pure false
      else has_proved (ext.uuid_parse session_id) credential
