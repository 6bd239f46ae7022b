-- ===== src/Sessions/Resolve.antt =====
-- Whose session a cookie resolves to.
use latch_api.Common.Find.{stored}
use latch_api.Common.Ends.{
  Ends, Ends-transaction, Ends-weaken, Ends-run, Ends-pure, Ends-ask_or, Ends-try_query, Ends-if,
  Ends-at, Ends-exec, Ends-bind,
}
use latch_api.Common.{
  ◌≡◌, Result, some, any, none, ◌<◌, ok, false, ◌⊎◌, err, ◌+◌, refl, ap, leb, ◌++◌, sym, inl, ◌∷◌,
  [], ◌∙◌, arith, inr, Bool-cases,
}
use latch_api.Common.Database.{World}
use latch_api.Sessions.{
  insert_webapp_user, insert_webapp_session, SessionTables, create_session, refresh_found, refresh,
  resolve_session, WebappUser, WebappSession, Moment, Session, ℕ, Option, get_webapp_session,
  SessionError, has_webapp_user_id, has_session_id, internal, or_create, session_ttl,
  slide_webapp_session_expiry, new_webapp_session,
}

insert_webapp_user-stored :
    (u : WebappUser) (s t : SessionTables) (a : Unit {0})
    → insert_webapp_user u s ≡ some (a, t)
    → (any (has_webapp_user_id u.id) s.users ≡ false) × (t ≡ record s { users = s.users ++ u ∷ [] })
unfolding insert_webapp_user
insert_webapp_user-stored u s t a e = elim (Bool-cases (any (has_webapp_user_id u.id) s.users)) [
  | inl known ↦ absurd (ground (arith, rw (insert_webapp_user, known) at e))
  | inr new ↦ (new, stored (rw (insert_webapp_user, new) at e))
]

insert_webapp_session-stored :
    (x : WebappSession) (s t : SessionTables) (a : Unit {0})
    → insert_webapp_session x s ≡ some (a, t)
    → (any (has_session_id x.id) s.sessions ≡ false)
      × (t ≡ record s { sessions = s.sessions ++ x ∷ [] })
unfolding insert_webapp_session
insert_webapp_session-stored x s t a e = elim (Bool-cases (any (has_session_id x.id) s.sessions)) [
  | inl known ↦ absurd (ground (arith, rw (insert_webapp_session, known) at e))
  | inr new ↦ elim (Bool-cases (any (has_webapp_user_id x.user_id) s.users)) [
    | inl owned ↦ (new, stored (rw (insert_webapp_session, new, owned) at e))
    | inr unknown ↦ absurd (ground (arith, rw (insert_webapp_session, new, unknown) at e))
  ]
]

-- The session is that of a user who was not there before, and nothing else has changed.
abbrev pub IsNew : SessionTables → Moment → Session → SessionTables → Type 0
IsNew s m sess t =
    (any (has_webapp_user_id sess.user_id) s.users ≡ false)
    × (any (has_session_id sess.id) s.sessions ≡ false)
    × (t ≡ record s {
      users = s.users ++ record { id = sess.user_id; created_at = m.create_time } ∷ [];
      sessions = s.sessions ++ new_webapp_session m.create_time sess.id sess.user_id ∷ [];
    })

-- The session was stored under the id and had not expired; its user stays, and its expiry is moved.
abbrev pub IsContinued : SessionTables → Moment → ℕ → Session → SessionTables → Type 0
IsContinued s m sid sess t =
    (row : WebappSession) × (get_webapp_session sid s ≡ some row)
    × (m.now < row.expires_at)
    × (sess ≡ record { id = sid; user_id = row.user_id; expires_at = m.slide_time + session_ttl })
    × (t ≡ slide_webapp_session_expiry sid (m.slide_time + session_ttl) s)

abbrev pub IsResolved :
    SessionTables → Moment → Option ℕ → Result SessionError Session → SessionTables → Type 0
IsResolved s m none (ok sess) t = IsNew s m sess t
IsResolved s m (some sid) (ok sess) t = IsNew s m sess t ⊎ IsContinued s m sid sess t
IsResolved s m given (err e) t = t ≡ s

abbrev NewOk : SessionTables → Moment → Result SessionError Session → SessionTables → Type 0
NewOk s m (ok sess) t = IsNew s m sess t
NewOk s m (err e) t = t ≡ s

abbrev BodyOk : SessionTables → Moment → Result SessionError Session → SessionTables → Type 0
BodyOk s m (ok sess) t = IsNew s m sess t
BodyOk s m (err e) t = Unit {0}

create_session-Ends : (s : SessionTables) (m : Moment) → Ends s (NewOk s m) (create_session m)
unfolding create_session
create_session-Ends s m =
    Ends-transaction (BodyOk s m) internal _
      (Ends-try_query _ _ _ tt λ a t e. Ends-try_query _ _ _ tt λ b u f.
        let (new_user, with_user) = insert_webapp_user-stored _ s t a e in
        let (new_session, with_session) = insert_webapp_session-stored _ t u b f in
        Ends-pure _ (
          new_user,
          ap (λ x. any (has_session_id m.new_session) x.sessions) (sym with_user) ∙ new_session,
          with_session
              ∙ ap {A = SessionTables}
                  (λ x. record x {
                    sessions =
                        x.sessions
                        ++ new_webapp_session m.create_time m.new_session m.new_user ∷ [];
                  })
                  with_user,
        ))
      refl (λ e t h. refl) (λ sess t h. h)

abbrev RefreshOk :
    SessionTables → Moment → ℕ → Result SessionError (Option Session) → SessionTables → Type 0
RefreshOk s m sid (ok none) t = t ≡ s
RefreshOk s m sid (ok (some sess)) t = IsContinued s m sid sess t
RefreshOk s m sid (err e) t = t ≡ s

refresh_found-Ends :
    (s : SessionTables) (m : Moment) (sid : ℕ) (o : Option WebappSession)
    → get_webapp_session sid s ≡ o
    → Ends s (RefreshOk s m sid) (refresh_found m sid o)
unfolding refresh_found
refresh_found-Ends s m sid none missing = Ends-pure none refl
refresh_found-Ends s m sid (some row) found =
    Ends-if (leb row.expires_at m.now) _ _ (λ _. Ends-pure none refl)
      λ live. Ends-exec _ _ _ refl (Ends-pure _ (row, found, ground (arith, live), refl, refl))

refresh-Ends :
    (s : SessionTables) (m : Moment) (sid : ℕ) → Ends s (RefreshOk s m sid) (refresh m sid)
unfolding refresh refresh_found
refresh-Ends s m sid =
    Ends-ask_or none (get_webapp_session sid) (refresh_found m sid) (Ends-pure none refl)
      (refresh_found-Ends s m sid (get_webapp_session sid s) refl)

resolve_session-Ends :
    (s : SessionTables) (m : Moment) (given : Option ℕ)
    → Ends s (IsResolved s m given) (resolve_session m given)
unfolding resolve_session
resolve_session-Ends s m none = Ends-weaken (create_session-Ends s m) (λ e t h. h) (λ sess t h. h)
resolve_session-Ends s m (some sid) =
    Ends-bind (RefreshOk s m sid) (refresh m sid) (or_create m) (refresh-Ends s m sid) (λ e t h. h)
      λ o t h. next o t h
  where
    next :
        (o : Option Session) (t : SessionTables)
        → RefreshOk s m sid (ok o) t
        → Ends t (IsResolved s m (some sid)) (or_create m o)
    next none t h =
        Ends-at h (Ends-weaken (create_session-Ends s m) (λ e u k. k) (λ sess u k. inl k))
    next (some sess) t h = Ends-pure sess (inr h)

-- A cookie resolves to the session that is stored under its id and has not expired, with its user and a
-- new expiry, or to a new session of a user who was not there before; if it fails, nothing changes.
-- Without an id the session is new.
pub resolve_session-IsResolved :
    (w : World SessionTables) (m : Moment) (given : Option ℕ)
    → IsResolved w.store m given (resolve_session m given w).0 (resolve_session m given w).1.store
resolve_session-IsResolved w m given = Ends-run w (resolve_session-Ends w.store m given)
