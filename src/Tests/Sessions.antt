-- ===== src/Tests/Sessions.antt =====
-- A run of the session service.
use latch_api.Common.{◌∷◌, false, some, [], ◌≡◌, ok, ◌+◌, refl}
use latch_api.Sessions.{
  get_webapp_session, insert_webapp_user, insert_webapp_session, SessionTables, Moment, session_ttl,
  resolve_session, replace_proved_credential, list_session_proved_credentials,
  delete_session_proved_credentials_except, insert_session_proved_credential,
}
use latch_api.Tests.Setting.{ext}
use latch_api.Common.Text.{codes, text_eq}
use latch_api.Sessions.Proved.{IsReplaced, replace_proved_credential-IsReplaced}
use latch_api.Sessions.Resolve.{IsResolved, resolve_session-IsResolved}
use latch_api.Common.Database.{World}

abbrev tables : SessionTables
tables = record {
  users = record { id = 1; created_at = 10 } ∷ [];
  sessions = record { id = 7; user_id = 1; created_at = 10; expires_at = 500 } ∷ [];
  proved = record { session_id = 7; credential_id = codes "old"; proved_at = 20 } ∷ [];
}

abbrev world : World SessionTables
world = record { store = tables; calls = 0; outage = λ n. false }

abbrev moment : Moment
moment = record { now = 100; slide_time = 101; create_time = 101; new_user = 2; new_session = 8 }

abbrev late : Moment
late = record { now = 500; slide_time = 501; create_time = 501; new_user = 2; new_session = 8 }

resolve_session-IsResolved_example :
    IsResolved tables moment
      (some 7)
      (resolve_session moment (some 7) world).0
      (resolve_session moment (some 7) world).1.store
resolve_session-IsResolved_example = resolve_session-IsResolved world moment (some 7)

continued :
    (resolve_session moment (some 7) world).0
    ≡ ok (record { id = 7; user_id = 1; expires_at = 101 + session_ttl })
unfolding resolve_session get_webapp_session
continued = refl

-- Expiry is at its time, not after it.
expired :
    (resolve_session late (some 7) world).0
    ≡ ok (record { id = 8; user_id = 2; expires_at = 501 + session_ttl })
unfolding resolve_session get_webapp_session insert_webapp_user insert_webapp_session
expired = refl

replace_proved_credential-IsReplaced_example :
    IsReplaced ext tables
      (7 ∷ [])
      (codes "cred")
      (replace_proved_credential ext 100 (7 ∷ []) (codes "cred") world).0
      (replace_proved_credential ext 100 (7 ∷ []) (codes "cred") world).1.store
replace_proved_credential-IsReplaced_example =
    replace_proved_credential-IsReplaced ext world 100 (7 ∷ []) (codes "cred")

-- The call succeeds, and leaves one proof of the session.
replaced_proofs :
    ((replace_proved_credential ext 100 (7 ∷ []) (codes "cred") world).0 ≡ ok tt)
    × (list_session_proved_credentials 7
          (replace_proved_credential ext 100 (7 ∷ []) (codes "cred") world).1.store
        ≡ codes "cred" ∷ [])
unfolding replace_proved_credential list_session_proved_credentials
    delete_session_proved_credentials_except insert_session_proved_credential text_eq
replaced_proofs = (refl, refl)
