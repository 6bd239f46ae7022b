-- ===== src/Tests/Auth.antt =====
-- Runs of the refresh tokens.
use latch_api.Auth.Rotation.{rotate_refresh_token-err, rotate_refresh_token-Swapped}
use latch_api.Common.Text.{codes, hex_encode, text_eq}
use latch_api.Tests.Setting.{ext}
use latch_api.Auth.History.{
  IsRevoked, AuthCall, issue_call, revoke_call, serve_auth_all, rotate_call,
  serve_auth_all-single_use, serve_auth_all-IsRevoked,
}
use latch_api.Common.{List, is_ok, some, ◌∷◌, false, [], ◌==◌, ◌≡◌, ◌⊎◌, ◌≤◌, refl, length, ok, err}
use latch_api.Common.Database.{World}
use latch_api.Auth.Tables.{
  RefreshToken, user_token, AuthTables, new_user, get_refresh_token, as_revoked,
  revoke_refresh_token, insert_token,
}
use latch_api.Auth.Service.{
  Issuer, Lifetimes, Rotated, rotate_refresh_token, revoke, new_auth_service, Draw,
  rotate_in_transaction, Owner, hash_token, owner_of, AuthError, new_token, internal, subject_of,
  not_signed, access_for, key_type_for_wallet,
}
use Prim.Native.Nat.{ℕ, suc}

abbrev issuer : Issuer
issuer = record { signed_string = λ c. some c.sub; is_contract_strkey = λ c. false }

abbrev life : Lifetimes
life = new_auth_service 15 30

abbrev token_row : RefreshToken
token_row = user_token 0 1 7 (hash_token ext (codes "old")) 5000

abbrev world : World AuthTables
world = record {
  store = record { users = new_user 0 7 (codes "a@b") ∷ []; tokens = token_row ∷ [] };
  calls = 0;
  outage = λ n. false;
}

abbrev draw : ℕ → Draw
draw n = record {
  now = 1000;
  insert_time = 1001;
  sign_time = 1002;
  random = some (n ∷ []);
  new_uuid = n;
}

abbrev rotated : Rotated
rotated = record { subject = 7 ∷ []; access_token = 7 ∷ []; refresh_token = codes "09" }

rotates : (rotate_refresh_token ext issuer life (draw 9) (codes "old") world).0 ≡ ok rotated
unfolding rotate_refresh_token rotate_in_transaction hash_token hex_encode text_eq get_refresh_token
    revoke_refresh_token owner_of new_token insert_token access_for subject_of key_type_for_wallet
rotates = refl

abbrev calls : List AuthCall
calls =
    issue_call (draw 3) (7 ∷ [])
    ∷ revoke_call (codes "09")
    ∷ rotate_call (draw 4) (codes "old")
    ∷ []

serve_auth_all-single_use_example :
    is_ok
      (rotate_refresh_token ext issuer life (draw 5) (codes "old") (
        serve_auth_all ext issuer life calls
          (rotate_refresh_token ext issuer life (draw 9) (codes "old") world).1)).0
    ≡ false
serve_auth_all-single_use_example =
    serve_auth_all-single_use ext issuer life calls world (draw 9) (draw 5) (codes "old") rotates

abbrev refused_world : World AuthTables
refused_world = record world { outage = λ n. n == 3 }

refuses :
    (rotate_refresh_token ext issuer life (draw 9) (codes "old") refused_world).0 ≡ err internal
unfolding rotate_refresh_token rotate_in_transaction hash_token hex_encode text_eq get_refresh_token
    revoke_refresh_token owner_of new_token insert_token access_for subject_of key_type_for_wallet
refuses = refl

rotate_refresh_token-err_example :
    ((rotate_refresh_token ext issuer life (draw 9) (codes "old") refused_world).1.store
      ≡ refused_world.store)
    ⊎ (◌≡◌ {A = AuthError} internal not_signed)
rotate_refresh_token-err_example =
    rotate_refresh_token-err ext issuer life refused_world (draw 9) (codes "old") refuses

rotate_refresh_token-Swapped_example :
    (row : RefreshToken) × (fresh : RefreshToken) × (owner : Owner) × (get_refresh_token
        (hash_token ext (codes "old"))
        world.store
      ≡ some row)
    × (row.revoked ≡ false)
    × (1000 ≤ row.expires_at)
    × (get_refresh_token
          (hash_token ext (codes "old"))
          (rotate_refresh_token ext issuer life (draw 9) (codes "old") world).1.store
        ≡ some (as_revoked row))
    × (get_refresh_token
          (hash_token ext (codes "09"))
          (rotate_refresh_token ext issuer life (draw 9) (codes "old") world).1.store
        ≡ some fresh)
    × (fresh.revoked ≡ false)
    × (owner_of row ≡ some owner)
    × (owner_of fresh ≡ some owner)
    × (7 ∷ [] ≡ subject_of ext owner)
    × (length (rotate_refresh_token ext issuer life (draw 9) (codes "old") world).1.store.tokens
        ≡ suc (length world.store.tokens))
rotate_refresh_token-Swapped_example =
    rotate_refresh_token-Swapped ext issuer life world (draw 9) (codes "old") rotates

revoke-IsRevoked :
    IsRevoked
      (hash_token ext (codes "old"))
      (as_revoked token_row)
      (revoke ext (codes "old") world).1.store
unfolding revoke hash_token hex_encode text_eq get_refresh_token revoke_refresh_token
revoke-IsRevoked = (refl, refl)

serve_auth_all-IsRevoked_example :
    IsRevoked
      (hash_token ext (codes "old"))
      (as_revoked token_row)
      (serve_auth_all ext issuer life calls (revoke ext (codes "old") world).1).store
serve_auth_all-IsRevoked_example =
    serve_auth_all-IsRevoked ext issuer life calls (revoke ext (codes "old") world).1
      (hash_token ext (codes "old")) (as_revoked token_row) revoke-IsRevoked
