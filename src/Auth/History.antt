-- ===== src/Auth/History.antt =====
-- Any sequence of requests to AuthService, from any clients and with any failures of the database.
use latch_api.Common.Find.{find?-update_where_kept, row_of}
use latch_api.Auth.Rotation.{insert_token-stored, rotate_refresh_token-Swapped}
use latch_api.Common.{
  ◌≡◌, some, true, ℕ, List, if◌then◌else◌, ◌∷◌, find?-append, ok, [], is_ok, Bool-cases, false,
  refl, inl, sym, inr, is_ok-false, ◌∙◌, ap,
}
use latch_api.Auth.Tables.{
  RefreshToken, AuthTables, get_refresh_token, insert_token, revoke_refresh_token, upsert_user,
  verify_user_email, has_token_hash, upsert_user-tokens, verify_user_email-tokens, as_revoked,
}
use latch_api.External.{External}
use latch_api.Common.Database.{
  Keeps-pure, Keeps-fail, Keeps-or_fail, Keeps-ask, World, Keeps, Keeps-fail_if, try_query, exec,
  Keeps-bind, Keeps-transaction, Keeps-try_query, Keeps-exec,
}
use latch_api.Common.Text.{Text}
use latch_api.Auth.Service.{
  Draw, Issuer, Lifetimes, upsert, verify_email, issue_refresh_token, issue_wallet_refresh_token,
  issue_token_pair, issue_wallet_token_pair, rotate_in_transaction, rotate_refresh_token, revoke,
  hash_token, Rotated, internal,
}
use mathlib.Core.Bool.{true≢false}

pub data AuthCall : Type 0 where
  upsert_call verify_call : Draw → Text → AuthCall
  issue_call : Draw → Text → AuthCall
  issue_wallet_call : Draw → Text → Text → AuthCall
  rotate_call : Draw → Text → AuthCall
  revoke_call : Text → AuthCall

-- The stored row of a hash is `q`, which is revoked.
abbrev pub IsRevoked : Text → RefreshToken → AuthTables → Type 0
IsRevoked h q t = (get_refresh_token h t ≡ some q) × (q.revoked ≡ true)

module _ (h : Text) (q : RefreshToken) where
  insert_token-IsRevoked :
      (r : RefreshToken) (s t : AuthTables) (a : Unit {0})
      → IsRevoked h q s
      → insert_token r s ≡ some (a, t)
      → IsRevoked h q t
  unfolding get_refresh_token
  insert_token-IsRevoked r s t a (found, revoked) inserted =
      rw (insert_token-stored r s t a inserted).1
        (find?-append (has_token_hash h) s.tokens (r ∷ []) found, revoked)

  as_revoked-kept :
      (k : Text) → q.revoked ≡ true → (if has_token_hash k q then as_revoked q else q) ≡ q
  as_revoked-kept k revoked = elim (Bool-cases (has_token_hash k q)) [
    | inl hit ↦ rw hit (λ i. record q { revoked = sym revoked i })
    | inr miss ↦ rw miss refl
  ]

  revoke_refresh_token-IsRevoked :
      (k : Text) (s : AuthTables) → IsRevoked h q s → IsRevoked h q (revoke_refresh_token k s)
  unfolding get_refresh_token revoke_refresh_token
  revoke_refresh_token-IsRevoked k s (found, revoked) = (
    find?-update_where_kept (has_token_hash h) (has_token_hash k) as_revoked s.tokens q (λ x. refl)
        (as_revoked-kept k revoked) found,
    revoked,
  )

  upsert_user-IsRevoked :
      (now id : ℕ) (email : Text) (s t : AuthTables) (a : ℕ)
      → IsRevoked h q s
      → upsert_user now id email s ≡ some (a, t)
      → IsRevoked h q t
  unfolding get_refresh_token
  upsert_user-IsRevoked now id email s t a (found, revoked) e =
      rw (upsert_user-tokens now id email s t a e) (found, revoked)

  verify_user_email-IsRevoked :
      (now : ℕ) (email : Text) (s t : AuthTables) (a : ℕ)
      → IsRevoked h q s
      → verify_user_email now email s ≡ some (a, t)
      → IsRevoked h q t
  unfolding get_refresh_token
  verify_user_email-IsRevoked now email s t a (found, revoked) e =
      rw (verify_user_email-tokens now email s t a e) (found, revoked)

ruleset reads =
    (Keeps-pure, Keeps-fail, Keeps-or_fail, Keeps-ask, Keeps-fail_if, Keeps-bind, Keeps-transaction)

module _ (ext : External) (issuer : Issuer) (life : Lifetimes) where
  -- The tables after one request.
  unfoldable pub serve_auth : AuthCall → World AuthTables → World AuthTables
  serve_auth (upsert_call draw email) w = (upsert ext draw email w).1
  serve_auth (verify_call draw email) w = (verify_email ext draw email w).1
  serve_auth (issue_call draw user_id) w = (issue_token_pair ext issuer life draw user_id w).1
  serve_auth (issue_wallet_call draw wallet key_type) w =
      (issue_wallet_token_pair ext issuer life draw wallet key_type w).1
  serve_auth (rotate_call draw raw) w = (rotate_refresh_token ext issuer life draw raw w).1
  serve_auth (revoke_call raw) w = (revoke ext raw w).1

  unfoldable pub serve_auth_all : List AuthCall → World AuthTables → World AuthTables
  unfolding serve_auth
  serve_auth_all [] w = w
  serve_auth_all (c ∷ cs) w = serve_auth_all cs (serve_auth c w)

  module _ (h : Text) (q : RefreshToken) where
    inserts : (r : RefreshToken) → Keeps (IsRevoked h q) (try_query internal (insert_token r))
    inserts r =
        Keeps-try_query (IsRevoked h q) internal (insert_token r)
          (λ s t a p e. insert_token-IsRevoked h q r s t a p e)

    revokes : (k : Text) → Keeps (IsRevoked h q) (exec internal (revoke_refresh_token k))
    revokes k =
        Keeps-exec (IsRevoked h q) internal (revoke_refresh_token k)
          (λ s p. revoke_refresh_token-IsRevoked h q k s p)

    upsert-Keeps : (draw : Draw) (email : Text) → Keeps (IsRevoked h q) (upsert ext draw email)
    unfolding upsert
    upsert-Keeps draw email =
        Keeps-bind (IsRevoked h q) _ _
          (Keeps-try_query (IsRevoked h q) internal (upsert_user draw.now draw.new_uuid email)
            (λ s t a p e. upsert_user-IsRevoked h q draw.now draw.new_uuid email s t a p e))
          (λ id. Keeps-pure (IsRevoked h q) _)

    verify_email-Keeps :
        (draw : Draw) (email : Text) → Keeps (IsRevoked h q) (verify_email ext draw email)
    unfolding verify_email
    verify_email-Keeps draw email =
        Keeps-bind (IsRevoked h q) _ _
          (Keeps-try_query (IsRevoked h q) internal (verify_user_email draw.now email)
            (λ s t a p e. verify_user_email-IsRevoked h q draw.now email s t a p e))
          (λ id. Keeps-pure (IsRevoked h q) _)

    issue_refresh_token-Keeps :
        (draw : Draw) (user_id : Text)
        → Keeps (IsRevoked h q) (issue_refresh_token ext issuer life draw user_id)
    unfolding issue_refresh_token
    issue_refresh_token-Keeps draw user_id = search (reads, inserts) depth 12

    issue_wallet_refresh_token-Keeps :
        (draw : Draw) (wallet : Text)
        → Keeps (IsRevoked h q) (issue_wallet_refresh_token ext issuer life draw wallet)
    unfolding issue_wallet_refresh_token
    issue_wallet_refresh_token-Keeps draw wallet = search (reads, inserts) depth 12

    issue_token_pair-Keeps :
        (draw : Draw) (user_id : Text)
        → Keeps (IsRevoked h q) (issue_token_pair ext issuer life draw user_id)
    unfolding issue_token_pair
    issue_token_pair-Keeps draw user_id = search (reads, issue_refresh_token-Keeps) depth 12

    issue_wallet_token_pair-Keeps :
        (draw : Draw) (wallet key_type : Text)
        → Keeps (IsRevoked h q) (issue_wallet_token_pair ext issuer life draw wallet key_type)
    unfolding issue_wallet_token_pair
    issue_wallet_token_pair-Keeps draw wallet key_type =
        search (reads, issue_wallet_refresh_token-Keeps) depth 12

    rotate_in_transaction-Keeps :
        (draw : Draw) (raw : Text)
        → Keeps (IsRevoked h q) (rotate_in_transaction ext issuer life draw raw)
    unfolding rotate_in_transaction
    rotate_in_transaction-Keeps draw raw = search (reads, inserts, revokes) depth 20

    rotate_refresh_token-Keeps :
        (draw : Draw) (raw : Text)
        → Keeps (IsRevoked h q) (rotate_refresh_token ext issuer life draw raw)
    unfolding rotate_refresh_token
    rotate_refresh_token-Keeps draw raw = search (reads, rotate_in_transaction-Keeps) depth 12

    serve_auth-IsRevoked :
        (c : AuthCall) (w : World AuthTables)
        → IsRevoked h q w.store
        → IsRevoked h q (serve_auth c w).store
    unfolding serve_auth revoke
    serve_auth-IsRevoked (upsert_call draw email) w p = (upsert-Keeps draw email).run w p
    serve_auth-IsRevoked (verify_call draw email) w p = (verify_email-Keeps draw email).run w p
    serve_auth-IsRevoked (issue_call draw user_id) w p =
        (issue_token_pair-Keeps draw user_id).run w p
    serve_auth-IsRevoked (issue_wallet_call draw wallet key_type) w p =
        (issue_wallet_token_pair-Keeps draw wallet key_type).run w p
    serve_auth-IsRevoked (rotate_call draw raw) w p = (rotate_refresh_token-Keeps draw raw).run w p
    serve_auth-IsRevoked (revoke_call raw) w p = (revokes (hash_token ext raw)).run w p

  -- The row of a revoked refresh token is unchanged after any requests, with any of their database
  -- calls failing.
  pub serve_auth_all-IsRevoked :
      (cs : List AuthCall) (w : World AuthTables) (h : Text) (q : RefreshToken)
      → IsRevoked h q w.store
      → IsRevoked h q (serve_auth_all cs w).store
  unfolding serve_auth_all
  serve_auth_all-IsRevoked [] w h q p = p
  serve_auth_all-IsRevoked (c ∷ cs) w h q p =
      serve_auth_all-IsRevoked cs (serve_auth c w) h q (serve_auth-IsRevoked h q c w p)

  -- A refresh token that was rotated is refused at every later rotation, whatever is requested in
  -- between and whichever database calls fail.
  pub serve_auth_all-single_use :
      (cs : List AuthCall) (w : World AuthTables) (draw later : Draw) (raw_token : Text)
      {r : Rotated}
      → (rotate_refresh_token ext issuer life draw raw_token w).0 ≡ ok r
      → is_ok
          (rotate_refresh_token ext issuer life later raw_token
            (serve_auth_all cs (rotate_refresh_token ext issuer life draw raw_token w).1)).0
        ≡ false
  serve_auth_all-single_use cs w draw later raw_token h =
      let (row, _, _, _, _, _, old, _, _, _, _, _, _) =
        rotate_refresh_token-Swapped ext issuer life w draw raw_token h in
      refused later raw_token
        (serve_auth_all cs (rotate_refresh_token ext issuer life draw raw_token w).1)
        (as_revoked row)
        (serve_auth_all-IsRevoked cs (rotate_refresh_token ext issuer life draw raw_token w).1
          (hash_token ext raw_token) (as_revoked row) (old, refl))
    where
      refused :
          (later : Draw) (raw_token : Text) (w : World AuthTables) (q : RefreshToken)
          → IsRevoked (hash_token ext raw_token) q w.store
          → is_ok (rotate_refresh_token ext issuer life later raw_token w).0 ≡ false
      refused later raw_token w q (found, revoked) =
          is_ok-false (rotate_refresh_token ext issuer life later raw_token w).0 λ r e.
            let (row, _, _, known, live, _, _, _, _, _, _, _, _) =
              rotate_refresh_token-Swapped ext issuer life w later raw_token e in
            let own : row ≡ q = row_of (sym known ∙ found) in
            absurd (true≢false (sym revoked ∙ ap (λ x. x.revoked) (sym own) ∙ live))
