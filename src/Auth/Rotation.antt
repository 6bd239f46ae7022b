-- ===== src/Auth/Rotation.antt =====
-- What a rotation of a refresh token does: the old one is revoked and one new one is stored for the
-- same owner, or nothing changes.
use latch_api.Common.Find.{stored, find?-update_where, find?-append_new, find?-any}
use latch_api.Common.Database.{transaction, World}
use latch_api.Common.Ends.{
  Ends, Ends-ask, Ends-or_fail, Ends-check, Ends-exec, Ends-try_query, Ends-pure, Ends-bind,
  Ends-transaction, Ends-run,
}
use latch_api.Common.Text.{Text, text_eq, text_eq_self}
use latch_api.Common.{
  ◌≡◌, false, some, any, ◌++◌, ◌∷◌, [], Bool-cases, ◌==◌, ltb, inl, arith, inr, ◌||◌, Result, ok,
  refl, err, ◌⊎◌, ◌&&◌, length, find?-append, ◌+◌, ◌≤◌, ap, ◌∙◌, length-append, update_where,
  length-update_where,
}
use latch_api.Auth.Service.{
  Issuer, Lifetimes, Draw, Rotated, Owner, hash_token, owner_of, new_token, subject_of,
  wallet_owner, rotate_in_transaction, user_owner, AuthError, rotate_refresh_token, not_signed,
  internal, access_for,
}
use Prim.Native.Nat.{ℕ, suc}
use latch_api.External.{External}
use latch_api.Auth.Tables.{
  RefreshToken, insert_token, AuthTables, has_token_hash, get_refresh_token, revoke_refresh_token,
  has_owner, as_revoked, is_known_user,
}

-- An insertion that went through.
pub insert_token-stored :
    (r : RefreshToken) (s t : AuthTables) (a : Unit {0})
    → insert_token r s ≡ some (a, t)
    → (any (has_token_hash r.token_hash) s.tokens ≡ false)
      × (t ≡ record s { tokens = s.tokens ++ r ∷ [] })
unfolding insert_token
insert_token-stored r s t a h = elim (Bool-cases (any (λ x. x.id == r.id) s.tokens)) [
  | inl known ↦ absurd (ground (arith, rw (insert_token, known) at h))
  | inr new ↦ elim (Bool-cases (any (has_token_hash r.token_hash) s.tokens)) [
    | inl taken ↦ absurd (ground (arith, rw (insert_token, new, taken) at h))
    | inr free ↦ elim (Bool-cases (has_owner r && is_known_user r.user_id s.users)) [
      | inl owned ↦ (free, stored (rw (insert_token, new, free, owned) at h))
      | inr unowned ↦ absurd (ground (arith, rw (insert_token, new, free, unowned) at h))
    ]
  ]
]

one_more : {n m : ℕ} → n ≡ m → n + 1 ≡ suc m
one_more h = omega arith

owner_of-new_token :
    (life : Lifetimes) (draw : Draw) (h : Text) (o : Owner)
    → owner_of (new_token life draw h o) ≡ some o
unfolding owner_of new_token
owner_of-new_token life draw h (wallet_owner w) = refl
owner_of-new_token life draw h (user_owner id) = refl

new_token-hash :
    (life : Lifetimes) (draw : Draw) (h : Text) (o : Owner)
    → ((new_token life draw h o).token_hash ≡ h) × ((new_token life draw h o).revoked ≡ false)
unfolding new_token
new_token-hash life draw h (wallet_owner w) = (refl, refl)
new_token-hash life draw h (user_owner id) = (refl, refl)

module _ (ext : External) (issuer : Issuer) (life : Lifetimes) where
  -- What the tables hold after the body of a rotation.
  abbrev Swapped : AuthTables → Draw → Text → Owner → Text → AuthTables → Type 0
  Swapped s draw raw_token owner raw t =
      (row : RefreshToken) × (get_refresh_token (hash_token ext raw_token) s ≡ some row)
      × (row.revoked || ltb row.expires_at draw.now ≡ false)
      × (owner_of row ≡ some owner)
      × (insert_token (new_token life draw (hash_token ext raw) owner)
            (revoke_refresh_token (hash_token ext raw_token) s)
          ≡ some (tt, t))

  abbrev SwappedOk :
      AuthTables → Draw → Text → Result AuthError (Owner × Text) → AuthTables → Type 0
  SwappedOk s draw raw_token (ok (owner, raw)) t = Swapped s draw raw_token owner raw t
  SwappedOk s draw raw_token (err e) t = Unit {0}

  rotate_in_transaction-Ends :
      (s : AuthTables) (draw : Draw) (raw_token : Text)
      → Ends s (SwappedOk s draw raw_token) (rotate_in_transaction ext issuer life draw raw_token)
  unfolding rotate_in_transaction
  rotate_in_transaction-Ends s draw raw_token = Ends-ask _ _ _ tt (
      Ends-or_fail _ (get_refresh_token (hash_token ext raw_token) s) _ (λ _. tt)
        λ row found.
          Ends-check (row.revoked || ltb row.expires_at draw.now) _ _ (λ _. tt)
            λ live. Ends-exec _ _ _ tt (
              Ends-or_fail _ draw.random _ (λ _. tt)
                λ raw drawn.
                  Ends-or_fail _ (owner_of row) _ (λ _. tt)
                    λ owner owned.
                      Ends-try_query _ _ _ tt
                        λ a t inserted. Ends-pure _ (row, found, live, owned, inserted)))

  abbrev CommittedOk :
      AuthTables → Draw → Text → Result AuthError (Owner × Text) → AuthTables → Type 0
  CommittedOk s draw raw_token (ok (owner, raw)) t = Swapped s draw raw_token owner raw t
  CommittedOk s draw raw_token (err e) t = t ≡ s

  abbrev RotatedOk : AuthTables → Draw → Text → Result AuthError Rotated → AuthTables → Type 0
  RotatedOk s draw raw_token (ok r) t =
      (owner : Owner) × Swapped s draw raw_token owner r.refresh_token t
      × (r.subject ≡ subject_of ext owner)
  RotatedOk s draw raw_token (err e) t = (t ≡ s) ⊎ (e ≡ not_signed)

  rotate_refresh_token-Ends :
      (s : AuthTables) (draw : Draw) (raw_token : Text)
      → Ends s (RotatedOk s draw raw_token) (rotate_refresh_token ext issuer life draw raw_token)
  unfolding rotate_refresh_token
  rotate_refresh_token-Ends s draw raw_token =
      Ends-bind (CommittedOk s draw raw_token)
        (transaction internal (rotate_in_transaction ext issuer life draw raw_token)) _
        (Ends-transaction (SwappedOk s draw raw_token) internal _
          (rotate_in_transaction-Ends s draw raw_token) refl (λ x t h. refl) (λ a t h. h))
        (λ e t h. inl h)
        λ a t h.
          Ends-or_fail not_signed (access_for ext issuer life draw a.0) _ (λ _. inr refl)
            λ access signed. Ends-pure _ (a.0, h, refl)

  Swapped-rows :
      (s t : AuthTables) (draw : Draw) (raw_token raw : Text) (owner : Owner)
      → Swapped s draw raw_token owner raw t
      → (row : RefreshToken) × (get_refresh_token (hash_token ext raw_token) s ≡ some row)
        × (row.revoked ≡ false)
        × (draw.now ≤ row.expires_at)
        × (owner_of row ≡ some owner)
        × (get_refresh_token (hash_token ext raw_token) t ≡ some (as_revoked row))
        × (get_refresh_token (hash_token ext raw) t
            ≡ some (new_token life draw (hash_token ext raw) owner))
        × (length t.tokens ≡ suc (length s.tokens))
  unfolding get_refresh_token revoke_refresh_token
  Swapped-rows s t draw raw_token raw owner (row, found, live, owned, inserted) =
      let h = hash_token ext raw_token in
      let n = new_token life draw (hash_token ext raw) owner in
      let (free, same) = insert_token-stored n (revoke_refresh_token h s) t tt inserted in
      let hashed = (new_token-hash life draw (hash_token ext raw) owner).0 in
      let revoked_row =
        find?-update_where (has_token_hash h) as_revoked s.tokens (λ x. refl) found in
      (
        row,
        found,
        ground (arith, live),
        ground (arith, live),
        owned,
        rw same (find?-append (has_token_hash h) _ (n ∷ []) revoked_row),
        rw same (
            find?-append_new (has_token_hash (hash_token ext raw)) _ n
              (find?-any (has_token_hash (hash_token ext raw)) _ (rw hashed at free))
              (ap (λ k. text_eq k (hash_token ext raw)) hashed
                ∙ text_eq_self (hash_token ext raw))),
        rw same (
            length-append (update_where (has_token_hash h) as_revoked s.tokens) (n ∷ [])
            ∙ one_more (length-update_where (has_token_hash h) as_revoked s.tokens)),
      )

  -- When a refresh token is rotated, its row was neither revoked nor past its expiry; it is stored as
  -- revoked and otherwise as before, the new token is stored unrevoked under the same owner, no other
  -- row is added, and the subject that is returned is that owner.
  pub rotate_refresh_token-Swapped :
      (w : World AuthTables) (draw : Draw) (raw_token : Text) {r : Rotated}
      → (rotate_refresh_token ext issuer life draw raw_token w).0 ≡ ok r
      → (row : RefreshToken) × (fresh : RefreshToken) × (owner : Owner) × (get_refresh_token
            (hash_token ext raw_token)
            w.store
          ≡ some row)
        × (row.revoked ≡ false)
        × (draw.now ≤ row.expires_at)
        × (get_refresh_token
              (hash_token ext raw_token)
              (rotate_refresh_token ext issuer life draw raw_token w).1.store
            ≡ some (as_revoked row))
        × (get_refresh_token
              (hash_token ext r.refresh_token)
              (rotate_refresh_token ext issuer life draw raw_token w).1.store
            ≡ some fresh)
        × (fresh.revoked ≡ false)
        × (owner_of row ≡ some owner)
        × (owner_of fresh ≡ some owner)
        × (r.subject ≡ subject_of ext owner)
        × (length (rotate_refresh_token ext issuer life draw raw_token w).1.store.tokens
            ≡ suc (length w.store.tokens))
  rotate_refresh_token-Swapped w draw raw_token {r} h =
      let t = (rotate_refresh_token ext issuer life draw raw_token w).1.store in
      let ends = Ends-run w (rotate_refresh_token-Ends w.store draw raw_token) in
      let (owner, swapped, subject) = rw h at ends in
      let (row, found, live, unexpired, owned, old, new, len) =
        Swapped-rows w.store t draw raw_token r.refresh_token owner swapped in
      let n = new_token life draw (hash_token ext r.refresh_token) owner in
      (
        row,
        n,
        owner,
        found,
        live,
        unexpired,
        old,
        new,
        (new_token-hash life draw (hash_token ext r.refresh_token) owner).1,
        owned,
        owner_of-new_token life draw (hash_token ext r.refresh_token) owner,
        subject,
        len,
      )

  -- A rotation that fails leaves the tables as they were, unless it fails at signing the access token,
  -- which comes after the commit.
  pub rotate_refresh_token-err :
      (w : World AuthTables) (draw : Draw) (raw_token : Text) {e : AuthError}
      → (rotate_refresh_token ext issuer life draw raw_token w).0 ≡ err e
      → ((rotate_refresh_token ext issuer life draw raw_token w).1.store ≡ w.store)
        ⊎ (e ≡ not_signed)
  rotate_refresh_token-err w draw raw_token h =
      rw h at (Ends-run w (rotate_refresh_token-Ends w.store draw raw_token))
