-- ===== src/WalletSignIn/Verified.antt =====
-- What a successful sign-in has proved.
use latch_api.WalletNonce.{wallet_nonce_prefix, bind}
use latch_api.WalletNonce.SingleUse.{Consumed, consume_nonce-Ends, IsAbsent}
use latch_api.Common.Find.{find?-append_new, find?-any}
use mathlib.Core.Bool.{true≢false}
use latch_api.Auth.Service.{
  not_signed, no_random_bytes, valid_wallet_shape, key_type_ed25519, Issuer, Lifetimes,
  issue_wallet_token_pair, AuthError, issue_wallet_refresh_token, hash_token, Draw,
  issue_wallet_access_token,
}
use latch_api.WebAuthn.{bad_signature}
use latch_api.WalletSignIn.{
  bad_wallet_address, signature_error, network_error, nonce_invalid, nonce_error, auth_error, Redis,
  Ed25519, not_empty, P256, AccountReader, Stores, sign_in, verified, WalletSignInInput,
  verify_ed25519, SignInError, resolve, base64_url_decode, on, either, wrapped,
}
use latch_api.Auth.Rotation.{insert_token-stored}
use latch_api.Auth.Tables.{
  get_refresh_token, RefreshToken, AuthTables, insert_token, has_token_hash, wallet_token,
}
use latch_api.Common.Text.{Text, text_eq_self, hex_encode}
use latch_api.Common.Ends.{
  Ends, Ends-or_fail, Ends-bind, Ends-try_query, Ends-pure, start, Ends-check, Ends-run,
}
use latch_api.Common.Database.{Action, World, ◌>>=◌}
use latch_api.External.{External}
use latch_api.Common.{
  Result, Option, ◌≡◌, err, ok, some, refl, false, ◌+◌, List, Bool, ℕ, not, true, ◌∷◌, none, [],
  length, ◌++◌, if◌then◌else◌, arith, Option-cases, inl, inr, ◌==◌, ==_iff,
}

-- The ends of a call on one of the two stores.
Ends-on :
    {S T E F A : Type 0} {s : S} {R : Result F A → S → Type 0} (Q : Result E A → T → Type 0)
    (f : E → F) (get : S → T) (put : T → S → S) (m : Action T E A)
    → Ends (get s) Q m
    → ((e : E) (t : T) → Q (err e) t → R (err (f e)) (put t s))
    → ((a : A) (t : T) → Q (ok a) t → R (ok a) (put t s))
    → Ends s R (on f get put m)
Ends-on {S} {T} {E} {F} {A} {s = s} {R = R} Q f get put m h bad good = record {
  run = λ n o. settled (m (start (get s) n o)) (h.run n o);
}
  where
    settled :
        (r : Result E A × World T)
        → Q r.0 r.1.store
        → R (wrapped f put s r).0 (wrapped f put s r).1.store
    settled (ok a, w) q = good a w.store q
    settled (err e, w) q = bad e w.store q

Ends-either :
    {S E F A B : Type 0} {s : S} {R : Result F B → S → Type 0} (f : E → F) (r : Result E A)
    (k : A → Action S F B)
    → ((e : E) → r ≡ err e → R (err (f e)) s)
    → ((a : A) → r ≡ ok a → Ends s R (k a))
    → Ends s R (either f r >>= k)
Ends-either f (ok a) k bad h = h a refl
Ends-either f (err e) k bad h = record { run = λ n o. bad e refl }

module _ (ext : External) (issuer : Issuer) (life : Lifetimes) where
  -- The refresh token that a pair was issued with is stored, unrevoked and under the wallet.
  abbrev pub StoredFor : Text → Result AuthError (Text × Text) → AuthTables → Type 0
  StoredFor wallet (ok (access, refresh)) t =
      (row : RefreshToken) × (get_refresh_token (hash_token ext refresh) t ≡ some row)
      × (row.revoked ≡ false)
      × (row.wallet_address ≡ some wallet)
  StoredFor wallet (err e) t = Unit {0}

  inserted-stored :
      (row : RefreshToken) (s t : AuthTables) (a : Unit {0})
      → insert_token row s ≡ some (a, t)
      → get_refresh_token row.token_hash t ≡ some row
  unfolding get_refresh_token
  inserted-stored row s t a e =
      let (free, same) = insert_token-stored row s t a e in
      rw same (
        find?-append_new (has_token_hash row.token_hash) s.tokens row
          (find?-any (has_token_hash row.token_hash) s.tokens free) (text_eq_self row.token_hash))

  issue_wallet_token_pair-Ends :
      (s : AuthTables) (draw : Draw) (wallet key_type : Text)
      → Ends s (StoredFor wallet) (issue_wallet_token_pair ext issuer life draw wallet key_type)
  unfolding issue_wallet_token_pair issue_wallet_refresh_token
  issue_wallet_token_pair-Ends s draw wallet key_type =
      Ends-or_fail not_signed (issue_wallet_access_token ext issuer life draw.now wallet key_type) _
        (λ _. tt)
        λ access signed.
          Ends-bind (λ r t. StoredRefresh r t)
            (issue_wallet_refresh_token ext issuer life draw wallet) _
            (Ends-or_fail no_random_bytes draw.random _ (λ _. tt)
              λ raw drawn. Ends-try_query _ _ _ tt λ a t e. Ends-pure _ (
                wallet_token draw.insert_time draw.new_uuid wallet (hash_token ext (hex_encode raw))
                    (draw.insert_time + life.refresh_ttl),
                inserted-stored _ s t a e,
                refl,
                refl,
              ))
            (λ e t h. tt) λ refresh t h. Ends-pure _ h
    where
      StoredRefresh : Result AuthError Text → AuthTables → Type 0
      StoredRefresh (ok refresh) t =
          (row : RefreshToken) × (get_refresh_token (hash_token ext refresh) t ≡ some row)
          × (row.revoked ≡ false)
          × (row.wallet_address ≡ some wallet)
      StoredRefresh (err e) t = Unit {0}

not_empty-some : (o : Option (List ℕ)) {bs : List ℕ} → not_empty o ≡ some bs → o ≡ some bs
not_empty-some none h = cc
not_empty-some (some []) h = cc
not_empty-some (some (b ∷ rest)) h = h

not_refused : (b : Bool) → not b ≡ false → b ≡ true
not_refused true h = refl
not_refused false h = absurd (true≢false h)

module _ (ext : External) (redis : Redis) (issuer : Issuer) (life : Lifetimes) (ed : Ed25519)
    (p256 : P256) (reader : Text → AccountReader) (origins : List Text) (deployed : Text) where
  -- What a sign-in that answers with tokens has found and left.
  abbrev pub SignedIn : Stores redis → ℕ → WalletSignInInput → Text × Text → Stores redis → Type 0
  SignedIn s now input tokens t =
      (network : Text) × (nonce : List ℕ) × (valid_wallet_shape ext issuer input.wallet
          input.key_type
        ≡ true)
      × (resolve deployed input.network ≡ ok network)
      × (base64_url_decode input.nonce_b64url ≡ some nonce)
      × (redis.get now (wallet_nonce_prefix ++ hex_encode nonce) s.nonces
          ≡ some (bind input.wallet input.key_type network))
      × (verified ext ed p256 reader origins input nonce ≡ ok tt)
      × IsAbsent redis (hex_encode nonce) t.nonces
      × StoredFor ext issuer life input.wallet (ok tokens) t.tables

  abbrev SignedInOk :
      Stores redis
      → ℕ
      → WalletSignInInput
      → Result SignInError (Text × Text)
      → Stores redis
      → Type 0
  SignedInOk s now input (ok tokens) t = SignedIn s now input tokens t
  SignedInOk s now input (err e) t = Unit {0}

  abbrev NonceTaken :
      Stores redis
      → ℕ
      → WalletSignInInput
      → Text
      → List ℕ
      → Result SignInError (Unit {0})
      → Stores redis
      → Type 0
  NonceTaken s now input network nonce (ok a) t =
      Consumed redis s.nonces now (hex_encode nonce) input.wallet input.key_type network (ok a)
        t.nonces
  NonceTaken s now input network nonce (err e) t = Unit {0}

  sign_in-Ends :
      (s : Stores redis) (now : ℕ) (draw : Draw) (input : WalletSignInInput)
      → Ends s
          (SignedInOk s now input)
          (sign_in ext redis issuer life ed p256 reader origins deployed now draw input)
  unfolding sign_in
  sign_in-Ends s now draw input =
      Ends-check (not (valid_wallet_shape ext issuer input.wallet input.key_type)) _ _ (λ _. tt)
        λ shape.
          Ends-either network_error (resolve deployed input.network) _ (λ e q. tt)
            λ network resolved.
              Ends-or_fail nonce_invalid (not_empty (base64_url_decode input.nonce_b64url)) _
                (λ _. tt)
                λ nonce decoded.
                  Ends-bind (NonceTaken s now input network nonce) _ _
                    (Ends-on
                      (Consumed redis s.nonces now (hex_encode nonce) input.wallet input.key_type
                        network)
                      nonce_error Stores.nonces (λ n u. record u { nonces = n }) _
                      (consume_nonce-Ends redis s.nonces now (hex_encode nonce) input.wallet
                        input.key_type network)
                      (λ e t q. tt) (λ a t q. q))
                    (λ e t q. tt)
                    λ a t (found, gone).
                      Ends-either (λ e. e) (verified ext ed p256 reader origins input nonce) _
                        (λ e q. tt)
                        λ b proved.
                          Ends-on (StoredFor ext issuer life input.wallet) auth_error Stores.tables
                            (λ n u. record u { tables = n }) _
                            (issue_wallet_token_pair-Ends ext issuer life t.tables draw input.wallet
                              input.key_type)
                            (λ e u q. tt)
                            (λ tokens u q. (
                              network,
                              nonce,
                              not_refused _ shape,
                              resolved,
                              not_empty-some (base64_url_decode input.nonce_b64url) decoded,
                              found,
                              proved,
                              gone,
                              q,
                            ))

  -- When a sign-in answers with tokens, the wallet had the shape of its key type, the request's network
  -- was accepted, a nonce was stored for exactly this wallet, key type and network and is gone now, the
  -- key of the wallet verified the proof over that nonce, and the refresh token is stored unrevoked
  -- under the wallet.
  pub sign_in-SignedIn :
      (w : World (Stores redis)) (now : ℕ) (draw : Draw) (input : WalletSignInInput)
      {tokens : Text × Text}
      → (sign_in ext redis issuer life ed p256 reader origins deployed now draw input w).0
        ≡ ok tokens
      → SignedIn w.store now input tokens
          (sign_in ext redis issuer life ed p256 reader origins deployed now draw input w).1.store
  sign_in-SignedIn w now draw input h = rw h at (Ends-run w (sign_in-Ends w.store now draw input))

  -- Where the account's address decodes to a key, a proof with an ed25519 key is that key's signature
  -- of the nonce.
  pub verified-ed25519 :
      (input : WalletSignInInput) (nonce : List ℕ)
      → input.key_type ≡ key_type_ed25519
      → verified ext ed p256 reader origins input nonce ≡ ok tt
      → (key : List ℕ) × (ed.decode_account input.wallet ≡ some key)
        × (length key ≡ 32)
        × (ed.verify key nonce input.signature ≡ true)
  unfolding verified verify_ed25519
  verified-ed25519 input nonce kind h = ed_proof (rw (kind, verified) at h)
    where
      both :
          (b c : Bool)
          → (if not b
              then err bad_wallet_address
              else if c
              then ok tt
              else err (signature_error bad_signature))
            ≡ ok tt
          → (b ≡ true) × (c ≡ true)
      both b c e = ground (arith, e)

      ed_proof :
          verify_ed25519 ed input.wallet nonce input.signature ≡ ok tt
          → (key : List ℕ) × (ed.decode_account input.wallet ≡ some key)
            × (length key ≡ 32)
            × (ed.verify key nonce input.signature ≡ true)
      ed_proof e = elim (Option-cases (ed.decode_account input.wallet)) [
        | inl unknown ↦ absurd (ground (arith, rw (verify_ed25519, unknown) at e))
        | inr (key, decoded) ↦
            let (size, right) =
              both (length key == 32) (ed.verify key nonce input.signature)
                (rw (verify_ed25519, decoded) at e) in
            (key, decoded, (==_iff (length key) 32).0 size, right)
      ]
