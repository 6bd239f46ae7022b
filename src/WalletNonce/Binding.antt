-- ===== src/WalletNonce/Binding.antt =====
-- A nonce is bound to the wallet, key type and network that it was issued for.
use mathlib.Core.Path.{subst}
use latch_api.WalletNonce.Held.{IsHeld, NonceCall, DrawsOther, serve_nonces, serve_nonces-IsHeld}
use latch_api.WalletNonce.SingleUse.{consume_nonce-Ends}
use latch_api.Common.Find.{row_of, not_found}
use latch_api.Common.Ends.{Ends, Ends-or_fail, Ends-exec, Ends-pure, Ends-run}
use latch_api.Common.Database.{World}
use latch_api.WalletNonce.{
  bind, Redis, issue_with_ttl, NonceError, wallet_nonce_prefix, consume_nonce, no_random_bytes,
}
use latch_api.Common.{
  [], All, ◌∷◌, ◌++◌, ◌≢◌, ◌≡◌, sym, ap, ◌∙◌, refl, Result, Option, ok, List, some, none, err, ◌<◌,
  ◌+◌, ltb, arith, ◌⊎◌, Bool-cases, inl, inr,
}
use latch_api.Common.Text.{Text}
use Prim.Native.Nat.{ℕ}

-- No separator in a text.
abbrev pub NoBar : Text → Type 0
NoBar = All (λ c. c ≢ b'|')

tail_of : {a b : ℕ} {s t : Text} → a ∷ s ≡ b ∷ t → (a ≡ b) × (s ≡ t)
tail_of h = (cc, cc)

cut_at_bar :
    (s t u v : Text) → NoBar s → NoBar t → s ++ b'|' ∷ u ≡ t ++ b'|' ∷ v → (s ≡ t) × (u ≡ v)
cut_at_bar [] [] u v hs ht h = (refl, (tail_of h).1)
cut_at_bar [] (c ∷ t) u v hs (hc, ht) h = absurd (hc (sym (tail_of h).0))
cut_at_bar (c ∷ s) [] u v (hc, hs) ht h = absurd (hc (tail_of h).0)
cut_at_bar (c ∷ s) (d ∷ t) u v (hc, hs) (hd, ht) h =
    let (first, rest) = tail_of h in
    let (same, after) = cut_at_bar s t u v hs ht rest in
    (ap (λ x. x ∷ s) first ∙ ap (λ x. d ∷ x) same, after)

-- Parts without the separator are read back from what they are bound into.
pub bind-injective :
    (w k n w' k' n' : Text)
    → NoBar w
    → NoBar w'
    → NoBar k
    → NoBar k'
    → bind w k n ≡ bind w' k' n'
    → (w ≡ w') × (k ≡ k') × (n ≡ n')
bind-injective w k n w' k' n' hw hw' hk hk' h =
    let (wallets, rest) = cut_at_bar w w' (k ++ b'|' ∷ n) (k' ++ b'|' ∷ n') hw hw' h in
    let (key_types, networks) = cut_at_bar k k' n n' hk hk' rest in (wallets, key_types, networks)

module _ (redis : Redis) where
  -- What an `IssueWithTTL` has answered and stored.
  abbrev Issued : redis.State → ℕ → Text → ℕ → Result NonceError (Text × ℕ) → redis.State → Type 0
  Issued s now bound ttl (ok (x, lifetime)) t =
      (t ≡ redis.set now (wallet_nonce_prefix ++ x) bound ttl s) × (lifetime ≡ ttl)
  Issued s now bound ttl (err e) t = Unit {0}

  issue_with_ttl-Ends :
      (s : redis.State) (now : ℕ) (random : Option (List ℕ)) (w k n : Text) (ttl : ℕ)
      → Ends s (Issued s now (bind w k n) ttl) (issue_with_ttl redis now random w k n ttl)
  unfolding issue_with_ttl
  issue_with_ttl-Ends s now random w k n ttl =
      Ends-or_fail no_random_bytes random _ (λ _. tt)
        λ raw drawn. Ends-exec _ _ _ tt (Ends-pure _ (refl, refl))

  -- What is found of a nonce at a time: nothing, or what it is bound to, and that only before the end of
  -- its lifetime.
  abbrev FoundUntil : Text → ℕ → ℕ → Option Text → Type 0
  FoundUntil bound end u found = (found ≡ none) ⊎ ((found ≡ some bound) × (u < end))

  set-IsHeld :
      (now : ℕ) (x bound : Text) (ttl : ℕ) (s : redis.State)
      → 0 < ttl
      → IsHeld redis
          (FoundUntil bound (now + ttl))
          x
          (redis.set now (wallet_nonce_prefix ++ x) bound ttl s)
  set-IsHeld now x bound ttl s positive u = elim (Bool-cases (ltb u (now + ttl))) [
    | inl in_time ↦ inr (
      redis.get-set now u (wallet_nonce_prefix ++ x) bound ttl s positive ∙ rw in_time refl,
      ground (arith, in_time),
    )
    | inr over ↦
        inl (redis.get-set now u (wallet_nonce_prefix ++ x) bound ttl s positive ∙ rw over refl)
  ]

  -- A nonce with a positive lifetime that is consumed at any time after its issue was issued for that
  -- wallet, key type and network, and its lifetime has not passed; whatever else is issued and consumed
  -- in between, unless the same random bytes are drawn again, and whichever calls of Redis fail. The
  -- wallets and key types have no separator in them.
  pub consume_nonce-issue_with_ttl :
      (cs : List NonceCall) (v : World redis.State) (now later : ℕ) (random : Option (List ℕ))
      (w k n w' k' n' : Text) (ttl : ℕ) {x : Text} {lifetime : ℕ}
      → 0 < ttl
      → NoBar w
      → NoBar w'
      → NoBar k
      → NoBar k'
      → (issue_with_ttl redis now random w k n ttl v).0 ≡ ok (x, lifetime)
      → All (DrawsOther x) cs
      → (consume_nonce redis later x w' k' n'
          (serve_nonces redis cs (issue_with_ttl redis now random w k n ttl v).1)).0
        ≡ ok tt
      → (w ≡ w') × (k ≡ k') × (n ≡ n') × (later < now + ttl)
  consume_nonce-issue_with_ttl cs v now later random w k n w' k' n' ttl {x} positive hw hw' hk hk'
        issued others accepted =
      let t = (issue_with_ttl redis now random w k n ttl v).1 in
      let u = serve_nonces redis cs t in
      let (left, _) =
        rw issued at (Ends-run v (issue_with_ttl-Ends v.store now random w k n ttl)) in
      let (found, _) =
        rw accepted at (Ends-run u (consume_nonce-Ends redis u.store later x w' k' n')) in
      let held =
        serve_nonces-IsHeld redis (FoundUntil (bind w k n) (now + ttl)) (λ y. inl refl) cs t x
          others
          (subst (IsHeld redis (FoundUntil (bind w k n) (now + ttl)) x) (sym left)
            (set-IsHeld now x (bind w k n) ttl v.store positive)) in
      elim (held later) [
        | inl gone ↦ absurd (not_found (sym gone ∙ found))
        | inr (there, in_time) ↦
            let (wallets, key_types, networks) =
              bind-injective w k n w' k' n' hw hw' hk hk' (row_of (sym there ∙ found)) in
            (wallets, key_types, networks, in_time)
      ]
