-- ===== src/WalletNonce/SingleUse.antt =====
-- A nonce is consumed at most once, and only for what it was issued for.
use latch_api.Common.Find.{not_found}
use latch_api.Common.Ends.{Ends, Ends-query, Ends-or_fail, Ends-check, Ends-pure, Ends-run}
use latch_api.Common.Database.{World}
use latch_api.WalletNonce.{
  wallet_nonce_prefix, get_del, NonceError, bind, nonce_unknown, nonce_mismatch, consume_nonce,
  internal,
}
use latch_api.Common.{
  some, ◌++◌, List, Result, ◌≡◌, All, is_ok, none, ok, Bool, true, sym, not, false, ap, ◌∙◌, err,
  refl, is_ok-false,
}
use latch_api.WalletNonce.Held.{NonceCall, DrawsOther, IsHeld, serve_nonces, serve_nonces-IsHeld}
use latch_api.Redis.{Redis}
use latch_api.Common.Text.{Text, text_eq, text_eq_iff}
use Prim.Native.Nat.{ℕ}
use mathlib.Core.Bool.{true≢false}

module _ (redis : Redis) where
  -- Nobody finds the nonce, at any time.
  abbrev pub IsAbsent : Text → redis.State → Type 0
  IsAbsent nonce s = IsHeld redis (λ u found. found ≡ none) nonce s

  -- What a `Consume` has found and left.
  abbrev pub Consumed :
      redis.State
      → ℕ
      → Text
      → Text
      → Text
      → Text
      → Result NonceError (Unit {0})
      → redis.State
      → Type 0
  Consumed s now x w k n (ok a) t =
      (redis.get now (wallet_nonce_prefix ++ x) s ≡ some (bind w k n)) × IsAbsent x t
  Consumed s now x w k n (err e) t = Unit {0}

  pub consume_nonce-Ends :
      (s : redis.State) (now : ℕ) (x w k n : Text)
      → Ends s (Consumed s now x w k n) (consume_nonce redis now x w k n)
  unfolding consume_nonce get_del
  consume_nonce-Ends s now x w k n =
      Ends-query internal (get_del redis now (wallet_nonce_prefix ++ x)) _ tt (
        Ends-or_fail nonce_unknown (redis.get now (wallet_nonce_prefix ++ x) s) _ (λ _. tt)
          λ stored found.
            Ends-check (not (text_eq stored (bind w k n))) nonce_mismatch _ (λ _. tt)
              λ same. Ends-pure tt (
                found ∙ ap (λ v. some v) ((text_eq_iff stored (bind w k n)).0 (not_not same)),
                λ u. redis.get-del u (wallet_nonce_prefix ++ x) s,
              ))
    where
      not_not : {b : Bool} → not b ≡ false → b ≡ true
      not_not {b = true} h = refl
      not_not {b = false} h = absurd (true≢false h)

  -- A nonce that was consumed is refused from then on, for any wallet, key type and network, unless
  -- the same random bytes are drawn again; whatever else is issued and consumed, and whichever calls
  -- of Redis fail.
  pub consume_nonce-nonce_unknown :
      (cs : List NonceCall) (v : World redis.State) (now later : ℕ) (x w k n w' k' n' : Text)
      → is_ok (consume_nonce redis now x w k n v).0 ≡ true
      → All (DrawsOther x) cs
      → is_ok
          (consume_nonce redis later x w' k' n'
            (serve_nonces redis cs (consume_nonce redis now x w k n v).1)).0
        ≡ false
  consume_nonce-nonce_unknown cs v now later x w k n w' k' n' h others =
      let t = (consume_nonce redis now x w k n v).1 in
      let (_, gone) =
        known (consume_nonce redis now x w k n v).0 t.store h
          (Ends-run v (consume_nonce-Ends v.store now x w k n)) in
      let u = serve_nonces redis cs t in
      is_ok-false (consume_nonce redis later x w' k' n' u).0 λ a e.
        let (found, _) = rw e at (Ends-run u (consume_nonce-Ends u.store later x w' k' n')) in
        not_found (
          sym (
            serve_nonces-IsHeld redis (λ u found. found ≡ none) (λ u. refl) cs t x others gone
              later)
          ∙ found)
    where
      known :
          (r : Result NonceError (Unit {0})) (t : redis.State)
          → is_ok r ≡ true
          → Consumed v.store now x w k n r t
          → (redis.get now (wallet_nonce_prefix ++ x) v.store ≡ some (bind w k n)) × IsAbsent x t
      known (ok a) t h c = c
      known (err e) t h c = absurd (true≢false (sym h))
