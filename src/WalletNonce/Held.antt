-- ===== src/WalletNonce/Held.antt =====
-- What the requests for nonces do to one stored nonce: it stays as it is, or it is gone.
use mathlib.Core.Bool.{true≢false}
use latch_api.Common.Text.{text_eq_iff}
use mathlib.Core.Path.{subst}
use latch_api.Common.{some, ◌≡◌, none, [], ◌≢◌, Bool-cases, All, inl, sym, ap, ◌∙◌, inr}
use latch_api.Common.Database.{
  World, Keeps, Keeps-bind, Keeps-exec, Keeps-query, Keeps-pure, Keeps-or_fail, Keeps-fail_if,
}
use latch_api.WalletNonce.{
  wallet_nonce_prefix, get_del, issue_with_ttl, bind, consume_nonce, internal, ℕ, Text, List,
  Option, ◌++◌, ◌∷◌, hex_encode, text_eq,
}
use latch_api.Redis.{Redis}

pub data NonceCall : Type 0 where
  issue_call : ℕ → Option (List ℕ) → Text → Text → Text → ℕ → NonceCall
  consume_call : ℕ → Text → Text → Text → Text → NonceCall

-- The call does not draw the bytes of this nonce.
abbrev pub DrawsOther : Text → NonceCall → Type 0
DrawsOther nonce (issue_call now none w k n ttl) = Unit {0}
DrawsOther nonce (issue_call now (some raw) w k n ttl) = hex_encode raw ≢ nonce
DrawsOther nonce (consume_call now x w k n) = Unit {0}

drop_prefix : (q s t : Text) → q ++ s ≡ q ++ t → s ≡ t
drop_prefix [] s t h = h
drop_prefix (c ∷ q) s t h = drop_prefix q s t (cc)

module _ (redis : Redis) where
  -- What is found of the nonce at each time is as `Q` says.
  abbrev pub IsHeld : (ℕ → Option Text → Type 0) → Text → redis.State → Type 0
  IsHeld Q nonce s = (u : ℕ) → Q u (redis.get u (wallet_nonce_prefix ++ nonce) s)

  -- The state after one request.
  unfoldable pub serve_nonce : NonceCall → World redis.State → World redis.State
  serve_nonce (issue_call now random w k n ttl) v = (issue_with_ttl redis now random w k n ttl v).1
  serve_nonce (consume_call now x w k n) v = (consume_nonce redis now x w k n v).1

  unfoldable pub serve_nonces : List NonceCall → World redis.State → World redis.State
  unfolding serve_nonce
  serve_nonces [] v = v
  serve_nonces (c ∷ cs) v = serve_nonces cs (serve_nonce c v)

  -- `Q` holds of a nonce that is not found.
  module _ (Q : ℕ → Option Text → Type 0) (absent : (u : ℕ) → Q u none) where
    get_del-IsHeld :
        (nonce : Text) (now : ℕ) (x : Text) (s : redis.State)
        → IsHeld Q nonce s
        → IsHeld Q nonce (get_del redis now (wallet_nonce_prefix ++ x) s).1
    unfolding get_del
    get_del-IsHeld nonce now x s h u =
        elim (Bool-cases (text_eq (wallet_nonce_prefix ++ nonce) (wallet_nonce_prefix ++ x))) [
          | inl same ↦
              subst (Q u)
                (sym (
                  ap (λ k. redis.get u (wallet_nonce_prefix ++ nonce) (redis.del k s))
                    (sym (
                      (text_eq_iff (wallet_nonce_prefix ++ nonce) (wallet_nonce_prefix ++ x)).0
                        same))
                  ∙ redis.get-del u (wallet_nonce_prefix ++ nonce) s))
                (absent u)
          | inr other ↦
              subst (Q u)
                (sym (
                  redis.get-del_other u (wallet_nonce_prefix ++ nonce) (wallet_nonce_prefix ++ x) s
                    (λ e. true≢false (sym ((text_eq_iff _ _).1 e) ∙ other))))
                (h u)
        ]

    set-IsHeld :
        (nonce : Text) (now : ℕ) (raw : List ℕ) (v : Text) (ttl : ℕ) (s : redis.State)
        → hex_encode raw ≢ nonce
        → IsHeld Q nonce s
        → IsHeld Q nonce (redis.set now (wallet_nonce_prefix ++ hex_encode raw) v ttl s)
    set-IsHeld nonce now raw v ttl s other h u =
        subst (Q u)
          (sym (
            redis.get-set_other now u (wallet_nonce_prefix ++ nonce)
              (wallet_nonce_prefix ++ hex_encode raw) v ttl s
              (λ e. other (sym (drop_prefix wallet_nonce_prefix nonce (hex_encode raw) e)))))
          (h u)

    issue_with_ttl-Keeps :
        (nonce : Text) (now : ℕ) (random : Option (List ℕ)) (w k n : Text) (ttl : ℕ)
        → DrawsOther nonce (issue_call now random w k n ttl)
        → Keeps (IsHeld Q nonce) (issue_with_ttl redis now random w k n ttl)
    unfolding issue_with_ttl
    issue_with_ttl-Keeps nonce now none w k n ttl other = record { run = λ v h. h }
    issue_with_ttl-Keeps nonce now (some raw) w k n ttl other =
        Keeps-bind (IsHeld Q nonce) _ _
          (Keeps-exec (IsHeld Q nonce) internal
            (redis.set now (wallet_nonce_prefix ++ hex_encode raw) (bind w k n) ttl)
            (λ s h. set-IsHeld nonce now raw (bind w k n) ttl s other h))
          λ u. Keeps-pure (IsHeld Q nonce) _

    consume_nonce-Keeps :
        (nonce : Text) (now : ℕ) (x w k n : Text)
        → Keeps (IsHeld Q nonce) (consume_nonce redis now x w k n)
    unfolding consume_nonce
    consume_nonce-Keeps nonce now x w k n =
        Keeps-bind (IsHeld Q nonce) _ _
          (Keeps-query (IsHeld Q nonce) internal (get_del redis now (wallet_nonce_prefix ++ x))
            (λ s h. get_del-IsHeld nonce now x s h))
          λ found. search (Keeps-pure, Keeps-or_fail, Keeps-fail_if, Keeps-bind) depth 8

    pub serve_nonces-IsHeld :
        (cs : List NonceCall) (v : World redis.State) (nonce : Text)
        → All (DrawsOther nonce) cs
        → IsHeld Q nonce v.store
        → IsHeld Q nonce (serve_nonces cs v).store
    unfolding serve_nonces serve_nonce
    serve_nonces-IsHeld [] v nonce _ h = h
    serve_nonces-IsHeld (issue_call now random w k n ttl ∷ cs) v nonce (other, others) h =
        serve_nonces-IsHeld cs _ nonce others
          ((issue_with_ttl-Keeps nonce now random w k n ttl other).run v h)
    serve_nonces-IsHeld (consume_call now x w k n ∷ cs) v nonce (other, others) h =
        serve_nonces-IsHeld cs _ nonce others ((consume_nonce-Keeps nonce now x w k n).run v h)
