-- ===== src/RateLimit/Window.antt =====
-- The requests of one window.
use latch_api.RateLimit.{RateLimiter, Text, check, World, passes, increment, open_window}
use latch_api.Common.{
  List, ◌∷◌, Bool, leb, ◌≤◌, ◌≡◌, ◌<◌, false, [], ok, arith, ◌==◌, ◌+◌, ◌*◌, refl, ap,
  if◌then◌else◌, ◌∙◌, ltb, sym,
}
use latch_api.Redis.{Redis}
use Prim.Native.Nat.{ℕ, suc}

-- The times come one after the other, and before the end.
abbrev pub Within : ℕ → ℕ → List ℕ → Type 0
Within now end [] = Unit {0}
Within now end (t ∷ ts) = (now ≤ t) × (t < end) × Within t end ts

-- The verdicts on the i-th request and those behind it.
abbrev pub verdicts : ℕ → ℕ → List ℕ → List Bool
verdicts limit i [] = []
verdicts limit i (t ∷ ts) = leb i limit ∷ verdicts limit (suc i) ts

module _ (redis : Redis) (rl : RateLimiter) (key : Text) where
  -- What the handler lets pass, request by request.
  unfoldable pub passes_all : List ℕ → World redis.State → List Bool
  unfolding check
  passes_all [] w = []
  passes_all (t ∷ ts) w =
      passes redis rl (check redis rl t key w).0 ∷ passes_all ts (check redis rl t key w).1

  check_first :
      (t : ℕ) (w : World redis.State)
      → ((n : ℕ) → w.outage n ≡ false)
      → redis.counter t key w.store ≡ 0
      → ((check redis rl t key w).0 ≡ ok (leb 1 rl.limit))
        × ((check redis rl t key w).1.store
            ≡ redis.expire t key rl.window (redis.incr t key w.store))
        × ((n : ℕ) → (check redis rl t key w).1.outage n ≡ false)
  unfolding check increment open_window
  check_first t w up zero_count = rw (up w.calls, zero_count, up (suc w.calls)) (refl, refl, up)

  not_one : (i : ℕ) → 0 < i → (suc i == 1) ≡ false
  not_one i h = ground (arith, h)

  check_next :
      (t i : ℕ) (w : World redis.State)
      → ((n : ℕ) → w.outage n ≡ false)
      → 0 < i
      → redis.counter t key w.store ≡ i
      → ((check redis rl t key w).0 ≡ ok (leb (suc i) rl.limit))
        × ((check redis rl t key w).1.store ≡ redis.incr t key w.store)
        × ((n : ℕ) → (check redis rl t key w).1.outage n ≡ false)
  unfolding check increment open_window
  check_next t i w up positive counted =
      rw (up w.calls, counted, not_one i positive) (refl, refl, up)

  later_requests :
      (ts : List ℕ) (i now end : ℕ) (w : World redis.State)
      → ((n : ℕ) → w.outage n ≡ false)
      → 0 < i
      → Within now end ts
      → ((u : ℕ) → now ≤ u → u < end → redis.counter u key w.store ≡ i)
      → passes_all ts w ≡ verdicts rl.limit (suc i) ts
  unfolding passes_all
  later_requests [] i now end w up positive ordered counted = refl
  later_requests (t ∷ ts) i now end w up positive (first, in_time, ordered) counted =
      let here = counted t first in_time in
      let (verdict, left, up') = check_next t i w up positive here in
      let rest =
        later_requests ts (suc i) t end (check redis rl t key w).1 up' (omega arith) ordered
          (λ u after before.
            ap (redis.counter u key) left
            ∙ redis.counter-incr_later t u key w.store after (rw here positive)
                (counted u (omega (arith, first, after)) before ∙ sym here)
            ∙ ap suc here) in
      ap (λ r. passes redis rl r ∷ passes_all ts (check redis rl t key w).1) verdict
      ∙ ap (λ vs. leb (suc i) rl.limit ∷ vs) rest

  -- Of the requests of one window, from the one that opens it and while Redis answers, exactly the first
  -- ones up to the limit pass.
  pub passes_all-verdicts :
      (t : ℕ) (ts : List ℕ) (w : World redis.State)
      → ((n : ℕ) → w.outage n ≡ false)
      → redis.counter t key w.store ≡ 0
      → Within t (t + rl.window * 1000) ts
      → passes_all (t ∷ ts) w ≡ verdicts rl.limit 1 (t ∷ ts)
  unfolding passes_all
  passes_all-verdicts t ts w up zero_count ordered =
      let (verdict, left, up') = check_first t w up zero_count in
      let rest =
        later_requests ts 1 t (t + rl.window * 1000) (check redis rl t key w).1 up' (omega arith)
          ordered
          (λ u after before.
            ap (redis.counter u key) left
            ∙ redis.counter-expire t u key rl.window (redis.incr t key w.store) after
            ∙ still u before
            ∙ redis.counter-incr t key w.store
            ∙ ap suc zero_count) in
      ap (λ r. passes redis rl r ∷ passes_all ts (check redis rl t key w).1) verdict
      ∙ ap (λ vs. leb 1 rl.limit ∷ vs) rest
    where
      still :
          (u : ℕ)
          → u < t + rl.window * 1000
          → (if ltb u (t + rl.window * 1000)
              then redis.counter t key (redis.incr t key w.store)
              else 0)
            ≡ redis.counter t key (redis.incr t key w.store)
      still u before = ground (arith, before)
