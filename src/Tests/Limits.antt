-- ===== src/Tests/Limits.antt =====
-- A run of the rate limiter.
use latch_api.Common.{false, ◌∷◌, [], ◌≡◌, true, refl, arith}
use latch_api.Common.Text.{codes, text_eq}
use latch_api.Tests.Memory.{memory, nothing}
use latch_api.RateLimit.Window.{passes_all, verdicts, passes_all-verdicts}
use latch_api.Common.Database.{World}
use latch_api.RateLimit.{RateLimiter, check, increment, open_window}

abbrev two_a_second : RateLimiter
two_a_second = record { limit = 2; window = 1 }

abbrev world : World memory.State
world = record { store = λ k. nothing; calls = 0; outage = λ n. false }

passes_all-verdicts_example :
    passes_all memory two_a_second (codes "rl:ip:1") (10 ∷ 20 ∷ 30 ∷ 900 ∷ []) world
    ≡ verdicts 2 1 (10 ∷ 20 ∷ 30 ∷ 900 ∷ [])
passes_all-verdicts_example =
    passes_all-verdicts memory two_a_second (codes "rl:ip:1") 10 (20 ∷ 30 ∷ 900 ∷ []) world
      (λ n. refl) refl
      (omega arith, omega arith, (omega arith, omega arith, (omega arith, omega arith, tt)))

-- The window is over: the next request passes again.
next_window :
    passes_all memory two_a_second (codes "rl:ip:1") (10 ∷ 20 ∷ 30 ∷ 1010 ∷ []) world
    ≡ true ∷ true ∷ false ∷ true ∷ []
unfolding passes_all check increment open_window text_eq
next_window = refl
