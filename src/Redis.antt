-- ===== src/Redis.antt =====
-- The commands of github.com/redis/go-redis/v9 that the services call, with what the documentation of
-- Redis says of them. Times are in milliseconds; a command is given the time at which
-- the server runs it. The lifetime of SET is in milliseconds, and 0 is none; that of EXPIRE is in seconds. A key holds a text or a counter.
use latch_api.Common.{ℕ, suc, ◌+◌, ◌*◌, ◌≤◌, ◌<◌, ◌≡◌, ◌≢◌, Option, none, some, ltb, if◌then◌else◌}
use latch_api.Common.Text.{Text}

pub record Redis : Type 1 where
  pub State : Type 0
  -- GET, and what INCR would add one to.
  pub get : ℕ → Text → State → Option Text
  pub counter : ℕ → Text → State → ℕ
  -- SET key value with a lifetime; DEL; INCR; EXPIRE key seconds.
  pub set : ℕ → Text → Text → ℕ → State → State
  pub del : Text → State → State
  pub incr : ℕ → Text → State → State
  pub expire : ℕ → Text → ℕ → State → State
  -- A key with a lifetime is gone when it has passed, and stays away.
  pub get-set :
      (t u : ℕ) (k v : Text) (ttl : ℕ) (s : State)
      → 0 < ttl
      → get u k (set t k v ttl s) ≡ (if ltb u (t + ttl) then some v else none)
  pub get-later : (t u : ℕ) (k : Text) (s : State) → t ≤ u → get t k s ≡ none → get u k s ≡ none
  pub get-del : (u : ℕ) (k : Text) (s : State) → get u k (del k s) ≡ none
  pub counter-incr : (t : ℕ) (k : Text) (s : State) → counter t k (incr t k s) ≡ suc (counter t k s)
  -- A counter that is still there later is still there later with one more.
  pub counter-incr_later :
      (t u : ℕ) (k : Text) (s : State)
      → t ≤ u
      → 0 < counter t k s
      → counter u k s ≡ counter t k s
      → counter u k (incr t k s) ≡ suc (counter t k s)
  pub counter-expire :
      (t u : ℕ) (k : Text) (seconds : ℕ) (s : State)
      → t ≤ u
      → counter u k (expire t k seconds s)
        ≡ (if ltb u (t + seconds * 1000) then counter t k s else 0)
  -- A command leaves the other keys alone.
  pub get-set_other :
      (t u : ℕ) (j k v : Text) (ttl : ℕ) (s : State) → j ≢ k → get u j (set t k v ttl s) ≡ get u j s
  pub get-del_other : (u : ℕ) (j k : Text) (s : State) → j ≢ k → get u j (del k s) ≡ get u j s
  pub get-incr_other : (t u : ℕ) (j k : Text) (s : State) → j ≢ k → get u j (incr t k s) ≡ get u j s
  pub get-expire_other :
      (t u : ℕ) (j k : Text) (seconds : ℕ) (s : State)
      → j ≢ k
      → get u j (expire t k seconds s) ≡ get u j s
