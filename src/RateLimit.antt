-- ===== src/RateLimit.antt =====
-- The fixed-window limits on requests: internal/middleware/ratelimit.go over Redis. The client's
-- address and the authenticated subject are given; times are in milliseconds, windows in seconds.
pub mod Window
use latch_api.Common.{Bool, Result, if◌then◌else◌, not, ◌==◌, leb, ok, err, true, ◌++◌}
use latch_api.Redis.{Redis}
use latch_api.Common.Text.{Text, is_empty, codes}
use Prim.Native.Nat.{ℕ, suc}
use latch_api.Common.Database.{World, Action, pure, query, exec, ◌>>=◌, ◌>>◌}

pub data LimitError : Type 0 where
  internal : LimitError

-- The window is in whole seconds, as in every limiter that cmd/server/router.go builds.
pub record RateLimiter : Type 0 where
  pub limit : ℕ
  pub window : ℕ

-- `subjectRateLimitKey`
unfoldable pub subject_rate_limit_key : Text → Text → Text
subject_rate_limit_key sub client_ip =
    if not (is_empty sub) then codes "rl:sub:" ++ sub else codes "rl:ip:" ++ client_ip

-- `sessionActionRateLimitKey`
unfoldable pub session_action_rate_limit_key : Text → Text → Text → Text
session_action_rate_limit_key action sub client_ip =
    if not (is_empty sub)
    then codes "rl:sess-action:" ++ action ++ codes ":" ++ sub
    else codes "rl:ip-action:" ++ action ++ codes ":" ++ client_ip

-- `subjectActionRateLimitKey`
unfoldable pub subject_action_rate_limit_key : Text → Text → Text → Text
subject_action_rate_limit_key action sub client_ip =
    if not (is_empty sub)
    then codes "rl:sub-action:" ++ action ++ codes ":" ++ sub
    else codes "rl:ip-action:" ++ action ++ codes ":" ++ client_ip

module _ (redis : Redis) (rl : RateLimiter) where
  abbrev pub LimitAction : Type 0 → Type 0
  LimitAction = Action redis.State LimitError

  -- INCR, with the new count.
  unfoldable pub increment : ℕ → Text → redis.State → ℕ × redis.State
  increment now key s = (suc (redis.counter now key s), redis.incr now key s)

  -- The lifetime is set when the window opens.
  unfoldable pub open_window : ℕ → Text → ℕ → LimitAction (Unit {0})
  open_window now key count =
      if count == 1 then exec internal (redis.expire now key rl.window) else pure tt

  -- `check`
  unfoldable pub check : ℕ → Text → LimitAction Bool
  unfolding increment open_window
  check now key = do
    count ← query internal (increment now key)
    open_window now key count
    pure (leb count rl.limit)

  -- Whether the handler of `newRateLimiter` lets a request pass: it does where Redis fails.
  abbrev pub passes : Result LimitError Bool → Bool
  passes (ok allowed) = allowed
  passes (err e) = true
