-- ===== src/Otp.antt =====
-- One-time passwords for an e-mail address: internal/service/otp.go over Redis. A pipeline is one
-- call, which fails as a whole. Times are in milliseconds.
use latch_api.Common.{none, ◌==◌, Option, Bool, ◌++◌, false, some, if◌then◌else◌, ltb, true}
use latch_api.Common.Database.{Action, pure, query, ask, exec, or_fail, ◌>>=◌, ◌>>◌}
use latch_api.Amount.{pad_left}
use latch_api.Redis.{Redis}
use latch_api.Amount.Digits.{format_nat}
use latch_api.Common.Text.{Text, to_lower, codes, text_eq}
use Prim.Native.Nat.{ℕ, ◌*◌, ◌/◌, suc}
pub mod Guesses
pub mod Attempts

abbrev pub otp_ttl : ℕ
otp_ttl = 10 * 60 * 1000

abbrev pub otp_max_attempts : ℕ
otp_max_attempts = 5

abbrev pub otp_length : ℕ
otp_length = 6

pub data OtpError : Type 0 where
  no_random_number internal : OtpError

-- `NormalizeEmail`
abbrev pub normalize_email : Text → Text
normalize_email email = to_lower email

-- `otpKey`
unfoldable pub otp_key : Text → Text
otp_key email = codes "otp:" ++ normalize_email email

-- `otpAttemptsKey`
unfoldable pub otp_attempts_key : Text → Text
otp_attempts_key email = codes "otp:attempts:" ++ normalize_email email

-- `generateNumericOTP` on the number below 10 ^ length that it draws: `%0*d`.
unfoldable pub generate_numeric_otp : ℕ → ℕ → Text
unfolding format_nat
generate_numeric_otp len n = pad_left len (format_nat n)

module _ (redis : Redis) where
  abbrev pub OtpAction : Type 0 → Type 0
  OtpAction = Action redis.State OtpError

  -- `Generate`
  unfoldable pub generate : ℕ → Option ℕ → Text → OtpAction Text
  unfolding generate_numeric_otp otp_key otp_attempts_key
  generate now random email = do
    n ← or_fail no_random_number random
    exec internal (λ s.
        redis.del (otp_attempts_key email)
          (redis.set now (otp_key email) (generate_numeric_otp otp_length n) otp_ttl s))
    pure (generate_numeric_otp otp_length n)

  -- INCR and EXPIRE of the attempts, with the new count.
  unfoldable pub count_attempt : ℕ → Text → redis.State → ℕ × redis.State
  unfolding otp_attempts_key
  count_attempt now email s =
      let k = otp_attempts_key email in
      (suc (redis.counter now k s), redis.expire now k (otp_ttl / 1000) (redis.incr now k s))

  unfoldable pub delete_otp : Text → redis.State → redis.State
  unfolding otp_key otp_attempts_key
  delete_otp email s = redis.del (otp_attempts_key email) (redis.del (otp_key email) s)

  -- `Verify` behind the look-up of the stored password.
  unfoldable pub verify_stored : ℕ → Text → Text → Option Text → OtpAction Bool
  unfolding count_attempt delete_otp text_eq
  verify_stored now email given none = pure false
  verify_stored now email given (some stored) = do
    attempts ← query internal (count_attempt now email)
    if ltb otp_max_attempts attempts
        then exec internal (delete_otp email) >> pure false
        else if text_eq stored given
        then exec internal (delete_otp email) >> pure true
        else pure false

  -- `Verify`
  unfoldable pub verify : ℕ → Text → Text → OtpAction Bool
  unfolding verify_stored otp_key
  verify now email given = do
    stored ← ask internal (redis.get now (otp_key email))
    verify_stored now email given stored
