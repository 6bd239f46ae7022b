-- ===== src/Tests/Otp.antt =====
-- Runs of the one-time passwords.
use latch_api.Amount.Digits.{format_nat}
use latch_api.Tests.Memory.{memory, nothing}
use latch_api.Otp.Attempts.{answered, guess_all, Guess, verify-limit, verify-single_use}
use latch_api.Otp.{
  generate, verify, generate_numeric_otp, verify_stored, count_attempt, delete_otp, otp_key,
  otp_attempts_key,
}
use latch_api.Common.{List, ◌∷◌, some, ◌==◌, [], ◌≡◌, ◌≢◌, ok, true, refl, arith, ◌≤◌}
use latch_api.Common.Text.{Text, codes, text_eq, lower_byte}
use latch_api.Common.Database.{World}
use Prim.Native.Nat.{ℕ}

abbrev world : World memory.State
world = record { store = λ k. nothing; calls = 0; outage = λ n. n == 7 }

abbrev email : Text
email = codes "Ann@x.org"

abbrev guess : ℕ → Text → Guess
guess t s = record { time = t; given = s }

abbrev wrong : List Guess
wrong =
    guess 10 (codes "000000")
    ∷ guess 20 (codes "000001")
    ∷ guess 30 (codes "000002")
    ∷ guess 40 (codes "000003")
    ∷ guess 50 (codes "000004")
    ∷ guess 60 (codes "000005")
    ∷ []

generates : (generate memory 5 (some 4711) email world).0 ≡ ok (codes "004711")
unfolding generate generate_numeric_otp format_nat
generates = refl

five_answered : 5 ≤ answered memory email wrong (generate memory 5 (some 4711) email world).1
unfolding answered verify verify_stored count_attempt delete_otp text_eq generate
    generate_numeric_otp format_nat otp_key otp_attempts_key lower_byte
five_answered = omega arith

verify-limit_example :
    (verify memory 70 email
      (codes "004711")
      (guess_all memory email wrong (generate memory 5 (some 4711) email world).1)).0
    ≢ ok true
verify-limit_example =
    verify-limit memory email world 5 (some 4711) wrong 70 (codes "004711") generates
      (omega arith, (omega arith, (omega arith, (omega arith, (omega arith, (omega arith, tt))))))
      (omega arith) five_answered

accepted :
    (verify memory 30 email (codes "004711") (
      guess_all memory email
        (guess 10 (codes "1") ∷ [])
        (generate memory 5 (some 4711) email world).1)).0
    ≡ ok true
unfolding guess_all verify verify_stored count_attempt delete_otp text_eq generate
    generate_numeric_otp format_nat otp_key otp_attempts_key lower_byte
accepted = refl

verify-single_use_example :
    (verify memory 50 email (codes "004711") (
      guess_all memory email
        (guess 40 (codes "004711") ∷ [])
        (verify memory 30 email (codes "004711") (
          guess_all memory email
            (guess 10 (codes "1") ∷ [])
            (generate memory 5 (some 4711) email world).1)).1)).0
    ≢ ok true
verify-single_use_example =
    verify-single_use memory email world 5 (some 4711) (guess 10 (codes "1") ∷ [])
      (guess 30 (codes "004711")) (guess 40 (codes "004711") ∷ []) 50 (codes "004711") generates
      (omega arith, tt) (omega arith) accepted (omega arith, tt) (omega arith)
