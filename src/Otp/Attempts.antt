-- ===== src/Otp/Attempts.antt =====
-- Any number of guesses, right or wrong, after a password was generated.
use latch_api.Common.Ends.{Ends-run}
use latch_api.Otp.Guesses.{Guessed, IsGuarded, verify-Ends, generate-Ends}
use latch_api.Common.Database.{World}
use latch_api.Otp.{verify, OtpError, otp_ttl, otp_max_attempts, generate}
use latch_api.Common.{
  List, ◌∷◌, Result, ◌≤◌, Bool, ◌+◌, ◌≡◌, [], if◌then◌else◌, arith, is_ok, ◌≢◌, ok, err, true,
  Option, refl,
}
use latch_api.Common.Text.{Text}
use latch_api.Redis.{Redis}
use Prim.Native.Nat.{ℕ, suc}

-- One request to `Verify`.
pub record Guess : Type 0 where
  pub time : ℕ
  pub given : Text

-- The guesses come one after the other.
abbrev pub InOrder : ℕ → List Guess → Type 0
InOrder now [] = Unit {0}
InOrder now (g ∷ gs) = (now ≤ g.time) × InOrder g.time gs

abbrev pub last_time : ℕ → List Guess → ℕ
last_time now [] = now
last_time now (g ∷ gs) = last_time g.time gs

last_after : (now : ℕ) (gs : List Guess) → InOrder now gs → now ≤ last_time now gs
last_after now [] h = omega arith
last_after now (g ∷ gs) (first, h) = omega (arith, first, last_after g.time gs h)

one_more : (n : ℕ) → n + 1 ≡ suc n
one_more n = omega arith

no_more : (n : ℕ) → n + 0 ≡ n
no_more n = omega arith

sum_assoc : (n m k : ℕ) → n + m + k ≡ n + (m + k)
sum_assoc n m k = omega arith

module _ (redis : Redis) (email : Text) where
  unfoldable pub guess_all : List Guess → World redis.State → World redis.State
  unfolding verify
  guess_all [] w = w
  guess_all (g ∷ gs) w = guess_all gs (verify redis g.time email g.given w).1

  -- The number of guesses that got an answer and not an error.
  unfoldable pub answered : List Guess → World redis.State → ℕ
  unfolding verify
  answered [] w = 0
  answered (g ∷ gs) w =
      (if is_ok (verify redis g.time email g.given w).0 then 1 else 0)
      + answered gs (verify redis g.time email g.given w).1

  module _ (gone : ℕ) where
    after_guess :
        (n t : ℕ) (r : Result OtpError Bool) (s : redis.State)
        → Guessed redis email gone n t r s
        → IsGuarded redis email gone (n + (if is_ok r then 1 else 0)) t s
    after_guess n t (ok b) s h = rw (one_more n) h.0
    after_guess n t (err e) s h = rw (no_more n) h

    guess_all-IsGuarded :
        (gs : List Guess) (w : World redis.State) (n now : ℕ)
        → InOrder now gs
        → gone ≤ now + otp_ttl
        → IsGuarded redis email gone n now w.store
        → IsGuarded redis email gone (n + answered gs w) (last_time now gs) (guess_all gs w).store
    unfolding guess_all answered
    guess_all-IsGuarded [] w n now ordered soon g = rw (no_more n) g
    guess_all-IsGuarded (x ∷ gs) w n now (first, ordered) soon g =
        let v = verify redis x.time email x.given w in
        let next = after_guess n x.time v.0 v.1.store (
          Ends-run w (
            verify-Ends redis email gone n now x.time w.store x.given first
              (omega (arith, first, soon)) g)) in
        rw (sum_assoc n (if is_ok v.0 then 1 else 0) (answered gs v.1)) at (
          guess_all-IsGuarded gs v.1 (n + (if is_ok v.0 then 1 else 0)) x.time ordered
            (omega (arith, first, soon)) next)

  too_late :
      (gone now later : ℕ) (gs : List Guess) (w : World redis.State) (n : ℕ) (given : Text)
      → InOrder now gs
      → last_time now gs ≤ later
      → gone ≤ now + otp_ttl
      → otp_max_attempts ≤ n + answered gs w
      → IsGuarded redis email gone n now w.store
      → (verify redis later email given (guess_all gs w)).0 ≢ ok true
  too_late gone now later gs w n given ordered last soon enough g e =
      let u = guess_all gs w in
      let done = guess_all-IsGuarded gone gs w n now ordered soon g in
      let (_, known) = rw e at (
        Ends-run u (
          verify-Ends redis email gone (n + answered gs w) (last_time now gs) later u.store given
            last (omega (arith, last_after now gs ordered, last, soon)) done)) in
      absurd (omega (arith, (known refl).0, enough))

  generated-IsGuarded :
      (w : World redis.State) (now : ℕ) (random : Option ℕ) {code : Text}
      → (generate redis now random email w).0 ≡ ok code
      → IsGuarded redis email (now + otp_ttl) 0 now (generate redis now random email w).1.store
  generated-IsGuarded w now random h =
      rw h at (Ends-run w (generate-Ends redis email w.store now random))

  -- After a password was generated and five or more guesses, right or wrong, were answered, no guess
  -- is accepted any more until another password is generated. The guesses come in the order of time,
  -- and any of their calls of Redis may fail.
  pub verify-limit :
      (w : World redis.State) (now : ℕ) (random : Option ℕ) (gs : List Guess) (later : ℕ)
      (given : Text) {code : Text}
      → (generate redis now random email w).0 ≡ ok code
      → InOrder now gs
      → last_time now gs ≤ later
      → 5 ≤ answered gs (generate redis now random email w).1
      → (verify redis later email given (guess_all gs (generate redis now random email w).1)).0
        ≢ ok true
  verify-limit w now random gs later given h ordered last enough =
      too_late (now + otp_ttl) now later gs (generate redis now random email w).1 0 given ordered
        last (omega arith) (omega (arith, enough)) (generated-IsGuarded w now random h)

  -- After a password was generated and a guess was accepted, no guess is accepted any more until
  -- another password is generated, whatever was guessed before and in between. The guesses come in
  -- the order of time, and any of their calls of Redis may fail.
  pub verify-single_use :
      (w : World redis.State) (now : ℕ) (random : Option ℕ) (before : List Guess) (right : Guess)
      (after : List Guess) (later : ℕ) (given : Text) {code : Text}
      → (generate redis now random email w).0 ≡ ok code
      → InOrder now before
      → last_time now before ≤ right.time
      → (verify redis right.time email right.given
          (guess_all before (generate redis now random email w).1)).0
        ≡ ok true
      → InOrder right.time after
      → last_time right.time after ≤ later
      → (verify redis later email given (
          guess_all after
            (verify redis right.time email right.given
              (guess_all before (generate redis now random email w).1)).1)).0
        ≢ ok true
  verify-single_use w now random before right after later given h ordered last accepted ordered'
        last' =
      let u = guess_all before (generate redis now random email w).1 in
      let gone = now + otp_ttl in
      let soon : gone ≤ right.time + otp_ttl = omega (arith, last_after now before ordered, last) in
      let done =
        guess_all-IsGuarded gone before (generate redis now random email w).1 0 now ordered
          (omega arith) (generated-IsGuarded w now random h) in
      let (_, known) = rw accepted at (
        Ends-run u (
          verify-Ends redis email gone _ (last_time now before) right.time u.store right.given last
            soon done)) in
      too_late gone right.time later after (verify redis right.time email right.given u).1 5 given
        ordered' last' soon (omega arith) ((known refl).1 5)
