-- ===== src/Common/Database.antt =====
-- Calls of the database (internal/db) as a state and error monad. Each call can fail: `outage n` says
-- whether the n-th call does, and a failed call changes nothing.
use latch_api.Common.{inl, inr}
use Prim.Native.Nat.{ℕ, suc}
use mathlib.Core.Path.{◌≡◌, refl}
use mathlib.Core.Bool.{Bool, true, false}
use mathlib.Core.Option.{Option, none, some}
use native.Mathlib.Omega.{arith}
use latch_api.Common.Tests.{if◌then◌else◌, Bool-cases}
use latch_api.Common.Outcome.{Result, ok, err}

pub record World (S : Type 0) : Type 0 where
  pub store : S
  pub calls : ℕ
  pub outage : ℕ → Bool

abbrev pub Action : Type 0 → Type 0 → Type 0 → Type 0
Action S E A = World S → Result E A × World S

module _ {S E A : Type 0} where
  abbrev pub pure : A → Action S E A
  pure a w = (ok a, w)

  abbrev pub fail : E → Action S E A
  fail e w = (err e, w)

  -- One call: a query that may also write, and the error that the caller wraps a failure in.
  abbrev pub query : E → (S → A × S) → Action S E A
  query e f w =
      if w.outage w.calls
      then (err e, record w { calls = suc w.calls })
      else (ok (f w.store).0, record w { store = (f w.store).1; calls = suc w.calls })

  abbrev accept : E → World S → Option (A × S) → Result E A × World S
  accept e w none = (err e, record w { calls = suc w.calls })
  accept e w (some (a, s)) = (ok a, record w { store = s; calls = suc w.calls })

  -- A call that a constraint of the table can refuse: `none` is such a violation.
  abbrev pub try_query : E → (S → Option (A × S)) → Action S E A
  try_query e f w =
      if w.outage w.calls then (err e, record w { calls = suc w.calls }) else accept e w (f w.store)

  abbrev pub ask : E → (S → A) → Action S E A
  ask e f = query e (λ s. (f s, s))

  abbrev pub or_fail : E → Option A → Action S E A
  or_fail e none = fail e
  or_fail e (some a) = pure a

-- A read whose failure is answered by a default.
abbrev pub ask_or : {S E A : Type 0} → A → (S → A) → Action S E A
ask_or d f w =
    if w.outage w.calls
    then (ok d, record w { calls = suc w.calls })
    else (ok (f w.store), record w { calls = suc w.calls })

abbrev pub exec : {S E : Type 0} → E → (S → S) → Action S E (Unit {0})
exec e f = query e (λ s. (tt, f s))

-- `if c { return e }`
abbrev pub fail_if : {S E : Type 0} → Bool → E → Action S E (Unit {0})
fail_if true e = fail e
fail_if false e = pure tt

abbrev pub then_run :
    {S E A B : Type 0} → Result E A → World S → (A → Action S E B) → Result E B × World S
then_run (ok a) w f = f a w
then_run (err e) w f = (err e, w)

infixl 5 ◌>>=◌ ◌>>◌
abbrev pub ◌>>=◌ : {S E A B : Type 0} → Action S E A → (A → Action S E B) → Action S E B
◌>>=◌ m f w = then_run (m w).0 (m w).1 f

abbrev pub ◌>>◌ : {S E A B : Type 0} → Action S E A → Action S E B → Action S E B
m >> k = m >>= λ _. k

-- The deferred `tx.Rollback()`: the store of before, unless the body and the commit went through.
abbrev pub settle : {S E A : Type 0} → S → Result E A → World S → Result E A × World S
settle s (ok a) w = (ok a, w)
settle s (err e) w = (err e, record w { store = s })

-- `BeginTx`, the body, `Commit`.
abbrev pub in_transaction : {S E A : Type 0} → E → Action S E A → Action S E A
in_transaction {S} e body = do exec {S = S} e (λ s. s); a ← body; exec {S = S} e (λ s. s); pure a

abbrev pub transaction : {S E A : Type 0} → E → Action S E A → Action S E A
transaction e body w = settle w.store (in_transaction e body w).0 (in_transaction e body w).1

-- A postcondition on the store that holds whatever the result is.
pub record Keeps {S E A : Type 0} (P : S → Type 0) (m : Action S E A) : Type 0 where
  pub run : (w : World S) → P w.store → P (m w).1.store

module _ {S E A : Type 0} (P : S → Type 0) where
  pub Keeps-pure : (a : A) → Keeps {E = E} P (pure a)
  Keeps-pure a = record { run = λ w h. h }

  pub Keeps-fail : (e : E) → Keeps {A = A} P (fail e)
  Keeps-fail e = record { run = λ w h. h }

  pub Keeps-or_fail : (e : E) (o : Option A) → Keeps P (or_fail e o)
  Keeps-or_fail e none = record { run = λ w h. h }
  Keeps-or_fail e (some a) = record { run = λ w h. h }

  pub Keeps-query : (e : E) (f : S → A × S) → ((s : S) → P s → P (f s).1) → Keeps P (query e f)
  Keeps-query e f h = record { run = λ w p. ground (arith, h w.store p) }

  accept-store :
      (e : E) (w : World S) (o : Option (A × S))
      → P w.store
      → ((s : S) (a : A) → o ≡ some (a, s) → P s)
      → P (accept e w o).1.store
  accept-store e w none p h = p
  accept-store e w (some (a, s)) p h = h s a refl

  pub Keeps-try_query :
      (e : E) (f : S → Option (A × S))
      → ((s s' : S) (a : A) → P s → f s ≡ some (a, s') → P s')
      → Keeps P (try_query e f)
  Keeps-try_query e f h = record {
    run = λ w p. ground (arith, accept-store e w (f w.store) p (λ s a q. h w.store s a p q));
  }

  pub Keeps-ask : (e : E) (f : S → A) → Keeps P (ask e f)
  Keeps-ask e f = record { run = λ w p. ground arith }

pub Keeps-fail_if :
    {S E : Type 0} (P : S → Type 0) (b : Bool) (e : E) → Keeps {S = S} P (fail_if b e)
Keeps-fail_if P true e = record { run = λ w h. h }
Keeps-fail_if P false e = record { run = λ w h. h }

pub Keeps-exec :
    {S E : Type 0} (P : S → Type 0) (e : E) (f : S → S)
    → ((s : S) → P s → P (f s))
    → Keeps P (exec e f)
Keeps-exec P e f h = record { run = λ w p. ground (arith, h w.store p) }

then_run-store :
    {S E A B : Type 0} (P : S → Type 0) (r : Result E A) (w : World S) (f : A → Action S E B)
    → P w.store
    → ((a : A) → Keeps P (f a))
    → P (then_run r w f).1.store
then_run-store P (ok a) w f p h = (h a).run w p
then_run-store P (err e) w f p h = p

pub Keeps-bind :
    {S E A B : Type 0} (P : S → Type 0) (m : Action S E A) (f : A → Action S E B)
    → Keeps P m
    → ((a : A) → Keeps P (f a))
    → Keeps P (m >>= f)
Keeps-bind P m f k h = record { run = λ w p. then_run-store P (m w).0 (m w).1 f (k.run w p) h }

settle-store :
    {S E A : Type 0} (P : S → Type 0) (s : S) (r : Result E A) (w : World S)
    → P s
    → P w.store
    → P (settle s r w).1.store
settle-store P s (ok a) w p q = q
settle-store P s (err e) w p q = p

-- Behind a check the continuation may assume that it passed.
pub Keeps-check :
    {S E B : Type 0} (P : S → Type 0) (b : Bool) (e : E) (f : Unit {0} → Action S E B)
    → (b ≡ false → Keeps P (f tt))
    → Keeps P (fail_if b e >>= f)
Keeps-check P true e f h = record { run = λ w p. p }
Keeps-check P false e f h = h refl

pub Keeps-if :
    {S E A : Type 0} (P : S → Type 0) (b : Bool) (m n : Action S E A)
    → Keeps P m
    → Keeps P n
    → Keeps P (if b then m else n)
Keeps-if P true m n h k = h
Keeps-if P false m n h k = k

pub Keeps-transaction :
    {S E A : Type 0} (P : S → Type 0) (e : E) (m : Action S E A)
    → Keeps P m
    → Keeps P (transaction e m)
Keeps-transaction {S} P e m k = record {
  run = λ w p.
      settle-store P w.store (in_transaction e m w).0 (in_transaction e m w).1 p (body.run w p);
}
  where
    same : Keeps P (exec {S = S} e (λ s. s))
    same = Keeps-exec P e (λ s. s) (λ s p. p)

    body : Keeps P (in_transaction e m)
    body =
        Keeps-bind P _ _ same
          (λ _. Keeps-bind P _ _ k (λ a. Keeps-bind P _ _ same (λ _. Keeps-pure P a)))

-- From a precondition on the store to a postcondition, again whatever the result is. What a call has
-- read is still true of the store when the next one runs.
pub record Leads {S E A : Type 0} (Q P : S → Type 0) (m : Action S E A) : Type 0 where
  pub run : (w : World S) → Q w.store → P (m w).1.store

module _ {S E B : Type 0} (Q P : S → Type 0) (weaken : (s : S) → Q s → P s) where
  pub Leads-fail : (e : E) → Leads {A = B} Q P (fail e)
  Leads-fail e = record { run = λ w q. weaken w.store q }

  pub Leads-ask :
      {A : Type 0} (e : E) (f : S → A) (k : A → Action S E B)
      → ((a : A) → Leads (λ s. Q s × (f s ≡ a)) P (k a))
      → Leads Q P (ask e f >>= k)
  Leads-ask e f k h = record {
    run = λ w q. elim (Bool-cases (w.outage w.calls)) [
      | inl out ↦ rw out (weaken w.store q)
      | inr up ↦ rw up (
          (h (f w.store)).run (record { store = w.store; calls = suc w.calls; outage = w.outage })
            (q, refl))
    ];
  }

  pub Leads-try_query :
      {A : Type 0} (e : E) (f : S → Option (A × S)) (k : A → Action S E B)
      → ((s s' : S) (a : A) → Q s → f s ≡ some (a, s') → P s')
      → ((a : A) → Keeps P (k a))
      → Leads Q P (try_query e f >>= k)
  Leads-try_query e f k h keeps = record {
    run = λ w q. then_run-store P (try_query e f w).0 (try_query e f w).1 k (stored w q) keeps;
  }
    where
      stored : (w : World S) → Q w.store → P (try_query e f w).1.store
      stored w q = ground (
        arith,
        weaken w.store q,
        accept-store P e w (f w.store) (weaken w.store q) (λ s a c. h w.store s a q c),
      )

pub Keeps-Leads : {S E A : Type 0} (P : S → Type 0) (m : Action S E A) → Leads P P m → Keeps P m
Keeps-Leads P m h = record { run = h.run }

abbrev pub replace_error : {S E A : Type 0} → E → Result E A → World S → Result E A × World S
replace_error e (ok a) w = (ok a, w)
replace_error e (err x) w = (err e, w)

-- A call whose errors are all replaced by one.
abbrev pub or_error : {S E A : Type 0} → E → Action S E A → Action S E A
or_error e m w = replace_error e (m w).0 (m w).1

replace_error-store :
    {S E A : Type 0} (P : S → Type 0) (e : E) (r : Result E A) (w : World S)
    → P w.store
    → P (replace_error e r w).1.store
replace_error-store P e (ok a) w p = p
replace_error-store P e (err x) w p = p

pub Keeps-or_error :
    {S E A : Type 0} (P : S → Type 0) (e : E) (m : Action S E A)
    → Keeps P m
    → Keeps P (or_error e m)
Keeps-or_error P e m k = record { run = λ w p. replace_error-store P e (m w).0 (m w).1 (k.run w p) }
