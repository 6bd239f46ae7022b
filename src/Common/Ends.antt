-- ===== src/Common/Ends.antt =====
-- What is true of the result and of the store when a program of database calls ends that starts at a
-- given store. A call that fails leaves the store as it was, so the rule for a read asks for the
-- conclusion at the same store, and a condition that was read is known to whatever runs after it.
use Prim.Native.Nat.{ℕ, suc}
use mathlib.Core.Path.{◌≡◌, refl, sym, subst}
use mathlib.Core.Bool.{Bool, true, false}
use mathlib.Core.Option.{Option, none, some}
use latch_api.Common.{inl, inr}
use latch_api.Common.Tests.{if◌then◌else◌, Bool-cases, Option-cases}
use latch_api.Common.Outcome.{Result, ok, err}
use latch_api.Common.Database.{
  World, Action, pure, fail, try_query, ask, then_run, replace_error, exec, or_fail, fail_if, ◌>>=◌,
  or_error, settle, transaction, in_transaction, query, ask_or,
}

abbrev pub start : {S : Type 0} → S → ℕ → (ℕ → Bool) → World S
start s calls outage = record { store = s; calls = calls; outage = outage }

pub record Ends {S E A : Type 0} (s : S) (R : Result E A → S → Type 0) (m : Action S E A)
    : Type 0 where
  pub run :
      (calls : ℕ) (outage : ℕ → Bool)
      → R (m (start s calls outage)).0 (m (start s calls outage)).1.store

then_run-Ends :
    {S E A B : Type 0} (T : Result E A → S → Type 0) (R : Result E B → S → Type 0)
    (k : A → Action S E B)
    → ((e : E) (t : S) → T (err e) t → R (err e) t)
    → ((a : A) (t : S) → T (ok a) t → Ends t R (k a))
    → (r : Result E A) (w : World S) → T r w.store
    → R (then_run r w k).0 (then_run r w k).1.store
then_run-Ends T R k bad next (ok a) w h = (next a w.store h).run w.calls w.outage
then_run-Ends T R k bad next (err e) w h = bad e w.store h

replace_error-Ends :
    {S E A : Type 0} (T R : Result E A → S → Type 0) (e : E)
    → ((x : E) (t : S) → T (err x) t → R (err e) t)
    → ((a : A) (t : S) → T (ok a) t → R (ok a) t)
    → (r : Result E A) (w : World S) → T r w.store
    → R (replace_error e r w).0 (replace_error e r w).1.store
replace_error-Ends T R e bad good (ok a) w h = good a w.store h
replace_error-Ends T R e bad good (err x) w h = bad x w.store h

-- What holds of the value, where there is one.
abbrev pub OnOk : {E A : Type 0} → (A → Type 0) → Result E A → Type 0
OnOk P (ok a) = P a
OnOk P (err e) = Unit {0}

module _ {S E B : Type 0} {s : S} {R : Result E B → S → Type 0} where
  pub Ends-pure : (b : B) → R (ok b) s → Ends s R (pure b)
  Ends-pure b h = record { run = λ n o. h }

  pub Ends-fail : (e : E) → R (err e) s → Ends s R (fail e)
  Ends-fail e h = record { run = λ n o. h }

  pub Ends-ask :
      {A : Type 0} (e : E) (f : S → A) (k : A → Action S E B)
      → R (err e) s
      → Ends s R (k (f s))
      → Ends s R (ask e f >>= k)
  Ends-ask e f k bad h = record {
    run =
        λ n o. elim (Bool-cases (o n)) [ inl out ↦ rw out bad | inr up ↦ rw up (h.run (suc n) o) ];
  }

  pub Ends-ask_or :
      {A : Type 0} (d : A) (f : S → A) (k : A → Action S E B)
      → Ends s R (k d)
      → Ends s R (k (f s))
      → Ends s R (ask_or d f >>= k)
  Ends-ask_or d f k down h = record {
    run = λ n o. elim (Bool-cases (o n)) [
      | inl out ↦ rw out (down.run (suc n) o)
      | inr up ↦ rw up (h.run (suc n) o)
    ];
  }

  pub Ends-exec :
      (e : E) (f : S → S) (k : Unit {0} → Action S E B)
      → R (err e) s
      → Ends (f s) R (k tt)
      → Ends s R (exec e f >>= k)
  Ends-exec e f k bad h = record {
    run =
        λ n o. elim (Bool-cases (o n)) [ inl out ↦ rw out bad | inr up ↦ rw up (h.run (suc n) o) ];
  }

  pub Ends-query :
      {A : Type 0} (e : E) (f : S → A × S) (k : A → Action S E B)
      → R (err e) s
      → Ends (f s).1 R (k (f s).0)
      → Ends s R (query e f >>= k)
  Ends-query e f k bad h = record {
    run =
        λ n o. elim (Bool-cases (o n)) [ inl out ↦ rw out bad | inr up ↦ rw up (h.run (suc n) o) ];
  }

  pub Ends-check :
      (b : Bool) (e : E) (k : Unit {0} → Action S E B)
      → (b ≡ true → R (err e) s)
      → (b ≡ false → Ends s R (k tt))
      → Ends s R (fail_if b e >>= k)
  Ends-check true e k bad h = record { run = λ n o. bad refl }
  Ends-check false e k bad h = h refl

  pub Ends-or_fail :
      {A : Type 0} (e : E) (o : Option A) (k : A → Action S E B)
      → (o ≡ none → R (err e) s)
      → ((a : A) → o ≡ some a → Ends s R (k a))
      → Ends s R (or_fail e o >>= k)
  Ends-or_fail e none k bad h = record { run = λ n o. bad refl }
  Ends-or_fail e (some a) k bad h = h a refl

  pub Ends-try_query :
      {A : Type 0} (e : E) (f : S → Option (A × S)) (k : A → Action S E B)
      → R (err e) s
      → ((a : A) (t : S) → f s ≡ some (a, t) → Ends t R (k a))
      → Ends s R (try_query e f >>= k)
  Ends-try_query e f k bad h = record {
    run = λ n o. elim (Bool-cases (o n)) [
      | inl out ↦ rw out bad
      | inr up ↦ elim (Option-cases (f s)) [
        | inl refused ↦ rw (up, refused) bad
        | inr (r, found) ↦ rw (up, found) ((h r.0 r.1 found).run (suc n) o)
      ]
    ];
  }

  pub Ends-last_try_query :
      (e : E) (f : S → Option (B × S))
      → R (err e) s
      → ((b : B) (t : S) → f s ≡ some (b, t) → R (ok b) t)
      → Ends s R (try_query e f)
  Ends-last_try_query e f bad h = record {
    run = λ n o. elim (Bool-cases (o n)) [
      | inl out ↦ rw out bad
      | inr up ↦ elim (Option-cases (f s)) [
        | inl refused ↦ rw (up, refused) bad
        | inr (r, found) ↦ rw (up, found) (h r.0 r.1 found)
      ]
    ];
  }

  pub Ends-if :
      (b : Bool) (m n : Action S E B)
      → (b ≡ true → Ends s R m)
      → (b ≡ false → Ends s R n)
      → Ends s R (if b then m else n)
  Ends-if true m n h k = h refl
  Ends-if false m n h k = k refl

  pub Ends-bind :
      {A : Type 0} (T : Result E A → S → Type 0) (m : Action S E A) (k : A → Action S E B)
      → Ends s T m
      → ((e : E) (t : S) → T (err e) t → R (err e) t)
      → ((a : A) (t : S) → T (ok a) t → Ends t R (k a))
      → Ends s R (m >>= k)
  Ends-bind T m k h bad next = record {
    run = λ n o. then_run-Ends T R k bad next (m (start s n o)).0 (m (start s n o)).1 (h.run n o);
  }

  pub Ends-or_error :
      (T : Result E B → S → Type 0) (e : E) (m : Action S E B)
      → Ends s T m
      → ((x : E) (t : S) → T (err x) t → R (err e) t)
      → ((b : B) (t : S) → T (ok b) t → R (ok b) t)
      → Ends s R (or_error e m)
  Ends-or_error T e m h bad good = record {
    run = λ n o.
        replace_error-Ends T R e bad good (m (start s n o)).0 (m (start s n o)).1 (h.run n o);
  }

-- The same program from an equal store.
pub Ends-at :
    {S E A : Type 0} {s t : S} {R : Result E A → S → Type 0} {m : Action S E A}
    → t ≡ s
    → Ends s R m
    → Ends t R m
Ends-at {R} {m} q h = subst (λ x. Ends x R m) (sym q) h

weaken-run :
    {S E A : Type 0} (T R : Result E A → S → Type 0)
    → ((e : E) (t : S) → T (err e) t → R (err e) t)
    → ((a : A) (t : S) → T (ok a) t → R (ok a) t)
    → (r : Result E A) (t : S) → T r t
    → R r t
weaken-run T R bad good (ok a) t h = good a t h
weaken-run T R bad good (err e) t h = bad e t h

pub Ends-weaken :
    {S E A : Type 0} {s : S} {T R : Result E A → S → Type 0} {m : Action S E A}
    → Ends s T m
    → ((e : E) (t : S) → T (err e) t → R (err e) t)
    → ((a : A) (t : S) → T (ok a) t → R (ok a) t)
    → Ends s R m
Ends-weaken {s} {T} {R} {m} h bad good = record {
  run = λ n o. weaken-run T R bad good (m (start s n o)).0 (m (start s n o)).1.store (h.run n o);
}

-- What the ends of a program say of its run in any world with that store.
pub Ends-run :
    {S E A : Type 0} {R : Result E A → S → Type 0} {m : Action S E A} (w : World S)
    → Ends w.store R m
    → R (m w).0 (m w).1.store
Ends-run w h = h.run w.calls w.outage

-- What the end of a transaction's body says of the transaction: an error is met at the store of
-- before.
abbrev RolledBack : {S E A : Type 0} → S → (Result E A → S → Type 0) → Result E A → S → Type 0
RolledBack s R (ok a) t = R (ok a) t
RolledBack s R (err e) t = R (err e) s

settle-RolledBack :
    {S E A : Type 0} (s : S) (R : Result E A → S → Type 0) (r : Result E A) (w : World S)
    → RolledBack s R r w.store
    → R (settle s r w).0 (settle s r w).1.store
settle-RolledBack s R (ok a) w h = h
settle-RolledBack s R (err e) w h = h

pub Ends-transaction :
    {S E A : Type 0} {s : S} {R : Result E A → S → Type 0} (T : Result E A → S → Type 0) (e : E)
    (m : Action S E A)
    → Ends s T m
    → R (err e) s
    → ((x : E) (t : S) → T (err x) t → R (err x) s)
    → ((a : A) (t : S) → T (ok a) t → R (ok a) t)
    → Ends s R (transaction e m)
Ends-transaction {S} {s = s} {R = R} T e m h down bad good = record {
  run = λ n o.
      settle-RolledBack s R (in_transaction e m (start s n o)).0
        (in_transaction e m (start s n o)).1 (body.run n o);
}
  where
    body : Ends s (RolledBack s R) (in_transaction e m)
    body =
        Ends-exec e (λ s. s) _ down
          (Ends-bind T m _ h bad (λ a t k. Ends-exec e (λ s. s) _ down (Ends-pure a (good a t k))))
