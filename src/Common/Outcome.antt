-- ===== src/Common/Outcome.antt =====
-- The result of a call that can fail.
use mathlib.Core.Path.{◌≡◌, refl}
use mathlib.Core.Bool.{Bool, true, false}

pub data Result (E A : Type 0) : Type 0 where
  ok : A → Result E A
  err : E → Result E A

abbrev pub is_ok : {E A : Type 0} → Result E A → Bool
is_ok (ok a) = true
is_ok (err e) = false

pub ok-injective : {E A : Type 0} {a b : A} → ◌≡◌ {A = Result E A} (ok a) (ok b) → a ≡ b
ok-injective h = cc

pub is_ok-false : {E A : Type 0} (r : Result E A) → ((a : A) → r ≡ ok a → ⊥) → is_ok r ≡ false
is_ok-false (ok a) h = absurd (h a refl)
is_ok-false (err e) h = refl
