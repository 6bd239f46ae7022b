-- ===== src/Common/Rows.antt =====
-- What the queries of internal/db/queries do to the rows of a table: `ORDER BY`, and texts that may be
-- NULL. Rows with equal sort columns come in the order in which they were inserted.
use mathlib.Core.Path.{◌≡◌, refl}
use mathlib.Core.Logic.{inl, inr}
use mathlib.Core.Option.{Option, none, some}
use mathlib.Core.List.{List, [], ◌∷◌, Permᴰ}
use mathlib.Core.List.Permᴰ
use Prim.Native.Nat.{ℕ}
use latch_api.Common.Tests.{if◌then◌else◌, leb, Bool-cases}
use latch_api.Common.Text.{Text}

module _ {ℓ} {A : Type ℓ} (column : A → ℕ) where
  unfoldable pub insert_row : A → List A → List A
  insert_row x [] = x ∷ []
  insert_row x (y ∷ ys) = if leb (column x) (column y) then x ∷ y ∷ ys else y ∷ insert_row x ys

  -- ORDER BY column ASC
  unfoldable pub order_by : List A → List A
  unfolding insert_row
  order_by [] = []
  order_by (x ∷ xs) = insert_row x (order_by xs)

  insert_row-perm : (x : A) (ys : List A) → Permᴰ (x ∷ ys) (insert_row x ys)
  unfolding insert_row
  insert_row-perm x [] = Permᴰ.refl (x ∷ [])
  insert_row-perm x (y ∷ ys) = elim (Bool-cases (leb (column x) (column y))) [
    | inl first ↦ rw first (Permᴰ.refl (x ∷ y ∷ ys))
    | inr later ↦
        rw later (Permᴰ.trans (Permᴰ.swap refl refl) (Permᴰ.cons refl (insert_row-perm x ys)))
  ]

  -- Ordering rows only permutes them.
  pub order_by-perm : (xs : List A) → Permᴰ xs (order_by xs)
  unfolding order_by
  order_by-perm [] = Permᴰ.nil
  order_by-perm (x ∷ xs) =
      Permᴰ.trans (Permᴰ.cons refl (order_by-perm xs)) (insert_row-perm x (order_by xs))

-- `nullStr` and `strOrEmpty` of internal/service/webapp/multisig_util.go: NULL stands for the empty text.
unfoldable pub null_str : Text → Option Text
null_str [] = none
null_str (c ∷ s) = some (c ∷ s)

unfoldable pub str_or_empty : Option Text → Text
str_or_empty none = []
str_or_empty (some s) = s

pub str_or_empty-null_str : (s : Text) → str_or_empty (null_str s) ≡ s
unfolding str_or_empty null_str
str_or_empty-null_str [] = refl
str_or_empty-null_str (c ∷ s) = refl
