-- ===== src/Common/Find.antt =====
-- What looking up a row finds after the updates and insertions of a table.
use latch_api.Common.{arith}
use mathlib.Core.Path.{◌≡◌, refl, ap, ◌∙◌, sym}
use mathlib.Core.Logic.{inl, inr}
use mathlib.Core.Bool.{Bool, true, false}
use mathlib.Core.Option.{Option, none, some}
use mathlib.Core.List.{List, [], ◌∷◌, ◌++◌}
use latch_api.Common.Tests.{if◌then◌else◌, Bool-cases}
use latch_api.Common.Lists.{any, find?, update_where}

-- Two rows that are found by one query are one row.
pub row_of : {A : Type 0} {x q : A} → ◌≡◌ {A = Option A} (some x) (some q) → x ≡ q
row_of h = cc

moved :
    {A B : Type 0} (f : A → B) {x y : A}
    → ◌≡◌ {A = Option A} (some x) (some y)
    → ◌≡◌ {A = Option B} (some (f x)) (some (f y))
moved f h = cc

pub not_found : {A : Type 0} {a : A} → ◌≡◌ {A = Option A} none (some a) → ⊥
not_found h = cc

-- The state that an insertion has left.
pub stored :
    {A S : Type 0} {a b : A} {u t : S}
    → ◌≡◌ {A = Option (A × S)} (some (a, u)) (some (b, t))
    → t ≡ u
stored h = cc

module _ {A : Type 0} (key : A → Bool) where
  -- A row found by the test of an update is found updated.
  pub find?-update_where :
      (f : A → A) (xs : List A) {q : A}
      → ((x : A) → key (f x) ≡ key x)
      → find? key xs ≡ some q
      → find? key (update_where key f xs) ≡ some (f q)
  find?-update_where f [] same h = cc
  find?-update_where f (x ∷ xs) {q} same h = elim (Bool-cases (key x)) [
    | inl hit ↦ rw (hit, same x ∙ hit) (moved f (rw hit at h))
    | inr miss ↦ rw (miss, miss) (find?-update_where f xs same (rw miss at h))
  ]

  -- A row that an update leaves as it is stays found.
  pub find?-update_where_kept :
      (chosen : A → Bool) (f : A → A) (xs : List A) (q : A)
      → ((x : A) → key (f x) ≡ key x)
      → (if chosen q then f q else q) ≡ q
      → find? key xs ≡ some q
      → find? key (update_where chosen f xs) ≡ some q
  find?-update_where_kept chosen f [] q same kept h = cc
  find?-update_where_kept chosen f (x ∷ xs) q same kept h = elim (Bool-cases (key x)) [
    | inl hit ↦
        let own : x ≡ q = row_of (rw hit at h) in
        let stays : (if chosen x then f x else x) ≡ q = rw own kept in
        rw (ap key stays ∙ ap key (sym own) ∙ hit) (ap (λ r. some r) stays)
    | inr miss ↦ rw (unseen x miss) (find?-update_where_kept chosen f xs q same kept (rw miss at h))
  ]
    where
      unseen : (x : A) → key x ≡ false → key (if chosen x then f x else x) ≡ false
      unseen x miss = elim (Bool-cases (chosen x)) [
        | inl yes_chosen ↦ rw yes_chosen (same x ∙ miss)
        | inr not_chosen ↦ rw not_chosen miss
      ]

  -- A row that is not found is found where it is added.
  pub find?-append_new :
      (xs : List A) (q : A) → find? key xs ≡ none → key q ≡ true → find? key (xs ++ q ∷ []) ≡ some q
  find?-append_new [] q h hit = rw hit refl
  find?-append_new (x ∷ xs) q h hit = elim (Bool-cases (key x)) [
    | inl taken ↦ absurd (ground (arith, rw taken at h))
    | inr free ↦ rw free (find?-append_new xs q (rw free at h) hit)
  ]

  -- A row that is found passes the test.
  pub find?-passes : (xs : List A) {q : A} → find? key xs ≡ some q → key q ≡ true
  find?-passes [] h = cc
  find?-passes (x ∷ xs) h = elim (Bool-cases (key x)) [
    | inl hit ↦ ap key (sym (row_of (rw hit at h))) ∙ hit
    | inr miss ↦ find?-passes xs (rw miss at h)
  ]

  pub find?-any : (xs : List A) → any key xs ≡ false → find? key xs ≡ none
  find?-any [] h = refl
  find?-any (x ∷ xs) h = elim (Bool-cases (key x)) [
    | inl hit ↦ absurd (ground (arith, rw hit at h))
    | inr miss ↦ rw miss (find?-any xs (rw miss at h))
  ]
