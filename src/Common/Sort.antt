-- ===== src/Common/Sort.antt =====
-- Sorting by a text key, as `sort.Slice` with a less-than on keys does. The library routine is not
-- stable, so the order of items with equal keys is not part of what the program can rely on: the
-- theorem on the order assumes distinct keys.
use mathlib.Core.Path.{◌≡◌, refl, ap, sym, ◌∙◌, subst}
use mathlib.Core.Logic.{◌≢◌, inl, inr}
use mathlib.Core.Bool.{true, false}
use mathlib.Core.List.{List, [], ◌∷◌, Permᴰ}
use mathlib.Core.List.Permᴰ
use native.Mathlib.Omega.{arith}
use latch_api.Common.Tests.{if◌then◌else◌, Bool-cases}
use latch_api.Common.Lists.{All}
use latch_api.Common.Text.{Text, text_lt, text_lt_irrefl, text_lt_trans, text_lt_total}

text_lt_asymm : (s t : Text) → text_lt s t ≡ true → text_lt t s ≡ false
text_lt_asymm s t h = ground (arith, text_lt_trans s t s, text_lt_irrefl s)

-- From `t` not below `s` and `u` not below `t`, `u` is not below `s`.
not_lt_trans : (s t u : Text) → text_lt t s ≡ false → text_lt u t ≡ false → text_lt u s ≡ false
not_lt_trans s t u h k = elim (Bool-cases (text_lt s t)) [
  | inl below ↦ ground (arith, text_lt_trans u s t)
  | inr level ↦ rw (text_lt_total s t level h) k
]

pub All-perm {ℓ} :
    {A : Type ℓ} (P : A → Type 0) {xs ys : List A} → Permᴰ xs ys → All P xs → All P ys
All-perm P Permᴰ.nil h = h
All-perm P (Permᴰ.cons e p) (h, hs) = (subst P e h, All-perm P p hs)
All-perm P (Permᴰ.swap e f) (h, (k, hs)) = (subst P f k, (subst P e h, hs))
All-perm P (Permᴰ.trans p q) h = All-perm P q (All-perm P p h)

module _ {ℓ} {A : Type ℓ} (key : A → Text) where
  unfoldable pub insert_by : A → List A → List A
  insert_by x [] = x ∷ []
  insert_by x (y ∷ ys) = if text_lt (key y) (key x) then y ∷ insert_by x ys else x ∷ y ∷ ys

  unfoldable pub sort_by : List A → List A
  unfolding insert_by
  sort_by [] = []
  sort_by (x ∷ xs) = insert_by x (sort_by xs)

  abbrev pub NotBelow : A → A → Type 0
  NotBelow x y = text_lt (key y) (key x) ≡ false

  -- No later key is below an earlier one.
  abbrev pub IsSorted : List A → Type 0
  IsSorted [] = Unit
  IsSorted (x ∷ xs) = All (NotBelow x) xs × IsSorted xs

  All-insert_by : (P : A → Type 0) (x : A) (ys : List A) → P x → All P ys → All P (insert_by x ys)
  unfolding insert_by
  All-insert_by P x [] p h = (p, tt)
  All-insert_by P x (y ∷ ys) p h = ground (arith, All-insert_by P x ys p h.1)

  NotBelow-trans :
      (x y : A) (zs : List A) → NotBelow x y → All (NotBelow y) zs → All (NotBelow x) zs
  NotBelow-trans x y [] h k = tt
  NotBelow-trans x y (z ∷ zs) h k =
      (not_lt_trans (key x) (key y) (key z) h k.0, NotBelow-trans x y zs h k.1)

  insert_by-IsSorted : (x : A) (ys : List A) → IsSorted ys → IsSorted (insert_by x ys)
  unfolding insert_by
  insert_by-IsSorted x [] h = (tt, tt)
  insert_by-IsSorted x (y ∷ ys) (above, sorted) = elim (Bool-cases (text_lt (key y) (key x))) [
    | inl below ↦ rw below (
      All-insert_by (NotBelow y) x ys (text_lt_asymm (key y) (key x) below) above,
      insert_by-IsSorted x ys sorted,
    )
    | inr level ↦ rw level ((level, NotBelow-trans x y ys level above), (above, sorted))
  ]

  pub sort_by-IsSorted : (xs : List A) → IsSorted (sort_by xs)
  unfolding sort_by
  sort_by-IsSorted [] = tt
  sort_by-IsSorted (x ∷ xs) = insert_by-IsSorted x (sort_by xs) (sort_by-IsSorted xs)

  insert_by-perm : (x : A) (ys : List A) → Permᴰ (insert_by x ys) (x ∷ ys)
  unfolding insert_by
  insert_by-perm x [] = Permᴰ.refl (x ∷ [])
  insert_by-perm x (y ∷ ys) = elim (Bool-cases (text_lt (key y) (key x))) [
    | inl below ↦
        rw below (Permᴰ.trans (Permᴰ.cons refl (insert_by-perm x ys)) (Permᴰ.swap refl refl))
    | inr level ↦ rw level (Permᴰ.refl (x ∷ y ∷ ys))
  ]

  pub sort_by-perm : (xs : List A) → Permᴰ (sort_by xs) xs
  unfolding sort_by
  sort_by-perm [] = Permᴰ.nil
  sort_by-perm (x ∷ xs) =
      Permᴰ.trans (insert_by-perm x (sort_by xs)) (Permᴰ.cons refl (sort_by-perm xs))

  -- Two items with different keys can be inserted in either order.
  insert_by_comm :
      (x y : A) (zs : List A)
      → key x ≢ key y
      → insert_by x (insert_by y zs) ≡ insert_by y (insert_by x zs)
  unfolding insert_by
  insert_by_comm x y [] ne =
      ground (arith, text_lt_asymm (key x) (key y), text_lt_total (key x) (key y))
  insert_by_comm x y (z ∷ zs) ne = ground (
    arith,
    insert_by_comm x y zs ne,
    text_lt_asymm (key x) (key y),
    text_lt_total (key x) (key y),
    text_lt_trans (key z) (key x) (key y),
    text_lt_trans (key z) (key y) (key x),
  )

  abbrev pub Differs : A → A → Type 0
  Differs x y = key x ≢ key y

  -- No two items have one key.
  abbrev pub DistinctKeys : List A → Type 0
  DistinctKeys [] = Unit
  DistinctKeys (x ∷ xs) = All (Differs x) xs × DistinctKeys xs

  DistinctKeys-perm : {xs ys : List A} → Permᴰ xs ys → DistinctKeys xs → DistinctKeys ys
  DistinctKeys-perm Permᴰ.nil h = h
  DistinctKeys-perm (Permᴰ.cons {b = b} {l₁ = xs} e p) (h, hs) =
      (All-perm (Differs b) p (subst (λ x. All (Differs x) xs) e h), DistinctKeys-perm p hs)
  DistinctKeys-perm (Permᴰ.swap {l = zs} e f) ((ne, hs), (ks, d)) = (
    (λ k. ne (ap key e ∙ sym k ∙ ap key (sym f)), subst (λ x. All (Differs x) zs) f ks),
    (subst (λ x. All (Differs x) zs) e hs, d),
  )
  DistinctKeys-perm (Permᴰ.trans p q) h = DistinctKeys-perm q (DistinctKeys-perm p h)

  -- With distinct keys the result does not depend on the order of the input.
  pub sort_by_of_perm : {xs ys : List A} → Permᴰ xs ys → DistinctKeys xs → sort_by xs ≡ sort_by ys
  unfolding sort_by
  sort_by_of_perm Permᴰ.nil h = refl
  sort_by_of_perm (Permᴰ.cons {l₁ = xs} {l₂ = ys} e p) (h, hs) = rw (e, sort_by_of_perm p hs)
  sort_by_of_perm (Permᴰ.swap {l = zs} e f) h =
      rw (e, f) (insert_by_comm _ _ (sort_by zs) (λ k. h.0.0 (ap key e ∙ k ∙ ap key (sym f))))
  sort_by_of_perm (Permᴰ.trans p q) h =
      sort_by_of_perm p h ∙ sort_by_of_perm q (DistinctKeys-perm p h)
