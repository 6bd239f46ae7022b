-- ===== src/Multisig/Draft/Canonical.antt =====
-- The factory's signers of a sound draft do not depend on the order in which its members are read.
use latch_api.Signers.Duplicates.{SameKey}
use latch_api.Signers.Order.{NoSameKey, draft_members_to_factory_signers_of_perm}
use latch_api.Multisig.DraftQueries.{
  members_of, list_multisig_draft_members_for_draft, member_created_at,
}
use latch_api.Multisig.Draft.Apart.{AllApart, IsSound, Apart, AllApart-keep}
use latch_api.Multisig.Draft.Serialize.{
  valid_deployable_factory_signers, domain_member_from_row, is_valid_row,
}
use latch_api.Multisig.Tables.{DraftMember, DraftTables}
use latch_api.Common.{
  ℕ, ◌≡◌, refl, sym, ap, ◌∙◌, inl, inr, Bool, List, [], ◌∷◌, map, arith, ◌==◌, Bool-cases, keep,
  All, All-keep,
}
use latch_api.Common.Rows.{order_by-perm}
use mathlib.Core.List.{Permᴰ}
use mathlib.Core.List.Permᴰ
use latch_api.External.{External}

module _ (ext : External) where
  -- The kinds and keys of the rows' members, pairwise different.
  NoSameKey-of-AllApart :
      (did : ℕ) (rows : List DraftMember)
      → All (λ r. r.draft_id ≡ did) rows
      → AllApart ext rows
      → NoSameKey (map (domain_member_from_row ext) rows)
  NoSameKey-of-AllApart did [] h a = tt
  NoSameKey-of-AllApart did (r ∷ rows) (e, h) (apart, a) =
      (apart_members r rows e h apart, NoSameKey-of-AllApart did rows h a)
    where
      apart_members :
          (r : DraftMember) (rs : List DraftMember)
          → r.draft_id ≡ did
          → All (λ q. q.draft_id ≡ did) rs
          → All (Apart ext r) rs
          → All
              (λ c. ¬ SameKey c (domain_member_from_row ext r))
              (map (domain_member_from_row ext) rs)
      apart_members r [] e h k = tt
      apart_members r (q ∷ rs) e (eq, h) (k, ks) = (k (eq ∙ sym e), apart_members r rs e h ks)

  members_of-draft_id :
      (did : ℕ) (rs : List DraftMember) → All (λ r. r.draft_id ≡ did) (members_of did rs)
  members_of-draft_id did [] = tt
  members_of-draft_id did (r ∷ rs) = ground (arith, members_of-draft_id did rs)

  map-perm : {A B : Type 0} (f : A → B) {xs ys : List A} → Permᴰ xs ys → Permᴰ (map f xs) (map f ys)
  map-perm f Permᴰ.nil = Permᴰ.nil
  map-perm f (Permᴰ.cons e p) = Permᴰ.cons (ap f e) (map-perm f p)
  map-perm f (Permᴰ.swap d e) = Permᴰ.swap (ap f d) (ap f e)
  map-perm f (Permᴰ.trans p q) = Permᴰ.trans (map-perm f p) (map-perm f q)

  keep_swap :
      {A : Type 0} (p : A → Bool) (x y : A) (zs : List A)
      → Permᴰ (keep p (x ∷ y ∷ zs)) (keep p (y ∷ x ∷ zs))
  keep_swap p x y zs = elim (Bool-cases (p x)) [
    | inl kept ↦ elim (Bool-cases (p y)) [
      | inl both ↦ rw (kept, both) (Permᴰ.swap refl refl)
      | inr one ↦ rw (kept, one) (Permᴰ.refl (x ∷ keep p zs))
    ]
    | inr dropped ↦ rw dropped (Permᴰ.refl (keep p (y ∷ zs)))
  ]

  keep-perm :
      {A : Type 0} (p : A → Bool) {xs ys : List A} → Permᴰ xs ys → Permᴰ (keep p xs) (keep p ys)
  keep-perm p Permᴰ.nil = Permᴰ.nil
  keep-perm p (Permᴰ.cons {a = x} e q) = elim (Bool-cases (p x)) [
    | inl yes' ↦ rw (← e, yes') (Permᴰ.cons refl (keep-perm p q))
    | inr no' ↦ rw (← e, no') (keep-perm p q)
  ]
  keep-perm p (Permᴰ.swap {a = x} {b = y} {l = zs} d e) = rw (← d, ← e) (keep_swap p x y zs)
  keep-perm p (Permᴰ.trans q r) = Permᴰ.trans (keep-perm p q) (keep-perm p r)

  -- The signers of a draft's rows in any order, against those of its rows in the order of insertion.
  factory_signers_of_rows :
      (did : ℕ) (t : DraftTables) {rows : List DraftMember}
      → IsSound ext t
      → Permᴰ (members_of did t.draft_members) rows
      → valid_deployable_factory_signers ext (members_of did t.draft_members)
        ≡ valid_deployable_factory_signers ext rows
  unfolding valid_deployable_factory_signers
  factory_signers_of_rows did t h p =
      draft_members_to_factory_signers_of_perm (map-perm _ (keep-perm (is_valid_row ext) p)) (
        NoSameKey-of-AllApart did _
          (All-keep _ (is_valid_row ext) _ (members_of-draft_id did t.draft_members))
          (AllApart-keep ext (is_valid_row ext) _
            (AllApart-keep ext (λ m. m.draft_id == did) t.draft_members h.apart)))

  -- In sound tables the factory's signers of a draft are the same whatever order its member rows are
  -- read in.
  pub valid_deployable_factory_signers_of_perm :
      (did : ℕ) (t : DraftTables) {rows : List DraftMember}
      → IsSound ext t
      → Permᴰ (list_multisig_draft_members_for_draft did t) rows
      → valid_deployable_factory_signers ext (list_multisig_draft_members_for_draft did t)
        ≡ valid_deployable_factory_signers ext rows
  unfolding list_multisig_draft_members_for_draft
  valid_deployable_factory_signers_of_perm did t h p =
      let ordered = order_by-perm member_created_at (members_of did t.draft_members) in
      sym (factory_signers_of_rows did t h ordered)
      ∙ factory_signers_of_rows did t h (Permᴰ.trans ordered p)
