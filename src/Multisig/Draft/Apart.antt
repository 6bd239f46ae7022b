-- ===== src/Multisig/Draft/Apart.antt =====
-- The invariant of the draft tables, and what the checks of `addMemberToDraft` establish of the row that
-- it inserts (multisig_draft_service.go).
use latch_api.Common.{
  ℕ, ◌≡◌, refl, ◌≤◌, true, List, [], ◌∷◌, All, arith, ◌++◌, Bool, keep, ◌==◌, none, All-keep,
  All-append, All-map, All-map_of,
}
use latch_api.Common.Text.{Text}
use mathlib.Core.List.Permᴰ
use latch_api.Common.Sort.{All-perm}
use latch_api.Common.Rows.{order_by-perm}
use latch_api.Multisig.DraftQueries.{
  list_multisig_draft_members_for_draft, members_of, member_created_at,
}
use latch_api.Common.{Bool-cases, inl, inr, map}
use latch_api.External.{External}
use latch_api.Signers.{
  Kind, DraftMultisigMember, validate_draft_member, validate_kind, delegated, webauthn, ed25519,
  unknown, duplicate_member_error,
}
use latch_api.Common.Rows.{str_or_empty-null_str}
use latch_api.Signers.Duplicates.{SameKey, material, duplicate_member_error_iff}
use latch_api.Multisig.Tables.{Draft, DraftMember, DraftTables, Source}
use latch_api.Multisig.Draft.Serialize.{domain_member_from_row, is_valid_row}
use latch_api.Multisig.Draft.Service.{Ambient, new_member_row, new_member_row, Ambient}

abbrev pub HasThreshold : Draft → Type 0
HasThreshold d = 1 ≤ d.threshold

module _ (ext : External) where
  -- `q` is no second copy of `r`'s key in one draft.
  abbrev pub Apart : DraftMember → DraftMember → Type 0
  Apart r q =
      q.draft_id ≡ r.draft_id
      → ¬ SameKey (domain_member_from_row ext q) (domain_member_from_row ext r)

  abbrev pub AllApart : List DraftMember → Type 0
  AllApart [] = Unit
  AllApart (r ∷ rs) = All (Apart r) rs × AllApart rs

  abbrev pub IsValidRow : DraftMember → Type 0
  IsValidRow r = is_valid_row ext r ≡ true

  -- Every member row is valid, no draft holds one key twice, and every threshold is at least 1.
  pub record IsSound (t : DraftTables) : Type 0 where
    pub valid_rows : All IsValidRow t.draft_members
    pub apart : AllApart t.draft_members
    pub thresholds : All HasThreshold t.drafts

  pub AllApart-keep :
      (p : DraftMember → Bool) (rs : List DraftMember) → AllApart rs → AllApart (keep p rs)
  AllApart-keep p [] h = tt
  AllApart-keep p (r ∷ rs) h = ground (arith, AllApart-keep p rs h.1, All-keep (Apart r) p rs h.0)

  -- What is appended is apart from each row that is there.
  pub AllApart-append :
      (rs : List DraftMember) (q : DraftMember)
      → AllApart rs
      → All (λ r. Apart r q) rs
      → AllApart (rs ++ q ∷ [])
  AllApart-append [] q h k = (tt, tt)
  AllApart-append (r ∷ rs) q h k = (All-append (Apart r) rs q h.0 k.0, AllApart-append rs q h.1 k.1)

  validate_kind-ids :
      (k : Kind) (m : DraftMultisigMember) (i u : Text)
      → validate_kind ext k (record m { id = i; user_id = u }) ≡ validate_kind ext k m
  unfolding validate_kind
  validate_kind-ids delegated m i u = refl
  validate_kind-ids webauthn m i u = refl
  validate_kind-ids ed25519 m i u = refl
  validate_kind-ids (unknown s) m i u = refl

  material-ids :
      (k : Kind) (m : DraftMultisigMember) (i u : Text)
      → material k (record m { id = i; user_id = u }) ≡ material k m
  material-ids delegated m i u = refl
  material-ids webauthn m i u = refl
  material-ids ed25519 m i u = refl
  material-ids (unknown s) m i u = refl

  -- The row that is stored reads back as the member that was checked, but for its ids.
  pub validate-new_member_row :
      (amb : Ambient) (did : ℕ) (m : DraftMultisigMember) (source : Source)
      → validate_draft_member ext (domain_member_from_row ext (new_member_row ext amb did m source))
        ≡ validate_draft_member ext m
  unfolding validate_draft_member domain_member_from_row new_member_row
  validate-new_member_row amb did m source = simp (str_or_empty-null_str, validate_kind-ids)

  SameKey-new_member_row :
      (amb : Ambient) (did : ℕ) (m c : DraftMultisigMember) (source : Source)
      → SameKey (domain_member_from_row ext (new_member_row ext amb did m source)) c
      → SameKey m c
  unfolding domain_member_from_row new_member_row
  SameKey-new_member_row amb did m c source h = simp (str_or_empty-null_str, material-ids) at h

  All-members_of :
      (P : DraftMember → Type 0) (did : ℕ) (rs : List DraftMember)
      → All P (members_of did rs)
      → All (λ r. did ≡ r.draft_id → P r) rs
  All-members_of P did [] h = tt
  All-members_of P did (r ∷ rs) h = elim (Bool-cases (r.draft_id == did)) [
    | inl here ↦
        let both : P r × All P (members_of did rs) = rw here at h in
        (λ e. both.0, All-members_of P did rs both.1)
    | inr away ↦ (λ e. absurd (ground arith), All-members_of P did rs (rw away at h))
  ]

  -- A member that passed both checks is apart from each row that is there.
  pub checked-Apart :
      (t : DraftTables) (amb : Ambient) (did : ℕ) (m : DraftMultisigMember) (source : Source)
      → validate_draft_member ext m ≡ none
      → duplicate_member_error m
          (map (domain_member_from_row ext) (list_multisig_draft_members_for_draft did t))
        ≡ none
      → All (λ r. Apart r (new_member_row ext amb did m source)) t.draft_members
  unfolding list_multisig_draft_members_for_draft new_member_row
  checked-Apart t amb did m source v d =
      let clear : All (λ c. ¬ SameKey m c)
          (map (domain_member_from_row ext) (list_multisig_draft_members_for_draft did t)) =
        (duplicate_member_error_iff ext m _ v).0 d in
      let rows : All (λ r. ¬ SameKey m (domain_member_from_row ext r))
          (members_of did t.draft_members) =
        All-perm _ (Permᴰ.symm (order_by-perm member_created_at (members_of did t.draft_members)))
          (All-map _ (domain_member_from_row ext) _ clear) in
      All-map_of _ _ t.draft_members
        (λ r clash e same. clash e (SameKey-new_member_row amb did m _ source same))
        (All-members_of _ did t.draft_members rows)
