-- ===== src/Multisig/Draft/Additions.antt =====
-- Adding members to a draft keeps the tables sound: the checks of `addMemberToDraft` suffice.
use latch_api.Common.Text.{Text}
use latch_api.Multisig.Draft.Invariant.{insert_row-IsSound, keeps, get_draft_row_for_creator-Keeps}
use latch_api.Multisig.Draft.Serialize.{domain_member_from_row, is_valid_row}
use latch_api.Multisig.DraftQueries.{
  list_multisig_draft_members_for_draft, insert_multisig_draft_member,
}
use latch_api.Multisig.Draft.Apart.{IsSound, checked-Apart, IsValidRow, validate-new_member_row}
use latch_api.Common.Database.{
  Leads, ◌>>◌, try_query, pure, Leads-fail, Leads-try_query, Keeps-pure, Keeps, Keeps-fail,
  Keeps-Leads, Leads-ask,
}
use latch_api.Multisig.Tables.{Source, DraftMember, Draft, DraftTables}
use latch_api.Signers.{DraftMultisigMember, validate_draft_member, duplicate_member_error}
use latch_api.Multisig.Draft.Service.{
  Ambient, refuse, member_duplicate, internal, new_member_row, add_member_to_draft, add_member,
  get_draft_by_invite_token, add_member_via_invite, member_validation,
}
use latch_api.External.{External}
use latch_api.Common.{◌≡◌, ℕ, List, none, map, Option-cases, inr, inl}

module _ (ext : External) where
  checked_row-IsValid :
      (amb : Ambient) (did : ℕ) (m : DraftMultisigMember) (source : Source)
      → validate_draft_member ext m ≡ none
      → IsValidRow ext (new_member_row ext amb did m source)
  unfolding is_valid_row
  checked_row-IsValid amb did m source v = rw (validate-new_member_row ext amb did m source, v)

  add_checked :
      (amb : Ambient) (did : ℕ) (m : DraftMultisigMember) (source : Source)
      (rows : List DraftMember)
      → validate_draft_member ext m ≡ none
      → Leads
          (λ t. IsSound ext t × (list_multisig_draft_members_for_draft did t ≡ rows))
          (IsSound ext)
          (refuse member_duplicate
              (duplicate_member_error m (map (domain_member_from_row ext) rows))
            >> (try_query internal
                  (insert_multisig_draft_member (new_member_row ext amb did m source))
                >> pure tt))
  add_checked amb did m source rows v =
      elim (Option-cases (duplicate_member_error m (map (domain_member_from_row ext) rows))) [
        | inr (e, found) ↦ rw found (Leads-fail _ _ (λ t q. q.0) (member_duplicate e))
        | inl clear ↦ rw clear (
            Leads-try_query _ _ (λ t q. q.0) internal
              (insert_multisig_draft_member (new_member_row ext amb did m source)) (λ _. pure tt)
              (λ t t' a q done.
                insert_row-IsSound ext (new_member_row ext amb did m source) t t' a
                  (checked_row-IsValid amb did m source v)
                  (checked-Apart ext t amb did m source v (rw q.1 clear)) q.0 done)
              (λ _. Keeps-pure _ tt))
      ]

  pub add_member_to_draft-IsSound :
      (amb : Ambient) (draft : Draft) (m : DraftMultisigMember) (source : Source)
      → Keeps (IsSound ext) (add_member_to_draft ext amb draft m source)
  unfolding add_member_to_draft
  add_member_to_draft-IsSound amb draft m source =
      elim (Option-cases (validate_draft_member ext m)) [
        | inr (e, found) ↦ rw found (Keeps-fail _ (member_validation e))
        | inl valid ↦ rw valid (
            Keeps-Leads _ _ (
              Leads-ask _ _ (λ t q. q) internal (list_multisig_draft_members_for_draft draft.id) _
                (λ rows. add_checked amb draft.id m source rows valid)))
      ]

  pub add_member-IsSound :
      (amb : Ambient) (draft_id user_id : Text) (m : DraftMultisigMember)
      → Keeps (IsSound ext) (add_member ext amb draft_id user_id m)
  unfolding add_member
  add_member-IsSound amb draft_id user_id m =
      search (keeps, get_draft_row_for_creator-Keeps ext, add_member_to_draft-IsSound) depth 12

  pub get_draft_by_invite_token-Keeps :
      (P : DraftTables → Type 0) (amb : Ambient) (token : Text)
      → Keeps P (get_draft_by_invite_token ext amb token)
  unfolding get_draft_by_invite_token
  get_draft_by_invite_token-Keeps P amb token = search (keeps) depth 12

  pub add_member_via_invite-IsSound :
      (amb : Ambient) (token user_id : Text) (m : DraftMultisigMember)
      → Keeps (IsSound ext) (add_member_via_invite ext amb token user_id m)
  unfolding add_member_via_invite
  add_member_via_invite-IsSound amb token user_id m =
      search (keeps, get_draft_by_invite_token-Keeps, add_member_to_draft-IsSound) depth 12
