-- ===== src/Multisig/Proposal/Access.antt =====
-- The ownership look-ups of multisig_proposal_service.go. A failed call of the database, and an outside
-- call that fails, is `internal`.
use latch_api.Common.{
  ℕ, Bool, true, false, ◌&&◌, not, Option, none, some, List, [], ◌∷◌, ◌==◌, if◌then◌else◌,
}
use latch_api.Common.Text.{Text, text_eq}
use latch_api.Common.Database.{Action, pure, ask, or_fail, fail_if, or_error, ◌>>=◌, ◌>>◌}
use latch_api.External.{External}
use latch_api.Signers.{Kind, kind_eq}
use latch_api.Multisig.Tables.{Account, Member}
use latch_api.Multisig.ProposalQueries.{
  Proposal, ProposalTables, get_multisig_account_by_address, get_multisig_account_by_id,
  list_multisig_members_for_account, get_multisig_member_by_id, get_multisig_proposal_by_id,
}
use latch_api.Multisig.ExecuteAuth.{ExecuteError}

pub data ProposalError : Type 0 where
  account_not_found proposal_not_found not_pending refreshed : ProposalError
  threshold_not_met member_not_found wrong_member_type : ProposalError
  operation_unsupported missing_field not_started no_context_rule : ProposalError
  bad_user_id bad_entries bad_signature_given internal : ProposalError
  cannot_build : ExecuteError → ProposalError

abbrev pub ProposalAction : Type 0 → Type 0
ProposalAction = Action ProposalTables ProposalError

module _ (ext : External) where
  -- `m.UserID.Valid && m.UserID.UUID.String() == userID`
  unfoldable pub is_linked_to : Text → Option ℕ → Bool
  is_linked_to user_id none = false
  is_linked_to user_id (some u) = text_eq (ext.uuid_string u) user_id

  unfoldable pub is_creator : Text → Account → Bool
  is_creator user_id account = text_eq (ext.uuid_string account.user_id) user_id

  unfoldable pub some_member_is : Text → List Member → Bool
  unfolding is_linked_to
  some_member_is user_id [] = false
  some_member_is user_id (m ∷ ms) =
      let rest = some_member_is user_id ms in if is_linked_to user_id m.user_id then true else rest

  unfoldable pub account_access_granted : Account → Text → ProposalAction Bool
  unfolding is_creator some_member_is
  account_access_granted account user_id = if is_creator user_id account then pure true else do
    members ← ask internal (list_multisig_members_for_account account.id)
    pure (some_member_is user_id members)

  unfoldable pub get_owned_account_by_address : Text → Text → ProposalAction Account
  unfolding account_access_granted
  get_owned_account_by_address address user_id = do
    found ← ask internal (get_multisig_account_by_address address)
    account ← or_fail account_not_found found
    granted ← account_access_granted account user_id
    fail_if (not granted) account_not_found
    pure account

  unfoldable pub get_owned_account_by_id : ℕ → Text → ProposalAction Account
  unfolding account_access_granted
  get_owned_account_by_id account_id user_id = do
    found ← ask internal (get_multisig_account_by_id account_id)
    account ← or_fail account_not_found found
    granted ← account_access_granted account user_id
    fail_if (not granted) account_not_found
    pure account

  unfoldable pub get_owned_proposal : Text → Text → ProposalAction (Proposal × Account)
  unfolding get_owned_account_by_id
  get_owned_proposal proposal_id user_id = do
    pid ← or_fail proposal_not_found (ext.uuid_parse proposal_id)
    found ← ask internal (get_multisig_proposal_by_id pid)
    proposal ← or_fail proposal_not_found found
    account ←
        or_error proposal_not_found (get_owned_account_by_id proposal.multisig_account_id user_id)
    pure (proposal, account)

  unfoldable pub get_owned_member : Account → Text → Text → Kind → ProposalAction Member
  unfolding is_creator is_linked_to
  get_owned_member account caller member_id expected = do
    mid ← or_fail member_not_found (ext.uuid_parse member_id)
    found ← ask internal (get_multisig_member_by_id mid)
    member ← or_fail member_not_found found
    fail_if (not (member.multisig_account_id == account.id)) member_not_found
    fail_if (not (kind_eq member.member_type expected)) wrong_member_type
    fail_if (not (is_creator caller account) && not (is_linked_to caller member.user_id))
        member_not_found
    pure member
