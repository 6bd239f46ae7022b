-- ===== src/Multisig/Proposal/Service.antt =====
-- The operations of multisig_proposal_service.go. What they reach outside of the database is the
-- parameter `Chain`: the Soroban RPC node, the bundler, and the building of the host-function call and of
-- its simulated artifacts (`simulateAndExtract`), which is XDR work.
use latch_api.Common.{
  ℕ, ◌+◌, Bool, ◌&&◌, not, Option, none, some, List, ltb, if◌then◌else◌, length, get_elem?, Result,
  ok, err,
}
use latch_api.Common.Text.{Text, codes, is_empty, text_eq}
use latch_api.Common.Rows.{null_str, str_or_empty}
use latch_api.Common.Database.{pure, fail, try_query, ask, exec, or_fail, fail_if, ◌>>=◌, ◌>>◌}
use latch_api.External.{External}
use latch_api.Signers.{webauthn, delegated, normalize_hex}
use latch_api.Multisig.Tables.{Account}
use latch_api.Multisig.ProposalQueries.{
  by_webauthn, by_delegated, Proposal, Artifacts, ApprovalWithMember, is_pending,
  insert_multisig_proposal, update_multisig_proposal_rebuild, update_multisig_proposal_executed,
  delete_multisig_approvals_for_proposal, get_multisig_approval_by_proposal_and_member,
  upsert_multisig_approval_webauthn, upsert_multisig_approval_delegated_begin,
  update_multisig_approval_delegated_finish, list_multisig_approvals_with_member_for_proposal,
}
use latch_api.Multisig.ExecuteAuth.{
  AuthCodec, pick_approvals_for_threshold, build_multisig_execute_auth_entries,
}
use latch_api.Multisig.Proposal.Usable.{
  CreateProposalInput, auth_expired_at, usable, new_proposal_row,
}
use latch_api.Multisig.Proposal.Access.{
  ProposalError, ProposalAction, not_pending, refreshed, threshold_not_met, wrong_member_type,
  operation_unsupported, missing_field, not_started, no_context_rule, bad_user_id, bad_entries,
  bad_signature_given, internal, cannot_build, get_owned_account_by_address, get_owned_proposal,
  get_owned_member,
}

pub record Template : Type 0 where
  pub entry_template_xdr_base64 : Text

pub record Chain (codec : AuthCodec) : Type 1 where
  pub HostCall : Type 0
  -- time.Now().UnixMilli() and uuid.New()
  pub now : ℕ
  pub new_uuid : ℕ
  -- GetLatestLedger
  pub latest_ledger : Option ℕ
  -- The call `increment` on a target contract, and `transfer` from the stored parameters.
  pub increment_call : Text → Text → Option HostCall
  pub stored_transfer : Text → Text → Option (HostCall × Text)
  -- buildSacTransferOperation: the call, the token contract and the parameters to store
  pub new_transfer : CreateProposalInput → Result ProposalError (HostCall × Text × Text)
  -- simulateAndExtract, and whether a context rule matched
  pub simulate : Text → HostCall → Text → Option (Artifacts × Bool)
  -- buildDelegatedCheckAuthTemplate and verifyDelegatedSignature
  pub check_auth_template : Text → Text → codec.Entry → ℕ → ℕ → Option Template
  pub verify_signature : Text → Text → Text → Bool
  -- SubmitAuthEntries: the hash of the transaction
  pub submit : Text → List codec.Entry → Option Text

abbrev pub or_result : {A : Type 0} → Result ProposalError A → ProposalAction A
or_result (ok a) = pure a
or_result (err e) = fail e

module _ (ext : External) (codec : AuthCodec) (chain : Chain codec) where
  open chain use {
    HostCall, now, new_uuid, latest_ledger, increment_call, stored_transfer, new_transfer, simulate,
    check_auth_template, verify_signature, submit,
  }

  -- `buildCounterIncrementOperation`: the call, the target and the parameters.
  unfoldable pub build_counter_increment :
      Text → Text → Result ProposalError (HostCall × Text × Text)
  build_counter_increment address target =
      if is_empty target then err missing_field else elim (increment_call address target) [
        | none ↦ err internal
        | some call ↦ ok (call, target, codes "{}")
      ]

  unfoldable pub reconstruct_operation :
      Text → Text → Text → Text → Result ProposalError (HostCall × Text × Text)
  unfolding build_counter_increment
  reconstruct_operation address kind target params =
      if text_eq kind (codes "counter_increment")
      then build_counter_increment address target
      else if text_eq kind (codes "sac_transfer")
      then elim (stored_transfer address params) [
        | none ↦ err internal
        | some (call, token) ↦ ok (call, token, params)
      ]
      else err operation_unsupported

  -- The switch of `CreateProposal`.
  unfoldable pub new_operation : CreateProposalInput → Result ProposalError (HostCall × Text × Text)
  unfolding build_counter_increment
  new_operation input =
      if text_eq input.operation_kind (codes "counter_increment")
      then build_counter_increment input.smart_account_address input.target_contract_id
      else if text_eq input.operation_kind (codes "sac_transfer")
      then new_transfer input
      else err operation_unsupported

  unfoldable pub create_proposal : Text → CreateProposalInput → ProposalAction ℕ
  unfolding new_operation new_proposal_row
  create_proposal user_id input = do
    account ← get_owned_account_by_address ext input.smart_account_address user_id
    (call, target, params) ← or_result (new_operation input)
    (artifacts, matched) ← or_fail internal (simulate input.smart_account_address call target)
    fail_if (input.require_matched_context_rule && not matched) no_context_rule
    uid ← or_fail bad_user_id (ext.uuid_parse user_id)
    try_query internal (
        insert_multisig_proposal (
          new_proposal_row new_uuid now account.id uid input.operation_kind target params
            artifacts))

  unfoldable pub is_auth_expired : ℕ → ProposalAction Bool
  unfolding auth_expired_at
  is_auth_expired valid_until = do
    latest ← or_fail internal latest_ledger
    pure (auth_expired_at latest valid_until)

  unfoldable pub rebuild_proposal : Proposal → Account → ProposalAction Artifacts
  unfolding reconstruct_operation
  rebuild_proposal p account = do
    (call, target, params) ← or_result (
        reconstruct_operation account.smart_account_address p.operation_kind p.target_contract_id
          p.operation_params_json)
    (artifacts, matched) ← or_fail internal (simulate account.smart_account_address call target)
    exec internal (delete_multisig_approvals_for_proposal p.id)
    exec internal (update_multisig_proposal_rebuild p.id artifacts)
    pure artifacts

  unfoldable pub refresh_proposal : Text → Text → ProposalAction Artifacts
  refresh_proposal user_id proposal_id = do
    (p, account) ← get_owned_proposal ext proposal_id user_id
    fail_if (not (is_pending p.status)) not_pending
    rebuild_proposal p account

  unfoldable pub ensure_fresh : Proposal → Account → ProposalAction Proposal
  unfolding is_auth_expired
  ensure_fresh p account = do
    expired ← is_auth_expired p.valid_until_ledger
    if expired then (rebuild_proposal p account >> fail refreshed) else pure p

  unfoldable pub approve_webauthn : Text → Text → Text → Text → ProposalAction ℕ
  approve_webauthn user_id proposal_id member_id sig_data = do
    (p, account) ← get_owned_proposal ext proposal_id user_id
    fail_if (not (is_pending p.status)) not_pending
    member ← get_owned_member ext account user_id member_id webauthn
    try_query internal (
        upsert_multisig_approval_webauthn new_uuid p.id member.id
          (null_str (normalize_hex sig_data)) now)

  unfoldable pub approve_delegated_begin : Text → Text → Text → ProposalAction Template
  approve_delegated_begin user_id proposal_id member_id = do
    (p, account) ← get_owned_proposal ext proposal_id user_id
    fail_if (not (is_pending p.status)) not_pending
    fresh ← ensure_fresh p account
    member ← get_owned_member ext account user_id member_id delegated
    fail_if (is_empty (str_or_empty member.g_address)) wrong_member_type
    entries ← or_fail bad_entries (codec.decode_entries fresh.auth_entries_xdr_json)
    entry ← or_fail bad_entries (get_elem? entries fresh.smart_account_auth_entry_index)
    template ← or_fail internal (
        check_auth_template account.smart_account_address (str_or_empty member.g_address) entry
          fresh.context_rule_id fresh.valid_until_ledger)
    try_query internal (
        upsert_multisig_approval_delegated_begin new_uuid fresh.id member.id
          (null_str template.entry_template_xdr_base64) (null_str (str_or_empty member.g_address))
          now)
    pure template

  unfoldable pub approve_delegated_finish : Text → Text → Text → Text → Text → ProposalAction ℕ
  approve_delegated_finish user_id proposal_id member_id signed signer = do
    (p, account) ← get_owned_proposal ext proposal_id user_id
    fail_if (not (is_pending p.status)) not_pending
    member ← get_owned_member ext account user_id member_id delegated
    found ← ask internal (get_multisig_approval_by_proposal_and_member p.id member.id)
    existing ← or_fail not_started found
    fail_if (is_empty (str_or_empty existing.delegated_entry_template_xdr)) not_started
    fail_if
        (not (verify_signature (str_or_empty existing.delegated_entry_template_xdr) signed signer))
        bad_signature_given
    exec internal (
        update_multisig_approval_delegated_finish p.id member.id (null_str signed)
          (null_str signer))
    pure existing.id

  -- The entries that an execution submits, from the rows of the join.
  unfoldable pub final_entries :
      Proposal → Account → List ApprovalWithMember → Result ProposalError (List codec.Entry)
  unfolding usable
  final_entries p account rows =
      let ws = usable by_webauthn rows in
      let ds = usable by_delegated rows in
      let picked = pick_approvals_for_threshold account.threshold ws ds in
      if ltb (length ws + length ds) account.threshold
      then err threshold_not_met
      else elim (codec.decode_entries p.auth_entries_xdr_json) [
        | none ↦ err bad_entries
        | some entries ↦
            elim (build_multisig_execute_auth_entries codec entries p.smart_account_auth_entry_index
              p.context_rule_id picked.0 picked.1) [ ok es ↦ ok es | err e ↦ err (cannot_build e) ]
      ]

  unfoldable pub execute_proposal : Text → Text → ProposalAction Text
  unfolding final_entries
  execute_proposal user_id proposal_id = do
    (p, account) ← get_owned_proposal ext proposal_id user_id
    fail_if (not (is_pending p.status)) not_pending
    fresh ← ensure_fresh p account
    rows ← ask internal (list_multisig_approvals_with_member_for_proposal fresh.id)
    entries ← or_result (final_entries fresh account rows)
    hash ← or_fail internal (submit fresh.tx_xdr entries)
    exec internal (update_multisig_proposal_executed fresh.id (null_str hash))
    pure hash
