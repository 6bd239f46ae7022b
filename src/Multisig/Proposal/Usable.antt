-- ===== src/Multisig/Proposal/Usable.antt =====
-- Data of multisig_proposal_service.go: the row of a new proposal, when its authorisation counts as
-- expired, and which stored approvals an execution can use.
use latch_api.Common.{
  ℕ, ◌-◌, ◌%◌, ◌^◌, Bool, true, false, ◌&&◌, not, none, List, [], ◌∷◌, ltb, leb, if◌then◌else◌,
}
use latch_api.Common.Text.{Text, is_empty}
use latch_api.Common.Rows.{str_or_empty}
use latch_api.Multisig.ProposalQueries.{
  pending, ApprovalType, by_webauthn, by_delegated, Proposal, Artifacts, ApprovalWithMember,
}
use latch_api.Multisig.ExecuteAuth.{MultisigApproval}

pub record CreateProposalInput : Type 0 where
  pub smart_account_address : Text
  pub operation_kind : Text
  pub target_contract_id : Text
  pub asset_id : Text
  pub contract_id : Text
  pub recipient : Text
  pub amount : Text
  pub require_matched_context_rule : Bool

abbrev pub multisig_expiry_safety_ledgers : ℕ
multisig_expiry_safety_ledgers = 25

-- `isAuthExpired` at the latest ledger, which is converted to 32 bits.
unfoldable pub auth_expired_at : ℕ → ℕ → Bool
auth_expired_at latest valid_until =
    if ltb valid_until multisig_expiry_safety_ledgers
    then true
    else leb (valid_until - multisig_expiry_safety_ledgers) (latest % 2 ^ 32)

-- The `MultisigApproval` of a row of the join.
unfoldable pub usable_form : ApprovalWithMember → MultisigApproval
usable_form row = record {
  member_id = row.approval.member_id;
  member_type = row.member.member_type;
  member_key_data_hex = str_or_empty row.member.key_data_hex;
  member_g_address = str_or_empty row.member.g_address;
  webauthn_sig_data_xdr_hex = str_or_empty row.approval.webauthn_sig_data_xdr_hex;
  delegated_entry_template_xdr = str_or_empty row.approval.delegated_entry_template_xdr;
  delegated_signed_auth_entry_base64 = str_or_empty row.approval.delegated_signed_auth_entry_base64;
  delegated_signer_address = str_or_empty row.approval.delegated_signer_address;
}

-- The two cases of the switch.
unfoldable pub is_usable : ApprovalType → MultisigApproval → Bool
is_usable by_webauthn a =
    not (is_empty a.webauthn_sig_data_xdr_hex) && not (is_empty a.member_key_data_hex)
is_usable by_delegated a =
    not (is_empty a.delegated_entry_template_xdr)
    && not (is_empty a.delegated_signed_auth_entry_base64)
    && not (is_empty a.delegated_signer_address)
    && not (is_empty a.member_g_address)

unfoldable pub is_by : ApprovalType → ApprovalType → Bool
is_by by_webauthn by_webauthn = true
is_by by_webauthn by_delegated = false
is_by by_delegated by_webauthn = false
is_by by_delegated by_delegated = true

-- The approvals that the loop appends for one of the two types.
unfoldable pub usable : ApprovalType → List ApprovalWithMember → List MultisigApproval
unfolding usable_form is_usable is_by
usable type [] = []
usable type (row ∷ rows) =
    let rest = usable type rows in
    if is_by type row.approval.approval_type && is_usable type (usable_form row)
    then usable_form row ∷ rest
    else rest

-- The row that `CreateProposal` inserts.
unfoldable pub new_proposal_row : ℕ → ℕ → ℕ → ℕ → Text → Text → Text → Artifacts → Proposal
new_proposal_row id now account_id uid kind target params a = record {
  id = id;
  multisig_account_id = account_id;
  created_by_user_id = uid;
  target_contract_id = target;
  operation_kind = kind;
  operation_params_json = params;
  tx_xdr = a.tx_xdr;
  auth_entries_xdr_json = a.auth_entries_xdr_json;
  smart_account_auth_entry_index = a.smart_account_auth_entry_index;
  context_rule_id = a.context_rule_id;
  auth_digest_hex = a.auth_digest_hex;
  signature_payload_hex = a.signature_payload_hex;
  valid_until_ledger = a.valid_until_ledger;
  status = pending;
  executed_tx_hash = none;
  created_at = now;
}
