-- ===== src/Multisig/ProposalQueries.antt =====
-- The rows and queries of internal/db/generated/webapp_multisig_proposals.sql.go, and the look-ups of
-- webapp_multisig_accounts.sql.go that the proposals need. The ledger columns, `int32` in the table,
-- are plain numbers: ledger sequence numbers and rule ids are far below 2^31.
use latch_api.Multisig.Tables.{Account, Member}
use latch_api.Common.{
  ℕ, Bool, true, false, ◌&&◌, not, Option, none, some, List, [], ◌∷◌, ◌++◌, ◌==◌, if◌then◌else◌,
  keep, find?, any, update_where,
}
use latch_api.Common.Text.{Text, text_eq}
use latch_api.Common.Rows.{order_by}

pub data ProposalStatus : Type 0 where
  pending executed : ProposalStatus

pub data ApprovalType : Type 0 where
  by_webauthn by_delegated : ApprovalType

-- webapp.multisig_proposals
pub record Proposal : Type 0 where
  pub id : ℕ
  pub multisig_account_id : ℕ
  pub created_by_user_id : ℕ
  pub target_contract_id : Text
  pub operation_kind : Text
  pub operation_params_json : Text
  pub tx_xdr : Text
  pub auth_entries_xdr_json : Text
  pub smart_account_auth_entry_index : ℕ
  pub context_rule_id : ℕ
  pub auth_digest_hex : Text
  pub signature_payload_hex : Text
  pub valid_until_ledger : ℕ
  pub status : ProposalStatus
  pub executed_tx_hash : Option Text
  pub created_at : ℕ

-- webapp.multisig_approvals
pub record Approval : Type 0 where
  pub id : ℕ
  pub proposal_id : ℕ
  pub member_id : ℕ
  pub approval_type : ApprovalType
  pub webauthn_sig_data_xdr_hex : Option Text
  pub delegated_entry_template_xdr : Option Text
  pub delegated_signed_auth_entry_base64 : Option Text
  pub delegated_signer_address : Option Text
  pub created_at : ℕ

pub record ProposalTables : Type 0 where
  pub accounts : List Account
  pub members : List Member
  pub proposals : List Proposal
  pub approvals : List Approval

unfoldable pub is_pending : ProposalStatus → Bool
is_pending pending = true
is_pending executed = false

-- GetMultisigAccountByAddress
unfoldable pub get_multisig_account_by_address : Text → ProposalTables → Option Account
get_multisig_account_by_address address t =
    find? (λ a. text_eq a.smart_account_address address) t.accounts

-- GetMultisigAccountByID
unfoldable pub get_multisig_account_by_id : ℕ → ProposalTables → Option Account
get_multisig_account_by_id id t = find? (λ a. a.id == id) t.accounts

abbrev pub account_member_created_at : Member → ℕ
account_member_created_at m = m.created_at

-- ListMultisigMembersForAccount
unfoldable pub list_multisig_members_for_account : ℕ → ProposalTables → List Member
list_multisig_members_for_account aid t =
    order_by account_member_created_at (keep (λ m. m.multisig_account_id == aid) t.members)

-- GetMultisigMemberByID
unfoldable pub get_multisig_member_by_id : ℕ → ProposalTables → Option Member
get_multisig_member_by_id id t = find? (λ m. m.id == id) t.members

abbrev pub is_proposal : ℕ → Proposal → Bool
is_proposal id p = p.id == id

-- InsertMultisigProposal: the primary key is unique.
unfoldable pub insert_multisig_proposal : Proposal → ProposalTables → Option (ℕ × ProposalTables)
insert_multisig_proposal p t =
    if any (is_proposal p.id) t.proposals
    then none
    else some (p.id, record t { proposals = t.proposals ++ p ∷ [] })

-- GetMultisigProposalByID
unfoldable pub get_multisig_proposal_by_id : ℕ → ProposalTables → Option Proposal
get_multisig_proposal_by_id id t = find? (is_proposal id) t.proposals

-- The columns that `UpdateMultisigProposalRebuild` sets.
pub record Artifacts : Type 0 where
  pub tx_xdr : Text
  pub auth_entries_xdr_json : Text
  pub smart_account_auth_entry_index : ℕ
  pub context_rule_id : ℕ
  pub auth_digest_hex : Text
  pub signature_payload_hex : Text
  pub valid_until_ledger : ℕ

abbrev pub with_artifacts : Artifacts → Proposal → Proposal
with_artifacts a p = record p {
  tx_xdr = a.tx_xdr;
  auth_entries_xdr_json = a.auth_entries_xdr_json;
  smart_account_auth_entry_index = a.smart_account_auth_entry_index;
  context_rule_id = a.context_rule_id;
  auth_digest_hex = a.auth_digest_hex;
  signature_payload_hex = a.signature_payload_hex;
  valid_until_ledger = a.valid_until_ledger;
}

-- UpdateMultisigProposalRebuild
unfoldable pub update_multisig_proposal_rebuild : ℕ → Artifacts → ProposalTables → ProposalTables
update_multisig_proposal_rebuild id a t = record t {
  proposals = update_where (is_proposal id) (with_artifacts a) t.proposals;
}

abbrev pub with_executed : Option Text → Proposal → Proposal
with_executed hash p = record p { status = executed; executed_tx_hash = hash }

-- UpdateMultisigProposalExecuted
unfoldable pub update_multisig_proposal_executed : ℕ → Option Text → ProposalTables → ProposalTables
update_multisig_proposal_executed id hash t = record t {
  proposals = update_where (is_proposal id) (with_executed hash) t.proposals;
}

-- DeleteMultisigApprovalsForProposal
unfoldable pub delete_multisig_approvals_for_proposal : ℕ → ProposalTables → ProposalTables
delete_multisig_approvals_for_proposal pid t = record t {
  approvals = keep (λ a. not (a.proposal_id == pid)) t.approvals;
}

abbrev pub is_approval : ℕ → ℕ → Approval → Bool
is_approval pid mid a = a.proposal_id == pid && a.member_id == mid

-- GetMultisigApprovalByProposalAndMember
unfoldable pub get_multisig_approval_by_proposal_and_member :
    ℕ → ℕ → ProposalTables → Option Approval
get_multisig_approval_by_proposal_and_member pid mid t = find? (is_approval pid mid) t.approvals

-- `INSERT ... ON CONFLICT (proposal_id, member_id) DO UPDATE SET ...`, with the primary key unique.
unfoldable pub upsert_approval :
    Approval → (Approval → Approval) → ProposalTables → Option (ℕ × ProposalTables)
upsert_approval a change t = elim (find? (is_approval a.proposal_id a.member_id) t.approvals) [
  | some old ↦ some (
    old.id,
    record t {
      approvals = update_where (is_approval a.proposal_id a.member_id) change t.approvals;
    },
  )
  | none ↦
      if any (λ e. e.id == a.id) t.approvals
      then none
      else some (a.id, record t { approvals = t.approvals ++ a ∷ [] })
]

abbrev pub as_webauthn : Option Text → Approval → Approval
as_webauthn sig a = record a { approval_type = by_webauthn; webauthn_sig_data_xdr_hex = sig }

-- UpsertMultisigApprovalWebauthn
unfoldable pub upsert_multisig_approval_webauthn :
    ℕ → ℕ → ℕ → Option Text → ℕ → ProposalTables → Option (ℕ × ProposalTables)
unfolding upsert_approval
upsert_multisig_approval_webauthn id pid mid sig now =
    upsert_approval
      (record {
        id = id;
        proposal_id = pid;
        member_id = mid;
        approval_type = by_webauthn;
        webauthn_sig_data_xdr_hex = sig;
        delegated_entry_template_xdr = none;
        delegated_signed_auth_entry_base64 = none;
        delegated_signer_address = none;
        created_at = now;
      })
      (as_webauthn sig)

abbrev pub as_delegated : Option Text → Option Text → Approval → Approval
as_delegated template signer a = record a {
  approval_type = by_delegated;
  delegated_entry_template_xdr = template;
  delegated_signer_address = signer;
  delegated_signed_auth_entry_base64 = none;
}

-- UpsertMultisigApprovalDelegatedBegin
unfoldable pub upsert_multisig_approval_delegated_begin :
    ℕ → ℕ → ℕ → Option Text → Option Text → ℕ → ProposalTables → Option (ℕ × ProposalTables)
unfolding upsert_approval
upsert_multisig_approval_delegated_begin id pid mid template signer now =
    upsert_approval
      (record {
        id = id;
        proposal_id = pid;
        member_id = mid;
        approval_type = by_delegated;
        webauthn_sig_data_xdr_hex = none;
        delegated_entry_template_xdr = template;
        delegated_signed_auth_entry_base64 = none;
        delegated_signer_address = signer;
        created_at = now;
      })
      (as_delegated template signer)

abbrev pub with_signature : Option Text → Option Text → Approval → Approval
with_signature signed signer a = record a {
  delegated_signed_auth_entry_base64 = signed;
  delegated_signer_address = signer;
}

-- UpdateMultisigApprovalDelegatedFinish
unfoldable pub update_multisig_approval_delegated_finish :
    ℕ → ℕ → Option Text → Option Text → ProposalTables → ProposalTables
update_multisig_approval_delegated_finish pid mid signed signer t = record t {
  approvals = update_where (is_approval pid mid) (with_signature signed signer) t.approvals;
}

-- One row of `ListMultisigApprovalsWithMemberForProposal`.
pub record ApprovalWithMember : Type 0 where
  pub approval : Approval
  pub member : Member

-- `JOIN multisig_members m ON m.id = a.member_id`
unfoldable pub join_members : List Member → List Approval → List ApprovalWithMember
join_members ms [] = []
join_members ms (a ∷ approvals) =
    let rest = join_members ms approvals in
    elim (find? (λ m. m.id == a.member_id) ms) [
      | none ↦ rest
      | some m ↦ record { approval = a; member = m } ∷ rest
    ]

abbrev pub approval_created_at : Approval → ℕ
approval_created_at a = a.created_at

-- ListMultisigApprovalsWithMemberForProposal
unfoldable pub list_multisig_approvals_with_member_for_proposal :
    ℕ → ProposalTables → List ApprovalWithMember
unfolding join_members
list_multisig_approvals_with_member_for_proposal pid t =
    join_members t.members
      (order_by approval_created_at (keep (λ a. a.proposal_id == pid) t.approvals))
