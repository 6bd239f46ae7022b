-- ===== src/Tests/Proposals.antt =====
-- Runs of the proposal service on one account of threshold 1 with one pending proposal.
use latch_api.Common.{
  ◌+◌, ◌<◌, ◌^◌, ◌≤◌, ◌≡◌, ◌↔◌, refl, true, false, none, some, List, [], ◌∷◌, ok, arith, All,
  length, get_elem?, keep, ◌==◌, take, ◌⊎◌,
}
use latch_api.Common.Text.{Text, codes, text_eq}
use latch_api.Common.Rows.{null_str, order_by, str_or_empty}
use latch_api.Common.Database.{World}
use latch_api.Signers.{webauthn, delegated, kind_eq}
use latch_api.Multisig.Tables.{Account, Member}
use latch_api.Multisig.ProposalQueries.{
  Proposal, Approval, ProposalTables, pending, by_webauthn, is_pending, with_executed,
  with_artifacts, get_multisig_proposal_by_id, get_multisig_account_by_id,
  list_multisig_approvals_with_member_for_proposal, join_members, update_multisig_proposal_executed,
  update_multisig_proposal_rebuild, delete_multisig_approvals_for_proposal,
  get_multisig_member_by_id, upsert_multisig_approval_webauthn, upsert_approval,
}
use latch_api.Multisig.ExecuteAuth.{
  MultisigApproval, pick_approvals_for_threshold, first_of_length, check_templates, other_entries,
  signed_delegated_entry_from_approval, signed_entries, build_multisig_execute_auth_entries,
}
use latch_api.Multisig.ExecuteAuth.Picks.{pick_approvals_for_threshold_exact}
use latch_api.Multisig.ExecuteAuth.Fresh.{
  SignsDigest, IsSubmission, build_multisig_execute_auth_entries_fresh,
}
use latch_api.Multisig.Proposal.Access.{
  is_creator, account_access_granted, get_owned_account_by_id, get_owned_proposal, get_owned_member,
}
use latch_api.Multisig.Proposal.Usable.{auth_expired_at, usable_form, is_usable, is_by, usable}
use latch_api.Multisig.Proposal.Service.{
  is_auth_expired, reconstruct_operation, build_counter_increment, rebuild_proposal,
  refresh_proposal, ensure_fresh, final_entries, execute_proposal, approve_webauthn,
}
use latch_api.Multisig.Proposal.Owned.{Owned}
use latch_api.Multisig.Proposal.Steps.{Steps}
use latch_api.Multisig.Proposal.Final.{IsFinal}
use latch_api.Multisig.Proposal.Unique.{IsUnique}
use latch_api.Multisig.Proposal.History.{
  Request, execute, refresh, serve_all, serve_all-Steps, serve_all-IsFinal, serve_all-IsUnique,
}
use latch_api.Multisig.Proposal.Execution.{
  Authorised, auth_expired_at_iff, execute_proposal-Authorised, refresh_proposal_cleared,
}
use latch_api.Multisig.Proposal.Approved.{approve_webauthn-Recorded}
use latch_api.Multisig.Proposal.Approvals.{Recorded}
use latch_api.Tests.Setting.{ext, codec, chain, artifacts}

abbrev user : Text
user = 7 ∷ []

abbrev proposal_id : Text
proposal_id = 5 ∷ []

abbrev account : Account
account = record {
  id = 1;
  user_id = 7;
  smart_account_address = codes "CACCOUNT";
  threshold = 1;
  account_salt_hex = codes "00";
  created_at = 10;
}

abbrev member : Member
member = record {
  id = 2;
  multisig_account_id = 1;
  member_type = webauthn;
  label = none;
  key_data_hex = some (codes "04");
  credential_id = none;
  g_address = none;
  created_at = 10;
  user_id = none;
}

abbrev proposal : Proposal
proposal = record {
  id = 5;
  multisig_account_id = 1;
  created_by_user_id = 7;
  target_contract_id = codes "CTARGET";
  operation_kind = codes "counter_increment";
  operation_params_json = codes "{}";
  tx_xdr = codes "tx";
  auth_entries_xdr_json = codes "entry";
  smart_account_auth_entry_index = 0;
  context_rule_id = 0;
  auth_digest_hex = codes "entry";
  signature_payload_hex = codes "payload";
  valid_until_ledger = 5000;
  status = pending;
  executed_tx_hash = none;
  created_at = 20;
}

abbrev approval : Approval
approval = record {
  id = 3;
  proposal_id = 5;
  member_id = 2;
  approval_type = by_webauthn;
  webauthn_sig_data_xdr_hex = some (codes "ab");
  delegated_entry_template_xdr = none;
  delegated_signed_auth_entry_base64 = none;
  delegated_signer_address = none;
  created_at = 30;
}

abbrev tables : ProposalTables
tables = record {
  accounts = account ∷ [];
  members = member ∷ [];
  proposals = proposal ∷ [];
  approvals = approval ∷ [];
}

abbrev world : World ProposalTables
world = record { store = tables; calls = 0; outage = λ n. false }

executes : (execute_proposal ext codec chain user proposal_id world).0 ≡ ok (codes "hash")
unfolding execute_proposal get_owned_proposal get_owned_account_by_id account_access_granted
    is_creator get_multisig_proposal_by_id get_multisig_account_by_id ensure_fresh is_auth_expired
    auth_expired_at is_pending final_entries usable usable_form is_usable is_by
    pick_approvals_for_threshold first_of_length build_multisig_execute_auth_entries check_templates
    other_entries signed_entries list_multisig_approvals_with_member_for_proposal join_members
    update_multisig_proposal_executed text_eq order_by str_or_empty
executes = refl

execute_proposal-Authorised_example :
    (p : Proposal) × (a : Account) × Authorised ext codec chain tables user proposal_id p a
    × (get_multisig_proposal_by_id p.id
          (execute_proposal ext codec chain user proposal_id world).1.store
        ≡ some (with_executed (null_str (codes "hash")) p))
execute_proposal-Authorised_example =
    execute_proposal-Authorised ext codec chain world user proposal_id executes

approves : (approve_webauthn ext codec chain user proposal_id (2 ∷ []) (codes "CD") world).0 ≡ ok 3
unfolding approve_webauthn get_owned_proposal get_owned_account_by_id account_access_granted
    is_creator get_multisig_proposal_by_id get_multisig_account_by_id is_pending get_owned_member
    get_multisig_member_by_id kind_eq upsert_multisig_approval_webauthn upsert_approval text_eq
approves = refl

approve_webauthn-Recorded_example :
    Recorded ext codec chain tables user proposal_id
      (2 ∷ [])
      (codes "CD")
      3
      (approve_webauthn ext codec chain user proposal_id (2 ∷ []) (codes "CD") world).1.store
approve_webauthn-Recorded_example =
    approve_webauthn-Recorded ext codec chain world user proposal_id (2 ∷ []) (codes "CD") approves

refreshes : (refresh_proposal ext codec chain user proposal_id world).0 ≡ ok artifacts
unfolding refresh_proposal get_owned_proposal get_owned_account_by_id account_access_granted
    is_creator get_multisig_proposal_by_id get_multisig_account_by_id is_pending rebuild_proposal
    reconstruct_operation build_counter_increment delete_multisig_approvals_for_proposal
    update_multisig_proposal_rebuild text_eq
refreshes = refl

refresh_proposal_cleared_example :
    (p : Proposal) × (a : Account) × Owned ext tables user proposal_id (p, a)
    × (get_multisig_proposal_by_id p.id
          (refresh_proposal ext codec chain user proposal_id world).1.store
        ≡ some (with_artifacts artifacts p))
    × (is_pending p.status ≡ true)
    × (keep
          (λ x. x.proposal_id == p.id)
          (refresh_proposal ext codec chain user proposal_id world).1.store.approvals
        ≡ [])
refresh_proposal_cleared_example =
    refresh_proposal_cleared ext codec chain world user proposal_id refreshes

-- The proposal after its execution.
abbrev finished : Proposal
finished = with_executed (some (codes "hash")) proposal

abbrev finished_world : World ProposalTables
finished_world = record world { store = record tables { proposals = finished ∷ [] } }

abbrev requests : List Request
requests = refresh user proposal_id ∷ execute user proposal_id ∷ []

finished_row : IsFinal 5 finished finished_world.store
unfolding get_multisig_proposal_by_id is_pending
finished_row = (refl, refl)

serve_all-IsFinal_example :
    IsFinal 5 finished (serve_all ext codec (λ n. chain) requests finished_world).store
serve_all-IsFinal_example =
    serve_all-IsFinal ext codec (λ n. chain) requests finished_world 5 finished finished_row

serve_all-Steps_example : Steps tables (serve_all ext codec (λ n. chain) requests world).store
serve_all-Steps_example = serve_all-Steps ext codec (λ n. chain) requests world

one_approval : IsUnique tables
one_approval pid mid = ground arith

serve_all-IsUnique_example : IsUnique (serve_all ext codec (λ n. chain) requests world).store
serve_all-IsUnique_example = serve_all-IsUnique ext codec (λ n. chain) requests world one_approval

small_ledger : 1000 < 2 ^ 32
small_ledger = omega arith

auth_expired_at_iff_example : (auth_expired_at 1000 1025 ≡ true) ↔ (1025 ≤ 1000 + 25)
auth_expired_at_iff_example = auth_expired_at_iff 1000 1025 small_ledger

abbrev passkey : MultisigApproval
passkey = record {
  member_id = 2;
  member_type = webauthn;
  member_key_data_hex = codes "04";
  member_g_address = [];
  webauthn_sig_data_xdr_hex = codes "ab";
  delegated_entry_template_xdr = [];
  delegated_signed_auth_entry_base64 = [];
  delegated_signer_address = [];
}

abbrev wallet : MultisigApproval
wallet = record {
  member_id = 4;
  member_type = delegated;
  member_key_data_hex = [];
  member_g_address = codes "G";
  webauthn_sig_data_xdr_hex = [];
  delegated_entry_template_xdr = codes "entry";
  delegated_signed_auth_entry_base64 = codes "signed";
  delegated_signer_address = codes "G";
}

two_of_three : 2 ≤ length (passkey ∷ []) + length (wallet ∷ wallet ∷ [])
two_of_three = omega arith

pick_approvals_for_threshold_exact_example :
    let (pw, pd) = pick_approvals_for_threshold 2 (passkey ∷ []) (wallet ∷ wallet ∷ []) in
    (length pw + length pd ≡ 2)
    × ((pd ≡ []) ⊎ (pw ≡ passkey ∷ []))
    × (pw ≡ take (length pw) (passkey ∷ []))
    × (pd ≡ take (length pd) (wallet ∷ wallet ∷ []))
pick_approvals_for_threshold_exact_example =
    pick_approvals_for_threshold_exact 2 (passkey ∷ []) (wallet ∷ wallet ∷ []) two_of_three

abbrev entries : List Text
entries = codes "entry" ∷ [] ∷ codes "other" ∷ []

builds :
    build_multisig_execute_auth_entries codec entries 0 0 (passkey ∷ []) (wallet ∷ [])
    ≡ ok (codes "approved entry" ∷ codes "other" ∷ codes "signed" ∷ [])
unfolding build_multisig_execute_auth_entries check_templates other_entries signed_entries
    signed_delegated_entry_from_approval text_eq
builds = refl

build_multisig_execute_auth_entries_fresh_example :
    (entry : Text) × (digest : Text) × (get_elem? entries 0 ≡ some entry)
    × (codec.live_digest entry 0 ≡ some digest)
    × All (SignsDigest codec digest) (wallet ∷ [])
    × IsSubmission codec entries 0 0
        (passkey ∷ [])
        (wallet ∷ [])
        entry
        (codes "approved entry" ∷ codes "other" ∷ codes "signed" ∷ [])
build_multisig_execute_auth_entries_fresh_example =
    build_multisig_execute_auth_entries_fresh codec entries 0 0 (passkey ∷ []) (wallet ∷ []) builds
