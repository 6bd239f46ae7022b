-- ===== src/Multisig/Proposal/Approved.antt =====
-- What a successful passkey approval means.
use latch_api.Common.{ℕ, ◌≡◌, ok}
use latch_api.Common.Text.{Text}
use latch_api.Common.Database.{World}
use latch_api.Common.Ends.{Ends-run}
use latch_api.External.{External}
use latch_api.Multisig.ProposalQueries.{ProposalTables}
use latch_api.Multisig.ExecuteAuth.{AuthCodec}
use latch_api.Multisig.Proposal.Service.{Chain, approve_webauthn}
use latch_api.Multisig.Proposal.Steps.{Steps}
use latch_api.Multisig.Proposal.Approvals.{Recorded, approve_webauthn-Ends}
use latch_api.Multisig.Proposal.Execution.{at_ok}

module _ (ext : External) (codec : AuthCodec) (chain : Chain codec) where
  -- When a passkey approval succeeds, the caller had a part in the account, the proposal was pending, the
  -- member that the request names was stored, as a passkey member of that account whom the caller may act
  -- for (the caller created the account or is the user that the member is linked to), and the tables are
  -- those of before with the approval of that member upserted.
  pub approve_webauthn-Recorded :
      (w : World ProposalTables) (user_id proposal_id member_id sig_data : Text) {id : ℕ}
      → (approve_webauthn ext codec chain user_id proposal_id member_id sig_data w).0 ≡ ok id
      → Recorded ext codec chain w.store user_id proposal_id member_id sig_data id
          (approve_webauthn ext codec chain user_id proposal_id member_id sig_data w).1.store
  approve_webauthn-Recorded w user_id proposal_id member_id sig_data h =
      at_ok (λ t. Steps w.store t)
        (λ out t. Recorded ext codec chain w.store user_id proposal_id member_id sig_data out t)
        (approve_webauthn ext codec chain user_id proposal_id member_id sig_data w).0
        (approve_webauthn ext codec chain user_id proposal_id member_id sig_data w).1.store
        (Ends-run w
          (approve_webauthn-Ends ext codec chain w.store user_id proposal_id member_id sig_data))
        h
