-- ===== src/Multisig/Proposal/Creation.antt =====
-- The creation of a proposal, as a sequence of steps.
use latch_api.Common.{ℕ, ◌≡◌, refl, ◌&&◌, not, some, Result}
use latch_api.Common.Text.{Text}
use latch_api.Common.Ends.{
  Ends, OnOk, Ends-check, Ends-or_fail, Ends-last_try_query, Ends-bind, Ends-at,
}
use latch_api.External.{External}
use latch_api.Multisig.Tables.{Account}
use latch_api.Multisig.ProposalQueries.{Proposal, ProposalTables, is_pending}
use latch_api.Multisig.ExecuteAuth.{AuthCodec}
use latch_api.Multisig.Proposal.Access.{ProposalError, internal, no_context_rule, bad_user_id}
use latch_api.Multisig.Proposal.Usable.{new_proposal_row}
use latch_api.Multisig.Proposal.Service.{Chain, create_proposal, new_operation}
use latch_api.Multisig.Proposal.Owned.{Reads, get_owned_account_by_address-Ends, IsParty}
use latch_api.Multisig.Proposal.Steps.{Steps, create, done, Steps-of}
use latch_api.Multisig.ProposalQueries.{insert_multisig_proposal, get_multisig_account_by_address}
use latch_api.Multisig.Proposal.Usable.{CreateProposalInput}
use latch_api.Multisig.Proposal.Operations.{Ends-or_result}

module _ (ext : External) (codec : AuthCodec) (chain : Chain codec) where
  abbrev pub Creates :
      ProposalTables → Text → CreateProposalInput → Result ProposalError ℕ → ProposalTables → Type 0
  Creates s user_id input r t =
      Steps s t
      × OnOk
          (λ id.
            (account : Account) × (p : Proposal) × IsParty ext s user_id account
            × (p.multisig_account_id ≡ account.id)
            × (insert_multisig_proposal p s ≡ some (id, t)))
          r

  pub create_proposal-Ends :
      (s : ProposalTables) (user_id : Text) (input : CreateProposalInput)
      → Ends s (Creates s user_id input) (create_proposal ext codec chain user_id input)
  unfolding create_proposal new_proposal_row is_pending
  create_proposal-Ends s user_id input =
      Ends-bind
        (Reads s (λ account.
          (get_multisig_account_by_address input.smart_account_address s ≡ some account)
          × IsParty ext s user_id account))
        _ _ (get_owned_account_by_address-Ends ext s input.smart_account_address user_id)
        (λ e t h. (done h.0, tt))
        (λ account t h. Ends-at h.0 (
          Ends-or_result (new_operation ext codec chain input) _ (λ e. (done refl, tt))
            (λ (call, target, params) built.
              Ends-or_fail internal (chain.simulate input.smart_account_address call target) _
                (λ _. (done refl, tt))
                (λ (artifacts, matched) simulated.
                  Ends-check (input.require_matched_context_rule && not matched) no_context_rule _
                    (λ _. (done refl, tt))
                    (λ allowed.
                      Ends-or_fail bad_user_id (ext.uuid_parse user_id) _ (λ _. (done refl, tt))
                        (λ uid parsed.
                          Ends-last_try_query _ _ (done refl, tt)
                            (λ id u stored. (
                              Steps-of (create _ id refl stored),
                              (account, _, h.1.1, refl, stored),
                            ))))))))
