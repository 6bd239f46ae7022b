-- ===== src/Multisig/Proposal/History.antt =====
-- Any sequence of requests to MultisigProposalService, one after the other, from any users and with any
-- failures of the database; `chains n` is what the n-th request finds outside of it.
use latch_api.Common.{ℕ, suc, refl, List, [], ◌∷◌}
use latch_api.Common.Text.{Text}
use latch_api.Common.Database.{World}
use latch_api.Common.Ends.{Ends-run}
use latch_api.External.{External}
use latch_api.Multisig.ProposalQueries.{Proposal, ProposalTables}
use latch_api.Multisig.ExecuteAuth.{AuthCodec}
use latch_api.Multisig.Proposal.Access.{ProposalAction}
use latch_api.Multisig.Proposal.Usable.{CreateProposalInput}
use latch_api.Multisig.Proposal.Service.{
  Chain, create_proposal, refresh_proposal, approve_webauthn, approve_delegated_begin,
  approve_delegated_finish, execute_proposal,
}
use latch_api.Multisig.Proposal.Steps.{Steps, done, next}
use latch_api.Multisig.Proposal.Operations.{refresh_proposal-Ends, execute_proposal-Ends}
use latch_api.Multisig.Proposal.Approvals.{
  approve_webauthn-Ends, approve_delegated_begin-Ends, approve_delegated_finish-Ends,
}
use latch_api.Multisig.Proposal.Creation.{create_proposal-Ends}
use latch_api.Multisig.Proposal.Final.{IsFinal, Steps-IsFinal}
use latch_api.Multisig.Proposal.Unique.{IsUnique, Steps-IsUnique}

pub data Request : Type 0 where
  create : Text → CreateProposalInput → Request
  refresh : Text → Text → Request
  approve : Text → Text → Text → Text → Request
  begin_delegated : Text → Text → Text → Request
  finish_delegated : Text → Text → Text → Text → Text → Request
  execute : Text → Text → Request

pub Steps-append : {s t u : ProposalTables} → Steps s t → Steps t u → Steps s u
Steps-append (done same) ys = rw same at ys
Steps-append (next x xs) ys = next x (Steps-append xs ys)

module _ (ext : External) (codec : AuthCodec) where
  abbrev after : {A : Type 0} → World ProposalTables → ProposalAction A → World ProposalTables
  after w m = (m w).1

  -- The tables after one request.
  unfoldable pub serve : Chain codec → Request → World ProposalTables → World ProposalTables
  serve chain (create user input) w = after w (create_proposal ext codec chain user input)
  serve chain (refresh user id) w = after w (refresh_proposal ext codec chain user id)
  serve chain (approve user id member sig) w =
      after w (approve_webauthn ext codec chain user id member sig)
  serve chain (begin_delegated user id member) w =
      after w (approve_delegated_begin ext codec chain user id member)
  serve chain (finish_delegated user id member signed signer) w =
      after w (approve_delegated_finish ext codec chain user id member signed signer)
  serve chain (execute user id) w = after w (execute_proposal ext codec chain user id)

  unfoldable pub serve_all :
      (ℕ → Chain codec) → List Request → World ProposalTables → World ProposalTables
  unfolding serve
  serve_all chains [] w = w
  serve_all chains (r ∷ rs) w = serve_all (λ n. chains (suc n)) rs (serve (chains 0) r w)

  serve-Steps :
      (chain : Chain codec) (r : Request) (w : World ProposalTables)
      → Steps w.store (serve chain r w).store
  unfolding serve
  serve-Steps chain (create user input) w =
      (Ends-run w (create_proposal-Ends ext codec chain w.store user input)).0
  serve-Steps chain (refresh user id) w =
      (Ends-run w (refresh_proposal-Ends ext codec chain w.store user id)).0
  serve-Steps chain (approve user id member sig) w =
      (Ends-run w (approve_webauthn-Ends ext codec chain w.store user id member sig)).0
  serve-Steps chain (begin_delegated user id member) w =
      (Ends-run w (approve_delegated_begin-Ends ext codec chain w.store user id member)).0
  serve-Steps chain (finish_delegated user id member signed signer) w =
      (Ends-run w
        (approve_delegated_finish-Ends ext codec chain w.store user id member signed signer)).0
  serve-Steps chain (execute user id) w =
      (Ends-run w (execute_proposal-Ends ext codec chain w.store user id)).0

  -- Whatever requests are served, and whichever of their database calls fail, the tables change by steps
  -- of the relation `Step` only.
  pub serve_all-Steps :
      (chains : ℕ → Chain codec) (rs : List Request) (w : World ProposalTables)
      → Steps w.store (serve_all chains rs w).store
  unfolding serve_all
  serve_all-Steps chains [] w = done refl
  serve_all-Steps chains (r ∷ rs) w =
      Steps-append (serve-Steps (chains 0) r w)
        (serve_all-Steps (λ n. chains (suc n)) rs (serve (chains 0) r w))

  -- A proposal that is not pending is still found with the same row after any requests, with any of
  -- their database calls failing.
  pub serve_all-IsFinal :
      (chains : ℕ → Chain codec) (rs : List Request) (w : World ProposalTables) (n : ℕ)
      (q : Proposal)
      → IsFinal n q w.store
      → IsFinal n q (serve_all chains rs w).store
  serve_all-IsFinal chains rs w n q = Steps-IsFinal n q (serve_all-Steps chains rs w)

  -- If no member has two approvals of one proposal, none has after any requests, with any of their
  -- database calls failing.
  pub serve_all-IsUnique :
      (chains : ℕ → Chain codec) (rs : List Request) (w : World ProposalTables)
      → IsUnique w.store
      → IsUnique (serve_all chains rs w).store
  serve_all-IsUnique chains rs w = Steps-IsUnique (serve_all-Steps chains rs w)
