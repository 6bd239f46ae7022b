-- ===== src/Multisig/Proposal/Steps.antt =====
-- The abstract view of the proposal service: the changes that any of its operations is made of, as a
-- step relation on the tables.
use latch_api.Common.{ℕ, ◌≡◌, refl, true, Option, some}
use latch_api.Common.Text.{Text}
use latch_api.Multisig.ProposalQueries.{
  Proposal, ProposalTables, Artifacts, is_pending, insert_multisig_proposal,
  get_multisig_proposal_by_id, update_multisig_proposal_rebuild, update_multisig_proposal_executed,
  delete_multisig_approvals_for_proposal, upsert_multisig_approval_webauthn,
  upsert_multisig_approval_delegated_begin, update_multisig_approval_delegated_finish,
}

-- The stored row of the proposal, which is pending.
abbrev pub IsOpen : ProposalTables → Proposal → Type 0
IsOpen s p = (get_multisig_proposal_by_id p.id s ≡ some p) × (is_pending p.status ≡ true)

pub data Step (s t : ProposalTables) : Type 0 where
  create :
      (p : Proposal) (id : ℕ)
      → is_pending p.status ≡ true
      → insert_multisig_proposal p s ≡ some (id, t)
      → Step s t
  clear : (p : Proposal) → IsOpen s p → t ≡ delete_multisig_approvals_for_proposal p.id s → Step s t
  rebuild :
      (p : Proposal) (a : Artifacts)
      → IsOpen s p
      → t ≡ update_multisig_proposal_rebuild p.id a s
      → Step s t
  approve :
      (p : Proposal) (id mid now out : ℕ) (sig : Option Text)
      → IsOpen s p
      → upsert_multisig_approval_webauthn id p.id mid sig now s ≡ some (out, t)
      → Step s t
  begin :
      (p : Proposal) (id mid now out : ℕ) (template signer : Option Text)
      → IsOpen s p
      → upsert_multisig_approval_delegated_begin id p.id mid template signer now s ≡ some (out, t)
      → Step s t
  finish :
      (p : Proposal) (mid : ℕ) (signed signer : Option Text)
      → IsOpen s p
      → t ≡ update_multisig_approval_delegated_finish p.id mid signed signer s
      → Step s t
  execute :
      (p : Proposal) (hash : Option Text)
      → IsOpen s p
      → t ≡ update_multisig_proposal_executed p.id hash s
      → Step s t

pub data Steps : ProposalTables → ProposalTables → Type 0 where
  done : {s t : ProposalTables} → t ≡ s → Steps s t
  next : {s t u : ProposalTables} → Step s u → Steps u t → Steps s t

-- One step.
pub Steps-of : {s t : ProposalTables} → Step s t → Steps s t
Steps-of x = next x (done refl)
