-- ===== src/Multisig/Proposal/Final.antt =====
-- An executed proposal never changes again.
use latch_api.Common.{
  ℕ, ◌≡◌, ◌≢◌, refl, sym, ap, ◌∙◌, false, Option, some, List, [], ◌∷◌, ◌==◌, Bool-cases,
  Option-cases, arith, ==_iff, inl, inr, find?, update_where, any, find?-append,
}
use latch_api.Multisig.ProposalQueries.{
  Proposal, Approval, ProposalTables, with_artifacts, with_executed, is_pending, is_proposal,
  is_approval, upsert_approval, insert_multisig_proposal, get_multisig_proposal_by_id,
  update_multisig_proposal_rebuild, update_multisig_proposal_executed,
  delete_multisig_approvals_for_proposal, upsert_multisig_approval_webauthn,
  upsert_multisig_approval_delegated_begin, update_multisig_approval_delegated_finish,
}
use latch_api.Multisig.Proposal.Steps.{
  IsOpen, Step, Steps, create, clear, rebuild, approve, begin, finish, execute, done, next,
}

-- An update of one row does not touch the look-up of another.
find?-update_where :
    (n m : ℕ) (f : Proposal → Proposal) (xs : List Proposal)
    → n ≢ m
    → ((x : Proposal) → (f x).id ≡ x.id)
    → find? (is_proposal n) (update_where (is_proposal m) f xs) ≡ find? (is_proposal n) xs
find?-update_where n m f [] other same = refl
find?-update_where n m f (x ∷ xs) other same = grind (
  arith,
  same x,
  find?-update_where n m f xs other same,
  ==_iff x.id n,
  ==_iff x.id m,
  ==_iff (f x).id n,
)

abbrev pub IsFinal : ℕ → Proposal → ProposalTables → Type 0
IsFinal n q s = (get_multisig_proposal_by_id n s ≡ some q) × (is_pending q.status ≡ false)

-- A final row and an open row are of different proposals.
apart : (n : ℕ) (q p : Proposal) (s : ProposalTables) → IsFinal n q s → IsOpen s p → n ≢ p.id
apart n q p s final open_row same =
    agree (sym final.0 ∙ ap (λ k. get_multisig_proposal_by_id k s) same ∙ open_row.0)
  where
    agree : some q ≡ some p → ⊥
    agree e = cc

pub stored_store :
    {x y : ℕ} {u t : ProposalTables}
    → ◌≡◌ {A = Option (ℕ × ProposalTables)} (some (x, u)) (some (y, t))
    → t ≡ u
stored_store h = cc

upsert_approval-proposals :
    (a : Approval) (change : Approval → Approval) (s t : ProposalTables) {out : ℕ}
    → upsert_approval a change s ≡ some (out, t)
    → t.proposals ≡ s.proposals
unfolding upsert_approval
upsert_approval-proposals a change s t h =
    elim (Option-cases (find? (is_approval a.proposal_id a.member_id) s.approvals)) [
      | inl missing ↦ elim (Bool-cases (any (λ e. e.id == a.id) s.approvals)) [
        | inl taken ↦ absurd (ground arith)
        | inr free ↦ ap (λ x. x.proposals) (stored_store (rw (upsert_approval, missing, free) at h))
      ]
      | inr (old, found) ↦ ap (λ x. x.proposals) (stored_store (rw (upsert_approval, found) at h))
    ]

Step-IsFinal :
    (n : ℕ) (q : Proposal) (s t : ProposalTables) → Step s t → IsFinal n q s → IsFinal n q t
unfolding get_multisig_proposal_by_id insert_multisig_proposal update_multisig_proposal_rebuild
    update_multisig_proposal_executed delete_multisig_approvals_for_proposal
    upsert_multisig_approval_webauthn upsert_multisig_approval_delegated_begin
    update_multisig_approval_delegated_finish
Step-IsFinal n q s t (create p id new stored) final =
    elim (Bool-cases (any (is_proposal p.id) s.proposals)) [
      | inl taken ↦ absurd (ground arith)
      | inr free ↦
          rw (stored_store (rw free at stored))
            (find?-append (is_proposal n) s.proposals (p ∷ []) final.0, final.1)
    ]
Step-IsFinal n q s t (clear p open_row same) final = rw same final
Step-IsFinal n q s t (rebuild p a open_row same) final = rw same (
  find?-update_where n p.id (with_artifacts a) s.proposals (apart n q p s final open_row)
        (λ x. refl)
      ∙ final.0,
  final.1,
)
Step-IsFinal n q s t (approve p id mid now out sig open_row stored) final =
    rw (upsert_approval-proposals _ _ s t stored) final
Step-IsFinal n q s t (begin p id mid now out template signer open_row stored) final =
    rw (upsert_approval-proposals _ _ s t stored) final
Step-IsFinal n q s t (finish p mid signed signer open_row same) final = rw same final
Step-IsFinal n q s t (execute p hash open_row same) final = rw same (
  find?-update_where n p.id (with_executed hash) s.proposals (apart n q p s final open_row)
        (λ x. refl)
      ∙ final.0,
  final.1,
)

-- However many operations follow.
pub Steps-IsFinal :
    (n : ℕ) (q : Proposal) {s t : ProposalTables} → Steps s t → IsFinal n q s → IsFinal n q t
Steps-IsFinal n q (done same) final = rw same final
Steps-IsFinal n q (next x xs) final = Steps-IsFinal n q xs (Step-IsFinal n q _ _ x final)
