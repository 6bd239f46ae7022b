-- ===== src/Multisig/Proposal/Unique.antt =====
-- A member approves a proposal at most once.
use latch_api.Common.{
  ℕ, ◌≤◌, ◌≡◌, refl, ap, Bool, not, none, some, List, [], ◌∷◌, ◌++◌, ◌==◌, Bool-cases, Option-cases,
  arith, inl, inr, find?, update_where, any, keep, length, length-keep_append,
}
use latch_api.Multisig.ProposalQueries.{
  Approval, ProposalTables, as_webauthn, as_delegated, with_signature, is_approval, upsert_approval,
  insert_multisig_proposal, update_multisig_proposal_rebuild, update_multisig_proposal_executed,
  delete_multisig_approvals_for_proposal, upsert_multisig_approval_webauthn,
  upsert_multisig_approval_delegated_begin, update_multisig_approval_delegated_finish, is_proposal,
}
use latch_api.Multisig.Proposal.Final.{stored_store}
use latch_api.Multisig.Proposal.Steps.{
  Step, Steps, create, clear, rebuild, approve, begin, finish, execute, done, next,
}

-- The approvals of a proposal by a member.
abbrev pub approvals_by : ℕ → ℕ → List Approval → ℕ
approvals_by pid mid xs = length (keep (is_approval pid mid) xs)

-- The unique constraint on (proposal_id, member_id).
abbrev pub IsUnique : ProposalTables → Type 0
IsUnique s = (pid mid : ℕ) → approvals_by pid mid s.approvals ≤ 1

length-keep-keep :
    {A : Type 0} (f g : A → Bool) (xs : List A) → length (keep f (keep g xs)) ≤ length (keep f xs)
length-keep-keep f g [] = omega arith
length-keep-keep f g (x ∷ xs) = grind (arith, length-keep-keep f g xs)

approvals_by-update_where :
    (pid mid : ℕ) (g : Approval → Bool) (f : Approval → Approval) (xs : List Approval)
    → ((x : Approval) → ((f x).proposal_id ≡ x.proposal_id) × ((f x).member_id ≡ x.member_id))
    → approvals_by pid mid (update_where g f xs) ≡ approvals_by pid mid xs
approvals_by-update_where pid mid g f [] same = refl
approvals_by-update_where pid mid g f (x ∷ xs) same =
    grind (arith, approvals_by-update_where pid mid g f xs same, (same x).0, (same x).1)

keep-missing : {A : Type 0} (f : A → Bool) (xs : List A) → find? f xs ≡ none → keep f xs ≡ []
keep-missing f [] h = refl
keep-missing f (x ∷ xs) h = elim (Bool-cases (f x)) [
  | inl hit ↦ absurd (ground arith)
  | inr miss ↦ rw miss (keep-missing f xs (rw miss at h))
]

-- A new row for a pair that has none.
approvals_by-append :
    (pid mid : ℕ) (a : Approval) (xs : List Approval)
    → find? (is_approval a.proposal_id a.member_id) xs ≡ none
    → approvals_by pid mid xs ≤ 1
    → approvals_by pid mid (xs ++ a ∷ []) ≤ 1
approvals_by-append pid mid a xs missing few = elim (Bool-cases (is_approval pid mid a)) [
  | inl hit ↦
      rw (length-keep_append (is_approval pid mid) xs a)
        (grind (arith, hit, keep-missing (is_approval a.proposal_id a.member_id) xs missing))
  | inr miss ↦ rw (length-keep_append (is_approval pid mid) xs a) (rw miss (omega (arith, few)))
]

upsert_approval-IsUnique :
    (a : Approval) (change : Approval → Approval) (s t : ProposalTables) {out : ℕ}
    → ((x : Approval)
        → ((change x).proposal_id ≡ x.proposal_id) × ((change x).member_id ≡ x.member_id))
    → upsert_approval a change s ≡ some (out, t)
    → IsUnique s
    → IsUnique t
unfolding upsert_approval
upsert_approval-IsUnique a change s t same h unique pid mid =
    elim (Option-cases (find? (is_approval a.proposal_id a.member_id) s.approvals)) [
      | inl missing ↦ elim (Bool-cases (any (λ e. e.id == a.id) s.approvals)) [
        | inl taken ↦ absurd (ground arith)
        | inr free ↦
            rw (ap (λ x. x.approvals) (stored_store (rw (upsert_approval, missing, free) at h)))
              (approvals_by-append pid mid a s.approvals missing (unique pid mid))
      ]
      | inr (old, found) ↦
          rw (ap (λ x. x.approvals) (stored_store (rw (upsert_approval, found) at h))) (
            rw
              (approvals_by-update_where pid mid (is_approval a.proposal_id a.member_id) change
                s.approvals same)
              (unique pid mid))
    ]

Step-IsUnique : (s t : ProposalTables) → Step s t → IsUnique s → IsUnique t
unfolding insert_multisig_proposal update_multisig_proposal_rebuild
    update_multisig_proposal_executed delete_multisig_approvals_for_proposal
    upsert_multisig_approval_webauthn upsert_multisig_approval_delegated_begin
    update_multisig_approval_delegated_finish
Step-IsUnique s t (create p id new stored) unique =
    elim (Bool-cases (any (is_proposal p.id) s.proposals)) [
      | inl taken ↦ absurd (ground arith)
      | inr free ↦ rw (stored_store (rw free at stored)) unique
    ]
Step-IsUnique s t (clear p open_row same) unique = λ pid mid. rw same (
    omega (
      arith,
      unique pid mid,
      length-keep-keep (is_approval pid mid) (λ a. not (a.proposal_id == p.id)) s.approvals,
    ))
Step-IsUnique s t (rebuild p a open_row same) unique = rw same unique
Step-IsUnique s t (approve p id mid now out sig open_row stored) unique =
    upsert_approval-IsUnique _ (as_webauthn sig) s t (λ x. (refl, refl)) stored unique
Step-IsUnique s t (begin p id mid now out template signer open_row stored) unique =
    upsert_approval-IsUnique _ (as_delegated template signer) s t (λ x. (refl, refl)) stored unique
Step-IsUnique s t (finish p mid signed signer open_row same) unique = λ pid m. rw same (
    rw
      (approvals_by-update_where pid m (is_approval p.id mid) (with_signature signed signer)
        s.approvals (λ x. (refl, refl)))
      (unique pid m))
Step-IsUnique s t (execute p hash open_row same) unique = rw same unique

pub Steps-IsUnique : {s t : ProposalTables} → Steps s t → IsUnique s → IsUnique t
Steps-IsUnique (done same) unique = rw same unique
Steps-IsUnique (next x xs) unique = Steps-IsUnique xs (Step-IsUnique _ _ x unique)
