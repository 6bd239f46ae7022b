-- ===== src/Multisig/Proposal/Execution.antt =====
-- What a successful execution, refresh or approval means.
use latch_api.Common.{
  ℕ, ◌+◌, ◌≤◌, ◌<◌, ◌^◌, ◌≡◌, ◌↔◌, refl, ap, ◌∙◌, Bool, true, false, Option, some, List, Result, ok,
  err, ok-injective, Bool-cases, arith, inl, inr, length, ltb, find?, update_where, [], ◌∷◌, ◌==◌,
  keep, not, ◌%◌,
}
use mathlib.Core.Path.{subst}
use latch_api.Common.Text.{Text}
use latch_api.Common.Rows.{null_str}
use latch_api.Common.Database.{World}
use latch_api.Common.Ends.{Ends-run, OnOk}
use latch_api.External.{External}
use latch_api.Multisig.Tables.{Account}
use latch_api.Multisig.ProposalQueries.{
  Proposal, ProposalTables, Artifacts, ApprovalWithMember, by_webauthn, by_delegated, is_proposal,
  is_pending, with_artifacts, with_executed, get_multisig_proposal_by_id,
  update_multisig_proposal_executed, update_multisig_proposal_rebuild,
  delete_multisig_approvals_for_proposal, list_multisig_approvals_with_member_for_proposal,
}
use latch_api.Multisig.ExecuteAuth.{AuthCodec}
use latch_api.Multisig.Proposal.Usable.{auth_expired_at, usable}
use latch_api.Multisig.Proposal.Service.{Chain, final_entries, refresh_proposal, execute_proposal}
use latch_api.Multisig.Proposal.Owned.{Owned}
use latch_api.Multisig.Proposal.Steps.{IsOpen, Steps}
use latch_api.Multisig.Proposal.Operations.{
  refresh_proposal-Ends, Executed, Refreshed, execute_proposal-Ends,
}

mod-small : (n : ℕ) → n < 2 ^ 32 → n % 2 ^ 32 ≡ n
mod-small n small = omega (arith, small)

-- For a ledger number below 2^32, the authorisation is taken as expired exactly from 25 ledgers before
-- its last one.
pub auth_expired_at_iff :
    (latest valid_until : ℕ)
    → latest < 2 ^ 32
    → (auth_expired_at latest valid_until ≡ true) ↔ (valid_until ≤ latest + 25)
unfolding auth_expired_at
auth_expired_at_iff latest valid_until small =
    (λ h. grind (arith, mod-small latest small), λ h. grind (arith, mod-small latest small))

-- A condition of a successful result.
pub at_ok :
    {E A S : Type 0} (P : S → Type 0) (Q : A → S → Type 0) (r : Result E A) (t : S) {a : A}
    → P t × OnOk (λ x. Q x t) r
    → r ≡ ok a
    → Q a t
at_ok P Q (ok b) t h e = subst (λ x. Q x t) (ok-injective e) h.1
at_ok P Q (err b) t h e = cc

moved :
    {A B : Type 0} (f : A → B) {x y : A}
    → ◌≡◌ {A = Option A} (some x) (some y)
    → ◌≡◌ {A = Option B} (some (f x)) (some (f y))
moved f h = cc

find?-updated :
    (n : ℕ) (f : Proposal → Proposal) (xs : List Proposal) {p : Proposal}
    → ((x : Proposal) → (f x).id ≡ x.id)
    → find? (is_proposal n) xs ≡ some p
    → find? (is_proposal n) (update_where (is_proposal n) f xs) ≡ some (f p)
find?-updated n f [] same h = cc
find?-updated n f (x ∷ xs) {p} same h = elim (Bool-cases (x.id == n)) [
  | inl hit ↦ rw (hit, ap (λ k. k == n) (same x) ∙ hit) (moved f (rw hit at h))
  | inr miss ↦ rw (miss, miss) (find?-updated n f xs same (rw miss at h))
]

keep-complement : {A : Type 0} (f : A → Bool) (xs : List A) → keep f (keep (λ x. not (f x)) xs) ≡ []
keep-complement f [] = refl
keep-complement f (x ∷ xs) = elim (Bool-cases (f x)) [
  | inl hit ↦ rw hit (keep-complement f xs)
  | inr miss ↦ rw (miss, miss) (keep-complement f xs)
]

module _ (ext : External) (codec : AuthCodec) (chain : Chain codec) where
  -- What was true when `ExecuteProposal` returned a transaction hash.
  abbrev pub Authorised : ProposalTables → Text → Text → Proposal → Account → Type 0
  Authorised s user_id proposal_id p account =
      Owned ext s user_id proposal_id (p, account)
      × IsOpen s p
      × ((latest : ℕ) × (chain.latest_ledger ≡ some latest)
          × (auth_expired_at latest p.valid_until_ledger ≡ false))
      × (account.threshold
          ≤ length (usable by_webauthn (list_multisig_approvals_with_member_for_proposal p.id s))
            + length
                (usable by_delegated (list_multisig_approvals_with_member_for_proposal p.id s)))

  final_entries-threshold :
      (p : Proposal) (account : Account) (rows : List ApprovalWithMember)
      {entries : List codec.Entry}
      → final_entries ext codec chain p account rows ≡ ok entries
      → account.threshold ≤ length (usable by_webauthn rows) + length (usable by_delegated rows)
  unfolding final_entries
  final_entries-threshold p account rows h =
      elim (Bool-cases (
        ltb (length (usable by_webauthn rows) + length (usable by_delegated rows))
          account.threshold)) [
            | inl few ↦ absurd (ground arith)
            | inr enough ↦ ground (arith, enough)
          ]

  execute_proposal-Executed :
      (w : World ProposalTables) (user_id proposal_id : Text) {hash : Text}
      → (execute_proposal ext codec chain user_id proposal_id w).0 ≡ ok hash
      → Executed ext codec chain w.store user_id proposal_id hash
          (execute_proposal ext codec chain user_id proposal_id w).1.store
  execute_proposal-Executed w user_id proposal_id h =
      at_ok (λ t. Steps w.store t)
        (λ hash t. Executed ext codec chain w.store user_id proposal_id hash t)
        (execute_proposal ext codec chain user_id proposal_id w).0
        (execute_proposal ext codec chain user_id proposal_id w).1.store
        (Ends-run w (execute_proposal-Ends ext codec chain w.store user_id proposal_id)) h

  -- When an execution returns a hash, the caller had a part in the account, the proposal was pending and
  -- not near its expiry, at least as many usable approvals as the threshold were stored, and
  -- the proposal is stored as executed with that hash.
  pub execute_proposal-Authorised :
      (w : World ProposalTables) (user_id proposal_id : Text) {hash : Text}
      → (execute_proposal ext codec chain user_id proposal_id w).0 ≡ ok hash
      → (p : Proposal) × (account : Account) × Authorised w.store user_id proposal_id p account
        × (get_multisig_proposal_by_id p.id
              (execute_proposal ext codec chain user_id proposal_id w).1.store
            ≡ some (with_executed (null_str hash) p))
  unfolding get_multisig_proposal_by_id update_multisig_proposal_executed
  execute_proposal-Authorised w user_id proposal_id {hash} h =
      let (p, account, latest, entries, owned, open_row, known, fresh, built, sent, stored) =
        execute_proposal-Executed w user_id proposal_id h in
      (
        p,
        account,
        (
          owned,
          open_row,
          (latest, known, fresh),
          final_entries-threshold p account
              (list_multisig_approvals_with_member_for_proposal p.id w.store) built,
        ),
        rw stored (
            find?-updated p.id (with_executed (null_str hash)) w.store.proposals (λ x. refl)
              open_row.0),
      )

  refresh_proposal-Refreshed :
      (w : World ProposalTables) (user_id proposal_id : Text) {a : Artifacts}
      → (refresh_proposal ext codec chain user_id proposal_id w).0 ≡ ok a
      → Refreshed ext codec chain w.store user_id proposal_id a
          (refresh_proposal ext codec chain user_id proposal_id w).1.store
  refresh_proposal-Refreshed w user_id proposal_id h =
      at_ok (λ t. Steps w.store t)
        (λ a t. Refreshed ext codec chain w.store user_id proposal_id a t)
        (refresh_proposal ext codec chain user_id proposal_id w).0
        (refresh_proposal ext codec chain user_id proposal_id w).1.store
        (Ends-run w (refresh_proposal-Ends ext codec chain w.store user_id proposal_id)) h

  -- When a refresh succeeds, the caller had a part in the account, the proposal was pending, its row has
  -- the new artifacts and is otherwise as before, and no approval of it is left.
  pub refresh_proposal_cleared :
      (w : World ProposalTables) (user_id proposal_id : Text) {a : Artifacts}
      → (refresh_proposal ext codec chain user_id proposal_id w).0 ≡ ok a
      → (p : Proposal) × (account : Account) × Owned ext w.store user_id proposal_id (p, account)
        × (get_multisig_proposal_by_id p.id
              (refresh_proposal ext codec chain user_id proposal_id w).1.store
            ≡ some (with_artifacts a p))
        × (is_pending p.status ≡ true)
        × (keep
              (λ x. x.proposal_id == p.id)
              (refresh_proposal ext codec chain user_id proposal_id w).1.store.approvals
            ≡ [])
  unfolding get_multisig_proposal_by_id update_multisig_proposal_rebuild
      delete_multisig_approvals_for_proposal
  refresh_proposal_cleared w user_id proposal_id {a} h =
      let (p, account, owned, open_row, stored) =
        refresh_proposal-Refreshed w user_id proposal_id h in
      (
        p,
        account,
        owned,
        rw stored (find?-updated p.id (with_artifacts a) w.store.proposals (λ x. refl) open_row.0),
        open_row.1,
        rw stored (keep-complement (λ x. x.proposal_id == p.id) w.store.approvals),
      )
