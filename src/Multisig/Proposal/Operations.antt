-- ===== src/Multisig/Proposal/Operations.antt =====
-- Each operation of the proposal service is a sequence of steps, whatever calls of the database fail.
use latch_api.Common.Database.{◌>>=◌}
use latch_api.Common.{
  ℕ, ◌≡◌, refl, sym, ◌∙◌, Bool, true, false, not, some, List, [], ◌∷◌, Result, ok, err, Bool-cases,
  arith, ==_iff, inl, inr, find?,
}
use mathlib.Core.Path.{subst}
use latch_api.Common.Text.{Text}
use latch_api.Common.Rows.{null_str}
use latch_api.Common.Ends.{
  Ends, OnOk, Ends-pure, Ends-fail, Ends-ask, Ends-exec, Ends-check, Ends-or_fail, Ends-bind,
  Ends-if, Ends-at, Ends-weaken,
}
use latch_api.Common.Database.{pure, ask, exec, or_fail, ◌>>=◌, ◌>>◌}
use latch_api.External.{External}
use latch_api.Multisig.Tables.{Account}
use latch_api.Multisig.ProposalQueries.{
  Proposal, ProposalTables, Artifacts, is_pending, is_proposal, get_multisig_proposal_by_id,
  list_multisig_approvals_with_member_for_proposal, delete_multisig_approvals_for_proposal,
  update_multisig_proposal_rebuild, update_multisig_proposal_executed,
}
use latch_api.Multisig.ExecuteAuth.{AuthCodec}
use latch_api.Multisig.Proposal.Access.{
  ProposalError, ProposalAction, internal, not_pending, refreshed,
}
use latch_api.Multisig.Proposal.Usable.{auth_expired_at}
use latch_api.Multisig.Proposal.Service.{
  Chain, or_result, reconstruct_operation, is_auth_expired, rebuild_proposal, refresh_proposal,
  ensure_fresh, final_entries, execute_proposal,
}
use latch_api.Multisig.Proposal.Owned.{Owned, Reads, get_owned_proposal-Ends}
use latch_api.Multisig.Proposal.Steps.{IsOpen, Steps, clear, rebuild, execute, done, next, Steps-of}

pub Ends-or_result :
    {A B : Type 0} {s : ProposalTables} {R : Result ProposalError B → ProposalTables → Type 0}
    (r : Result ProposalError A) (k : A → ProposalAction B)
    → ((e : ProposalError) → R (err e) s)
    → ((a : A) → r ≡ ok a → Ends s R (k a))
    → Ends s R (λ w. (or_result r >>= k) w)
Ends-or_result (ok a) k bad h = h a refl
Ends-or_result (err e) k bad h = record { run = λ n o. bad e }

find?-holds : {A : Type 0} (f : A → Bool) (xs : List A) {x : A} → find? f xs ≡ some x → f x ≡ true
find?-holds f [] h = cc
find?-holds f (y ∷ ys) {x} h = elim (Bool-cases (f y)) [
  | inl hit ↦ ground (arith, hit)
  | inr miss ↦ find?-holds f ys (rw miss at h)
]

-- The store after a rebuild that went through.
abbrev pub rebuilt : Proposal → Artifacts → ProposalTables → ProposalTables
rebuilt p a s =
    update_multisig_proposal_rebuild p.id a (delete_multisig_approvals_for_proposal p.id s)

abbrev pub Rebuilds :
    ProposalTables → Proposal → Result ProposalError Artifacts → ProposalTables → Type 0
Rebuilds s p r t = Steps s t × OnOk (λ a. t ≡ rebuilt p a s) r

module _ (ext : External) (codec : AuthCodec) (chain : Chain codec) where
  pub Owned-IsOpen :
      (s : ProposalTables) (user_id proposal_id : Text) (p : Proposal) (account : Account)
      → Owned ext s user_id proposal_id (p, account)
      → is_pending p.status ≡ true
      → IsOpen s p
  unfolding get_multisig_proposal_by_id
  Owned-IsOpen s user_id proposal_id p account (pid, _, found, _, _) pending = (
    subst (λ n. get_multisig_proposal_by_id n s ≡ some p)
        (sym ((==_iff p.id pid).0 (find?-holds (is_proposal pid) s.proposals found))) found,
    pending,
  )

  -- Clearing approvals leaves the proposals alone.
  clear-IsOpen :
      (s : ProposalTables) (p : Proposal)
      → IsOpen s p
      → IsOpen (delete_multisig_approvals_for_proposal p.id s) p
  unfolding get_multisig_proposal_by_id delete_multisig_approvals_for_proposal
  clear-IsOpen s p open_row = open_row

  pub rebuild_proposal-Ends :
      (s : ProposalTables) (p : Proposal) (account : Account)
      → IsOpen s p
      → Ends s (Rebuilds s p) (rebuild_proposal ext codec chain p account)
  unfolding rebuild_proposal
  rebuild_proposal-Ends s p account open_row =
      Ends-or_result
        (reconstruct_operation ext codec chain account.smart_account_address p.operation_kind
          p.target_contract_id p.operation_params_json)
        _ (λ e. (done refl, tt))
        (λ (call, target, params) built.
          Ends-or_fail internal (chain.simulate account.smart_account_address call target) _
            (λ _. (done refl, tt))
            (λ (a, matched) simulated.
              Ends-exec _ _ _ (done refl, tt)
                (Ends-exec _ _ _ (Steps-of (clear p open_row refl), tt)
                  (Ends-pure a (
                    next (clear p open_row refl)
                        (Steps-of (rebuild p a (clear-IsOpen s p open_row) refl)),
                    refl,
                  )))))

  abbrev pub Refreshed : ProposalTables → Text → Text → Artifacts → ProposalTables → Type 0
  Refreshed s user_id proposal_id a t =
      (p : Proposal) × (account : Account) × Owned ext s user_id proposal_id (p, account)
      × IsOpen s p
      × (t ≡ rebuilt p a s)

  abbrev pub Refreshes :
      ProposalTables → Text → Text → Result ProposalError Artifacts → ProposalTables → Type 0
  Refreshes s user_id proposal_id r t =
      Steps s t × OnOk (λ a. Refreshed s user_id proposal_id a t) r

  pub refresh_proposal-Ends :
      (s : ProposalTables) (user_id proposal_id : Text)
      → Ends s
          (Refreshes s user_id proposal_id)
          (refresh_proposal ext codec chain user_id proposal_id)
  unfolding refresh_proposal
  refresh_proposal-Ends s user_id proposal_id =
      Ends-bind (Reads s (Owned ext s user_id proposal_id)) _ _
        (get_owned_proposal-Ends ext s proposal_id user_id) (λ e t h. (done h.0, tt))
        (λ (p, account) t h. Ends-at h.0 (
          Ends-check (not (is_pending p.status)) not_pending _ (λ _. (done refl, tt))
            (λ here.
              let open_row = Owned-IsOpen s user_id proposal_id p account h.1 (ground arith) in
              Ends-weaken (rebuild_proposal-Ends s p account open_row) (λ e u k. (k.0, tt))
                (λ a u k. (k.0, (p, account, h.1, open_row, k.1))))))

  abbrev pub Expiry : ℕ → Bool → Type 0
  Expiry valid_until b =
      (latest : ℕ) × (chain.latest_ledger ≡ some latest) × (b ≡ auth_expired_at latest valid_until)

  is_auth_expired-Ends :
      (s : ProposalTables) (valid_until : ℕ)
      → Ends s (Reads s (Expiry valid_until)) (is_auth_expired ext codec chain valid_until)
  unfolding is_auth_expired
  is_auth_expired-Ends s valid_until =
      Ends-or_fail internal chain.latest_ledger _ (λ _. (refl, tt))
        (λ latest known. Ends-pure _ (refl, (latest, known, refl)))

  -- A proposal that is let through is unchanged, and its authorisation has not expired.
  abbrev pub Freshens :
      ProposalTables → Proposal → Result ProposalError Proposal → ProposalTables → Type 0
  Freshens s p r t =
      Steps s t
      × OnOk
          (λ q.
            (q ≡ p)
            × (t ≡ s)
            × ((latest : ℕ) × (chain.latest_ledger ≡ some latest)
                × (auth_expired_at latest p.valid_until_ledger ≡ false)))
          r

  pub ensure_fresh-Ends :
      (s : ProposalTables) (p : Proposal) (account : Account)
      → IsOpen s p
      → Ends s (Freshens s p) (ensure_fresh ext codec chain p account)
  unfolding ensure_fresh
  ensure_fresh-Ends s p account open_row =
      Ends-bind (Reads s (Expiry p.valid_until_ledger)) _ _
        (is_auth_expired-Ends s p.valid_until_ledger) (λ e t k. (done k.0, tt))
        (λ b t (q, (latest, known, same)). Ends-at q (
          Ends-if b _ _
            (λ expired.
              Ends-bind (Rebuilds s p) _ _ (rebuild_proposal-Ends s p account open_row)
                (λ e t k. (k.0, tt)) (λ a t k. Ends-fail refreshed (k.0, tt)))
            (λ fresh. Ends-pure p (done refl, (refl, refl, (latest, known, sym same ∙ fresh))))))

  abbrev pub Executed : ProposalTables → Text → Text → Text → ProposalTables → Type 0
  Executed s user_id proposal_id hash t =
      (p : Proposal) × (account : Account) × (latest : ℕ) × (entries : List codec.Entry) × Owned ext
        s user_id proposal_id (p, account)
      × IsOpen s p
      × (chain.latest_ledger ≡ some latest)
      × (auth_expired_at latest p.valid_until_ledger ≡ false)
      × (final_entries ext codec chain p account
            (list_multisig_approvals_with_member_for_proposal p.id s)
          ≡ ok entries)
      × (chain.submit p.tx_xdr entries ≡ some hash)
      × (t ≡ update_multisig_proposal_executed p.id (null_str hash) s)

  abbrev pub Executes :
      ProposalTables → Text → Text → Result ProposalError Text → ProposalTables → Type 0
  Executes s user_id proposal_id r t =
      Steps s t × OnOk (λ hash. Executed s user_id proposal_id hash t) r

  -- What `ExecuteProposal` does behind `ensureFresh`.
  abbrev submission : Proposal → Account → ProposalAction Text
  submission p account = do
    rows ← ask internal (list_multisig_approvals_with_member_for_proposal p.id)
    entries ← or_result (final_entries ext codec chain p account rows)
    hash ← or_fail internal (chain.submit p.tx_xdr entries)
    exec internal (update_multisig_proposal_executed p.id (null_str hash))
    pure hash

  submission-Ends :
      (s : ProposalTables) (user_id proposal_id : Text) (p : Proposal) (account : Account)
      (latest : ℕ)
      → Owned ext s user_id proposal_id (p, account)
      → IsOpen s p
      → chain.latest_ledger ≡ some latest
      → auth_expired_at latest p.valid_until_ledger ≡ false
      → Ends s (Executes s user_id proposal_id) (submission p account)
  submission-Ends s user_id proposal_id p account latest owned open_row known fresh =
      Ends-ask _ _ _ (done refl, tt)
        (Ends-or_result
          (final_entries ext codec chain p account
            (list_multisig_approvals_with_member_for_proposal p.id s))
          _ (λ e. (done refl, tt))
          (λ entries built.
            Ends-or_fail internal (chain.submit p.tx_xdr entries) _ (λ _. (done refl, tt))
              (λ hash sent.
                Ends-exec _ _ _ (done refl, tt)
                  (Ends-pure hash (
                    Steps-of (execute p (null_str hash) open_row refl),
                    (p, account, latest, entries, owned, open_row, known, fresh, built, sent, refl),
                  )))))

  pub execute_proposal-Ends :
      (s : ProposalTables) (user_id proposal_id : Text)
      → Ends s
          (Executes s user_id proposal_id)
          (execute_proposal ext codec chain user_id proposal_id)
  unfolding execute_proposal
  execute_proposal-Ends s user_id proposal_id =
      Ends-bind (Reads s (Owned ext s user_id proposal_id)) _ _
        (get_owned_proposal-Ends ext s proposal_id user_id) (λ e t h. (done h.0, tt))
        (λ (p, account) t h. Ends-at h.0 (
          Ends-check (not (is_pending p.status)) not_pending _ (λ _. (done refl, tt))
            (λ here.
              let open_row = Owned-IsOpen s user_id proposal_id p account h.1 (ground arith) in
              Ends-bind (Freshens s p) _ _ (ensure_fresh-Ends s p account open_row)
                (λ e u k. (k.0, tt))
                (λ q u (_, (same, unchanged, (latest, known, fresh))). Ends-at unchanged (
                  subst (λ x. Ends s (Executes s user_id proposal_id) (submission x account))
                    (sym same)
                    (submission-Ends s user_id proposal_id p account latest h.1 open_row known
                      fresh))))))
