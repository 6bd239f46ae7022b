-- ===== src/Multisig/Proposal/Approvals.antt =====
-- The operations that collect approvals, and the one that creates a proposal, as sequences of steps.
use latch_api.Common.Database.{◌>>=◌, pure, or_fail, fail_if, try_query, ◌>>◌}
use latch_api.Common.{refl, sym, not, Result, arith, get_elem?, ℕ, ◌≡◌, some}
use mathlib.Core.Path.{subst}
use latch_api.Common.Text.{Text, is_empty}
use latch_api.Common.Rows.{null_str, str_or_empty}
use latch_api.Common.Ends.{
  Ends, OnOk, Ends-pure, Ends-ask, Ends-exec, Ends-check, Ends-or_fail, Ends-try_query,
  Ends-last_try_query, Ends-bind, Ends-at,
}
use latch_api.External.{External}
use latch_api.Signers.{Kind, normalize_hex, webauthn, delegated}
use latch_api.Multisig.Tables.{Account, Member}
use latch_api.Multisig.ProposalQueries.{
  Proposal, ProposalTables, is_pending, upsert_multisig_approval_webauthn,
  get_multisig_approval_by_proposal_and_member, upsert_multisig_approval_delegated_begin,
}
use latch_api.Multisig.ExecuteAuth.{AuthCodec}
use latch_api.Multisig.Proposal.Access.{
  ProposalError, ProposalAction, internal, not_pending, get_owned_member, wrong_member_type,
  bad_entries, bad_signature_given, not_started,
}
use latch_api.Multisig.Proposal.Service.{
  Chain, approve_webauthn, approve_delegated_begin, approve_delegated_finish, Template,
}
use latch_api.Multisig.Proposal.Owned.{
  Owned, Reads, get_owned_proposal-Ends, Represents, get_owned_member-Ends,
}
use latch_api.Multisig.Proposal.Steps.{IsOpen, Steps, approve, begin, finish, done, Steps-of}
use latch_api.Multisig.Proposal.Operations.{Owned-IsOpen, Freshens, ensure_fresh-Ends}

module _ (ext : External) (codec : AuthCodec) (chain : Chain codec) where
  -- Whatever the result is, the change is made of steps; and a result means that the caller has a part in
  -- the account, that the proposal was pending, and that the caller may act as the member.
  abbrev pub Approves :
      {A : Type 0}
      → ProposalTables
      → Text
      → Text
      → Text
      → Kind
      → Result ProposalError A
      → ProposalTables
      → Type 0
  Approves s user_id proposal_id member_id kind r t =
      Steps s t
      × OnOk
          (λ _.
            (p : Proposal) × (account : Account) × (m : Member) × Owned ext s user_id proposal_id
              (p, account)
            × IsOpen s p
            × Represents ext s user_id member_id account kind m)
          r

  -- A passkey approval that is recorded is the upsert of the approval of the requested member, who is such.
  abbrev pub Recorded : ProposalTables → Text → Text → Text → Text → ℕ → ProposalTables → Type 0
  Recorded s user_id proposal_id member_id sig_data out t =
      (p : Proposal) × (account : Account) × (m : Member) × Owned ext s user_id proposal_id
        (p, account)
      × IsOpen s p
      × Represents ext s user_id member_id account webauthn m
      × (upsert_multisig_approval_webauthn chain.new_uuid p.id m.id
            (null_str (normalize_hex sig_data)) chain.now s
          ≡ some (out, t))

  abbrev pub Records :
      ProposalTables → Text → Text → Text → Text → Result ProposalError ℕ → ProposalTables → Type 0
  Records s user_id proposal_id member_id sig_data r t =
      Steps s t × OnOk (λ out. Recorded s user_id proposal_id member_id sig_data out t) r

  pub approve_webauthn-Ends :
      (s : ProposalTables) (user_id proposal_id member_id sig_data : Text)
      → Ends s
          (Records s user_id proposal_id member_id sig_data)
          (approve_webauthn ext codec chain user_id proposal_id member_id sig_data)
  unfolding approve_webauthn
  approve_webauthn-Ends s user_id proposal_id member_id sig_data =
      Ends-bind (Reads s (Owned ext s user_id proposal_id)) _ _
        (get_owned_proposal-Ends ext s proposal_id user_id) (λ e t h. (done h.0, tt))
        (λ (p, account) t h. Ends-at h.0 (
          Ends-check (not (is_pending p.status)) not_pending _ (λ _. (done refl, tt))
            (λ here.
              let open_row =
                Owned-IsOpen ext codec chain s user_id proposal_id p account h.1 (ground arith) in
              Ends-bind (Reads s (Represents ext s user_id member_id account webauthn)) _ _
                (get_owned_member-Ends ext s account user_id member_id webauthn)
                (λ e u k. (done k.0, tt))
                (λ m u k. Ends-at k.0 (
                  Ends-last_try_query _ _ (done refl, tt)
                    (λ out v stored. (
                      Steps-of (approve p _ _ _ out _ open_row stored),
                      (p, account, m, h.1, open_row, k.1, stored),
                    )))))))

  pub approve_delegated_finish-Ends :
      (s : ProposalTables) (user_id proposal_id member_id signed signer : Text)
      → Ends s
          (Approves s user_id proposal_id member_id delegated)
          (approve_delegated_finish ext codec chain user_id proposal_id member_id signed signer)
  unfolding approve_delegated_finish
  approve_delegated_finish-Ends s user_id proposal_id member_id signed signer =
      Ends-bind (Reads s (Owned ext s user_id proposal_id)) _ _
        (get_owned_proposal-Ends ext s proposal_id user_id) (λ e t h. (done h.0, tt))
        (λ (p, account) t h. Ends-at h.0 (
          Ends-check (not (is_pending p.status)) not_pending _ (λ _. (done refl, tt))
            (λ here.
              let open_row =
                Owned-IsOpen ext codec chain s user_id proposal_id p account h.1 (ground arith) in
              Ends-bind (Reads s (Represents ext s user_id member_id account delegated)) _ _
                (get_owned_member-Ends ext s account user_id member_id delegated)
                (λ e u k. (done k.0, tt))
                (λ m u k. Ends-at k.0 (
                  Ends-ask _ _ _ (done refl, tt)
                    (Ends-or_fail not_started
                      (get_multisig_approval_by_proposal_and_member p.id m.id s) _
                      (λ _. (done refl, tt))
                      (λ old found.
                        Ends-check (is_empty (str_or_empty old.delegated_entry_template_xdr))
                          not_started _ (λ _. (done refl, tt))
                          (λ started.
                            Ends-check
                              (not (
                                chain.verify_signature
                                  (str_or_empty old.delegated_entry_template_xdr) signed signer))
                              bad_signature_given _ (λ _. (done refl, tt))
                              (λ verified.
                                Ends-exec _ _ _ (done refl, tt)
                                  (Ends-pure old.id (
                                    Steps-of (finish p _ _ _ open_row refl),
                                    (p, account, m, h.1, open_row, k.1),
                                  )))))))))))

  -- What `ApproveDelegatedBegin` does behind `ensureFresh`.
  abbrev template_for : Proposal → Account → Text → Text → ProposalAction Template
  template_for p account user_id member_id = do
    member ← get_owned_member ext account user_id member_id delegated
    fail_if (is_empty (str_or_empty member.g_address)) wrong_member_type
    entries ← or_fail bad_entries (codec.decode_entries p.auth_entries_xdr_json)
    entry ← or_fail bad_entries (get_elem? entries p.smart_account_auth_entry_index)
    template ← or_fail internal (
        chain.check_auth_template account.smart_account_address (str_or_empty member.g_address)
          entry p.context_rule_id p.valid_until_ledger)
    try_query internal (
        upsert_multisig_approval_delegated_begin chain.new_uuid p.id member.id
          (null_str template.entry_template_xdr_base64) (null_str (str_or_empty member.g_address))
          chain.now)
    pure template

  template_for-Ends :
      (s : ProposalTables) (user_id proposal_id member_id : Text) (p : Proposal) (account : Account)
      → Owned ext s user_id proposal_id (p, account)
      → IsOpen s p
      → Ends s
          (Approves s user_id proposal_id member_id delegated)
          (template_for p account user_id member_id)
  template_for-Ends s user_id proposal_id member_id p account owned open_row =
      Ends-bind (Reads s (Represents ext s user_id member_id account delegated)) _ _
        (get_owned_member-Ends ext s account user_id member_id delegated) (λ e u k. (done k.0, tt))
        (λ m u k. Ends-at k.0 (
          Ends-check (is_empty (str_or_empty m.g_address)) wrong_member_type _
            (λ _. (done refl, tt))
            (λ has_address.
              Ends-or_fail bad_entries (codec.decode_entries p.auth_entries_xdr_json) _
                (λ _. (done refl, tt))
                (λ entries decoded.
                  Ends-or_fail bad_entries (get_elem? entries p.smart_account_auth_entry_index) _
                    (λ _. (done refl, tt))
                    (λ entry at_index.
                      Ends-or_fail internal
                        (chain.check_auth_template account.smart_account_address
                          (str_or_empty m.g_address) entry p.context_rule_id p.valid_until_ledger)
                        _ (λ _. (done refl, tt))
                        (λ template built.
                          Ends-try_query _ _ _ (done refl, tt)
                            (λ out v stored. Ends-pure template (
                              Steps-of (begin p _ _ _ out _ _ open_row stored),
                              (p, account, m, owned, open_row, k.1),
                            ))))))))

  pub approve_delegated_begin-Ends :
      (s : ProposalTables) (user_id proposal_id member_id : Text)
      → Ends s
          (Approves s user_id proposal_id member_id delegated)
          (approve_delegated_begin ext codec chain user_id proposal_id member_id)
  unfolding approve_delegated_begin
  approve_delegated_begin-Ends s user_id proposal_id member_id =
      Ends-bind (Reads s (Owned ext s user_id proposal_id)) _ _
        (get_owned_proposal-Ends ext s proposal_id user_id) (λ e t h. (done h.0, tt))
        (λ (p, account) t h. Ends-at h.0 (
          Ends-check (not (is_pending p.status)) not_pending _ (λ _. (done refl, tt))
            (λ here.
              let open_row =
                Owned-IsOpen ext codec chain s user_id proposal_id p account h.1 (ground arith) in
              Ends-bind (Freshens ext codec chain s p) _ _
                (ensure_fresh-Ends ext codec chain s p account open_row) (λ e u k. (k.0, tt))
                (λ q u (_, (same, unchanged, _)). Ends-at unchanged (
                  subst
                    (λ x.
                      Ends s (Approves s user_id proposal_id member_id delegated)
                        (template_for x account user_id member_id))
                    (sym same)
                    (template_for-Ends s user_id proposal_id member_id p account h.1 open_row))))))
