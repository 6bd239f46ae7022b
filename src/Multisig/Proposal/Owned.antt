-- ===== src/Multisig/Proposal/Owned.antt =====
-- Who may act on a proposal or as a member of its account.
use latch_api.Common.{ℕ, ◌≡◌, refl, true, ◌&&◌, ◌||◌, not, some, ◌==◌, Result, arith, ==_iff}
use latch_api.Common.Text.{Text}
use latch_api.Common.Ends.{
  Ends, OnOk, Ends-pure, Ends-ask, Ends-check, Ends-or_fail, Ends-bind, Ends-or_error, Ends-if,
}
use latch_api.External.{External}
use latch_api.Signers.{Kind, kind_eq}
use latch_api.Multisig.Tables.{Account, Member}
use latch_api.Multisig.ProposalQueries.{
  Proposal, ProposalTables, get_multisig_account_by_id, get_multisig_account_by_address,
  list_multisig_members_for_account, get_multisig_member_by_id, get_multisig_proposal_by_id,
}
use latch_api.Multisig.Proposal.Access.{
  ProposalError, is_linked_to, is_creator, some_member_is, account_access_granted,
  get_owned_account_by_id, get_owned_account_by_address, get_owned_proposal, get_owned_member,
  account_not_found, proposal_not_found, member_not_found, wrong_member_type,
}

-- The store is as it was, and the value is as `P` says.
abbrev pub Reads :
    {A : Type 0} → ProposalTables → (A → Type 0) → Result ProposalError A → ProposalTables → Type 0
Reads s P r t = (t ≡ s) × OnOk P r

module _ (ext : External) where
  -- The creator of the account, or a user that one of its members is linked to.
  abbrev pub IsParty : ProposalTables → Text → Account → Type 0
  IsParty s user_id account =
      (is_creator ext user_id account
        || some_member_is ext user_id (list_multisig_members_for_account account.id s))
      ≡ true

  abbrev pub Owned : ProposalTables → Text → Text → Proposal × Account → Type 0
  Owned s user_id proposal_id (p, account) =
      (pid : ℕ) × (ext.uuid_parse proposal_id ≡ some pid)
      × (get_multisig_proposal_by_id pid s ≡ some p)
      × (get_multisig_account_by_id p.multisig_account_id s ≡ some account)
      × IsParty s user_id account

  account_access_granted-Ends :
      (s : ProposalTables) (account : Account) (user_id : Text)
      → Ends s
          (Reads s (λ b. b ≡ true → IsParty s user_id account))
          (account_access_granted ext account user_id)
  unfolding account_access_granted
  account_access_granted-Ends s account user_id =
      Ends-if (is_creator ext user_id account) _ _ (λ own. Ends-pure true (refl, λ _. rw own refl))
        (λ other. Ends-ask _ _ _ (refl, tt) (Ends-pure _ (refl, λ h. rw (other, h) refl)))

  get_owned_account_by_id-Ends :
      (s : ProposalTables) (id : ℕ) (user_id : Text)
      → Ends s
          (Reads s (λ account.
            (get_multisig_account_by_id id s ≡ some account) × IsParty s user_id account))
          (get_owned_account_by_id ext id user_id)
  unfolding get_owned_account_by_id
  get_owned_account_by_id-Ends s id user_id =
      Ends-ask _ _ _ (refl, tt)
        (Ends-or_fail account_not_found (get_multisig_account_by_id id s) _ (λ _. (refl, tt))
          (λ account found.
            Ends-bind _ _ _ (account_access_granted-Ends s account user_id) (λ e t h. (h.0, tt))
              (λ granted t h.
                Ends-check (not granted) account_not_found _ (λ _. (h.0, tt))
                  (λ yes. Ends-pure account (h.0, (found, h.1 (ground arith)))))))

  pub get_owned_account_by_address-Ends :
      (s : ProposalTables) (address user_id : Text)
      → Ends s
          (Reads s (λ account.
            (get_multisig_account_by_address address s ≡ some account) × IsParty s user_id account))
          (get_owned_account_by_address ext address user_id)
  unfolding get_owned_account_by_address
  get_owned_account_by_address-Ends s address user_id =
      Ends-ask _ _ _ (refl, tt)
        (Ends-or_fail account_not_found (get_multisig_account_by_address address s) _
          (λ _. (refl, tt))
          (λ account found.
            Ends-bind _ _ _ (account_access_granted-Ends s account user_id) (λ e t h. (h.0, tt))
              (λ granted t h.
                Ends-check (not granted) account_not_found _ (λ _. (h.0, tt))
                  (λ yes. Ends-pure account (h.0, (found, h.1 (ground arith)))))))

  pub get_owned_proposal-Ends :
      (s : ProposalTables) (proposal_id user_id : Text)
      → Ends s (Reads s (Owned s user_id proposal_id)) (get_owned_proposal ext proposal_id user_id)
  unfolding get_owned_proposal
  get_owned_proposal-Ends s proposal_id user_id =
      Ends-or_fail proposal_not_found (ext.uuid_parse proposal_id) _ (λ _. (refl, tt))
        (λ pid parsed.
          Ends-ask _ _ _ (refl, tt)
            (Ends-or_fail proposal_not_found (get_multisig_proposal_by_id pid s) _ (λ _. (refl, tt))
              (λ p found.
                Ends-bind
                  (Reads s (λ account.
                    (get_multisig_account_by_id p.multisig_account_id s ≡ some account)
                    × IsParty s user_id account))
                  _ _
                  (Ends-or_error
                    (Reads s (λ account.
                      (get_multisig_account_by_id p.multisig_account_id s ≡ some account)
                      × IsParty s user_id account))
                    proposal_not_found _
                    (get_owned_account_by_id-Ends s p.multisig_account_id user_id)
                    (λ x t h. (h.0, tt)) (λ b t h. h))
                  (λ e t h. (h.0, tt))
                  (λ account t h.
                    Ends-pure (p, account) (h.0, (pid, parsed, found, h.1.0, h.1.1))))))

  -- The member is the stored one with the requested id, of this account, of the expected type, and the
  -- caller created the account or is the user that the member is linked to.
  abbrev pub Represents : ProposalTables → Text → Text → Account → Kind → Member → Type 0
  Represents s caller member_id account expected m =
      (mid : ℕ) × (ext.uuid_parse member_id ≡ some mid)
      × (get_multisig_member_by_id mid s ≡ some m)
      × (m.multisig_account_id ≡ account.id)
      × (kind_eq m.member_type expected ≡ true)
      × ((is_creator ext caller account || is_linked_to ext caller m.user_id) ≡ true)

  pub get_owned_member-Ends :
      (s : ProposalTables) (account : Account) (caller member_id : Text) (expected : Kind)
      → Ends s
          (Reads s (Represents s caller member_id account expected))
          (get_owned_member ext account caller member_id expected)
  unfolding get_owned_member
  get_owned_member-Ends s account caller member_id expected =
      Ends-or_fail member_not_found (ext.uuid_parse member_id) _ (λ _. (refl, tt))
        (λ mid parsed.
          Ends-ask _ _ _ (refl, tt)
            (Ends-or_fail member_not_found (get_multisig_member_by_id mid s) _ (λ _. (refl, tt))
              (λ m found.
                Ends-check (not (m.multisig_account_id == account.id)) member_not_found _
                  (λ _. (refl, tt))
                  (λ same.
                    Ends-check (not (kind_eq m.member_type expected)) wrong_member_type _
                      (λ _. (refl, tt))
                      (λ kind.
                        Ends-check
                          (not (is_creator ext caller account)
                            && not (is_linked_to ext caller m.user_id))
                          member_not_found _ (λ _. (refl, tt))
                          (λ who. Ends-pure m (
                            refl,
                            (
                              mid,
                              parsed,
                              found,
                              ground (arith, ==_iff m.multisig_account_id account.id),
                              ground arith,
                              ground arith,
                            ),
                          )))))))
