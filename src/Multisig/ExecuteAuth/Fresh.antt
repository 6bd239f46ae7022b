-- ===== src/Multisig/ExecuteAuth/Fresh.antt =====
-- An execution uses no approval of an earlier build of the proposal.
use latch_api.Multisig.ExecuteAuth.{
  AuthCodec, MultisigApproval, arg_matches, check_templates, signed_entries,
  build_multisig_execute_auth_entries, other_entries, signed_delegated_entry_from_approval,
  ExecuteError, ◌>>>◌, or_err, entry_index_out_of_range, bad_digest, bad_payload,
  not_address_credentials, bad_signature,
}
use latch_api.Common.Find.{row_of}
use mathlib.Core.Path.{subst}
use latch_api.Common.{
  ℕ, zero, suc, ◌++◌, ◌||◌, not, false, keep, ◌≡◌, refl, sym, ap, ◌∙◌, inl, inr, true, Option, none,
  some, List, [], ◌∷◌, arith, Bool-cases, Option-cases, length, get_elem?, All, Result, ok, err,
  ok-injective,
}
use latch_api.Common.Text.{Text, text_eq_iff, is_empty}

bind-ok :
    {A B : Type 0} (r : Result ExecuteError A) (f : A → Result ExecuteError B) {b : B}
    → r >>> f ≡ ok b
    → (a : A) × (r ≡ ok a) × (f a ≡ ok b)
bind-ok (ok a) f h = (a, refl, h)
bind-ok (err e) f h = cc

or_err-ok : {A : Type 0} (e : ExecuteError) (o : Option A) {a : A} → or_err e o ≡ ok a → o ≡ some a
or_err-ok e none h = cc
or_err-ok e (some a) h = cc

module _ (codec : AuthCodec) where
  open codec use {
    Entry, Payload, live_digest, decode_template, check_auth_arg_hex, auth_payload, with_payload,
    is_unsigned, apply_signature,
  }

  -- The stored template of the approval is for this digest.
  abbrev pub SignsDigest : Text → MultisigApproval → Type 0
  SignsDigest digest a =
      (tmpl : Entry) × (decode_template a.delegated_entry_template_xdr ≡ some tmpl)
      × (check_auth_arg_hex tmpl ≡ some digest)

  arg_matches_lem :
      (digest : Text) (arg : Option Text) → arg_matches codec digest arg ≡ true → arg ≡ some digest
  arg_matches_lem digest none h = cc
  arg_matches_lem digest (some a) h = ap (λ t. some t) ((text_eq_iff a digest).0 h)

  check_templates-All :
      (digest : Text) (picked : List MultisigApproval)
      → check_templates codec digest picked ≡ ok tt
      → All (SignsDigest digest) picked
  unfolding check_templates
  check_templates-All digest [] h = tt
  check_templates-All digest (a ∷ rest) h =
      elim (Option-cases (decode_template a.delegated_entry_template_xdr)) [
        | inl bad ↦ absurd (ground arith)
        | inr (tmpl, found) ↦
            elim (Bool-cases (arg_matches codec digest (check_auth_arg_hex tmpl))) [
              | inl same ↦ (
                (tmpl, found, arg_matches_lem digest _ same),
                check_templates-All digest rest (rw (found, same) at h),
              )
              | inr other ↦ absurd (ground arith)
            ]
      ]

  -- The entry is what the approval's template becomes under its stored signature, none of whose parts
  -- is empty.
  abbrev pub IsSignedBy : MultisigApproval → Entry → Type 0
  IsSignedBy a e =
      (is_empty a.delegated_entry_template_xdr ≡ false)
      × (is_empty a.delegated_signed_auth_entry_base64 ≡ false)
      × (is_empty a.delegated_signer_address ≡ false)
      × (apply_signature a.delegated_entry_template_xdr a.delegated_signed_auth_entry_base64
            a.delegated_signer_address
          ≡ some e)

  -- One signed entry for each approval, in order.
  abbrev pub AreSignedBy : List MultisigApproval → List Entry → Type 0
  AreSignedBy [] [] = Unit {0}
  AreSignedBy [] (e ∷ es) = ⊥
  AreSignedBy (a ∷ rest) [] = ⊥
  AreSignedBy (a ∷ rest) (e ∷ es) = IsSignedBy a e × AreSignedBy rest es

  signed_delegated_entry_from_approval-IsSignedBy :
      (a : MultisigApproval) {e : Entry}
      → signed_delegated_entry_from_approval codec a ≡ ok e
      → IsSignedBy a e
  unfolding signed_delegated_entry_from_approval
  signed_delegated_entry_from_approval-IsSignedBy a h =
      elim (Bool-cases (
        is_empty a.delegated_entry_template_xdr
        || is_empty a.delegated_signed_auth_entry_base64
        || is_empty a.delegated_signer_address)) [
          | inl lacking ↦ absurd (ground (arith, rw lacking at h))
          | inr full ↦ (
            ground (arith, full),
            ground (arith, full),
            ground (arith, full),
            or_err-ok bad_signature _ (rw full at h),
          )
        ]

  signed_entries-AreSignedBy :
      (picked : List MultisigApproval) {es : List Entry}
      → signed_entries codec picked ≡ ok es
      → AreSignedBy picked es
  unfolding signed_entries
  signed_entries-AreSignedBy [] h = subst (AreSignedBy []) (ok-injective h) tt
  signed_entries-AreSignedBy (a ∷ rest) h =
      let (e, one, h1) = bind-ok (signed_delegated_entry_from_approval codec a) _ h in
      let (es, later, h2) = bind-ok (signed_entries codec rest) _ h1 in
      subst (AreSignedBy (a ∷ rest)) (ok-injective h2) (
        signed_delegated_entry_from_approval-IsSignedBy a one,
        signed_entries-AreSignedBy rest later,
      )

  -- The place of the entry among the others.
  abbrev pub IsAt : List Entry → ℕ → List Entry → Entry → List Entry → Type 0
  IsAt entries i before entry after = (entries ≡ before ++ entry ∷ after) × (length before ≡ i)

  other_entries_lem :
      (entries : List Entry) (i : ℕ) {entry : Entry}
      → get_elem? entries i ≡ some entry
      → (before : List Entry) × (after : List Entry) × IsAt entries i before entry after
        × (other_entries codec i entries ≡ keep (λ e. not (is_unsigned e)) (before ++ after))
  unfolding other_entries
  other_entries_lem [] i h = cc
  other_entries_lem (x ∷ es) zero h = ([], es, (ap (λ y. y ∷ es) (row_of h), refl), refl)
  other_entries_lem (x ∷ es) (suc i) h =
      let (before, after, (split, place), kept) = other_entries_lem es i h in
      (
        x ∷ before,
        after,
        (ap (λ ys. x ∷ ys) split, ap suc place),
        elim (Bool-cases (is_unsigned x)) [
          | inl unsigned ↦ rw unsigned kept
          | inr signed ↦ rw signed (ap (λ ys. x ∷ ys) kept)
        ],
      )

  -- What is submitted: the smart account's entry with the payload of the approvals, the entries beside it
  -- that are signed already, and an entry signed by each delegated approval.
  abbrev pub IsSubmission :
      List Entry
      → ℕ
      → ℕ
      → List MultisigApproval
      → List MultisigApproval
      → Entry
      → List Entry
      → Type 0
  IsSubmission entries i rule_id ws ds entry es =
      (payload : Payload) × (signed : Entry) × (before : List Entry) × (after : List Entry)
      × (added : List Entry) × (auth_payload entry rule_id ws ds ≡ some payload)
      × (with_payload entry payload ≡ some signed)
      × IsAt entries i before entry after
      × AreSignedBy ds added
      × (es ≡ signed ∷ (keep (λ e. not (is_unsigned e)) (before ++ after) ++ added))

  -- When the entries are built, every delegated approval in them has a template for the live digest of
  -- the smart account's own entry, and they are exactly: that entry with the payload built from the
  -- approvals, the other entries that are not unsigned, and for each delegated approval, in order, its
  -- template under its stored signature, no part of which is empty.
  pub build_multisig_execute_auth_entries_fresh :
      (entries : List Entry) (i rule_id : ℕ) (ws ds : List MultisigApproval) {es : List Entry}
      → build_multisig_execute_auth_entries codec entries i rule_id ws ds ≡ ok es
      → (entry : Entry) × (digest : Text) × (get_elem? entries i ≡ some entry)
        × (live_digest entry rule_id ≡ some digest)
        × All (SignsDigest digest) ds
        × IsSubmission entries i rule_id ws ds entry es
  unfolding build_multisig_execute_auth_entries
  build_multisig_execute_auth_entries_fresh entries i rule_id ws ds h =
      let (entry, h1, k1) = bind-ok (or_err entry_index_out_of_range (get_elem? entries i)) _ h in
      let (digest, h2, k2) = bind-ok (or_err bad_digest (live_digest entry rule_id)) _ k1 in
      let (_, h3, k3) = bind-ok (check_templates codec digest ds) _ k2 in
      let (payload, h4, k4) =
        bind-ok (or_err bad_payload (auth_payload entry rule_id ws ds)) _ k3 in
      let (signed, h5, k5) =
        bind-ok (or_err not_address_credentials (with_payload entry payload)) _ k4 in
      let (added, h6, k6) = bind-ok (signed_entries codec ds) _ k5 in
      let found = or_err-ok entry_index_out_of_range (get_elem? entries i) h1 in
      let (before, after, place, kept) = other_entries_lem entries i found in
      (
        entry,
        digest,
        found,
        or_err-ok bad_digest (live_digest entry rule_id) h2,
        check_templates-All digest ds h3,
        (
          payload,
          signed,
          before,
          after,
          added,
          or_err-ok bad_payload _ h4,
          or_err-ok not_address_credentials _ h5,
          place,
          signed_entries-AreSignedBy ds h6,
          sym (ok-injective k6) ∙ ap (λ others. signed ∷ (others ++ added)) kept,
        ),
      )
