-- ===== src/Multisig/ExecuteAuth.antt =====
-- internal/service/webapp/multisig_execute_auth.go: which approvals an execution uses, and the auth
-- entries that it submits. The XDR values and the functions of the sibling files on them
-- (`computeAuthDigestHex`, `delegatedCheckAuthArgHex`, `buildMultisigAuthPayload`,
-- `applyDelegatedSignature`, `isUnsignedAddressAuthEntry`) are the parameter `AuthCodec`.
pub mod Picks
pub mod Fresh
use latch_api.Signers.{Kind}
use mathlib.Core.Path.{subst}
use latch_api.Common.{
  ℕ, zero, suc, ◌+◌, ◌-◌, ◌*◌, ◌%◌, ◌/◌, ◌^◌, ◌≤◌, ◌<◌, ◌≡◌, refl, sym, ap, ◌∙◌, ◌≢◌, ◌↔◌, ◌⊎◌, inl,
  inr, Bool, true, false, ◌&&◌, ◌||◌, not, Option, none, some, List, [], ◌∷◌, ◌++◌, map, arith, ltb,
  leb, ◌==◌, if◌then◌else◌, ==_iff, ==_self, Bool-cases, Option-cases, is_some, inserted, length,
  get_elem?, take, replicate, keep, find?, any, all, update_where, All, All-append, All-keep,
  All-update_where, All-map, All-map_of, length-append, length-take, Result, ok, err, is_ok,
}
use latch_api.Common.Text.{
  Text, codes, is_empty, text_eq, text_eq_iff, text_eq_self, hex_decode, hex_encode,
}
use latch_api.Common.Rows.{null_str, str_or_empty, order_by}
use latch_api.Common.Database.{
  World, Action, pure, fail, query, try_query, ask, exec, or_fail, fail_if, ◌>>=◌, ◌>>◌,
  transaction, Keeps, Keeps-pure, Keeps-fail, Keeps-or_fail, Keeps-query, Keeps-try_query,
  Keeps-ask, Keeps-fail_if, Keeps-exec, Keeps-bind, Keeps-if, Keeps-transaction, Keeps-check,
}
use latch_api.External.{External}

pub record MultisigApproval : Type 0 where
  pub member_id : ℕ
  pub member_type : Kind
  pub member_key_data_hex : Text
  pub member_g_address : Text
  pub webauthn_sig_data_xdr_hex : Text
  pub delegated_entry_template_xdr : Text
  pub delegated_signed_auth_entry_base64 : Text
  pub delegated_signer_address : Text

-- The `webauthnApprovals[:threshold]` of an `if len > threshold`.
unfoldable pub first_of_length : {A : Type 0} → ℕ → List A → List A
first_of_length n xs = if ltb n (length xs) then take n xs else xs

unfoldable pub pick_approvals_for_threshold :
    ℕ
    → List MultisigApproval
    → List MultisigApproval
    → List MultisigApproval × List MultisigApproval
pick_approvals_for_threshold threshold webauthn_approvals delegated_approvals =
    let picked = first_of_length threshold webauthn_approvals in
    let remaining = threshold - length picked in
    (picked, if ltb 0 remaining then first_of_length remaining delegated_approvals else [])

pub data ExecuteError : Type 0 where
  entry_index_out_of_range bad_digest bad_template template_mismatch : ExecuteError
  bad_payload not_address_credentials missing_signature bad_signature : ExecuteError

pub record AuthCodec : Type 1 where
  pub Entry : Type 0
  pub Payload : Type 0
  -- json.Unmarshal and normalizeAuthEntries
  pub decode_entries : Text → Option (List Entry)
  -- computeAuthDigestHex over contextRuleIDsForEntry
  pub live_digest : Entry → ℕ → Option Text
  -- xdr.SafeUnmarshalBase64 of a template, then delegatedCheckAuthArgHex
  pub decode_template : Text → Option Entry
  pub check_auth_arg_hex : Entry → Option Text
  -- buildMultisigAuthPayload, and the entry with its signature
  pub auth_payload : Entry → ℕ → List MultisigApproval → List MultisigApproval → Option Payload
  pub with_payload : Entry → Payload → Option Entry
  pub is_unsigned : Entry → Bool
  -- applyDelegatedSignature
  pub apply_signature : Text → Text → Text → Option Entry

abbrev pub or_err : {A : Type 0} → ExecuteError → Option A → Result ExecuteError A
or_err e none = err e
or_err e (some a) = ok a

infixl 5 ◌>>>◌
abbrev pub ◌>>>◌ :
    {A B : Type 0} → Result ExecuteError A → (A → Result ExecuteError B) → Result ExecuteError B
ok a >>> f = f a
err e >>> f = err e

module _ (codec : AuthCodec) where
  open codec use {
    Entry, Payload, live_digest, decode_template, check_auth_arg_hex, auth_payload, with_payload,
    is_unsigned, apply_signature,
  }

  abbrev pub arg_matches : Text → Option Text → Bool
  arg_matches digest none = false
  arg_matches digest (some arg) = text_eq arg digest

  -- The loop that compares each picked template with the live digest.
  unfoldable pub check_templates : Text → List MultisigApproval → Result ExecuteError (Unit {0})
  check_templates digest [] = ok tt
  check_templates digest (a ∷ rest) =
      let later = check_templates digest rest in
      or_err bad_template (decode_template a.delegated_entry_template_xdr) >>> λ tmpl.
      if arg_matches digest (check_auth_arg_hex tmpl) then later else err template_mismatch

  unfoldable pub signed_delegated_entry_from_approval : MultisigApproval → Result ExecuteError Entry
  signed_delegated_entry_from_approval a =
      if is_empty a.delegated_entry_template_xdr
        || is_empty a.delegated_signed_auth_entry_base64
        || is_empty a.delegated_signer_address
      then err missing_signature
      else or_err bad_signature (
          apply_signature a.delegated_entry_template_xdr a.delegated_signed_auth_entry_base64
            a.delegated_signer_address)

  -- The entries that are kept: neither the smart account's nor an unsigned one.
  unfoldable pub other_entries : ℕ → List Entry → List Entry
  other_entries i [] = []
  other_entries zero (e ∷ es) = keep (λ x. not (is_unsigned x)) es
  other_entries (suc i) (e ∷ es) =
      if is_unsigned e then other_entries i es else e ∷ other_entries i es

  unfoldable pub signed_entries : List MultisigApproval → Result ExecuteError (List Entry)
  unfolding signed_delegated_entry_from_approval
  signed_entries [] = ok []
  signed_entries (a ∷ rest) =
      let later = signed_entries rest in
      signed_delegated_entry_from_approval a >>> λ e. later >>> λ es. ok (e ∷ es)

  unfoldable pub build_multisig_execute_auth_entries :
      List Entry
      → ℕ
      → ℕ
      → List MultisigApproval
      → List MultisigApproval
      → Result ExecuteError (List Entry)
  build_multisig_execute_auth_entries entries i rule_id webauthn_approvals delegated_approvals =
      or_err entry_index_out_of_range (get_elem? entries i) >>> λ entry.
      or_err bad_digest (live_digest entry rule_id) >>> λ digest.
      check_templates digest delegated_approvals >>> λ _.
      or_err bad_payload (auth_payload entry rule_id webauthn_approvals delegated_approvals)
      >>> λ payload. or_err not_address_credentials (with_payload entry payload) >>> λ signed.
          signed_entries delegated_approvals >>> λ added.
          ok (signed ∷ (other_entries i entries ++ added))
