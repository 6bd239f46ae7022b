-- ===== src/Multisig/Accounts.antt =====
-- The stateless part of internal/service/webapp/multisig_accounts_service.go: one list of signers is
-- validated, put in the factory's order, and predicted or deployed. The texts of the errors are data:
-- the index of the signer and what is wrong with it.
pub mod Canonical
pub mod Params
use latch_api.Common.{
  ℕ, suc, Bool, true, false, ◌&&◌, not, Option, none, some, List, [], ◌∷◌, ◌++◌, ltb, if◌then◌else◌,
  length, Result, ok, err,
}
use latch_api.Common.Text.{Text, codes, is_empty, text_eq, hex_decode}
use latch_api.Common.Sort.{sort_by}
use latch_api.External.{External}
use latch_api.Signers.{
  Kind, delegated, webauthn, ed25519, unknown, kind_eq, normalize_hex, is_valid_g_address,
  is_valid_webauthn_key_data_hex, MemberError, g_address_required, g_address_invalid,
  key_data_required, key_data_invalid, unsupported_member, delegated_already_added,
  webauthn_already_added, MultisigSignerInit,
}

abbrev pub min_account_signers : ℕ
min_account_signers = 2

pub data SignerInitError : Type 0 where
  threshold_below_one too_few_signers threshold_above_signers : SignerInitError
  invalid_signer duplicate_signer : ℕ → MemberError → SignerInitError

-- The `switch` of `validateSignerInit`.
unfoldable pub validate_signer_kind : External → Kind → MultisigSignerInit → Option MemberError
validate_signer_kind ext delegated s =
    if is_empty s.g_address
    then some g_address_required
    else if is_valid_g_address ext s.g_address
    then none
    else some g_address_invalid
validate_signer_kind ext webauthn s =
    if is_empty s.key_data_hex
    then some key_data_required
    else if is_valid_webauthn_key_data_hex s.key_data_hex
    then none
    else some key_data_invalid
validate_signer_kind ext ed25519 s = some (unsupported_member (codes "ed25519"))
validate_signer_kind ext (unknown t) s = some (unsupported_member t)

unfoldable pub validate_signer_init : External → MultisigSignerInit → Option MemberError
unfolding validate_signer_kind
validate_signer_init ext s = validate_signer_kind ext s.type_name s

-- The `switch` in the loop of `duplicateSignerInitError`.
unfoldable pub duplicate_signer_key :
    Kind → MultisigSignerInit → MultisigSignerInit → Option MemberError
duplicate_signer_key delegated c s =
    if not (is_empty c.g_address) && text_eq s.g_address c.g_address
    then some delegated_already_added
    else none
duplicate_signer_key webauthn c s =
    if not (is_empty c.key_data_hex)
      && text_eq (normalize_hex s.key_data_hex) (normalize_hex c.key_data_hex)
    then some webauthn_already_added
    else none
duplicate_signer_key ed25519 c s = none
duplicate_signer_key (unknown t) c s = none

abbrev pub or_else : {A : Type 0} → Option A → Option A → Option A
or_else none later = later
or_else (some e) later = some e

unfoldable pub duplicate_signer_one : MultisigSignerInit → MultisigSignerInit → Option MemberError
unfolding duplicate_signer_key
duplicate_signer_one c s =
    if kind_eq s.type_name c.type_name then duplicate_signer_key c.type_name c s else none

unfoldable pub duplicate_signer_init_error :
    MultisigSignerInit → List MultisigSignerInit → Option MemberError
unfolding duplicate_signer_one
duplicate_signer_init_error c [] = none
duplicate_signer_init_error c (s ∷ ss) =
    or_else (duplicate_signer_one c s) (duplicate_signer_init_error c ss)

abbrev pub at_index :
    (ℕ → MemberError → SignerInitError) → ℕ → Option MemberError → Option SignerInitError
at_index wrap i none = none
at_index wrap i (some e) = some (wrap i e)

-- The loop of `validateSignerInits` at index `i`, where `before` is `signers[:i]`.
unfoldable pub check_signers :
    External → ℕ → List MultisigSignerInit → List MultisigSignerInit → Option SignerInitError
check_signers ext i before [] = none
check_signers ext i before (s ∷ ss) =
    or_else (at_index invalid_signer i (validate_signer_init ext s)) (
      or_else (at_index duplicate_signer i (duplicate_signer_init_error s before))
        (check_signers ext (suc i) (before ++ s ∷ []) ss))

unfoldable pub validate_signer_inits :
    External → ℕ → List MultisigSignerInit → Option SignerInitError
unfolding check_signers
validate_signer_inits ext threshold signers =
    if ltb threshold 1
    then some threshold_below_one
    else if ltb (length signers) min_account_signers
    then some too_few_signers
    else if ltb (length signers) threshold
    then some threshold_above_signers
    else check_signers ext 0 [] signers

-- The `if` of `signerInitSortKey`.
unfoldable pub signer_sort_key_of : Kind → MultisigSignerInit → Text
signer_sort_key_of delegated s = codes "0:delegated:" ++ s.g_address
signer_sort_key_of webauthn s = codes "1:webauthn:" ++ normalize_hex s.key_data_hex
signer_sort_key_of ed25519 s = codes "1:webauthn:" ++ normalize_hex s.key_data_hex
signer_sort_key_of (unknown t) s = codes "1:webauthn:" ++ normalize_hex s.key_data_hex

unfoldable pub signer_init_sort_key : MultisigSignerInit → Text
signer_init_sort_key s = signer_sort_key_of s.type_name s

unfoldable pub canonicalize_signer_inits : List MultisigSignerInit → List MultisigSignerInit
canonicalize_signer_inits signers = sort_by signer_init_sort_key signers
