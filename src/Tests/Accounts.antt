-- ===== src/Tests/Accounts.antt =====
-- Runs of the one-shot account flow.
use mathlib.Core.List.{Permᴰ}
use latch_api.Common.{◌≡◌, ◌≤◌, refl, none, List, [], ◌∷◌, All, length}
use latch_api.Common.Text.{Text, codes, text_eq}
use latch_api.Common.Sort.{DistinctKeys}
use latch_api.Signers.{MultisigSignerInit, delegated, is_valid_g_address, kind_eq}
use latch_api.Multisig.Accounts.{
  validate_signer_kind, validate_signer_init, duplicate_signer_key, duplicate_signer_one,
  duplicate_signer_init_error, check_signers, validate_signer_inits, signer_init_sort_key,
  canonicalize_signer_inits,
}
use latch_api.Multisig.Accounts.Canonical.{
  IsValidSigner, validate_signer_inits-IsChecked, canonicalize_signer_inits_of_perm,
}
use latch_api.Multisig.Accounts.Params.{draft_params, deploy_params, account_params_of_perm}
use latch_api.Tests.Setting.{ext, factory, ambient}

abbrev signer : Text → MultisigSignerInit
signer g = record { type_name = delegated; key_data_hex = []; g_address = g; label = [] }

abbrev given : List MultisigSignerInit
given = signer (codes "GB") ∷ signer (codes "GA") ∷ []

abbrev swapped : List MultisigSignerInit
swapped = signer (codes "GA") ∷ signer (codes "GB") ∷ []

given_accepted : validate_signer_inits ext 2 given ≡ none
unfolding validate_signer_inits check_signers validate_signer_init validate_signer_kind
    is_valid_g_address duplicate_signer_init_error duplicate_signer_one duplicate_signer_key kind_eq
    text_eq
given_accepted = refl

swapped_accepted : validate_signer_inits ext 2 swapped ≡ none
unfolding validate_signer_inits check_signers validate_signer_init validate_signer_kind
    is_valid_g_address duplicate_signer_init_error duplicate_signer_one duplicate_signer_key kind_eq
    text_eq
swapped_accepted = refl

validate_signer_inits-IsChecked_example :
    (1 ≤ 2)
    × (2 ≤ length given)
    × (2 ≤ length given)
    × All (IsValidSigner ext) given
    × DistinctKeys signer_init_sort_key given
validate_signer_inits-IsChecked_example = validate_signer_inits-IsChecked ext 2 given given_accepted

canonicalize_signer_inits_of_perm_example :
    canonicalize_signer_inits given ≡ canonicalize_signer_inits swapped
canonicalize_signer_inits_of_perm_example =
    canonicalize_signer_inits_of_perm ext 2 given_accepted (Permᴰ.swap refl refl)

account_params_of_perm_example :
    (draft_params ext factory (ambient 1) 2 given (codes "00")
      ≡ draft_params ext factory (ambient 1) 2 swapped (codes "00"))
    × (deploy_params ext factory 2 given (codes "00")
        ≡ deploy_params ext factory 2 swapped (codes "00"))
account_params_of_perm_example =
    account_params_of_perm ext factory (ambient 1) 2 (codes "00") given_accepted swapped_accepted
      (Permᴰ.swap refl refl)
