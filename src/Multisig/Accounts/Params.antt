-- ===== src/Multisig/Accounts/Params.antt =====
-- `DraftParams` and `DeployParams`: an account from one list of signers, with nothing stored. `uint32` of
-- the threshold is left out: it is at most the number of signers.
use mathlib.Core.List.{Permᴰ}
use latch_api.Common.{
  ℕ, ◌≡◌, refl, Bool, false, Option, none, some, List, if◌then◌else◌, Result, ok, err,
}
use latch_api.Common.Text.{Text, is_empty, hex_decode}
use latch_api.External.{External}
use latch_api.Signers.{MultisigSignerInit}
use latch_api.Multisig.Draft.Factory.{
  AccountInitParams, SmartAccountFactory, build_multisig_account_init_params,
}
use latch_api.Multisig.Draft.Service.{Ambient, random_salt_hex}
use latch_api.Multisig.Draft.Deployment.{encoded}
use latch_api.Multisig.Accounts.{SignerInitError, validate_signer_inits, canonicalize_signer_inits}
use latch_api.Multisig.Accounts.Canonical.{canonicalize_signer_inits_of_perm}

pub data AccountsError : Type 0 where
  bad_signers : SignerInitError → AccountsError
  salt_required random_failed bad_params factory_failed : AccountsError

-- The answer: the address, the predicted one, whether it was deployed before, the salt, the encoded
-- parameters and the signers in the factory's order.
pub record Resolved : Type 0 where
  pub smart_account_address : Text
  pub predicted_address : Text
  pub is_already_deployed : Bool
  pub salt_hex : Text
  pub params_xdr : Text
  pub signers : List MultisigSignerInit

module _ (ext : External) (factory : SmartAccountFactory) where
  -- The salt, the parameters and their encoding can each be refused.
  unfoldable pub resolved_params :
      ℕ → Text → List MultisigSignerInit → Option (AccountInitParams × Text)
  resolved_params threshold salt_hex signers = elim (hex_decode salt_hex) [
    | none ↦ none
    | some salt ↦
        encoded factory (build_multisig_account_init_params factory threshold salt signers)
  ]

  abbrev predicted :
      Text
      → List MultisigSignerInit
      → Option (AccountInitParams × Text)
      → Result AccountsError Resolved
  predicted salt_hex signers none = err bad_params
  predicted salt_hex signers (some (params, b64)) = elim (factory.predict_address params) [
    | none ↦ err factory_failed
    | some address ↦ ok (record {
      smart_account_address = address;
      predicted_address = address;
      is_already_deployed = false;
      salt_hex = salt_hex;
      params_xdr = b64;
      signers = signers;
    })
  ]

  -- `DraftParams` behind the validation.
  unfoldable pub draft_resolved :
      Option Text → ℕ → List MultisigSignerInit → Result AccountsError Resolved
  unfolding resolved_params
  draft_resolved none threshold signers = err random_failed
  draft_resolved (some salt_hex) threshold signers =
      predicted salt_hex signers (resolved_params threshold salt_hex signers)

  unfoldable pub draft_params :
      Ambient → ℕ → List MultisigSignerInit → Text → Result AccountsError Resolved
  unfolding draft_resolved
  draft_params amb threshold signers salt_hex = elim (validate_signer_inits ext threshold signers) [
    | some e ↦ err (bad_signers e)
    | none ↦
        draft_resolved (if is_empty salt_hex then random_salt_hex amb else some salt_hex) threshold
          (canonicalize_signer_inits signers)
  ]

  abbrev deployed_at :
      Text
      → List MultisigSignerInit
      → Option (AccountInitParams × Text)
      → Result AccountsError Resolved
  deployed_at salt_hex signers none = err bad_params
  deployed_at salt_hex signers (some (params, b64)) = elim (factory.predict_address params) [
    | none ↦ err factory_failed
    | some address ↦ elim (factory.deploy params address) [
      | none ↦ err factory_failed
      | some (deployed, before) ↦ ok (record {
        smart_account_address = deployed;
        predicted_address = address;
        is_already_deployed = before;
        salt_hex = salt_hex;
        params_xdr = b64;
        signers = signers;
      })
    ]
  ]

  -- `DeployParams` behind the validation.
  unfoldable pub deploy_resolved :
      Text → ℕ → List MultisigSignerInit → Result AccountsError Resolved
  unfolding resolved_params
  deploy_resolved salt_hex threshold signers =
      if is_empty salt_hex
      then err salt_required
      else deployed_at salt_hex signers (resolved_params threshold salt_hex signers)

  unfoldable pub deploy_params : ℕ → List MultisigSignerInit → Text → Result AccountsError Resolved
  unfolding deploy_resolved
  deploy_params threshold signers salt_hex = elim (validate_signer_inits ext threshold signers) [
    | some e ↦ err (bad_signers e)
    | none ↦ deploy_resolved salt_hex threshold (canonicalize_signer_inits signers)
  ]

  -- For two accepted lists of the same signers in any order, the address and the parameters are the same,
  -- when they are drafted and when they are deployed.
  pub account_params_of_perm :
      (amb : Ambient) (threshold : ℕ) (salt_hex : Text) {ss ts : List MultisigSignerInit}
      → validate_signer_inits ext threshold ss ≡ none
      → validate_signer_inits ext threshold ts ≡ none
      → Permᴰ ss ts
      → (draft_params amb threshold ss salt_hex ≡ draft_params amb threshold ts salt_hex)
        × (deploy_params threshold ss salt_hex ≡ deploy_params threshold ts salt_hex)
  unfolding draft_params deploy_params
  account_params_of_perm amb threshold salt_hex hs ht p = (
    rw (draft_params, hs, ht, canonicalize_signer_inits_of_perm ext threshold hs p) refl,
    rw (deploy_params, hs, ht, canonicalize_signer_inits_of_perm ext threshold hs p) refl,
  )
