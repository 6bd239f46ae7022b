-- ===== src/Multisig/Draft/Factory.antt =====
-- internal/service/webapp/multisig_factory.go: the parameters of the factory contract, as the data that
-- the XDR value spells, and the interface of the factory, which the network answers.
use latch_api.Common.{ℕ, if◌then◌else◌, Bool, Option, none, some, List, [], ◌∷◌}
use latch_api.Common.Text.{Text, hex_decode}
use latch_api.Signers.{Kind, delegated, webauthn, ed25519, unknown, MultisigSignerInit}

pub data FactorySigner : Type 0 where
  -- ("Delegated", address)
  delegated_signer : Text → FactorySigner
  -- ("External", {key_data, signer_kind})
  external_signer : List ℕ → Kind → FactorySigner

pub record AccountInitParams : Type 0 where
  pub account_salt : List ℕ
  pub signers : List FactorySigner
  pub threshold : ℕ

-- The interface `smartAccountFactory`, `scAddress` (whose decoding is the Stellar SDK's) and the XDR
-- encoding. `none` is an error.
pub record SmartAccountFactory : Type 0 where
  pub is_sc_address : Text → Bool
  pub encode_params : AccountInitParams → Option Text
  pub predict_address : AccountInitParams → Option Text
  pub deploy : AccountInitParams → Text → Option (Text × Bool)

module _ (factory : SmartAccountFactory) where
  abbrev external_of : Kind → Option (List ℕ) → Option FactorySigner
  external_of k none = none
  external_of k (some key_data) = some (external_signer key_data k)

  -- The `switch` in the loop of `buildMultisigAccountInitParams`.
  unfoldable pub factory_signer : Kind → MultisigSignerInit → Option FactorySigner
  factory_signer delegated s =
      if factory.is_sc_address s.g_address then some (delegated_signer s.g_address) else none
  factory_signer webauthn s = external_of webauthn (hex_decode s.key_data_hex)
  factory_signer ed25519 s = external_of ed25519 (hex_decode s.key_data_hex)
  factory_signer (unknown t) s = none

  abbrev both : Option FactorySigner → Option (List FactorySigner) → Option (List FactorySigner)
  both (some v) (some vs) = some (v ∷ vs)
  both _ _ = none

  unfoldable pub factory_signers : List MultisigSignerInit → Option (List FactorySigner)
  unfolding factory_signer
  factory_signers [] = some []
  factory_signers (s ∷ ss) = both (factory_signer s.type_name s) (factory_signers ss)

  unfoldable pub build_multisig_account_init_params :
      ℕ → List ℕ → List MultisigSignerInit → Option AccountInitParams
  build_multisig_account_init_params threshold salt ss = elim (factory_signers ss) [
    | none ↦ none
    | some vs ↦ some (record { account_salt = salt; signers = vs; threshold = threshold })
  ]
