-- ===== src/BundlerPolicy.antt =====
-- Which contracts the bundler pays for: internal/service/bundler_policy.go.
pub mod Allowed
use latch_api.Common.{
  if◌then◌else◌, Option, ℕ, List, Bool, keep, false, Result, not, ◌∷◌, err, ok, true, some, suc,
  any, [], none,
}
use latch_api.Common.Text.{Text, is_empty, text_eq}

-- What a decoded operation holds: the identifier is that of the contract it invokes, where its address
-- is a contract's.
pub data Operation : Type 0 where
  other_operation other_host_function : Operation
  contract_invocation : Option (List ℕ) → Operation

pub data PolicyError : Type 0 where
  bad_envelope no_operation bad_contract_id different_contracts contract_not_allowed : PolicyError
  not_host_function not_invocation not_contract : ℕ → PolicyError

pub record BundlerPolicy : Type 0 where
  pub allowed : List Text

-- `contractSet`
unfoldable pub contract_set : List Text → List Text
contract_set addresses = keep (λ a. not (is_empty a)) addresses

-- `NewBundlerPolicy`
abbrev pub new_bundler_policy : List Text → BundlerPolicy
new_bundler_policy contracts = record { allowed = contract_set contracts }

abbrev pub configured_by : List Text → Bool
configured_by [] = false
configured_by (a ∷ rest) = true

-- `Configured`
abbrev pub configured : BundlerPolicy → Bool
configured p = configured_by p.allowed

-- `decode` is `xdr.SafeUnmarshalBase64`, with the operations of `V1` where there is one, and `encode`
-- writes the address of a contract.
module _ (decode : Text → Option (Option (List Operation))) (encode : List ℕ → Option Text) where
  -- One round of the loop, up to the encoded address.
  abbrev pub operation_target : ℕ → Operation → Result PolicyError Text
  operation_target i other_operation = err (not_host_function i)
  operation_target i other_host_function = err (not_invocation i)
  operation_target i (contract_invocation none) = err (not_contract i)
  operation_target i (contract_invocation (some id)) = elim (encode id) [
    | none ↦ err bad_contract_id
    | some address ↦ ok address
  ]

  -- The rounds after the first.
  abbrev pub same_target : ℕ → Text → List Operation → Result PolicyError Text
  same_target i target [] = ok target
  same_target i target (op ∷ ops) =
      let rest = same_target (suc i) target ops in
      elim (operation_target i op) [
        | err e ↦ err e
        | ok address ↦ if text_eq address target then rest else err different_contracts
      ]

  abbrev pub targets : Option (Option (List Operation)) → Result PolicyError Text
  targets none = err bad_envelope
  targets (some none) = err no_operation
  targets (some (some [])) = err no_operation
  targets (some (some (op ∷ ops))) = elim (operation_target 0 op) [
    | err e ↦ err e
    | ok address ↦ same_target 1 address ops
  ]

  -- `InvokedContractID`
  unfoldable pub invoked_contract_id : Text → Result PolicyError Text
  invoked_contract_id tx = targets (decode tx)

  -- `CheckEnvelope`
  unfoldable pub check_envelope : BundlerPolicy → Text → Result PolicyError (Unit {0})
  check_envelope p tx = if not (configured p) then ok tt else elim (invoked_contract_id tx) [
    | err e ↦ err e
    | ok address ↦ if any (text_eq address) p.allowed then ok tt else err contract_not_allowed
  ]
