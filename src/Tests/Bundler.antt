-- ===== src/Tests/Bundler.antt =====
-- The bundler's policy on envelopes of two operations.
use latch_api.Common.{
  [], Option, List, ◌∷◌, ℕ, ◌≡◌, some, ok, ◌↔◌, err, false, ◌⊎◌, any, true, if◌then◌else◌, refl,
  none,
}
use latch_api.BundlerPolicy.{
  Operation, contract_invocation, other_host_function, BundlerPolicy, new_bundler_policy,
  contract_set, check_envelope, invoked_contract_id, configured, different_contracts,
  not_invocation,
}
use latch_api.BundlerPolicy.Allowed.{CallsOnly, check_envelope_iff}
use latch_api.Common.Text.{Text, codes, text_eq}

-- Three envelopes.
abbrev decode : Text → Option (Option (List Operation))
decode x =
    if text_eq x (codes "one")
    then some
        (some (contract_invocation (some (5 ∷ [])) ∷ contract_invocation (some (5 ∷ [])) ∷ []))
    else if text_eq x (codes "two")
    then some
        (some (contract_invocation (some (5 ∷ [])) ∷ contract_invocation (some (6 ∷ [])) ∷ []))
    else if text_eq x (codes "upload")
    then some (some (contract_invocation (some (5 ∷ [])) ∷ other_host_function ∷ []))
    else none

abbrev encode : List ℕ → Option Text
encode id = some id

abbrev policy : BundlerPolicy
policy = new_bundler_policy ([] ∷ (5 ∷ []) ∷ [])

check_envelope_iff_example : (check_envelope decode encode policy (codes "one") ≡ ok tt) ↔ (
    (configured policy ≡ false)
    ⊎ ((address : Text) × (any (text_eq address) policy.allowed ≡ true)
        × CallsOnly decode encode address (decode (codes "one"))))
check_envelope_iff_example = check_envelope_iff decode encode policy (codes "one")

pays :
    (check_envelope decode encode policy (codes "one") ≡ ok tt)
    × (check_envelope decode encode policy (codes "two") ≡ err different_contracts)
    × (check_envelope decode encode policy (codes "upload") ≡ err (not_invocation 1))
unfolding check_envelope invoked_contract_id contract_set text_eq
pays = (refl, refl, refl)
