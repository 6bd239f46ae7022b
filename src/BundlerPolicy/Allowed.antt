-- ===== src/BundlerPolicy/Allowed.antt =====
-- When the bundler pays.
use mathlib.Core.Path.{subst}
use latch_api.Common.Text.{text_eq_self, text_eq_iff}
use latch_api.Common.{
  ◌≡◌, Option-cases, All, inl, inr, [], arith, sym, refl, ◌∙◌, ok-injective, ◌⊎◌, ap, Bool-cases,
  none, ◌↔◌,
}
use latch_api.BundlerPolicy.{
  Operation, contract_invocation, other_operation, other_host_function, BundlerPolicy,
  operation_target, same_target, targets, invoked_contract_id, check_envelope, configured, Text,
  Option, List, ℕ, some, ok, ◌∷◌, Result, err, suc, text_eq, false, any, true,
}

Result-cases : {E A : Type 0} (r : Result E A) → ((e : E) × (r ≡ err e)) ⊎ ((a : A) × (r ≡ ok a))
Result-cases (err e) = inl (e, refl)
Result-cases (ok a) = inr (a, refl)

module _ (decode : Text → Option (Option (List Operation))) (encode : List ℕ → Option Text) where
  -- The operation invokes the contract with this address.
  abbrev pub Invokes : Text → Operation → Type 0
  Invokes address op =
      (id : List ℕ) × (op ≡ contract_invocation (some id)) × (encode id ≡ some address)

  operation_target-Invokes :
      (i : ℕ) (op : Operation) (address : Text)
      → operation_target decode encode i op ≡ ok address
      → Invokes address op
  operation_target-Invokes i other_operation address e = absurd (ground (arith, e))
  operation_target-Invokes i other_host_function address e = absurd (ground (arith, e))
  operation_target-Invokes i (contract_invocation none) address e = absurd (ground (arith, e))
  operation_target-Invokes i (contract_invocation (some id)) address e =
      elim (Option-cases (encode id)) [
        | inl bad ↦ absurd (ground (arith, rw (operation_target, bad) at e))
        | inr (a, good) ↦
            (id, refl, good ∙ ap some (ok-injective (rw (operation_target, good) at e)))
      ]

  operation_target-known :
      (i : ℕ) (op : Operation) (address : Text)
      → Invokes address op
      → operation_target decode encode i op ≡ ok address
  operation_target-known i op address (id, is_call, encoded) =
      rw (is_call, operation_target, encoded) refl

  same_target-Invokes :
      (i : ℕ) (address found : Text) (ops : List Operation)
      → same_target decode encode i address ops ≡ ok found
      → (found ≡ address) × All (Invokes address) ops
  same_target-Invokes i address found [] e = (sym (ok-injective e), tt)
  same_target-Invokes i address found (op ∷ ops) e =
      elim (Result-cases (operation_target decode encode i op)) [
        | inl (x, bad) ↦ absurd (ground (arith, rw (same_target, bad) at e))
        | inr (a, good) ↦ elim (Bool-cases (text_eq a address)) [
          | inr differs ↦ absurd (ground (arith, rw (same_target, good, differs) at e))
          | inl same ↦
              let (is_target, rest) =
                same_target-Invokes (suc i) address found ops (rw (same_target, good, same) at e) in
              (
                is_target,
                (
                  operation_target-Invokes i op address
                      (good ∙ ap ok ((text_eq_iff a address).0 same)),
                  rest,
                ),
              )
        ]
      ]

  same_target-known :
      (i : ℕ) (address : Text) (ops : List Operation)
      → All (Invokes address) ops
      → same_target decode encode i address ops ≡ ok address
  same_target-known i address [] h = refl
  same_target-known i address (op ∷ ops) (one, rest) =
      rw (same_target, operation_target-known i op address one, text_eq_self address)
        (same_target-known (suc i) address ops rest)

  -- The envelope has operations, and they all invoke the contract with this address.
  abbrev pub CallsOnly : Text → Option (Option (List Operation)) → Type 0
  CallsOnly address envelope =
      (op : Operation) × (ops : List Operation) × (envelope ≡ some (some (op ∷ ops)))
      × All (Invokes address) (op ∷ ops)

  targets-CallsOnly :
      (envelope : Option (Option (List Operation))) (address : Text)
      → targets decode encode envelope ≡ ok address
      → CallsOnly address envelope
  targets-CallsOnly none address e = absurd (ground (arith, e))
  targets-CallsOnly (some none) address e = absurd (ground (arith, e))
  targets-CallsOnly (some (some [])) address e = absurd (ground (arith, e))
  targets-CallsOnly (some (some (op ∷ ops))) address e =
      elim (Result-cases (operation_target decode encode 0 op)) [
        | inl (x, bad) ↦ absurd (ground (arith, rw (targets, bad) at e))
        | inr (a, good) ↦
            let (is_target, rest) = same_target-Invokes 1 a address ops (rw (targets, good) at e) in
            (
              op,
              ops,
              refl,
              subst (λ x. All (Invokes x) (op ∷ ops)) (sym is_target)
                  (operation_target-Invokes 0 op a good, rest),
            )
      ]

  targets-known :
      (envelope : Option (Option (List Operation))) (address : Text)
      → CallsOnly address envelope
      → targets decode encode envelope ≡ ok address
  targets-known envelope address (op, ops, is_envelope, (one, rest)) =
      rw (is_envelope, targets, operation_target-known 0 op address one)
        (same_target-known 1 address ops rest)

  -- The bundler pays exactly where no allow-list is configured, or where the envelope has operations
  -- that all invoke one contract, whose address is in the list.
  pub check_envelope_iff :
      (p : BundlerPolicy) (tx : Text)
      → (check_envelope decode encode p tx ≡ ok tt) ↔ (
          (configured p ≡ false)
          ⊎ ((address : Text) × (any (text_eq address) p.allowed ≡ true)
              × CallsOnly address (decode tx)))
  unfolding check_envelope invoked_contract_id
  check_envelope_iff p tx = (forth, back)
    where
      forth :
          check_envelope decode encode p tx ≡ ok tt
          → (configured p ≡ false)
            ⊎ ((address : Text) × (any (text_eq address) p.allowed ≡ true)
                × CallsOnly address (decode tx))
      forth e = elim (Bool-cases (configured p)) [
        | inr free ↦ inl free
        | inl listed ↦ elim (Result-cases (targets decode encode (decode tx))) [
          | inl (x, bad) ↦ absurd (ground (arith, rw (check_envelope, listed, bad) at e))
          | inr (a, good) ↦ elim (Bool-cases (any (text_eq a) p.allowed)) [
            | inl found ↦ inr (a, found, targets-CallsOnly (decode tx) a good)
            | inr missing ↦ absurd (ground (arith, rw (check_envelope, listed, good, missing) at e))
          ]
        ]
      ]

      back :
          (configured p ≡ false)
            ⊎ ((address : Text) × (any (text_eq address) p.allowed ≡ true)
                × CallsOnly address (decode tx))
          → check_envelope decode encode p tx ≡ ok tt
      back (inl free) = rw (check_envelope, free) refl
      back (inr (a, found, calls)) = elim (Bool-cases (configured p)) [
        | inr free ↦ rw (check_envelope, free) refl
        | inl listed ↦ rw (check_envelope, listed, targets-known (decode tx) a calls, found) refl
      ]
