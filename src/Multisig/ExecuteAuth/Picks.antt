-- ===== src/Multisig/ExecuteAuth/Picks.antt =====
-- What `pickApprovalsForThreshold` picks.
use latch_api.Multisig.ExecuteAuth.{pick_approvals_for_threshold, MultisigApproval, first_of_length}
use latch_api.Common.{
  ℕ, ◌+◌, ◌-◌, ◌≤◌, ◌≡◌, refl, sym, ap, ◌⊎◌, inl, inr, List, [], ◌∷◌, arith, ltb, Bool-cases,
  length, take, length-take,
}

take-length {ℓ} : {A : Type ℓ} (xs : List A) → take (length xs) xs ≡ xs
take-length [] = refl
take-length (x ∷ xs) = ap (λ ys. x ∷ ys) (take-length xs)

module _ {A : Type 0} (n : ℕ) (xs : List A) where
  length-first_of_length :
      (length (first_of_length n xs) ≤ n)
      × (length (first_of_length n xs) ≤ length xs)
      × (n ≤ length (first_of_length n xs) ⊎ length (first_of_length n xs) ≡ length xs)
  unfolding first_of_length
  length-first_of_length = ground (arith, length-take n xs)

  first_of_length_prefix : first_of_length n xs ≡ take (length (first_of_length n xs)) xs
  unfolding first_of_length
  first_of_length_prefix = elim (Bool-cases (ltb n (length xs))) [
    | inl more ↦ rw more (ap (λ k. take k xs) (ground (arith, length-take n xs)))
    | inr all' ↦ rw all' (sym (take-length xs))
  ]

  first_of_length_all : length xs ≤ n → first_of_length n xs ≡ xs
  unfolding first_of_length
  first_of_length_all h = ground arith

-- From approvals that reach the threshold exactly `threshold` are picked, a delegated one only if every
-- passkey approval is picked; what is picked is a prefix of what there is.
pub pick_approvals_for_threshold_exact :
    (threshold : ℕ) (ws ds : List MultisigApproval)
    → threshold ≤ length ws + length ds
    → let (pw, pd) = pick_approvals_for_threshold threshold ws ds in
      (length pw + length pd ≡ threshold)
      × ((pd ≡ []) ⊎ (pw ≡ ws))
      × (pw ≡ take (length pw) ws)
      × (pd ≡ take (length pd) ds)
unfolding pick_approvals_for_threshold
pick_approvals_for_threshold_exact threshold ws ds h =
    let picked = first_of_length threshold ws in
    let remaining = threshold - length picked in
    elim (Bool-cases (ltb 0 remaining)) [
      | inl more ↦ rw more (
        ground (arith, length-first_of_length threshold ws, length-first_of_length remaining ds),
        inr (
            first_of_length_all threshold ws (ground (arith, length-first_of_length threshold ws))),
        first_of_length_prefix threshold ws,
        first_of_length_prefix remaining ds,
      )
      | inr full ↦ rw full (
        ground (arith, length-first_of_length threshold ws),
        inl refl,
        first_of_length_prefix threshold ws,
        refl,
      )
    ]
