-- ===== src/Multisig/Accounts/Canonical.antt =====
-- A validated list of signers: its bounds, its keys, and the order that the factory gets it in.
use mathlib.Core.List.{Permᴰ, append-nil, append_assoc}
use mathlib.Core.Path.{subst}
use latch_api.Common.{
  ℕ, suc, ◌≡◌, ◌≢◌, ◌≤◌, refl, true, none, List, [], ◌∷◌, ◌++◌, length, ltb, All, All-append,
  Option-cases, Bool-cases, arith, inl, inr,
}
use latch_api.Common.Text.{text_eq_iff}
use latch_api.Common.Sort.{sort_by_of_perm, DistinctKeys, Differs}
use latch_api.External.{External}
use latch_api.Signers.{
  Kind, delegated, webauthn, ed25519, unknown, kind_eq, normalize_hex, MultisigSignerInit,
}
use latch_api.Multisig.Accounts.{
  validate_signer_kind, validate_signer_init, duplicate_signer_key, duplicate_signer_one,
  duplicate_signer_init_error, check_signers, validate_signer_inits, signer_sort_key_of,
  signer_init_sort_key, canonicalize_signer_inits,
}

abbrev DiffersFrom : MultisigSignerInit → MultisigSignerInit → Type 0
DiffersFrom = Differs signer_init_sort_key

-- Two signers that the duplicate check lets pass have different sort keys.
duplicate_signer_key-Differs :
    (ext : External) (j k : Kind) (c s : MultisigSignerInit)
    → validate_signer_kind ext j c ≡ none
    → validate_signer_kind ext k s ≡ none
    → (kind_eq k j ≡ true → duplicate_signer_key j c s ≡ none)
    → signer_sort_key_of k s ≢ signer_sort_key_of j c
unfolding validate_signer_kind duplicate_signer_key signer_sort_key_of kind_eq
duplicate_signer_key-Differs ext delegated delegated c s vc vs d same =
    ground (arith, d refl, text_eq_iff s.g_address c.g_address, same)
duplicate_signer_key-Differs ext webauthn webauthn c s vc vs d same =
    ground
      (arith, d refl, text_eq_iff (normalize_hex s.key_data_hex) (normalize_hex c.key_data_hex))
duplicate_signer_key-Differs ext delegated webauthn c s vc vs d same = ground arith
duplicate_signer_key-Differs ext webauthn delegated c s vc vs d same = ground arith
duplicate_signer_key-Differs ext ed25519 k c s vc vs d same = cc
duplicate_signer_key-Differs ext (unknown t) k c s vc vs d same = cc
duplicate_signer_key-Differs ext delegated ed25519 c s vc vs d same = cc
duplicate_signer_key-Differs ext delegated (unknown t) c s vc vs d same = cc
duplicate_signer_key-Differs ext webauthn ed25519 c s vc vs d same = cc
duplicate_signer_key-Differs ext webauthn (unknown t) c s vc vs d same = cc

module _ (ext : External) where
  abbrev pub IsValidSigner : MultisigSignerInit → Type 0
  IsValidSigner s = validate_signer_init ext s ≡ none

  duplicate_signer_one-none :
      (c s : MultisigSignerInit)
      → duplicate_signer_one c s ≡ none
      → kind_eq s.type_name c.type_name ≡ true
      → duplicate_signer_key c.type_name c s ≡ none
  unfolding duplicate_signer_one
  duplicate_signer_one-none c s new same = ground (arith, new, same)

  duplicate_signer_init_error-Differs :
      (c : MultisigSignerInit) (ss : List MultisigSignerInit)
      → IsValidSigner c
      → All IsValidSigner ss
      → duplicate_signer_init_error c ss ≡ none
      → All (λ s. DiffersFrom s c) ss
  unfolding duplicate_signer_init_error duplicate_signer_one validate_signer_init
      signer_init_sort_key
  duplicate_signer_init_error-Differs c [] vc vs h = tt
  duplicate_signer_init_error-Differs c (s ∷ ss) vc vs h =
      elim (Option-cases (duplicate_signer_one c s)) [
        | inr (e, bad) ↦ absurd (ground arith)
        | inl new ↦ (
          duplicate_signer_key-Differs ext c.type_name s.type_name c s vc vs.0
              (duplicate_signer_one-none c s new),
          duplicate_signer_init_error-Differs c ss vc vs.1
              (rw (duplicate_signer_init_error, new) at h),
        )
      ]

  DistinctKeys-append :
      (xs : List MultisigSignerInit) (x : MultisigSignerInit)
      → DistinctKeys signer_init_sort_key xs
      → All (λ y. DiffersFrom y x) xs
      → DistinctKeys signer_init_sort_key (xs ++ x ∷ [])
  DistinctKeys-append [] x h k = (tt, tt)
  DistinctKeys-append (y ∷ ys) x h k =
      (All-append (DiffersFrom y) ys x h.0 k.0, DistinctKeys-append ys x h.1 k.1)

  abbrev pub IsChecked : List MultisigSignerInit → Type 0
  IsChecked ss = All IsValidSigner ss × DistinctKeys signer_init_sort_key ss

  check_signers-IsChecked :
      (i : ℕ) (before ss : List MultisigSignerInit)
      → IsChecked before
      → check_signers ext i before ss ≡ none
      → IsChecked (before ++ ss)
  unfolding check_signers
  check_signers-IsChecked i before [] k h = rw (append-nil before) k
  check_signers-IsChecked i before (s ∷ ss) k h = elim (Option-cases (validate_signer_init ext s)) [
    | inr (e, bad) ↦ absurd (ground arith)
    | inl valid ↦ elim (Option-cases (duplicate_signer_init_error s before)) [
      | inr (e, bad) ↦ absurd (ground arith)
      | inl new ↦ subst IsChecked (append_assoc before (s ∷ []) ss) (
          check_signers-IsChecked (suc i) (before ++ s ∷ []) ss
            (
              All-append IsValidSigner before s k.0 valid,
              DistinctKeys-append before s k.1
                  (duplicate_signer_init_error-Differs s before valid k.0 new),
            )
            (rw (check_signers, valid, new) at h))
    ]
  ]

  -- A list of signers that is accepted has at least two signers and a threshold between 1 and their
  -- number, each of them is valid, and no two have one canonical key.
  pub validate_signer_inits-IsChecked :
      (threshold : ℕ) (ss : List MultisigSignerInit)
      → validate_signer_inits ext threshold ss ≡ none
      → (1 ≤ threshold)
        × (threshold ≤ length ss)
        × (2 ≤ length ss)
        × All IsValidSigner ss
        × DistinctKeys signer_init_sort_key ss
  unfolding validate_signer_inits
  validate_signer_inits-IsChecked threshold ss h = elim (Bool-cases (ltb threshold 1)) [
    | inl low ↦ absurd (ground arith)
    | inr positive ↦ elim (Bool-cases (ltb (length ss) 2)) [
      | inl few ↦ absurd (ground arith)
      | inr enough ↦ elim (Bool-cases (ltb (length ss) threshold)) [
        | inl high ↦ absurd (ground arith)
        | inr reachable ↦
            let (valid, distinct) =
              check_signers-IsChecked 0 [] ss (tt, tt)
                (rw (validate_signer_inits, positive, enough, reachable) at h) in
            (
              ground (arith, positive),
              ground (arith, reachable),
              ground (arith, enough),
              valid,
              distinct,
            )
      ]
    ]
  ]

  -- The factory's order of an accepted list of signers does not depend on the order in which
  -- the caller gave them.
  pub canonicalize_signer_inits_of_perm :
      (threshold : ℕ) {ss ts : List MultisigSignerInit}
      → validate_signer_inits ext threshold ss ≡ none
      → Permᴰ ss ts
      → canonicalize_signer_inits ss ≡ canonicalize_signer_inits ts
  unfolding canonicalize_signer_inits
  canonicalize_signer_inits_of_perm threshold {ss} h p =
      let (_, _, _, _, distinct) = validate_signer_inits-IsChecked threshold ss h in
      sort_by_of_perm signer_init_sort_key p distinct
