-- ===== src/WebAuthn/Keys.antt =====
-- The collection of an account's signer keys from its context rules.
use latch_api.WebAuthn.{WebAuthnError, no_webauthn_signer, read_failed}
use latch_api.Common.{
  List, Result, ◌∷◌, [], if◌then◌else◌, any, ok, ltb, err, ◌++◌, ◌&&◌, ◌+◌, leb, ◌==◌, length, take,
  zero, true, false,
}
use latch_api.Common.Text.{Text, text_eq, codes}
use Prim.Native.Nat.{ℕ, suc}

mutual
  -- The values of the contract's ABI, as far as a context rule is read; anything else is `sc_other`.
  pub data ScVal : Type 0 where
    sc_symbol : Text → ScVal
    sc_bytes : List ℕ → ScVal
    sc_vec : ScVals → ScVal
    sc_map : ScEntries → ScVal
    sc_other : ScVal

  pub data ScVals : Type 0 where
    no_vals : ScVals
    val : ScVal → ScVals → ScVals

  pub data ScEntries : Type 0 where
    no_entries : ScEntries
    entry : ScVal → ScVal → ScEntries → ScEntries

-- The point of a signer `External(verifier, key_data)`.
unfoldable pub point_of_signer : ScVal → List (List ℕ)
unfolding text_eq
point_of_signer (sc_vec (val (sc_symbol s) (val verifier (val (sc_bytes (b ∷ bs)) no_vals)))) =
    if text_eq s (codes "External") && leb 65 (length (b ∷ bs)) && b == 4
    then take 65 (b ∷ bs) ∷ []
    else []
point_of_signer _ = []

unfoldable pub points_of_signers : ScVals → List (List ℕ)
unfolding point_of_signer
points_of_signers no_vals = []
points_of_signers (val s ss) = point_of_signer s ++ points_of_signers ss

unfoldable pub points_of_entries : ScEntries → List (List ℕ)
unfolding points_of_signers text_eq
points_of_entries no_entries = []
points_of_entries (entry (sc_symbol s) (sc_vec signers) rest) =
    let others = points_of_entries rest in
    if text_eq s (codes "signers") then points_of_signers signers ++ others else others
points_of_entries (entry k v rest) = points_of_entries rest

-- `webAuthnKeysFromRule`
unfoldable pub webauthn_keys_from_rule : ScVal → List (List ℕ)
unfolding points_of_entries
webauthn_keys_from_rule (sc_map entries) = points_of_entries entries
webauthn_keys_from_rule _ = []

-- What a read-only simulation of a call returns: `missing` where the call itself fails on chain.
pub data Reading (A : Type 0) : Type 0 where
  broken missing : Reading A
  value : A → Reading A

-- The two reads of an account, which the Soroban node answers; `missing` for a count that is no u32.
pub record AccountReader : Type 0 where
  pub rules_count : Reading ℕ
  pub rule : ℕ → Reading ScVal

abbrev pub max_context_rule_scan : ℕ
max_context_rule_scan = 64

-- The keys that were not seen yet are added, in order.
unfoldable pub add_new : List (List ℕ) → List (List ℕ) → List (List ℕ)
unfolding text_eq
add_new keys [] = keys
add_new keys (k ∷ ks) = add_new (if any (text_eq k) keys then keys else keys ++ k ∷ []) ks

abbrev pub scan_limit : ℕ → ℕ
scan_limit count =
    if ltb max_context_rule_scan (count + 8) then max_context_rule_scan else count + 8

abbrev pub none_found : List (List ℕ) → Result WebAuthnError (List (List ℕ))
none_found [] = err no_webauthn_signer
none_found (k ∷ ks) = ok (k ∷ ks)

module _ (reader : AccountReader) where
  -- The loop of `WebAuthnSignerKeys`, with the number of ids that are left.
  unfoldable pub scan_rules : ℕ → ℕ → ℕ → ℕ → List (List ℕ) → Result WebAuthnError (List (List ℕ))
  unfolding add_new webauthn_keys_from_rule
  scan_rules zero id found count keys = ok keys
  scan_rules (suc left) id found count keys = elim (ltb found count) [
    | false ↦ ok keys
    | true ↦ elim (reader.rule id) [
      | broken ↦ err read_failed
      | missing ↦ scan_rules left (suc id) found count keys
      | value rule ↦
          scan_rules left (suc id) (suc found) count (add_new keys (webauthn_keys_from_rule rule))
    ]
  ]

  -- `WebAuthnSignerKeys`
  unfoldable pub webauthn_signer_keys : Result WebAuthnError (List (List ℕ))
  unfolding scan_rules
  webauthn_signer_keys = elim reader.rules_count [
    | broken ↦ err read_failed
    | missing ↦ err no_webauthn_signer
    | value count ↦
        if count == 0
        then err no_webauthn_signer
        else elim (scan_rules (scan_limit count) 0 0 count []) [
          | err e ↦ err e
          | ok keys ↦ none_found keys
        ]
  ]
