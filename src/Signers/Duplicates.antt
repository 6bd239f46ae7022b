-- ===== src/Signers/Duplicates.antt =====
-- What the duplicate check of multisig_signers.go accepts, against the key material of the members.
use mathlib.Core.Path.{subst}
use latch_api.Common.{[], ◌∷◌, refl, ◌∙◌, ◌≡◌, ◌≢◌, ◌↔◌, true, none, arith, sym, List, All, ◌∷◌}
use latch_api.Common.Text.{Text, text_eq_iff}
use latch_api.External.{External}
use latch_api.Signers.{
  Kind, delegated, webauthn, ed25519, unknown, DraftMultisigMember, normalize_hex, validate_kind,
  validate_draft_member, duplicate_key, duplicate_one, kind_eq, duplicate_member_error,
}

-- The key of a member, as it is compared: the raw address, or the hex text in normal form.
abbrev pub material : Kind → DraftMultisigMember → Text
material delegated m = m.g_address
material webauthn m = normalize_hex m.key_data_hex
material ed25519 m = normalize_hex m.public_key_hex
material (unknown s) m = s

-- Two members of one kind with one key.
abbrev pub SameKey : DraftMultisigMember → DraftMultisigMember → Type 0
SameKey c m = (m.kind ≡ c.kind) × (material c.kind m ≡ material c.kind c)

kind_eq_iff : (a b : Kind) → (kind_eq a b ≡ true) ↔ (a ≡ b)
unfolding kind_eq
kind_eq_iff delegated b = ground arith
kind_eq_iff webauthn b = ground arith
kind_eq_iff ed25519 b = ground arith
kind_eq_iff (unknown s) (unknown t) =
    (λ h. ground (arith, text_eq_iff s t), λ h. ground (arith, text_eq_iff s t))
kind_eq_iff (unknown s) delegated = ground arith
kind_eq_iff (unknown s) webauthn = ground arith
kind_eq_iff (unknown s) ed25519 = ground arith

duplicate_key_iff :
    (ext : External) (k : Kind) (c m : DraftMultisigMember)
    → validate_kind ext k c ≡ none
    → (duplicate_key k c m ≡ none) ↔ (material k m ≢ material k c)
unfolding duplicate_key validate_kind
duplicate_key_iff ext delegated c m v = ground (arith, text_eq_iff m.g_address c.g_address)
duplicate_key_iff ext webauthn c m v =
    ground (arith, text_eq_iff (normalize_hex m.key_data_hex) (normalize_hex c.key_data_hex))
duplicate_key_iff ext ed25519 c m v =
    ground (arith, text_eq_iff (normalize_hex m.public_key_hex) (normalize_hex c.public_key_hex))
duplicate_key_iff ext (unknown s) c m v = cc

validate_kind_of :
    (ext : External) (m : DraftMultisigMember)
    → validate_draft_member ext m ≡ none
    → validate_kind ext m.kind m ≡ none
unfolding validate_draft_member
validate_kind_of ext m h = ground arith

-- For a valid candidate the check against one member passes exactly when their keys differ.
pub duplicate_one_iff :
    (ext : External) (c m : DraftMultisigMember)
    → validate_draft_member ext c ≡ none
    → (duplicate_one c m ≡ none) ↔ (¬ SameKey c m)
unfolding duplicate_one
duplicate_one_iff ext c m v =
    ground (
      arith,
      kind_eq_iff m.kind c.kind,
      duplicate_key_iff ext c.kind c m (validate_kind_of ext c v),
    )

-- For a valid candidate, `duplicate_member_error` finds no conflict exactly when no existing member has
-- the candidate's kind and key, where hex keys are compared without their case and `0x`.
pub duplicate_member_error_iff :
    (ext : External) (c : DraftMultisigMember) (existing : List DraftMultisigMember)
    → validate_draft_member ext c ≡ none
    → (duplicate_member_error c existing ≡ none) ↔ All (λ m. ¬ SameKey c m) existing
unfolding duplicate_member_error
duplicate_member_error_iff ext c [] v = (λ h. tt, λ h. refl)
duplicate_member_error_iff ext c (m ∷ ms) v = (
  λ h. ground (arith, duplicate_one_iff ext c m v, duplicate_member_error_iff ext c ms v),
  λ h. ground (arith, duplicate_one_iff ext c m v, duplicate_member_error_iff ext c ms v),
)

pub SameKey-of_kind :
    (k : Kind) (c m : DraftMultisigMember)
    → c.kind ≡ k
    → m.kind ≡ k
    → material k m ≡ material k c
    → SameKey c m
SameKey-of_kind k c m ec em e = (em ∙ sym ec, subst (λ j. material j m ≡ material j c) (sym ec) e)

pub SameKey-symm : (c m : DraftMultisigMember) → SameKey c m → SameKey m c
SameKey-symm c m (k, e) = SameKey-of_kind c.kind m c k refl (sym e)
