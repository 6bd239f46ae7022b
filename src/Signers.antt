-- ===== src/Signers.antt =====
-- internal/service/webapp/multisig_signers.go: the members of a multisig draft, their validation, and
-- their conversion to the signers of the factory contract. The error texts are constructors of
-- `MemberError`, and `none` stands for the empty text, which means valid.
pub mod Duplicates
pub mod Order
use latch_api.Common.{
  ℕ, Bool, true, false, ◌&&◌, not, Option, none, some, List, [], ◌∷◌, ◌++◌, map, ltb, ◌==◌,
  if◌then◌else◌, length, is_some, take,
}
use latch_api.Common.Text.{
  Text, codes, is_empty, text_eq, has_prefix, trim_prefix, to_lower, trim_space, hex_decode,
  hex_encode,
}
use latch_api.Common.Sort.{sort_by}
use latch_api.External.{External}

-- `MultisigSignerKind` is a string type; `unknown` is any other string.
pub data Kind : Type 0 where
  delegated webauthn ed25519 : Kind
  unknown : Text → Kind

unfoldable pub kind_eq : Kind → Kind → Bool
kind_eq delegated delegated = true
kind_eq webauthn webauthn = true
kind_eq ed25519 ed25519 = true
kind_eq (unknown s) (unknown t) = text_eq s t
kind_eq _ _ = false

pub record DraftMultisigMember : Type 0 where
  pub id : Text
  pub label : Text
  pub kind : Kind
  pub g_address : Text
  pub key_data_hex : Text
  pub credential_id : Text
  pub public_key_hex : Text
  pub user_id : Text

abbrev pub min_webauthn_key_data_hex_len : ℕ
min_webauthn_key_data_hex_len = 132

abbrev pub ed25519_public_key_hex_len : ℕ
ed25519_public_key_hex_len = 64

unfoldable pub normalize_hex : Text → Text
normalize_hex h = to_lower (trim_prefix h (codes "0x"))

unfoldable pub is_valid_g_address : External → Text → Bool
is_valid_g_address ext g = ext.is_account_strkey g

unfoldable pub is_valid_webauthn_key_data_hex : Text → Bool
is_valid_webauthn_key_data_hex h =
    let normalized = normalize_hex h in
    if ltb (length normalized) min_webauthn_key_data_hex_len
    then false
    else if not (has_prefix normalized (codes "04"))
    then false
    else is_some (hex_decode normalized)

unfoldable pub is_valid_ed25519_public_key_hex : Text → Bool
is_valid_ed25519_public_key_hex h =
    let normalized = normalize_hex h in
    if not (length normalized == ed25519_public_key_hex_len)
    then false
    else is_some (hex_decode normalized)

pub data MemberError : Type 0 where
  label_required : MemberError
  g_address_required g_address_invalid : MemberError
  key_data_required key_data_invalid : MemberError
  public_key_required public_key_invalid : MemberError
  unsupported_member : Text → MemberError
  delegated_already_added webauthn_already_added ed25519_already_added : MemberError

-- The `switch` of `validateDraftMember`.
unfoldable pub validate_kind : External → Kind → DraftMultisigMember → Option MemberError
validate_kind ext delegated m =
    if is_empty m.g_address
    then some g_address_required
    else if is_valid_g_address ext m.g_address
    then none
    else some g_address_invalid
validate_kind ext webauthn m =
    if is_empty m.key_data_hex
    then some key_data_required
    else if is_valid_webauthn_key_data_hex m.key_data_hex
    then none
    else some key_data_invalid
validate_kind ext ed25519 m =
    if is_empty m.public_key_hex
    then some public_key_required
    else if is_valid_ed25519_public_key_hex m.public_key_hex
    then none
    else some public_key_invalid
validate_kind ext (unknown s) m = some (unsupported_member s)

unfoldable pub validate_draft_member : External → DraftMultisigMember → Option MemberError
unfolding validate_kind
validate_draft_member ext m =
    if is_empty (trim_space m.label) then some label_required else validate_kind ext m.kind m

-- The `switch` in the loop of `duplicateMemberError`, for one existing member of the same kind.
unfoldable pub duplicate_key : Kind → DraftMultisigMember → DraftMultisigMember → Option MemberError
duplicate_key delegated c m =
    if not (is_empty c.g_address) && text_eq m.g_address c.g_address
    then some delegated_already_added
    else none
duplicate_key webauthn c m =
    if not (is_empty c.key_data_hex)
      && text_eq (normalize_hex m.key_data_hex) (normalize_hex c.key_data_hex)
    then some webauthn_already_added
    else none
duplicate_key ed25519 c m =
    if not (is_empty c.public_key_hex)
      && text_eq (normalize_hex m.public_key_hex) (normalize_hex c.public_key_hex)
    then some ed25519_already_added
    else none
duplicate_key (unknown s) c m = none

unfoldable pub duplicate_one : DraftMultisigMember → DraftMultisigMember → Option MemberError
unfolding duplicate_key kind_eq
duplicate_one c m = if kind_eq m.kind c.kind then duplicate_key c.kind c m else none

abbrev first_error : Option MemberError → Option MemberError → Option MemberError
first_error none later = later
first_error (some e) later = some e

-- `duplicateMemberError`: the first conflict with an existing member.
unfoldable pub duplicate_member_error :
    DraftMultisigMember → List DraftMultisigMember → Option MemberError
duplicate_member_error c [] = none
duplicate_member_error c (m ∷ ms) = first_error (duplicate_one c m) (duplicate_member_error c ms)

pub record MultisigSignerInit : Type 0 where
  pub type_name : Kind
  pub key_data_hex : Text
  pub g_address : Text
  pub label : Text

pub record Keyed : Type 0 where
  pub key : Text
  pub signer : MultisigSignerInit

-- The body of the loop of `draftMembersToFactorySigners`: a member of a deployable kind, keyed.
unfoldable pub keyed_signer : Kind → DraftMultisigMember → Option Keyed
keyed_signer delegated m = some (record {
  key = codes "0:delegated:" ++ m.g_address;
  signer = record {
    type_name = delegated;
    key_data_hex = [];
    g_address = m.g_address;
    label = m.label;
  };
})
keyed_signer webauthn m = some (record {
  key = codes "1:webauthn:" ++ normalize_hex m.key_data_hex;
  signer = record {
    type_name = webauthn;
    key_data_hex = normalize_hex m.key_data_hex;
    g_address = [];
    label = m.label;
  };
})
keyed_signer ed25519 m = none
keyed_signer (unknown s) m = none

abbrev pub add_some : Option Keyed → List Keyed → List Keyed
add_some none ks = ks
add_some (some k) ks = k ∷ ks

unfoldable pub keyed_signers : List DraftMultisigMember → List Keyed
unfolding keyed_signer
keyed_signers [] = []
keyed_signers (m ∷ ms) = add_some (keyed_signer m.kind m) (keyed_signers ms)

abbrev pub signer_of : Keyed → MultisigSignerInit
signer_of k = k.signer

abbrev pub key_of : Keyed → Text
key_of k = k.key

unfoldable pub draft_members_to_factory_signers : List DraftMultisigMember → List MultisigSignerInit
draft_members_to_factory_signers ms = map signer_of (sort_by key_of (keyed_signers ms))

abbrev fingerprint_material : Kind → DraftMultisigMember → Option Text
fingerprint_material delegated m = some (codes "delegated:" ++ m.g_address)
fingerprint_material webauthn m = some (codes "webauthn:" ++ normalize_hex m.key_data_hex)
fingerprint_material ed25519 m = some (codes "ed25519:" ++ normalize_hex m.public_key_hex)
fingerprint_material (unknown s) m = none

-- The first 8 hex digits of a hash of the key material; empty for an unknown kind.
unfoldable pub member_fingerprint : External → DraftMultisigMember → Text
member_fingerprint ext m = elim (fingerprint_material m.kind m) [
  | none ↦ []
  | some material ↦ take 8 (hex_encode (ext.sha256 material))
]
