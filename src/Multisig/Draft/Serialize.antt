-- ===== src/Multisig/Draft/Serialize.antt =====
-- The conversions of multisig_draft_service.go: rows to members, and the two views of a draft.
use latch_api.Common.{
  ℕ, Bool, ◌&&◌, Option, none, some, List, [], ◌∷◌, map, leb, length, keep, is_some, not,
}
use latch_api.Common.Text.{Text}
use latch_api.Common.Rows.{str_or_empty}
use latch_api.External.{External}
use latch_api.Signers.{
  Kind, DraftMultisigMember, MemberError, validate_draft_member, member_fingerprint,
  MultisigSignerInit, draft_members_to_factory_signers,
}
use latch_api.Multisig.Tables.{DraftStatus, Source, Draft, DraftMember}
use latch_api.Multisig.DraftQueries.{is_collecting}

pub record SerializedDraftMember : Type 0 where
  pub id : Text
  pub label : Text
  pub member_type : Kind
  pub g_address : Text
  pub key_data_hex : Text
  pub credential_id : Text
  pub public_key_hex : Text
  pub source : Source
  pub valid : Bool
  pub validation_error : Option MemberError
  pub fingerprint : Text

pub record SerializedDraft : Type 0 where
  pub id : Text
  pub threshold : ℕ
  pub account_salt_hex : Text
  pub invite_token : Text
  pub status : DraftStatus
  pub predicted_address : Text
  pub smart_account_address : Text
  pub created_at : ℕ
  pub expires_at : Option ℕ
  pub members : List SerializedDraftMember
  pub valid_member_count : ℕ
  pub can_deploy : Bool

pub record PublicDraftMember : Type 0 where
  pub id : Text
  pub label : Text
  pub member_type : Kind
  pub source : Source
  pub fingerprint : Text
  pub valid : Bool

pub record PublicDraftView : Type 0 where
  pub id : Text
  pub threshold : ℕ
  pub status : DraftStatus
  pub member_count : ℕ
  pub valid_member_count : ℕ
  pub members : List PublicDraftMember

module _ (ext : External) where
  -- nullUUID
  unfoldable pub null_uuid : Text → Option ℕ
  null_uuid [] = none
  null_uuid (c ∷ s) = ext.uuid_parse (c ∷ s)

  -- uuidOrEmpty
  unfoldable pub uuid_or_empty : Option ℕ → Text
  uuid_or_empty none = []
  uuid_or_empty (some u) = ext.uuid_string u

  unfoldable pub domain_member_from_row : DraftMember → DraftMultisigMember
  unfolding uuid_or_empty
  domain_member_from_row row = record {
    id = ext.uuid_string row.id;
    label = row.label;
    kind = row.member_type;
    g_address = str_or_empty row.g_address;
    key_data_hex = str_or_empty row.key_data_hex;
    credential_id = str_or_empty row.credential_id;
    public_key_hex = str_or_empty row.public_key_hex;
    user_id = uuid_or_empty row.user_id;
  }

  -- `validateDraftMember(domainMemberFromRow(row)) == ""`
  unfoldable pub is_valid_row : DraftMember → Bool
  is_valid_row row = not (is_some (validate_draft_member ext (domain_member_from_row row)))

  unfoldable pub serialize_draft_member : DraftMember → SerializedDraftMember
  unfolding is_valid_row
  serialize_draft_member row =
      let m = domain_member_from_row row in
      record {
        id = m.id;
        label = m.label;
        member_type = m.kind;
        g_address = m.g_address;
        key_data_hex = m.key_data_hex;
        credential_id = m.credential_id;
        public_key_hex = m.public_key_hex;
        source = row.source;
        valid = is_valid_row row;
        validation_error = validate_draft_member ext m;
        fingerprint = member_fingerprint ext m;
      }

  unfoldable pub valid_deployable_factory_signers : List DraftMember → List MultisigSignerInit
  valid_deployable_factory_signers rows =
      draft_members_to_factory_signers (map domain_member_from_row (keep is_valid_row rows))

  unfoldable pub valid_count : List DraftMember → ℕ
  valid_count rows = length (keep is_valid_row rows)

  unfoldable pub can_deploy : Draft → List DraftMember → Bool
  can_deploy draft rows =
      is_collecting draft.status
      && leb 2 (valid_count rows)
      && leb 1 draft.threshold
      && leb draft.threshold (valid_count rows)
      && leb 2 (length (valid_deployable_factory_signers rows))

  unfoldable pub serialize : Draft → List DraftMember → SerializedDraft
  serialize draft rows = record {
    id = ext.uuid_string draft.id;
    threshold = draft.threshold;
    account_salt_hex = draft.account_salt_hex;
    invite_token = draft.invite_token;
    status = draft.status;
    predicted_address = str_or_empty draft.predicted_address;
    smart_account_address = str_or_empty draft.smart_account_address;
    created_at = draft.created_at;
    expires_at = draft.expires_at;
    members = map serialize_draft_member rows;
    valid_member_count = valid_count rows;
    can_deploy = can_deploy draft rows;
  }

  unfoldable pub public_member : DraftMember → PublicDraftMember
  public_member row =
      let m = domain_member_from_row row in
      record {
        id = m.id;
        label = m.label;
        member_type = m.kind;
        source = row.source;
        fingerprint = member_fingerprint ext m;
        valid = is_valid_row row;
      }

  unfoldable pub serialize_public : Draft → List DraftMember → PublicDraftView
  serialize_public draft rows = record {
    id = ext.uuid_string draft.id;
    threshold = draft.threshold;
    status = draft.status;
    member_count = length rows;
    valid_member_count = valid_count rows;
    members = map public_member rows;
  }
