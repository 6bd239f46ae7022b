-- ===== src/Multisig/Draft/Service.antt =====
-- The operations of multisig_draft_service.go. The context and the wrapped error texts are left out; a
-- failed call of the database is `internal`. `int` thresholds are natural numbers: the code treats
-- every number below 1 alike. What an operation draws from outside, the time, `uuid.New` and the random
-- bytes, is its argument `Ambient`.
use latch_api.Common.{
  ℕ, ◌+◌, ◌*◌, Bool, false, ◌||◌, not, Option, none, some, List, map, ltb, leb, length,
}
use latch_api.Common.Text.{Text, hex_encode}
use latch_api.Common.Rows.{null_str}
use latch_api.Common.Database.{
  Action, pure, fail, try_query, ask, exec, or_fail, fail_if, ◌>>=◌, ◌>>◌,
}
use latch_api.External.{External}
use latch_api.Signers.{
  DraftMultisigMember, MemberError, validate_draft_member, duplicate_member_error,
}
use latch_api.Multisig.Tables.{collecting, Source, creator, invite, Draft, DraftMember, DraftTables}
use latch_api.Multisig.DraftQueries.{
  is_collecting, insert_multisig_draft, get_multisig_draft_by_id_for_creator,
  get_active_multisig_draft_for_user, get_multisig_draft_by_invite_token,
  update_multisig_draft_threshold, insert_multisig_draft_member, delete_multisig_draft_member,
  list_multisig_draft_members_for_draft,
}
use latch_api.Multisig.Draft.Serialize.{
  SerializedDraft, PublicDraftView, domain_member_from_row, null_uuid, serialize, serialize_public,
}

pub data DraftError : Type 0 where
  draft_not_found not_collecting insufficient_signers threshold_invalid : DraftError
  invite_unavailable draft_member_not_found no_active_draft : DraftError
  member_validation member_duplicate : MemberError → DraftError
  bad_user_id random_failed bad_params factory_failed internal : DraftError

pub record Ambient : Type 0 where
  -- time.Now().UnixMilli()
  pub now : ℕ
  -- uuid.New(), the first call, the second, ...
  pub new_uuid : ℕ → ℕ
  -- 32 random bytes, and the base64url text of 24 more; none if reading them fails
  pub random_salt : Option (List ℕ)
  pub random_token : Option Text

abbrev pub DraftAction : Type 0 → Type 0
DraftAction = Action DraftTables DraftError

-- 7 days, in milliseconds.
abbrev pub draft_invite_ttl : ℕ
draft_invite_ttl = 7 * 24 * 60 * 60 * 1000

abbrev pub default_draft_threshold : ℕ
default_draft_threshold = 2

-- `randomSaltHex`
unfoldable pub random_salt_hex : Ambient → Option Text
random_salt_hex amb = elim amb.random_salt [ none ↦ none | some raw ↦ some (hex_encode raw) ]

-- Fails where a check found an error.
abbrev pub refuse : (MemberError → DraftError) → Option MemberError → DraftAction (Unit {0})
refuse wrap none = pure tt
refuse wrap (some e) = fail (wrap e)

-- The row that `CreateDraft` inserts.
unfoldable pub new_draft_row : Ambient → ℕ → Text → Text → Draft
new_draft_row amb uid salt_hex token = record {
  id = amb.new_uuid 0;
  creator_user_id = uid;
  threshold = default_draft_threshold;
  account_salt_hex = salt_hex;
  invite_token = token;
  status = collecting;
  predicted_address = none;
  smart_account_address = none;
  created_at = amb.now;
  expires_at = some (amb.now + draft_invite_ttl);
}

module _ (ext : External) where
  unfoldable pub load_and_serialize : Draft → DraftAction SerializedDraft
  load_and_serialize draft = do
    rows ← ask internal (list_multisig_draft_members_for_draft draft.id)
    pure (serialize ext draft rows)

  unfoldable pub create_draft : Ambient → Text → DraftAction SerializedDraft
  unfolding load_and_serialize random_salt_hex new_draft_row
  create_draft amb user_id = do
    uid ← or_fail bad_user_id (ext.uuid_parse user_id)
    salt_hex ← or_fail random_failed (random_salt_hex amb)
    token ← or_fail random_failed amb.random_token
    id ← try_query internal (insert_multisig_draft (new_draft_row amb uid salt_hex token))
    found ← ask internal (get_multisig_draft_by_id_for_creator id uid)
    draft ← or_fail internal found
    load_and_serialize draft

  unfoldable pub get_active_draft : Text → DraftAction SerializedDraft
  unfolding load_and_serialize
  get_active_draft user_id = do
    uid ← or_fail bad_user_id (ext.uuid_parse user_id)
    found ← ask internal (get_active_multisig_draft_for_user uid)
    draft ← or_fail no_active_draft found
    load_and_serialize draft

  -- `getDraftForCreator`
  unfoldable pub get_draft_row_for_creator : Text → Text → DraftAction Draft
  get_draft_row_for_creator draft_id user_id = do
    did ← or_fail draft_not_found (ext.uuid_parse draft_id)
    uid ← or_fail bad_user_id (ext.uuid_parse user_id)
    found ← ask internal (get_multisig_draft_by_id_for_creator did uid)
    or_fail draft_not_found found

  unfoldable pub get_draft_for_creator : Text → Text → DraftAction SerializedDraft
  unfolding get_draft_row_for_creator load_and_serialize
  get_draft_for_creator draft_id user_id = do
    draft ← get_draft_row_for_creator draft_id user_id
    load_and_serialize draft

  unfoldable pub update_threshold : Text → Text → ℕ → DraftAction SerializedDraft
  unfolding get_draft_row_for_creator
  update_threshold draft_id user_id threshold = do
    draft ← get_draft_row_for_creator draft_id user_id
    fail_if (not (is_collecting draft.status)) not_collecting
    rows ← ask internal (list_multisig_draft_members_for_draft draft.id)
    fail_if (ltb threshold 1 || ltb (length rows) threshold) threshold_invalid
    exec internal (update_multisig_draft_threshold draft.id threshold)
    pure (serialize ext (record draft { threshold = threshold }) rows)

  -- The row that `addMemberToDraft` inserts.
  unfoldable pub new_member_row : Ambient → ℕ → DraftMultisigMember → Source → DraftMember
  new_member_row amb did m source = record {
    id = amb.new_uuid 0;
    draft_id = did;
    label = m.label;
    member_type = m.kind;
    g_address = null_str m.g_address;
    key_data_hex = null_str m.key_data_hex;
    credential_id = null_str m.credential_id;
    public_key_hex = null_str m.public_key_hex;
    source = source;
    created_at = amb.now;
    user_id = null_uuid ext m.user_id;
  }

  unfoldable pub add_member_to_draft :
      Ambient → Draft → DraftMultisigMember → Source → DraftAction (Unit {0})
  unfolding new_member_row
  add_member_to_draft amb draft member source = do
    refuse member_validation (validate_draft_member ext member)
    rows ← ask internal (list_multisig_draft_members_for_draft draft.id)
    refuse member_duplicate (duplicate_member_error member (map (domain_member_from_row ext) rows))
    try_query internal (insert_multisig_draft_member (new_member_row amb draft.id member source))
    pure tt

  unfoldable pub add_member :
      Ambient → Text → Text → DraftMultisigMember → DraftAction SerializedDraft
  unfolding get_draft_row_for_creator load_and_serialize
  add_member amb draft_id user_id member = do
    draft ← get_draft_row_for_creator draft_id user_id
    fail_if (not (is_collecting draft.status)) not_collecting
    add_member_to_draft amb draft (record member { user_id = user_id }) creator
    load_and_serialize draft

  unfoldable pub delete_member : Text → Text → Text → DraftAction SerializedDraft
  unfolding get_draft_row_for_creator load_and_serialize
  delete_member draft_id member_id user_id = do
    draft ← get_draft_row_for_creator draft_id user_id
    fail_if (not (is_collecting draft.status)) not_collecting
    mid ← or_fail draft_member_not_found (ext.uuid_parse member_id)
    exec internal (delete_multisig_draft_member mid draft.id)
    load_and_serialize draft

  -- The invite has passed if there is an expiry and it is not after `now`.
  unfoldable pub is_expired : Option ℕ → ℕ → Bool
  is_expired none now = false
  is_expired (some exp) now = leb exp now

  unfoldable pub get_draft_by_invite_token : Ambient → Text → DraftAction Draft
  unfolding is_expired
  get_draft_by_invite_token amb token = do
    found ← ask internal (get_multisig_draft_by_invite_token token)
    draft ← or_fail invite_unavailable found
    fail_if (not (is_collecting draft.status)) invite_unavailable
    fail_if (is_expired draft.expires_at amb.now) invite_unavailable
    pure draft

  unfoldable pub get_public_draft_by_token : Ambient → Text → DraftAction PublicDraftView
  unfolding get_draft_by_invite_token
  get_public_draft_by_token amb token = do
    draft ← get_draft_by_invite_token amb token
    rows ← ask internal (list_multisig_draft_members_for_draft draft.id)
    pure (serialize_public ext draft rows)

  unfoldable pub add_member_via_invite :
      Ambient → Text → Text → DraftMultisigMember → DraftAction PublicDraftView
  unfolding get_draft_by_invite_token
  add_member_via_invite amb token user_id member = do
    draft ← get_draft_by_invite_token amb token
    add_member_to_draft amb draft (record member { user_id = user_id }) invite
    rows ← ask internal (list_multisig_draft_members_for_draft draft.id)
    pure (serialize_public ext draft rows)
