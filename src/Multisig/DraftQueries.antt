-- ===== src/Multisig/DraftQueries.antt =====
-- The queries of internal/db/generated/webapp_multisig_drafts.sql.go, and those of
-- webapp_multisig_accounts.sql.go that a deployment makes, as functions on the tables.
use mathlib.Core.List.{reverse}
use latch_api.Common.{
  ℕ, Bool, true, false, ◌&&◌, ◌||◌, not, Option, none, some, List, [], ◌∷◌, ◌++◌, ◌==◌,
  if◌then◌else◌, keep, find?, any, update_where,
}
use latch_api.Common.Text.{Text, text_eq}
use latch_api.Common.Rows.{order_by}
use latch_api.Multisig.Tables.{
  DraftStatus, collecting, deployed, Draft, DraftMember, Account, Member, DraftTables,
}

unfoldable pub is_collecting : DraftStatus → Bool
is_collecting collecting = true
is_collecting deployed = false

-- InsertMultisigDraft: the primary key and the invite token are unique.
unfoldable pub insert_multisig_draft : Draft → DraftTables → Option (ℕ × DraftTables)
insert_multisig_draft d t =
    if any (λ e. e.id == d.id) t.drafts || any (λ e. text_eq e.invite_token d.invite_token) t.drafts
    then none
    else some (d.id, record t { drafts = t.drafts ++ d ∷ [] })

abbrev is_draft_of : ℕ → ℕ → Draft → Bool
is_draft_of id uid d = d.id == id && d.creator_user_id == uid

-- GetMultisigDraftByIDForCreator
unfoldable pub get_multisig_draft_by_id_for_creator : ℕ → ℕ → DraftTables → Option Draft
get_multisig_draft_by_id_for_creator id uid t = find? (is_draft_of id uid) t.drafts

abbrev draft_created_at : Draft → ℕ
draft_created_at d = d.created_at

-- GetActiveMultisigDraftForUser: the newest one.
unfoldable pub get_active_multisig_draft_for_user : ℕ → DraftTables → Option Draft
unfolding is_collecting
get_active_multisig_draft_for_user uid t =
    find? (λ d. true)
      (reverse (
        order_by draft_created_at
          (keep (λ d. d.creator_user_id == uid && is_collecting d.status) t.drafts)))

-- GetMultisigDraftByInviteToken
unfoldable pub get_multisig_draft_by_invite_token : Text → DraftTables → Option Draft
get_multisig_draft_by_invite_token token t = find? (λ d. text_eq d.invite_token token) t.drafts

-- `WHERE id = $1`, and what the updates set.
abbrev pub has_id : ℕ → Draft → Bool
has_id id d = d.id == id

abbrev pub with_threshold : ℕ → Draft → Draft
with_threshold k d = record d { threshold = k }

abbrev pub with_predicted : Option Text → Draft → Draft
with_predicted address d = record d { predicted_address = address }

abbrev pub with_deployed : Option Text → Option Text → Draft → Draft
with_deployed address predicted d = record d {
  status = deployed;
  smart_account_address = address;
  predicted_address = predicted;
}

-- UpdateMultisigDraftThreshold
unfoldable pub update_multisig_draft_threshold : ℕ → ℕ → DraftTables → DraftTables
update_multisig_draft_threshold id k t = record t {
  drafts = update_where (has_id id) (with_threshold k) t.drafts;
}

-- UpdateMultisigDraftPredictedAddress
unfoldable pub update_multisig_draft_predicted_address : ℕ → Option Text → DraftTables → DraftTables
update_multisig_draft_predicted_address id address t = record t {
  drafts = update_where (has_id id) (with_predicted address) t.drafts;
}

-- UpdateMultisigDraftDeployed
unfoldable pub update_multisig_draft_deployed :
    ℕ → Option Text → Option Text → DraftTables → DraftTables
update_multisig_draft_deployed id address predicted t = record t {
  drafts = update_where (has_id id) (with_deployed address predicted) t.drafts;
}

-- InsertMultisigDraftMember: the primary key is unique.
unfoldable pub insert_multisig_draft_member : DraftMember → DraftTables → Option (ℕ × DraftTables)
insert_multisig_draft_member m t =
    if any (λ e. e.id == m.id) t.draft_members
    then none
    else some (m.id, record t { draft_members = t.draft_members ++ m ∷ [] })

abbrev pub is_member_of : ℕ → ℕ → DraftMember → Bool
is_member_of id did m = m.id == id && m.draft_id == did

-- DeleteMultisigDraftMember
unfoldable pub delete_multisig_draft_member : ℕ → ℕ → DraftTables → DraftTables
delete_multisig_draft_member id did t = record t {
  draft_members = keep (λ m. not (is_member_of id did m)) t.draft_members;
}

abbrev pub member_created_at : DraftMember → ℕ
member_created_at m = m.created_at

-- The rows of one draft.
abbrev pub members_of : ℕ → List DraftMember → List DraftMember
members_of did = keep (λ m. m.draft_id == did)

-- ListMultisigDraftMembersForDraft
unfoldable pub list_multisig_draft_members_for_draft : ℕ → DraftTables → List DraftMember
list_multisig_draft_members_for_draft did t =
    order_by member_created_at (members_of did t.draft_members)

-- UpsertMultisigAccount: on a known address the threshold and the salt are replaced.
unfoldable pub upsert_multisig_account : Account → DraftTables → Option (ℕ × DraftTables)
upsert_multisig_account a t =
    let same = λ (e : Account). text_eq e.smart_account_address a.smart_account_address in
    elim (find? same t.accounts) [
      | some e ↦ some (
        e.id,
        record t {
          accounts =
              update_where same
                (λ e. record e { threshold = a.threshold; account_salt_hex = a.account_salt_hex })
                t.accounts;
        },
      )
      | none ↦
          if any (λ e. e.id == a.id) t.accounts
          then none
          else some (a.id, record t { accounts = t.accounts ++ a ∷ [] })
    ]

-- DeleteMultisigMembersForAccount
unfoldable pub delete_multisig_members_for_account : ℕ → DraftTables → DraftTables
delete_multisig_members_for_account aid t = record t {
  members = keep (λ m. not (m.multisig_account_id == aid)) t.members;
}

-- Two texts that are not NULL and are equal, as a partial unique index compares them.
unfoldable pub same_column : Option Text → Option Text → Bool
same_column (some a) (some b) = text_eq a b
same_column _ _ = false

-- The primary key, and the two partial unique indexes of migration 000019.
unfoldable pub clashes : Member → Member → Bool
unfolding same_column
clashes m e =
    if e.id == m.id
    then true
    else if not (e.multisig_account_id == m.multisig_account_id)
    then false
    else if same_column e.credential_id m.credential_id
    then true
    else same_column e.g_address m.g_address

-- InsertMultisigMember
unfoldable pub insert_multisig_member : Member → DraftTables → Option (Unit {0} × DraftTables)
insert_multisig_member m t =
    if any (clashes m) t.members
    then none
    else some (tt, record t { members = t.members ++ m ∷ [] })
