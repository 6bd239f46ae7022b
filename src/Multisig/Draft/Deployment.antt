-- ===== src/Multisig/Draft/Deployment.antt =====
-- Predicting and deploying the account of a draft: the second half of multisig_draft_service.go.
use latch_api.Multisig.DraftQueries.{
  insert_multisig_member, upsert_multisig_account, list_multisig_draft_members_for_draft,
  is_collecting, delete_multisig_members_for_account, update_multisig_draft_predicted_address,
  update_multisig_draft_deployed,
}
use latch_api.Multisig.Draft.Serialize.{
  is_valid_row, domain_member_from_row, SerializedDraft, null_uuid,
  valid_deployable_factory_signers, serialize,
}
use latch_api.Multisig.Draft.Factory.{
  SmartAccountFactory, AccountInitParams, build_multisig_account_init_params,
}
use latch_api.Multisig.Tables.{DraftMember, Member, Draft, deployed}
use latch_api.Multisig.Draft.Service.{
  Ambient, DraftAction, get_draft_row_for_creator, internal, insufficient_signers, bad_params,
  factory_failed,
}
use latch_api.Signers.{Kind, unknown, MultisigSignerInit}
use latch_api.Common.{
  ℕ, suc, Bool, true, false, not, Option, none, some, List, [], ◌∷◌, ltb, if◌then◌else◌, length,
}
use latch_api.Common.Text.{Text, hex_decode}
use latch_api.Common.Rows.{null_str, str_or_empty}
use latch_api.Common.Database.{
  pure, try_query, ask, exec, or_fail, fail_if, ◌>>=◌, ◌>>◌, transaction,
}
use latch_api.External.{External}
use latch_api.Signers.{Kind, delegated, webauthn, ed25519, unknown}

module _ (ext : External) where
  unfoldable pub is_deployable_kind : Kind → Bool
  is_deployable_kind delegated = true
  is_deployable_kind webauthn = true
  is_deployable_kind ed25519 = false
  is_deployable_kind (unknown t) = false

  -- The row that the loop of `persistDeployedAccount` inserts for a draft member.
  unfoldable pub account_member_row : Ambient → ℕ → ℕ → DraftMember → Member
  account_member_row amb n account_id row =
      let m = domain_member_from_row ext row in
      record {
        id = amb.new_uuid n;
        multisig_account_id = account_id;
        member_type = m.kind;
        label = null_str m.label;
        key_data_hex = null_str m.key_data_hex;
        credential_id = null_str m.credential_id;
        g_address = null_str m.g_address;
        created_at = amb.now;
        user_id = null_uuid ext m.user_id;
      }

  -- The rows that the loop does not skip.
  unfoldable pub deployed_rows : List DraftMember → List DraftMember
  unfolding is_deployable_kind
  deployed_rows [] = []
  deployed_rows (row ∷ rows) =
      if not (is_valid_row ext row)
      then deployed_rows rows
      else if is_deployable_kind row.member_type
      then row ∷ deployed_rows rows
      else deployed_rows rows

  unfoldable pub insert_members : Ambient → ℕ → ℕ → List DraftMember → DraftAction (Unit {0})
  unfolding account_member_row
  insert_members amb n account_id [] = pure tt
  insert_members amb n account_id (row ∷ rows) =
      try_query internal (insert_multisig_member (account_member_row amb n account_id row))
      >> insert_members amb (suc n) account_id rows

  unfoldable pub persist_deployed_account :
      Ambient → ℕ → Text → ℕ → Text → List DraftMember → DraftAction (Unit {0})
  unfolding insert_members deployed_rows
  persist_deployed_account amb user_id address threshold salt_hex rows = transaction internal (do
    account_id ← try_query internal (
        upsert_multisig_account (record {
          id = amb.new_uuid 0;
          user_id = user_id;
          smart_account_address = address;
          threshold = threshold;
          account_salt_hex = salt_hex;
          created_at = amb.now;
        }))
    exec internal (delete_multisig_members_for_account account_id)
    insert_members amb 1 account_id (deployed_rows rows))

module _ (factory : SmartAccountFactory) where
  abbrev pub encoded : Option AccountInitParams → Option (AccountInitParams × Text)
  encoded none = none
  encoded (some params) = elim (factory.encode_params params) [
    | none ↦ none
    | some b64 ↦ some (params, b64)
  ]

  -- `buildParams`: the salt, the parameters and their encoding can each be refused.
  unfoldable pub build_params : Draft → List MultisigSignerInit → Option (AccountInitParams × Text)
  build_params draft signers = elim (hex_decode draft.account_salt_hex) [
    | none ↦ none
    | some salt ↦ encoded (build_multisig_account_init_params factory draft.threshold salt signers)
  ]

  abbrev predicted_or : Text → AccountInitParams → Option Text
  predicted_or [] params = factory.predict_address params
  predicted_or (c ∷ s) params = some (c ∷ s)

module _ (ext : External) (factory : SmartAccountFactory) where
  unfoldable pub predict_address : Text → Text → DraftAction (Text × Text × SerializedDraft)
  unfolding get_draft_row_for_creator
  predict_address draft_id user_id = do
    draft ← get_draft_row_for_creator ext draft_id user_id
    rows ← ask internal (list_multisig_draft_members_for_draft draft.id)
    let signers = valid_deployable_factory_signers ext rows
    fail_if (ltb (length signers) 2) insufficient_signers
    built ← or_fail bad_params (build_params factory draft signers)
    predicted ← or_fail factory_failed (factory.predict_address built.0)
    exec internal (update_multisig_draft_predicted_address draft.id (null_str predicted))
    pure (
      predicted,
      built.1,
      serialize ext (record draft { predicted_address = null_str predicted }) rows,
    )

  -- The part of `Deploy` behind the check of the status.
  unfoldable pub deploy_collecting : Ambient → Draft → DraftAction (Text × Bool × SerializedDraft)
  unfolding persist_deployed_account build_params
  deploy_collecting amb draft = do
    rows ← ask internal (list_multisig_draft_members_for_draft draft.id)
    let signers = valid_deployable_factory_signers ext rows
    fail_if (ltb (length signers) 2) insufficient_signers
    built ← or_fail bad_params (build_params factory draft signers)
    predicted ←
        or_fail factory_failed (predicted_or factory (str_or_empty draft.predicted_address) built.0)
    result ← or_fail factory_failed (factory.deploy built.0 predicted)
    persist_deployed_account ext amb draft.creator_user_id result.0 draft.threshold
        draft.account_salt_hex rows
    exec internal (update_multisig_draft_deployed draft.id (null_str result.0) (null_str predicted))
    pure (
      result.0,
      result.1,
      serialize ext
          (record draft {
            status = deployed;
            smart_account_address = null_str result.0;
            predicted_address = null_str predicted;
          })
          rows,
    )

  unfoldable pub already_deployed : Draft → DraftAction (Text × Bool × SerializedDraft)
  already_deployed draft = do
    rows ← ask internal (list_multisig_draft_members_for_draft draft.id)
    pure (str_or_empty draft.smart_account_address, true, serialize ext draft rows)

  unfoldable pub deploy : Ambient → Text → Text → DraftAction (Text × Bool × SerializedDraft)
  unfolding get_draft_row_for_creator deploy_collecting already_deployed
  deploy amb draft_id user_id = do
    draft ← get_draft_row_for_creator ext draft_id user_id
    if is_collecting draft.status then deploy_collecting amb draft else already_deployed draft
