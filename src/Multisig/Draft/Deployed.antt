-- ===== src/Multisig/Draft/Deployed.antt =====
-- Predicting and deploying keep the draft tables sound.
use latch_api.Multisig.Draft.Invariant.{
  keeps, get_draft_row_for_creator-Keeps, set_predicted-IsSound, set_deployed-IsSound,
}
use latch_api.Multisig.Draft.Apart.{IsSound}
use latch_api.Multisig.Draft.Service.{Ambient}
use latch_api.Multisig.Tables.{Account, Member, DraftTables, DraftMember}
use latch_api.Multisig.Draft.Factory.{SmartAccountFactory}
use latch_api.Multisig.Draft.Deployment.{
  insert_members, persist_deployed_account, predict_address, deploy, account_member_row,
}
use latch_api.Multisig.DraftQueries.{
  upsert_multisig_account, insert_multisig_member, delete_multisig_members_for_account,
}
use mathlib.Core.Path.{subst}
use latch_api.Common.{ℕ, suc, ◌≡◌, ap, some, List, [], ◌∷◌, arith, inserted}
use latch_api.Common.Text.{Text}
use latch_api.Common.Database.{
  Keeps, Keeps-pure, Keeps-try_query, Keeps-exec, Keeps-bind, Keeps-if, Keeps-transaction,
}
use latch_api.External.{External}

module _ (ext : External) where
  -- The account tables are no part of what is kept, so a deployment only has to keep the drafts.
  upsert_account-IsSound :
      (a : Account) (t t' : DraftTables) (id : ℕ)
      → IsSound ext t
      → upsert_multisig_account a t ≡ some (id, t')
      → IsSound ext t'
  unfolding upsert_multisig_account
  upsert_account-IsSound a t t' id h e = ground arith

  insert_account_member-IsSound :
      (m : Member) (t t' : DraftTables) (u : Unit {0})
      → IsSound ext t
      → insert_multisig_member m t ≡ some (u, t')
      → IsSound ext t'
  unfolding insert_multisig_member
  insert_account_member-IsSound m t t' u h e =
      subst (IsSound ext) (ap (λ r. r.1) (inserted _ e))
        (record { valid_rows = h.valid_rows; apart = h.apart; thresholds = h.thresholds })

  clear_members-IsSound :
      (id : ℕ) (t : DraftTables)
      → IsSound ext t
      → IsSound ext (delete_multisig_members_for_account id t)
  unfolding delete_multisig_members_for_account
  clear_members-IsSound id t h = record {
    valid_rows = h.valid_rows;
    apart = h.apart;
    thresholds = h.thresholds;
  }

  insert_members-IsSound :
      (amb : Ambient) (n id : ℕ) (rows : List DraftMember)
      → Keeps (IsSound ext) (insert_members ext amb n id rows)
  unfolding insert_members
  insert_members-IsSound amb n id [] = Keeps-pure _ tt
  insert_members-IsSound amb n id (row ∷ rows) =
      Keeps-bind _ _ _
        (Keeps-try_query _ _ (insert_multisig_member (account_member_row ext amb n id row))
          (insert_account_member-IsSound (account_member_row ext amb n id row)))
        (λ _. insert_members-IsSound amb (suc n) id rows)

  persist-IsSound :
      (amb : Ambient) (uid : ℕ) (address : Text) (threshold : ℕ) (salt_hex : Text)
      (rows : List DraftMember)
      → Keeps (IsSound ext) (persist_deployed_account ext amb uid address threshold salt_hex rows)
  unfolding persist_deployed_account
  persist-IsSound amb uid address threshold salt_hex rows =
      search
        (
          keeps, Keeps-transaction, Keeps-try_query, Keeps-exec, upsert_account-IsSound,
          clear_members-IsSound, insert_members-IsSound,
        )
        depth 12

module _ (ext : External) (factory : SmartAccountFactory) where
  pub predict_address-IsSound :
      (draft_id user_id : Text) → Keeps (IsSound ext) (predict_address ext factory draft_id user_id)
  unfolding predict_address
  predict_address-IsSound draft_id user_id =
      search (keeps, get_draft_row_for_creator-Keeps, Keeps-exec, set_predicted-IsSound) depth 20

  pub deploy-IsSound :
      (amb : Ambient) (draft_id user_id : Text)
      → Keeps (IsSound ext) (deploy ext factory amb draft_id user_id)
  unfolding deploy
  deploy-IsSound amb draft_id user_id =
      search
        (
          keeps, Keeps-if, get_draft_row_for_creator-Keeps, Keeps-exec, set_deployed-IsSound,
          persist-IsSound,
        )
        depth 30
