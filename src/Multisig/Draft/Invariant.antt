-- ===== src/Multisig/Draft/Invariant.antt =====
-- What every operation of multisig_draft_service.go keeps true of the tables, whatever it returns and
-- whichever calls of the database fail.
use latch_api.Multisig.DraftQueries.{
  update_multisig_draft_threshold, update_multisig_draft_predicted_address,
  update_multisig_draft_deployed, delete_multisig_draft_member, insert_multisig_draft_member,
  insert_multisig_draft, has_id, with_threshold, with_predicted, with_deployed, is_member_of,
}
use latch_api.Multisig.Draft.Apart.{
  IsSound, IsValidRow, HasThreshold, AllApart-keep, Apart, AllApart-append,
}
use latch_api.Multisig.Tables.{DraftTables, DraftMember, Draft}
use mathlib.Core.Path.{subst}
use latch_api.Common.{
  ap, ◌≡◌, ℕ, ltb, ◌≤◌, Option, All-keep, ◌||◌, All-update_where, some, length, All, arith, not,
  inserted, All-append,
}
use latch_api.Common.Text.{Text}
use latch_api.Common.Database.{
  Keeps, Keeps-pure, Keeps-fail, Keeps-or_fail, Keeps-query, Keeps-try_query, Keeps-ask,
  Keeps-fail_if, Keeps-exec, Keeps-bind, Keeps-if, Keeps-transaction, Keeps-check, try_query,
}
use latch_api.External.{External}
use latch_api.Multisig.Draft.Service.{
  get_draft_row_for_creator, update_threshold, internal, delete_member, create_draft, Ambient,
  new_draft_row,
}

pub ruleset keeps = (Keeps-pure, Keeps-fail, Keeps-or_fail, Keeps-ask, Keeps-fail_if, Keeps-bind)

module _ (ext : External) where
  pub get_draft_row_for_creator-Keeps :
      (P : DraftTables → Type 0) (draft_id user_id : Text)
      → Keeps P (get_draft_row_for_creator ext draft_id user_id)
  unfolding get_draft_row_for_creator
  get_draft_row_for_creator-Keeps P draft_id user_id = search keeps depth 12

  set_threshold-IsSound :
      (id k : ℕ) (t : DraftTables)
      → 1 ≤ k
      → IsSound ext t
      → IsSound ext (update_multisig_draft_threshold id k t)
  unfolding update_multisig_draft_threshold
  set_threshold-IsSound id k t pos h = record {
    valid_rows = h.valid_rows;
    apart = h.apart;
    thresholds =
        All-update_where HasThreshold (has_id id) (with_threshold k) t.drafts (λ d _. pos)
          h.thresholds;
  }

  pub set_predicted-IsSound :
      (id : ℕ) (address : Option Text) (t : DraftTables)
      → IsSound ext t
      → IsSound ext (update_multisig_draft_predicted_address id address t)
  unfolding update_multisig_draft_predicted_address
  set_predicted-IsSound id address t h = record {
    valid_rows = h.valid_rows;
    apart = h.apart;
    thresholds =
        All-update_where HasThreshold (has_id id) (with_predicted address) t.drafts (λ d p. p)
          h.thresholds;
  }

  pub set_deployed-IsSound :
      (id : ℕ) (address predicted : Option Text) (t : DraftTables)
      → IsSound ext t
      → IsSound ext (update_multisig_draft_deployed id address predicted t)
  unfolding update_multisig_draft_deployed
  set_deployed-IsSound id address predicted t h = record {
    valid_rows = h.valid_rows;
    apart = h.apart;
    thresholds =
        All-update_where HasThreshold (has_id id) (with_deployed address predicted) t.drafts
          (λ d p. p) h.thresholds;
  }

  pub delete_row-IsSound :
      (mid did : ℕ) (t : DraftTables)
      → IsSound ext t
      → IsSound ext (delete_multisig_draft_member mid did t)
  unfolding delete_multisig_draft_member
  delete_row-IsSound mid did t h = record {
    valid_rows =
        All-keep (IsValidRow ext) (λ m. not (is_member_of mid did m)) t.draft_members h.valid_rows;
    apart = AllApart-keep ext (λ m. not (is_member_of mid did m)) t.draft_members h.apart;
    thresholds = h.thresholds;
  }

  -- The tables that an insertion leaves are sound, if the row is valid and apart from the others.
  pub insert_row-IsSound :
      (m : DraftMember) (t t' : DraftTables) (a : ℕ)
      → IsValidRow ext m
      → All (λ r. Apart ext r m) t.draft_members
      → IsSound ext t
      → insert_multisig_draft_member m t ≡ some (a, t')
      → IsSound ext t'
  unfolding insert_multisig_draft_member
  insert_row-IsSound m t t' a v apart h e =
      subst (IsSound ext) (ap (λ r. r.1) (inserted _ e)) (record {
        valid_rows = All-append (IsValidRow ext) t.draft_members m h.valid_rows v;
        apart = AllApart-append ext t.draft_members m h.apart apart;
        thresholds = h.thresholds;
      })

  pub insert_draft-IsSound :
      (d : Draft) (t t' : DraftTables) (a : ℕ)
      → 1 ≤ d.threshold
      → IsSound ext t
      → insert_multisig_draft d t ≡ some (a, t')
      → IsSound ext t'
  unfolding insert_multisig_draft
  insert_draft-IsSound d t t' a pos h e =
      subst (IsSound ext) (ap (λ r. r.1) (inserted _ e)) (record {
        valid_rows = h.valid_rows;
        apart = h.apart;
        thresholds = All-append HasThreshold t.drafts d h.thresholds pos;
      })

  pub update_threshold-IsSound :
      (draft_id user_id : Text) (threshold : ℕ)
      → Keeps (IsSound ext) (update_threshold ext draft_id user_id threshold)
  unfolding update_threshold
  update_threshold-IsSound draft_id user_id threshold =
      Keeps-bind _ _ _ (get_draft_row_for_creator-Keeps _ draft_id user_id) λ draft.
        Keeps-bind _ _ _ (Keeps-fail_if _ _ _) λ _. Keeps-bind _ _ _ (Keeps-ask _ _ _) λ rows.
          Keeps-check _ (ltb threshold 1 || ltb (length rows) threshold) _ _ λ checked.
            Keeps-bind _ _ _
              (Keeps-exec _ internal (update_multisig_draft_threshold draft.id threshold)
                λ t h. set_threshold-IsSound draft.id threshold t (ground arith) h)
              λ _. Keeps-pure _ _

  pub delete_member-IsSound :
      (draft_id member_id user_id : Text)
      → Keeps (IsSound ext) (delete_member ext draft_id member_id user_id)
  unfolding delete_member
  delete_member-IsSound draft_id member_id user_id =
      search (keeps, get_draft_row_for_creator-Keeps, Keeps-exec, delete_row-IsSound) depth 14

  insert_new_draft-IsSound :
      (amb : Ambient) (uid : ℕ) (salt_hex token : Text)
      → Keeps
          (IsSound ext)
          (try_query internal (insert_multisig_draft (new_draft_row amb uid salt_hex token)))
  unfolding new_draft_row
  insert_new_draft-IsSound amb uid salt_hex token =
      Keeps-try_query _ _ (insert_multisig_draft (new_draft_row amb uid salt_hex token))
        (λ t t' a h e.
          insert_draft-IsSound (new_draft_row amb uid salt_hex token) t t' a (omega arith) h e)

  pub create_draft-IsSound :
      (amb : Ambient) (user_id : Text) → Keeps (IsSound ext) (create_draft ext amb user_id)
  unfolding create_draft
  create_draft-IsSound amb user_id = search (keeps, insert_new_draft-IsSound) depth 20
