-- ===== src/Tests/Drafts.antt =====
-- Runs of the draft service and of the member checks.
use mathlib.Core.List.{Permᴰ}
use latch_api.Common.{ℕ, ◌≡◌, refl, false, none, some, List, [], ◌∷◌, arith, All, ◌↔◌}
use latch_api.Common.Text.{Text, codes, trim_space}
use latch_api.Common.Rows.{order_by, str_or_empty}
use latch_api.Common.Database.{World}
use latch_api.Signers.{
  DraftMultisigMember, delegated, validate_kind, validate_draft_member, is_valid_g_address,
  duplicate_member_error, draft_members_to_factory_signers,
}
use latch_api.Signers.Duplicates.{SameKey, duplicate_member_error_iff}
use latch_api.Signers.Order.{NoSameKey, draft_members_to_factory_signers_of_perm}
use latch_api.Multisig.Tables.{DraftMember, DraftTables, creator}
use latch_api.Multisig.DraftQueries.{list_multisig_draft_members_for_draft}
use latch_api.Multisig.Draft.Serialize.{
  domain_member_from_row, is_valid_row, valid_deployable_factory_signers,
}
use latch_api.Multisig.Draft.Apart.{IsSound}
use latch_api.Multisig.Draft.Canonical.{valid_deployable_factory_signers_of_perm}
use latch_api.Multisig.Draft.History.{
  Call, create, add, set_threshold, deploy_draft, join, perform_all, perform_all-IsSound,
}
use latch_api.Tests.Setting.{ext, factory, ambient, member}

abbrev user : Text
user = 7 ∷ []

abbrev draft_id : Text
draft_id = 40 ∷ []

abbrev empty_world : World DraftTables
empty_world = record {
  store = record { drafts = []; draft_members = []; accounts = []; members = [] };
  calls = 0;
  outage = λ n. false;
}

empty-IsSound : IsSound ext empty_world.store
empty-IsSound = record { valid_rows = tt; apart = tt; thresholds = tt }

abbrev calls : List Call
calls =
    create (ambient 40) user
    ∷ add (ambient 41) draft_id user (member (codes "GA"))
    ∷ join (ambient 42) (codes "token") (8 ∷ []) (member (codes "GB"))
    ∷ set_threshold draft_id user 2
    ∷ deploy_draft (ambient 43) draft_id user
    ∷ []

perform_all-IsSound_example : IsSound ext (perform_all ext factory calls empty_world).store
perform_all-IsSound_example = perform_all-IsSound ext factory calls empty_world empty-IsSound

abbrev row : ℕ → Text → DraftMember
row n g = record {
  id = n;
  draft_id = 40;
  label = codes "phone";
  member_type = delegated;
  g_address = some g;
  key_data_hex = none;
  credential_id = none;
  public_key_hex = none;
  source = creator;
  created_at = n;
  user_id = none;
}

abbrev two_rows : DraftTables
two_rows = record {
  drafts = [];
  draft_members = row 1 (codes "GB") ∷ row 2 (codes "GA") ∷ [];
  accounts = [];
  members = [];
}

two_rows-IsSound : IsSound ext two_rows
unfolding is_valid_row domain_member_from_row validate_draft_member validate_kind is_valid_g_address
    str_or_empty trim_space
two_rows-IsSound = record {
  valid_rows = (refl, (refl, tt));
  apart = ((λ same_draft same. absurd (ground arith), tt), (tt, tt));
  thresholds = tt;
}

swapped :
    Permᴰ
      (list_multisig_draft_members_for_draft 40 two_rows)
      (row 2 (codes "GA") ∷ row 1 (codes "GB") ∷ [])
unfolding list_multisig_draft_members_for_draft order_by
swapped = Permᴰ.swap refl refl

valid_deployable_factory_signers_of_perm_example :
    valid_deployable_factory_signers ext (list_multisig_draft_members_for_draft 40 two_rows)
    ≡ valid_deployable_factory_signers ext (row 2 (codes "GA") ∷ row 1 (codes "GB") ∷ [])
valid_deployable_factory_signers_of_perm_example =
    valid_deployable_factory_signers_of_perm ext 40 two_rows two_rows-IsSound swapped

abbrev first : DraftMultisigMember
first = member (codes "GA")

abbrev second : DraftMultisigMember
second = member (codes "GB")

first_valid : validate_draft_member ext first ≡ none
unfolding validate_draft_member validate_kind is_valid_g_address trim_space
first_valid = refl

duplicate_member_error_iff_example :
    (duplicate_member_error first (second ∷ []) ≡ none) ↔ All (λ m. ¬ SameKey first m) (second ∷ [])
duplicate_member_error_iff_example = duplicate_member_error_iff ext first (second ∷ []) first_valid

different_keys : NoSameKey (first ∷ second ∷ [])
different_keys = ((λ same. absurd (ground arith), tt), (tt, tt))

draft_members_to_factory_signers_of_perm_example :
    draft_members_to_factory_signers (first ∷ second ∷ [])
    ≡ draft_members_to_factory_signers (second ∷ first ∷ [])
draft_members_to_factory_signers_of_perm_example =
    draft_members_to_factory_signers_of_perm (Permᴰ.swap refl refl) different_keys
