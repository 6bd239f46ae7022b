-- ===== src/Multisig/Tables.antt =====
-- The rows of the multisig tables (internal/db/generated/models.go) and the tables themselves. The
-- columns `status` and `source`, which only ever hold the texts named here, are data types; 32-bit and
-- 64-bit columns are plain numbers.
use latch_api.Common.{ℕ, Option, List}
use latch_api.Common.Text.{Text}
use latch_api.Signers.{Kind}

pub data DraftStatus : Type 0 where
  collecting deployed : DraftStatus

pub data Source : Type 0 where
  creator invite : Source

-- webapp.multisig_drafts
pub record Draft : Type 0 where
  pub id : ℕ
  pub creator_user_id : ℕ
  pub threshold : ℕ
  pub account_salt_hex : Text
  pub invite_token : Text
  pub status : DraftStatus
  pub predicted_address : Option Text
  pub smart_account_address : Option Text
  pub created_at : ℕ
  pub expires_at : Option ℕ

-- webapp.multisig_draft_members
pub record DraftMember : Type 0 where
  pub id : ℕ
  pub draft_id : ℕ
  pub label : Text
  pub member_type : Kind
  pub g_address : Option Text
  pub key_data_hex : Option Text
  pub credential_id : Option Text
  pub public_key_hex : Option Text
  pub source : Source
  pub created_at : ℕ
  pub user_id : Option ℕ

-- webapp.multisig_accounts
pub record Account : Type 0 where
  pub id : ℕ
  pub user_id : ℕ
  pub smart_account_address : Text
  pub threshold : ℕ
  pub account_salt_hex : Text
  pub created_at : ℕ

-- webapp.multisig_members
pub record Member : Type 0 where
  pub id : ℕ
  pub multisig_account_id : ℕ
  pub member_type : Kind
  pub label : Option Text
  pub key_data_hex : Option Text
  pub credential_id : Option Text
  pub g_address : Option Text
  pub created_at : ℕ
  pub user_id : Option ℕ

-- The tables of the draft flow, each in the order of insertion.
pub record DraftTables : Type 0 where
  pub drafts : List Draft
  pub draft_members : List DraftMember
  pub accounts : List Account
  pub members : List Member
