-- ===== src/External.antt =====
-- What the program calls in packages outside the repository: `github.com/google/uuid`, and `strkey`
-- of the Stellar SDK. A component takes it as a parameter.
use latch_api.Common.{ℕ, ◌≡◌, Bool, Option, some, List}
use latch_api.Common.Text.{Text}

pub record External : Type 0 where
  -- uuid.Parse, and the method String. A UUID is the number that its 16 bytes spell.
  pub uuid_parse : Text → Option ℕ
  pub uuid_string : ℕ → Text
  pub uuid_parse-uuid_string : (u : ℕ) → uuid_parse (uuid_string u) ≡ some u
  -- strkey.Decode(strkey.VersionByteAccountID, g) returns no error.
  pub is_account_strkey : Text → Bool
  -- sha256.Sum256, whose values nothing here depends on.
  pub sha256 : List ℕ → List ℕ
