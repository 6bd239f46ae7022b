-- ===== src/Tests/Setting.antt =====
-- The parameters of the model at simple concrete functions: a UUID is written as the one code that is
-- its number, and an auth entry is its own text.
use latch_api.Common.{ℕ, refl, true, false, Option, none, some, [], ◌∷◌, ◌++◌, err, not}
use latch_api.Common.Text.{Text, codes, is_empty}
use latch_api.External.{External}
use latch_api.Signers.{DraftMultisigMember, delegated}
use latch_api.Multisig.Draft.Factory.{SmartAccountFactory}
use latch_api.Multisig.Draft.Service.{Ambient}
use latch_api.Multisig.ProposalQueries.{Artifacts}
use latch_api.Multisig.ExecuteAuth.{AuthCodec}
use latch_api.Multisig.Proposal.Service.{Chain}
use latch_api.Multisig.Proposal.Access.{operation_unsupported}

abbrev parse_one : Text → Option ℕ
parse_one [] = none
parse_one (x ∷ []) = some x
parse_one (x ∷ y ∷ rest) = none

abbrev pub ext : External
ext = record {
  uuid_parse = parse_one;
  uuid_string = λ u. u ∷ [];
  uuid_parse-uuid_string = λ u. refl;
  is_account_strkey = λ g. not (is_empty g);
  sha256 = λ bytes. bytes;
}

abbrev pub factory : SmartAccountFactory
factory = record {
  is_sc_address = λ a. true;
  encode_params = λ p. some (codes "params");
  predict_address = λ p. some (codes "CPREDICTED");
  deploy = λ p s. some (codes "CPREDICTED", false);
}

abbrev pub ambient : ℕ → Ambient
ambient n = record {
  now = 1000;
  new_uuid = λ i. n;
  random_salt = some (1 ∷ 2 ∷ []);
  random_token = some (codes "token");
}

abbrev pub member : Text → DraftMultisigMember
member g = record {
  id = [];
  label = codes "phone";
  kind = delegated;
  g_address = g;
  key_data_hex = [];
  credential_id = [];
  public_key_hex = [];
  user_id = [];
}

abbrev pub codec : AuthCodec
codec = record {
  Entry = Text;
  Payload = ℕ;
  decode_entries = λ t. some (t ∷ []);
  live_digest = λ e r. some e;
  decode_template = λ t. some t;
  check_auth_arg_hex = λ t. some t;
  auth_payload = λ e r ws ds. some 0;
  with_payload = λ e p. some (codes "approved " ++ e);
  is_unsigned = λ e. is_empty e;
  apply_signature = λ template signed signer. some signed;
}

abbrev pub artifacts : Artifacts
artifacts = record {
  tx_xdr = codes "tx2";
  auth_entries_xdr_json = codes "entry2";
  smart_account_auth_entry_index = 0;
  context_rule_id = 0;
  auth_digest_hex = codes "entry2";
  signature_payload_hex = codes "payload2";
  valid_until_ledger = 11000;
}

abbrev pub chain : Chain codec
chain = record {
  HostCall = Text;
  now = 100;
  new_uuid = 900;
  latest_ledger = some 1000;
  increment_call = λ a t. some t;
  stored_transfer = λ a p. some (p, a);
  new_transfer = λ input. err operation_unsupported;
  simulate = λ a call target. some (artifacts, true);
  check_auth_template = λ a g e r v. some (record { entry_template_xdr_base64 = e });
  verify_signature = λ template signed signer. true;
  submit = λ tx es. some (codes "hash");
}
