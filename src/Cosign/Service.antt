-- ===== src/Cosign/Service.antt =====
-- The operations of CosignService. A failed call of the database is `internal`.
use latch_api.Common.{ℕ, ◌+◌, ◌*◌, not, none, List, [], ◌∷◌, length, if◌then◌else◌, ltb, ◌%◌, ◌^◌}
use latch_api.Common.Text.{Text}
use latch_api.Common.Rows.{null_str}
use latch_api.Common.Database.{Action, pure, try_query, ask, exec, or_fail, fail_if, ◌>>=◌, ◌>>◌}
use latch_api.External.{External}
use latch_api.Cosign.Tables.{
  pending, CosignRequest, CosignSignature, CosignTables, is_waiting, cancel_cosign_request,
  mark_cosign_submitted, get_cosign_request, insert_cosign_request, insert_cosign_signature,
  list_cosign_signatures, list_pending_cosign_requests,
}

pub data CosignError : Type 0 where
  cosign_not_found cosign_not_pending internal : CosignError

abbrev pub CosignAction : Type 0 → Type 0
CosignAction = Action CosignTables CosignError

-- 23 hours, in milliseconds.
abbrev pub cosign_request_ttl : ℕ
cosign_request_ttl = 23 * 60 * 60 * 1000

pub record CreateCosignInput : Type 0 where
  pub queue_index : Text
  pub unsigned_tx_xdr : Text
  pub network : Text
  pub threshold : ℕ

-- The API's `CosignRequest`: the row, its signatures and their number.
pub record CosignView : Type 0 where
  pub request : CosignRequest
  pub signatures : List CosignSignature
  pub signature_count : ℕ

-- The time and the UUID that an operation draws.
pub record Draw : Type 0 where
  pub now : ℕ
  pub new_uuid : ℕ

-- The conversion of an `int`, by its 64-bit word, to `int32`. A result below 0 is 0: the check of the
-- table refuses both.
abbrev pub int32 : ℕ → ℕ
int32 word = if ltb (word % 2 ^ 32) (2 ^ 31) then word % 2 ^ 32 else 0

-- The row that `Create` inserts.
unfoldable pub new_request : Draw → CreateCosignInput → CosignRequest
new_request draw input = record {
  id = draw.new_uuid;
  queue_index = input.queue_index;
  unsigned_tx_xdr = input.unsigned_tx_xdr;
  network = input.network;
  threshold = int32 input.threshold;
  status = pending;
  submitted_tx_hash = none;
  expires_at = draw.now + cosign_request_ttl;
  created_at = draw.now;
  updated_at = draw.now;
}

-- The row that `AddSignature` inserts.
unfoldable pub new_signature : Draw → ℕ → Text → Text → CosignSignature
new_signature draw rid signer entry = record {
  id = draw.new_uuid;
  request_id = rid;
  blind_signer_id = signer;
  auth_entry_xdr = entry;
  created_at = draw.now;
}

unfoldable pub assemble : CosignRequest → CosignAction CosignView
assemble row = do
  sigs ← ask internal (list_cosign_signatures row.id)
  pure (record { request = row; signatures = sigs; signature_count = length sigs })

unfoldable pub create_request : Draw → CreateCosignInput → CosignAction CosignView
unfolding assemble new_request
create_request draw input = do
  row ← try_query internal (insert_cosign_request (new_request draw input))
  assemble row

-- The loop of `List`.
unfoldable pub assemble_all : List CosignRequest → CosignAction (List CosignView)
unfolding assemble
assemble_all [] = pure []
assemble_all (row ∷ rows) = do view ← assemble row; rest ← assemble_all rows; pure (view ∷ rest)

unfoldable pub list_requests : ℕ → Text → CosignAction (List CosignView)
unfolding assemble_all
list_requests now queue = do
  rows ← ask internal (list_pending_cosign_requests now queue)
  assemble_all rows

module _ (ext : External) where
  unfoldable pub get_by_id : Text → CosignAction CosignRequest
  get_by_id id = do
    rid ← or_fail cosign_not_found (ext.uuid_parse id)
    found ← ask internal (get_cosign_request rid)
    or_fail cosign_not_found found

  unfoldable pub get_request : Text → CosignAction CosignView
  unfolding get_by_id assemble
  get_request id = do row ← get_by_id id; assemble row

  unfoldable pub add_signature : Draw → Text → Text → Text → CosignAction CosignView
  unfolding get_by_id assemble new_signature
  add_signature draw id signer entry = do
    row ← get_by_id id
    fail_if (not (is_waiting row.status)) cosign_not_pending
    try_query internal (insert_cosign_signature (new_signature draw row.id signer entry))
    assemble row

  unfoldable pub mark_submitted : ℕ → Text → Text → CosignAction (Unit {0})
  unfolding get_by_id
  mark_submitted now id hash = do
    row ← get_by_id id
    exec internal (mark_cosign_submitted now row.id (null_str hash))

  unfoldable pub cancel : ℕ → Text → CosignAction (Unit {0})
  unfolding get_by_id
  cancel now id = do row ← get_by_id id; exec internal (cancel_cosign_request now row.id)
