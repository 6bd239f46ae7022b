-- ===== src/Cosign/Tables.antt =====
-- The rows of internal/db/generated/models.go and the queries of internal/db/generated/cosign.sql.go.
-- `NOW()` is an argument, in milliseconds; a threshold below 0 is 0, which the check refuses too.
use mathlib.Core.List.{reverse}
use latch_api.Common.{
  ℕ, Bool, true, false, ◌&&◌, Option, none, some, List, [], ◌∷◌, ◌++◌, ◌==◌, if◌then◌else◌, ltb,
  keep, find?, any, update_where,
}
use latch_api.Common.Text.{Text, text_eq}
use latch_api.Common.Rows.{order_by}

pub data CosignStatus : Type 0 where
  pending submitted cancelled expired : CosignStatus

-- cosign_requests
pub record CosignRequest : Type 0 where
  pub id : ℕ
  pub queue_index : Text
  pub unsigned_tx_xdr : Text
  pub network : Text
  pub threshold : ℕ
  pub status : CosignStatus
  pub submitted_tx_hash : Option Text
  pub expires_at : ℕ
  pub created_at : ℕ
  pub updated_at : ℕ

-- cosign_signatures
pub record CosignSignature : Type 0 where
  pub id : ℕ
  pub request_id : ℕ
  pub blind_signer_id : Text
  pub auth_entry_xdr : Text
  pub created_at : ℕ

pub record CosignTables : Type 0 where
  pub requests : List CosignRequest
  pub signatures : List CosignSignature

unfoldable pub is_waiting : CosignStatus → Bool
is_waiting pending = true
is_waiting submitted = false
is_waiting cancelled = false
is_waiting expired = false

abbrev pub has_request_id : ℕ → CosignRequest → Bool
has_request_id id r = r.id == id

-- `WHERE id = $1 AND status = 'pending'`
abbrev pub is_waiting_with : ℕ → CosignRequest → Bool
is_waiting_with id r = r.id == id && is_waiting r.status

abbrev pub as_cancelled : ℕ → CosignRequest → CosignRequest
as_cancelled now r = record r { status = cancelled; updated_at = now }

-- CancelCosignRequest
unfoldable pub cancel_cosign_request : ℕ → ℕ → CosignTables → CosignTables
cancel_cosign_request now id t = record t {
  requests = update_where (is_waiting_with id) (as_cancelled now) t.requests;
}

abbrev pub as_submitted : ℕ → Option Text → CosignRequest → CosignRequest
as_submitted now hash r = record r {
  status = submitted;
  submitted_tx_hash = hash;
  updated_at = now;
}

-- MarkCosignSubmitted
unfoldable pub mark_cosign_submitted : ℕ → ℕ → Option Text → CosignTables → CosignTables
mark_cosign_submitted now id hash t = record t {
  requests = update_where (is_waiting_with id) (as_submitted now hash) t.requests;
}

-- GetCosignRequest
unfoldable pub get_cosign_request : ℕ → CosignTables → Option CosignRequest
get_cosign_request id t = find? (has_request_id id) t.requests

-- InsertCosignRequest: the primary key is unique, and a threshold below 1 violates a check.
unfoldable pub insert_cosign_request :
    CosignRequest → CosignTables → Option (CosignRequest × CosignTables)
insert_cosign_request r t =
    if ltb r.threshold 1
    then none
    else if any (has_request_id r.id) t.requests
    then none
    else some (r, record t { requests = t.requests ++ r ∷ [] })

abbrev pub is_signature_of : ℕ → Text → CosignSignature → Bool
is_signature_of rid signer s = s.request_id == rid && text_eq s.blind_signer_id signer

-- InsertCosignSignature: ON CONFLICT (request_id, blind_signer_id) DO NOTHING, with the primary key
-- unique.
unfoldable pub insert_cosign_signature :
    CosignSignature → CosignTables → Option (Unit {0} × CosignTables)
insert_cosign_signature s t =
    if any (is_signature_of s.request_id s.blind_signer_id) t.signatures
    then some (tt, t)
    else if any (λ x. x.id == s.id) t.signatures
    then none
    else some (tt, record t { signatures = t.signatures ++ s ∷ [] })

abbrev pub signature_created_at : CosignSignature → ℕ
signature_created_at s = s.created_at

-- ListCosignSignatures
unfoldable pub list_cosign_signatures : ℕ → CosignTables → List CosignSignature
list_cosign_signatures rid t =
    order_by signature_created_at (keep (λ s. s.request_id == rid) t.signatures)

abbrev pub request_created_at : CosignRequest → ℕ
request_created_at r = r.created_at

-- ListPendingCosignRequests, the newest first
unfoldable pub list_pending_cosign_requests : ℕ → Text → CosignTables → List CosignRequest
list_pending_cosign_requests now queue t = reverse (
    order_by request_created_at (
      keep (λ r. text_eq r.queue_index queue && is_waiting r.status && ltb now r.expires_at)
        t.requests))
