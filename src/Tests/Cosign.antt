-- ===== src/Tests/Cosign.antt =====
-- Runs of the cosign queue.
use latch_api.Common.{ℕ, refl, false, some, List, [], ◌∷◌, arith}
use latch_api.Common.Text.{codes}
use latch_api.Common.Database.{World}
use latch_api.Cosign.Tables.{
  submitted, CosignRequest, CosignSignature, CosignTables, is_waiting, get_cosign_request,
}
use latch_api.Cosign.Service.{CreateCosignInput, Draw}
use latch_api.Cosign.Settled.{IsSettled}
use latch_api.Cosign.Signatures.{Extends, IsOnce}
use latch_api.Cosign.History.{
  CosignCall, create_call, sign_call, submit_call, cancel_call, handle_all, handle_all-IsSettled,
  handle_all-IsOnce, handle_all-Extends,
}
use latch_api.Tests.Setting.{ext}

abbrev request : CosignRequest
request = record {
  id = 5;
  queue_index = codes "q";
  unsigned_tx_xdr = codes "tx";
  network = codes "testnet";
  threshold = 2;
  status = submitted;
  submitted_tx_hash = some (codes "hash");
  expires_at = 100;
  created_at = 10;
  updated_at = 20;
}

abbrev signature : CosignSignature
signature = record {
  id = 6;
  request_id = 5;
  blind_signer_id = codes "a";
  auth_entry_xdr = codes "entry";
  created_at = 11;
}

abbrev world : World CosignTables
world = record {
  store = record { requests = request ∷ []; signatures = signature ∷ [] };
  calls = 0;
  outage = λ n. false;
}

abbrev draw : ℕ → Draw
draw n = record { now = 50; new_uuid = n }

abbrev input : CreateCosignInput
input = record {
  queue_index = codes "q";
  unsigned_tx_xdr = codes "tx";
  network = codes "testnet";
  threshold = 2;
}

abbrev calls : List CosignCall
calls =
    create_call (draw 7) input
    ∷ sign_call (draw 8) (7 ∷ []) (codes "a") (codes "entry")
    ∷ sign_call (draw 9) (7 ∷ []) (codes "a") (codes "again")
    ∷ submit_call 60 (5 ∷ []) (codes "other")
    ∷ cancel_call 61 (5 ∷ [])
    ∷ []

is_submitted : IsSettled 5 request world.store
unfolding get_cosign_request is_waiting
is_submitted = (refl, refl)

handle_all-IsSettled_example : IsSettled 5 request (handle_all ext calls world).store
handle_all-IsSettled_example = handle_all-IsSettled ext calls world 5 request is_submitted

one_signature : IsOnce world.store
one_signature rid signer = ground arith

handle_all-IsOnce_example : IsOnce (handle_all ext calls world).store
handle_all-IsOnce_example = handle_all-IsOnce ext calls world one_signature

handle_all-Extends_example : Extends (signature ∷ []) (handle_all ext calls world).store
handle_all-Extends_example = handle_all-Extends ext calls world
