-- ===== src/Tests/SignPayloads.antt =====
-- Runs of the signing payloads.
use latch_api.SignPayload.Create.{clamp_sign_payload_ttl_bounds, consume-create}
use latch_api.SignPayload.Consume.{create_call, consume_call, consume-single_use, serve_payloads}
use latch_api.Common.Text.{codes, text_eq, hex_encode, lower_byte, Text}
use latch_api.SignPayload.{
  Columns, create, consume, validate_callback_url, SignPayloads, generate_sign_payload_id,
  consumed_or_why, clamp_sign_payload_ttl, pos, new_sign_payload, consume_sign_payload,
  insert_sign_payload, negsuc, view_of, callback_scheme,
}
use latch_api.Common.{
  Option, ◌*◌, is_ok, List, ◌≤◌, [], ℕ, some, false, ◌∷◌, ◌≡◌, ok, none, refl, arith, ◌+◌,
  if◌then◌else◌, ◌==◌, keep, not,
}
use latch_api.Common.Database.{World}

abbrev world : World SignPayloads
world = record { store = []; calls = 0; outage = λ n. false }

abbrev bytes : Option (List ℕ)
bytes = some (1 ∷ 255 ∷ [])

-- Times are stored as they are, and a JSON text without its spaces, where it is an object.
abbrev json_object : Text → Option Text
json_object [] = none
json_object (c ∷ rest) = if c == b'{' then some (c ∷ keep (λ x. not (x == b' ')) rest) else none

abbrev columns : Columns
columns = record { jsonb = json_object; timestamptz = λ t. t }

creates :
    (create columns 1000 1001 bytes (codes "{ }") (pos 5) world).0 ≡ ok (codes "sp_01ff", 61000)
unfolding create generate_sign_payload_id clamp_sign_payload_ttl hex_encode insert_sign_payload
    text_eq
creates = refl

answers :
    (create columns 1000 1001 bytes (codes "{ }") (pos 5) world).1.outage
      (create columns 1000 1001 bytes (codes "{ }") (pos 5) world).1.calls
    ≡ false
unfolding create insert_sign_payload
answers = refl

refuses : is_ok (create columns 1000 1001 bytes (codes "no") (pos 5) world).0 ≡ false
unfolding create generate_sign_payload_id clamp_sign_payload_ttl hex_encode insert_sign_payload
    text_eq
refuses = refl

consume-create_example :
    (61000 ≡ 1000 + clamp_sign_payload_ttl (pos 5))
    × (kept : Text) × (json_object (codes "{ }") ≡ some kept)
    × ((consume 61000 61001
          (codes "sp_01ff")
          (create columns 1000 1001 bytes (codes "{ }") (pos 5) world).1).0
        ≡ ok (record {
          id = codes "sp_01ff";
          payload = kept;
          expires_at = 61000;
          created_at = 1001;
        }))
consume-create_example =
    consume-create columns world 1000 1001 bytes (codes "{ }") (pos 5) 61000 61001 creates
      (omega arith) answers

clamp_sign_payload_ttl_bounds_example :
    (60 * 1000 ≤ clamp_sign_payload_ttl (pos 90000))
    × (clamp_sign_payload_ttl (pos 90000) ≤ 3600 * 1000)
    × ((n : ℕ)
        → pos 90000 ≡ pos n
        → 60 * 1000 ≤ n
        → n ≤ 3600 * 1000
        → clamp_sign_payload_ttl (pos 90000) ≡ n)
clamp_sign_payload_ttl_bounds_example = clamp_sign_payload_ttl_bounds (pos 90000)

abbrev stored_world : World SignPayloads
stored_world = record world { store = new_sign_payload 1000 (codes "sp_1") (codes "{}") 61000 ∷ [] }

fetches :
    (consume 2000 2001 (codes "sp_1") stored_world).0
    ≡ ok (view_of (new_sign_payload 1000 (codes "sp_1") (codes "{}") 61000))
unfolding consume consumed_or_why consume_sign_payload text_eq
fetches = refl

consume-single_use_example :
    is_ok
      (consume 3000 3001 (codes "sp_1") (
        serve_payloads columns
          (create_call 2500 2501 bytes (codes "[]") (negsuc 0)
            ∷ consume_call 2600 2601 (codes "sp_1")
            ∷ [])
          (consume 2000 2001 (codes "sp_1") stored_world).1)).0
    ≡ false
consume-single_use_example =
    consume-single_use columns
      (create_call 2500 2501 bytes (codes "[]") (negsuc 0)
        ∷ consume_call 2600 2601 (codes "sp_1")
        ∷ [])
      stored_world 2000 2001 3000 3001 (codes "sp_1") fetches

-- A callback to a local address may be plain http, any other may not.
callbacks :
    (validate_callback_url (
        some (record {
          scheme = codes "HTTP";
          host = codes "localhost:3000";
          hostname = codes "localhost";
        }))
      ≡ none)
    × (validate_callback_url (
          some (record {
            scheme = codes "http";
            host = codes "example.org";
            hostname = codes "example.org";
          }))
        ≡ some callback_scheme)
unfolding validate_callback_url text_eq lower_byte
callbacks = (refl, refl)
