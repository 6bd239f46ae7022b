-- ===== src/SignPayload/Create.antt =====
-- How long a signing payload lives, and that it can be fetched in that time.
use latch_api.Common.Text.{text_eq_self}
use latch_api.Common.Find.{find?-any, find?-append_new}
use latch_api.Common.Ends.{Ends, Ends-or_fail, Ends-run, Ends-try_query, Ends-pure}
use latch_api.Common.Database.{World}
use latch_api.Common.{
  ◌≤◌, ℕ, ◌≡◌, arith, Result, some, Option, any, List, ok, false, find?, ◌+◌, ◌++◌, ◌∷◌, ltb, [],
  Bool-cases, err, inl, refl, inr,
}
use latch_api.SignPayload.Spent.{insert_sign_payload-stored}
use latch_api.SignPayload.{
  Columns, clamp_sign_payload_ttl, ℤ, ◌*◌, pos, negsuc, SignPayloads, create, Text, consume,
  consumed_or_why, SignPayloadError, has_payload_id, consume_sign_payload, WebappSignPayload,
  is_unconsumed, new_sign_payload, generate_sign_payload_id, view_of,
}

-- A payload lives between one minute and one hour, and as long as was asked for where that is in
-- between.
pub clamp_sign_payload_ttl_bounds :
    (ttl : ℤ)
    → (60 * 1000 ≤ clamp_sign_payload_ttl ttl)
      × (clamp_sign_payload_ttl ttl ≤ 3600 * 1000)
      × ((n : ℕ) → ttl ≡ pos n → 60 * 1000 ≤ n → n ≤ 3600 * 1000 → clamp_sign_payload_ttl ttl ≡ n)
unfolding clamp_sign_payload_ttl
clamp_sign_payload_ttl_bounds (negsuc n) = (omega arith, omega arith, λ m h. cc)
clamp_sign_payload_ttl_bounds (pos n) =
    (ground arith, ground arith, λ m h low high. let e : n ≡ m = cc in ground arith)

abbrev CreatedOk :
    Columns
    → SignPayloads
    → ℕ
    → ℕ
    → Text
    → ℕ
    → Result SignPayloadError (Text × ℕ)
    → SignPayloads
    → Type 0
CreatedOk columns s now at payload length_of (ok (id, expires)) t =
    (any (has_payload_id id) s ≡ false)
    × (expires ≡ now + length_of)
    × (kept : Text) × (columns.jsonb payload ≡ some kept)
    × (t ≡ s ++ new_sign_payload at id kept (columns.timestamptz expires) ∷ [])
CreatedOk columns s now at payload length_of (err e) t = Unit {0}

create-Ends :
    (columns : Columns) (s : SignPayloads) (now at : ℕ) (random : Option (List ℕ)) (payload : Text)
    (ttl : ℤ)
    → Ends s
        (CreatedOk columns s now at payload (clamp_sign_payload_ttl ttl))
        (create columns now at random payload ttl)
unfolding create
create-Ends columns s now at random payload ttl =
    Ends-or_fail _ (generate_sign_payload_id random) _ (λ _. tt)
      λ id drawn. Ends-try_query _ _ _ tt λ a t e.
        let (free, kept, is_json, same) =
          insert_sign_payload-stored columns at id payload (now + clamp_sign_payload_ttl ttl) s t a
            e in
        Ends-pure _ (free, refl, kept, is_json, same)

unconsumed-fresh :
    (id : Text) (ps : SignPayloads)
    → any (has_payload_id id) ps ≡ false
    → any (is_unconsumed id) ps ≡ false
unconsumed-fresh id [] h = refl
unconsumed-fresh id (p ∷ ps) h = elim (Bool-cases (has_payload_id id p)) [
  | inl hit ↦ absurd (ground (arith, rw hit at h))
  | inr miss ↦ rw miss (unconsumed-fresh id ps (rw miss at h))
]

consume_found :
    (now at : ℕ) (id : Text) (u : World SignPayloads) (p : WebappSignPayload)
    → find? (is_unconsumed id) u.store ≡ some p
    → ltb p.expires_at now ≡ false
    → u.outage u.calls ≡ false
    → (consume now at id u).0 ≡ ok (view_of p)
unfolding consume consumed_or_why consume_sign_payload
consume_found now at id u p found live up = rw (up, found, live) refl

-- A payload that was created is fetched, until the expiry that the column holds and where the database
-- answers: in the form that JSONB keeps it in, with that expiry and the time at which the database
-- stored it. The expiry that the creation answered is the lifetime, clamped, after its time.
pub consume-create :
    (columns : Columns) (w : World SignPayloads) (now at : ℕ) (random : Option (List ℕ))
    (payload : Text) (ttl : ℤ) (later later_at : ℕ) {id : Text} {expires : ℕ}
    → (create columns now at random payload ttl w).0 ≡ ok (id, expires)
    → later ≤ columns.timestamptz expires
    → (create columns now at random payload ttl w).1.outage
        (create columns now at random payload ttl w).1.calls
      ≡ false
    → (expires ≡ now + clamp_sign_payload_ttl ttl)
      × (kept : Text) × (columns.jsonb payload ≡ some kept)
      × ((consume later later_at id (create columns now at random payload ttl w).1).0
          ≡ ok (record {
            id = id;
            payload = kept;
            expires_at = columns.timestamptz expires;
            created_at = at;
          }))
consume-create columns w now at random payload ttl later later_at {id} {expires} h in_time up =
    let (free, in_full, kept, is_json, left) =
      rw h at (Ends-run w (create-Ends columns w.store now at random payload ttl)) in
    let new = new_sign_payload at id kept (columns.timestamptz expires) in
    let none_left = find?-any (is_unconsumed id) w.store (unconsumed-fresh id w.store free) in
    let found =
      find?-append_new (is_unconsumed id) w.store new none_left (rw (text_eq_self id) refl) in
    (
      in_full,
      kept,
      is_json,
      consume_found later later_at id (create columns now at random payload ttl w).1 new
          (rw left found) (ground arith) up,
    )
