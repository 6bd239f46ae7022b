-- ===== src/SignPayload/Consume.antt =====
-- A payload is consumed at most once, and can be from its creation to its expiry.
use latch_api.SignPayload.Spent.{
  IsSpent, insert_sign_payload-IsSpent, consume_sign_payload-IsSpent, unconsumed-consumed,
  ids-update, id-unconsumed,
}
use latch_api.Common.Ends.{
  Ends, Ends-query, Ends-ask, Ends-or_fail, Ends-check, Ends-fail, Ends-pure, Ends-run,
}
use latch_api.Common.Find.{not_found, find?-any}
use latch_api.SignPayload.{
  Columns, consume_sign_payload, get_sign_payload, SignPayloads, create, WebappSignPayload,
  insert_sign_payload, ℤ, consume, consumed_or_why, SignPayloadError, SignPayload, no_random_bytes,
  internal, is_unconsumed, generate_sign_payload_id, view_of, clamp_sign_payload_ttl, as_consumed,
  returned,
}
use latch_api.Common.Text.{Text}
use latch_api.Common.{
  List, Option, ◌∷◌, Result, ◌≡◌, some, ok, any, find?, ltb, false, ◌+◌, update_where, err, [],
  is_ok, ◌∙◌, refl, sym, none, is_ok-false,
}
use latch_api.Common.Database.{
  World, Keeps, Keeps-bind, Keeps-pure, Keeps-or_fail, Keeps-fail_if, Keeps-query, Keeps-fail,
  Keeps-ask, Keeps-try_query,
}
use Prim.Native.Nat.{ℕ}

pub data PayloadCall : Type 0 where
  create_call : ℕ → ℕ → Option (List ℕ) → Text → ℤ → PayloadCall
  consume_call : ℕ → ℕ → Text → PayloadCall

-- The tables after one request.
unfoldable pub serve_payload : Columns → PayloadCall → World SignPayloads → World SignPayloads
serve_payload columns (create_call now at random payload ttl) w =
    (create columns now at random payload ttl w).1
serve_payload columns (consume_call now at id) w = (consume now at id w).1

unfoldable pub serve_payloads : Columns → List PayloadCall → World SignPayloads → World SignPayloads
unfolding serve_payload
serve_payloads columns [] w = w
serve_payloads columns (c ∷ cs) w = serve_payloads columns cs (serve_payload columns c w)

module _ (id : Text) where
  create-Keeps :
      (columns : Columns) (now at : ℕ) (random : Option (List ℕ)) (payload : Text) (ttl : ℤ)
      → Keeps (IsSpent id) (create columns now at random payload ttl)
  unfolding create
  create-Keeps columns now at random payload ttl =
      Keeps-bind (IsSpent id) _ _
        (Keeps-or_fail (IsSpent id) no_random_bytes (generate_sign_payload_id random))
        λ k.
          Keeps-bind (IsSpent id) _ _
            (Keeps-try_query (IsSpent id) internal
              (insert_sign_payload columns at k payload (now + clamp_sign_payload_ttl ttl))
              (λ s t a p e.
                insert_sign_payload-IsSpent columns id at k payload
                  (now + clamp_sign_payload_ttl ttl) s t a p e))
            λ u. Keeps-pure (IsSpent id) _

  consumed_or_why-Keeps :
      (now : ℕ) (k : Text) (row : Option WebappSignPayload)
      → Keeps (IsSpent id) (consumed_or_why now k row)
  unfolding consumed_or_why
  consumed_or_why-Keeps now k (some row) = search (Keeps-pure, Keeps-fail_if, Keeps-bind) depth 8
  consumed_or_why-Keeps now k none =
      search (Keeps-fail, Keeps-ask, Keeps-or_fail, Keeps-fail_if, Keeps-bind) depth 12

  consume-Keeps : (now at : ℕ) (k : Text) → Keeps (IsSpent id) (consume now at k)
  unfolding consume
  consume-Keeps now at k =
      Keeps-bind (IsSpent id) _ _
        (Keeps-query (IsSpent id) internal (consume_sign_payload at k)
          (λ ps p. consume_sign_payload-IsSpent id at k ps p))
        λ row. consumed_or_why-Keeps now k row

serve_payloads-IsSpent :
    (columns : Columns) (cs : List PayloadCall) (w : World SignPayloads) (id : Text)
    → IsSpent id w.store
    → IsSpent id (serve_payloads columns cs w).store
unfolding serve_payloads serve_payload
serve_payloads-IsSpent columns [] w id p = p
serve_payloads-IsSpent columns (create_call now at random payload ttl ∷ cs) w id p =
    serve_payloads-IsSpent columns cs (create columns now at random payload ttl w).1 id
      ((create-Keeps id columns now at random payload ttl).run w p)
serve_payloads-IsSpent columns (consume_call now at k ∷ cs) w id p =
    serve_payloads-IsSpent columns cs (consume now at k w).1 id
      ((consume-Keeps id now at k).run w p)

-- What a `Consume` that answers with a payload has found and left.
abbrev ConsumedOk :
    SignPayloads → ℕ → ℕ → Text → Result SignPayloadError SignPayload → SignPayloads → Type 0
ConsumedOk s now at id (ok v) t =
    (p : WebappSignPayload) × (find? (is_unconsumed id) s ≡ some p)
    × (ltb p.expires_at now ≡ false)
    × (v ≡ view_of p)
    × (t ≡ update_where (is_unconsumed id) (as_consumed at) s)
ConsumedOk s now at id (err e) t = Unit {0}

consumed_or_why-Ends :
    (s : SignPayloads) (now at : ℕ) (id : Text) (o : Option WebappSignPayload)
    → find? (is_unconsumed id) s ≡ o
    → Ends
        (update_where (is_unconsumed id) (as_consumed at) s)
        (ConsumedOk s now at id)
        (consumed_or_why now id (returned at o))
unfolding consumed_or_why
consumed_or_why-Ends s now at id none missing = Ends-ask _ _ _ tt (
    Ends-or_fail _ (get_sign_payload id _) _ (λ _. tt)
      λ p found. Ends-check (ltb p.expires_at now) _ _ (λ _. tt) λ _. Ends-fail _ tt)
consumed_or_why-Ends s now at id (some p) found =
    Ends-check (ltb p.expires_at now) _ _ (λ _. tt) λ live. Ends-pure _ (p, found, live, refl, refl)

consume-Ends :
    (s : SignPayloads) (now at : ℕ) (id : Text)
    → Ends s (ConsumedOk s now at id) (consume now at id)
unfolding consume consume_sign_payload
consume-Ends s now at id =
    Ends-query internal (consume_sign_payload at id) (consumed_or_why now id) tt
      (consumed_or_why-Ends s now at id (find? (is_unconsumed id) s) refl)

-- A payload that was fetched is refused to everyone else, whatever is requested in between and
-- whichever database calls fail.
pub consume-single_use :
    (columns : Columns) (cs : List PayloadCall) (w : World SignPayloads) (now at later later_at : ℕ)
    (id : Text) {v : SignPayload}
    → (consume now at id w).0 ≡ ok v
    → is_ok (consume later later_at id (serve_payloads columns cs (consume now at id w).1)).0
      ≡ false
consume-single_use columns cs w now at later later_at id h =
    let (p, found, _, _, left) = rw h at (Ends-run w (consume-Ends w.store now at id)) in
    let spent : IsSpent id (consume now at id w).1.store = rw left (
      unconsumed-consumed id at w.store,
      ids-update id id at w.store ∙ id-unconsumed id w.store found,
    ) in
    refused (serve_payloads columns cs (consume now at id w).1)
      (serve_payloads-IsSpent columns cs (consume now at id w).1 id spent).0
  where
    refused :
        (u : World SignPayloads)
        → any (is_unconsumed id) u.store ≡ false
        → is_ok (consume later later_at id u).0 ≡ false
    refused u none_left = is_ok-false (consume later later_at id u).0 λ x e.
        let (q, again, _, _, _) = rw e at (Ends-run u (consume-Ends u.store later later_at id)) in
        not_found (sym (find?-any (is_unconsumed id) u.store none_left) ∙ again)
