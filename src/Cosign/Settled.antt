-- ===== src/Cosign/Settled.antt =====
-- A request that is not pending any more never changes.
use latch_api.Common.{
  ℕ, ◌≡◌, refl, ap, ◌∙◌, Bool, false, ◌&&◌, Option, some, List, [], ◌∷◌, ◌==◌, ltb, any,
  if◌then◌else◌, Bool-cases, arith, inl, inr, find?, update_where, find?-append,
}
use latch_api.Cosign.Tables.{
  CosignRequest, CosignSignature, CosignTables, is_waiting, has_request_id, is_waiting_with,
  as_cancelled, is_signature_of, as_submitted, cancel_cosign_request, mark_cosign_submitted,
  get_cosign_request, insert_cosign_request, insert_cosign_signature,
}

-- The stored row of request `n` is `q`, which is not pending.
abbrev pub IsSettled : ℕ → CosignRequest → CosignTables → Type 0
IsSettled n q t = (get_cosign_request n t ≡ some q) × (is_waiting q.status ≡ false)

row_of : {x q : CosignRequest} → ◌≡◌ {A = Option CosignRequest} (some x) (some q) → x ≡ q
row_of h = cc

pub stored_requests :
    {r a : CosignRequest} {u t : CosignTables}
    → ◌≡◌ {A = Option (CosignRequest × CosignTables)} (some (r, u)) (some (a, t))
    → t ≡ u
stored_requests h = cc

pub stored_unit :
    {a : Unit {0}} {u t : CosignTables}
    → ◌≡◌ {A = Option (Unit {0} × CosignTables)} (some (tt, u)) (some (a, t))
    → t ≡ u
stored_unit h = cc

find?-update_waiting :
    (n m : ℕ) (f : CosignRequest → CosignRequest) (xs : List CosignRequest) (q : CosignRequest)
    → ((x : CosignRequest) → (f x).id ≡ x.id)
    → is_waiting q.status ≡ false
    → find? (has_request_id n) xs ≡ some q
    → find? (has_request_id n) (update_where (is_waiting_with m) f xs) ≡ some q
find?-update_waiting n m f [] q same settled h = cc
find?-update_waiting n m f (x ∷ xs) q same settled h = elim (Bool-cases (x.id == n)) [
  | inl hit ↦
      let own : x ≡ q = row_of (rw hit at h) in
      let closed : is_waiting_with m x ≡ false =
        ap (λ r. x.id == m && is_waiting r.status) own ∙ blocked (x.id == m) settled in
      rw (closed, hit) (ap (λ r. some r) own)
  | inr miss ↦ rw (kept x miss) (find?-update_waiting n m f xs q same settled (rw miss at h))
]
  where
    blocked : (b : Bool) → is_waiting q.status ≡ false → (b && is_waiting q.status) ≡ false
    blocked b h = ground arith

    kept :
        (x : CosignRequest)
        → (x.id == n) ≡ false
        → ((if is_waiting_with m x then f x else x).id == n) ≡ false
    kept x miss = elim (Bool-cases (is_waiting_with m x)) [
      | inl open_row ↦ rw open_row (ap (λ k. k == n) (same x) ∙ miss)
      | inr closed ↦ rw closed miss
    ]

module _ (n : ℕ) (q : CosignRequest) where
  pub cancel_cosign_request-IsSettled :
      (now id : ℕ) (t : CosignTables)
      → IsSettled n q t
      → IsSettled n q (cancel_cosign_request now id t)
  unfolding cancel_cosign_request get_cosign_request
  cancel_cosign_request-IsSettled now id t h =
      (find?-update_waiting n id (as_cancelled now) t.requests q (λ x. refl) h.1 h.0, h.1)

  pub mark_cosign_submitted-IsSettled :
      (now id : ℕ) (hash : Option _) (t : CosignTables)
      → IsSettled n q t
      → IsSettled n q (mark_cosign_submitted now id hash t)
  unfolding mark_cosign_submitted get_cosign_request
  mark_cosign_submitted-IsSettled now id hash t h =
      (find?-update_waiting n id (as_submitted now hash) t.requests q (λ x. refl) h.1 h.0, h.1)

  pub insert_cosign_request-IsSettled :
      (r : CosignRequest) (s t : CosignTables) (a : CosignRequest)
      → IsSettled n q s
      → insert_cosign_request r s ≡ some (a, t)
      → IsSettled n q t
  unfolding insert_cosign_request get_cosign_request
  insert_cosign_request-IsSettled r s t a h stored = elim (Bool-cases (ltb r.threshold 1)) [
    | inl low ↦ absurd (ground arith)
    | inr fits ↦ elim (Bool-cases (any (has_request_id r.id) s.requests)) [
      | inl taken ↦ absurd (ground arith)
      | inr free ↦
          rw (stored_requests (rw (insert_cosign_request, fits, free) at stored))
            (find?-append (has_request_id n) s.requests (r ∷ []) h.0, h.1)
    ]
  ]

  pub insert_cosign_signature-IsSettled :
      (x : CosignSignature) (s t : CosignTables) (a : Unit {0})
      → IsSettled n q s
      → insert_cosign_signature x s ≡ some (a, t)
      → IsSettled n q t
  unfolding insert_cosign_signature get_cosign_request
  insert_cosign_signature-IsSettled x s t a h stored =
      elim (Bool-cases (any (is_signature_of x.request_id x.blind_signer_id) s.signatures)) [
        | inl known ↦ rw (stored_unit (rw (insert_cosign_signature, known) at stored)) h
        | inr new ↦ elim (Bool-cases (any (λ y. y.id == x.id) s.signatures)) [
          | inl taken ↦ absurd (ground arith)
          | inr free ↦ rw (stored_unit (rw (insert_cosign_signature, new, free) at stored)) h
        ]
      ]
