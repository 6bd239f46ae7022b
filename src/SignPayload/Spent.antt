-- ===== src/SignPayload/Spent.antt =====
-- A payload that is consumed stays so, and its id taken.
use latch_api.Common.Find.{stored}
use latch_api.SignPayload.{
  consume_sign_payload, SignPayloads, WebappSignPayload, insert_sign_payload, has_payload_id,
  Columns, is_unconsumed, as_consumed, new_sign_payload,
}
use latch_api.Common.Text.{Text, text_eq, text_eq_iff}
use latch_api.Common.{
  ◌∷◌, ◌≡◌, Bool, some, Bool-cases, Option-cases, ◌++◌, true, any, find?, inl, arith, false, inr,
  update_where, [], ◌&&◌, ap, ◌∙◌, refl, sym, ◌||◌, any-append,
}
use Prim.Native.Nat.{ℕ}
use mathlib.Core.Bool.{true≢false}

-- The id is taken, and by no payload that can still be consumed.
abbrev pub IsSpent : Text → SignPayloads → Type 0
IsSpent id ps = (any (is_unconsumed id) ps ≡ false) × (any (has_payload_id id) ps ≡ true)

pub ids-update :
    (id k : Text) (now : ℕ) (ps : SignPayloads)
    → any (has_payload_id id) (update_where (is_unconsumed k) (as_consumed now) ps)
      ≡ any (has_payload_id id) ps
ids-update id k now [] = refl
ids-update id k now (p ∷ ps) = elim (Bool-cases (is_unconsumed k p)) [
  | inl open_row ↦ rw open_row (ap (λ b. has_payload_id id p || b) (ids-update id k now ps))
  | inr other ↦ rw other (ap (λ b. has_payload_id id p || b) (ids-update id k now ps))
]

used_up : (b : Bool) → (b && false) ≡ false
used_up true = refl
used_up false = refl

unconsumed-update :
    (id k : Text) (now : ℕ) (ps : SignPayloads)
    → any (is_unconsumed id) ps ≡ false
    → any (is_unconsumed id) (update_where (is_unconsumed k) (as_consumed now) ps) ≡ false
unconsumed-update id k now [] h = refl
unconsumed-update id k now (p ∷ ps) h = elim (Bool-cases (is_unconsumed id p)) [
  | inl bad ↦ absurd (ground (arith, rw bad at h))
  | inr spent ↦ elim (Bool-cases (is_unconsumed k p)) [
    | inl open_row ↦
        rw (open_row, used_up (has_payload_id id p)) (unconsumed-update id k now ps (rw spent at h))
    | inr other ↦ rw (other, spent) (unconsumed-update id k now ps (rw spent at h))
  ]
]

pub unconsumed-consumed :
    (id : Text) (now : ℕ) (ps : SignPayloads)
    → any (is_unconsumed id) (update_where (is_unconsumed id) (as_consumed now) ps) ≡ false
unconsumed-consumed id now [] = refl
unconsumed-consumed id now (p ∷ ps) = elim (Bool-cases (is_unconsumed id p)) [
  | inl open_row ↦ rw (open_row, used_up (has_payload_id id p)) (unconsumed-consumed id now ps)
  | inr other ↦ rw (other, other) (unconsumed-consumed id now ps)
]

pub id-unconsumed :
    (id : Text) (ps : SignPayloads) {p : WebappSignPayload}
    → find? (is_unconsumed id) ps ≡ some p
    → any (has_payload_id id) ps ≡ true
id-unconsumed id [] h = cc
id-unconsumed id (x ∷ ps) h = elim (Bool-cases (has_payload_id id x)) [
  | inl hit ↦ rw hit refl
  | inr miss ↦ rw miss (id-unconsumed id ps (rw miss at h))
]

pub consume_sign_payload-IsSpent :
    (id : Text) (now : ℕ) (k : Text) (ps : SignPayloads)
    → IsSpent id ps
    → IsSpent id (consume_sign_payload now k ps).1
unfolding consume_sign_payload
consume_sign_payload-IsSpent id now k ps (spent, known) =
    (unconsumed-update id k now ps spent, ids-update id k now ps ∙ known)

-- A payload that was inserted is stored under a new id in the form that its columns give it.
pub insert_sign_payload-stored :
    (columns : Columns) (now : ℕ) (id payload : Text) (expires : ℕ) (s t : SignPayloads)
    (a : Unit {0})
    → insert_sign_payload columns now id payload expires s ≡ some (a, t)
    → (any (has_payload_id id) s ≡ false)
      × (kept : Text) × (columns.jsonb payload ≡ some kept)
      × (t ≡ s ++ new_sign_payload now id kept (columns.timestamptz expires) ∷ [])
unfolding insert_sign_payload
insert_sign_payload-stored columns now id payload expires s t a e =
    elim (Bool-cases (any (has_payload_id id) s)) [
      | inl taken ↦ absurd (ground (arith, rw (insert_sign_payload, taken) at e))
      | inr free ↦ elim (Option-cases (columns.jsonb payload)) [
        | inl refused ↦ absurd (ground (arith, rw (insert_sign_payload, free, refused) at e))
        | inr (kept, is_json) ↦
            (free, kept, is_json, stored (rw (insert_sign_payload, free, is_json) at e))
      ]
    ]

pub insert_sign_payload-IsSpent :
    (columns : Columns) (id : Text) (now : ℕ) (k payload : Text) (expires : ℕ) (s t : SignPayloads)
    (a : Unit {0})
    → IsSpent id s
    → insert_sign_payload columns now k payload expires s ≡ some (a, t)
    → IsSpent id t
insert_sign_payload-IsSpent columns id now k payload expires s t a (spent, known) e =
    let (free, kept, _, left) = insert_sign_payload-stored columns now k payload expires s t a e in
    let new = new_sign_payload now k kept (columns.timestamptz expires) in
    rw
      (
        left,
        any-append (is_unconsumed id) s new,
        any-append (has_payload_id id) s new,
        spent,
        known,
      )
      (rw (different free) refl, refl)
  where
    different : any (has_payload_id k) s ≡ false → text_eq k id ≡ false
    different free = elim (Bool-cases (text_eq k id)) [
      | inl same ↦ absurd (
          true≢false (
            sym known
            ∙ ap (λ x. any (has_payload_id x) s) (sym ((text_eq_iff k id).0 same))
            ∙ free))
      | inr other ↦ other
    ]
