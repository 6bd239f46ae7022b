-- ===== src/Cosign/Signatures.antt =====
-- Signatures are only ever added, and a signer has at most one for a request.
use Prim.Native.Nat.{ℕ}
use mathlib.Core.List.{append_assoc}
use latch_api.Common.{
  ◌≤◌, ◌≡◌, sym, ap, ◌∙◌, true, false, some, List, [], ◌∷◌, ◌++◌, ◌==◌, any, keep, length,
  Bool-cases, arith, inl, inr, ==_iff, length-keep_append, keep-any, ◌⊎◌,
}
use latch_api.Common.Text.{Text, text_eq_iff}
use latch_api.Cosign.Tables.{
  CosignSignature, CosignTables, is_signature_of, insert_cosign_signature,
}
use latch_api.Cosign.Settled.{stored_unit}

-- The signatures begin with those of `base`, in their order.
abbrev pub Extends : List CosignSignature → CosignTables → Type 0
Extends base t = (extra : List CosignSignature) × (t.signatures ≡ base ++ extra)

-- A signer has at most one signature for a request.
abbrev pub IsOnce : CosignTables → Type 0
IsOnce t = (rid : ℕ) (signer : Text) → length (keep (is_signature_of rid signer) t.signatures) ≤ 1

-- What an insertion leaves: the same tables, or one more signature, of a new pair.
inserted_cases :
    (x : CosignSignature) (s t : CosignTables) (a : Unit {0})
    → insert_cosign_signature x s ≡ some (a, t)
    → (t ≡ s)
      ⊎ ((any (is_signature_of x.request_id x.blind_signer_id) s.signatures ≡ false)
          × (t.signatures ≡ s.signatures ++ x ∷ []))
unfolding insert_cosign_signature
inserted_cases x s t a stored =
    elim (Bool-cases (any (is_signature_of x.request_id x.blind_signer_id) s.signatures)) [
      | inl known ↦ inl (stored_unit (rw (insert_cosign_signature, known) at stored))
      | inr new ↦ elim (Bool-cases (any (λ y. y.id == x.id) s.signatures)) [
        | inl taken ↦ absurd (ground arith)
        | inr free ↦ inr (
          new,
          ap (λ u. u.signatures) (stored_unit (rw (insert_cosign_signature, new, free) at stored)),
        )
      ]
    ]

pub insert_cosign_signature-Extends :
    (base : List CosignSignature) (x : CosignSignature) (s t : CosignTables) (a : Unit {0})
    → Extends base s
    → insert_cosign_signature x s ≡ some (a, t)
    → Extends base t
insert_cosign_signature-Extends base x s t a (extra, same) stored =
    elim (inserted_cases x s t a stored) [
      | inl unchanged ↦ (extra, ap (λ u. u.signatures) unchanged ∙ same)
      | inr (new, added) ↦
          (extra ++ x ∷ [], added ∙ ap (λ l. l ++ x ∷ []) same ∙ append_assoc base extra (x ∷ []))
    ]

none_before :
    (x : CosignSignature) (xs : List CosignSignature) (rid : ℕ) (signer : Text)
    → is_signature_of rid signer x ≡ true
    → any (is_signature_of x.request_id x.blind_signer_id) xs ≡ false
    → keep (is_signature_of rid signer) xs ≡ []
none_before x xs rid signer hit new =
    let same_request : x.request_id ≡ rid = ground (arith, hit, ==_iff x.request_id rid) in
    let same_signer : x.blind_signer_id ≡ signer =
      (text_eq_iff x.blind_signer_id signer).0 (ground (arith, hit)) in
    ap (λ k. keep (is_signature_of k signer) xs) (sym same_request)
    ∙ ap (λ u. keep (is_signature_of x.request_id u) xs) (sym same_signer)
    ∙ keep-any (is_signature_of x.request_id x.blind_signer_id) xs new

pub insert_cosign_signature-IsOnce :
    (x : CosignSignature) (s t : CosignTables) (a : Unit {0})
    → IsOnce s
    → insert_cosign_signature x s ≡ some (a, t)
    → IsOnce t
insert_cosign_signature-IsOnce x s t a once stored rid signer =
    elim (inserted_cases x s t a stored) [
      | inl unchanged ↦ rw unchanged (once rid signer)
      | inr (new, added) ↦
          rw (added, length-keep_append (is_signature_of rid signer) s.signatures x)
            (elim (Bool-cases (is_signature_of rid signer x)) [
              | inl hit ↦ rw (hit, none_before x s.signatures rid signer hit new) (omega arith)
              | inr miss ↦ rw miss (omega (arith, once rid signer))
            ])
    ]
