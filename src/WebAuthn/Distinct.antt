-- ===== src/WebAuthn/Distinct.antt =====
-- The keys that are collected are points, and each is collected once.
use latch_api.WebAuthn.{is_uncompressed, read_failed, WebAuthnError, no_webauthn_signer}
use mathlib.Core.Bool.{true≢false}
use latch_api.WebAuthn.Keys.{
  broken, missing, value, val, no_vals, sc_vec, sc_symbol, sc_bytes, sc_map, entry, no_entries,
  points_of_signers, points_of_entries, webauthn_keys_from_rule, AccountReader, ScVals, ScEntries,
  scan_rules, Reading, webauthn_signer_keys, none_found, scan_limit, add_new, point_of_signer,
  ScVal,
}
use latch_api.Common.Text.{Text, text_eq, codes, text_eq_iff}
use mathlib.Core.List.{cons-ne-nil}
use latch_api.Common.{
  List, Bool, ℕ, ◌||◌, ◌∷◌, ◌≡◌, any, All, leb, false, true, Bool-cases, length, inl, arith, ◌++◌,
  ◌&&◌, [], any-append, inr, ◌==◌, ◌∙◌, All-append, take, length-take, refl, sym, All-join, ok,
  ok-injective, suc, err, ◌≢◌, Result, ap, if◌then◌else◌, ltb, zero,
}

abbrev pub IsDistinct : List (List ℕ) → Type 0
IsDistinct [] = Unit {0}
IsDistinct (k ∷ ks) = (any (text_eq k) ks ≡ false) × IsDistinct ks

abbrev pub IsPoint : List ℕ → Type 0
IsPoint k = is_uncompressed k ≡ true

flipped : (s t : Text) → text_eq s t ≡ false → text_eq t s ≡ false
flipped s t h = elim (Bool-cases (text_eq t s)) [
  | inl same ↦ absurd (true≢false (sym ((text_eq_iff s t).1 (sym ((text_eq_iff t s).0 same))) ∙ h))
  | inr other ↦ other
]

neither : (a b : Bool) → (a || b) ≡ false → (a ≡ false) × (b ≡ false)
neither a b h = ground (arith, h)

append-IsDistinct :
    (ks : List (List ℕ)) (k : List ℕ)
    → IsDistinct ks
    → any (text_eq k) ks ≡ false
    → IsDistinct (ks ++ k ∷ [])
append-IsDistinct [] k _ _ = (refl, tt)
append-IsDistinct (x ∷ ks) k (apart, distinct) new =
    let (other, others) = neither (text_eq k x) (any (text_eq k) ks) new in
    (
      any-append (text_eq x) ks k ∙ rw (apart, flipped k x other) refl,
      append-IsDistinct ks k distinct others,
    )

abbrev pub AreKeys : List (List ℕ) → Type 0
AreKeys ks = IsDistinct ks × All IsPoint ks

add_new-AreKeys :
    (ks more : List (List ℕ)) → All IsPoint more → AreKeys ks → AreKeys (add_new ks more)
unfolding add_new
add_new-AreKeys ks [] points h = h
add_new-AreKeys ks (k ∷ more) (point, points) (distinct, all_points) =
    elim (Bool-cases (any (text_eq k) ks)) [
      | inl seen ↦ rw seen (add_new-AreKeys ks more points (distinct, all_points))
      | inr new ↦ rw new (
          add_new-AreKeys (ks ++ k ∷ []) more points
            (append-IsDistinct ks k distinct new, All-append IsPoint ks k all_points point))
    ]

point-IsPoint :
    (b : ℕ) (bs : List ℕ)
    → (leb 65 (length (b ∷ bs)) && b == 4) ≡ true
    → is_uncompressed (take 65 (b ∷ bs)) ≡ true
unfolding is_uncompressed
point-IsPoint b bs h =
    let cut : length (take 65 (b ∷ bs)) ≡ 65 = length-take 65 (b ∷ bs) ∙ ground (arith, h) in
    rw cut (ground (arith, h))

last_two : (a b c : Bool) → (a && b && c) ≡ true → (b && c) ≡ true
last_two a b c h = ground (arith, h)

point_of_signer-IsPoint : (s : ScVal) → All IsPoint (point_of_signer s)
unfolding point_of_signer
point_of_signer-IsPoint
      (sc_vec (val (sc_symbol s) (val verifier (val (sc_bytes (b ∷ bs)) no_vals)))) =
    elim (Bool-cases (text_eq s (codes "External") && leb 65 (length (b ∷ bs)) && b == 4)) [
      | inl good ↦ rw good (
        point-IsPoint b bs
            (last_two (text_eq s (codes "External")) (leb 65 (length (b ∷ bs))) (b == 4) good),
        tt,
      )
      | inr bad ↦ rw bad tt
    ]
point_of_signer-IsPoint _ = tt

points_of_signers-IsPoint : (ss : ScVals) → All IsPoint (points_of_signers ss)
unfolding points_of_signers
points_of_signers-IsPoint no_vals = tt
points_of_signers-IsPoint (val s ss) =
    All-join IsPoint (point_of_signer s) (points_of_signers ss) (point_of_signer-IsPoint s)
      (points_of_signers-IsPoint ss)

points_of_entries-IsPoint : (es : ScEntries) → All IsPoint (points_of_entries es)
unfolding points_of_entries
points_of_entries-IsPoint no_entries = tt
points_of_entries-IsPoint (entry (sc_symbol s) (sc_vec signers) rest) =
    elim (Bool-cases (text_eq s (codes "signers"))) [
      | inl found ↦ rw found (
          All-join IsPoint (points_of_signers signers) (points_of_entries rest)
            (points_of_signers-IsPoint signers) (points_of_entries-IsPoint rest))
      | inr other ↦ rw other (points_of_entries-IsPoint rest)
    ]
points_of_entries-IsPoint (entry k v rest) = points_of_entries-IsPoint rest

webauthn_keys_from_rule-IsPoint : (rule : ScVal) → All IsPoint (webauthn_keys_from_rule rule)
unfolding webauthn_keys_from_rule
webauthn_keys_from_rule-IsPoint (sc_map entries) = points_of_entries-IsPoint entries
webauthn_keys_from_rule-IsPoint _ = tt

module _ (reader : AccountReader) where
  scan_rules-AreKeys :
      (left id found count : ℕ) (keys ks : List (List ℕ))
      → AreKeys keys
      → scan_rules reader left id found count keys ≡ ok ks
      → AreKeys ks
  unfolding scan_rules
  scan_rules-AreKeys zero id found count keys ks good h = rw (sym (ok-injective h)) good
  scan_rules-AreKeys (suc left) id found count keys ks good h =
      elim (Bool-cases (ltb found count)) [
        | inr done ↦ rw (sym (ok-injective (rw (scan_rules, done) at h))) good
        | inl more ↦
            read (λ f keys' good' e. scan_rules-AreKeys left (suc id) f count keys' ks good' e)
              (reader.rule id) (rw (scan_rules, more) at h)
      ]
    where
      read :
          ((f : ℕ) (keys' : List (List ℕ))
            → AreKeys keys'
            → scan_rules reader left (suc id) f count keys' ≡ ok ks
            → AreKeys ks)
          → (r : Reading ScVal)
          → (elim r [
            | broken ↦ err read_failed
            | missing ↦ scan_rules reader left (suc id) found count keys
            | value rule ↦
                scan_rules reader left
                  (suc id)
                  (suc found)
                  count
                  (add_new keys (webauthn_keys_from_rule rule))
          ])
            ≡ ok ks
          → AreKeys ks
      read rest broken e = cc
      read rest missing e = rest found keys good e
      read rest (value rule) e =
          rest (suc found) (add_new keys (webauthn_keys_from_rule rule))
            (add_new-AreKeys keys (webauthn_keys_from_rule rule)
              (webauthn_keys_from_rule-IsPoint rule) good)
            e

  -- The signer keys of an account that are returned are at least one, without repetition, and each is
  -- an uncompressed point.
  pub webauthn_signer_keys-AreKeys :
      (ks : List (List ℕ))
      → webauthn_signer_keys reader ≡ ok ks
      → (ks ≢ []) × IsDistinct ks × All IsPoint ks
  unfolding webauthn_signer_keys
  webauthn_signer_keys-AreKeys ks h = counted reader.rules_count h
    where
      known : (keys : List (List ℕ)) → none_found keys ≡ ok ks → (keys ≡ ks) × (ks ≢ [])
      known [] e = cc
      known (k ∷ keys) e = (ok-injective e, rw (sym (ok-injective e)) (cons-ne-nil k keys))

      scanned :
          (r : Result WebAuthnError (List (List ℕ)))
          → (elim r [ err e ↦ err e | ok keys ↦ none_found keys ]) ≡ ok ks
          → (r ≡ ok ks) × (ks ≢ [])
      scanned (err e) q = cc
      scanned (ok keys) q = let (same, full) = known keys q in (ap (λ x. ok x) same, full)

      start :
          (count : ℕ)
          → (if count == 0
              then err no_webauthn_signer
              else elim (scan_rules reader (scan_limit count) 0 0 count []) [
                | err e ↦ err e
                | ok keys ↦ none_found keys
              ])
            ≡ ok ks
          → (ks ≢ []) × IsDistinct ks × All IsPoint ks
      start count e = elim (Bool-cases (count == 0)) [
        | inl nothing ↦ absurd (ground (arith, rw nothing at e))
        | inr some_rule ↦
            let (found, full) =
              scanned (scan_rules reader (scan_limit count) 0 0 count []) (rw some_rule at e) in
            let (distinct, points) =
              scan_rules-AreKeys (scan_limit count) 0 0 count [] ks (tt, tt) found in
            (full, distinct, points)
      ]

      counted :
          (r : Reading ℕ)
          → (elim r [
            | broken ↦ err read_failed
            | missing ↦ err no_webauthn_signer
            | value count ↦
                if count == 0
                then err no_webauthn_signer
                else elim (scan_rules reader (scan_limit count) 0 0 count []) [
                  | err e ↦ err e
                  | ok keys ↦ none_found keys
                ]
          ])
            ≡ ok ks
          → (ks ≢ []) × IsDistinct ks × All IsPoint ks
      counted broken e = cc
      counted missing e = cc
      counted (value count) e = start count e
