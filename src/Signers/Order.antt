-- ===== src/Signers/Order.antt =====
-- The order of the factory's signers: what `draftMembersToFactorySigners` makes of a list of members.
use mathlib.Core.List.{Permᴰ}
use mathlib.Core.List.Permᴰ
use latch_api.Common.{
  ◌≡◌, refl, ◌≢◌, ap, Option, none, some, List, [], ◌∷◌, arith, All, Option-cases, inl, map, inr,
}
use latch_api.Common.Sort.{sort_by_of_perm, DistinctKeys}
use latch_api.Signers.{
  Kind, delegated, webauthn, ed25519, unknown, DraftMultisigMember, Keyed, keyed_signer,
  keyed_signers, key_of, signer_of, draft_members_to_factory_signers, add_some,
}
use latch_api.Signers.Duplicates.{SameKey, SameKey-of_kind}

-- No two members of the list have one kind and one key.
abbrev pub NoSameKey : List DraftMultisigMember → Type 0
NoSameKey [] = Unit
NoSameKey (m ∷ ms) = All (λ c. ¬ SameKey c m) ms × NoSameKey ms

keyed_signer-key :
    (j k : Kind) (c m : DraftMultisigMember) {a b : Keyed}
    → c.kind ≡ j
    → m.kind ≡ k
    → keyed_signer j c ≡ some a
    → keyed_signer k m ≡ some b
    → b.key ≡ a.key
    → SameKey c m
unfolding keyed_signer
keyed_signer-key delegated delegated c m ej ek p q e = SameKey-of_kind delegated c m ej ek (cc)
keyed_signer-key delegated webauthn c m ej ek p q e = ground arith
keyed_signer-key webauthn delegated c m ej ek p q e = ground arith
keyed_signer-key webauthn webauthn c m ej ek p q e = SameKey-of_kind webauthn c m ej ek (cc)
keyed_signer-key ed25519 k c m ej ek p q e = cc
keyed_signer-key (unknown s) k c m ej ek p q e = cc
keyed_signer-key delegated ed25519 c m ej ek p q e = cc
keyed_signer-key webauthn ed25519 c m ej ek p q e = cc
keyed_signer-key delegated (unknown s) c m ej ek p q e = cc
keyed_signer-key webauthn (unknown s) c m ej ek p q e = cc

-- A key that comes after is made by no member that has another key.
keyed_signers-Differs :
    (m : DraftMultisigMember) (ms : List DraftMultisigMember) {k : Keyed}
    → keyed_signer m.kind m ≡ some k
    → All (λ c. ¬ SameKey c m) ms
    → All (λ l. k.key ≢ l.key) (keyed_signers ms)
unfolding keyed_signers
keyed_signers-Differs m [] e h = tt
keyed_signers-Differs m (c ∷ cs) {k} e (h, hs) = elim (Option-cases (keyed_signer c.kind c)) [
  | inl skipped ↦ rw skipped (keyed_signers-Differs m cs e hs)
  | inr (l, made) ↦ rw made (
    (λ same. h (keyed_signer-key c.kind m.kind c m refl refl made e same)),
    keyed_signers-Differs m cs e hs,
  )
]

pub keyed_signers-DistinctKeys :
    (ms : List DraftMultisigMember) → NoSameKey ms → DistinctKeys key_of (keyed_signers ms)
unfolding keyed_signers
keyed_signers-DistinctKeys [] h = tt
keyed_signers-DistinctKeys (m ∷ ms) (h, hs) = elim (Option-cases (keyed_signer m.kind m)) [
  | inl skipped ↦ rw skipped (keyed_signers-DistinctKeys ms hs)
  | inr (k, made) ↦ rw made (keyed_signers-Differs m ms made h, keyed_signers-DistinctKeys ms hs)
]

add_some-perm :
    (o : Option Keyed) {ks ls : List Keyed} → Permᴰ ks ls → Permᴰ (add_some o ks) (add_some o ls)
add_some-perm none p = p
add_some-perm (some k) p = Permᴰ.cons refl p

add_some_swap :
    (o p : Option Keyed) (ks : List Keyed)
    → Permᴰ (add_some o (add_some p ks)) (add_some p (add_some o ks))
add_some_swap none p ks = Permᴰ.refl _
add_some_swap (some k) none ks = Permᴰ.refl _
add_some_swap (some k) (some l) ks = Permᴰ.swap refl refl

keyed_signers-perm :
    {ms ns : List DraftMultisigMember} → Permᴰ ms ns → Permᴰ (keyed_signers ms) (keyed_signers ns)
unfolding keyed_signers
keyed_signers-perm Permᴰ.nil = Permᴰ.nil
keyed_signers-perm (Permᴰ.cons {a = m} e p) =
    rw (← e) (add_some-perm (keyed_signer m.kind m) (keyed_signers-perm p))
keyed_signers-perm (Permᴰ.swap {a = m} {b = n} {l = ms} e f) =
    rw (← e, ← f) (add_some_swap (keyed_signer m.kind m) (keyed_signer n.kind n) (keyed_signers ms))
keyed_signers-perm (Permᴰ.trans p q) = Permᴰ.trans (keyed_signers-perm p) (keyed_signers-perm q)

-- If no two members have one kind and one key, the factory's signers do not depend on the order in
-- which the members are listed.
pub draft_members_to_factory_signers_of_perm :
    {ms ns : List DraftMultisigMember}
    → Permᴰ ms ns
    → NoSameKey ms
    → draft_members_to_factory_signers ms ≡ draft_members_to_factory_signers ns
unfolding draft_members_to_factory_signers
draft_members_to_factory_signers_of_perm {ms} p h =
    ap (map signer_of)
      (sort_by_of_perm key_of (keyed_signers-perm p) (keyed_signers-DistinctKeys ms h))
