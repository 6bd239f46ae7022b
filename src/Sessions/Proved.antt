-- ===== src/Sessions/Proved.antt =====
-- The credentials that a session has proved.
use latch_api.Common.Database.{World}
use latch_api.Common.Ends.{
  Ends, Ends-or_fail, Ends-run, Ends-transaction, Ends-exec, Ends-last_try_query,
}
use latch_api.Common.Find.{stored}
use latch_api.Common.Text.{text_eq_iff, text_eq}
use latch_api.Common.{
  ◌≡◌, List, true, false, some, any, &&-true, ◌||◌, update_where, keep, ==_iff, ◌∷◌, arith,
  Bool-cases, [], refl, inl, if◌then◌else◌, inr, ap, ◌++◌, ◌∙◌, any-append, sym, ◌==◌, not, ◌&&◌,
  Result, ok, err,
}
use latch_api.Sessions.{
  SessionTables, ProvedCredential, SessionError, bad_id, internal, is_proof, has_session_id,
  delete_session_proved_credentials_except, insert_session_proved_credential,
  session_has_proved_credential, replace_proved_credential, Bool, ℕ, Text, External,
}

any-update_where_kept :
    {A : Type 0} (f g : A → Bool) (h : A → A)
    → ((x : A) → f (h x) ≡ f x)
    → (xs : List A) → any f (update_where g h xs) ≡ any f xs
any-update_where_kept f g h kept [] = refl
any-update_where_kept f g h kept (x ∷ xs) =
    ground (arith, kept x, any-update_where_kept f g h kept xs, Bool-cases (g x))

any-keep_none :
    {A : Type 0} (f g : A → Bool)
    → ((x : A) → g x ≡ true → f x ≡ false)
    → (xs : List A) → any f (keep g xs) ≡ false
any-keep_none f g apart [] = refl
any-keep_none f g apart (x ∷ xs) =
    ground (arith, apart x, any-keep_none f g apart xs, Bool-cases (g x))

any-keep_kept :
    {A : Type 0} (f g : A → Bool)
    → ((x : A) → g x ≡ false → f x ≡ false)
    → (xs : List A) → any f (keep g xs) ≡ any f xs
any-keep_kept f g kept [] = refl
any-keep_kept f g kept (x ∷ xs) =
    ground (arith, kept x, any-keep_kept f g kept xs, Bool-cases (g x))

is_proof_same :
    (p : ProvedCredential) (sid : ℕ) (c : Text)
    → is_proof sid c p ≡ true
    → (p.session_id ≡ sid) × (p.credential_id ≡ c)
is_proof_same p sid c h =
    let (one, two) = &&-true _ _ h in
    ((==_iff p.session_id sid).0 one, (text_eq_iff p.credential_id c).0 two)

any_known :
    (p : ProvedCredential) (xs : List ProvedCredential) (sid : ℕ) (c : Text)
    → any (is_proof p.session_id p.credential_id) xs ≡ true
    → any (is_proof sid c) xs ≡ (any (is_proof sid c) xs || is_proof sid c p)
any_known p xs sid c known = elim (Bool-cases (is_proof sid c p)) [
  | inl same ↦
      let (one, two) = is_proof_same p sid c same in
      ground (
        arith,
        ap (λ x. any (is_proof x c) xs) (sym one)
            ∙ ap (λ x. any (is_proof p.session_id x) xs) (sym two)
            ∙ known,
      )
  | inr apart ↦ ground (arith, apart)
]

any-inserted :
    (p : ProvedCredential) (xs : List ProvedCredential) (sid : ℕ) (c : Text)
    → any (is_proof sid c) (
        if any (is_proof p.session_id p.credential_id) xs
        then update_where
            (is_proof p.session_id p.credential_id)
            (λ q. record q { proved_at = p.proved_at })
            xs
        else xs ++ p ∷ [])
      ≡ (any (is_proof sid c) xs || is_proof sid c p)
any-inserted p xs sid c = elim (Bool-cases (any (is_proof p.session_id p.credential_id) xs)) [
  | inl known ↦
      rw known
        (any-update_where_kept (is_proof sid c) _ _ (λ q. refl) xs ∙ any_known p xs sid c known)
  | inr new ↦ rw new (any-append (is_proof sid c) xs p)
]

insert-proved :
    (p : ProvedCredential) (s t : SessionTables) (a : Unit {0}) (sid : ℕ) (c : Text)
    → insert_session_proved_credential p s ≡ some (a, t)
    → session_has_proved_credential sid c t
      ≡ (session_has_proved_credential sid c s || is_proof sid c p)
unfolding insert_session_proved_credential session_has_proved_credential
insert-proved p s t a sid c e = elim (Bool-cases (any (has_session_id p.session_id) s.sessions)) [
  | inl there ↦
      ap {A = SessionTables} (λ x. any (is_proof sid c) x.proved)
        (stored (rw (insert_session_proved_credential, there) at e))
      ∙ any-inserted p s.proved sid c
  | inr missing ↦ absurd (ground (arith, rw (insert_session_proved_credential, missing) at e))
]

-- What is left of another session, and of the session itself but for the credential given.
deleted-kept :
    (sid : ℕ) (credential : Text) (s : SessionTables) (other : ℕ) (c : Text)
    → (other == sid) ≡ false
    → session_has_proved_credential other c
        (delete_session_proved_credentials_except sid credential s)
      ≡ session_has_proved_credential other c s
unfolding session_has_proved_credential delete_session_proved_credentials_except
deleted-kept sid credential s other c apart = any-keep_kept (is_proof other c) _ kept s.proved
  where
    kept :
        (p : ProvedCredential)
        → not (p.session_id == sid && not (text_eq p.credential_id credential)) ≡ false
        → is_proof other c p ≡ false
    kept p h =
        ground
          (arith, h, apart, ==_iff p.session_id sid, ==_iff p.session_id other, ==_iff other sid)

deleted-none :
    (sid : ℕ) (credential : Text) (s : SessionTables) (c : Text)
    → text_eq credential c ≡ false
    → session_has_proved_credential sid c
        (delete_session_proved_credentials_except sid credential s)
      ≡ false
unfolding session_has_proved_credential delete_session_proved_credentials_except
deleted-none sid credential s c apart = any-keep_none (is_proof sid c) _ gone s.proved
  where
    gone :
        (p : ProvedCredential)
        → not (p.session_id == sid && not (text_eq p.credential_id credential)) ≡ true
        → is_proof sid c p ≡ false
    gone p h = elim (Bool-cases (is_proof sid c p)) [
      | inr no_proof ↦ no_proof
      | inl proof ↦
          let (one, two) = is_proof_same p sid c proof in
          absurd (
            ground (
              arith,
              h,
              proof,
              apart,
              two,
              text_eq_iff p.credential_id credential,
              text_eq_iff credential c,
              sym two,
            ))
    ]

replaced :
    (sid now : ℕ) (credential : Text) (s t : SessionTables) (a : Unit {0})
    → insert_session_proved_credential
        (record { session_id = sid; credential_id = credential; proved_at = now })
        (delete_session_proved_credentials_except sid credential s)
      ≡ some (a, t)
    → (other : ℕ) (c : Text)
    → session_has_proved_credential other c t
      ≡ (if other == sid then text_eq credential c else session_has_proved_credential other c s)
replaced sid now credential s t a e other c =
    insert-proved _ _ t a other c e ∙ elim (Bool-cases (other == sid)) [
      | inr apart ↦ ground (
        arith,
        apart,
        deleted-kept sid credential s other c apart,
        ==_iff sid other,
        ==_iff other sid,
      )
      | inl same ↦ elim (Bool-cases (text_eq credential c)) [
        | inl fits ↦ ground (arith, same, fits, ==_iff sid other, ==_iff other sid)
        | inr differs ↦ ground (
          arith,
          same,
          differs,
          ap
                (λ x.
                  session_has_proved_credential x c
                    (delete_session_proved_credentials_except sid credential s))
                ((==_iff other sid).0 same)
              ∙ deleted-none sid credential s c differs,
        )
      ]
    ]

-- The credential is the only one that the session has proved; the other sessions have proved what they had.
abbrev pub IsReplaced :
    External → SessionTables → Text → Text → Result SessionError (Unit {0}) → SessionTables → Type 0
IsReplaced ext s session_id credential (ok a) t =
    (sid : ℕ) × (ext.uuid_parse session_id ≡ some sid)
    × ((other : ℕ) (c : Text)
        → session_has_proved_credential other c t ≡ (
            if other == sid then text_eq credential c else session_has_proved_credential other c s))
IsReplaced ext s session_id credential (err e) t = t ≡ s

abbrev BodyOk :
    External → SessionTables → Text → Text → Result SessionError (Unit {0}) → SessionTables → Type 0
BodyOk ext s session_id credential (ok a) t = IsReplaced ext s session_id credential (ok a) t
BodyOk ext s session_id credential (err e) t = Unit {0}

replace_proved_credential-Ends :
    (ext : External) (s : SessionTables) (now : ℕ) (session_id credential : Text)
    → Ends s
        (IsReplaced ext s session_id credential)
        (replace_proved_credential ext now session_id credential)
unfolding replace_proved_credential
replace_proved_credential-Ends ext s now session_id credential =
    Ends-or_fail bad_id (ext.uuid_parse session_id) _ (λ _. refl)
      λ sid parsed.
        Ends-transaction (BodyOk ext s session_id credential) internal _
          (Ends-exec _ _ _ tt (
            Ends-last_try_query _ _ tt λ a t e. (sid, parsed, replaced sid now credential s t a e)))
          refl (λ e t h. refl) (λ a t h. h)

-- When ReplaceProvedCredential succeeds, the credential is the only one that the session has proved, and
-- every other session has proved what it had; when it fails, nothing changes.
pub replace_proved_credential-IsReplaced :
    (ext : External) (w : World SessionTables) (now : ℕ) (session_id credential : Text)
    → IsReplaced ext w.store session_id credential
        (replace_proved_credential ext now session_id credential w).0
        (replace_proved_credential ext now session_id credential w).1.store
replace_proved_credential-IsReplaced ext w now session_id credential =
    Ends-run w (replace_proved_credential-Ends ext w.store now session_id credential)
