-- ===== src/Otp/Guesses.antt =====
-- How often a one-time password can be guessed.
use mathlib.Core.Bool.{true≢false}
use latch_api.Common.Find.{not_found}
use latch_api.Common.Ends.{Ends, Ends-pure, Ends-query, Ends-if, Ends-exec, Ends-ask, Ends-or_fail}
use latch_api.Common.{
  ◌≢◌, ◌≤◌, ◌≡◌, Result, ◌+◌, none, arith, length, ◌⊎◌, inl, ◌∙◌, Bool, ap, inr, some, ok, suc,
  true, false, sym, ◌<◌, Bool-cases, ltb, err, refl, ◌/◌,
}
use latch_api.Redis.{Redis}
use latch_api.Otp.{
  otp_key, otp_attempts_key, ℕ, count_attempt, delete_otp, verify_stored, ◌++◌, Option,
  normalize_email, OtpError, otp_ttl, otp_max_attempts, internal, verify, generate,
  generate_numeric_otp, otp_length, no_random_number,
}
use latch_api.Common.Text.{Text, codes, text_eq}

-- Two keys of one address differ in length.
apart : (s : Text) → codes "otp:" ++ s ≢ codes "otp:attempts:" ++ s
apart s h = absurd (omega (arith, ap length h))

keys_apart : (email : Text) → otp_key email ≢ otp_attempts_key email
unfolding otp_key otp_attempts_key
keys_apart email = apart (normalize_email email)

module _ (redis : Redis) (email : Text) where
  -- The password was stored before `gone - otp_ttl`, and since then `n` guesses were counted, or it is
  -- not there any more; the last request was served at `now`.
  pub record IsGuarded (gone n now : ℕ) (s : redis.State) : Type 0 where
    pub lifetime : (u : ℕ) → gone ≤ u → redis.get u (otp_key email) s ≡ none
    pub counted :
        (u : ℕ)
        → now ≤ u
        → (redis.get u (otp_key email) s ≡ none) ⊎ (n ≤ redis.counter u (otp_attempts_key email) s)

  weaker :
      (gone n m now later : ℕ) (s : redis.State)
      → m ≤ n
      → now ≤ later
      → IsGuarded gone n now s
      → IsGuarded gone m later s
  weaker gone n m now later s fewer ordered g = record {
    lifetime = g.lifetime;
    counted = λ u h. elim (g.counted u (omega (arith, ordered, h))) [
      | inl away ↦ inl away
      | inr many ↦ inr (omega (arith, many, fewer))
    ];
  }

  away-IsGuarded :
      (gone n now : ℕ) (s : redis.State)
      → ((u : ℕ) → redis.get u (otp_key email) s ≡ none)
      → IsGuarded gone n now s
  away-IsGuarded gone n now s h = record { lifetime = λ u _. h u; counted = λ u _. inl (h u) }

  count_attempt-IsGuarded :
      (gone n now t : ℕ) (s : redis.State) (stored : Text)
      → now ≤ t
      → gone ≤ t + otp_ttl
      → redis.get t (otp_key email) s ≡ some stored
      → IsGuarded gone n now s
      → IsGuarded gone (suc n) t (count_attempt redis t email s).1
        × (n ≤ redis.counter t (otp_attempts_key email) s)
  unfolding count_attempt
  count_attempt-IsGuarded gone n now t s stored ordered soon there g =
      let key = otp_key email in
      let attempts = otp_attempts_key email in
      let same : (u : ℕ) → redis.get u key (count_attempt redis t email s).1 ≡ redis.get u key s =
        λ u.
          redis.get-expire_other t u key attempts (otp_ttl / 1000) (redis.incr t attempts s)
            (keys_apart email)
          ∙ redis.get-incr_other t u key attempts s (keys_apart email) in
      let many : n ≤ redis.counter t attempts s = elim (g.counted t ordered) [
        | inl away ↦ absurd (not_found (sym away ∙ there))
        | inr many ↦ many
      ] in
      (
        record {
          lifetime = λ u h. same u ∙ g.lifetime u h;
          counted = λ u h. elim (Bool-cases (ltb u (t + otp_ttl))) [
            | inl alive ↦ inr (
                rw
                  (
                    redis.counter-expire t u attempts (otp_ttl / 1000) (redis.incr t attempts s) h,
                    alive,
                    redis.counter-incr t attempts s,
                  )
                  (omega (arith, many)))
            | inr passed ↦ inl (same u ∙ g.lifetime u (ground (arith, passed, soon)))
          ];
        },
        many,
      )

  delete_otp-get :
      (u : ℕ) (s : redis.State) → redis.get u (otp_key email) (delete_otp redis email s) ≡ none
  unfolding delete_otp
  delete_otp-get u s =
      redis.get-del_other u (otp_key email) (otp_attempts_key email) (redis.del (otp_key email) s)
        (keys_apart email)
      ∙ redis.get-del u (otp_key email) s

  within_limit :
      (n t : ℕ) (s : redis.State)
      → n ≤ redis.counter t (otp_attempts_key email) s
      → ltb otp_max_attempts (count_attempt redis t email s).0 ≡ false
      → n < otp_max_attempts
  unfolding count_attempt
  within_limit n t s many within = ground (arith, many, within)

  -- What one call of `Verify` does to the number of counted guesses.
  abbrev pub Guessed : ℕ → ℕ → ℕ → Result OtpError Bool → redis.State → Type 0
  Guessed gone n t (ok b) s =
      IsGuarded gone (suc n) t s
      × (b ≡ true → (n < otp_max_attempts) × ((m : ℕ) → IsGuarded gone m t s))
  Guessed gone n t (err e) s = IsGuarded gone n t s

  verify_stored-Ends :
      (gone n now t : ℕ) (s : redis.State) (given : Text) (o : Option Text)
      → now ≤ t
      → gone ≤ t + otp_ttl
      → redis.get t (otp_key email) s ≡ o
      → IsGuarded gone n now s
      → Ends s (Guessed gone n t) (verify_stored redis t email given o)
  unfolding verify_stored
  verify_stored-Ends gone n now t s given none ordered soon there g = Ends-pure false (
    record {
      lifetime = g.lifetime;
      counted = λ u h. inl (redis.get-later t u (otp_key email) s h there);
    },
    λ e. absurd (true≢false (sym e)),
  )
  verify_stored-Ends gone n now t s given (some stored) ordered soon there g =
      let (next, many) = count_attempt-IsGuarded gone n now t s stored ordered soon there g in
      let gone_on : IsGuarded gone (suc n) t
          (delete_otp redis email (count_attempt redis t email s).1) =
        away-IsGuarded gone (suc n) t _ (λ u. delete_otp-get u (count_attempt redis t email s).1) in
      let kept = weaker gone (suc n) n t t _ (omega arith) (omega arith) next in
      Ends-query internal (count_attempt redis t email) _
        (weaker gone n n now t s (omega arith) ordered g)
        (Ends-if (ltb otp_max_attempts (count_attempt redis t email s).0) _ _
          (λ over.
            Ends-exec _ _ _ kept (Ends-pure false (gone_on, λ e. absurd (true≢false (sym e)))))
          λ within.
            Ends-if (text_eq stored given) _ _
              (λ right. Ends-exec _ _ _ kept (
                Ends-pure true (
                  gone_on,
                  λ e. (
                    within_limit n t s many within,
                    λ m.
                        away-IsGuarded gone m t _
                          (λ u. delete_otp-get u (count_attempt redis t email s).1),
                  ),
                )))
              λ wrong. Ends-pure false (next, λ e. absurd (true≢false (sym e))))

  pub verify-Ends :
      (gone n now t : ℕ) (s : redis.State) (given : Text)
      → now ≤ t
      → gone ≤ t + otp_ttl
      → IsGuarded gone n now s
      → Ends s (Guessed gone n t) (verify redis t email given)
  unfolding verify
  verify-Ends gone n now t s given ordered soon g =
      Ends-ask internal (redis.get t (otp_key email)) _
        (weaker gone n n now t s (omega arith) ordered g)
        (verify_stored-Ends gone n now t s given (redis.get t (otp_key email) s) ordered soon refl
          g)

  abbrev pub Generated : ℕ → Result OtpError Text → redis.State → Type 0
  Generated now (ok code) s = IsGuarded (now + otp_ttl) 0 now s
  Generated now (err e) s = Unit {0}

  pub generate-Ends :
      (s : redis.State) (now : ℕ) (random : Option ℕ)
      → Ends s (Generated now) (generate redis now random email)
  unfolding generate
  generate-Ends s now random =
      Ends-or_fail no_random_number random _ (λ _. tt)
        λ n drawn. Ends-exec _ _ _ tt (
          Ends-pure _
            (record { lifetime = λ u h. expires n u h; counted = λ u h. inr (omega arith) }))
    where
      expires :
          (n u : ℕ)
          → now + otp_ttl ≤ u
          → redis.get u (otp_key email) (
              redis.del
                (otp_attempts_key email)
                (redis.set now (otp_key email) (generate_numeric_otp otp_length n) otp_ttl s))
            ≡ none
      expires n u h =
          redis.get-del_other u (otp_key email) (otp_attempts_key email) _ (keys_apart email)
          ∙ redis.get-set now u (otp_key email) (generate_numeric_otp otp_length n) otp_ttl s
              (omega arith)
          ∙ ground (arith, h)
