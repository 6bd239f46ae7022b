-- ===== src/Tests/Memory.antt =====
-- A Redis in memory, which shows that the laws of the parameter can hold: what each key holds, and the time at which it is dropped.
use latch_api.Common.Text.{text_eq, text_eq_self, text_eq_iff, Text}
use latch_api.Redis.{Redis}
use latch_api.Common.{
  ltb, if◌then◌else◌, ℕ, Option, suc, ◌+◌, ◌*◌, ◌==◌, ◌≡◌, ◌≢◌, ◌≤◌, some, Bool-cases, false, none,
  ap, refl, inl, arith, ◌∙◌, inr, ◌<◌,
}

pub data Held : Type 0 where
  nothing : Held
  held_always : Text → Held
  held_text : Text → ℕ → Held
  held_count : ℕ → Held
  held_count_until : ℕ → ℕ → Held

abbrev text_at : ℕ → Held → Option Text
text_at t (held_text v d) = if ltb t d then some v else none
text_at t (held_always v) = some v
text_at t _ = none

abbrev count_at : ℕ → Held → ℕ
count_at t (held_count n) = n
count_at t (held_count_until n d) = if ltb t d then n else 0
count_at t _ = 0

abbrev one_more : ℕ → Held → Held
one_more t (held_count_until n d) = if ltb t d then held_count_until (suc n) d else held_count 1
one_more t (held_count n) = held_count (suc n)
one_more t _ = held_count 1

abbrev until : ℕ → ℕ → Held → Held
until t seconds h = held_count_until (count_at t h) (t + seconds * 1000)

abbrev text_for : ℕ → Text → ℕ → Held
text_for t v ttl = if ttl == 0 then held_always v else held_text v (t + ttl)

pub text_at-text_for :
    (t u : ℕ) (v : Text) (ttl : ℕ)
    → 0 < ttl
    → text_at u (text_for t v ttl) ≡ (if ltb u (t + ttl) then some v else none)
text_at-text_for t u v ttl positive = elim (Bool-cases (ttl == 0)) [
  | inl nil ↦ absurd (ground (arith, nil, positive))
  | inr some_time ↦ rw some_time refl
]

abbrev pub held_at : Text → Held → (Text → Held) → Text → Held
held_at k h s j = if text_eq j k then h else s j

pub held_at-same : (k : Text) (h : Held) (s : Text → Held) → held_at k h s k ≡ h
held_at-same k h s = rw (text_eq_self k) refl

pub held_at-other : (j k : Text) (h : Held) (s : Text → Held) → j ≢ k → held_at k h s j ≡ s j
held_at-other j k h s other = elim (Bool-cases (text_eq j k)) [
  | inl same ↦ absurd (other ((text_eq_iff j k).0 same))
  | inr different ↦ rw different refl
]

stays : (t u d : ℕ) → t ≤ u → ltb t d ≡ false → ltb u d ≡ false
stays t u d ordered dead = ground (arith, ordered, dead)

pub text_later : (t u : ℕ) (h : Held) → t ≤ u → text_at t h ≡ none → text_at u h ≡ none
text_later t u nothing ordered h = refl
text_later t u (held_text v d) ordered h = elim (Bool-cases (ltb t d)) [
  | inl alive ↦ absurd (ground (arith, rw alive at h))
  | inr dead ↦ rw (stays t u d ordered dead) refl
]
text_later t u (held_always v) ordered h = h
text_later t u (held_count n) ordered h = refl
text_later t u (held_count_until n d) ordered h = refl

pub count_one_more : (t : ℕ) (h : Held) → count_at t (one_more t h) ≡ suc (count_at t h)
count_one_more t nothing = refl
count_one_more t (held_text v d) = refl
count_one_more t (held_always v) = refl
count_one_more t (held_count n) = refl
count_one_more t (held_count_until n d) = elim (Bool-cases (ltb t d)) [
  | inl alive ↦ rw (alive, alive) refl
  | inr dead ↦ rw dead refl
]

pub count_later :
    (t u : ℕ) (h : Held)
    → t ≤ u
    → 0 < count_at t h
    → count_at u h ≡ count_at t h
    → count_at u (one_more t h) ≡ suc (count_at t h)
count_later t u nothing ordered there same = absurd (omega (arith, there))
count_later t u (held_text v d) ordered there same = absurd (omega (arith, there))
count_later t u (held_always v) ordered there same = absurd (omega (arith, there))
count_later t u (held_count n) ordered there same = refl
count_later t u (held_count_until n d) ordered there same = elim (Bool-cases (ltb t d)) [
  | inl alive ↦ elim (Bool-cases (ltb u d)) [
    | inl still ↦ rw (alive, still) refl
    | inr gone ↦ absurd (omega (arith, rw alive at there, rw (alive, gone) at same))
  ]
  | inr dead ↦ absurd (omega (arith, rw dead at there))
]

abbrev pub memory : Redis
memory = record {
  State = Text → Held;
  get = λ t k s. text_at t (s k);
  counter = λ t k s. count_at t (s k);
  set = λ t k v ttl s. held_at k (text_for t v ttl) s;
  del = λ k s. held_at k nothing s;
  incr = λ t k s. held_at k (one_more t (s k)) s;
  expire = λ t k ttl s. held_at k (until t ttl (s k)) s;
  get-set = λ t u k v ttl s positive.
      ap (text_at u) (held_at-same k (text_for t v ttl) s) ∙ text_at-text_for t u v ttl positive;
  get-later = λ t u k s ordered h. text_later t u (s k) ordered h;
  get-del = λ u k s. ap (text_at u) (held_at-same k nothing s);
  counter-incr =
      λ t k s. ap (count_at t) (held_at-same k (one_more t (s k)) s) ∙ count_one_more t (s k);
  counter-incr_later = λ t u k s ordered there same.
      ap (count_at u) (held_at-same k (one_more t (s k)) s)
      ∙ count_later t u (s k) ordered there same;
  counter-expire = λ t u k ttl s ordered. ap (count_at u) (held_at-same k (until t ttl (s k)) s);
  get-set_other =
      λ t u j k v ttl s other. ap (text_at u) (held_at-other j k (text_for t v ttl) s other);
  get-del_other = λ u j k s other. ap (text_at u) (held_at-other j k nothing s other);
  get-incr_other = λ t u j k s other. ap (text_at u) (held_at-other j k (one_more t (s k)) s other);
  get-expire_other =
      λ t u j k ttl s other. ap (text_at u) (held_at-other j k (until t ttl (s k)) s other);
}
