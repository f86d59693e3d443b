-- ===== src/Time/Texts.antt =====
-- Times of day as the texts HH:MM: the pattern of availabilityRuleSchema in
-- packages/contracts/src/index.ts, and the comparison of such texts in
-- apps/api/src/materialize/materializer.service.ts.
use native.Mathlib.Decide.{dec_lt}
use chronos_appointment_sche.Base.{
  ℕ, ◌+◌, ◌-◌, ◌*◌, ◌≤◌, ◌<◌, ◌≡◌, refl, sym, ap, ◌∙◌, Bool, true, false, List, [], ◌∷◌, map, ltb,
  leb, ◌==◌, ◌&&◌, ◌||◌, if◌then◌else◌, arith, Bool-cases, inl, inr,
}
use chronos_appointment_sche.Email.Token.{Text}
use chronos_appointment_sche.Time.Materializer.{Rule, put_rule, by_dow}

abbrev pub is_digit : ℕ → Bool
is_digit c = leb 48 c && leb c 57

-- `[01]\d|2[0-3]`
abbrev pub is_hour : ℕ → ℕ → Bool
is_hour a b = ((a == 48 || a == 49) && is_digit b) || (a == 50 && leb 48 b && leb b 51)

-- `[0-5]\d`
abbrev pub is_minute : ℕ → ℕ → Bool
is_minute d e = leb 48 d && leb d 53 && is_digit e

-- `/^([01]\d|2[0-3]):([0-5]\d)$/`
unfoldable pub is_time : Text → Bool
is_time (a ∷ b ∷ c ∷ d ∷ e ∷ []) = is_hour a b && c == 58 && is_minute d e
is_time _ = false

-- The minute of the day.
abbrev pub minute_of : Text → ℕ
minute_of (a ∷ b ∷ c ∷ d ∷ e ∷ []) = ((a - 48) * 10 + (b - 48)) * 60 + (d - 48) * 10 + (e - 48)
minute_of _ = 0

-- `s > t` on texts.
unfoldable pub is_after : Text → Text → Bool
is_after [] t = false
is_after (c ∷ s) [] = true
is_after (c ∷ s) (d ∷ t) = if c == d then is_after s t else ltb d c

record IsTime (s : Text) : Type 0 where
  a : ℕ
  b : ℕ
  d : ℕ
  e : ℕ
  text : s ≡ a ∷ b ∷ 58 ∷ d ∷ e ∷ []
  hour : is_hour a b ≡ true
  minute : is_minute d e ≡ true

is_time-IsTime : (s : Text) → is_time s ≡ true → IsTime s
unfolding is_time
is_time-IsTime [] h = ground arith
is_time-IsTime (a ∷ []) h = ground arith
is_time-IsTime (a ∷ b ∷ []) h = ground arith
is_time-IsTime (a ∷ b ∷ c ∷ []) h = ground arith
is_time-IsTime (a ∷ b ∷ c ∷ d ∷ []) h = ground arith
is_time-IsTime (a ∷ b ∷ c ∷ d ∷ e ∷ []) h = record {
  a = a;
  b = b;
  d = d;
  e = e;
  text = ground arith;
  hour = ground arith;
  minute = ground arith;
}
is_time-IsTime (a ∷ b ∷ c ∷ d ∷ e ∷ f ∷ s) h = ground arith

hour_digits : (a b : ℕ) → is_hour a b ≡ true → (48 ≤ a) × (48 ≤ b) × (b ≤ 57)
hour_digits a b h = ground arith

minute_digits : (d e : ℕ) → is_minute d e ≡ true → (48 ≤ d) × (d ≤ 53) × (48 ≤ e) × (e ≤ 57)
minute_digits d e h = ground arith

-- Comparisons of unequal numbers that go the same way.
same_order :
    (p q r s : ℕ) → (q == p) ≡ false → (p < q → r < s) → (q < p → s ≤ r) → ltb p q ≡ ltb r s
same_order p q r s other less more = elim (dec_lt p q) [
  | yes h ↦ ground (arith, less h)
  | no h ↦ ground (arith, more (ground arith))
]

not_less : (p q : ℕ) → q ≤ p → ltb p q ≡ false
not_less p q h = ground arith

digits_after :
    (a b d e a' b' d' e' : ℕ)
    → (48 ≤ a) × (48 ≤ b) × (b ≤ 57)
    → (48 ≤ d) × (d ≤ 53) × (48 ≤ e) × (e ≤ 57)
    → (48 ≤ a') × (48 ≤ b') × (b' ≤ 57)
    → (48 ≤ d') × (d' ≤ 53) × (48 ≤ e') × (e' ≤ 57)
    → is_after (a ∷ b ∷ 58 ∷ d ∷ e ∷ []) (a' ∷ b' ∷ 58 ∷ d' ∷ e' ∷ [])
      ≡ ltb (minute_of (a' ∷ b' ∷ 58 ∷ d' ∷ e' ∷ [])) (minute_of (a ∷ b ∷ 58 ∷ d ∷ e ∷ []))
unfolding is_after
digits_after a b d e a' b' d' e' (h1, h2, h3) (m1, m2, m3, m4) (h1', h2', h3')
      (m1', m2', m3', m4') =
    let M = minute_of (a ∷ b ∷ 58 ∷ d ∷ e ∷ []) in
    let M' = minute_of (a' ∷ b' ∷ 58 ∷ d' ∷ e' ∷ []) in
    elim (Bool-cases (a == a')) [
      | inr x ↦ rw x (same_order a' a M' M x (λ h. omega arith) (λ h. omega arith))
      | inl x ↦
          let a_same : a ≡ a' = ground (arith, x) in
          elim (Bool-cases (b == b')) [
            | inr y ↦ rw (x, y) (same_order b' b M' M y (λ h. omega arith) (λ h. omega arith))
            | inl y ↦
                let b_same : b ≡ b' = ground (arith, y) in
                elim (Bool-cases (d == d')) [
                  | inr z ↦
                      rw (x, y, z) (same_order d' d M' M z (λ h. omega arith) (λ h. omega arith))
                  | inl z ↦
                      let d_same : d ≡ d' = ground (arith, z) in
                      elim (Bool-cases (e == e')) [
                        | inr u ↦
                            rw (x, y, z, u)
                              (same_order e' e M' M u (λ h. omega arith) (λ h. omega arith))
                        | inl u ↦
                            let e_same : e ≡ e' = ground (arith, u) in
                            rw (x, y, z, u) (sym (not_less M' M (omega arith)))
                      ]
                ]
          ]
    ]

-- Of two texts that match the pattern HH:MM, one comes after the other as a text exactly if it does as
-- a time of day.
pub is_after-minute_of :
    (s t : Text)
    → is_time s ≡ true
    → is_time t ≡ true
    → is_after s t ≡ ltb (minute_of t) (minute_of s)
is_after-minute_of s t hs ht =
    let x = is_time-IsTime s hs in
    let y = is_time-IsTime t ht in
    rw (x.text, y.text)
      (digits_after x.a x.b x.d x.e y.a y.b y.d y.e (hour_digits x.a x.b x.hour)
        (minute_digits x.d x.e x.minute) (hour_digits y.a y.b y.hour)
        (minute_digits y.d y.e y.minute))

-- A row of the availability rules as it is stored.
pub record StoredRule : Type 0 where
  pub day_of_week : ℕ
  pub start_time : Text
  pub end_time : Text

-- `byDow` as the source builds it: `!existing || existing.start > r.startTime`.
abbrev pub put_stored : StoredRule → List StoredRule → List StoredRule
put_stored r [] = r ∷ []
put_stored r (q ∷ qs) =
    if q.day_of_week == r.day_of_week
    then (if is_after q.start_time r.start_time then r ∷ qs else q ∷ qs)
    else q ∷ put_stored r qs

abbrev pub by_dow_stored : List StoredRule → List StoredRule → List StoredRule
by_dow_stored m [] = m
by_dow_stored m (r ∷ rs) = by_dow_stored (put_stored r m) rs

abbrev pub rule_of : StoredRule → Rule
rule_of r = record {
  day_of_week = r.day_of_week;
  start_time = minute_of r.start_time;
  end_time = minute_of r.end_time;
}

abbrev pub all_times : List StoredRule → Bool
all_times [] = true
all_times (r ∷ rs) = is_time r.start_time && all_times rs

put_stored-times :
    (r : StoredRule) (m : List StoredRule)
    → is_time r.start_time ≡ true
    → all_times m ≡ true
    → all_times (put_stored r m) ≡ true
put_stored-times r [] h k = ground arith
put_stored-times r (q ∷ qs) h k = ground (arith, put_stored-times r qs h)

put_stored-put_rule :
    (r : StoredRule) (m : List StoredRule)
    → is_time r.start_time ≡ true
    → all_times m ≡ true
    → map rule_of (put_stored r m) ≡ put_rule (rule_of r) (map rule_of m)
put_stored-put_rule r [] h k = refl
put_stored-put_rule r (q ∷ qs) h k =
    let same = is_after-minute_of q.start_time r.start_time (ground arith) h in
    elim (Bool-cases (q.day_of_week == r.day_of_week)) [
      | inr x ↦ rw x (ap (λ rules. rule_of q ∷ rules) (put_stored-put_rule r qs h (ground arith)))
      | inl x ↦ elim (Bool-cases (is_after q.start_time r.start_time)) [
        | inl y ↦ rw (x, y, sym same ∙ y) refl
        | inr y ↦ rw (x, y, sym same ∙ y) refl
      ]
    ]

-- The choice of a rule for each weekday by the texts HH:MM of the rules is the choice by minutes, if the
-- start times of the rules match the pattern.
pub by_dow_stored-by_dow :
    (m rs : List StoredRule)
    → all_times m ≡ true
    → all_times rs ≡ true
    → map rule_of (by_dow_stored m rs) ≡ by_dow (map rule_of m) (map rule_of rs)
by_dow_stored-by_dow m [] h k = refl
by_dow_stored-by_dow m (r ∷ rs) h k =
    by_dow_stored-by_dow (put_stored r m) rs (put_stored-times r m (ground arith) h) (ground arith)
    ∙ ap (λ rules. by_dow rules (map rule_of rs)) (put_stored-put_rule r m (ground arith) h)
