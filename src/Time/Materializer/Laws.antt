-- ===== src/Time/Materializer/Laws.antt =====
-- Which rule of a weekday counts, and when materialize returns.
use chronos_appointment_sche.Base.{
  ℕ, suc, ◌+◌, ◌≡◌, ◌≢◌, ◌≤◌, refl, ap, ◌∙◌, if◌then◌else◌, Option, none, some, List, [], ◌∷◌,
  arith, ltb, ◌==◌, ◌⊎◌, inl, inr, Option-cases, Bool-cases,
}
use chronos_appointment_sche.Time.Slots.{Interval, SlotError, generate_slots}
use chronos_appointment_sche.Time.Slots.Laws.{generate_slots_returns}
use chronos_appointment_sche.Time.Materializer.{
  Rule, Stats, ProviderRun, rules_of, slots_of, materialize_all, materialize, by_dow, put_rule,
  give_up, count_rules, length_rules, count_batch, length,
}

answer_cases :
    (a : Option (SlotError ⊎ List Interval))
    → (a ≡ none)
      ⊎ (((x : SlotError) × (a ≡ some (inl x))) ⊎ ((ss : List Interval) × (a ≡ some (inr ss))))
answer_cases none = inl refl
answer_cases (some (inl x)) = inr (inl (x, refl))
answer_cases (some (inr ss)) = inr (inr (ss, refl))

module _ (last_day n from_date to_date : ℕ) (e : from_date + n ≡ to_date)
    (bound : to_date ≤ last_day) where
  generate_slots-some :
      (p : ProviderRun) (r : Rule)
      → generate_slots last_day (suc n) p.is_zone p.resolve 60 (rules_of r) from_date to_date ≢ none
  unfolding generate_slots
  generate_slots-some p r = elim (Bool-cases p.is_zone) [
    | inl z ↦
        let (slots, s, _, _) =
          generate_slots_returns p.resolve last_day 60 n (rules_of r) from_date to_date
            (omega arith) (omega arith) e bound in
        λ h. ground (arith, s)
    | inr z ↦ ground arith
  ]

  slots_of-some :
      (p : ProviderRun) (rs : List Rule) → slots_of last_day (suc n) from_date to_date p rs ≢ none
  slots_of-some p [] h = ground arith
  slots_of-some p (r ∷ rs) h = ground (
    arith,
    generate_slots-some p r,
    slots_of-some p rs,
    answer_cases
        (generate_slots last_day (suc n) p.is_zone p.resolve 60 (rules_of r) from_date to_date),
    answer_cases (slots_of last_day (suc n) from_date to_date p rs),
  )

  materialize_all-some :
      (ps : List ProviderRun) (st : Stats)
      → (out : Stats) × (materialize_all last_day (suc n) from_date to_date ps st ≡ some out)
  unfolding materialize_all
  materialize_all-some [] st = (st, refl)
  materialize_all-some (p ∷ ps) st = elim (Option-cases p.rules) [
    | inl f ↦ (give_up st, ground arith)
    | inr (rules, f) ↦
        let counted = count_rules (length_rules rules) st in
        elim (answer_cases (slots_of last_day (suc n) from_date to_date p (by_dow [] rules))) [
          | inl g ↦ absurd (slots_of-some p (by_dow [] rules) g)
          | inr (inl (x, g)) ↦ (give_up counted, ground arith)
          | inr (inr (slots, g)) ↦
              let (out, h) =
                materialize_all-some ps (count_batch p.inserted (length slots) counted) in
              (out, ground (arith, h))
        ]
  ]

  -- Over a range of days that does not end before it begins, materialize returns its statistics,
  -- whatever its queries answer or throw.
  pub materialize_returns :
      (answer : Option (List ProviderRun))
      → (out : Stats) × (materialize last_day (suc n) from_date to_date answer ≡ some out)
  unfolding materialize
  materialize_returns none = (
    record {
      providers_processed = 0;
      rules_processed = 0;
      slots_created = 0;
      slots_skipped = 0;
      errors = 1;
    },
    refl,
  )
  materialize_returns (some ps) = materialize_all-some ps _

-- The start of the first rule of a weekday, and the least start among its rules.
abbrev pub start_of : ℕ → List Rule → Option ℕ
start_of d [] = none
start_of d (r ∷ rs) = if r.day_of_week == d then some r.start_time else start_of d rs

abbrev pub smaller : ℕ → Option ℕ → Option ℕ
smaller s none = some s
smaller s (some t) = if ltb s t then some s else some t

abbrev pub least_from : Option ℕ → ℕ → List Rule → Option ℕ
least_from least d [] = least
least_from least d (r ∷ rs) =
    least_from (if r.day_of_week == d then smaller r.start_time least else least) d rs

start_of-put_rule :
    (d : ℕ) (r : Rule) (m : List Rule)
    → start_of d (put_rule r m)
      ≡ (if r.day_of_week == d then smaller r.start_time (start_of d m) else start_of d m)
start_of-put_rule d r [] = ground arith
start_of-put_rule d r (q ∷ qs) = ground (arith, start_of-put_rule d r qs)

start_of-by_dow :
    (d : ℕ) (m rs : List Rule) → start_of d (by_dow m rs) ≡ least_from (start_of d m) d rs
start_of-by_dow d m [] = refl
start_of-by_dow d m (r ∷ rs) =
    start_of-by_dow d (put_rule r m) rs ∙ ap (λ l. least_from l d rs) (start_of-put_rule d r m)

-- Of the rules of a weekday the one that materialize keeps starts earliest, and a weekday has none
-- exactly when no rule names it.
pub by_dow_least : (d : ℕ) (rs : List Rule) → start_of d (by_dow [] rs) ≡ least_from none d rs
by_dow_least d rs = start_of-by_dow d [] rs
