-- ===== src/Time/Slots/Laws.antt =====
-- When the generation of slots returns, and what it answers.
use chronos_appointment_sche.Base.{
  ℕ, zero, suc, ◌+◌, ◌≤◌, ◌<◌, ◌≡◌, refl, subst, true, Option, none, some, List, [], ◌∷◌, ◌++◌,
  arith, ltb, leb, ◌==◌, not, if_ind, Option-cases, ◌⊎◌, inl, inr,
}
use chronos_appointment_sche.Time.Slots.{
  Interval, Rules, day_slots, slots_of_day, generate_days, generate_slots, insert_slot, sort_slots,
  push_ordered, both, only, is_open_day, SlotError, date_out_of_range,
}

-- Intervals that do not end before they start, and are in order of their starts.
abbrev pub AllProper : List Interval → Type 0
AllProper [] = Unit {0}
AllProper (s ∷ ss) = (s.start_utc < s.end_utc) × AllProper ss

abbrev pub IsFirst : ℕ → List Interval → Type 0
IsFirst n [] = Unit {0}
IsFirst n (s ∷ ss) = (n ≤ s.start_utc) × IsFirst n ss

abbrev pub IsSorted : List Interval → Type 0
IsSorted [] = Unit {0}
IsSorted (s ∷ ss) = IsFirst s.start_utc ss × IsSorted ss

AllProper-append : (a b : List Interval) → AllProper a → AllProper b → AllProper (a ++ b)
AllProper-append [] b h k = k
AllProper-append (s ∷ a) b (o, h) k = (o, AllProper-append a b h k)

insert_slot-AllProper :
    (s : Interval) (ss : List Interval)
    → s.start_utc < s.end_utc
    → AllProper ss
    → AllProper (insert_slot s ss)
insert_slot-AllProper s [] o h = (o, tt)
insert_slot-AllProper s (r ∷ rs) o (p, h) =
    if_ind AllProper (leb s.start_utc r.start_utc) (λ e. (o, (p, h)))
      (λ e. (p, insert_slot-AllProper s rs o h))

insert_slot-IsFirst :
    (n : ℕ) (s : Interval) (ss : List Interval)
    → n ≤ s.start_utc
    → IsFirst n ss
    → IsFirst n (insert_slot s ss)
insert_slot-IsFirst n s [] o h = (o, tt)
insert_slot-IsFirst n s (r ∷ rs) o (p, h) =
    if_ind (IsFirst n) (leb s.start_utc r.start_utc) (λ e. (o, (p, h)))
      (λ e. (p, insert_slot-IsFirst n s rs o h))

IsFirst-le : (m n : ℕ) (ss : List Interval) → m ≤ n → IsFirst n ss → IsFirst m ss
IsFirst-le m n [] o h = tt
IsFirst-le m n (s ∷ ss) o (p, h) = (omega arith, IsFirst-le m n ss o h)

insert_slot-IsSorted :
    (s : Interval) (ss : List Interval) → IsSorted ss → IsSorted (insert_slot s ss)
insert_slot-IsSorted s [] h = (tt, tt)
insert_slot-IsSorted s (r ∷ rs) (f, h) =
    if_ind IsSorted (leb s.start_utc r.start_utc)
      (λ e.
        let o : s.start_utc ≤ r.start_utc = ground arith in
        ((o, IsFirst-le s.start_utc r.start_utc rs o f), (f, h)))
      (λ e. (insert_slot-IsFirst r.start_utc s rs (ground arith) f, insert_slot-IsSorted s rs h))

sort_slots_lem :
    (ss : List Interval) → AllProper ss → AllProper (sort_slots ss) × IsSorted (sort_slots ss)
sort_slots_lem [] h = (tt, tt)
sort_slots_lem (s ∷ ss) (o, h) =
    let (p, q) = sort_slots_lem ss h in
    (insert_slot-AllProper s (sort_slots ss) o p, insert_slot-IsSorted s (sort_slots ss) q)

-- An answer with slots that are all proper.
abbrev pub IsProperAnswer : Option (List Interval) → Type 0
IsProperAnswer none = ⊥
IsProperAnswer (some ss) = AllProper ss

push_ordered_lem :
    (start end : ℕ) (rest : Option (List Interval))
    → IsProperAnswer rest
    → IsProperAnswer (elim rest [ none ↦ none | some slots ↦ some (push_ordered start end slots) ])
push_ordered_lem start end none h = h
push_ordered_lem start end (some slots) h =
    if_ind AllProper (ltb start end) (λ e. (ground arith, h)) (λ e. h)

-- The same of the answer of the days.
abbrev pub IsProperSome : Option (SlotError ⊎ List Interval) → Type 0
IsProperSome none = ⊥
IsProperSome (some (inl e)) = ⊥
IsProperSome (some (inr ss)) = AllProper ss

only_lem : (p : Option (List Interval)) → IsProperAnswer p → IsProperSome (only p)
only_lem none h = h
only_lem (some a) h = h

both_lem :
    (p : Option (List Interval)) (q : Option (SlotError ⊎ List Interval))
    → IsProperAnswer p
    → IsProperSome q
    → IsProperSome (both p q)
both_lem none q h k = h
both_lem (some a) none h k = k
both_lem (some a) (some (inl e)) h k = k
both_lem (some a) (some (inr b)) h k = AllProper-append a b h k

proper_some :
    (q : Option (SlotError ⊎ List Interval))
    → IsProperSome q
    → (ss : List Interval) × (q ≡ some (inr ss)) × AllProper ss
proper_some none h = absurd h
proper_some (some (inl e)) h = absurd h
proper_some (some (inr ss)) h = (ss, refl, h)

module _ (resolve : (day minute : ℕ) → ℕ) (m : ℕ) (positive : 1 ≤ m) where
  -- Fuel for each minute that is left is enough.
  day_slots_enough :
      (n day current end : ℕ)
      → end ≤ current + n
      → IsProperAnswer (day_slots resolve m (suc n) day current end)
  unfolding day_slots
  day_slots_enough zero day current end enough =
      if_ind IsProperAnswer (not (ltb current end)) (λ e. tt) (λ e. absurd (ground arith))
  day_slots_enough (suc n) day current end enough =
      if_ind IsProperAnswer (not (ltb current end)) (λ e. tt)
        (λ e.
          if_ind IsProperAnswer (ltb end (current + m)) (λ f. tt)
            (λ f.
              push_ordered_lem (resolve day current) (resolve day (current + m))
                (day_slots resolve m (suc n) day (current + m) end)
                (day_slots_enough n day (current + m) end (ground arith))))

  slots_of_day_lem : (rules : Rules) (day : ℕ) → IsProperAnswer (slots_of_day resolve m rules day)
  unfolding slots_of_day
  slots_of_day_lem rules day =
      if_ind IsProperAnswer (is_open_day rules.days_of_week day)
        (λ e.
          day_slots_enough rules.end_minute day rules.start_minute rules.end_minute (omega arith))
        (λ e. tt)

  generate_days_enough :
      (last_day n : ℕ) (rules : Rules) (day to : ℕ)
      → day + n ≡ to
      → to ≤ last_day
      → IsProperSome (generate_days resolve m last_day (suc n) rules day to)
  unfolding generate_days
  generate_days_enough last_day zero rules day to e h =
      if_ind IsProperSome (day == to)
        (λ f. only_lem (slots_of_day resolve m rules day) (slots_of_day_lem rules day))
        (λ f. absurd (ground arith))
  generate_days_enough last_day (suc n) rules day to e h =
      if_ind IsProperSome (day == to)
        (λ f. only_lem (slots_of_day resolve m rules day) (slots_of_day_lem rules day))
        (λ f.
          if_ind IsProperSome (day == last_day) (λ g. absurd (ground arith))
            (λ g.
              both_lem (slots_of_day resolve m rules day)
                (generate_days resolve m last_day (suc n) rules (day + 1) to)
                (slots_of_day_lem rules day)
                (generate_days_enough last_day n rules (day + 1) to (ground arith) h)))

  -- Past `to` the loop runs to the last day and throws.
  generate_days_throws :
      (last_day n : ℕ) (rules : Rules) (day to : ℕ)
      → day + n ≡ last_day
      → to < day
      → generate_days resolve m last_day (suc n) rules day to ≡ some (inl date_out_of_range)
  unfolding generate_days
  generate_days_throws last_day zero rules day to e h = ground arith
  generate_days_throws last_day (suc n) rules day to e h =
      elim (Option-cases (slots_of_day resolve m rules day)) [
        | inl f ↦ absurd (subst IsProperAnswer f (slots_of_day_lem rules day))
        | inr (a, f) ↦
            ground (arith, generate_days_throws last_day n rules (day + 1) to (omega arith))
      ]

-- For a known time zone, a slot length from 5 to 240 minutes, and a range of days that Temporal has
-- and that does not end before it begins, one round for each day is enough: slots are answered, each
-- ends after it starts, and they are in order of their starts, whatever the wall clock times resolve to.
pub generate_slots_returns :
    (resolve : (day minute : ℕ) → ℕ) (last_day m n : ℕ) (rules : Rules) (from to : ℕ)
    → 5 ≤ m
    → m ≤ 240
    → from + n ≡ to
    → to ≤ last_day
    → (slots : List Interval) × (generate_slots last_day (suc n) true resolve m rules from to
        ≡ some (inr slots))
      × AllProper slots
      × IsSorted slots
unfolding generate_slots
generate_slots_returns resolve last_day m n rules from to low high e h =
    let whole = generate_days_enough resolve m (omega arith) last_day n rules from to e h in
    let (ss, f, proper) =
      proper_some (generate_days resolve m last_day (suc n) rules from to) whole in
    let (p, q) = sort_slots_lem ss proper in (sort_slots ss, ground (arith, f), p, q)

-- For a range of days that ends before it begins, in the days that Temporal has, a known time zone and a
-- slot length from 5 to 240 minutes, the call answers no slots: the loop misses its end, and with a round for
-- each day up to the last that Temporal has it ends with the error of a date out of range.
pub generate_slots_throws :
    (resolve : (day minute : ℕ) → ℕ) (last_day m n : ℕ) (rules : Rules) (from to : ℕ)
    → 5 ≤ m
    → m ≤ 240
    → to < from
    → from + n ≡ last_day
    → generate_slots last_day (suc n) true resolve m rules from to ≡ some (inl date_out_of_range)
unfolding generate_slots
generate_slots_throws resolve last_day m n rules from to low high h e =
    ground (arith, generate_days_throws resolve m (omega arith) last_day n rules from to e h)
