-- ===== src/Tests/Parts.antt =====
-- The time library.
use chronos_appointment_sche.Base.{
  ℕ, ◌≡◌, ◌+◌, ◌*◌, refl, true, some, none, [], ◌∷◌, arith, List, inl, inr, map,
}
use chronos_appointment_sche.Time.{reminder_fire_times}
use chronos_appointment_sche.Time.Laws
use chronos_appointment_sche.Time.Laws.{reminder_fire_times_lem, count, count_ahead}
use chronos_appointment_sche.Time.Materializer.{Rule, by_dow}
use chronos_appointment_sche.Time.Texts.{
  StoredRule, rule_of, by_dow_stored, by_dow_stored-by_dow, is_time,
}
use chronos_appointment_sche.Email.Token.{Text}
use chronos_appointment_sche.Time.Slots.{Interval, Rules, generate_slots, date_out_of_range}
use chronos_appointment_sche.Time.Slots.Laws.{
  AllProper, IsSorted, generate_slots_returns, generate_slots_throws,
}

reminder_fire_times_lem_example :
    Laws.IsSorted (reminder_fire_times 90000000 (1440 ∷ 60 ∷ []) 5000000)
    × ((t : ℕ)
        → count t (reminder_fire_times 90000000 (1440 ∷ 60 ∷ []) 5000000)
          ≡ count_ahead t 90000000 (1440 ∷ 60 ∷ []) 5000000)
reminder_fire_times_lem_example = reminder_fire_times_lem 90000000 (1440 ∷ 60 ∷ []) 5000000

-- A zone without offsets, and an hour each morning.
abbrev utc : ℕ → ℕ → ℕ
utc day minute = day * 86400000 + minute * 60000

abbrev mornings : Rules
mornings = record { days_of_week = none; start_minute = 540; end_minute = 600 }

generate_slots_returns_example :
    (slots : List Interval) × (generate_slots 100000000 3 true utc 30 mornings 20000 20002
      ≡ some (inr slots))
    × AllProper slots
    × IsSorted slots
generate_slots_returns_example =
    generate_slots_returns utc 100000000 30 2 mornings 20000 20002 (omega arith) (omega arith) refl
      (omega arith)

generate_slots_throws_example :
    generate_slots 20010 9 true utc 30 mornings 20002 20000 ≡ some (inl date_out_of_range)
generate_slots_throws_example =
    generate_slots_throws utc 20010 30 8 mornings 20002 20000 (omega arith) (omega arith)
      (omega arith) refl

-- Two rules of Monday and one of Friday.
abbrev rules : List Rule
rules =
    record { day_of_week = 1; start_time = 600; end_time = 660 }
    ∷ record { day_of_week = 5; start_time = 540; end_time = 600 }
    ∷ record { day_of_week = 1; start_time = 480; end_time = 540 }
    ∷ []

-- The same rules as they are stored: 10:00, 09:00 and 08:00.
abbrev at : ℕ → Text
at digit = 48 ∷ digit ∷ 58 ∷ 48 ∷ 48 ∷ []

abbrev stored : List StoredRule
stored =
    record {
      day_of_week = 1;
      start_time = 49 ∷ 48 ∷ 58 ∷ 48 ∷ 48 ∷ [];
      end_time = 49 ∷ 49 ∷ 58 ∷ 48 ∷ 48 ∷ [];
    }
    ∷ record { day_of_week = 5; start_time = at 57; end_time = 49 ∷ 48 ∷ 58 ∷ 48 ∷ 48 ∷ [] }
    ∷ record { day_of_week = 1; start_time = at 56; end_time = at 57 }
    ∷ []

by_dow_stored-by_dow_example : map rule_of (by_dow_stored [] stored) ≡ by_dow [] rules
unfolding is_time
by_dow_stored-by_dow_example = by_dow_stored-by_dow [] stored refl refl
