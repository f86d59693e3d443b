-- ===== src/Time/Slots.antt =====
-- packages/time/src/time-core.ts: generateSlots. Temporal is outside the repository: what a wall
-- clock time of a day resolves to is an argument, and so is the last day it has. A day is its number since 1970-01-01, a wall clock
-- time its minute of the day, an instant its count of milliseconds.
pub mod Laws
use chronos_appointment_sche.Base.{
  ℕ, zero, suc, ◌+◌, ◌-◌, ◌%◌, Bool, true, false, Option, none, some, List, [], ◌∷◌, ◌++◌, ltb, leb,
  ◌==◌, ◌||◌, not, if◌then◌else◌, ◌⊎◌, inl, inr,
}

pub record Interval : Type 0 where
  pub start_utc : ℕ
  pub end_utc : ℕ

-- The default of each rule that is absent is the caller's to fill in: 09:00 and 17:00.
pub record Rules : Type 0 where
  pub days_of_week : Option (List ℕ)
  pub start_minute : ℕ
  pub end_minute : ℕ

-- `getUTCDay() || 7`; day 0 was a Thursday.
abbrev pub day_of_week : ℕ → ℕ
day_of_week d = let n = (d + 4) % 7 in if n == 0 then 7 else n

abbrev pub is_member : ℕ → List ℕ → Bool
is_member n [] = false
is_member n (k ∷ ks) = n == k || is_member n ks

abbrev pub is_open_day : Option (List ℕ) → ℕ → Bool
is_open_day none d = true
is_open_day (some days) d = is_member (day_of_week d) days

-- `slots.push` behind its guard.
abbrev pub push_ordered : (start end : ℕ) → List Interval → List Interval
push_ordered s e rest = if ltb s e then record { start_utc = s; end_utc = e } ∷ rest else rest

-- `date_out_of_range` is the RangeError of a date that Temporal has not.
pub data SlotError : Type 0 where
  invalid_time_zone slot_minutes_out_of_range date_out_of_range : SlotError

-- The slots of a day alone, and before those of the days after it.
abbrev pub only : Option (List Interval) → Option (SlotError ⊎ List Interval)
only none = none
only (some a) = some (inr a)

abbrev pub both :
    Option (List Interval) → Option (SlotError ⊎ List Interval) → Option (SlotError ⊎ List Interval)
both none q = none
both (some a) none = none
both (some a) (some (inl e)) = some (inl e)
both (some a) (some (inr b)) = some (inr (a ++ b))

module _ (resolve : (day minute : ℕ) → ℕ) (slot_minutes : ℕ) where
  -- The inner loop, on fuel.
  unfoldable pub day_slots : (fuel day current end_minute : ℕ) → Option (List Interval)
  day_slots zero day current end_minute = none
  day_slots (suc n) day current end_minute =
      let next = current + slot_minutes in
      let rest = day_slots n day next end_minute in
      if not (ltb current end_minute)
      then some []
      else if ltb end_minute next
      then some []
      else elim rest [
        | none ↦ none
        | some slots ↦ some (push_ordered (resolve day current) (resolve day next) slots)
      ]

  -- The slots of one day; as many rounds as the day has minutes are enough.
  unfoldable pub slots_of_day : Rules → ℕ → Option (List Interval)
  unfolding day_slots
  slots_of_day rules day =
      if is_open_day rules.days_of_week day
      then day_slots (suc rules.end_minute) day rules.start_minute rules.end_minute
      else some []

  -- The loop over the days, on fuel: it ends at the day that equals `to`. `PlainDate.add` throws
  -- at the last day that Temporal has.
  unfoldable pub generate_days :
      (last_day fuel : ℕ) → Rules → (day to : ℕ) → Option (SlotError ⊎ List Interval)
  unfolding slots_of_day
  generate_days last_day zero rules day to = none
  generate_days last_day (suc n) rules day to =
      let rest = generate_days last_day n rules (day + 1) to in
      if day == to
      then only (slots_of_day rules day)
      else if day == last_day
      then some (inl date_out_of_range)
      else both (slots_of_day rules day) rest

-- The stable sort by the start; the texts of instants compare as the instants do.
abbrev pub insert_slot : Interval → List Interval → List Interval
insert_slot s [] = s ∷ []
insert_slot s (r ∷ rs) = if leb s.start_utc r.start_utc then s ∷ r ∷ rs else r ∷ insert_slot s rs

abbrev pub sort_slots : List Interval → List Interval
sort_slots [] = []
sort_slots (s ∷ ss) = insert_slot s (sort_slots ss)

abbrev sorted_answer : SlotError ⊎ List Interval → SlotError ⊎ List Interval
sorted_answer (inl e) = inl e
sorted_answer (inr slots) = inr (sort_slots slots)

-- `none` is a call that has not returned within the fuel. `PlainDate.from` throws on a date past the
-- last.
unfoldable pub generate_slots :
    (last_day fuel : ℕ)
    → (is_zone : Bool) → (resolve : (day minute : ℕ) → ℕ) → (slot_minutes : ℕ) → Rules
    → (from to : ℕ) → Option (SlotError ⊎ List Interval)
unfolding generate_days
generate_slots last_day fuel is_zone resolve slot_minutes rules from to =
    if not is_zone
    then some (inl invalid_time_zone)
    else if ltb slot_minutes 5 || ltb 240 slot_minutes
    then some (inl slot_minutes_out_of_range)
    else if ltb last_day from || ltb last_day to
    then some (inl date_out_of_range)
    else elim (generate_days resolve slot_minutes last_day fuel rules from to) [
      | none ↦ none
      | some answer ↦ some (sorted_answer answer)
    ]
