-- ===== src/Time/Materializer.antt =====
-- apps/api/src/materialize/materializer.service.ts: MaterializerService.materialize. What the
-- queries answer or throw is an argument; a time of day is its minute, whose order is that of the
-- texts HH:MM. Log lines are left out.
pub mod Laws
use Prim.Native.String.{String}
use chronos_appointment_sche.Base.{
  ℕ, ◌+◌, Bool, true, false, Option, none, some, List, [], ◌∷◌, ◌++◌, ltb, ◌==◌, if◌then◌else◌, ◌⊎◌,
  inl, inr,
}
use chronos_appointment_sche.Time.Slots.{Interval, Rules, SlotError, generate_slots}

-- A row of the availability rules that are active.
pub record Rule : Type 0 where
  pub day_of_week : ℕ
  pub start_time : ℕ
  pub end_time : ℕ

pub record Stats : Type 0 where
  pub providers_processed : ℕ
  pub rules_processed : ℕ
  pub slots_created : ℕ
  pub slots_skipped : ℕ
  pub errors : ℕ

-- `byDow`: the keys in the order of their first insertion.
abbrev pub put_rule : Rule → List Rule → List Rule
put_rule r [] = r ∷ []
put_rule r (q ∷ qs) =
    if q.day_of_week == r.day_of_week
    then (if ltb r.start_time q.start_time then r ∷ qs else q ∷ qs)
    else q ∷ put_rule r qs

abbrev pub by_dow : List Rule → List Rule → List Rule
by_dow m [] = m
by_dow m (r ∷ rs) = by_dow (put_rule r m) rs

-- What the INSERT of a batch does.
pub data Inserted : Type 0 where
  done : Inserted
  threw_duplicate : Inserted
  threw_other : Inserted

-- A provider as the queries answer it: `none` where the query for its rules throws.
pub record ProviderRun : Type 0 where
  pub is_zone : Bool
  pub resolve : (day minute : ℕ) → ℕ
  pub rules : Option (List Rule)
  pub inserted : Inserted

abbrev pub rules_of : Rule → Rules
rules_of r = record {
  days_of_week = some (r.day_of_week ∷ []);
  start_minute = r.start_time;
  end_minute = r.end_time;
}

abbrev pub length : List Interval → ℕ
length [] = 0
length (s ∷ ss) = length ss + 1

-- The slots of a weekday before those of the others; `none` is no answer within the fuel.
abbrev pub before :
    Option (SlotError ⊎ List Interval)
    → Option (SlotError ⊎ List Interval)
    → Option (SlotError ⊎ List Interval)
before none q = none
before (some (inl e)) q = some (inl e)
before (some (inr a)) none = none
before (some (inr a)) (some (inl e)) = some (inl e)
before (some (inr a)) (some (inr b)) = some (inr (a ++ b))

abbrev pub count_batch : Inserted → ℕ → Stats → Stats
count_batch done n st = record st { slots_created = st.slots_created + n }
count_batch threw_duplicate n st = record st { slots_skipped = st.slots_skipped + n }
count_batch threw_other n st = record st { errors = st.errors + n }

abbrev pub count_rules : ℕ → Stats → Stats
count_rules n st = record st { rules_processed = st.rules_processed + n }

abbrev pub length_rules : List Rule → ℕ
length_rules [] = 0
length_rules (r ∷ rs) = length_rules rs + 1

-- What is left of the loop when something throws outside the INSERT.
abbrev pub give_up : Stats → Stats
give_up st = record st { errors = st.errors + 1 }

abbrev pub length_runs : List ProviderRun → ℕ
length_runs [] = 0
length_runs (p ∷ ps) = length_runs ps + 1

module _ (last_day fuel from_date to_date : ℕ) where
  abbrev pub slots_of : ProviderRun → List Rule → Option (SlotError ⊎ List Interval)
  slots_of p [] = some (inr [])
  slots_of p (r ∷ rs) =
      before (generate_slots last_day fuel p.is_zone p.resolve 60 (rules_of r) from_date to_date)
        (slots_of p rs)

  -- The loop over the providers.
  unfoldable pub materialize_all : List ProviderRun → Stats → Option Stats
  materialize_all [] st = some st
  materialize_all (p ∷ ps) st = elim p.rules [
    | none ↦ some (give_up st)
    | some rules ↦ elim (slots_of p (by_dow [] rules)) [
      | none ↦ none
      | some answer ↦ elim answer [
        | inl e ↦ some (give_up (count_rules (length_rules rules) st))
        | inr slots ↦
            materialize_all ps
              (count_batch p.inserted (length slots) (count_rules (length_rules rules) st))
      ]
    ]
  ]

  -- `none`: the query for the providers throws.
  unfoldable pub materialize : Option (List ProviderRun) → Option Stats
  unfolding materialize_all
  materialize none = some (record {
    providers_processed = 0;
    rules_processed = 0;
    slots_created = 0;
    slots_skipped = 0;
    errors = 1;
  })
  materialize (some ps) = materialize_all ps (record {
    providers_processed = length_runs ps;
    rules_processed = 0;
    slots_created = 0;
    slots_skipped = 0;
    errors = 0;
  })
