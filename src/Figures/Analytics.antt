-- ===== src/Figures/Analytics.antt =====
-- apps/api/src/analytics/analytics.controller.ts. The five queries are read at one state of the table.
use chronos_appointment_sche.Base.{
  ℕ, ◌+◌, ◌-◌, ◌≤◌, ◌≡◌, subst, if_ind, Holds, Bool, true, false, Option, none, some, List, [],
  ◌==◌, ◌&&◌, ◌||◌, not, ltb, if◌then◌else◌, arith, Bool-cases, inl, inr,
}
use chronos_appointment_sche.Schema.{BookingStatus}
use chronos_appointment_sche.Figures.{
  Floats, Percent, IsNearest, Row, Range, is_date, in_range, take_first, newest_first, filter_rows,
  count_rows, has_status, is_slot_open, is_slot_booked,
}
use chronos_appointment_sche.Figures.Rows.{percent-le, count-statuses}

pub record Totals : Type 0 where
  pub total : ℕ
  pub completed : ℕ
  pub cancelled : ℕ
  pub no_show : ℕ
  pub booked : ℕ

pub record Rates : Type 0 where
  pub completion_rate : ℕ
  pub cancellation_rate : ℕ
  pub utilization : ℕ

module _ (f : Floats) (percent : Percent) where
  pub record Figures : Type 0 where
    pub range : Range
    pub totals : Totals
    pub rates : Rates
    pub bookings : List (Row f)
    pub is_error : Bool

  -- The share in percent, and 0 of nothing.
  abbrev pub rate : (part whole : ℕ) → ℕ
  rate part whole = if ltb 0 whole then percent part whole else 0

  abbrev pub totals_of : List (Row f) → Totals
  totals_of rows =
      let total = count_rows f (λ r. true) rows in
      let cancelled = count_rows f (has_status f BookingStatus.cancelled) rows in
      let no_show = count_rows f (has_status f BookingStatus.no_show) rows in
      record {
        total = total;
        completed = count_rows f (has_status f BookingStatus.completed) rows;
        cancelled = cancelled;
        no_show = no_show;
        booked = total - cancelled - no_show;
      }

  abbrev pub rates_of : Totals → (latest : List (Row f)) → Rates
  rates_of t latest =
      let finished = t.completed + t.cancelled + t.no_show in
      let opened = count_rows f (is_slot_open f) latest in
      let booked = count_rows f (is_slot_booked f) latest in
      record {
        completion_rate = rate t.completed finished;
        cancellation_rate = rate t.cancelled finished;
        utilization = rate booked (opened + booked);
      }

  abbrev pub zero_state : Range → Figures
  zero_state range = record {
    range = range;
    totals = record { total = 0; completed = 0; cancelled = 0; no_show = 0; booked = 0 };
    rates = record { completion_rate = 0; cancellation_rate = 0; utilization = 0 };
    bookings = [];
    is_error = true;
  }

  -- Those of the provider's slots, created in the range.
  abbrev pub rows_of : (provider_id : ℕ) → Range → List (Row f) → List (Row f)
  rows_of provider_id range =
      filter_rows f (λ r. r.slot_provider_id == provider_id && in_range range r.created_at)

  -- GET /analytics by a provider's session; `none` without one: 401. A date that is no date makes the
  -- queries throw.
  unfoldable pub get_analytics :
      (database_fails : Bool) → (provider_id : Option ℕ) → Range → List (Row f) → Option Figures
  get_analytics database_fails none range rows = none
  get_analytics database_fails (some provider_id) range rows =
      if database_fails || not (is_date range.start && is_date range.end)
      then some (zero_state range)
      else (let mine = rows_of provider_id range rows in
          let latest = take_first f 200 (newest_first f mine) in
          some (record {
            range = range;
            totals = totals_of mine;
            rates = rates_of (totals_of mine) latest;
            bookings = latest;
            is_error = false;
          }))

  abbrev AllRates : Figures → Type 0
  AllRates x =
      (x.rates.completion_rate ≤ 100)
      × (x.rates.cancellation_rate ≤ 100)
      × (x.rates.utilization ≤ 100)

  pub rate-le : IsNearest percent → (part whole : ℕ) → part ≤ whole → rate part whole ≤ 100
  rate-le nearest part whole h = elim (Bool-cases (ltb 0 whole)) [
    | inl e ↦ ground (arith, percent-le percent nearest part whole (ground arith) h)
    | inr e ↦ ground arith
  ]

  -- The totals of a provider's figures, when the queries succeed: the total is the sum of the
  -- completed, the cancelled, those not shown up and those still booked; and the figure `booked`
  -- counts the completed too.
  pub get_analytics-totals :
      (provider_id : ℕ) (range : Range) (rows : List (Row f)) (figures : Figures)
      → get_analytics false (some provider_id) range rows ≡ some figures
      → figures.is_error ≡ false
      → let mine = rows_of provider_id range rows in
        let still_booked = count_rows f (has_status f BookingStatus.booked) mine in
        let t = figures.totals in
        (t.total ≡ still_booked + t.completed + t.cancelled + t.no_show)
        × (t.booked ≡ still_booked + t.completed)
  unfolding get_analytics
  get_analytics-totals provider_id range rows figures h ok =
      ground (arith, count-statuses f (rows_of provider_id range rows))

  rates_of-AllRates :
      IsNearest percent
      → (range : Range) (mine latest : List (Row f))
      → AllRates (record {
        range = range;
        totals = totals_of mine;
        rates = rates_of (totals_of mine) latest;
        bookings = latest;
        is_error = false;
      })
  rates_of-AllRates nearest range mine latest =
      let t = totals_of mine in
      let finished = t.completed + t.cancelled + t.no_show in
      let opened = count_rows f (is_slot_open f) latest in
      let booked = count_rows f (is_slot_booked f) latest in
      (
        rate-le nearest t.completed finished (omega arith),
        rate-le nearest t.cancelled finished (omega arith),
        rate-le nearest booked (opened + booked) (omega arith),
      )

  -- Every rate of any answer is at most 100, whatever fails, if the rounding gives a nearest number.
  pub get_analytics-rates :
      (database_fails : Bool) (session : Option ℕ) (range : Range) (rows : List (Row f))
      (figures : Figures)
      → IsNearest percent
      → get_analytics database_fails session range rows ≡ some figures
      → (figures.rates.completion_rate ≤ 100)
        × (figures.rates.cancellation_rate ≤ 100)
        × (figures.rates.utilization ≤ 100)
  unfolding get_analytics
  get_analytics-rates fails none range rows figures nearest h = ground arith
  get_analytics-rates fails (some id) range rows figures nearest h =
      let mine = rows_of id range rows in
      subst (Holds AllRates) h (
        if_ind (Holds AllRates) (fails || not (is_date range.start && is_date range.end))
          (λ e. (omega arith, omega arith, omega arith))
          (λ e. rates_of-AllRates nearest range mine (take_first f 200 (newest_first f mine))))
