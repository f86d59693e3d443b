-- ===== src/Figures/Reports.antt =====
-- apps/api/src/reports/reports.controller.ts. How a date is written is an argument. The query's column
-- `eventType.name` does not exist, so each line has the dash in its place; `rescheduleRate` is a
-- constant text and left out.
use chronos_appointment_sche.Base.{
  ℕ, ◌≤◌, ◌≡◌, refl, ap, subst, if_ind, Holds, Bool, true, false, Option, none, some, List, [], ◌∷◌,
  map, ◌&&◌, ◌||◌, not, if◌then◌else◌, arith, Bool-cases, inl, inr,
}
use chronos_appointment_sche.Schema.{BookingStatus}
use chronos_appointment_sche.Bookings.Lifecycle.{same_status}
use chronos_appointment_sche.Email.Token.{Text, is_empty}
use chronos_appointment_sche.Email.Gateway.{codes}
use chronos_appointment_sche.Figures.{
  Floats, EventType, Percent, IsNearest, Row, Range, is_date, take_first, newest_first, filter_rows,
  count_rows, has_status, price_or_zero, sum_from,
}
use chronos_appointment_sche.Figures.Rows.{count-le, count-take_first, count-filter}
use chronos_appointment_sche.Figures.Analytics.{rate, rows_of, rate-le}

abbrev pub email_or_unknown : Text → Text
email_or_unknown email = if is_empty email then codes "Unknown" else email

abbrev pub or_email : Option Text → Text → Text
or_email none email = email_or_unknown email
or_email (some name) email = if is_empty name then email_or_unknown email else name

abbrev pub client_name : Option (Option Text × Text) → Text
client_name none = codes "Unknown"
client_name (some (name, email)) = or_email name email

module _ (f : Floats) (percent : Percent) (day : ℕ → Text) where
  pub record Line : Type 0 where
    pub id : ℕ
    pub status : BookingStatus
    pub client : Text
    pub event_type : Text
    pub date : Text
    pub revenue : f.Float

  pub record Report : Type 0 where
    pub success : Bool
    pub total_revenue : f.Float
    pub completed_count : ℕ
    pub cancellation_rate : ℕ
    pub breakdown : List Line
    pub count : ℕ
    pub range : Range

  abbrev pub type_price : Option (EventType f) → Option f.Float
  type_price none = none
  type_price (some e) = e.price

  -- The price of the event type, where there is one that has a price.
  abbrev pub revenue_of : Row f → f.Float
  revenue_of r = elim r.event_type_id [
    | none ↦ f.zero_price
    | some id ↦ price_or_zero f (type_price r.event_type)
  ]

  -- `b.status === 'completed' || b.status === 'booked'`
  abbrev pub is_counted : BookingStatus → Bool
  is_counted s = same_status BookingStatus.completed s || same_status BookingStatus.booked s

  abbrev pub line_of : Row f → Line
  line_of r = record {
    id = r.id;
    status = r.status;
    client = client_name r.client;
    event_type = codes "—";
    date = day r.slot_start_utc;
    revenue = revenue_of r;
  }

  abbrev pub report_of : Range → List (Row f) → Report
  report_of range rows =
      let completed = filter_rows f (λ r. is_counted r.status) rows in
      let count = count_rows f (λ r. true) rows in
      record {
        success = true;
        total_revenue = sum_from f f.zero_price (map revenue_of completed);
        completed_count = count_rows f (λ r. true) completed;
        cancellation_rate =
            rate f percent (count_rows f (has_status f BookingStatus.cancelled) rows) count;
        breakdown = map line_of rows;
        count = count;
        range = range;
      }

  abbrev pub no_report : Range → Report
  no_report range = record {
    success = false;
    total_revenue = f.zero_price;
    completed_count = 0;
    cancellation_rate = 0;
    breakdown = [];
    count = 0;
    range = range;
  }

  -- GET /reports by a provider's session; `none` without one: 401.
  unfoldable pub get_reports :
      (database_fails : Bool) → (provider_id : Option ℕ) → Range → List (Row f) → Option Report
  get_reports database_fails none range rows = none
  get_reports database_fails (some provider_id) range rows =
      if database_fails || not (is_date range.start && is_date range.end)
      then some (no_report range)
      else some (
          report_of range
            (take_first f 500 (newest_first f (rows_of f percent provider_id range rows))))

  -- The revenue of the lines that are completed or booked.
  abbrev pub counted_revenue : List Line → List f.Float
  counted_revenue [] = []
  counted_revenue (l ∷ ls) =
      if is_counted l.status then l.revenue ∷ counted_revenue ls else counted_revenue ls

  counted_revenue-lines :
      (rows : List (Row f))
      → map revenue_of (filter_rows f (λ r. is_counted r.status) rows)
        ≡ counted_revenue (map line_of rows)
  counted_revenue-lines [] = refl
  counted_revenue-lines (r ∷ rows) = elim (Bool-cases (is_counted r.status)) [
    | inl e ↦ rw (e, counted_revenue-lines rows) refl
    | inr e ↦ rw (e, counted_revenue-lines rows) refl
  ]

  abbrev Sound : Report → Type 0
  Sound x =
      (x.total_revenue ≡ sum_from f f.zero_price (counted_revenue x.breakdown))
      × (x.completed_count ≤ x.count)
      × (x.count ≤ 500)
      × (x.cancellation_rate ≤ 100)

  report_of-Sound :
      IsNearest percent
      → (range : Range) (rows : List (Row f)) → Sound (report_of range (take_first f 500 rows))
  report_of-Sound nearest range rows =
      let taken = take_first f 500 rows in
      (
        ap (sum_from f f.zero_price) (counted_revenue-lines taken),
        rw (count-filter f (λ r. is_counted r.status) taken)
            (count-le f (λ r. is_counted r.status) taken),
        count-take_first f 500 rows,
        rate-le f percent nearest (count_rows f (has_status f BookingStatus.cancelled) taken)
            (count_rows f (λ r. true) taken)
            (count-le f (has_status f BookingStatus.cancelled) taken),
      )

  -- In every report, whatever fails, the revenue is the sum of the revenues of those of its own lines
  -- that are completed or booked; there are at most 500 lines, no more are counted as completed than
  -- there are, and the cancellation rate is at most 100, if the rounding gives a nearest number.
  pub get_reports_sound :
      (database_fails : Bool) (session : Option ℕ) (range : Range) (rows : List (Row f))
      (x : Report)
      → IsNearest percent
      → get_reports database_fails session range rows ≡ some x
      → (x.total_revenue ≡ sum_from f f.zero_price (counted_revenue x.breakdown))
        × (x.completed_count ≤ x.count)
        × (x.count ≤ 500)
        × (x.cancellation_rate ≤ 100)
  unfolding get_reports
  get_reports_sound fails none range rows x nearest h = ground arith
  get_reports_sound fails (some id) range rows x nearest h = subst (Holds Sound) h (
      if_ind (Holds Sound) (fails || not (is_date range.start && is_date range.end))
        (λ e. (refl, omega arith, omega arith, omega arith))
        (λ e. report_of-Sound nearest range (newest_first f (rows_of f percent id range rows))))
