-- ===== src/Tests/Shown.antt =====
-- The figures of three bookings. Prices are whole numbers here.
use native.Mathlib.Nat.{mul-div-le, lt-div-mul-add, mul_assoc, mul_comm}
use chronos_appointment_sche.Base.{
  ℕ, ◌+◌, ◌*◌, ◌/◌, ◌≤◌, ◌≡◌, refl, false, Option, none, some, List, [], ◌∷◌, map, arith, Table,
}
use chronos_appointment_sche.Schema.{BookingStatus, SlotStatus}
use chronos_appointment_sche.Email.Token.{Text}
use chronos_appointment_sche.Email.Gateway.{codes}
use chronos_appointment_sche.Figures.{Floats, Percent, IsNearest, Row, Range, sum_from}
use chronos_appointment_sche.Figures.Analytics
use chronos_appointment_sche.Figures.Analytics.{
  get_analytics, get_analytics-totals, get_analytics-rates, totals_of, rates_of, rows_of,
}
use chronos_appointment_sche.Figures.Reports
use chronos_appointment_sche.Figures.Reports.{
  get_reports, get_reports_sound, counted_revenue, report_of,
}
use chronos_appointment_sche.Figures.Billing.{
  TypeRow, revenue_estimate, revenue_estimate_lem, price_in,
}

abbrev whole : Floats
whole = record { Float = ℕ; zero_price = 0; add = λ a b. a + b }

abbrev round : Percent
round a b = (200 * a + b) / (2 * b)

round-IsNearest : IsNearest round
round-IsNearest a b h = (
  omega (arith, mul-div-le (200 * a + b) (2 * b), mul_assoc 2 b (round a b)),
  omega (
    arith,
    lt-div-mul-add {a = 200 * a + b} {b = 2 * b} (omega arith),
    mul_comm (round a b) (2 * b),
    mul_assoc 2 b (round a b),
  ),
)

abbrev row_of : (id : ℕ) → BookingStatus → (created_at : ℕ) → Option ℕ → Row whole
row_of id s t event = record {
  id = id;
  slot_provider_id = 1;
  status = s;
  created_at = t;
  slot_status = SlotStatus.booked;
  slot_start_utc = 0;
  slot_end_utc = 60;
  client_id = some 7;
  client = some (some (codes "Ada"), codes "ada@x");
  event_type_id = event;
  event_type = some (record { title = codes "Call"; price = some 30 });
}

abbrev rows : List (Row whole)
rows =
    row_of 20 BookingStatus.booked 100 (some 4)
    ∷ row_of 21 BookingStatus.completed 200 (some 4)
    ∷ row_of 22 BookingStatus.cancelled 300 none
    ∷ []

abbrev all_time : Range
all_time = record { start = none; end = none }

abbrev shown : Analytics.Figures whole round
shown = record {
  range = all_time;
  totals = record { total = 3; completed = 1; cancelled = 1; no_show = 0; booked = 2 };
  rates = record { completion_rate = 50; cancellation_rate = 50; utilization = 100 };
  bookings =
      row_of 22 BookingStatus.cancelled 300 none
      ∷ row_of 21 BookingStatus.completed 200 (some 4)
      ∷ row_of 20 BookingStatus.booked 100 (some 4)
      ∷ [];
  is_error = false;
}

shows : get_analytics whole round false (some 1) all_time rows ≡ some shown
unfolding get_analytics
shows = refl

get_analytics-rates_example : (50 ≤ 100) × (50 ≤ 100) × (100 ≤ 100)
get_analytics-rates_example =
    get_analytics-rates whole round false (some 1) all_time rows shown round-IsNearest shows

abbrev day : ℕ → Text
day t = codes "1970-01-01"

abbrev report : Reports.Report whole round day
report = report_of whole round day all_time (shown.bookings)

reports : get_reports whole round day false (some 1) all_time rows ≡ some report
unfolding get_reports
reports = refl

revenue : report.total_revenue ≡ 60
revenue = refl

get_reports_sound_example :
    (report.total_revenue ≡ sum_from whole 0 (counted_revenue whole round day report.breakdown))
    × (report.completed_count ≤ report.count)
    × (report.count ≤ 500)
    × (report.cancellation_rate ≤ 100)
get_reports_sound_example =
    get_reports_sound whole round day false (some 1) all_time rows report round-IsNearest reports

abbrev types : Table (TypeRow whole)
types =
    (3, record { provider_id = 1; price = none })
    ∷ (4, record { provider_id = 1; price = some 30 })
    ∷ []

revenue_estimate_lem_example :
    revenue_estimate whole types rows ≡ sum_from whole 0 (map (price_in whole types) rows)
revenue_estimate_lem_example = revenue_estimate_lem whole types rows
