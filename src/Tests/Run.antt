-- ===== src/Tests/Run.antt =====
-- A run of the service, a booking that is revived, and one that must succeed.
use chronos_appointment_sche.Base.{◌≡◌, refl, none, some, ◌∷◌, [], arith, lookup}
use chronos_appointment_sche.Schema.{Tables, Booking, BookingStatus}
use chronos_appointment_sche.Schema.Live.{IsConsistent, live_count}
use chronos_appointment_sche.Schema.World.{ok, one_client}
use chronos_appointment_sche.Bookings.Controller.{updated, create_handler, StatusText}
use chronos_appointment_sche.Bookings.Controller.Cancel.{cancel_handler}
use chronos_appointment_sche.Bookings.Controller.Status.{status_handler}
use chronos_appointment_sche.System.{fresh, Reach, here, next, cancel, create, remind}
use chronos_appointment_sche.System.Safety.{Reach-IsConsistent}
use chronos_appointment_sche.System.Revival.{status_handler_breaks}
use chronos_appointment_sche.Schema.Statements.{find_key}
use chronos_appointment_sche.Bookings.Outcome.{created}
use chronos_appointment_sche.Bookings.Create
use chronos_appointment_sche.Bookings.Create.{create_booking, new_booking}
use chronos_appointment_sche.Bookings.Create.Checks.{notice_of}
use chronos_appointment_sche.Bookings.Create.Succeeds.{CanBook, create_booking_succeeds}
use chronos_appointment_sche.Reminders.Worker
use chronos_appointment_sche.Tests.Data.{
  controller_env, world, free_slot, create_env, request, worker_env, tables, tables-IsConsistent,
  booking_of,
}

-- Booking 20 is cancelled, slot 10 is booked, and reminder 31 runs.
abbrev after_cancel : Tables
after_cancel = (cancel_handler controller_env one_client (some 7) 1 20 (fresh tables)).1.tables

abbrev after_create : Tables
after_create =
    (create_handler controller_env create_env (some 7) request (fresh after_cancel)).1.tables

abbrev after_reminder : Tables
after_reminder = (Worker.process worker_env (some 31) (fresh after_create)).1.tables

abbrev run : Reach tables after_reminder
run =
    next
      (next (next here (cancel controller_env one_client (some 7) 1 20 refl))
        (create controller_env create_env (some 7) request refl refl))
      (remind worker_env (some 31) refl)

Reach-IsConsistent_example : IsConsistent after_reminder
Reach-IsConsistent_example = Reach-IsConsistent tables after_reminder run tables-IsConsistent

abbrev declined : Booking
declined = record (booking_of 10 7) { status = BookingStatus.cancelled; version = 2 }

abbrev opened_tables : Tables
opened_tables = record tables { bookings = (20, declined) ∷ [] }

status_handler_breaks_example :
    ((status_handler controller_env (some 7) 20 StatusText.booked (fresh opened_tables)).0
      ≡ ok (updated 20 BookingStatus.booked 3))
    × ¬ IsConsistent
        (status_handler controller_env (some 7) 20 StatusText.booked (fresh opened_tables)).1.tables
unfolding live_count
status_handler_breaks_example =
    status_handler_breaks controller_env 7 20 (fresh opened_tables) {b = declined} refl refl refl
      refl refl (λ s. refl)

abbrev calm_env : Create.Checks.Env
calm_env = record create_env { queue = none }

calm-CanBook : CanBook calm_env (record request { provider_id = none }) tables free_slot
unfolding notice_of find_key
calm-CanBook = record {
  slot = refl;
  bookable = refl;
  client = refl;
  provider = refl;
  untyped = refl;
  new_booking_id = refl;
  new_job_id = λ offset. ground arith;
  new_job = λ offset. refl;
  two_job_ids = refl;
  unused_key = λ key. refl;
  quiet = λ s. refl;
  no_queue = refl;
  one_connection = refl;
}

create_booking_succeeds_example :
    ((create_booking calm_env request world).0 ≡ ok (created 21))
    × (lookup 21 (create_booking calm_env request world).1.tables.bookings
        ≡ some (new_booking request))
create_booking_succeeds_example =
    create_booking_succeeds calm_env request free_slot world calm-CanBook tables-IsConsistent
