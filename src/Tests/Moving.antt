-- ===== src/Tests/Moving.antt =====
-- Moving a booking.
use chronos_appointment_sche.Base.{◌≡◌, ◌≢◌, ◌+◌, refl, some, none}
use chronos_appointment_sche.Schema.World.{ok, other_error, one_client}
use chronos_appointment_sche.Bookings.Outcome.{created, refused, bad_request}
use chronos_appointment_sche.Bookings.Reschedule.{reschedule_booking}
use chronos_appointment_sche.Bookings.Reschedule.Whole.{reschedule_booking_rejects}
use chronos_appointment_sche.Bookings.Reschedule
use chronos_appointment_sche.Bookings.Reschedule.Refused
use chronos_appointment_sche.Bookings.Reschedule.Refused.{reschedule_booking-Unmoved}
use chronos_appointment_sche.Contracts
use chronos_appointment_sche.Contracts.Laws.{reschedule_booking_undone}
use chronos_appointment_sche.Tests.Data.{reschedule_env, reschedule_request, world, tables}

-- The driver's Date is refused, and the call answers 400.
refuses_the_date :
    (reschedule_booking reschedule_env reschedule_request world).0
    ≡ ok (refused 400 (bad_request (other_error 7)))
unfolding reschedule_booking chronos_appointment_sche.Bookings.Reschedule.window_and_move
    chronos_appointment_sche.Bookings.Reschedule.move
    chronos_appointment_sche.Bookings.Reschedule.transaction
    chronos_appointment_sche.Bookings.Reschedule.locked
    chronos_appointment_sche.Bookings.Reschedule.moved
    chronos_appointment_sche.Bookings.Reschedule.move_rows
    chronos_appointment_sche.Schema.Statements.collides
    chronos_appointment_sche.Schema.Statements.has_references
    chronos_appointment_sche.Bookings.Reschedule.move_jobs
    chronos_appointment_sche.Bookings.Reschedule.insert_jobs
    chronos_appointment_sche.Reminders.Queue.cancel_for_booking
    chronos_appointment_sche.Reminders.Queue.remove_all
    chronos_appointment_sche.Reminders.Queue.enqueue_for_booking
    chronos_appointment_sche.Reminders.Queue.enqueue_offset
refuses_the_date = refl

reschedule_booking-Unmoved_example :
    Reschedule.Refused.Unmoved reschedule_env tables
      (reschedule_booking reschedule_env reschedule_request world)
reschedule_booking-Unmoved_example =
    reschedule_booking-Unmoved reschedule_env reschedule_request world {x = other_error 7} refl refl

reschedule_booking_rejects_example :
    (reschedule_booking
      (record reschedule_env { release_twice = some (other_error 9) })
      reschedule_request
      world).0
    ≢ ok (created 21)
reschedule_booking_rejects_example =
    reschedule_booking_rejects (record reschedule_env { release_twice = some (other_error 9) })
      reschedule_request world (created 21) refl

-- The older rescheduleBooking on the same booking.
abbrev pooled_env : Contracts.Env
pooled_env = record {
  connection = one_client;
  now = 100000000;
  server_now = 100000000;
  booking_id = 21;
  job_id = λ offset. 100 + offset;
  fails = λ _. none;
  instant_fails = some (other_error 7);
}

reschedule_booking_undone_example :
    Contracts.Laws.Unmoved tables (Contracts.reschedule_booking pooled_env reschedule_request world)
reschedule_booking_undone_example =
    reschedule_booking_undone pooled_env reschedule_request world {x = other_error 7} refl refl refl
