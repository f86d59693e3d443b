-- ===== src/Tests/Answers.antt =====
-- The controller's handlers, the lifecycle services, and the job queue.
use chronos_appointment_sche.Base.{◌≡◌, ◌↔◌, refl, true, some, lookup, inr}
use chronos_appointment_sche.Schema.{Booking, BookingStatus, SlotStatus, Tables}
use chronos_appointment_sche.Schema.Live.{live_count, status_of}
use chronos_appointment_sche.Schema.Statements.{set_slot, set_booking}
use chronos_appointment_sche.Schema.World.{ok, one_client}
use chronos_appointment_sche.Bookings.Controller.{updated, no_content}
use chronos_appointment_sche.Bookings.Controller.Status.{decline_handler}
use chronos_appointment_sche.Bookings.Controller.Status.Laws.{
  FinishEnds, decline_handler-FinishEnds,
}
use chronos_appointment_sche.Bookings.Controller.Status.Slots.{decline_handler_strands_slot}
use chronos_appointment_sche.Bookings.Controller.Cancel.{cancel_handler}
use chronos_appointment_sche.Bookings.Controller.Cancel.Laws.{CancelEnds, cancel_handler-CancelEnds}
use chronos_appointment_sche.Bookings.Lifecycle.{CancelRequest, evaluate_cancellation}
use chronos_appointment_sche.Bookings.Prisma.{cancel, moved_to}
use chronos_appointment_sche.Bookings.Prisma.Laws.{cancel-evaluate_cancellation}
use chronos_appointment_sche.Reminders.Queue.{cancel_for_booking}
use chronos_appointment_sche.Reminders.Queue.Laws.{
  CancelJobsEnds, cancel_for_booking-CancelJobsEnds,
}
use chronos_appointment_sche.Bookings.Controller.Reads.{BookingView, view_of}
use chronos_appointment_sche.Tests.Data.{
  controller_env, world, tables, tables-IsConsistent, queue, booking_of, held_slot,
}

cancels : (cancel_handler controller_env one_client (some 7) 1 20 world).0 ≡ ok no_content
unfolding cancel_handler evaluate_cancellation
cancels = refl

cancel_handler-CancelEnds_example :
    CancelEnds controller_env one_client 7 1 20 tables
      (cancel_handler controller_env one_client (some 7) 1 20 world)
cancel_handler-CancelEnds_example =
    cancel_handler-CancelEnds controller_env one_client 7 1 20 world refl

decline_handler-FinishEnds_example :
    FinishEnds controller_env BookingStatus.cancelled
      (λ _. some controller_env.now)
      7
      20
      tables
      (decline_handler controller_env (some 7) 20 world)
decline_handler-FinishEnds_example = decline_handler-FinishEnds controller_env 7 20 world refl

declines :
    (decline_handler controller_env (some 7) 20 world).0 ≡ ok (updated 20 BookingStatus.cancelled 2)
unfolding decline_handler cancel_for_booking chronos_appointment_sche.Reminders.Queue.remove_all
    chronos_appointment_sche.Reminders.Queue.remove_from_queue
declines = refl

decline_handler_strands_slot_example :
    (row : Booking) × (lookup 20 tables.bookings ≡ some row)
    × (live_count row.slot_id (decline_handler controller_env (some 7) 20 world).1.tables.bookings
        ≡ 0)
    × (status_of
          (lookup row.slot_id (decline_handler controller_env (some 7) 20 world).1.tables.slots)
        ≡ some SlotStatus.booked)
decline_handler_strands_slot_example =
    decline_handler_strands_slot controller_env 7 20 2 world refl tables-IsConsistent declines

abbrev in_time : CancelRequest
in_time = record {
  if_match = 1;
  now = 100000000;
  cancellation_window_hours = 24;
  slot_start = 186400000;
}

abbrev after_cancel : Tables
after_cancel =
    set_slot SlotStatus.opened 12 (set_booking (moved_to BookingStatus.cancelled 1) 20 tables)

cancel-evaluate_cancellation_example : (cancel 100000000 20 24 tables ≡ inr after_cancel) ↔ (
    (evaluate_cancellation
      (record {
        if_match = 1;
        now = 100000000;
        cancellation_window_hours = 24;
        slot_start = 1500000000;
      })
      BookingStatus.booked
      1).allowed
    ≡ true)
cancel-evaluate_cancellation_example =
    cancel-evaluate_cancellation 100000000 20 24 tables {b = booking_of 12 7} {s = held_slot} refl
      refl

cancel_for_booking-CancelJobsEnds_example :
    CancelJobsEnds 20 tables (cancel_for_booking queue 20 world)
cancel_for_booking-CancelJobsEnds_example = cancel_for_booking-CancelJobsEnds queue 20 world

abbrev shown : BookingView
shown = view_of 20 (booking_of 12 7) held_slot
