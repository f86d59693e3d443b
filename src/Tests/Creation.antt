-- ===== src/Tests/Creation.antt =====
-- Creating a booking.
use chronos_appointment_sche.Base.{◌≤◌, ◌≡◌, ◌≢◌, refl, Option, some, none, arith, lookup}
use chronos_appointment_sche.Schema.{Slot, SlotStatus, BookingStatus, Booking}
use chronos_appointment_sche.Schema.Live.{IsConsistent, live_count}
use chronos_appointment_sche.Schema.World.{PgError, ok, scattered, other_error}
use chronos_appointment_sche.Schema.Statements.{set_slot}
use chronos_appointment_sche.Bookings.Outcome.{
  created, replayed, refused, idempotency_key_reuse, bad_request, same_request,
}
use chronos_appointment_sche.Bookings.Create
use chronos_appointment_sche.Bookings.Create.{
  create_booking, book, new_booking, write_rows, after_commit,
}
use chronos_appointment_sche.Bookings.Create.Checks.{
  event_type_error, insert_row, begin_tx, claim, Statement,
}
use chronos_appointment_sche.Bookings.Create.Ended.{Ended, create_booking-Ended}
use chronos_appointment_sche.Bookings.Create.Consistent.{create_booking-IsConsistent}
use chronos_appointment_sche.Bookings.Create.Retry.{
  create_booking_retried, create_booking_key_reused,
}
use chronos_appointment_sche.Bookings.Create.Faults.{
  book_refused_but_booked, book_scattered_strands_slot,
}
use chronos_appointment_sche.Tests.Data.{
  create_env, request, world, tables, tables-IsConsistent, free_slot, queue,
}

creates : (create_booking create_env request world).0 ≡ ok (created 21)
unfolding create_booking Create.unless_refused Create.answer_or_book book Create.claimed write_rows
    Create.insert_jobs Create.insert_key_row after_commit Create.enqueue_jobs same_request
    event_type_error chronos_appointment_sche.Bookings.Create.Checks.configured_notice
    chronos_appointment_sche.Bookings.Create.Checks.notice_lookup
    chronos_appointment_sche.Bookings.Create.Checks.notice_of
    chronos_appointment_sche.Bookings.Create.Checks.notice_query
    chronos_appointment_sche.Bookings.Create.Checks.key_check
    chronos_appointment_sche.Schema.Statements.find_key
    chronos_appointment_sche.Schema.Statements.collides
    chronos_appointment_sche.Schema.Statements.has_references
    chronos_appointment_sche.Reminders.Queue.enqueue_for_booking
    chronos_appointment_sche.Reminders.Queue.enqueue_offset
    chronos_appointment_sche.Reminders.Queue.enqueue_ahead
creates = refl

create_booking-Ended_example :
    Ended create_env request world (create_booking create_env request world)
create_booking-Ended_example = create_booking-Ended create_env request world refl refl

create_booking-IsConsistent_example :
    IsConsistent (create_booking create_env request world).1.tables
create_booking-IsConsistent_example =
    create_booking-IsConsistent create_env request world refl refl tables-IsConsistent

held : 1 ≤ live_count 12 tables.bookings
unfolding live_count
held = ground arith

create_booking_retried_example :
    create_booking create_env request (create_booking create_env request world).1
    ≡ (ok (replayed 21), (create_booking create_env request world).1)
unfolding event_type_error
create_booking_retried_example =
    create_booking_retried create_env create_env request 5 world refl refl refl creates refl refl

create_booking_key_reused_example :
    create_booking create_env
      (record request { slot_id = 11 })
      (create_booking create_env request world).1
    ≡ (ok (refused 422 idempotency_key_reuse), (create_booking create_env request world).1)
unfolding event_type_error same_request
create_booking_key_reused_example =
    create_booking_key_reused create_env create_env request (record request { slot_id = 11 }) 5
      world refl refl refl creates refl refl refl refl refl

-- A queue that cannot be reached.
abbrev queue_down : Create.Checks.Env
queue_down = record create_env {
  queue = some (record queue { add_fails = λ _. some (other_error 1) });
}

book_refused_but_booked_example :
    ((book queue_down request 2 world).0 ≡ ok (refused 400 (bad_request (other_error 1))))
    × ((refused 400 (bad_request (other_error 1))).status ≢ 201)
    × (lookup 21 (book queue_down request 2 world).1.tables.bookings ≡ some (new_booking request))
unfolding write_rows after_commit chronos_appointment_sche.Schema.Statements.collides
    chronos_appointment_sche.Schema.Statements.has_references Create.insert_jobs
    Create.insert_key_row chronos_appointment_sche.Schema.Statements.find_key
    chronos_appointment_sche.Reminders.Queue.enqueue_for_booking
    chronos_appointment_sche.Reminders.Queue.enqueue_offset
book_refused_but_booked_example =
    book_refused_but_booked queue_down request 2 world free_slot (other_error 1) refl refl refl refl
      refl refl refl

-- An INSERT that fails, each statement on a connection of its own.
abbrev no_insert : Statement → Option PgError
no_insert insert_row = some (other_error 2)
no_insert _ = none

abbrev insert_down : Create.Checks.Env
insert_down = record create_env { connection = scattered; fails = no_insert }

book_scattered_strands_slot_example : book insert_down request 2 world ≡ (
  ok (refused 400 (bad_request (other_error 2))),
  record world { tables = set_slot SlotStatus.booked 10 tables },
)
book_scattered_strands_slot_example =
    book_scattered_strands_slot insert_down request 2 world free_slot (other_error 2) refl refl refl
      refl refl refl refl
