-- ===== src/Bookings/Create/Faults.antt =====
-- Two faults of createBooking, each for the whole class of calls that show it.
use chronos_appointment_sche.Base.{ℕ, ◌≡◌, ◌≢◌, true, none, some, arith, lookup}
use chronos_appointment_sche.Schema.{Slot, BookingRequest, SlotStatus}
use chronos_appointment_sche.Schema.Statements.{set_slot}
use chronos_appointment_sche.Schema.World.{World, ok, err, PgError, one_client, scattered}
use chronos_appointment_sche.Bookings.Outcome.{conflict_or_bad}
use chronos_appointment_sche.Bookings.Create.Checks.{Env, insert_row}
use chronos_appointment_sche.Bookings.Create.{
  write_rows, new_booking, is_bookable, claimed, book, after_commit,
}
use chronos_appointment_sche.Bookings.Create.Checks.{begin_tx, claim}
use chronos_appointment_sche.Bookings.Create.Atomic.{
  claimed_world, after_commit-with_queue, conflict_or_bad-status,
}
use chronos_appointment_sche.Bookings.Create.Writes.{write_rows-Written}

module _ (env : Env) (req : BookingRequest) (notice : ℕ) (w : World) (s : Slot) (x : PgError) where
  -- The calls of the queue manager stand after the COMMIT in the same `try`: if they raise, on one
  -- connection, the answer has not status 201, and the booking is in the table.
  pub book_refused_but_booked :
      env.connection ≡ one_client
      → lookup req.slot_id w.tables.slots ≡ some s
      → is_bookable env.now notice s ≡ true
      → env.fails begin_tx ≡ none
      → env.fails claim ≡ none
      → (write_rows env req s (claimed_world req w)).0 ≡ ok tt
      → (after_commit env req (write_rows env req s (claimed_world req w)).1).0 ≡ err x
      → ((book env req notice w).0 ≡ ok (conflict_or_bad x))
        × ((conflict_or_bad x).status ≢ 201)
        × (lookup env.booking_id (book env req notice w).1.tables.bookings ≡ some (new_booking req))
  unfolding book claimed
  book_refused_but_booked c found free fb fc wrote raised = ground (
    arith,
    conflict_or_bad-status x,
    write_rows-Written env req s (claimed_world req w),
    after_commit-with_queue env req (write_rows env req s (claimed_world req w)).1,
  )

  -- The controller passes its pool. Where its statements go to different connections, a failed
  -- INSERT of the booking leaves the slot marked booked, and no booking is written.
  pub book_scattered_strands_slot :
      env.connection ≡ scattered
      → w.saved ≡ none
      → lookup req.slot_id w.tables.slots ≡ some s
      → is_bookable env.now notice s ≡ true
      → env.fails begin_tx ≡ none
      → env.fails claim ≡ none
      → env.fails insert_row ≡ some x
      → book env req notice w ≡ (
        ok (conflict_or_bad x),
        record w { tables = set_slot SlotStatus.booked req.slot_id w.tables },
      )
  unfolding book claimed write_rows
  book_scattered_strands_slot c n found free fb fc fi = ground arith
