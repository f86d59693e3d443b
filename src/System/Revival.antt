-- ===== src/System/Revival.antt =====
-- PATCH /bookings/:id/status looks at the new status only, never at the old one.
use chronos_appointment_sche.Base.{
  ℕ, ◌+◌, ◌≡◌, arith, true, false, none, some, lookup, adjust, ◌==◌, ==_refl, ◌++◌, ◌∷◌, [],
}
use chronos_appointment_sche.Schema.{Booking, BookingStatus, SlotStatus, is_live}
use chronos_appointment_sche.Schema.Live.{IsConsistent, live_count, status_of, live_count-adjust}
use chronos_appointment_sche.Schema.Statements.{set_booking}
use chronos_appointment_sche.Schema.World.{World, ok, release_client}
use chronos_appointment_sche.Bookings.Controller.{
  Env, Statement, StatusText, updated, connect, begin_tx, read_booking, write_booking, commit_tx,
}
use chronos_appointment_sche.Bookings.Controller.Status.{status_handler, update_row}

abbrev revived : Booking → Booking
revived b = record b { status = BookingStatus.booked; version = b.version + 1 }

module _ (env : Env) (client id : ℕ) (w : World) {b : Booking}
    (found : lookup id w.tables.bookings ≡ some b) (own : (b.client_id == client) ≡ true)
    (dead : is_live b ≡ false) (free : live_count b.slot_id w.tables.bookings ≡ 0) where
  revived-live_count : live_count b.slot_id (adjust id revived w.tables.bookings) ≡ 1
  revived-live_count = ground (
    arith,
    live_count-adjust b.slot_id id revived w.tables.bookings {b = b} found,
    ==_refl b.slot_id,
  )

  status_handler-revived :
      ((s : Statement) → env.fails s ≡ none)
      → status_handler env (some client) id StatusText.booked w ≡ (
        ok (updated id BookingStatus.booked (b.version + 1)),
        record w {
          tables = set_booking revived id w.tables;
          saved = none;
          effects = w.effects ++ release_client ∷ [];
        },
      )
  unfolding status_handler update_row
  status_handler-revived quiet = ground (
    arith,
    quiet connect,
    quiet begin_tx,
    quiet read_booking,
    quiet write_booking,
    quiet commit_tx,
    revived-live_count,
  )

-- PATCH status 'booked' on a cancelled booking of the client, whose slot is open and holds no other
-- live booking, when no statement fails: the answer is the new status, and afterwards slots and
-- bookings are not consistent, since the booking is live on a slot that is still open to others.
pub status_handler_breaks :
    (env : Env) (client id : ℕ) (w : World) {b : Booking}
    → lookup id w.tables.bookings ≡ some b
    → (b.client_id == client) ≡ true
    → is_live b ≡ false
    → live_count b.slot_id w.tables.bookings ≡ 0
    → status_of (lookup b.slot_id w.tables.slots) ≡ some SlotStatus.opened
    → ((s : Statement) → env.fails s ≡ none)
    → ((status_handler env (some client) id StatusText.booked w).0
        ≡ ok (updated id BookingStatus.booked (b.version + 1)))
      × ¬ IsConsistent (status_handler env (some client) id StatusText.booked w).1.tables
status_handler_breaks env client id w {b} found own dead free vacant quiet =
    let run = status_handler-revived env client id w {b = b} found own dead free quiet in
    let once = revived-live_count env client id w {b = b} found own dead free in
    (ground (arith, run), λ v. ground (arith, run, once, v.marked b.slot_id, vacant))
