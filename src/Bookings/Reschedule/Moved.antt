-- ===== src/Bookings/Reschedule/Moved.antt =====
-- The second transaction of rescheduleBooking: all of the move, or nothing.
use chronos_appointment_sche.Base.{
  ◌≡◌, ◌≢◌, refl, sym, subst, true, none, some, arith, ◌⊎◌, inl, inr, lookup, adjust, Table,
}
use chronos_appointment_sche.Schema.{Tables, Slot, Booking, RescheduleRequest, SlotStatus}
use chronos_appointment_sche.Schema.Statements.{set_slot}
use chronos_appointment_sche.Schema.World.{
  M, Result, World, ok, err, pure, catch, rollback, ◌>>◌, Result-cases,
}
use chronos_appointment_sche.Bookings.Outcome.{BookingResult, created, conflict_or_bad}
use chronos_appointment_sche.Bookings.Reschedule.Checks.{Env, row_refusal}
use chronos_appointment_sche.Bookings.Reschedule.{move_rows, move_jobs, after_move, moved, is_ahead}
use chronos_appointment_sche.Bookings.Create.Atomic.{conflict_or_bad-status}
use chronos_appointment_sche.Bookings.Reschedule.Writes.{
  moved_slots, moved_bookings, move_rows-RowsMoved, move_jobs-JobsMoved, after_move-ok,
}

abbrev pub marked_slots : RescheduleRequest → Tables → Table Slot
marked_slots req t = adjust req.new_slot_id (λ r. record r { status = SlotStatus.booked }) t.slots

-- The move of a booking from the tables `t` to the tables `t'`.
pub record Moved (env : Env) (req : RescheduleRequest) (t t' : Tables) : Type 0 where
  pub old : Booking
  pub found : lookup req.booking_id t.bookings ≡ some old
  pub accepted : row_refusal req (some old) ≡ none
  pub slot : Slot
  pub slot_found : lookup req.new_slot_id t.slots ≡ some slot
  pub ahead : is_ahead env.now slot ≡ true
  pub parsed : env.instant_fails ≡ none
  pub slots : t'.slots ≡ moved_slots req old (marked_slots req t)
  pub bookings : t'.bookings ≡ moved_bookings env req old t.bookings

-- How the move ends: nothing changed and no 201, or all of it is there and the answer is 201.
abbrev pub MoveEnds : Env → RescheduleRequest → Tables → Result BookingResult × World → Type 0
MoveEnds env req t (err e, w') = w'.tables ≡ t
MoveEnds env req t (ok r, w') =
    ((w'.tables ≡ t) × (r.status ≢ 201))
    ⊎ (Moved env req t w'.tables × (r ≡ created env.booking_id))

abbrev pub conflict_answer : M BookingResult → M BookingResult
conflict_answer m = catch m (λ e. rollback >> pure (conflict_or_bad e))

abbrev pub claimed_world : RescheduleRequest → World → World
claimed_world req w = record w {
  tables = set_slot SlotStatus.booked req.new_slot_id w.tables;
  saved = some w.tables;
}

module _ (env : Env) (req : RescheduleRequest) (w : World) (b : Booking) (s : Slot)
    (found : lookup req.booking_id w.tables.bookings ≡ some b)
    (accepted : row_refusal req (some b) ≡ none)
    (slot_found : lookup req.new_slot_id w.tables.slots ≡ some s)
    (ahead : is_ahead env.now s ≡ true) where
  abbrev rows_world : World
  rows_world = (move_rows env req b (claimed_world req w)).1

  abbrev jobs_world : World
  jobs_world = (move_jobs env req b s rows_world).1

  abbrev done_world : World
  done_world = (after_move env req b s jobs_world).1

  done_world-Moved :
      (move_rows env req b (claimed_world req w)).0 ≡ ok tt
      → (move_jobs env req b s rows_world).0 ≡ ok tt
      → Moved env req w.tables done_world.tables
  done_world-Moved e f = record {
    old = b;
    found = found;
    accepted = accepted;
    slot = s;
    slot_found = slot_found;
    ahead = ahead;
    parsed = ground (arith, move_jobs-JobsMoved env req b s rows_world);
    slots = ground (
      arith,
      after_move-ok env req b s jobs_world,
      move_jobs-JobsMoved env req b s rows_world,
      move_rows-RowsMoved env req b (claimed_world req w),
    );
    bookings = ground (
      arith,
      after_move-ok env req b s jobs_world,
      move_jobs-JobsMoved env req b s rows_world,
      move_rows-RowsMoved env req b (claimed_world req w),
    );
  }

  pub moved-MoveEnds :
      MoveEnds env req w.tables (conflict_answer (moved env req b (some s)) (claimed_world req w))
  unfolding moved
  moved-MoveEnds = elim (Result-cases (move_rows env req b (claimed_world req w)).0) [
    | inl (u, e) ↦ elim (Result-cases (move_jobs env req b s rows_world).0) [
      | inl (v, f) ↦
          ends (ok (created env.booking_id), done_world)
            (ground (arith, after_move-ok env req b s jobs_world))
            (inr (done_world-Moved e f, refl))
      | inr (x, f) ↦
          ends (ok (conflict_or_bad x), record jobs_world { tables = w.tables; saved = none })
            (ground (
              arith,
              move_jobs-JobsMoved env req b s rows_world,
              move_rows-RowsMoved env req b (claimed_world req w),
            ))
            (inl (refl, conflict_or_bad-status x))
    ]
    | inr (x, e) ↦
        ends (ok (conflict_or_bad x), record rows_world { tables = w.tables; saved = none })
          (ground (arith, move_rows-RowsMoved env req b (claimed_world req w)))
          (inl (refl, conflict_or_bad-status x))
  ]
    where
      ends :
          (out : Result BookingResult × World)
          → conflict_answer (moved env req b (some s)) (claimed_world req w) ≡ out
          → MoveEnds env req w.tables out
          → MoveEnds env req w.tables
              (conflict_answer (moved env req b (some s)) (claimed_world req w))
      ends out run h = subst (MoveEnds env req w.tables) (sym run) h
