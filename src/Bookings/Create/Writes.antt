-- ===== src/Bookings/Create/Writes.antt =====
-- What the statements of createBooking's transaction change.
use chronos_appointment_sche.Base.{ℕ, ◌≡◌, refl, false, Option, none, some, List, [], ◌∷◌, arith}
use chronos_appointment_sche.Schema.{Tables, Slot, BookingRequest, booking, IdempotencyKey}
use chronos_appointment_sche.Schema.Statements.{insert_reminder_job, collides}
use chronos_appointment_sche.Schema.World.{World, Result, ok, err}
use chronos_appointment_sche.Reminders.Queue.{fire_time}
use chronos_appointment_sche.Bookings.Create.Checks.{Env}
use chronos_appointment_sche.Bookings.Create.{
  insert_jobs, insert_key_row, write_rows, new_booking, new_job,
}

-- The world with another table of reminder jobs.
abbrev pub with_jobs : World → World → World
with_jobs w w' = record w { tables = record (w.tables) { reminder_jobs = w'.tables.reminder_jobs } }

pub insert_jobs-with_jobs :
    (env : Env) (start : ℕ) (offs : List ℕ) (w : World)
    → (insert_jobs env start offs w).1 ≡ with_jobs w (insert_jobs env start offs w).1
unfolding insert_jobs
insert_jobs-with_jobs env start [] w = refl
insert_jobs-with_jobs env start (off ∷ offs) w = ground (
  arith,
  insert_jobs-with_jobs env start offs w,
  insert_jobs-with_jobs env start offs
      (insert_reminder_job (env.job_id off) (new_job env.booking_id off (fire_time start off)) w).1,
)

-- The row that the request stores under its idempotency key.
abbrev pub key_row : Env → BookingRequest → ℕ → IdempotencyKey
key_row env req k = record {
  client_id = req.client_id;
  key = k;
  request_hash = booking req;
  booking_id = env.booking_id;
}

abbrev pub with_key : Env → BookingRequest → Option ℕ → List IdempotencyKey → List IdempotencyKey
with_key env req none keys = keys
with_key env req (some k) keys = key_row env req k ∷ keys

-- The tables after the INSERTs, but for the reminder jobs.
abbrev pub with_rows : Env → BookingRequest → Tables → Tables → Tables
with_rows env req t t' = record t {
  bookings = (env.booking_id, new_booking req) ∷ t.bookings;
  reminder_jobs = t'.reminder_jobs;
  idempotency_keys = with_key env req req.idempotency_key t.idempotency_keys;
}

-- The world after the booking's INSERT.
abbrev pub with_booking : Env → BookingRequest → World → World
with_booking env req w = record w {
  tables = record (w.tables) { bookings = (env.booking_id, new_booking req) ∷ w.tables.bookings };
}

-- What the writes leave, by how they end.
abbrev pub Written : Env → BookingRequest → World → Result (Unit {0}) × World → Type 0
Written env req w (ok _, w') =
    (w'
      ≡ record { tables = with_rows env req w.tables w'.tables; saved = none; effects = w.effects })
    × (collides env.booking_id (new_booking req) w.tables ≡ false)
Written env req w (err e, w') = (w'.saved ≡ w.saved) × (w'.effects ≡ w.effects)

pub write_rows-Written :
    (env : Env) (req : BookingRequest) (slot : Slot) (w : World)
    → Written env req w (write_rows env req slot w)
unfolding write_rows insert_key_row
write_rows-Written env req slot w =
    ground (
      arith,
      insert_jobs-with_jobs env slot.slot_start_utc (1440 ∷ 60 ∷ []) (with_booking env req w),
    )
