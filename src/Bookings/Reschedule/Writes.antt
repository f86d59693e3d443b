-- ===== src/Bookings/Reschedule/Writes.antt =====
-- What the statements of rescheduleBooking's second transaction change.
use chronos_appointment_sche.Base.{
  ℕ, ◌≡◌, refl, Option, none, some, List, [], ◌∷◌, arith, Option-cases, inl, inr, ◌==◌, lookup,
  adjust, Table, select,
}
use chronos_appointment_sche.Schema.{
  Slot, Booking, RescheduleRequest, SlotStatus, ReminderJobStatus,
}
use chronos_appointment_sche.Schema.World.{M, Result, World, ok, err, PgError, with_queue}
use chronos_appointment_sche.Reminders.Queue.{
  QueueEnv, cancel_for_booking, set_jobs, set_job_status,
}
use chronos_appointment_sche.Reminders.Queue.Frame.{
  enqueue_for_booking-with_queue, cancel_for_booking-with_queue,
}
use chronos_appointment_sche.Bookings.Create.{offsets_of, scheduled_of}
use chronos_appointment_sche.Bookings.Reschedule.Checks.{Env}
use chronos_appointment_sche.Bookings.Reschedule.{
  insert_if_ahead, insert_jobs, insert_key_row, move_rows, move_jobs, moved_booking, cancel_at,
  after_move, write_notices, requeue_jobs, requeue, quietly,
}

insert_if_ahead-with_queue :
    (env : Env) (start off : ℕ) (w : World)
    → (insert_if_ahead env start off w).1 ≡ record w {
      tables = record (w.tables) {
        reminder_jobs = (insert_if_ahead env start off w).1.tables.reminder_jobs;
      };
    }
unfolding insert_if_ahead
insert_if_ahead-with_queue env start off w = ground arith

insert_jobs-with_queue :
    (env : Env) (start : ℕ) (offs : List ℕ) (w : World)
    → (insert_jobs env start offs w).1 ≡ record w {
      tables = record (w.tables) {
        reminder_jobs = (insert_jobs env start offs w).1.tables.reminder_jobs;
      };
    }
unfolding insert_jobs
insert_jobs-with_queue env start [] w = refl
insert_jobs-with_queue env start (off ∷ offs) w = elim (Option-cases env.instant_fails) [
  | inr (x, e) ↦ ground arith
  | inl e ↦ ground (
    arith,
    insert_if_ahead-with_queue env start off w,
    insert_jobs-with_queue env start offs w,
    insert_jobs-with_queue env start offs (insert_if_ahead env start off w).1,
  )
]

insert_jobs-refused :
    (env : Env) (start : ℕ) {x : PgError}
    → env.instant_fails ≡ some x
    → (w : World) → insert_jobs env start (1440 ∷ 60 ∷ []) w ≡ (err x, w)
unfolding insert_jobs
insert_jobs-refused env start h w = ground arith

-- The slots and bookings after the move of `b`.
abbrev pub moved_slots : RescheduleRequest → Booking → Table Slot → Table Slot
moved_slots req b slots = adjust b.slot_id (λ r. record r { status = SlotStatus.opened }) slots

abbrev pub moved_bookings : Env → RescheduleRequest → Booking → Table Booking → Table Booking
moved_bookings env req b bookings =
    (env.booking_id, moved_booking req b)
    ∷ adjust req.booking_id (cancel_at env.server_now) bookings

-- By how it ends, what `move_rows` leaves.
abbrev pub RowsMoved :
    Env → RescheduleRequest → Booking → World → Result (Unit {0}) × World → Type 0
RowsMoved env req b w (err e, w') = (w'.saved ≡ w.saved) × (w'.effects ≡ w.effects)
RowsMoved env req b w (ok _, w') = w' ≡ record w {
  tables = record (w.tables) {
    slots = moved_slots req b w.tables.slots;
    bookings = moved_bookings env req b w.tables.bookings;
  };
}

pub move_rows-RowsMoved :
    (env : Env) (req : RescheduleRequest) (b : Booking) (w : World)
    → RowsMoved env req b w (move_rows env req b w)
unfolding move_rows
move_rows-RowsMoved env req b w = ground arith

-- The same for `move_jobs`, which ends the transaction.
abbrev pub JobsMoved : Env → World → Result (Unit {0}) × World → Type 0
JobsMoved env w (err e, w') = (w'.saved ≡ w.saved) × (w'.effects ≡ w.effects)
JobsMoved env w (ok _, w') =
    (env.instant_fails ≡ none)
    × (w' ≡ record {
      tables = record (w.tables) {
        reminder_jobs = w'.tables.reminder_jobs;
        idempotency_keys = w'.tables.idempotency_keys;
      };
      saved = none;
      effects = w.effects;
    })

abbrev jobs_cancelled : RescheduleRequest → World → World
jobs_cancelled req w = record w {
  tables =
      set_jobs (λ j. j.booking_id == req.booking_id) (set_job_status ReminderJobStatus.cancelled)
        w.tables;
}

pub move_jobs-JobsMoved :
    (env : Env) (req : RescheduleRequest) (b : Booking) (slot : Slot) (w : World)
    → JobsMoved env w (move_jobs env req b slot w)
unfolding move_jobs insert_key_row
move_jobs-JobsMoved env req b slot w = elim (Option-cases env.instant_fails) [
  | inr (x, e) ↦
      ground (arith, insert_jobs-refused env slot.slot_start_utc {x = x} e (jobs_cancelled req w))
  | inl e ↦ ground (
    arith,
    insert_jobs-with_queue env slot.slot_start_utc (1440 ∷ 60 ∷ []) (jobs_cancelled req w),
  )
]

-- What the code after COMMIT changes: it never raises.
abbrev pub with_notices : World → World → World
with_notices w w' = record w {
  tables = record (w.tables) {
    reminder_jobs = w'.tables.reminder_jobs;
    activity = w'.tables.activity;
    notifications = w'.tables.notifications;
  };
  effects = w'.effects;
}

quietly-ok : (m : M (Unit {0})) (w : World) → quietly m w ≡ (ok tt, (m w).1)
quietly-ok m w = ground arith

write_notices-with_notices :
    (env : Env) (b : Booking) (slot : Slot) (w : World)
    → (write_notices env b slot w).1 ≡ with_notices w (write_notices env b slot w).1
unfolding write_notices
write_notices-with_notices env b slot w = ground arith

requeue_jobs-with_queue :
    (env : Env) (queue : QueueEnv) (o : Option Slot) (w : World)
    → (requeue_jobs env queue o w).1 ≡ with_queue w (requeue_jobs env queue o w).1
unfolding requeue_jobs
requeue_jobs-with_queue env queue none w = refl
requeue_jobs-with_queue env queue (some s) w = ground (
  arith,
  enqueue_for_booking-with_queue queue env.booking_id s.slot_start_utc
      (offsets_of (select (scheduled_of env.booking_id) w.tables.reminder_jobs)) env.clock w,
)

requeue-with_queue :
    (env : Env) (req : RescheduleRequest) (queue : QueueEnv) (w : World)
    → (requeue env req queue w).1 ≡ with_queue w (requeue env req queue w).1
unfolding requeue
requeue-with_queue env req queue w =
    ground (arith, requeue_jobs-with_queue env queue (lookup req.new_slot_id w.tables.slots) w)

pub after_move-ok :
    (env : Env) (req : RescheduleRequest) (b : Booking) (slot : Slot) (w : World)
    → after_move env req b slot w ≡ (ok tt, with_notices w (after_move env req b slot w).1)
unfolding after_move
after_move-ok env req b slot w = elim (Option-cases env.queue) [
  | inl e ↦
      ground
        (arith, quietly-ok (write_notices env b slot) w, write_notices-with_notices env b slot w)
  | inr (q, e) ↦
      let cancelled = (cancel_for_booking q req.booking_id w).1 in
      let noticed = (write_notices env b slot cancelled).1 in
      ground (
        arith,
        quietly-ok (cancel_for_booking q req.booking_id) w,
        quietly-ok (write_notices env b slot) cancelled,
        quietly-ok (requeue env req q) noticed,
        cancel_for_booking-with_queue q req.booking_id w,
        write_notices-with_notices env b slot cancelled,
        requeue-with_queue env req q noticed,
      )
]
