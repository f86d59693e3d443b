-- ===== src/Reminders/Queue.antt =====
-- apps/api/src/reminders/reminder.queue.ts: the class ReminderQueueManager. The queue (BullMQ) is
-- outside the repository: a call of it is an effect, and its answers and failures are arguments.
-- Log lines are left out.
pub mod Frame
pub mod Laws
use chronos_appointment_sche.Base.{
  ℕ, ◌-◌, ◌*◌, Bool, Option, none, some, List, [], ◌∷◌, Table, lookup, adjust, adjust_where, select,
  find_first, ◌==◌, ltb, leb, if◌then◌else◌, ◌&&◌, ◌||◌,
}
use chronos_appointment_sche.Schema.{
  Tables, Booking, ReminderJob, ReminderJobStatus, is_booked, is_scheduled, is_sending,
}
use chronos_appointment_sche.Schema.Statements.{is_job_of}
use chronos_appointment_sche.Schema.World.{
  M, PgError, JobId, add_job, remove_job, pure, attempt, gets, catch, modify, emit, ◌>>=◌, ◌>>◌,
}

-- What fails during a call, by statement and offset, and which jobs the queue still holds.
pub record QueueEnv : Type 0 where
  pub skip_fails : ℕ → Option PgError
  pub find_fails : ℕ → Option PgError
  pub add_fails : JobId → Option PgError
  pub list_fails : Option PgError
  pub has_job : JobId → Bool
  pub remove_fails : JobId → Option PgError
  pub cancel_fails : Option PgError

abbrev pub set_job_status : ReminderJobStatus → ReminderJob → ReminderJob
set_job_status s j = record j { status = s }

abbrev pub set_jobs : (ReminderJob → Bool) → (ReminderJob → ReminderJob) → Tables → Tables
set_jobs p f t = record t { reminder_jobs = adjust_where p f t.reminder_jobs }

abbrev pub is_scheduled_job_of : ℕ → ℕ → ReminderJob → Bool
is_scheduled_job_of b off j = is_job_of b off j && is_scheduled j.status

abbrev pub is_active_job_of : ℕ → ReminderJob → Bool
is_active_job_of b j = j.booking_id == b && (is_scheduled j.status || is_sending j.status)

-- A time before the epoch reads as 0 here; it is past in either reading.
abbrev pub fire_time : ℕ → ℕ → ℕ
fire_time slot_start offset = slot_start - offset * 60000

module _ (env : QueueEnv) where
  -- The branch of the loop for a fire time that lies ahead.
  unfoldable pub enqueue_ahead : (booking_id offset delay : ℕ) → M (Unit {0})
  enqueue_ahead booking_id offset delay = do
    row ←
        attempt (env.find_fails offset)
          (gets λ t. find_first (is_scheduled_job_of booking_id offset) t.reminder_jobs)
    let job : JobId = record { booking_id = booking_id; offset = offset }
    elim row [
      | none ↦ pure tt
      | some (reminder_id, _) ↦ attempt (env.add_fails job) (emit (add_job job reminder_id delay))
    ]

  -- One round of the loop over the offsets.
  unfoldable pub enqueue_offset : (booking_id slot_start now offset : ℕ) → M (Unit {0})
  unfolding enqueue_ahead
  enqueue_offset booking_id slot_start now offset =
      if leb (fire_time slot_start offset) now
      then attempt (env.skip_fails offset) (
          modify (
            set_jobs (is_scheduled_job_of booking_id offset)
              (set_job_status ReminderJobStatus.skipped)))
      else enqueue_ahead booking_id offset (fire_time slot_start offset - now)

  unfoldable pub enqueue_for_booking :
      (booking_id slot_start : ℕ) → List ℕ → (now : ℕ) → M (Unit {0})
  enqueue_for_booking booking_id slot_start [] now = pure tt
  enqueue_for_booking booking_id slot_start (off ∷ offs) now =
      enqueue_offset booking_id slot_start now off
      >> enqueue_for_booking booking_id slot_start offs now

  -- getJob and remove, with the catch around them.
  unfoldable pub remove_from_queue : JobId → M (Unit {0})
  remove_from_queue job =
      catch
        (attempt (env.remove_fails job)
          (if env.has_job job then emit (remove_job job) else pure tt))
        (λ _. pure tt)

  unfoldable pub remove_all : ℕ → Table ReminderJob → M (Unit {0})
  remove_all booking_id [] = pure tt
  remove_all booking_id ((_, j) ∷ rows) =
      remove_from_queue (record { booking_id = booking_id; offset = j.offset_minutes })
      >> remove_all booking_id rows

  unfoldable pub cancel_for_booking : ℕ → M (Unit {0})
  cancel_for_booking booking_id = do
    rows ← attempt env.list_fails (gets λ t. select (is_active_job_of booking_id) t.reminder_jobs)
    remove_all booking_id rows
    attempt env.cancel_fails (
        modify
          (set_jobs (is_active_job_of booking_id) (set_job_status ReminderJobStatus.cancelled)))

  unfoldable pub cancel_reminder_job : (reminder_id booking_id offset : ℕ) → M (Unit {0})
  unfolding remove_from_queue
  cancel_reminder_job reminder_id booking_id offset = do
    remove_from_queue (record { booking_id = booking_id; offset = offset })
    attempt env.cancel_fails (
        modify λ t. record t {
          reminder_jobs =
              adjust reminder_id
                (λ j.
                  if is_scheduled j.status || is_sending j.status
                  then set_job_status ReminderJobStatus.cancelled j
                  else j)
                t.reminder_jobs;
        })

-- A row of the join of reminder_jobs, bookings and slots.
pub record Due : Type 0 where
  pub booking_id : ℕ
  pub offset_minutes : ℕ
  pub slot_start_utc : ℕ

-- ORDER BY slot_start_utc, offset_minutes DESC
abbrev comes_first : Due → Due → Bool
comes_first a b =
    ltb a.slot_start_utc b.slot_start_utc
    || (a.slot_start_utc == b.slot_start_utc && leb b.offset_minutes a.offset_minutes)

place : Due → List Due → List Due
place d [] = d ∷ []
place d (e ∷ es) = if comes_first d e then d ∷ e ∷ es else e ∷ place d es

join_slot : Tables → ReminderJob → Option Booking → Option Due
join_slot t j none = none
join_slot t j (some b) =
    if is_scheduled j.status && is_booked b.status
    then elim (lookup b.slot_id t.slots) [
      | none ↦ none
      | some s ↦ some (record {
        booking_id = j.booking_id;
        offset_minutes = j.offset_minutes;
        slot_start_utc = s.slot_start_utc;
      })
    ]
    else none

abbrev place_some : Option Due → List Due → List Due
place_some none ds = ds
place_some (some d) ds = place d ds

due_rows : Tables → Table ReminderJob → List Due
unfolding place join_slot
due_rows t [] = []
due_rows t ((_, j) ∷ jobs) =
    place_some (join_slot t j (lookup j.booking_id t.bookings)) (due_rows t jobs)

module _ (env : Due → QueueEnv) where
  reconcile_rows : ℕ → List Due → M (Unit {0})
  reconcile_rows now [] = pure tt
  reconcile_rows now (d ∷ ds) =
      catch (enqueue_for_booking (env d) d.booking_id d.slot_start_utc (d.offset_minutes ∷ []) now)
        (λ _. pure tt)
      >> reconcile_rows now ds

  unfoldable pub reconcile_scheduled_reminders : Option PgError → ℕ → M (Unit {0})
  unfolding due_rows reconcile_rows
  reconcile_scheduled_reminders query_fails now = do
    rows ← attempt query_fails (gets λ t. due_rows t t.reminder_jobs)
    reconcile_rows now rows
