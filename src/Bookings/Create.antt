-- ===== src/Bookings/Create.antt =====
-- apps/api/src/bookings/bookings.service.ts: the transaction of createBooking, what follows its
-- COMMIT, and the whole function. A lost connection has its transaction undone by the server, so
-- ROLLBACK is taken to succeed.
pub mod Checks
pub mod Writes
pub mod Reads
pub mod Jobs
pub mod Atomic
pub mod Ended
pub mod Consistent
pub mod Retry
pub mod Faults
pub mod Succeeds
use chronos_appointment_sche.Base.{
  ℕ, ◌+◌, ◌*◌, Bool, Option, none, some, List, [], ◌∷◌, lookup, ltb, leb, map, Table, select,
  if◌then◌else◌, ◌&&◌, ◌==◌,
}
use chronos_appointment_sche.Schema.{
  Slot, Booking, BookingStatus, ReminderJob, ReminderJobStatus, BookingRequest, booking, is_opened,
  is_scheduled,
}
use chronos_appointment_sche.Schema.Statements.{
  claim_slot, insert_booking, insert_reminder_job, insert_key,
}
use chronos_appointment_sche.Schema.World.{
  M, PgError, pure, attempt, gets, catch, begin, commit, rollback, ◌>>=◌, ◌>>◌,
}
use chronos_appointment_sche.Bookings.Outcome.{
  BookingResult, ErrorCode, slot_unavailable, refused, created, conflict_or_bad,
}
use chronos_appointment_sche.Reminders.Queue.{QueueEnv, enqueue_for_booking, fire_time}
use Checks.{
  Env, begin_tx, claim, insert_row, insert_idempotency_row, commit_tx, insert_job, read_slot_start,
  read_jobs, configured_notice, event_type_error, key_check,
}

-- status = 'open' AND slot_start_utc >= now AND slot_start_utc >= now + notice
abbrev pub is_bookable : (now notice : ℕ) → Slot → Bool
is_bookable now notice s =
    is_opened s.status
    && (leb now s.slot_start_utc && leb (now + notice * 60 * 60 * 1000) s.slot_start_utc)

abbrev pub new_booking : BookingRequest → Booking
new_booking req = record {
  slot_id = req.slot_id;
  client_id = req.client_id;
  client_timezone = req.client_timezone;
  provider_id = req.provider_id;
  event_type_id = req.event_type_id;
  status = BookingStatus.booked;
  version = 1;
  cancelled_at = none;
}

abbrev pub new_job : (booking_id offset fire : ℕ) → ReminderJob
new_job booking_id offset fire = record {
  booking_id = booking_id;
  offset_minutes = offset;
  fire_at_utc = fire;
  status = ReminderJobStatus.scheduled;
  attempts = 0;
  locked_until = none;
  sent_at = none;
  provider_message_id = none;
  last_error = none;
}

unfoldable pub insert_key_row : Env → BookingRequest → M (Unit {0})
insert_key_row env req = elim req.idempotency_key [
  | none ↦ pure tt
  | some k ↦ attempt (env.fails insert_idempotency_row) (
      insert_key (record {
        client_id = req.client_id;
        key = k;
        request_hash = booking req;
        booking_id = env.booking_id;
      }))
]

-- The loop over the offsets: a job whose time is past is not written.
unfoldable pub insert_jobs : Env → (slot_start : ℕ) → List ℕ → M (Unit {0})
insert_jobs env slot_start [] = pure tt
insert_jobs env slot_start (off ∷ offs) =
    (if ltb env.clock (fire_time slot_start off)
      then attempt (env.fails (insert_job off)) (
          insert_reminder_job (env.job_id off)
            (new_job env.booking_id off (fire_time slot_start off)))
      else pure tt)
    >> insert_jobs env slot_start offs

-- From the INSERT of the booking to the COMMIT.
unfoldable pub write_rows : Env → BookingRequest → Slot → M (Unit {0})
write_rows env req slot = do
  attempt (env.fails insert_row) (insert_booking env.booking_id (new_booking req))
  insert_jobs env slot.slot_start_utc (1440 ∷ 60 ∷ [])
  insert_key_row env req
  attempt (env.fails commit_tx) commit

abbrev pub offsets_of : Table ReminderJob → List ℕ
offsets_of = map λ r. r.1.offset_minutes

-- SELECT offset_minutes FROM reminder_jobs WHERE booking_id = id AND status = 'scheduled'
abbrev pub scheduled_of : ℕ → ReminderJob → Bool
scheduled_of id j = j.booking_id == id && is_scheduled j.status

unfoldable pub enqueue_jobs : Env → QueueEnv → (slot_start : ℕ) → M (Unit {0})
enqueue_jobs env queue slot_start = do
  rows ←
      attempt (env.fails read_jobs) (gets λ t. select (scheduled_of env.booking_id) t.reminder_jobs)
  enqueue_for_booking queue env.booking_id slot_start (offsets_of rows) env.now

-- What follows the COMMIT, in the same `try`.
unfoldable pub after_commit : Env → BookingRequest → M (Unit {0})
unfolding enqueue_jobs
after_commit env req = elim env.queue [
  | none ↦ pure tt
  | some queue ↦ do
    slot ← attempt (env.fails read_slot_start) (gets λ t. lookup req.slot_id t.slots)
    elim slot [ none ↦ pure tt | some s ↦ enqueue_jobs env queue s.slot_start_utc ]
]

unfoldable pub claimed : Env → BookingRequest → Option Slot → M BookingResult
claimed env req none = rollback >> pure (refused 409 slot_unavailable)
claimed env req (some slot) =
    write_rows env req slot >> (after_commit env req >> pure (created env.booking_id))

unfoldable pub book : Env → BookingRequest → (notice : ℕ) → M BookingResult
book env req notice =
    catch
      (do
        attempt (env.fails begin_tx) (begin env.connection)
        slot ← attempt (env.fails claim) (claim_slot (is_bookable env.now notice) req.slot_id)
        claimed env req slot)
      (λ e. rollback >> pure (conflict_or_bad e))

unfoldable pub answer_or_book :
    Env → BookingRequest → (notice : ℕ) → Option BookingResult → M BookingResult
answer_or_book env req notice none = book env req notice
answer_or_book env req notice (some answer) = pure answer

unfoldable pub unless_refused :
    Env → BookingRequest → (notice : ℕ) → Option ErrorCode → M BookingResult
unless_refused env req notice none = key_check env req >>= answer_or_book env req notice
unless_refused env req notice (some e) = pure (refused 400 e)

unfoldable pub create_booking : Env → BookingRequest → M BookingResult
create_booking env req = do
  notice ← configured_notice env req
  refusal ← event_type_error env req
  unless_refused env req notice refusal
