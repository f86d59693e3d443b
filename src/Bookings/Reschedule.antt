-- ===== src/Bookings/Reschedule.antt =====
-- apps/api/src/bookings/reschedule.service.ts: rescheduleBooking, from the cancellation window
-- on, and the whole function. Other sessions may act between
-- the first transaction and the second: what they do to the tables is an argument, `meanwhile`.
-- A second release of a client is outside the code: the pool raises or lets it pass.
pub mod Checks
pub mod Writes
pub mod Moved
pub mod Ends
pub mod Whole
pub mod Refused
pub mod Consistent
use Prim.Native.String.{String}
use text.Mathlib.Text.{◌==◌ as str_eq}
use chronos_appointment_sche.Base.{
  ℕ, ◌+◌, ◌*◌, Bool, Option, none, some, ◌⊎◌, inl, inr, List, [], ◌∷◌, lookup, ltb, select,
  if◌then◌else◌, ◌&&◌, ◌||◌, not, ◌==◌,
}
use chronos_appointment_sche.Schema.{
  Tables, Slot, Booking, SlotStatus, BookingStatus, ReminderJobStatus, RescheduleRequest,
  reschedule, is_opened, is_booked, booking_rescheduled, Notice,
}
use chronos_appointment_sche.Schema.Statements.{
  claim_slot, insert_booking, insert_reminder_job, insert_key, set_slot, set_booking,
}
use chronos_appointment_sche.Schema.World.{
  M, PgError, one_client, pure, raise, attempt, gets, modify, catch, finally, begin, commit,
  rollback, emit, release_client, ◌>>=◌, ◌>>◌,
}
use chronos_appointment_sche.Bookings.Outcome.{
  BookingResult, slot_unavailable, not_found, version_mismatch, invalid_transition, window_expired,
  refused, created, conflict_or_bad,
}
use chronos_appointment_sche.Bookings.Create.{new_job, offsets_of, scheduled_of}
use chronos_appointment_sche.Reminders.Queue.{
  QueueEnv, enqueue_for_booking, cancel_for_booking, fire_time, set_jobs, set_job_status,
}
use Checks.{
  Env, row_refusal, is_past_window, hours_or_default, start_or_now, First, first_check,
  connect_first, read_slot, connect_second, begin_second, lock_booking, claim, cancel_old, free_old,
  insert_row, cancel_jobs, insert_idempotency_row, commit_second, insert_job, write_activity,
  write_notification, read_new_slot, read_jobs,
}

abbrev zone_or_utc : String → String
zone_or_utc z = if str_eq z "" then "UTC" else z

abbrev pub moved_booking : RescheduleRequest → Booking → Booking
moved_booking req b = record {
  slot_id = req.new_slot_id;
  client_id = b.client_id;
  client_timezone = zone_or_utc b.client_timezone;
  provider_id = none;
  event_type_id = none;
  status = BookingStatus.booked;
  version = b.version + 1;
  cancelled_at = none;
}

abbrev pub cancel_at : ℕ → Booking → Booking
cancel_at at b = record b { status = BookingStatus.cancelled; cancelled_at = some at }

-- The loop over the offsets; subtractElapsed parses the start before anything else.
unfoldable pub insert_if_ahead : Env → (slot_start offset : ℕ) → M (Unit {0})
insert_if_ahead env slot_start off =
    if ltb env.now (fire_time slot_start off)
    then attempt (env.fails (insert_job off)) (
        insert_reminder_job (env.job_id off)
          (new_job env.booking_id off (fire_time slot_start off)))
    else pure tt

unfoldable pub insert_jobs : Env → (slot_start : ℕ) → List ℕ → M (Unit {0})
insert_jobs env slot_start [] = pure tt
insert_jobs env slot_start (off ∷ offs) =
    attempt env.instant_fails (insert_if_ahead env slot_start off)
    >> insert_jobs env slot_start offs

unfoldable pub insert_key_row : Env → RescheduleRequest → Booking → M (Unit {0})
insert_key_row env req b = elim req.idempotency_key [
  | none ↦ pure tt
  | some k ↦ attempt (env.fails insert_idempotency_row) (
      insert_key (record {
        client_id = b.client_id;
        key = k;
        request_hash = reschedule req;
        booking_id = env.booking_id;
      }))
]

-- UPDATE bookings …, UPDATE slots …, INSERT INTO bookings …
unfoldable pub move_rows : Env → RescheduleRequest → Booking → M (Unit {0})
move_rows env req b = do
  attempt (env.fails cancel_old) (modify (set_booking (cancel_at env.server_now) req.booking_id))
  attempt (env.fails free_old) (modify (set_slot SlotStatus.opened b.slot_id))
  attempt (env.fails insert_row) (insert_booking env.booking_id (moved_booking req b))

-- What is left of the second transaction: the reminder jobs, the idempotency key, the COMMIT.
unfoldable pub move_jobs : Env → RescheduleRequest → Booking → Slot → M (Unit {0})
unfolding insert_key_row
move_jobs env req b slot = do
  attempt (env.fails cancel_jobs) (
      modify (
        set_jobs (λ j. j.booking_id == req.booking_id)
          (set_job_status ReminderJobStatus.cancelled)))
  insert_jobs env slot.slot_start_utc (1440 ∷ 60 ∷ [])
  insert_key_row env req b
  attempt (env.fails commit_second) commit

-- A `try` whose `catch` does nothing.
abbrev pub quietly : M (Unit {0}) → M (Unit {0})
quietly m = catch m (λ _. pure tt)

abbrev notice_of_move : Env → Booking → Slot → Notice
notice_of_move env b slot = record {
  event = booking_rescheduled;
  provider_id = slot.provider_id;
  client_id = b.client_id;
  booking_id = some env.booking_id;
}

-- The rows of activity and of notifications.
unfoldable pub write_notices : Env → Booking → Slot → M (Unit {0})
write_notices env b slot = do
  attempt (env.fails write_activity)
      (modify λ t. record t { activity = notice_of_move env b slot ∷ t.activity })
  attempt (env.fails write_notification)
      (modify λ t. record t { notifications = notice_of_move env b slot ∷ t.notifications })

unfoldable pub requeue_jobs : Env → QueueEnv → Option Slot → M (Unit {0})
requeue_jobs env queue none = pure tt
requeue_jobs env queue (some s) = do
  rows ←
      attempt (env.fails read_jobs) (gets λ t. select (scheduled_of env.booking_id) t.reminder_jobs)
  enqueue_for_booking queue env.booking_id s.slot_start_utc (offsets_of rows) env.clock

unfoldable pub requeue : Env → RescheduleRequest → QueueEnv → M (Unit {0})
unfolding requeue_jobs
requeue env req queue =
    attempt (env.fails read_new_slot) (gets λ t. lookup req.new_slot_id t.slots)
    >>= requeue_jobs env queue

unfoldable pub after_move : Env → RescheduleRequest → Booking → Slot → M (Unit {0})
unfolding write_notices requeue
after_move env req b slot = elim env.queue [
  | none ↦ quietly (write_notices env b slot)
  | some queue ↦ do
    quietly (cancel_for_booking queue req.booking_id)
    quietly (write_notices env b slot)
    quietly (requeue env req queue)
]

unfoldable pub moved : Env → RescheduleRequest → Booking → Option Slot → M BookingResult
unfolding after_move
moved env req b none = rollback >> pure (refused 409 slot_unavailable)
moved env req b (some slot) = do
  move_rows env req b
  move_jobs env req b slot
  after_move env req b slot
  pure (created env.booking_id)

-- status = 'open' AND slot_start_utc > now
abbrev pub is_ahead : ℕ → Slot → Bool
is_ahead now s = is_opened s.status && ltb now s.slot_start_utc

unfoldable pub locked : Env → RescheduleRequest → Option Booking → M BookingResult
locked env req none = rollback >> pure (refused 404 not_found)
locked env req (some b) = elim (row_refusal req (some b)) [
  | some r ↦ rollback >> pure r
  | none ↦
      attempt (env.fails claim) (claim_slot (is_ahead env.now) req.new_slot_id) >>= moved env req b
]

-- The `try` of the second transaction.
unfoldable pub transaction : Env → RescheduleRequest → M BookingResult
transaction env req = do
  attempt (env.fails begin_second) (begin one_client)
  row ← attempt (env.fails lock_booking) (gets λ t. lookup req.booking_id t.bookings)
  locked env req row

-- The second transaction, with its catch and finally.
unfoldable pub move : Env → RescheduleRequest → M BookingResult
move env req =
    attempt (env.fails connect_second) (pure tt)
    >> finally (catch (transaction env req) (λ e. rollback >> pure (conflict_or_bad e)))
        (emit release_client)

-- From the cancellation window on.
unfoldable pub window_and_move : Env → RescheduleRequest → First → M BookingResult
window_and_move env req (inl r) = pure r
window_and_move env req (inr b) = do
  modify env.meanwhile
  slot ← attempt (env.fails read_slot) (gets λ t. lookup b.slot_id t.slots)
  if is_past_window env.now (hours_or_default req.cancellation_window_hours)
        (start_or_now env.now slot)
      then pure (refused 409 window_expired)
      else move env req

-- `clientPre` is released after its check, and once more by the outer `finally`; if the check
-- raises, by the `finally` alone.
unfoldable pub reschedule_booking : Env → RescheduleRequest → M BookingResult
unfolding first_check
reschedule_booking env req = do
  attempt (env.fails connect_first) (pure tt)
  first ← catch (first_check env req) (λ e. emit release_client >> raise e)
  emit release_client
  finally (window_and_move env req first)
      (emit release_client >> attempt env.release_twice (pure tt))
