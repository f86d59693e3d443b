-- ===== src/Contracts.antt =====
-- packages/contracts/src/reschedule.ts: the older rescheduleBooking, which no handler calls. Its
-- statements go to the pool: to one connection, or each to any.
pub mod Laws
use chronos_appointment_sche.Base.{
  ℕ, ◌+◌, ◌*◌, Bool, Option, none, some, List, [], ◌∷◌, lookup, ltb, if◌then◌else◌, ◌&&◌, ◌||◌, not,
  ◌==◌,
}
use chronos_appointment_sche.Schema.{
  Tables, Slot, Booking, SlotStatus, BookingStatus, ReminderJobStatus, RescheduleRequest,
  reschedule, is_opened,
}
use chronos_appointment_sche.Schema.Statements.{
  claim_slot, insert_booking, insert_reminder_job, insert_key, set_slot, set_booking,
}
use chronos_appointment_sche.Schema.World.{
  M, PgError, Connection, pure, attempt, gets, modify, catch, begin, commit, rollback, ◌>>=◌, ◌>>◌,
}
use chronos_appointment_sche.Bookings.Outcome.{
  BookingResult, slot_unavailable, not_found, version_mismatch, window_expired, refused, created,
  conflict_or_bad,
}
use chronos_appointment_sche.Bookings.Create.{new_job}
use chronos_appointment_sche.Reminders.Queue.{fire_time, set_jobs, set_job_status}

-- The awaited queries, in order. A ROLLBACK that fails changes nothing: the server ends the
-- transaction with its connection.
pub data Statement : Type 0 where
  read_booking read_slot begin_tx claim cancel_old free_old insert_row cancel_jobs : Statement
  insert_job : ℕ → Statement
  insert_key_row commit_tx : Statement

pub record Env : Type 0 where
  pub connection : Connection
  -- `effectiveNow`, and now() on the server.
  pub now : ℕ
  pub server_now : ℕ
  pub booking_id : ℕ
  pub job_id : ℕ → ℕ
  pub fails : Statement → Option PgError
  -- What Temporal.Instant.from raises at the start of a slot, which the driver reads as a Date.
  pub instant_fails : Option PgError

-- `slotRes.rows[0]?.slot_start_utc || effectiveNow`
abbrev pub start_or_now : ℕ → Option Slot → ℕ
start_or_now now none = now
start_or_now now (some s) = s.slot_start_utc

abbrev pub hours_or_default : Option ℕ → ℕ
hours_or_default none = 24
hours_or_default (some h) = h

-- `nowMs > startMs - windowMs`, without a difference.
abbrev pub is_past_window : (now window_hours start : ℕ) → Bool
is_past_window now window_hours start = ltb start (now + window_hours * 60 * 60 * 1000)

-- status = 'open' AND slot_start_utc > now
abbrev pub is_ahead : ℕ → Slot → Bool
is_ahead now s = is_opened s.status && ltb now s.slot_start_utc

abbrev pub rebooked : RescheduleRequest → Booking → Booking
rebooked req b = record {
  slot_id = req.new_slot_id;
  client_id = b.client_id;
  client_timezone = "UTC";
  provider_id = none;
  event_type_id = none;
  status = BookingStatus.booked;
  version = b.version + 1;
  cancelled_at = none;
}

abbrev pub cancelled_at : ℕ → Booking → Booking
cancelled_at at b = record b { status = BookingStatus.cancelled; cancelled_at = some at }

unfoldable pub insert_if_ahead : Env → (slot_start offset : ℕ) → M (Unit {0})
insert_if_ahead env slot_start off =
    if ltb env.now (fire_time slot_start off)
    then attempt (env.fails (insert_job off)) (
        insert_reminder_job (env.job_id off)
          (new_job env.booking_id off (fire_time slot_start off)))
    else pure tt

-- subtractElapsed parses the start before anything else.
unfoldable pub insert_jobs : Env → (slot_start : ℕ) → List ℕ → M (Unit {0})
insert_jobs env slot_start [] = pure tt
insert_jobs env slot_start (off ∷ offs) =
    attempt env.instant_fails (insert_if_ahead env slot_start off)
    >> insert_jobs env slot_start offs

unfoldable pub store_key : Env → RescheduleRequest → Booking → Option ℕ → M (Unit {0})
store_key env req b none = pure tt
store_key env req b (some k) = attempt (env.fails insert_key_row) (
    insert_key (record {
      client_id = b.client_id;
      key = k;
      request_hash = reschedule req;
      booking_id = env.booking_id;
    }))

-- UPDATE bookings …, UPDATE slots …, INSERT INTO bookings …, UPDATE reminder_jobs …
unfoldable pub move_rows : Env → RescheduleRequest → Booking → M (Unit {0})
move_rows env req b = do
  attempt (env.fails cancel_old) (modify (set_booking (cancelled_at env.server_now) req.booking_id))
  attempt (env.fails free_old) (modify (set_slot SlotStatus.opened b.slot_id))
  attempt (env.fails insert_row) (insert_booking env.booking_id (rebooked req b))
  attempt (env.fails cancel_jobs) (
      modify (
        set_jobs (λ j. j.booking_id == req.booking_id)
          (set_job_status ReminderJobStatus.cancelled)))

-- What follows the claim of the new slot.
unfoldable pub rebook : Env → RescheduleRequest → Booking → Option Slot → M BookingResult
rebook env req b none = rollback >> pure (refused 409 slot_unavailable)
rebook env req b (some slot) = do
  move_rows env req b
  insert_jobs env slot.slot_start_utc (1440 ∷ 60 ∷ [])
  store_key env req b req.idempotency_key
  attempt (env.fails commit_tx) commit
  pure (created env.booking_id)

-- The `try` and its `catch`.
unfoldable pub cancel_and_rebook : Env → RescheduleRequest → Booking → M BookingResult
cancel_and_rebook env req b =
    catch
      (attempt (env.fails begin_tx) (begin env.connection)
        >> (attempt (env.fails claim) (claim_slot (is_ahead env.now) req.new_slot_id)
            >>= rebook env req b))
      (λ e. rollback >> pure (conflict_or_bad e))

unfoldable pub check_window : Env → RescheduleRequest → Booking → M BookingResult
check_window env req b = do
  slot ← attempt (env.fails read_slot) (gets λ t. lookup b.slot_id t.slots)
  if is_past_window env.now (hours_or_default req.cancellation_window_hours)
        (start_or_now env.now slot)
      then pure (refused 409 window_expired)
      else cancel_and_rebook env req b

unfoldable pub check_booking : Env → RescheduleRequest → Option Booking → M BookingResult
check_booking env req none = pure (refused 404 not_found)
check_booking env req (some b) =
    if not (b.version == req.version) || not (req.if_match == b.version)
    then pure (refused 412 version_mismatch)
    else check_window env req b

unfoldable pub reschedule_booking : Env → RescheduleRequest → M BookingResult
reschedule_booking env req =
    attempt (env.fails read_booking) (gets λ t. lookup req.booking_id t.bookings)
    >>= check_booking env req
