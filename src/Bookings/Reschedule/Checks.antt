-- ===== src/Bookings/Reschedule/Checks.antt =====
-- apps/api/src/bookings/reschedule.service.ts: the request's environment, the checks of a booking's
-- row, and the first transaction of rescheduleBooking.
use chronos_appointment_sche.Base.{
  ℕ, ◌+◌, ◌*◌, Bool, Option, none, some, ◌⊎◌, inl, inr, lookup, ltb, if◌then◌else◌, ◌||◌, not, ◌==◌,
}
use chronos_appointment_sche.Schema.{Tables, Slot, Booking, RescheduleRequest, is_booked}
use chronos_appointment_sche.Schema.World.{
  M, PgError, one_client, pure, attempt, gets, begin, commit, rollback, ◌>>=◌, ◌>>◌,
}
use chronos_appointment_sche.Bookings.Outcome.{
  BookingResult, not_found, version_mismatch, invalid_transition, refused,
}
use chronos_appointment_sche.Reminders.Queue.{QueueEnv}

-- The awaited calls of rescheduleBooking, in order.
pub data Statement : Type 0 where
  connect_first begin_first read_booking commit_first read_slot : Statement
  connect_second begin_second lock_booking claim cancel_old free_old insert_row : Statement
  cancel_jobs insert_idempotency_row commit_second : Statement
  insert_job : ℕ → Statement
  write_activity write_notification read_new_slot read_jobs : Statement

pub record Env : Type 0 where
  -- `effectiveNow`, now() on the server, and the clock when the jobs are queued.
  pub now : ℕ
  pub server_now : ℕ
  pub clock : ℕ
  pub booking_id : ℕ
  pub job_id : ℕ → ℕ
  pub fails : Statement → Option PgError
  pub release_twice : Option PgError
  -- What Temporal.Instant.from raises at the start of a slot, which the driver reads as a Date.
  pub instant_fails : Option PgError
  pub meanwhile : Tables → Tables
  pub queue : Option QueueEnv

-- The checks of a booking's row, made in both transactions.
unfoldable pub row_refusal : RescheduleRequest → Option Booking → Option BookingResult
row_refusal req none = some (refused 404 not_found)
row_refusal req (some b) =
    if not (b.version == req.version) || not (req.if_match == b.version)
    then some (refused 412 version_mismatch)
    else if not (is_booked b.status)
    then some (refused 409 invalid_transition)
    else none

-- `nowMs > startMs - windowMs`, without a difference.
abbrev pub is_past_window : (now window_hours start : ℕ) → Bool
is_past_window now window_hours start = ltb start (now + window_hours * 60 * 60 * 1000)

abbrev pub hours_or_default : Option ℕ → ℕ
hours_or_default none = 24
hours_or_default (some h) = h

-- `slotRes.rows[0]?.slot_start_utc || effectiveNow`
abbrev pub start_or_now : ℕ → Option Slot → ℕ
start_or_now now none = now
start_or_now now (some s) = s.slot_start_utc

-- The first transaction: the booking if its row passes the checks, and the refusal if not.
abbrev pub First : Type 0
First = BookingResult ⊎ Booking

unfoldable pub first_result : RescheduleRequest → Option Booking → First
unfolding row_refusal
first_result req none = inl (refused 404 not_found)
first_result req (some b) = elim (row_refusal req (some b)) [ none ↦ inr b | some r ↦ inl r ]

unfoldable pub close_first : Env → First → M First
close_first env (inl r) = rollback >> pure (inl r)
close_first env (inr b) = attempt (env.fails commit_first) commit >> pure (inr b)

unfoldable pub first_check : Env → RescheduleRequest → M First
unfolding first_result close_first
first_check env req = do
  attempt (env.fails begin_first) (begin one_client)
  row ← attempt (env.fails read_booking) (gets λ t. lookup req.booking_id t.bookings)
  close_first env (first_result req row)
