-- ===== src/Bookings/Controller/Cancel.antt =====
-- bookings.controller.ts: POST :id/cancel.
pub mod Laws
pub mod Slots
use chronos_appointment_sche.Base.{
  ℕ, suc, ◌+◌, Bool, true, false, Option, none, some, ◌⊎◌, inl, inr, List, [], ◌∷◌, Table, lookup,
  adjust, ltb, ◌==◌, ◌&&◌, ◌||◌, not, if◌then◌else◌, is_some,
}
use chronos_appointment_sche.Schema.{
  Tables, Slot, Booking, Provider, BookingStatus, SlotStatus, BookingRequest, RescheduleRequest,
  Notice, new_booking, is_live, is_booked,
}
use chronos_appointment_sche.Schema.Live.{live_count}
use chronos_appointment_sche.Schema.Statements.{set_slot, set_booking}
use chronos_appointment_sche.Schema.World.{
  M, World, Result, ok, err, PgError, check_violation, unique_violation, one_client, Connection,
  pure, raise, aborting, attempt, gets, modify, catch, finally, begin, commit, rollback, emit,
  release_client, ◌>>=◌, ◌>>◌,
}
use chronos_appointment_sche.Bookings.Outcome.{
  BookingResult, ErrorCode, slot_unavailable, idempotency_key_reuse, invalid_event_type_not_found,
  event_type_wrong_provider, event_type_validation_failed, bad_request, not_found, unauthorized,
  version_mismatch, window_expired, invalid_transition, invalid_status, cancel_failed,
}
use chronos_appointment_sche.Bookings.Create
use chronos_appointment_sche.Bookings.Reschedule
use chronos_appointment_sche.Bookings.Lifecycle.{CancelRequest, CancelResult, evaluate_cancellation}
use chronos_appointment_sche.Reminders.Queue.{QueueEnv, cancel_for_booking}
use chronos_appointment_sche.Bookings.Controller.{
  Env, Response, rejected, no_content, read_booking, read_slot, read_provider, write_booking,
  write_slot, begin_tx, commit_tx, or_unauthorized, owned_by, cancel_jobs, error_or,
}

-- `providerRes.rows[0]?.cancellation_window_hours ?? 24`
abbrev pub window_of : Option Provider → ℕ
window_of none = 24
window_of (some p) = p.cancellation_window_hours

-- The provider of the booking's slot.
abbrev pub provider_of : ℕ → Tables → Option Provider
provider_of slot_id t = elim (lookup slot_id t.slots) [
  | none ↦ none
  | some s ↦ lookup s.provider_id t.providers
]

abbrev pub start_or_now : ℕ → Option Slot → ℕ
start_or_now now none = now
start_or_now now (some s) = s.slot_start_utc

-- The `409` and `412` of a denied cancellation.
abbrev pub denial_status : ErrorCode → ℕ
denial_status version_mismatch = 412
denial_status _ = 409

abbrev pub denial : CancelResult → Response
denial r = let e = error_or cancel_failed r.error in rejected (denial_status e) e

abbrev pub cancel_row : ℕ → Booking → Booking
cancel_row at b = record b { status = BookingStatus.cancelled; cancelled_at = some at }

-- The four statements of the cancellation, each through the pool: `connection` says whether the
-- pool gives them one client. On one client a failure ends the transaction with the request.
unfoldable pub cancel_rows : Env → Connection → (booking_id slot_id : ℕ) → M (Unit {0})
cancel_rows env connection id slot_id = aborting (do
  attempt (env.fails begin_tx) (begin connection)
  attempt (env.fails write_booking) (modify (set_booking (cancel_row env.now) id))
  attempt (env.fails write_slot) (modify (set_slot SlotStatus.opened slot_id))
  attempt (env.fails commit_tx) commit)

abbrev pub cancel_request : Env → ℕ → Option Slot → Option Provider → CancelRequest
cancel_request env if_match slot provider = record {
  if_match = if_match;
  now = env.now;
  cancellation_window_hours = window_of provider;
  slot_start = start_or_now env.now slot;
}

-- After the ownership check. `b.id` was not selected, so the queue manager gets an undefined id.
unfoldable pub cancel_owned : Env → Connection → (if_match booking_id : ℕ) → Booking → M Response
unfolding cancel_rows
cancel_owned env connection if_match id b =
    if if_match == b.version
    then (do
      slot ← attempt (env.fails read_slot) (gets λ t. lookup b.slot_id t.slots)
      provider ← attempt (env.fails read_provider) (gets (provider_of b.slot_id))
      let verdict =
          evaluate_cancellation (cancel_request env if_match slot provider) b.status b.version
      if verdict.allowed
          then (do cancel_rows env connection id b.slot_id; cancel_jobs env none; pure no_content)
          else pure (denial verdict))
    else pure (rejected 412 version_mismatch)

-- POST /bookings/:id/cancel; `if_match` is `parseInt(ifMatch || '1', 10)`.
unfoldable pub cancel_handler : Env → Connection → Option ℕ → (if_match booking_id : ℕ) → M Response
unfolding cancel_owned
cancel_handler env connection session if_match id = or_unauthorized session λ client. do
  row ← attempt (env.fails read_booking) (gets λ t. lookup id t.bookings)
  elim (owned_by client row) [
    | inl refusal ↦ pure refusal
    | inr b ↦ cancel_owned env connection if_match id b
  ]
