-- ===== src/Bookings/Controller/Status.antt =====
-- bookings.controller.ts: PATCH :id/status, POST :id/confirm and POST :id/decline.
pub mod Laws
pub mod Slots
use chronos_appointment_sche.Base.{
  ℕ, suc, ◌+◌, Bool, true, false, Option, none, some, ◌⊎◌, inl, inr, List, [], ◌∷◌, Table, lookup,
  adjust, ltb, ◌==◌, ◌&&◌, ◌||◌, not, if◌then◌else◌, is_some,
}
use chronos_appointment_sche.Schema.{
  Tables, Slot, Booking, Provider, BookingStatus, SlotStatus, BookingRequest, RescheduleRequest,
  Notice, new_booking, is_live, is_booked,
}
use chronos_appointment_sche.Schema.Live.{live_count}
use chronos_appointment_sche.Schema.Statements.{set_slot, set_booking}
use chronos_appointment_sche.Schema.World.{
  M, World, Result, ok, err, PgError, check_violation, unique_violation, one_client, Connection,
  pure, raise, attempt, gets, modify, catch, finally, begin, commit, rollback, emit, release_client,
  ◌>>=◌, ◌>>◌,
}
use chronos_appointment_sche.Bookings.Outcome.{
  BookingResult, ErrorCode, slot_unavailable, idempotency_key_reuse, invalid_event_type_not_found,
  event_type_wrong_provider, event_type_validation_failed, bad_request, not_found, unauthorized,
  version_mismatch, window_expired, invalid_transition, invalid_status, cancel_failed,
}
use chronos_appointment_sche.Bookings.Create
use chronos_appointment_sche.Bookings.Reschedule
use chronos_appointment_sche.Bookings.Lifecycle.{CancelRequest, CancelResult, evaluate_cancellation}
use chronos_appointment_sche.Reminders.Queue.{QueueEnv, cancel_for_booking}
use chronos_appointment_sche.Bookings.Controller.{
  Env, Response, StatusText, rejected, updated, connect, begin_tx, read_booking, write_booking,
  commit_tx, or_unauthorized, owned_by, on_client, cancel_jobs,
}

abbrev pub status_named : StatusText → Option BookingStatus
status_named StatusText.completed = some BookingStatus.completed
status_named StatusText.cancelled = some BookingStatus.cancelled
status_named StatusText.booked = some BookingStatus.booked
status_named _ = none

-- UPDATE bookings SET status = …, version = version + 1 WHERE id = …: the CHECK of the column, and
-- the unique index on live bookings.
unfoldable pub update_row : ℕ → Booking → Option BookingStatus → M (Unit {0})
update_row id b none w = (err check_violation, w)
update_row id b (some s) w =
    let t = set_booking (λ r. record r { status = s; version = r.version + 1 }) id w.tables in
    if ltb 1 (live_count b.slot_id t.bookings)
    then (err unique_violation, w)
    else (ok tt, record w { tables = t })

abbrev pub is_allowed_text : StatusText → Bool
is_allowed_text StatusText.other = false
is_allowed_text _ = true

abbrev pub updated_as : ℕ → Booking → Option BookingStatus → Response
updated_as id b none = rejected 422 invalid_status
updated_as id b (some s) = updated id s (b.version + 1)

abbrev pub is_cancel_text : StatusText → Bool
is_cancel_text StatusText.cancelled = true
is_cancel_text _ = false

-- PATCH /bookings/:id/status
unfoldable pub status_handler : Env → Option ℕ → (booking_id : ℕ) → StatusText → M Response
unfolding update_row
status_handler env session id text = or_unauthorized session λ client. on_client env (do
  row ← attempt (env.fails read_booking) (gets λ t. lookup id t.bookings)
  elim (owned_by client row) [
    | inl refusal ↦ rollback >> pure refusal
    | inr b ↦
        if is_allowed_text text
        then (do
          attempt (env.fails write_booking) (update_row id b (status_named text))
          attempt (env.fails commit_tx) commit
          if is_cancel_text text then cancel_jobs env (some id) else pure tt
          pure (updated_as id b (status_named text)))
        else rollback >> pure (rejected 422 invalid_status)
  ])

-- UPDATE bookings SET status = …, version = version + 1, cancelled_at = … WHERE id = …
abbrev pub finish_row : BookingStatus → Option ℕ → Booking → Booking
finish_row s at b = record b { status = s; version = b.version + 1; cancelled_at = at }

-- What confirm and decline share: only a booked booking of the client is finished.
finish_handler :
    Env
    → BookingStatus
    → (Booking → Option ℕ)
    → M (Unit {0})
    → Option ℕ
    → (booking_id : ℕ) → M Response
finish_handler env s at after session id = or_unauthorized session λ client. on_client env (do
  row ← attempt (env.fails read_booking) (gets λ t. lookup id t.bookings)
  elim (owned_by client row) [
    | inl refusal ↦ rollback >> pure refusal
    | inr b ↦
        if is_booked b.status
        then (do
          attempt (env.fails write_booking) (modify (set_booking (finish_row s (at b)) id))
          attempt (env.fails commit_tx) commit
          after
          pure (updated id s (b.version + 1)))
        else rollback >> pure (rejected 409 invalid_transition)
  ])

-- POST /bookings/:id/confirm
unfoldable pub confirm_handler : Env → Option ℕ → (booking_id : ℕ) → M Response
unfolding finish_handler
confirm_handler env = finish_handler env BookingStatus.completed (λ b. b.cancelled_at) (pure tt)

-- POST /bookings/:id/decline
unfoldable pub decline_handler : Env → Option ℕ → (booking_id : ℕ) → M Response
unfolding finish_handler
decline_handler env session id =
    finish_handler env BookingStatus.cancelled (λ _. some env.now) (cancel_jobs env (some id))
      session id
