-- ===== src/Bookings/Create/Checks.antt =====
-- apps/api/src/bookings/bookings.service.ts: createBooking up to its transaction. The clock, the
-- ids that the server draws, and the statements that fail on the wire are arguments.
use chronos_appointment_sche.Base.{
  ℕ, Bool, true, false, Option, none, some, lookup, ◌==◌, if◌then◌else◌, not,
}
use chronos_appointment_sche.Schema.{Slot, Provider, IdempotencyKey, BookingRequest, booking}
use chronos_appointment_sche.Schema.Statements.{find_key}
use chronos_appointment_sche.Schema.World.{
  M, PgError, Connection, pure, attempt, gets, catch, ◌>>=◌,
}
use chronos_appointment_sche.Bookings.Outcome.{
  BookingResult, ErrorCode, idempotency_key_reuse, invalid_event_type_not_found,
  event_type_wrong_provider, event_type_validation_failed, refused, replayed, same_request,
}
use chronos_appointment_sche.Reminders.Queue.{QueueEnv}

-- The queries of createBooking, in order.
pub data Statement : Type 0 where
  read_slot read_notice read_event_type read_event_slot read_key : Statement
  begin_tx claim insert_row insert_idempotency_row commit_tx : Statement
  insert_job : ℕ → Statement
  read_slot_start read_jobs : Statement

pub record Env : Type 0 where
  -- `effectiveNowMs`, and the clock when the reminder rows are written.
  pub now : ℕ
  pub clock : ℕ
  pub connection : Connection
  pub booking_id : ℕ
  pub job_id : ℕ → ℕ
  pub fails : Statement → Option PgError
  -- `none` is a call without a queue manager.
  pub queue : Option QueueEnv

-- SELECT COALESCE(minimum_booking_notice, 4), and `Number(…) || 4`.
unfoldable pub notice_of : Option Provider → ℕ
notice_of none = 4
notice_of (some p) = elim p.minimum_booking_notice [ none ↦ 4 | some n ↦ if n == 0 then 4 else n ]

abbrev pub provider_of_slot : BookingRequest → Option Slot → Option ℕ
provider_of_slot req none = req.provider_id
provider_of_slot req (some s) = some s.provider_id

unfoldable pub notice_query : Env → Option ℕ → M ℕ
unfolding notice_of
notice_query env none = pure 4
notice_query env (some p) =
    attempt (env.fails read_notice) (gets λ t. notice_of (lookup p t.providers))

-- The `try` around the two queries for the notice.
unfoldable pub notice_lookup : Env → BookingRequest → M ℕ
unfolding notice_query
notice_lookup env req = do
  slot ← attempt (env.fails read_slot) (gets λ t. lookup req.slot_id t.slots)
  notice_query env (provider_of_slot req slot)

-- The configured notice in hours; whatever fails, it is 4.
unfoldable pub configured_notice : Env → BookingRequest → M ℕ
configured_notice env req = catch (notice_lookup env req) (λ _. pure 4)

abbrev pub wrong_provider : Option ℕ → Option Slot → Bool
wrong_provider none slot = false
wrong_provider (some p) none = true
wrong_provider (some p) (some s) = not (p == s.provider_id)

unfoldable pub ownership_query : Env → BookingRequest → Option (Option ℕ) → M (Option ErrorCode)
ownership_query env req none = pure (some invalid_event_type_not_found)
ownership_query env req (some owner) = do
  slot ← attempt (env.fails read_event_slot) (gets λ t. lookup req.slot_id t.slots)
  pure (if wrong_provider owner slot then some event_type_wrong_provider else none)

-- The `try` around the queries for the event type.
unfoldable pub ownership_lookup : Env → BookingRequest → ℕ → M (Option ErrorCode)
unfolding ownership_query
ownership_lookup env req e =
    attempt (env.fails read_event_type) (gets λ t. lookup e t.event_types)
    >>= ownership_query env req

-- Why the event type is refused, if it is.
unfoldable pub event_type_error : Env → BookingRequest → M (Option ErrorCode)
event_type_error env req = elim req.event_type_id [
  | none ↦ pure none
  | some e ↦ catch (ownership_lookup env req e) (λ _. pure (some event_type_validation_failed))
]

abbrev pub key_answer : BookingRequest → Option IdempotencyKey → Option BookingResult
key_answer req none = none
key_answer req (some row) = some (
    if same_request row.request_hash (booking req)
    then replayed row.booking_id
    else refused 422 idempotency_key_reuse)

-- The answer that an earlier request under the same key determines.
unfoldable pub key_check : Env → BookingRequest → M (Option BookingResult)
key_check env req = elim req.idempotency_key [
  | none ↦ pure none
  | some k ↦
      attempt (env.fails read_key)
        (gets λ t. key_answer req (find_key req.client_id k t.idempotency_keys))
]
