-- ===== src/Bookings/Controller.antt =====
-- apps/api/src/bookings/bookings.controller.ts: the handlers. `session` is the client that the
-- session cookie names, if there is one (Cookie has how it is read).
pub mod Status
pub mod Cancel
pub mod Reads
use chronos_appointment_sche.Base.{
  ℕ, suc, ◌+◌, Bool, true, false, Option, none, some, ◌⊎◌, inl, inr, List, [], ◌∷◌, Table, lookup,
  adjust, ltb, ◌==◌, ◌&&◌, ◌||◌, not, if◌then◌else◌, is_some,
}
use chronos_appointment_sche.Schema.{
  Tables, Slot, Booking, Provider, BookingStatus, SlotStatus, BookingRequest, RescheduleRequest,
  Notice, new_booking, is_live, is_booked,
}
use chronos_appointment_sche.Schema.Live.{live_count}
use chronos_appointment_sche.Schema.Statements.{set_slot, set_booking}
use chronos_appointment_sche.Schema.World.{
  M, World, Result, ok, err, PgError, check_violation, unique_violation, one_client, Connection,
  pure, raise, attempt, gets, modify, catch, finally, begin, commit, rollback, emit, release_client,
  ◌>>=◌, ◌>>◌,
}
use chronos_appointment_sche.Bookings.Outcome.{
  BookingResult, ErrorCode, slot_unavailable, idempotency_key_reuse, invalid_event_type_not_found,
  event_type_wrong_provider, event_type_validation_failed, bad_request, not_found, unauthorized,
  version_mismatch, window_expired, invalid_transition, invalid_status, cancel_failed,
}
use chronos_appointment_sche.Bookings.Create
use chronos_appointment_sche.Bookings.Reschedule
use chronos_appointment_sche.Bookings.Lifecycle.{CancelRequest, CancelResult, evaluate_cancellation}
use chronos_appointment_sche.Reminders.Queue.{QueueEnv, cancel_for_booking}

-- What a handler answers: a body with a status, or one of the exceptions that the framework maps.
pub data Response : Type 0 where
  result : BookingResult → Response
  no_content : Response
  rejected : (status : ℕ) → ErrorCode → Response
  updated : (booking_id : ℕ) → BookingStatus → (version : ℕ) → Response
  unauthorized_exception : Response
  conflict_exception : ErrorCode → Response

-- The statuses that a request body may name.
pub data StatusText : Type 0 where
  confirmed declined completed cancelled booked other : StatusText

-- The queries of the handlers, in order; what a handler does not use never fails it.
pub data Statement : Type 0 where
  connect begin_tx read_booking read_slot read_provider write_booking write_slot commit_tx :
      Statement
  read_slot_provider write_notification : Statement

pub record Env : Type 0 where
  pub now : ℕ
  pub fails : Statement → Option PgError
  pub queue : Option QueueEnv
  -- Does the message of a database error mention 'event_type' or 'invalid_'?
  pub mentions_input : PgError → Bool

abbrev pub or_unauthorized : Option ℕ → (ℕ → M Response) → M Response
or_unauthorized none k = pure unauthorized_exception
or_unauthorized (some client) k = k client

abbrev pub is_conflict_text : Env → ErrorCode → Bool
is_conflict_text env invalid_event_type_not_found = true
is_conflict_text env event_type_wrong_provider = true
is_conflict_text env event_type_validation_failed = true
is_conflict_text env (bad_request e) = env.mentions_input e
is_conflict_text env _ = false

abbrev pub error_or : ErrorCode → Option ErrorCode → ErrorCode
error_or d none = d
error_or d (some e) = e

-- The answer to a booking result.
unfoldable pub response_of : Env → BookingResult → Response
response_of env r =
    if r.status == 201
    then result r
    else if r.status == 400 && not (is_conflict_text env (error_or cancel_failed r.error))
    then result r
    else conflict_exception (error_or slot_unavailable r.error)

abbrev pub notice_for : ℕ → Option ℕ → Slot → Notice
notice_for client booking_id s = record {
  event = new_booking;
  provider_id = s.provider_id;
  client_id = client;
  booking_id = booking_id;
}

-- The notification to the provider of the slot, whatever the result was.
unfoldable pub notify : Env → ℕ → (slot_id : ℕ) → BookingResult → M (Unit {0})
notify env client slot_id r =
    catch
      (do
        slot ← attempt (env.fails read_slot_provider) (gets λ t. lookup slot_id t.slots)
        elim slot [
          | none ↦ pure tt
          | some s ↦ attempt (env.fails write_notification) (
              modify λ t. record t {
                notifications = notice_for client r.booking_id s ∷ t.notifications;
              })
        ])
      (λ _. pure tt)

-- POST /bookings. The request carries the session's client; the text of the session id has
-- passed the test for a UUID.
unfoldable pub create_handler : Env → Create.Checks.Env → Option ℕ → BookingRequest → M Response
unfolding response_of notify
create_handler env service session body = or_unauthorized session λ client. do
  let req = record body { client_id = client; provider_id = none }
  r ← Create.create_booking service req
  notify env client req.slot_id r
  pure (response_of env r)

-- The row of a booking, if the client owns it; `Response` holds the refusal.
abbrev pub owned_by : ℕ → Option Booking → Response ⊎ Booking
owned_by client none = inl (rejected 404 not_found)
owned_by client (some b) = if b.client_id == client then inr b else inl (rejected 403 unauthorized)

-- POST /bookings/:id/reschedule. The window comes from the request's body, else it is 24 hours.
unfoldable pub reschedule_handler :
    Env → Reschedule.Checks.Env → Option ℕ → RescheduleRequest → M Response
reschedule_handler env service session req = or_unauthorized session λ client. do
  row ← attempt (env.fails read_booking) (gets λ t. lookup req.booking_id t.bookings)
  elim (owned_by client row) [
    | inl refusal ↦ pure refusal
    | inr b ↦ do r ← Reschedule.reschedule_booking service req; pure (result r)
  ]

-- The queries of a handler between BEGIN and COMMIT, on a client of its own.
abbrev pub on_client : Env → M Response → M Response
on_client env m =
    attempt (env.fails connect) (pure tt)
    >> finally
        (catch (attempt (env.fails begin_tx) (begin one_client) >> m) (λ e. rollback >> raise e))
        (emit release_client)

-- `if (this.reminderQueue) await this.reminderQueue.cancelForBooking(id)`, its errors swallowed.
abbrev pub cancel_jobs : Env → Option ℕ → M (Unit {0})
cancel_jobs env booking_id = elim env.queue [
  | none ↦ pure tt
  | some q ↦ elim booking_id [
    -- With an undefined id no row is found, and none is updated.
    | none ↦ pure tt
    | some id ↦ catch (cancel_for_booking q id) (λ _. pure tt)
  ]
]
