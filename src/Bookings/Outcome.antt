-- ===== src/Bookings/Outcome.antt =====
-- The results of the booking services and controllers, with the error codes of
-- packages/contracts/src/index.ts that they carry.
use text.Mathlib.Text.{◌==◌ as str_eq}
use chronos_appointment_sche.Base.{ℕ, Bool, true, false, Option, none, some, ◌==◌, ◌&&◌}
use chronos_appointment_sche.Schema.{RequestText, booking, reschedule}
use chronos_appointment_sche.Schema.World.{PgError, unique_violation, exclusion_violation}

pub data ErrorCode : Type 0 where
  slot_unavailable idempotency_key_reuse version_mismatch window_expired : ErrorCode
  invalid_transition not_found unauthorized invalid_status cancel_failed : ErrorCode
  invalid_event_type_not_found event_type_wrong_provider event_type_validation_failed : ErrorCode
  -- `e.message || 'bad_request'`
  bad_request : PgError → ErrorCode

pub record BookingResult : Type 0 where
  pub status : ℕ
  pub booking_id : Option ℕ
  pub error : Option ErrorCode
  pub replay : Bool

abbrev pub refused : ℕ → ErrorCode → BookingResult
refused status e = record { status = status; booking_id = none; error = some e; replay = false }

abbrev pub created : ℕ → BookingResult
created id = record { status = 201; booking_id = some id; error = none; replay = false }

abbrev pub replayed : ℕ → BookingResult
replayed id = record { status = 201; booking_id = some id; error = none; replay = true }

-- The end of the services' outer catch: conflicts of the database read as a taken slot.
abbrev pub conflict_or_bad : PgError → BookingResult
conflict_or_bad unique_violation = refused 409 slot_unavailable
conflict_or_bad exclusion_violation = refused 409 slot_unavailable
conflict_or_bad e = refused 400 (bad_request e)

abbrev pub same_option : Option ℕ → Option ℕ → Bool
same_option none none = true
same_option (some a) (some b) = a == b
same_option _ _ = false

-- Equality of the stored text with JSON.stringify(req).
unfoldable pub same_request : RequestText → RequestText → Bool
same_request (booking a) (booking b) =
    same_option a.provider_id b.provider_id
    && (same_option a.event_type_id b.event_type_id
        && (a.slot_id == b.slot_id
            && (a.client_id == b.client_id
                && (same_option a.idempotency_key b.idempotency_key
                    && str_eq a.client_timezone b.client_timezone))))
same_request (reschedule a) (reschedule b) =
    a.booking_id == b.booking_id
    && (a.new_slot_id == b.new_slot_id
        && (same_option a.idempotency_key b.idempotency_key
            && (a.version == b.version
                && (a.if_match == b.if_match
                    && same_option a.cancellation_window_hours b.cancellation_window_hours))))
same_request _ _ = false
