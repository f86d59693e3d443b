-- ===== src/Bookings/Lifecycle.antt =====
-- apps/api/src/bookings/lifecycle.service.ts: the table of transitions, the cancellation rule and
-- the completion rule. An instant is a count of milliseconds; a difference of instants is written as
-- a sum on the other side.
pub mod Laws
use chronos_appointment_sche.Base.{
  ℕ, ◌+◌, ◌*◌, Bool, true, false, Option, none, some, List, [], ◌∷◌, ltb, leb, ◌==◌, ◌||◌, not,
  if◌then◌else◌,
}
use chronos_appointment_sche.Schema.{BookingStatus}
use chronos_appointment_sche.Bookings.Outcome.{
  ErrorCode, version_mismatch, window_expired, invalid_transition,
}

abbrev pub same_status : BookingStatus → BookingStatus → Bool
same_status BookingStatus.booked BookingStatus.booked = true
same_status BookingStatus.completed BookingStatus.completed = true
same_status BookingStatus.cancelled BookingStatus.cancelled = true
same_status BookingStatus.no_show BookingStatus.no_show = true
same_status _ _ = false

abbrev pub includes : List BookingStatus → BookingStatus → Bool
includes [] s = false
includes (t ∷ ts) s = same_status t s || includes ts s

unfoldable pub valid_transitions : BookingStatus → List BookingStatus
valid_transitions BookingStatus.booked = BookingStatus.completed ∷ BookingStatus.cancelled ∷ []
valid_transitions BookingStatus.completed = []
valid_transitions BookingStatus.cancelled = []
valid_transitions BookingStatus.no_show = []

unfoldable pub is_valid_transition : BookingStatus → BookingStatus → Bool
unfolding valid_transitions
is_valid_transition from to = includes (valid_transitions from) to

pub record CancelRequest : Type 0 where
  pub if_match : ℕ
  pub now : ℕ
  pub cancellation_window_hours : ℕ
  pub slot_start : ℕ

pub record CancelResult : Type 0 where
  pub allowed : Bool
  pub error : Option ErrorCode
  pub slot_reopened : Bool

abbrev denied : ErrorCode → CancelResult
denied e = record { allowed = false; error = some e; slot_reopened = false }

unfoldable pub evaluate_cancellation : CancelRequest → BookingStatus → ℕ → CancelResult
unfolding is_valid_transition
evaluate_cancellation req status version =
    if not (is_valid_transition status BookingStatus.cancelled)
    then denied invalid_transition
    else if not (req.if_match == version)
    then denied version_mismatch
    else if ltb req.slot_start (req.now + req.cancellation_window_hours * 60 * 60 * 1000)
    then denied window_expired
    else record { allowed = true; error = none; slot_reopened = true }

unfoldable pub should_auto_complete : (slot_end now grace_minutes : ℕ) → Bool
should_auto_complete slot_end now grace_minutes = leb (slot_end + grace_minutes * 60 * 1000) now
