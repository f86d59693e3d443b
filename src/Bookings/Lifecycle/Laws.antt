-- ===== src/Bookings/Lifecycle/Laws.antt =====
-- When a booking may be cancelled, and when it is completed.
use chronos_appointment_sche.Base.{ℕ, ◌+◌, ◌*◌, ◌≤◌, ◌≡◌, ◌↔◌, ◌⊎◌, true, false, arith}
use chronos_appointment_sche.Schema.{BookingStatus}
use chronos_appointment_sche.Bookings.Lifecycle.{
  CancelRequest, is_valid_transition, evaluate_cancellation, should_auto_complete,
}

abbrev IsInTime : CancelRequest → Type 0
IsInTime req = req.now + req.cancellation_window_hours * 60 * 60 * 1000 ≤ req.slot_start

-- Cancelling is allowed exactly when the booking is booked, If-Match names its version, and the
-- whole window still lies between now and the start of the slot, its last millisecond included.
pub evaluate_cancellation_allowed :
    (req : CancelRequest) (status : BookingStatus) (version : ℕ)
    → ((evaluate_cancellation req status version).allowed ≡ true)
      ↔ ((status ≡ BookingStatus.booked) × (req.if_match ≡ version) × IsInTime req)
unfolding evaluate_cancellation
evaluate_cancellation_allowed req status version = ground arith

-- A booking that may still be cancelled is not yet due for completion, however short the window and
-- the grace, if its slot ends after its start.
pub cancellable_not_completed :
    (req : CancelRequest) (status : BookingStatus) (version slot_end grace : ℕ)
    → (evaluate_cancellation req status version).allowed ≡ true
    → req.slot_start + 1 ≤ slot_end
    → should_auto_complete slot_end req.now grace ≡ false
unfolding evaluate_cancellation should_auto_complete
cancellable_not_completed req status version slot_end grace allowed ends = ground arith

-- Only `booked` has a way out, to `completed` or to `cancelled`.
pub is_valid_transition_iff :
    (from to : BookingStatus)
    → (is_valid_transition from to ≡ true) ↔ (
        (from ≡ BookingStatus.booked)
        × ((to ≡ BookingStatus.completed) ⊎ (to ≡ BookingStatus.cancelled)))
unfolding is_valid_transition
is_valid_transition_iff from to = ground arith
