-- ===== src/Bookings/Prisma.antt =====
-- apps/api/src/lifecycle/lifecycle.service.ts: the second class LifecycleService, over Prisma. A
-- `$transaction` whose body throws leaves the tables as they were, so a call is a function that
-- answers an error or the new tables.
pub mod Laws
use chronos_appointment_sche.Base.{
  ℕ, ◌+◌, ◌*◌, Bool, true, false, Option, none, some, List, [], ◌∷◌, lookup, ltb, ◌==◌, not,
  is_some, if◌then◌else◌, ◌⊎◌, inl, inr,
}
use chronos_appointment_sche.Schema.{
  Tables, Booking, BookingStatus, SlotStatus, Slot, is_booked, is_cancelled,
}
use chronos_appointment_sche.Schema.Statements.{set_slot, set_booking}
use chronos_appointment_sche.Bookings.Lifecycle.{includes}

pub data LifecycleError : Type 0 where
  booking_not_found version_conflict invalid_transition not_available window_violation
        slot_not_found :
      LifecycleError

unfoldable pub allowed_transitions : BookingStatus → List BookingStatus
allowed_transitions BookingStatus.booked =
    BookingStatus.completed ∷ BookingStatus.cancelled ∷ BookingStatus.no_show ∷ []
allowed_transitions BookingStatus.completed = []
allowed_transitions BookingStatus.cancelled = []
allowed_transitions BookingStatus.no_show = []

-- `expectedVersion !== undefined && booking.version !== expectedVersion`
abbrev pub is_other_version : Option ℕ → ℕ → Bool
is_other_version none v = false
is_other_version (some e) v = not (v == e)

abbrev pub moved_to : BookingStatus → ℕ → Booking → Booking
moved_to s v b = record b { status = s; version = v + 1 }

-- `tx.slot.update`, which throws when there is no such row.
abbrev pub open_slot : ℕ → Tables → LifecycleError ⊎ Tables
open_slot slot_id t =
    if is_some (lookup slot_id t.slots)
    then inr (set_slot SlotStatus.opened slot_id t)
    else inl slot_not_found

unfoldable pub transition : (id : ℕ) → BookingStatus → Option ℕ → Tables → LifecycleError ⊎ Tables
unfolding allowed_transitions
transition id to_status expected t = elim (lookup id t.bookings) [
  | none ↦ inl booking_not_found
  | some b ↦
      if is_other_version expected b.version
      then inl version_conflict
      else if not (includes (allowed_transitions b.status) to_status)
      then inl invalid_transition
      else (let t1 = set_booking (moved_to to_status b.version) id t in
          if is_cancelled to_status then open_slot b.slot_id t1 else inr t1)
]

-- `remainingMs < windowMs`, with the times on one side each.
unfoldable pub cancel : (now id window_hours : ℕ) → Tables → LifecycleError ⊎ Tables
cancel now id window_hours t = elim (lookup id t.bookings) [
  | none ↦ inl booking_not_found
  | some b ↦
      if not (is_booked b.status) then inl not_available else elim (lookup b.slot_id t.slots) [
        -- `booking.slot.slotStartUtc` of no slot
        | none ↦ inl slot_not_found
        | some s ↦
            if ltb s.slot_start_utc (now + window_hours * 60 * 60 * 1000)
            then inl window_violation
            else open_slot b.slot_id (set_booking (moved_to BookingStatus.cancelled b.version) id t)
      ]
]
