-- ===== src/Bookings/Prisma/Laws.antt =====
-- The two lifecycle services side by side, and what this one keeps.
use chronos_appointment_sche.Base.{
  ℕ, ◌≤◌, ◌≡◌, ◌↔◌, subst, true, Option, some, arith, Option-cases, Bool-cases, inl, inr, lookup,
  ==_refl, ◌||◌, ◌&&◌,
}
use chronos_appointment_sche.Schema.{
  Tables, Booking, BookingStatus, SlotStatus, Slot, is_booked, is_cancelled,
}
use chronos_appointment_sche.Schema.Statements.{set_slot, set_booking}
use chronos_appointment_sche.Schema.Live.{
  IsConsistent, Agrees-slot, Agrees-adjust, live_count-cancel, weight,
}
use chronos_appointment_sche.Bookings.Lifecycle.{
  includes, is_valid_transition, same_status, evaluate_cancellation,
}
use chronos_appointment_sche.Bookings.Prisma.{allowed_transitions, transition, cancel, moved_to}

-- The two services allow the same transitions but one: only this one lets a booked booking become
-- a no-show.
pub allowed_transitions_lem :
    (from to : BookingStatus)
    → includes (allowed_transitions from) to
      ≡ (is_valid_transition from to || (is_booked from && same_status BookingStatus.no_show to))
unfolding allowed_transitions is_valid_transition
allowed_transitions_lem from to = ground arith

-- A cancellation here succeeds exactly when the cancellation rule of the other service allows it at
-- the booking's own version, if the booking and its slot exist.
pub cancel-evaluate_cancellation :
    (now id hours : ℕ) (t : Tables) {b : Booking} {s : Slot}
    → lookup id t.bookings ≡ some b
    → lookup b.slot_id t.slots ≡ some s
    → (cancel now id hours t
        ≡ inr (
            set_slot SlotStatus.opened b.slot_id
              (set_booking (moved_to BookingStatus.cancelled b.version) id t)))
      ↔ ((evaluate_cancellation
            (record {
              if_match = b.version;
              now = now;
              cancellation_window_hours = hours;
              slot_start = s.slot_start_utc;
            })
            b.status
            b.version).allowed
          ≡ true)
unfolding cancel evaluate_cancellation
cancel-evaluate_cancellation now id hours t {b} {s} found slot = ground (arith, ==_refl b.version)

module _ (t : Tables) (v : IsConsistent t) (id : ℕ) {b : Booking}
    (found : lookup id t.bookings ≡ some b) where
  moved-IsConsistent :
      (s : BookingStatus) (n : ℕ)
      → is_booked b.status ≡ true
      → IsConsistent (set_booking (moved_to s n) id t)
  moved-IsConsistent s n booked =
      Agrees-adjust t.slots t.bookings v id (moved_to s n) {b = b} found (λ k. lighter k)
    where
      lighter : (k : ℕ) → weight k (moved_to s n b) ≤ weight k b
      lighter k = ground arith

  freed-IsConsistent :
      (n : ℕ)
      → is_booked b.status ≡ true
      → IsConsistent (
          set_slot SlotStatus.opened b.slot_id
            (set_booking (moved_to BookingStatus.cancelled n) id t))
  freed-IsConsistent n booked =
      let t1 = set_booking (moved_to BookingStatus.cancelled n) id t in
      let held : weight b.slot_id b ≡ 1 = ground (arith, ==_refl b.slot_id) in
      Agrees-slot t1.slots t1.bookings (moved-IsConsistent BookingStatus.cancelled n booked)
        b.slot_id (λ s. record s { status = SlotStatus.opened })
        (live_count-cancel t.slots t.bookings v id (moved_to BookingStatus.cancelled n) {b = b}
          found held (ground arith))

kept : {t' : Tables} (u : Tables) → u ≡ t' → IsConsistent u → IsConsistent t'
kept u e v = subst IsConsistent e v

-- A transition that succeeds keeps slots and bookings consistent.
pub transition-IsConsistent :
    (id : ℕ) (to : BookingStatus) (expected : Option ℕ) (t t' : Tables)
    → transition id to expected t ≡ inr t'
    → IsConsistent t
    → IsConsistent t'
unfolding transition
transition-IsConsistent id to expected t t' h v = elim (Option-cases (lookup id t.bookings)) [
  | inl e ↦ ground arith
  | inr (b, e) ↦ elim (Bool-cases (is_cancelled to)) [
    | inl c ↦
        kept {t' = t'}
          (set_slot SlotStatus.opened b.slot_id
            (set_booking (moved_to BookingStatus.cancelled b.version) id t))
          (ground arith) (freed-IsConsistent t v id e b.version (ground arith))
    | inr c ↦
        kept {t' = t'} (set_booking (moved_to to b.version) id t) (ground arith)
          (moved-IsConsistent t v id e to b.version (ground arith))
  ]
]

-- A cancellation that succeeds keeps slots and bookings consistent.
pub cancel-IsConsistent :
    (now id hours : ℕ) (t t' : Tables)
    → cancel now id hours t ≡ inr t'
    → IsConsistent t
    → IsConsistent t'
unfolding cancel
cancel-IsConsistent now id hours t t' h v = elim (Option-cases (lookup id t.bookings)) [
  | inl e ↦ ground arith
  | inr (b, e) ↦ elim (Option-cases (lookup b.slot_id t.slots)) [
    | inl f ↦ ground arith
    | inr (s, f) ↦
        kept {t' = t'}
          (set_slot SlotStatus.opened b.slot_id
            (set_booking (moved_to BookingStatus.cancelled b.version) id t))
          (ground arith) (freed-IsConsistent t v id e b.version (ground arith))
  ]
]
