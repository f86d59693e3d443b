-- ===== src/Bookings/Reschedule/Consistent.antt =====
-- rescheduleBooking keeps slots and bookings consistent.
use chronos_appointment_sche.Base.{
  ◌≡◌, ◌≢◌, refl, by_run, Option-cases, ◌++◌, [], ◌∷◌, sym, subst, ap, true, none, some, arith, ◌⊎◌,
  inl, inr, ==_refl, lookup, adjust, Table, lookup-adjust,
}
use chronos_appointment_sche.Schema.{
  Tables, Slot, Booking, RescheduleRequest, SlotStatus, is_booked,
}
use chronos_appointment_sche.Schema.Live.{
  IsConsistent, Agrees-opened, Agrees-slot, Agrees-insert, Agrees-adjust, live_count-cancel, Agrees,
  live_count, live_count-adjust, weight-le-live_count, weight,
}
use chronos_appointment_sche.Schema.World.{Result, World, ok, err, release_client}
use chronos_appointment_sche.Bookings.Outcome.{BookingResult}
use chronos_appointment_sche.Bookings.Reschedule.Checks.{
  Env, row_refusal, First, first_check, connect_first,
}
use chronos_appointment_sche.Bookings.Reschedule.Ends.{FirstEnds, first_check-FirstEnds}
use chronos_appointment_sche.Bookings.Reschedule.{
  moved_booking, cancel_at, is_ahead, window_and_move, reschedule_booking,
}
use chronos_appointment_sche.Bookings.Reschedule.Moved.{Moved, marked_slots}
use chronos_appointment_sche.Bookings.Reschedule.Writes.{moved_slots, moved_bookings}
use chronos_appointment_sche.Bookings.Reschedule.Whole.{RescheduleEnds, after_first}

module _ (env : Env) (req : RescheduleRequest) (slots : Table Slot) (bookings : Table Booking)
    (b : Booking) (s : Slot) (v : Agrees slots bookings)
    (found : lookup req.booking_id bookings ≡ some b) (accepted : row_refusal req (some b) ≡ none)
    (slot_found : lookup req.new_slot_id slots ≡ some s) (ahead : is_ahead env.now s ≡ true) where
  abbrev marked : Table Slot
  marked = adjust req.new_slot_id (λ r. record r { status = SlotStatus.booked }) slots

  abbrev cancelled : Table Booking
  cancelled = adjust req.booking_id (cancel_at env.server_now) bookings

  unused : live_count req.new_slot_id bookings ≡ 0
  unused = Agrees-opened slots bookings v req.new_slot_id s slot_found (ground arith)

  booked : is_booked b.status ≡ true
  unfolding row_refusal
  booked = ground arith

  old_weight : weight b.slot_id b ≡ 1
  old_weight = ground (arith, booked, ==_refl b.slot_id)

  new_weight : weight req.new_slot_id b ≡ 0
  new_weight =
      omega
        (arith, unused, weight-le-live_count req.new_slot_id req.booking_id bookings {b = b} found)

  slots_differ : b.slot_id ≢ req.new_slot_id
  slots_differ e = absurd (omega (arith, new_weight, ap (λ k. weight k b) e, old_weight))

  cancel-Agrees : Agrees marked cancelled
  cancel-Agrees =
      Agrees-adjust marked bookings (Agrees-slot slots bookings v req.new_slot_id _ unused)
        req.booking_id (cancel_at env.server_now) {b = b} found (λ k. ground arith)

  open-Agrees : Agrees (moved_slots req b marked) cancelled
  open-Agrees = Agrees-slot marked cancelled cancel-Agrees b.slot_id _ (
      live_count-cancel slots bookings v req.booking_id (cancel_at env.server_now) {b = b} found
        old_weight (ground arith))

  still_unused : live_count req.new_slot_id cancelled ≡ 0
  still_unused = omega (
    arith,
    unused,
    new_weight,
    live_count-adjust req.new_slot_id req.booking_id (cancel_at env.server_now) bookings {b = b}
        found,
    cancelled_weight,
  )
    where
      cancelled_weight : weight req.new_slot_id (cancel_at env.server_now b) ≡ 0
      cancelled_weight = ground arith

  pub move-Agrees : Agrees (moved_slots req b marked) (moved_bookings env req b bookings)
  move-Agrees =
      Agrees-insert (moved_slots req b marked) cancelled open-Agrees env.booking_id
        (moved_booking req b) still_unused
        (ground (
          arith,
          slots_differ,
          lookup-adjust req.new_slot_id b.slot_id
              (λ (r : Slot). record r { status = SlotStatus.opened }) marked,
          lookup-adjust req.new_slot_id req.new_slot_id
              (λ (r : Slot). record r { status = SlotStatus.booked }) slots,
        ))

Moved-IsConsistent :
    (env : Env) (req : RescheduleRequest) (t t' : Tables)
    → Moved env req t t'
    → IsConsistent t
    → IsConsistent t'
Moved-IsConsistent env req t t' m v =
    subst (λ s. Agrees s t'.bookings) (sym m.slots)
      (subst (Agrees (moved_slots req m.old (marked_slots req t))) (sym m.bookings) (
        move-Agrees env req t.slots t.bookings m.old m.slot v m.found m.accepted m.slot_found
          m.ahead))

RescheduleEnds-IsConsistent :
    (env : Env) (req : RescheduleRequest) (t : Tables)
    → IsConsistent t
    → IsConsistent (env.meanwhile t)
    → (out : Result BookingResult × World) → RescheduleEnds env req t out
    → IsConsistent out.1.tables
RescheduleEnds-IsConsistent env req t before between = ends
  where
    unmoved : (u : Tables) → (u ≡ t) ⊎ (u ≡ env.meanwhile t) → IsConsistent u
    unmoved u (inl e) = subst IsConsistent (sym e) before
    unmoved u (inr e) = subst IsConsistent (sym e) between

    ends :
        (out : Result BookingResult × World)
        → RescheduleEnds env req t out
        → IsConsistent out.1.tables
    ends (err e, w') h = unmoved w'.tables h
    ends (ok r, w') (inl h) = unmoved w'.tables h.0
    ends (ok r, w') (inr h) = Moved-IsConsistent env req (env.meanwhile t) w'.tables h.0 between

module _ (env : Env) (req : RescheduleRequest) (w : World) (n : w.saved ≡ none)
    (before : IsConsistent w.tables) (between : IsConsistent (env.meanwhile w.tables)) where
  abbrev Keeps : Result BookingResult × World → Type 0
  Keeps out = IsConsistent out.1.tables

  first-IsConsistent :
      (out : Result First × World)
      → first_check env req w ≡ out
      → FirstEnds w out
      → env.fails connect_first ≡ none
      → Keeps (reschedule_booking env req w)
  unfolding reschedule_booking
  first-IsConsistent (err y, w1) e h fc =
      by_run Keeps (reschedule_booking env req w)
        (err y, record w1 { effects = w1.effects ++ release_client ∷ [] }) (ground arith)
        (subst IsConsistent (sym h) before)
  first-IsConsistent (ok f, w1) e h fc =
      let out =
        window_and_move env req f (record w1 { effects = w1.effects ++ release_client ∷ [] }) in
      let v : World = record (out.1) { effects = out.1.effects ++ release_client ∷ [] } in
      let kept =
        RescheduleEnds-IsConsistent env req w.tables before between out
          (after_first env req f w w1 h n) in
      elim (Option-cases env.release_twice) [
        | inl once ↦ by_run Keeps (reschedule_booking env req w) (out.0, v) (ground arith) kept
        | inr (y, twice) ↦
            by_run Keeps (reschedule_booking env req w) (err y, v) (ground arith) kept
      ]

  -- A call of `reschedule_booking`, whichever of its statements fail and whatever the pool makes of a
  -- second release, leaves slots and bookings consistent, if they were before it and the other
  -- sessions leave them so meanwhile, with no transaction open before the call.
  pub reschedule_booking-IsConsistent : Keeps (reschedule_booking env req w)
  unfolding reschedule_booking
  reschedule_booking-IsConsistent = elim (Option-cases (env.fails connect_first)) [
    | inl fc ↦ first-IsConsistent (first_check env req w) refl (first_check-FirstEnds env req w) fc
    | inr (y, fc) ↦ by_run Keeps (reschedule_booking env req w) (err y, w) (ground arith) before
  ]
