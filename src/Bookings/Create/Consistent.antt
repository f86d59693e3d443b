-- ===== src/Bookings/Create/Consistent.antt =====
-- createBooking keeps slots and bookings consistent, by its own compare-and-set: the unique index
-- on live bookings is not what stops a second booking.
use chronos_appointment_sche.Base.{
  ℕ, ◌≤◌, ◌≡◌, sym, subst, true, none, some, arith, inl, inr, lookup, lookup-adjust,
}
use chronos_appointment_sche.Schema.{Tables, Slot, BookingRequest, SlotStatus, is_opened}
use chronos_appointment_sche.Schema.Live.{
  IsConsistent, Agrees-opened, Agrees-slot, Agrees-insert, live_count,
}
use chronos_appointment_sche.Schema.World.{Result, World, ok, err, one_client}
use chronos_appointment_sche.Bookings.Outcome.{BookingResult}
use chronos_appointment_sche.Bookings.Create.Checks.{Env}
use chronos_appointment_sche.Bookings.Create.{new_booking, is_bookable, create_booking}
use chronos_appointment_sche.Bookings.Create.Atomic.{Committed, booked_tables}
use chronos_appointment_sche.Bookings.Create.Ended.{Ended, create_booking-Ended}

booked_tables-IsConsistent :
    (env : Env) (req : BookingRequest) (t t' : Tables) (s : Slot)
    → IsConsistent t
    → lookup req.slot_id t.slots ≡ some s
    → is_opened s.status ≡ true
    → IsConsistent (booked_tables env req t t')
booked_tables-IsConsistent env req t t' s v found o =
    let unused = Agrees-opened t.slots t.bookings v req.slot_id s found o in
    Agrees-insert _ t.bookings (Agrees-slot t.slots t.bookings v req.slot_id _ unused)
      env.booking_id (new_booking req) unused
      (ground (
        arith,
        lookup-adjust req.slot_id req.slot_id
            (λ (r : Slot). record r { status = SlotStatus.booked }) t.slots,
      ))

Committed-IsConsistent :
    (env : Env) (req : BookingRequest) (notice : ℕ) (w w' : World)
    → Committed env req notice w w'
    → IsConsistent w.tables
    → IsConsistent w'.tables
Committed-IsConsistent env req notice w w' c v = subst IsConsistent (sym c.tables) (
    booked_tables-IsConsistent env req w.tables w'.tables c.slot v c.found
      (opened_of env.now notice c.slot c.bookable))
  where
    opened_of : (now n : ℕ) (s : Slot) → is_bookable now n s ≡ true → is_opened s.status ≡ true
    opened_of now n s h = ground arith

Ended-IsConsistent :
    (env : Env) (req : BookingRequest) (w : World) (out : Result BookingResult × World)
    → Ended env req w out
    → IsConsistent w.tables
    → IsConsistent out.1.tables
Ended-IsConsistent env req w (err e, w') same v = subst (λ x. IsConsistent x.tables) (sym same) v
Ended-IsConsistent env req w (ok r, w') (inl (same, h)) v =
    subst (λ x. IsConsistent x.tables) (sym same) v
Ended-IsConsistent env req w (ok r, w') (inr (notice, e, all, h)) v =
    Committed-IsConsistent env req notice w w' all v

-- On one connection a call of `create_booking`, whichever of its statements fail, leaves every
-- slot with at most one live booking, and every slot with a live booking marked booked, if that
-- held before it and no transaction was open.
pub create_booking-IsConsistent :
    (env : Env) (req : BookingRequest) (w : World)
    → env.connection ≡ one_client
    → w.saved ≡ none
    → IsConsistent w.tables
    → IsConsistent (create_booking env req w).1.tables
create_booking-IsConsistent env req w c n v =
    Ended-IsConsistent env req w (create_booking env req w) (create_booking-Ended env req w c n) v

-- So no two calls book one slot: a slot that a live booking holds is not booked again, whatever
-- the unique index would say.
pub create_booking_taken :
    (env : Env) (req : BookingRequest) (w : World)
    → env.connection ≡ one_client
    → w.saved ≡ none
    → IsConsistent w.tables
    → 1 ≤ live_count req.slot_id w.tables.bookings
    → (create_booking env req w).1 ≡ w
create_booking_taken env req w c n v held =
    ends (create_booking env req w) (create_booking-Ended env req w c n)
  where
    ends : (out : Result BookingResult × World) → Ended env req w out → out.1 ≡ w
    ends (err e, w') same = same
    ends (ok r, w') (inl (same, h)) = same
    ends (ok r, w') (inr (notice, e, all, h)) =
        absurd (ground (arith, all.found, all.bookable, v.marked req.slot_id held))
