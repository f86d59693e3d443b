-- ===== src/Bookings/Controller/Cancel/Slots.antt =====
-- Cancelling a booking, with the consistency of slots and bookings.
use chronos_appointment_sche.Base.{
  ℕ, ◌≤◌, ◌≡◌, sym, subst, none, some, arith, inl, inr, ==_refl, lookup,
}
use chronos_appointment_sche.Schema.{Tables, Booking, BookingStatus, SlotStatus}
use chronos_appointment_sche.Schema.Live.{
  IsConsistent, Agrees-slot, Agrees-adjust, live_count-cancel, weight,
}
use chronos_appointment_sche.Schema.World.{Result, World, ok, err, Connection}
use chronos_appointment_sche.Bookings.Lifecycle.Laws.{evaluate_cancellation_allowed}
use chronos_appointment_sche.Bookings.Controller.{Env, Response, no_content}
use chronos_appointment_sche.Bookings.Controller.Cancel.{
  cancel_row, cancel_request, provider_of, cancel_handler,
}
use chronos_appointment_sche.Bookings.Controller.Cancel.Laws.{
  MayCancel, CancelEnds, cancelled_tables, freed_tables, cancel_handler-CancelEnds,
}

module _ (env : Env) (c : Connection) (client m id : ℕ) (t : Tables) (v : IsConsistent t) where
  was_booked : (b : Booking) → MayCancel env client m id t b → b.status ≡ BookingStatus.booked
  was_booked b may =
      ((evaluate_cancellation_allowed
          (cancel_request env m (lookup b.slot_id t.slots) (provider_of b.slot_id t)) b.status
          b.version).0
        may.allowed).0

  cancelled-IsConsistent :
      (b : Booking) → MayCancel env client m id t b → IsConsistent (cancelled_tables env id t)
  cancelled-IsConsistent b may =
      Agrees-adjust t.slots t.bookings v id (cancel_row env.now) {b = b} may.found (λ k. lighter k)
    where
      lighter : (k : ℕ) → weight k (cancel_row env.now b) ≤ weight k b
      lighter k = ground arith

  freed-IsConsistent :
      (b : Booking) → MayCancel env client m id t b → IsConsistent (freed_tables env id b t)
  freed-IsConsistent b may =
      let t1 = cancelled_tables env id t in
      let held : weight b.slot_id b ≡ 1 = ground (arith, was_booked b may, ==_refl b.slot_id) in
      Agrees-slot t1.slots t1.bookings (cancelled-IsConsistent b may) b.slot_id
        (λ s. record s { status = SlotStatus.opened })
        (live_count-cancel t.slots t.bookings v id (cancel_row env.now) {b = b} may.found held
          (ground arith))

  CancelEnds-IsConsistent :
      (out : Result Response × World)
      → CancelEnds env c client m id t out
      → IsConsistent out.1.tables
  CancelEnds-IsConsistent (ok no_content, w') (b, may, same) =
      subst IsConsistent (sym same) (freed-IsConsistent b may)
  CancelEnds-IsConsistent (ok r, w') same = subst IsConsistent (sym same) v
  CancelEnds-IsConsistent (err e, w') (inl same) = subst IsConsistent (sym same) v
  CancelEnds-IsConsistent (err e, w') (inr (b, may, _, inl same)) =
      subst IsConsistent (sym same) (cancelled-IsConsistent b may)
  CancelEnds-IsConsistent (err e, w') (inr (b, may, _, inr same)) =
      subst IsConsistent (sym same) (freed-IsConsistent b may)

-- POST cancel by the client's session keeps slots and bookings consistent, wherever it fails and
-- whichever connections its statements go to.
pub cancel_handler-IsConsistent :
    (env : Env) (c : Connection) (client m id : ℕ) (w : World)
    → w.saved ≡ none
    → IsConsistent w.tables
    → IsConsistent (cancel_handler env c (some client) m id w).1.tables
cancel_handler-IsConsistent env c client m id w n v =
    CancelEnds-IsConsistent env c client m id w.tables v (cancel_handler env c (some client) m id w)
      (cancel_handler-CancelEnds env c client m id w n)
