-- ===== src/Bookings/Controller/Status/Slots.antt =====
-- What confirming and declining mean for the slots.
use chronos_appointment_sche.Base.{
  ℕ, ◌≤◌, ◌≡◌, sym, subst, true, Option, none, some, arith, ==_refl, lookup,
}
use chronos_appointment_sche.Schema.{Tables, Booking, BookingStatus, SlotStatus, is_booked}
use chronos_appointment_sche.Schema.Live.{
  IsConsistent, Agrees-adjust, live_count-cancel, Agrees, live_count, weight-le-live_count, weight,
  status_of,
}
use chronos_appointment_sche.Schema.World.{Result, World, ok, err}
use chronos_appointment_sche.Bookings.Controller.{Env, Response, updated}
use chronos_appointment_sche.Bookings.Controller.Status.{
  finish_row, confirm_handler, decline_handler,
}
use chronos_appointment_sche.Bookings.Controller.Status.Laws.{
  Finished, FinishEnds, confirm_handler-FinishEnds, decline_handler-FinishEnds,
}

Finished-IsConsistent :
    (env : Env) (s : BookingStatus) (at : Booking → Option ℕ) (client id v : ℕ) (t t' : Tables)
    → Finished env s at client id v t t'
    → IsConsistent t
    → IsConsistent t'
Finished-IsConsistent env s at client id v t t' f c =
    subst (λ k. Agrees k t'.bookings) (sym f.slots)
      (subst (Agrees t.slots) (sym f.bookings) (
        Agrees-adjust t.slots t.bookings c id (finish_row s (at f.row)) {b = f.row} f.found
          (λ k. weights k f.row f.was_booked)))
  where
    weights :
        (k : ℕ) (b : Booking)
        → is_booked b.status ≡ true
        → weight k (finish_row s (at f.row) b) ≤ weight k b
    weights k b h = ground arith

pub FinishEnds-IsConsistent :
    (env : Env) (s : BookingStatus) (at : Booking → Option ℕ) (client id : ℕ) (t : Tables)
    (out : Result Response × World)
    → FinishEnds env s at client id t out
    → IsConsistent t
    → IsConsistent out.1.tables
FinishEnds-IsConsistent env s at client id t (err e, w') same c = subst IsConsistent (sym same) c
FinishEnds-IsConsistent env s at client id t (ok (updated i st v), w') (_, _, f) c =
    Finished-IsConsistent env s at client id v t w'.tables f c
FinishEnds-IsConsistent env s at client id t (ok r, w') h c = subst IsConsistent (sym h) c

-- POST confirm by the client's session, with no transaction open before, keeps slots and bookings
-- consistent.
pub confirm_handler-IsConsistent :
    (env : Env) (client id : ℕ) (w : World)
    → w.saved ≡ none
    → IsConsistent w.tables
    → IsConsistent (confirm_handler env (some client) id w).1.tables
confirm_handler-IsConsistent env client id w n =
    FinishEnds-IsConsistent env BookingStatus.completed (λ b. b.cancelled_at) client id w.tables
      (confirm_handler env (some client) id w) (confirm_handler-FinishEnds env client id w n)

-- So does POST decline.
pub decline_handler-IsConsistent :
    (env : Env) (client id : ℕ) (w : World)
    → w.saved ≡ none
    → IsConsistent w.tables
    → IsConsistent (decline_handler env (some client) id w).1.tables
decline_handler-IsConsistent env client id w n =
    FinishEnds-IsConsistent env BookingStatus.cancelled (λ _. some env.now) client id w.tables
      (decline_handler env (some client) id w) (decline_handler-FinishEnds env client id w n)

Finished-strands :
    (env : Env) (client id v : ℕ) (t t' : Tables)
    → Finished env BookingStatus.cancelled (λ _. some env.now) client id v t t'
    → IsConsistent t
    → (row : Booking) × (lookup id t.bookings ≡ some row)
      × (live_count row.slot_id t'.bookings ≡ 0)
      × (status_of (lookup row.slot_id t'.slots) ≡ some SlotStatus.booked)
Finished-strands env client id v t t' f c = (
  f.row,
  f.found,
  rw (f.bookings) (
      live_count-cancel t.slots t.bookings c id (finish_row BookingStatus.cancelled (some env.now))
        {b = f.row} f.found held (ground arith)),
  rw (f.slots) (
      c.marked f.row.slot_id (
        omega (arith, held, weight-le-live_count f.row.slot_id id t.bookings {b = f.row} f.found))),
)
  where
    held : weight f.row.slot_id f.row ≡ 1
    held = ground (arith, f.was_booked, ==_refl f.row.slot_id)

-- A decline that is answered with the new status leaves the booking's slot marked booked with no
-- live booking on it: the slot is not opened again, if slots and bookings were consistent.
pub decline_handler_strands_slot :
    (env : Env) (client id v : ℕ) (w : World)
    → w.saved ≡ none
    → IsConsistent w.tables
    → (decline_handler env (some client) id w).0 ≡ ok (updated id BookingStatus.cancelled v)
    → (row : Booking) × (lookup id w.tables.bookings ≡ some row)
      × (live_count row.slot_id (decline_handler env (some client) id w).1.tables.bookings ≡ 0)
      × (status_of (lookup row.slot_id (decline_handler env (some client) id w).1.tables.slots)
          ≡ some SlotStatus.booked)
decline_handler_strands_slot env client id v w n c answer =
    Finished-strands env client id v w.tables (decline_handler env (some client) id w).1.tables
      (finished (decline_handler env (some client) id w).0 answer
        (decline_handler-FinishEnds env client id w n))
      c
  where
    finished :
        (r : Result Response)
        → r ≡ ok (updated id BookingStatus.cancelled v)
        → FinishEnds env BookingStatus.cancelled
            (λ _. some env.now)
            client
            id
            w.tables
            (r, (decline_handler env (some client) id w).1)
        → Finished env BookingStatus.cancelled
            (λ _. some env.now)
            client
            id
            v
            w.tables
            (decline_handler env (some client) id w).1.tables
    finished r e h =
        (subst
          (λ q.
            FinishEnds env BookingStatus.cancelled (λ _. some env.now) client id w.tables
              (q, (decline_handler env (some client) id w).1))
          e h).2
