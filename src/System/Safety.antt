-- ===== src/System/Safety.antt =====
-- However requests and jobs follow each other, no slot is booked twice.
use chronos_appointment_sche.Base.{
  ℕ, ◌≡◌, refl, sym, subst, arith, Option, none, some, lookup, ◌⊎◌, inl, inr, Option-cases,
  Bool-cases, ◌==◌, by_run,
}
use chronos_appointment_sche.Schema.{Tables, BookingRequest, RescheduleRequest, Booking}
use chronos_appointment_sche.Schema.Live.{IsConsistent, Agrees}
use chronos_appointment_sche.Schema.World.{
  World, one_client, Result, ok, err, Connection, >>=-keeps, ◌>>=◌, ◌>>◌, pure,
}
use chronos_appointment_sche.Bookings.Outcome.{BookingResult, not_found, unauthorized}
use chronos_appointment_sche.Bookings.Create
use chronos_appointment_sche.Bookings.Create.{create_booking}
use chronos_appointment_sche.Bookings.Create.Consistent.{create_booking-IsConsistent}
use chronos_appointment_sche.Bookings.Reschedule
use chronos_appointment_sche.Bookings.Reschedule.{reschedule_booking}
use chronos_appointment_sche.Bookings.Reschedule.Consistent.{reschedule_booking-IsConsistent}
use chronos_appointment_sche.Bookings.Controller
use chronos_appointment_sche.Bookings.Controller.{
  create_handler, reschedule_handler, notify, Statement, read_booking, response_of, result,
  Response, rejected, owned_by,
}
use chronos_appointment_sche.Bookings.Controller.Status.{confirm_handler, decline_handler}
use chronos_appointment_sche.Bookings.Controller.Status.Slots.{
  confirm_handler-IsConsistent, decline_handler-IsConsistent,
}
use chronos_appointment_sche.Bookings.Controller.Cancel.{cancel_handler}
use chronos_appointment_sche.Bookings.Controller.Cancel.Slots.{cancel_handler-IsConsistent}
use chronos_appointment_sche.Bookings.Prisma.Laws.{transition-IsConsistent, cancel-IsConsistent}
use chronos_appointment_sche.Reminders.Worker
use chronos_appointment_sche.Reminders.Worker.{process}
use chronos_appointment_sche.Reminders.Worker.Once.{process-Ran}
use chronos_appointment_sche.Email.Token.{Text, Codec, unsubscribe_reminders}
use chronos_appointment_sche.System.Patch.{status_handler-IsConsistent}
use chronos_appointment_sche.System.{
  fresh, Reach, here, next, create, move, cancel, confirm, decline, patch, transit, withdraw,
  remind, unsubscribe,
}

-- Consistency speaks of slots and bookings only.
abbrev SameRows : Tables → Tables → Type 0
SameRows t u = (u.slots ≡ t.slots) × (u.bookings ≡ t.bookings)

same_rows : (t u : Tables) → SameRows t u → IsConsistent t → IsConsistent u
same_rows t u (s, b) v = subst (λ k. Agrees k u.bookings) (sym s) (subst (Agrees t.slots) (sym b) v)

notify-SameRows :
    (env : Controller.Env) (client slot_id : ℕ) (r : BookingResult) (w : World)
    → SameRows w.tables (notify env client slot_id r w).1.tables
unfolding notify
notify-SameRows env client slot_id r w = (ground arith, ground arith)

pub create_handler-IsConsistent :
    (env : Controller.Env) (service : Create.Checks.Env) (session : Option ℕ)
    (body : BookingRequest) (w : World)
    → service.connection ≡ one_client
    → w.saved ≡ none
    → IsConsistent w.tables
    → IsConsistent (create_handler env service session body w).1.tables
unfolding create_handler
create_handler-IsConsistent env service none body w c n v = v
create_handler-IsConsistent env service (some client) body w c n v =
    let req = record body { client_id = client; provider_id = none } in
    >>=-keeps (λ u. IsConsistent u.tables) (create_booking service req)
      (λ r. notify env client req.slot_id r >> pure (response_of env r)) w
      (create_booking-IsConsistent service req w c n v)
      (λ r u h.
        >>=-keeps (λ u'. IsConsistent u'.tables) (notify env client req.slot_id r)
          (λ _. pure (response_of env r)) u
          (same_rows u.tables (notify env client req.slot_id r u).1.tables
            (notify-SameRows env client req.slot_id r u) h)
          (λ _ u' h'. h'))

pub owned_by-cases :
    (client : ℕ) (row : Option Booking)
    → ((r : Response) × (owned_by client row ≡ inl r))
      ⊎ ((b : Booking) × (owned_by client row ≡ inr b))
owned_by-cases client none = inl (rejected 404 not_found, refl)
owned_by-cases client (some b) = elim (Bool-cases (b.client_id == client)) [
  | inl e ↦ inr (b, ground arith)
  | inr e ↦ inl (rejected 403 unauthorized, ground arith)
]

pub reschedule_handler-IsConsistent :
    (env : Controller.Env) (service : Reschedule.Checks.Env) (session : Option ℕ)
    (body : RescheduleRequest) (w : World)
    → w.saved ≡ none
    → IsConsistent w.tables
    → IsConsistent (service.meanwhile w.tables)
    → IsConsistent (reschedule_handler env service session body w).1.tables
unfolding reschedule_handler
reschedule_handler-IsConsistent env service none body w n v between = v
reschedule_handler-IsConsistent env service (some client) body w n v between =
    let call = reschedule_handler env service (some client) body w in
    elim (Option-cases (env.fails read_booking)) [
      | inr (x, e) ↦
          by_run (λ (out : Result Response × World). IsConsistent out.1.tables) call (err x, w)
            (ground arith) v
      | inl e ↦ elim (owned_by-cases client (lookup body.booking_id w.tables.bookings)) [
        | inl (r, f) ↦
            by_run (λ (out : Result Response × World). IsConsistent out.1.tables) call (ok r, w)
              (ground arith) v
        | inr (b, f) ↦
            by_run (λ (out : Result Response × World). IsConsistent out.1.tables) call
              ((reschedule_booking service body >>= λ r. pure (result r)) w) (ground arith)
              (>>=-keeps (λ u. IsConsistent u.tables) (reschedule_booking service body)
                (λ r. pure (result r)) w
                (reschedule_booking-IsConsistent service body w n v between) (λ _ u h. h))
      ]
    ]

process-SameRows :
    (env : Worker.Env) (reminder_id : Option ℕ) (w : World)
    → SameRows w.tables (process env reminder_id w).1.tables
unfolding process
process-SameRows env none w = (refl, refl)
process-SameRows env (some id) w = elim (Option-cases (lookup id w.tables.reminder_jobs)) [
  | inl e ↦ (ground arith, ground arith)
  | inr (j, e) ↦
      let (same, others) = (process-Ran env id w {j = j} e).only in
      (ground (arith, same), ground (arith, same))
]

unsubscribe-SameRows :
    (codec : Codec) (token : Option Text) (now : ℕ) (t : Tables)
    → SameRows t (unsubscribe_reminders codec token now t).1
unfolding unsubscribe_reminders
unsubscribe-SameRows codec none now t = (refl, refl)
unsubscribe-SameRows codec (some token) now t = (ground arith, ground arith)

cancel_any-IsConsistent :
    (env : Controller.Env) (c : Connection) (session : Option ℕ) (m id : ℕ) (w : World)
    → w.saved ≡ none
    → IsConsistent w.tables
    → IsConsistent (cancel_handler env c session m id w).1.tables
unfolding cancel_handler
cancel_any-IsConsistent env c none m id w n v = v
cancel_any-IsConsistent env c (some client) m id w n v =
    cancel_handler-IsConsistent env c client m id w n v

confirm_any-IsConsistent :
    (env : Controller.Env) (session : Option ℕ) (id : ℕ) (w : World)
    → w.saved ≡ none
    → IsConsistent w.tables
    → IsConsistent (confirm_handler env session id w).1.tables
unfolding confirm_handler
confirm_any-IsConsistent env none id w n v = v
confirm_any-IsConsistent env (some client) id w n v =
    confirm_handler-IsConsistent env client id w n v

decline_any-IsConsistent :
    (env : Controller.Env) (session : Option ℕ) (id : ℕ) (w : World)
    → w.saved ≡ none
    → IsConsistent w.tables
    → IsConsistent (decline_handler env session id w).1.tables
unfolding decline_handler
decline_any-IsConsistent env none id w n v = v
decline_any-IsConsistent env (some client) id w n v =
    decline_handler-IsConsistent env client id w n v

-- However requests that create, move, cancel, confirm or decline bookings or set their status, runs
-- of the worker, cancellations and transitions of the lifecycle service and unsubscriptions follow each
-- other, whoever sends them and whatever fails in them, slots and bookings stay consistent: no slot
-- carries two live bookings, and one that carries any is marked booked. Left out is the request that sets
-- a cancelled booking to booked or completed. A booking is created on one connection, and
-- between the two transactions of a move any such sequence may run.
pub Reach-IsConsistent : (t u : Tables) → Reach t u → IsConsistent t → IsConsistent u
Reach-IsConsistent t u here v = v
Reach-IsConsistent t u (next {u = m} r (create env service session body one e)) v =
    subst IsConsistent (sym e) (
      create_handler-IsConsistent env service session body (fresh m) one refl
        (Reach-IsConsistent t m r v))
Reach-IsConsistent t u (next {u = m} r (move env service session body between e)) v =
    subst IsConsistent (sym e) (
      reschedule_handler-IsConsistent env service session body (fresh m) refl
        (Reach-IsConsistent t m r v)
        (Reach-IsConsistent m (service.meanwhile m) between (Reach-IsConsistent t m r v)))
Reach-IsConsistent t u (next {u = m} r (cancel env c session n id e)) v =
    subst IsConsistent (sym e)
      (cancel_any-IsConsistent env c session n id (fresh m) refl (Reach-IsConsistent t m r v))
Reach-IsConsistent t u (next {u = m} r (confirm env session id e)) v =
    subst IsConsistent (sym e)
      (confirm_any-IsConsistent env session id (fresh m) refl (Reach-IsConsistent t m r v))
Reach-IsConsistent t u (next {u = m} r (decline env session id e)) v =
    subst IsConsistent (sym e)
      (decline_any-IsConsistent env session id (fresh m) refl (Reach-IsConsistent t m r v))
Reach-IsConsistent t u (next {u = m} r (patch env session id text dead e)) v =
    subst IsConsistent (sym e) (
      status_handler-IsConsistent env session id text (fresh m) refl (Reach-IsConsistent t m r v)
        dead)
Reach-IsConsistent t u (next {u = m} r (transit id to expected e)) v =
    transition-IsConsistent id to expected m u e (Reach-IsConsistent t m r v)
Reach-IsConsistent t u (next {u = m} r (withdraw now id hours e)) v =
    cancel-IsConsistent now id hours m u e (Reach-IsConsistent t m r v)
Reach-IsConsistent t u (next {u = m} r (remind env id e)) v = subst IsConsistent (sym e) (
    same_rows m (process env id (fresh m)).1.tables (process-SameRows env id (fresh m))
      (Reach-IsConsistent t m r v))
Reach-IsConsistent t u (next {u = m} r (unsubscribe codec token now e)) v =
    subst IsConsistent (sym e) (
      same_rows m (unsubscribe_reminders codec token now m).1
        (unsubscribe-SameRows codec token now m) (Reach-IsConsistent t m r v))
