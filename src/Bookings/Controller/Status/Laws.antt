-- ===== src/Bookings/Controller/Status/Laws.antt =====
-- Confirming, declining, and setting a status by name.
use chronos_appointment_sche.Base.{
  ℕ, ◌+◌, ◌≡◌, refl, by_run, ◌++◌, true, Option, none, some, [], ◌∷◌, arith, Option-cases,
  Bool-cases, inl, inr, ◌==◌, lookup, adjust,
}
use chronos_appointment_sche.Schema.{Tables, Booking, BookingStatus, is_booked}
use chronos_appointment_sche.Schema.Statements.{set_booking}
use chronos_appointment_sche.Schema.World.{
  M, Result, World, ok, err, pure, with_queue, release_client,
}
use chronos_appointment_sche.Reminders.Queue.Frame.{cancel_for_booking-with_queue}
use chronos_appointment_sche.Bookings.Outcome.{not_found, unauthorized, invalid_transition}
use chronos_appointment_sche.Bookings.Controller.{
  Env, Response, rejected, updated, connect, begin_tx, read_booking, write_booking, commit_tx,
  cancel_jobs,
}
use chronos_appointment_sche.Bookings.Controller.Status.{
  finish_row, finish_handler, confirm_handler, decline_handler,
}

pub cancel_jobs-with_queue :
    (env : Env) (o : Option ℕ) (w : World)
    → cancel_jobs env o w ≡ (ok tt, with_queue w (cancel_jobs env o w).1)
cancel_jobs-with_queue env none w = ground arith
cancel_jobs-with_queue env (some id) w = elim (Option-cases env.queue) [
  | inl e ↦ ground arith
  | inr (q, e) ↦ ground (arith, cancel_for_booking-with_queue q id w)
]

-- A change of one booking that the client owns and that is booked, and of nothing else but the
-- reminder jobs.
pub record Finished (env : Env) (s : BookingStatus) (at : Booking → Option ℕ) (client id v : ℕ)
    (t t' : Tables) : Type 0 where
  pub row : Booking
  pub found : lookup id t.bookings ≡ some row
  pub owner : row.client_id ≡ client
  pub was_booked : is_booked row.status ≡ true
  pub bookings : t'.bookings ≡ adjust id (finish_row s (at row)) t.bookings
  pub answer : v ≡ row.version + 1
  pub slots : t'.slots ≡ t.slots

-- How confirm and decline end: refused with nothing changed, or `updated`, and all done.
abbrev pub FinishEnds :
    Env
    → BookingStatus
    → (Booking → Option ℕ)
    → (client id : ℕ) → Tables
    → Result Response × World
    → Type 0
FinishEnds env s at client id t (ok (updated i st v), w') =
    (i ≡ id) × (st ≡ s) × Finished env s at client id v t w'.tables
FinishEnds env s at client id t (ok _, w') = w'.tables ≡ t
FinishEnds env s at client id t (err e, w') = w'.tables ≡ t

module _ (env : Env) (s : BookingStatus) (at : Booking → Option ℕ) (then_do : M (Unit {0}))
    (quiet : (w : World) → then_do w ≡ (ok tt, with_queue w (then_do w).1)) (client id : ℕ)
    (w : World) where
  abbrev call : M Response
  call = finish_handler env s at then_do (some client) id

  abbrev after : World
  after = record w { saved = none; effects = w.effects ++ release_client ∷ [] }

  abbrev finished : Booking → World
  finished b = record w { tables = set_booking (finish_row s (at b)) id w.tables; saved = none }

  finished-FinishEnds :
      (b : Booking)
      → lookup id w.tables.bookings ≡ some b
      → (b.client_id == client) ≡ true
      → is_booked b.status ≡ true
      → env.fails connect ≡ none
      → env.fails begin_tx ≡ none
      → env.fails read_booking ≡ none
      → FinishEnds env s at client id w.tables (call w)
  unfolding finish_handler
  finished-FinishEnds b found own booked f1 f2 f3 = elim (Option-cases (env.fails write_booking)) [
    | inr (x, f4) ↦
        by_run (FinishEnds env s at client id w.tables) (call w) (err x, after) (ground arith) refl
    | inl f4 ↦ elim (Option-cases (env.fails commit_tx)) [
      | inr (x, f5) ↦
          by_run (FinishEnds env s at client id w.tables) (call w) (err x, after) (ground arith)
            refl
      | inl f5 ↦
          let done = (then_do (finished b)).1 in
          by_run (FinishEnds env s at client id w.tables) (call w)
            (
              ok (updated id s (b.version + 1)),
              record done { effects = done.effects ++ release_client ∷ [] },
            )
            (ground (arith, quiet (finished b)))
            (
              refl,
              refl,
              record {
                row = b;
                found = found;
                owner = ground arith;
                was_booked = booked;
                bookings = ground (arith, quiet (finished b));
                answer = refl;
                slots = ground (arith, quiet (finished b));
              },
            )
    ]
  ]

  finish_handler-FinishEnds : w.saved ≡ none → FinishEnds env s at client id w.tables (call w)
  unfolding finish_handler
  finish_handler-FinishEnds n = elim (Option-cases (env.fails connect)) [
    | inr (x, f1) ↦
        by_run (FinishEnds env s at client id w.tables) (call w) (err x, w) (ground arith) refl
    | inl f1 ↦ elim (Option-cases (env.fails begin_tx)) [
      | inr (x, f2) ↦
          by_run (FinishEnds env s at client id w.tables) (call w) (err x, after) (ground arith)
            refl
      | inl f2 ↦ elim (Option-cases (env.fails read_booking)) [
        | inr (x, f3) ↦
            by_run (FinishEnds env s at client id w.tables) (call w) (err x, after) (ground arith)
              refl
        | inl f3 ↦ elim (Option-cases (lookup id w.tables.bookings)) [
          | inl e ↦
              by_run (FinishEnds env s at client id w.tables) (call w)
                (ok (rejected 404 not_found), after) (ground arith) refl
          | inr (b, e) ↦ elim (Bool-cases (b.client_id == client)) [
            | inr own ↦
                by_run (FinishEnds env s at client id w.tables) (call w)
                  (ok (rejected 403 unauthorized), after) (ground arith) refl
            | inl own ↦ elim (Bool-cases (is_booked b.status)) [
              | inr booked ↦
                  by_run (FinishEnds env s at client id w.tables) (call w)
                    (ok (rejected 409 invalid_transition), after) (ground arith) refl
              | inl booked ↦ finished-FinishEnds b e own booked f1 f2 f3
            ]
          ]
        ]
      ]
    ]
  ]

-- POST confirm, by the client's session and with no transaction open before: either the answer is
-- a refusal or an exception and no table changes; or the booking was found, is the client's own and
-- was booked, is now completed at the next version, which the answer names, and no other row of
-- bookings or slots changes.
pub confirm_handler-FinishEnds :
    (env : Env) (client id : ℕ) (w : World)
    → w.saved ≡ none
    → FinishEnds env BookingStatus.completed
        (λ b. b.cancelled_at)
        client
        id
        w.tables
        (confirm_handler env (some client) id w)
unfolding confirm_handler
confirm_handler-FinishEnds env client id w n =
    finish_handler-FinishEnds env BookingStatus.completed (λ b. b.cancelled_at) (pure tt)
      (λ v. refl) client id w n

-- The same of POST decline: the booking is now cancelled, at the time of the call.
pub decline_handler-FinishEnds :
    (env : Env) (client id : ℕ) (w : World)
    → w.saved ≡ none
    → FinishEnds env BookingStatus.cancelled
        (λ _. some env.now)
        client
        id
        w.tables
        (decline_handler env (some client) id w)
unfolding decline_handler
decline_handler-FinishEnds env client id w n =
    finish_handler-FinishEnds env BookingStatus.cancelled (λ _. some env.now)
      (cancel_jobs env (some id)) (cancel_jobs-with_queue env (some id)) client id w n
