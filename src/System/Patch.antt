-- ===== src/System/Patch.antt =====
-- PATCH /bookings/:id/status keeps slots and bookings consistent where it revives no booking.
use chronos_appointment_sche.Base.{
  ℕ, ◌+◌, ◌≤◌, ◌≡◌, ap, subst, by_run, true, false, Option, none, some, arith, Option-cases,
  Bool-cases, inl, inr, ◌==◌, ◌++◌, ◌∷◌, [], lookup, ltb,
}
use chronos_appointment_sche.Schema.{Booking, BookingStatus}
use chronos_appointment_sche.Schema.Live.{IsConsistent, Agrees-adjust, live_count, weight}
use chronos_appointment_sche.Schema.Statements.{set_booking}
use chronos_appointment_sche.Schema.World.{
  Result, World, ok, err, with_queue, release_client, check_violation, unique_violation,
}
use chronos_appointment_sche.Bookings.Outcome.{not_found, unauthorized, invalid_status}
use chronos_appointment_sche.Bookings.Controller.{
  Env, Response, StatusText, rejected, updated, connect, begin_tx, read_booking, write_booking,
  commit_tx, cancel_jobs,
}
use chronos_appointment_sche.Bookings.Controller.Status.{
  status_handler, update_row, status_named, is_allowed_text, is_cancel_text,
}
use chronos_appointment_sche.Bookings.Controller.Status.Laws.{cancel_jobs-with_queue}
use chronos_appointment_sche.System.{revives}

abbrev with_status : BookingStatus → Booking → Booking
with_status s b = record b { status = s; version = b.version + 1 }

-- A status that revives nothing makes no booking heavier.
lighter :
    (text : StatusText) (b : Booking) (s : BookingStatus)
    → revives text (some b) ≡ false
    → status_named text ≡ some s
    → (k : ℕ) → weight k (with_status s b) ≤ weight k b
lighter StatusText.confirmed b s h e k = ground (arith, e)
lighter StatusText.declined b s h e k = ground (arith, e)
lighter StatusText.completed b s h e k = ground (arith, h)
lighter StatusText.cancelled b s h e k = ground (arith, e)
lighter StatusText.booked b s h e k = ground (arith, h)
lighter StatusText.other b s h e k = ground (arith, e)

module _ (env : Env) (client id : ℕ) (text : StatusText) (w : World) (n : w.saved ≡ none)
    (v : IsConsistent w.tables) (dead : revives text (lookup id w.tables.bookings) ≡ false) where
  abbrev call : Result Response × World
  call = status_handler env (some client) id text w

  abbrev Keeps : Result Response × World → Type 0
  Keeps out = IsConsistent out.1.tables

  abbrev after : World
  after = record w { saved = none; effects = w.effects ++ release_client ∷ [] }

  abbrev patched : BookingStatus → World
  patched s = record w { tables = set_booking (with_status s) id w.tables; saved = none }

  patched-IsConsistent :
      (b : Booking)
      → lookup id w.tables.bookings ≡ some b
      → (s : BookingStatus) → status_named text ≡ some s
      → IsConsistent (patched s).tables
  patched-IsConsistent b found s e =
      Agrees-adjust w.tables.slots w.tables.bookings v id (with_status s) {b = b} found
        (lighter text b s (subst (λ o. revives text o ≡ false) found dead) e)

  named-Keeps :
      (b : Booking)
      → lookup id w.tables.bookings ≡ some b
      → (b.client_id == client) ≡ true
      → env.fails connect ≡ none
      → env.fails begin_tx ≡ none
      → env.fails read_booking ≡ none
      → is_allowed_text text ≡ true
      → env.fails write_booking ≡ none
      → (s : BookingStatus) → status_named text ≡ some s
      → Keeps call
  unfolding status_handler update_row
  named-Keeps b found own f1 f2 f3 allowed f4 s e =
      let t = set_booking (with_status s) id w.tables in
      elim (Bool-cases (ltb 1 (live_count b.slot_id t.bookings))) [
        | inl twice ↦ by_run Keeps call (err unique_violation, after) (ground arith) v
        | inr once ↦ elim (Option-cases (env.fails commit_tx)) [
          | inr (x, f5) ↦ by_run Keeps call (err x, after) (ground arith) v
          | inl f5 ↦ elim (Bool-cases (is_cancel_text text)) [
            | inr other ↦
                by_run Keeps call
                  (
                    ok (updated id s (b.version + 1)),
                    record (patched s) { effects = w.effects ++ release_client ∷ [] },
                  )
                  (ground arith) (patched-IsConsistent b found s e)
            | inl cancels ↦
                let done = (cancel_jobs env (some id) (patched s)).1 in
                let jobs = cancel_jobs-with_queue env (some id) (patched s) in
                by_run Keeps call
                  (
                    ok (updated id s (b.version + 1)),
                    record done { effects = done.effects ++ release_client ∷ [] },
                  )
                  (ground (arith, jobs))
                  (by_run (λ u. IsConsistent u.tables) done (with_queue (patched s) done)
                    (ap (λ out. out.1) jobs) (patched-IsConsistent b found s e))
          ]
        ]
      ]

  owned-Keeps :
      (b : Booking)
      → lookup id w.tables.bookings ≡ some b
      → (b.client_id == client) ≡ true
      → env.fails connect ≡ none
      → env.fails begin_tx ≡ none
      → env.fails read_booking ≡ none
      → Keeps call
  unfolding status_handler update_row
  owned-Keeps b found own f1 f2 f3 = elim (Bool-cases (is_allowed_text text)) [
    | inr refused ↦ by_run Keeps call (ok (rejected 422 invalid_status), after) (ground arith) v
    | inl allowed ↦ elim (Option-cases (env.fails write_booking)) [
      | inr (x, f4) ↦ by_run Keeps call (err x, after) (ground arith) v
      | inl f4 ↦ elim (Option-cases (status_named text)) [
        | inl e ↦ by_run Keeps call (err check_violation, after) (ground arith) v
        | inr (s, e) ↦ named-Keeps b found own f1 f2 f3 allowed f4 s e
      ]
    ]
  ]

  client-Keeps : Keeps call
  unfolding status_handler
  client-Keeps = elim (Option-cases (env.fails connect)) [
    | inr (x, f1) ↦ by_run Keeps call (err x, w) (ground arith) v
    | inl f1 ↦ elim (Option-cases (env.fails begin_tx)) [
      | inr (x, f2) ↦ by_run Keeps call (err x, after) (ground arith) v
      | inl f2 ↦ elim (Option-cases (env.fails read_booking)) [
        | inr (x, f3) ↦ by_run Keeps call (err x, after) (ground arith) v
        | inl f3 ↦ elim (Option-cases (lookup id w.tables.bookings)) [
          | inl e ↦ by_run Keeps call (ok (rejected 404 not_found), after) (ground arith) v
          | inr (b, e) ↦ elim (Bool-cases (b.client_id == client)) [
            | inr own ↦ by_run Keeps call (ok (rejected 403 unauthorized), after) (ground arith) v
            | inl own ↦ owned-Keeps b e own f1 f2 f3
          ]
        ]
      ]
    ]
  ]

pub status_handler-IsConsistent :
    (env : Env) (session : Option ℕ) (id : ℕ) (text : StatusText) (w : World)
    → w.saved ≡ none
    → IsConsistent w.tables
    → revives text (lookup id w.tables.bookings) ≡ false
    → IsConsistent (status_handler env session id text w).1.tables
unfolding status_handler
status_handler-IsConsistent env none id text w n v dead = v
status_handler-IsConsistent env (some client) id text w n v dead =
    client-Keeps env client id text w n v dead
