-- ===== src/Bookings/Controller/Cancel/Laws.antt =====
-- Cancelling a booking.
use chronos_appointment_sche.Base.{
  ℕ, ◌≡◌, refl, by_run, Bool, true, none, some, arith, Option-cases, Bool-cases, ◌⊎◌, inl, inr,
  ◌==◌, lookup,
}
use chronos_appointment_sche.Schema.{Tables, Booking, SlotStatus}
use chronos_appointment_sche.Schema.Statements.{set_slot, set_booking}
use chronos_appointment_sche.Schema.World.{
  Result, World, ok, err, one_client, scattered, Connection,
}
use chronos_appointment_sche.Bookings.Outcome.{not_found, unauthorized, version_mismatch}
use chronos_appointment_sche.Bookings.Lifecycle.{evaluate_cancellation, CancelResult}
use chronos_appointment_sche.Bookings.Controller.{
  Env, Response, rejected, no_content, begin_tx, read_booking, read_slot, read_provider,
  write_booking, write_slot, commit_tx, cancel_jobs,
}
use chronos_appointment_sche.Bookings.Controller.Cancel.{
  cancel_row, cancel_request, provider_of, cancel_owned, cancel_handler, denial,
}

abbrev outcome : Env → ℕ → Tables → Booking → CancelResult
outcome env if_match t b =
    evaluate_cancellation
      (cancel_request env if_match (lookup b.slot_id t.slots) (provider_of b.slot_id t)) b.status
      b.version

abbrev verdict : Env → ℕ → Tables → Booking → Bool
verdict env if_match t b = (outcome env if_match t b).allowed

-- A booking that the client may cancel.
pub record MayCancel (env : Env) (client if_match id : ℕ) (t : Tables) (b : Booking) : Type 0 where
  pub found : lookup id t.bookings ≡ some b
  pub owner : (b.client_id == client) ≡ true
  pub version : (if_match == b.version) ≡ true
  pub allowed : verdict env if_match t b ≡ true

-- The tables after the first write, and after both.
abbrev pub cancelled_tables : Env → ℕ → Tables → Tables
cancelled_tables env id = set_booking (cancel_row env.now) id

abbrev pub freed_tables : Env → ℕ → Booking → Tables → Tables
freed_tables env id b t = set_slot SlotStatus.opened b.slot_id (cancelled_tables env id t)

-- How a cancellation ends.
abbrev pub CancelEnds :
    Env → Connection → (client if_match id : ℕ) → Tables → Result Response × World → Type 0
CancelEnds env c client m id t (ok no_content, w') =
    (b : Booking) × MayCancel env client m id t b × (w'.tables ≡ freed_tables env id b t)
CancelEnds env c client m id t (ok _, w') = w'.tables ≡ t
CancelEnds env c client m id t (err e, w') =
    (w'.tables ≡ t)
    ⊎ ((b : Booking) × MayCancel env client m id t b
        × (c ≡ scattered)
        × ((w'.tables ≡ cancelled_tables env id t) ⊎ (w'.tables ≡ freed_tables env id b t)))

cancel_jobs-none : (env : Env) (w : World) → cancel_jobs env none w ≡ (ok tt, w)
cancel_jobs-none env w = elim (Option-cases env.queue) [
  | inl e ↦ ground arith
  | inr (q, e) ↦ ground arith
]

-- On one client a failure leaves the tables as they were.
one_client-Ends :
    (env : Env) (client m id : ℕ) (w : World)
    → w.saved ≡ none
    → (b : Booking) → MayCancel env client m id w.tables b
    → env.fails read_slot ≡ none
    → env.fails read_provider ≡ none
    → CancelEnds env one_client client m id w.tables (cancel_owned env one_client m id b w)
unfolding cancel_owned
one_client-Ends env client m id w n b may f1 f2 =
    let call = cancel_owned env one_client m id b w in
    let Ends = CancelEnds env one_client client m id w.tables in
    let v = may.version in
    let a = may.allowed in
    let done : World = record w { tables = freed_tables env id b w.tables; saved = none } in
    let undone : World = record w { saved = none } in
    let jobs = cancel_jobs-none env done in
    elim (Option-cases (env.fails begin_tx)) [
      | inr (x, g) ↦ by_run Ends call (err x, w) (ground arith) (inl refl)
      | inl g ↦ elim (Option-cases (env.fails write_booking)) [
        | inr (x, h) ↦ by_run Ends call (err x, undone) (ground arith) (inl refl)
        | inl h ↦ elim (Option-cases (env.fails write_slot)) [
          | inr (x, k) ↦ by_run Ends call (err x, undone) (ground arith) (inl refl)
          | inl k ↦ elim (Option-cases (env.fails commit_tx)) [
            | inr (x, l) ↦ by_run Ends call (err x, undone) (ground arith) (inl refl)
            | inl l ↦ by_run Ends call (ok no_content, done) (ground arith) (b, may, refl)
          ]
        ]
      ]
    ]

-- On scattered connections each statement stands by itself.
scattered-Ends :
    (env : Env) (client m id : ℕ) (w : World)
    → w.saved ≡ none
    → (b : Booking) → MayCancel env client m id w.tables b
    → env.fails read_slot ≡ none
    → env.fails read_provider ≡ none
    → CancelEnds env scattered client m id w.tables (cancel_owned env scattered m id b w)
unfolding cancel_owned
scattered-Ends env client m id w n b may f1 f2 =
    let call = cancel_owned env scattered m id b w in
    let Ends = CancelEnds env scattered client m id w.tables in
    let v = may.version in
    let a = may.allowed in
    let w2 : World = record w { tables = cancelled_tables env id w.tables } in
    let w3 : World = record w { tables = freed_tables env id b w.tables } in
    let jobs = cancel_jobs-none env (record w3 { saved = none }) in
    elim (Option-cases (env.fails begin_tx)) [
      | inr (x, g) ↦ by_run Ends call (err x, w) (ground arith) (inl refl)
      | inl g ↦ elim (Option-cases (env.fails write_booking)) [
        | inr (x, h) ↦ by_run Ends call (err x, w) (ground arith) (inl refl)
        | inl h ↦ elim (Option-cases (env.fails write_slot)) [
          | inr (x, k) ↦ by_run Ends call (err x, w2) (ground arith) (inr (b, may, refl, inl refl))
          | inl k ↦ elim (Option-cases (env.fails commit_tx)) [
            | inr (x, l) ↦
                by_run Ends call (err x, w3) (ground arith) (inr (b, may, refl, inr refl))
            | inl l ↦
                by_run Ends call (ok no_content, record w3 { saved = none }) (ground arith)
                  (b, may, refl)
          ]
        ]
      ]
    ]

rows-Ends :
    (env : Env) (c : Connection) (client m id : ℕ) (w : World)
    → w.saved ≡ none
    → (b : Booking) → MayCancel env client m id w.tables b
    → env.fails read_slot ≡ none
    → env.fails read_provider ≡ none
    → CancelEnds env c client m id w.tables (cancel_owned env c m id b w)
rows-Ends env one_client = one_client-Ends env
rows-Ends env scattered = scattered-Ends env

module _ (env : Env) (c : Connection) (client m id : ℕ) (w : World) (n : w.saved ≡ none) where
  abbrev Ends : Result Response × World → Type 0
  Ends = CancelEnds env c client m id w.tables

  owned-Ends :
      (b : Booking)
      → lookup id w.tables.bookings ≡ some b
      → (b.client_id == client) ≡ true
      → Ends (cancel_owned env c m id b w)
  unfolding cancel_owned
  owned-Ends b found own =
      let call = cancel_owned env c m id b w in
      elim (Bool-cases (m == b.version)) [
        | inr v ↦ by_run Ends call (ok (rejected 412 version_mismatch), w) (ground arith) refl
        | inl v ↦ elim (Option-cases (env.fails read_slot)) [
          | inr (x, f1) ↦ by_run Ends call (err x, w) (ground arith) (inl refl)
          | inl f1 ↦ elim (Option-cases (env.fails read_provider)) [
            | inr (x, f2) ↦ by_run Ends call (err x, w) (ground arith) (inl refl)
            | inl f2 ↦ elim (Bool-cases (verdict env m w.tables b)) [
              | inl a ↦
                  rows-Ends env c client m id w n b
                    (record { found = found; owner = own; version = v; allowed = a }) f1 f2
              | inr a ↦
                  by_run Ends call (ok (denial (outcome env m w.tables b)), w) (ground arith) refl
            ]
          ]
        ]
      ]

  -- POST cancel by the client's session, with no transaction open before: an answer other than no
  -- content changes no table. No content is answered only when the booking was found, is the client's own,
  -- has the version of the If-Match header and may be cancelled: it is cancelled at the time of the call
  -- and its slot is open, and nothing else changed. An exception changes no table either when the pool
  -- gives the statements one client; when it scatters them over several, a failure after the
  -- first write leaves the booking cancelled, with the slot open or not.
  pub cancel_handler-CancelEnds : Ends (cancel_handler env c (some client) m id w)
  unfolding cancel_handler
  cancel_handler-CancelEnds =
      let call = cancel_handler env c (some client) m id w in
      elim (Option-cases (env.fails read_booking)) [
        | inr (x, f) ↦ by_run Ends call (err x, w) (ground arith) (inl refl)
        | inl f ↦ elim (Option-cases (lookup id w.tables.bookings)) [
          | inl e ↦ by_run Ends call (ok (rejected 404 not_found), w) (ground arith) refl
          | inr (b, e) ↦ elim (Bool-cases (b.client_id == client)) [
            | inr own ↦ by_run Ends call (ok (rejected 403 unauthorized), w) (ground arith) refl
            | inl own ↦
                by_run Ends call (cancel_owned env c m id b w) (ground arith) (owned-Ends b e own)
          ]
        ]
      ]
