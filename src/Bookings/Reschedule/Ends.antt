-- ===== src/Bookings/Reschedule/Ends.antt =====
-- The ends of the two transactions of rescheduleBooking.
use chronos_appointment_sche.Base.{
  ◌≡◌, ◌≢◌, refl, sym, subst, by_run, Option, none, some, List, [], ◌∷◌, ◌++◌, arith, Option-cases,
  Bool-cases, inl, inr, lookup,
}
use chronos_appointment_sche.Schema.{Booking, RescheduleRequest}
use chronos_appointment_sche.Schema.World.{M, Result, World, ok, err, Effect, release_client}
use chronos_appointment_sche.Bookings.Outcome.{
  BookingResult, slot_unavailable, refused, conflict_or_bad,
}
use chronos_appointment_sche.Bookings.Reschedule.Checks.{
  close_first, first_result, commit_first, begin_first, read_booking, Env, row_refusal, First,
  first_check, connect_second, begin_second, lock_booking, claim,
}
use chronos_appointment_sche.Bookings.Reschedule.{moved, is_ahead, locked, transaction, move}
use chronos_appointment_sche.Bookings.Create.Atomic.{conflict_or_bad-status}
use chronos_appointment_sche.Bookings.Reschedule.Moved.{
  MoveEnds, moved-MoveEnds, conflict_answer, claimed_world,
}

row_refusal-status :
    (req : RescheduleRequest) (o : Option Booking) (r : BookingResult)
    → row_refusal req o ≡ some r
    → r.status ≢ 201
unfolding row_refusal
row_refusal-status req none r h = ground arith
row_refusal-status req (some b) r h = ground arith

module _ (env : Env) (req : RescheduleRequest) (w : World) where
  abbrev begun : World
  begun = record w { saved = some w.tables }

  ends :
      (m : M BookingResult) (v : World) (out : Result BookingResult × World)
      → m v ≡ out
      → MoveEnds env req w.tables out
      → MoveEnds env req w.tables (m v)
  ends m v out run h = subst (MoveEnds env req w.tables) (sym run) h

  accepted-MoveEnds :
      (b : Booking)
      → lookup req.booking_id w.tables.bookings ≡ some b
      → row_refusal req (some b) ≡ none
      → MoveEnds env req w.tables (conflict_answer (locked env req (some b)) begun)
  unfolding locked moved
  accepted-MoveEnds b found accepted = elim (Option-cases (env.fails claim)) [
    | inr (x, fc) ↦
        ends (conflict_answer (locked env req (some b))) begun
          (ok (conflict_or_bad x), record w { saved = none }) (ground arith)
          (inl (refl, conflict_or_bad-status x))
    | inl fc ↦ elim (Option-cases (lookup req.new_slot_id w.tables.slots)) [
      | inl f ↦
          ends (conflict_answer (locked env req (some b))) begun
            (ok (refused 409 slot_unavailable), record w { saved = none }) (ground arith)
            (inl (refl, omega arith))
      | inr (s, f) ↦ elim (Bool-cases (is_ahead env.now s)) [
        | inl ahead ↦
            ends (conflict_answer (locked env req (some b))) begun
              (conflict_answer (moved env req b (some s)) (claimed_world req w)) (ground arith)
              (moved-MoveEnds env req w b s found accepted f ahead)
        | inr taken ↦
            ends (conflict_answer (locked env req (some b))) begun
              (ok (refused 409 slot_unavailable), record w { saved = none }) (ground arith)
              (inl (refl, omega arith))
      ]
    ]
  ]

  locked-MoveEnds :
      (o : Option Booking)
      → lookup req.booking_id w.tables.bookings ≡ o
      → MoveEnds env req w.tables (conflict_answer (locked env req o) begun)
  unfolding locked
  locked-MoveEnds none found = inl (refl, omega arith)
  locked-MoveEnds (some b) found = elim (Option-cases (row_refusal req (some b))) [
    | inl accepted ↦ accepted-MoveEnds b found accepted
    | inr (r, e) ↦
        ends (conflict_answer (locked env req (some b))) begun (ok r, record w { saved = none })
          (ground arith) (inl (refl, row_refusal-status req (some b) r e))
  ]

  transaction-MoveEnds :
      w.saved ≡ none → MoveEnds env req w.tables (conflict_answer (transaction env req) w)
  unfolding transaction
  transaction-MoveEnds n = elim (Option-cases (env.fails begin_second)) [
    | inr (x, e) ↦
        ends (conflict_answer (transaction env req)) w (ok (conflict_or_bad x), w) (ground arith)
          (inl (refl, conflict_or_bad-status x))
    | inl e ↦ elim (Option-cases (env.fails lock_booking)) [
      | inr (x, f) ↦
          ends (conflict_answer (transaction env req)) w
            (ok (conflict_or_bad x), record w { saved = none }) (ground arith)
            (inl (refl, conflict_or_bad-status x))
      | inl f ↦
          ends (conflict_answer (transaction env req)) w
            (conflict_answer (locked env req (lookup req.booking_id w.tables.bookings)) begun)
            (ground arith) (locked-MoveEnds (lookup req.booking_id w.tables.bookings) refl)
    ]
  ]

  tables-MoveEnds :
      (out : Result BookingResult × World) (effects : List Effect)
      → MoveEnds env req w.tables out
      → MoveEnds env req w.tables (out.0, record (out.1) { effects = effects })
  tables-MoveEnds (ok r, w') effects h = h
  tables-MoveEnds (err e, w') effects h = h

  pub move-MoveEnds : w.saved ≡ none → MoveEnds env req w.tables (move env req w)
  unfolding move
  move-MoveEnds n = elim (Option-cases (env.fails connect_second)) [
    | inr (x, e) ↦ ends (move env req) w (err x, w) (ground arith) refl
    | inl e ↦
        let out = conflict_answer (transaction env req) w in
        ends (move env req) w
          (out.0, record (out.1) { effects = out.1.effects ++ release_client ∷ [] }) (ground arith)
          (tables-MoveEnds out _ (transaction-MoveEnds n))
  ]

-- How the first transaction ends.
abbrev pub FirstEnds : World → Result First × World → Type 0
FirstEnds w (err e, w') = w'.tables ≡ w.tables
FirstEnds w (ok (inl r), w') = (w' ≡ record w { saved = none }) × (r.status ≢ 201)
FirstEnds w (ok (inr b), w') = w' ≡ record w { saved = none }

module _ (env : Env) (req : RescheduleRequest) (w : World) where
  close_first-FirstEnds :
      (o : Option Booking) → FirstEnds w (close_first env (first_result req o) (begun env req w))
  unfolding close_first first_result
  close_first-FirstEnds none = (refl, omega arith)
  close_first-FirstEnds (some b) =
      let closed = close_first env (first_result req (some b)) (begun env req w) in
      elim (Option-cases (row_refusal req (some b))) [
        | inl e ↦ elim (Option-cases (env.fails commit_first)) [
          | inl f ↦
              by_run (FirstEnds w) closed (ok (inr b), record w { saved = none }) (ground arith)
                refl
          | inr (x, f) ↦ by_run (FirstEnds w) closed (err x, begun env req w) (ground arith) refl
        ]
        | inr (r, e) ↦
            by_run (FirstEnds w) closed (ok (inl r), record w { saved = none }) (ground arith)
              (refl, row_refusal-status req (some b) r e)
      ]

  pub first_check-FirstEnds : FirstEnds w (first_check env req w)
  unfolding first_check
  first_check-FirstEnds =
      let row = lookup req.booking_id w.tables.bookings in
      elim (Option-cases (env.fails begin_first)) [
        | inr (x, e) ↦ by_run (FirstEnds w) (first_check env req w) (err x, w) (ground arith) refl
        | inl e ↦ elim (Option-cases (env.fails read_booking)) [
          | inr (x, f) ↦
              by_run (FirstEnds w) (first_check env req w) (err x, begun env req w) (ground arith)
                refl
          | inl f ↦
              by_run (FirstEnds w) (first_check env req w)
                (close_first env (first_result req row) (begun env req w)) (ground arith)
                (close_first-FirstEnds row)
        ]
      ]
