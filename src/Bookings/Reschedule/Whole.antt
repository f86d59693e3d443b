-- ===== src/Bookings/Reschedule/Whole.antt =====
-- Every way in which rescheduleBooking ends.
use chronos_appointment_sche.Base.{
  ◌≡◌, ◌≢◌, refl, subst, by_run, ◌++◌, ap, none, some, List, [], ◌∷◌, arith, Option-cases,
  Bool-cases, ◌⊎◌, inl, inr, lookup,
}
use chronos_appointment_sche.Schema.{Tables, Booking, RescheduleRequest}
use chronos_appointment_sche.Schema.World.{
  Result, World, ok, err, PgError, Effect, Result-cases, release_client,
}
use chronos_appointment_sche.Bookings.Outcome.{BookingResult, window_expired, refused, created}
use chronos_appointment_sche.Bookings.Reschedule.Checks.{
  Env, is_past_window, hours_or_default, start_or_now, First, first_check, connect_first, read_slot,
}
use chronos_appointment_sche.Bookings.Reschedule.{move, window_and_move, reschedule_booking}
use chronos_appointment_sche.Bookings.Reschedule.Moved.{Moved, MoveEnds}
use chronos_appointment_sche.Bookings.Reschedule.Ends.{
  move-MoveEnds, FirstEnds, first_check-FirstEnds,
}

-- How the whole call ends, if the pool lets a second release pass: the tables are as they were, or
-- as the other sessions left them, and the answer is no 201; or the whole move was made on the
-- tables that the other sessions left, and the answer is its 201.
abbrev pub RescheduleEnds : Env → RescheduleRequest → Tables → Result BookingResult × World → Type 0
RescheduleEnds env req t (err e, w') = (w'.tables ≡ t) ⊎ (w'.tables ≡ env.meanwhile t)
RescheduleEnds env req t (ok r, w') =
    (((w'.tables ≡ t) ⊎ (w'.tables ≡ env.meanwhile t)) × (r.status ≢ 201))
    ⊎ (Moved env req (env.meanwhile t) w'.tables × (r ≡ created env.booking_id))

module _ (env : Env) (req : RescheduleRequest) where
  MoveEnds-RescheduleEnds :
      (t : Tables) (out : Result BookingResult × World)
      → MoveEnds env req (env.meanwhile t) out
      → RescheduleEnds env req t out
  MoveEnds-RescheduleEnds t (err e, w') h = inr h
  MoveEnds-RescheduleEnds t (ok r, w') (inl (same, h)) = inl (inr same, h)
  MoveEnds-RescheduleEnds t (ok r, w') (inr h) = inr h

  window_and_move-RescheduleEnds :
      (b : Booking) (w : World)
      → w.saved ≡ none
      → RescheduleEnds env req w.tables (window_and_move env req (inr b) w)
  unfolding window_and_move
  window_and_move-RescheduleEnds b w n =
      let w1 : World = record w { tables = env.meanwhile w.tables } in
      let call = window_and_move env req (inr b) w in
      let late =
        is_past_window env.now (hours_or_default req.cancellation_window_hours)
          (start_or_now env.now (lookup b.slot_id w1.tables.slots)) in
      elim (Option-cases (env.fails read_slot)) [
        | inr (x, e) ↦
            by_run (RescheduleEnds env req w.tables) call (err x, w1) (ground arith) (inr refl)
        | inl e ↦ elim (Bool-cases late) [
          | inl l ↦
              by_run (RescheduleEnds env req w.tables) call (ok (refused 409 window_expired), w1)
                (ground arith) (inl (inr refl, omega arith))
          | inr l ↦
              by_run (RescheduleEnds env req w.tables) call (move env req w1) (ground arith)
                (MoveEnds-RescheduleEnds w.tables (move env req w1) (move-MoveEnds env req w1 n))
        ]
      ]

  released-RescheduleEnds :
      (t : Tables) (out : Result BookingResult × World) (effects : List Effect)
      → RescheduleEnds env req t out
      → RescheduleEnds env req t (out.0, record (out.1) { effects = effects })
  released-RescheduleEnds t (err e, w') effects h = h
  released-RescheduleEnds t (ok r, w') effects h = h

  pub after_first :
      (f : First) (w w1 : World)
      → FirstEnds w (ok f, w1)
      → w.saved ≡ none
      → RescheduleEnds env req w.tables
          (window_and_move env req f (record w1 { effects = w1.effects ++ release_client ∷ [] }))
  unfolding window_and_move
  after_first (inl r) w w1 h n = inl (inl (ap (λ v. v.tables) h.0), h.1)
  after_first (inr b) w w1 h n =
      let w2 : World = record w1 { effects = w1.effects ++ release_client ∷ [] } in
      subst (λ t. RescheduleEnds env req t (window_and_move env req (inr b) w2))
        (ap (λ v. v.tables) h) (window_and_move-RescheduleEnds b w2 (ap (λ v. v.saved) h))

  reschedule_first :
      (w : World) (out : Result First × World)
      → first_check env req w ≡ out
      → FirstEnds w out
      → env.fails connect_first ≡ none
      → env.release_twice ≡ none
      → w.saved ≡ none
      → RescheduleEnds env req w.tables (reschedule_booking env req w)
  unfolding reschedule_booking
  reschedule_first w (err x, w1) e h fc once n =
      by_run (RescheduleEnds env req w.tables) (reschedule_booking env req w)
        (err x, record w1 { effects = w1.effects ++ release_client ∷ [] }) (ground arith) (inl h)
  reschedule_first w (ok f, w1) e h fc once n =
      let out =
        window_and_move env req f (record w1 { effects = w1.effects ++ release_client ∷ [] }) in
      by_run (RescheduleEnds env req w.tables) (reschedule_booking env req w)
        (out.0, record (out.1) { effects = out.1.effects ++ release_client ∷ [] }) (ground arith)
        (released-RescheduleEnds w.tables out _ (after_first f w w1 h n))

-- A call of `reschedule_booking` under a pool that lets a second release of a client pass, with no
-- transaction open before it. If it raises, or answers with a status other than 201, the tables
-- are the ones before the call or those that the other sessions made of them meanwhile. If it
-- answers with 201, the whole move was made on the latter: the old booking was found booked, at
-- the version that the request names, and is cancelled, its slot is open, the new slot was open
-- and ahead and is booked, and the new booking carries the next version.
pub reschedule_booking-RescheduleEnds :
    (env : Env) (req : RescheduleRequest) (w : World)
    → env.release_twice ≡ none
    → w.saved ≡ none
    → RescheduleEnds env req w.tables (reschedule_booking env req w)
unfolding reschedule_booking
reschedule_booking-RescheduleEnds env req w once n = elim (Option-cases (env.fails connect_first)) [
  | inl fc ↦
      reschedule_first env req w (first_check env req w) refl (first_check-FirstEnds env req w) fc
        once n
  | inr (x, fc) ↦
      by_run (RescheduleEnds env req w.tables) (reschedule_booking env req w) (err x, w)
        (ground arith) (inl refl)
]

-- Where the pool raises at a second release, no call of `reschedule_booking` ever returns an
-- answer: the outer `finally` replaces it, also when the move is committed.
pub reschedule_booking_rejects :
    (env : Env) (req : RescheduleRequest) (w : World) {x : PgError} (r : BookingResult)
    → env.release_twice ≡ some x
    → (reschedule_booking env req w).0 ≢ ok r
unfolding reschedule_booking
reschedule_booking_rejects env req w {x} r twice = elim (Option-cases (env.fails connect_first)) [
  | inr (y, e) ↦ ground arith
  | inl e ↦ elim (Result-cases (first_check env req w).0) [
    | inl (f, h) ↦
        let w1 = (first_check env req w).1 in
        ground (
          arith,
          Result-cases
              (window_and_move env req f
                (record w1 { effects = w1.effects ++ release_client ∷ [] })).0,
        )
    | inr (y, h) ↦ ground arith
  ]
]
