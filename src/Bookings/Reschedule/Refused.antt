-- ===== src/Bookings/Reschedule/Refused.antt =====
-- apps/api/src/bookings/reschedule.service.ts hands subtractElapsed the Date that the driver made of the
-- start of the slot, and Temporal.Instant.from raises at a Date.
use chronos_appointment_sche.Base.{
  ◌≡◌, ◌≢◌, refl, by_run, ◌++◌, none, some, [], ◌∷◌, arith, Option-cases, ◌⊎◌, inl, inr,
}
use chronos_appointment_sche.Schema.{Tables, RescheduleRequest}
use chronos_appointment_sche.Schema.World.{Result, World, ok, err, PgError, release_client}
use chronos_appointment_sche.Bookings.Outcome.{BookingResult}
use chronos_appointment_sche.Bookings.Reschedule.Checks.{Env, First, first_check, connect_first}
use chronos_appointment_sche.Bookings.Reschedule.{window_and_move, reschedule_booking}
use chronos_appointment_sche.Bookings.Reschedule.Ends.{FirstEnds, first_check-FirstEnds}
use chronos_appointment_sche.Bookings.Reschedule.Whole.{RescheduleEnds, after_first}

-- Only other sessions changed the tables, and the answer is no 201.
abbrev pub Unmoved : Env → Tables → Result BookingResult × World → Type 0
Unmoved env t (err e, w') = (w'.tables ≡ t) ⊎ (w'.tables ≡ env.meanwhile t)
Unmoved env t (ok r, w') = ((w'.tables ≡ t) ⊎ (w'.tables ≡ env.meanwhile t)) × (r.status ≢ 201)

module _ (env : Env) (req : RescheduleRequest) {x : PgError}
    (refused : env.instant_fails ≡ some x) where
  RescheduleEnds-Unmoved :
      (t : Tables) (out : Result BookingResult × World)
      → RescheduleEnds env req t out
      → Unmoved env t out
  RescheduleEnds-Unmoved t (err e, w') h = h
  RescheduleEnds-Unmoved t (ok r, w') (inl h) = h
  RescheduleEnds-Unmoved t (ok r, w') (inr (m, h)) = absurd (ground (arith, refused, m.parsed))

  -- The releases of the outer `finally`, the second of which may raise.
  released-Unmoved :
      (t : Tables) (out : Result BookingResult × World) (v : World) (y : PgError)
      → v.tables ≡ out.1.tables
      → Unmoved env t out
      → Unmoved env t (out.0, v) × Unmoved env t (err y, v)
  released-Unmoved t (err e, w') v y same h = (rw same h, rw same h)
  released-Unmoved t (ok r, w') v y same (h, other) = ((rw same h, other), rw same h)

  first-Unmoved :
      (w : World) (out : Result First × World)
      → first_check env req w ≡ out
      → FirstEnds w out
      → env.fails connect_first ≡ none
      → w.saved ≡ none
      → Unmoved env w.tables (reschedule_booking env req w)
  unfolding reschedule_booking
  first-Unmoved w (err y, w1) e h fc n =
      by_run (Unmoved env w.tables) (reschedule_booking env req w)
        (err y, record w1 { effects = w1.effects ++ release_client ∷ [] }) (ground arith) (inl h)
  first-Unmoved w (ok f, w1) e h fc n =
      let out =
        window_and_move env req f (record w1 { effects = w1.effects ++ release_client ∷ [] }) in
      let v : World = record (out.1) { effects = out.1.effects ++ release_client ∷ [] } in
      let unmoved = RescheduleEnds-Unmoved w.tables out (after_first env req f w w1 h n) in
      elim (Option-cases env.release_twice) [
        | inl once ↦
            by_run (Unmoved env w.tables) (reschedule_booking env req w) (out.0, v) (ground arith)
              (released-Unmoved w.tables out v x refl unmoved).0
        | inr (y, twice) ↦
            by_run (Unmoved env w.tables) (reschedule_booking env req w) (err y, v) (ground arith)
              (released-Unmoved w.tables out v y refl unmoved).1
      ]

-- If Temporal.Instant.from raises at the Date of the new slot's start, as it does at every Date, no
-- booking is ever moved: a call of `reschedule_booking` with no transaction open before it, whatever else
-- fails and whatever the pool makes of a second release, answers no 201, and the tables are those
-- before the call or those that the other sessions made of them meanwhile.
pub reschedule_booking-Unmoved :
    (env : Env) (req : RescheduleRequest) (w : World) {x : PgError}
    → env.instant_fails ≡ some x
    → w.saved ≡ none
    → Unmoved env w.tables (reschedule_booking env req w)
unfolding reschedule_booking
reschedule_booking-Unmoved env req w {x} refused n = elim (Option-cases (env.fails connect_first)) [
  | inl fc ↦
      first-Unmoved env req {x = x} refused w (first_check env req w) refl
        (first_check-FirstEnds env req w) fc n
  | inr (y, fc) ↦
      by_run (Unmoved env w.tables) (reschedule_booking env req w) (err y, w) (ground arith)
        (inl refl)
]
