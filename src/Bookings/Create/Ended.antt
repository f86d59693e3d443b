-- ===== src/Bookings/Create/Ended.antt =====
-- Every way in which createBooking ends, on one connection.
use chronos_appointment_sche.Base.{
  ℕ, ◌≡◌, ◌≢◌, refl, subst, true, Option, none, some, arith, Option-cases, Bool-cases, ◌⊎◌, inl,
  inr,
}
use chronos_appointment_sche.Schema.{BookingRequest, booking, IdempotencyKey}
use chronos_appointment_sche.Schema.Statements.{find_key}
use chronos_appointment_sche.Schema.World.{Result, World, ok, err, ◌>>=◌, one_client}
use chronos_appointment_sche.Bookings.Outcome.{BookingResult, ErrorCode, created, same_request}
use chronos_appointment_sche.Bookings.Create.Checks.{Env, configured_notice, key_check}
use chronos_appointment_sche.Bookings.Create.{book, answer_or_book, unless_refused, create_booking}
use chronos_appointment_sche.Bookings.Create.Checks.{key_answer, read_key}
use chronos_appointment_sche.Bookings.Create.Reads.{
  configured_notice-Answers, event_type_error-Answers,
}
use chronos_appointment_sche.Bookings.Create.Atomic.{Committed, Booked, book-Booked}

-- What a call of `create_booking` leaves, by how it ends.
abbrev pub Ended : Env → BookingRequest → World → Result BookingResult × World → Type 0
Ended env req w (err e, w') = w' ≡ w
Ended env req w (ok r, w') =
    ((w' ≡ w) × ((r.status ≢ 201) ⊎ (r.replay ≡ true)))
    ⊎ ((notice : ℕ) × (configured_notice env req w ≡ (ok notice, w))
        × Committed env req notice w w'
        × ((r ≡ created env.booking_id) ⊎ (env.queue ≢ none)))

module _ (env : Env) (req : BookingRequest) (w : World) (c : env.connection ≡ one_client)
    (n : w.saved ≡ none) where
  Booked-Ended :
      (notice : ℕ)
      → configured_notice env req w ≡ (ok notice, w)
      → (out : Result BookingResult × World) → Booked env req notice w out
      → Ended env req w out
  Booked-Ended notice e (ok r, w') (inl (same, h)) = inl (same, inl h)
  Booked-Ended notice e (ok r, w') (inr (all, h)) = inr (notice, e, all, h)
  Booked-Ended notice e (err x, w') h = absurd h

  answer-Ended :
      (k : Option IdempotencyKey)
      → (r : BookingResult) → key_answer req k ≡ some r
      → (r.status ≢ 201) ⊎ (r.replay ≡ true)
  answer-Ended none r h = ground arith
  answer-Ended (some row) r h = elim (Bool-cases (same_request row.request_hash (booking req))) [
    | inl same ↦ inr (ground arith)
    | inr other ↦ inl (ground arith)
  ]

  answered :
      (notice : ℕ)
      → configured_notice env req w ≡ (ok notice, w)
      → (o : Option BookingResult)
      → ((r : BookingResult) → o ≡ some r → (r.status ≢ 201) ⊎ (r.replay ≡ true))
      → Ended env req w (answer_or_book env req notice o w)
  unfolding answer_or_book
  answered notice e none h =
      Booked-Ended notice e (book env req notice w) (book-Booked env req notice w c n)
  answered notice e (some r) h = inl (refl, h r refl)

  stored : ℕ → Option IdempotencyKey
  stored k = find_key req.client_id k w.tables.idempotency_keys

  key_check-Ended :
      (notice : ℕ)
      → configured_notice env req w ≡ (ok notice, w)
      → Ended env req w ((key_check env req >>= answer_or_book env req notice) w)
  unfolding key_check stored
  key_check-Ended notice e = elim (Option-cases req.idempotency_key) [
    | inl f ↦ subst (Ended env req w) (ground arith) (answered notice e none (λ r g. cc))
    | inr (k, f) ↦ elim (Option-cases (env.fails read_key)) [
      | inl g ↦
          subst (Ended env req w) (ground arith)
            (answered notice e (key_answer req (stored k)) (answer-Ended (stored k)))
      | inr (x, g) ↦ ground arith
    ]
  ]

  unless_refused-Ended :
      (notice : ℕ)
      → configured_notice env req w ≡ (ok notice, w)
      → (refusal : Option ErrorCode) → Ended env req w (unless_refused env req notice refusal w)
  unfolding unless_refused
  unless_refused-Ended notice e none = key_check-Ended notice e
  unless_refused-Ended notice e (some x) = inl (refl, inl (omega arith))

  -- On one connection and with no transaction open before: a call that raises changes nothing; one
  -- that answers changes nothing and answers no fresh 201; or the whole booking was committed (the
  -- slot was bookable and is booked, the row and its key are written, and so is a row for each of the two
  -- reminders whose fire time lies ahead), and the answer is its 201, or a queue manager was given.
  pub create_booking-Ended : Ended env req w (create_booking env req w)
  unfolding create_booking
  create_booking-Ended =
      let (notice, e) = configured_notice-Answers env req w in
      let (refusal, f) = event_type_error-Answers env req w in
      subst (Ended env req w) (ground arith) (unless_refused-Ended notice e refusal)
