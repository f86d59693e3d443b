-- ===== src/Bookings/Create/Retry.antt =====
-- Idempotency keys: a request that was booked is answered again with its booking.
use text.Mathlib.TextPositions.{eq_refl}
use chronos_appointment_sche.Base.{
  ℕ, ◌≡◌, refl, ◌∙◌, ap, true, false, Option, none, some, List, ◌∷◌, arith, inl, inr, ==_refl,
  if◌then◌else◌,
}
use chronos_appointment_sche.Schema.{BookingRequest, booking, IdempotencyKey}
use chronos_appointment_sche.Schema.Statements.{find_key}
use chronos_appointment_sche.Schema.World.{Result, World, ok, err, one_client}
use chronos_appointment_sche.Bookings.Outcome.{
  BookingResult, idempotency_key_reuse, refused, created, replayed, same_request,
}
use chronos_appointment_sche.Bookings.Create.Checks.{Env, event_type_error, key_check}
use chronos_appointment_sche.Bookings.Create.{answer_or_book, unless_refused, create_booking}
use chronos_appointment_sche.Bookings.Outcome.{same_option}
use chronos_appointment_sche.Bookings.Create.Checks.{read_key}
use chronos_appointment_sche.Bookings.Create.Reads.{
  configured_notice-Answers, event_type_error-Answers,
}
use chronos_appointment_sche.Bookings.Create.Writes.{key_row}
use chronos_appointment_sche.Bookings.Create.Ended.{Ended, create_booking-Ended}

same_option_refl : (o : Option ℕ) → same_option o o ≡ true
same_option_refl none = refl
same_option_refl (some a) = ==_refl a

same_request_refl : (r : BookingRequest) → same_request (booking r) (booking r) ≡ true
unfolding same_request
same_request_refl r = simp (same_option_refl, ==_refl, eq_refl)

-- The row under the request's key decides the answer, and nothing is written.
create_booking_known :
    (env : Env) (req : BookingRequest) (k : ℕ) (row : IdempotencyKey) (w : World)
    → req.idempotency_key ≡ some k
    → find_key req.client_id k w.tables.idempotency_keys ≡ some row
    → env.fails read_key ≡ none
    → (event_type_error env req w).0 ≡ ok none
    → create_booking env req w ≡ (
      ok (
          if same_request row.request_hash (booking req)
          then replayed row.booking_id
          else refused 422 idempotency_key_reuse),
      w,
    )
unfolding create_booking unless_refused key_check answer_or_book
create_booking_known env req k row w hk found reads passes =
    let (notice, e) = configured_notice-Answers env req w in
    let (refusal, f) = event_type_error-Answers env req w in ground arith

find_key-cons :
    (row : IdempotencyKey) (keys : List IdempotencyKey)
    → find_key row.client_id row.key (row ∷ keys) ≡ some row
unfolding find_key
find_key-cons row keys = simp ==_refl

-- A call that booked has stored its request.
stored_key :
    (env : Env) (req : BookingRequest) (k : ℕ) (w : World) (out : Result BookingResult × World)
    → Ended env req w out
    → out.0 ≡ ok (created env.booking_id)
    → req.idempotency_key ≡ some k
    → find_key req.client_id k out.1.tables.idempotency_keys ≡ some (key_row env req k)
stored_key env req k w (err e, w') h booked hk = cc
stored_key env req k w (ok r, w') (inl (same, inl h)) booked hk = ground arith
stored_key env req k w (ok r, w') (inl (same, inr h)) booked hk = ground arith
stored_key env req k w (ok r, w') (inr (notice, e, all, h)) booked hk =
    ground (arith, all.tables, find_key-cons (key_row env req k) w.tables.idempotency_keys)

-- A request that was booked under an idempotency key, sent again: it is answered with the first
-- booking and a replay mark, and nothing changes, if the second call's event type check passes and its
-- lookup of the key does not fail.
pub create_booking_retried :
    (env env' : Env) (req : BookingRequest) (k : ℕ) (w : World)
    → env.connection ≡ one_client
    → w.saved ≡ none
    → req.idempotency_key ≡ some k
    → (create_booking env req w).0 ≡ ok (created env.booking_id)
    → env'.fails read_key ≡ none
    → (event_type_error env' req (create_booking env req w).1).0 ≡ ok none
    → create_booking env' req (create_booking env req w).1
      ≡ (ok (replayed env.booking_id), (create_booking env req w).1)
create_booking_retried env env' req k w c n hk booked reads passes =
    create_booking_known env' req k (key_row env req k) (create_booking env req w).1 hk
      (stored_key env req k w (create_booking env req w) (create_booking-Ended env req w c n) booked
        hk)
      reads passes
    ∙ simp same_request_refl

-- Another request of the same client under the same key is refused with 422, and nothing changes,
-- under the same two conditions.
pub create_booking_key_reused :
    (env env' : Env) (req req' : BookingRequest) (k : ℕ) (w : World)
    → env.connection ≡ one_client
    → w.saved ≡ none
    → req.idempotency_key ≡ some k
    → (create_booking env req w).0 ≡ ok (created env.booking_id)
    → req'.client_id ≡ req.client_id
    → req'.idempotency_key ≡ some k
    → same_request (booking req) (booking req') ≡ false
    → env'.fails read_key ≡ none
    → (event_type_error env' req' (create_booking env req w).1).0 ≡ ok none
    → create_booking env' req' (create_booking env req w).1
      ≡ (ok (refused 422 idempotency_key_reuse), (create_booking env req w).1)
create_booking_key_reused env env' req req' k w c n hk booked hc hk' other reads passes =
    create_booking_known env' req' k (key_row env req k) (create_booking env req w).1 hk'
      (ap (λ i. find_key i k (create_booking env req w).1.tables.idempotency_keys) hc
        ∙ stored_key env req k w (create_booking env req w) (create_booking-Ended env req w c n)
            booked hk)
      reads passes
    ∙ simp other
