-- ===== src/Bookings/Create/Reads.antt =====
-- The queries before the transaction change nothing, and all but the lookup of the idempotency key are
-- answered whatever fails.
use chronos_appointment_sche.Base.{ℕ, ◌≡◌, refl, Option, none, some, arith, inl, inr, lookup}
use chronos_appointment_sche.Schema.{BookingRequest}
use chronos_appointment_sche.Schema.World.{M, World, ok, pure, catch}
use chronos_appointment_sche.Bookings.Create.Checks.{
  Env, configured_notice, event_type_error, key_check,
}
use chronos_appointment_sche.Schema.World.{Result-cases}
use chronos_appointment_sche.Bookings.Create.Checks.{
  notice_query, provider_of_slot, notice_lookup, ownership_lookup, ownership_query,
}
use chronos_appointment_sche.Bookings.Outcome.{event_type_validation_failed}

notice_query-reads : (env : Env) (p : Option ℕ) (w : World) → (notice_query env p w).1 ≡ w
unfolding notice_query
notice_query-reads env none w = refl
notice_query-reads env (some p) w = ground arith

abbrev pub Answers : {A : Type 0} → M A → World → Type 0
Answers {A} m w = (a : A) × (m w ≡ (ok a, w))

catch-Answers :
    {A : Type 0} (m : M A) (a : A) (w : World) → (m w).1 ≡ w → Answers (catch m (λ _. pure a)) w
catch-Answers m a w h = elim (Result-cases (m w).0) [
  | inl (b, e) ↦ (b, ground arith)
  | inr (x, e) ↦ (a, ground arith)
]

notice_lookup-reads :
    (env : Env) (req : BookingRequest) (w : World) → (notice_lookup env req w).1 ≡ w
unfolding notice_lookup
notice_lookup-reads env req w =
    ground
      (arith, notice_query-reads env (provider_of_slot req (lookup req.slot_id w.tables.slots)) w)

pub configured_notice-Answers :
    (env : Env) (req : BookingRequest) (w : World) → Answers (configured_notice env req) w
unfolding configured_notice
configured_notice-Answers env req w =
    catch-Answers (notice_lookup env req) 4 w (notice_lookup-reads env req w)

ownership_query-reads :
    (env : Env) (req : BookingRequest) (o : Option (Option ℕ)) (w : World)
    → (ownership_query env req o w).1 ≡ w
unfolding ownership_query
ownership_query-reads env req none w = refl
ownership_query-reads env req (some owner) w = ground arith

ownership_lookup-reads :
    (env : Env) (req : BookingRequest) (e : ℕ) (w : World) → (ownership_lookup env req e w).1 ≡ w
unfolding ownership_lookup
ownership_lookup-reads env req e w =
    ground (arith, ownership_query-reads env req (lookup e w.tables.event_types) w)

event_type_error_some :
    (env : Env) (req : BookingRequest) (o : Option ℕ) (w : World)
    → req.event_type_id ≡ o
    → Answers (event_type_error env req) w
unfolding event_type_error
event_type_error_some env req none w h = (none, ground arith)
event_type_error_some env req (some e) w h =
    rw (h, event_type_error)
      (catch-Answers (ownership_lookup env req e) (some event_type_validation_failed) w
        (ownership_lookup-reads env req e w))

pub event_type_error-Answers :
    (env : Env) (req : BookingRequest) (w : World) → Answers (event_type_error env req) w
event_type_error-Answers env req w = event_type_error_some env req req.event_type_id w refl

pub key_check-reads : (env : Env) (req : BookingRequest) (w : World) → (key_check env req w).1 ≡ w
unfolding key_check
key_check-reads env req w = ground arith
