-- ===== src/Bookings/Create/Atomic.antt =====
-- The transaction of createBooking on one connection: all of its writes, or none.
use chronos_appointment_sche.Base.{
  ℕ, ◌≡◌, ◌≢◌, refl, sym, subst, true, false, none, some, arith, [], ◌∷◌, Option-cases, Bool-cases,
  Bool-cases, ◌⊎◌, inl, inr, lookup, select,
}
use chronos_appointment_sche.Schema.{Tables, Slot, BookingRequest, SlotStatus}
use chronos_appointment_sche.Schema.Statements.{collides, set_slot}
use chronos_appointment_sche.Schema.World.{
  M, Result, World, ok, err, PgError, pure, catch, rollback, ◌>>◌, one_client,
}
use chronos_appointment_sche.Reminders.Queue.{QueueEnv}
use chronos_appointment_sche.Bookings.Outcome.{BookingResult, created, conflict_or_bad}
use chronos_appointment_sche.Bookings.Create.Checks.{begin_tx, claim, Env}
use chronos_appointment_sche.Bookings.Create.{
  write_rows, new_booking, is_bookable, claimed, book, after_commit,
}
use chronos_appointment_sche.Reminders.Queue.Frame.{enqueue_for_booking-with_queue}
use chronos_appointment_sche.Schema.World.{with_queue, Result-cases}
use chronos_appointment_sche.Bookings.Create.{enqueue_jobs, offsets_of, scheduled_of}
use chronos_appointment_sche.Bookings.Create.Jobs.{Reminded, written-Reminded}
use chronos_appointment_sche.Bookings.Create.Writes.{with_rows, write_rows-Written}

enqueue_jobs-with_queue :
    (env : Env) (queue : QueueEnv) (start : ℕ) (w : World)
    → (enqueue_jobs env queue start w).1 ≡ with_queue w (enqueue_jobs env queue start w).1
unfolding enqueue_jobs
enqueue_jobs-with_queue env queue start w = ground (
  arith,
  enqueue_for_booking-with_queue queue env.booking_id start
      (offsets_of (select (scheduled_of env.booking_id) w.tables.reminder_jobs)) env.now w,
)

pub after_commit-with_queue :
    (env : Env) (req : BookingRequest) (w : World)
    → (after_commit env req w).1 ≡ with_queue w (after_commit env req w).1
unfolding after_commit
after_commit-with_queue env req w = elim (Option-cases env.queue) [
  | inl e ↦ ground arith
  | inr (q, e) ↦ elim (Option-cases (lookup req.slot_id w.tables.slots)) [
    | inl f ↦ ground arith
    | inr (s, f) ↦ ground (arith, enqueue_jobs-with_queue env q s.slot_start_utc w)
  ]
]

-- Only the queue manager can make the code after COMMIT raise.
after_commit-queue :
    (env : Env) (req : BookingRequest) (w : World) {x : PgError}
    → (after_commit env req w).0 ≡ err x
    → env.queue ≢ none
unfolding after_commit
after_commit-queue env req w h q = ground arith

-- The tables of a committed booking, but for the reminder jobs.
abbrev pub booked_tables : Env → BookingRequest → Tables → Tables → Tables
booked_tables env req t t' = with_rows env req (set_slot SlotStatus.booked req.slot_id t) t'

pub record Committed (env : Env) (req : BookingRequest) (notice : ℕ) (w w' : World) : Type 0 where
  pub slot : Slot
  pub found : lookup req.slot_id w.tables.slots ≡ some slot
  pub bookable : is_bookable env.now notice slot ≡ true
  pub fresh : collides env.booking_id (new_booking req) w.tables ≡ false
  pub reminded : Reminded env slot.slot_start_utc (1440 ∷ 60 ∷ []) w'.tables.reminder_jobs
  pub tables : w'.tables ≡ booked_tables env req w.tables w'.tables
  pub closed : w'.saved ≡ none

-- How a booking ends: the world is as it was and the answer is no 201, or all is committed.
abbrev pub Booked : Env → BookingRequest → ℕ → World → Result BookingResult × World → Type 0
Booked env req notice w (err e, w') = ⊥
Booked env req notice w (ok r, w') =
    ((w' ≡ w) × (r.status ≢ 201))
    ⊎ (Committed env req notice w w' × ((r ≡ created env.booking_id) ⊎ (env.queue ≢ none)))

abbrev pub claimed_world : BookingRequest → World → World
claimed_world req w = record w {
  tables = set_slot SlotStatus.booked req.slot_id w.tables;
  saved = some w.tables;
}

pub conflict_or_bad-status : (e : PgError) → (conflict_or_bad e).status ≢ 201
conflict_or_bad-status e = ground arith

-- The catch of `book`.
abbrev conflict_answer : M BookingResult → M BookingResult
conflict_answer m = catch m (λ e. rollback >> pure (conflict_or_bad e))

module _ (env : Env) (req : BookingRequest) (notice : ℕ) (w : World) (s : Slot) (n : w.saved ≡ none)
    (found : lookup req.slot_id w.tables.slots ≡ some s)
    (free : is_bookable env.now notice s ≡ true) where
  abbrev written : World
  written = (write_rows env req s (claimed_world req w)).1

  written-Committed :
      (w' : World)
      → (write_rows env req s (claimed_world req w)).0 ≡ ok tt
      → w' ≡ with_queue written w'
      → Reminded env s.slot_start_utc (1440 ∷ 60 ∷ []) w'.tables.reminder_jobs
      → Committed env req notice w w'
  unfolding collides
  written-Committed w' h k jobs = record {
    slot = s;
    found = found;
    bookable = free;
    fresh = ground (arith, write_rows-Written env req s (claimed_world req w));
    reminded = jobs;
    tables = ground (arith, write_rows-Written env req s (claimed_world req w));
    closed = ground (arith, write_rows-Written env req s (claimed_world req w));
  }

  claimed-some-Booked :
      Booked env req notice w (conflict_answer (claimed env req (some s)) (claimed_world req w))
  unfolding claimed
  claimed-some-Booked = elim (Result-cases (write_rows env req s (claimed_world req w)).0) [
    | inl (u, e) ↦ elim (Result-cases (after_commit env req written).0) [
      | inl (v, f) ↦
          ends (ok (created env.booking_id), (after_commit env req written).1) (ground arith)
            (inr (
              written-Committed _ e (after_commit-with_queue env req written)
                  (written-Reminded env req s (claimed_world req w) e),
              inl refl,
            ))
      | inr (x, f) ↦
          ends (ok (conflict_or_bad x), (after_commit env req written).1)
            (ground (
              arith,
              write_rows-Written env req s (claimed_world req w),
              after_commit-with_queue env req written,
            ))
            (inr (
              written-Committed _ e (after_commit-with_queue env req written)
                  (written-Reminded env req s (claimed_world req w) e),
              inr (after_commit-queue env req written f),
            ))
    ]
    | inr (x, e) ↦
        ends (ok (conflict_or_bad x), w)
          (ground (arith, write_rows-Written env req s (claimed_world req w)))
          (inl (refl, conflict_or_bad-status x))
  ]
    where
      ends :
          (out : Result BookingResult × World)
          → conflict_answer (claimed env req (some s)) (claimed_world req w) ≡ out
          → Booked env req notice w out
          → Booked env req notice w
              (conflict_answer (claimed env req (some s)) (claimed_world req w))
      ends out run b = subst (Booked env req notice w) (sym run) b

book_claim :
    (env : Env) (req : BookingRequest) (notice : ℕ) (w : World)
    → env.connection ≡ one_client
    → w.saved ≡ none
    → env.fails begin_tx ≡ none
    → env.fails claim ≡ none
    → Booked env req notice w (book env req notice w)
unfolding book claimed
book_claim env req notice w c n fb fc = elim (Option-cases (lookup req.slot_id w.tables.slots)) [
  | inl e ↦ ground arith
  | inr (s, e) ↦ elim (Bool-cases (is_bookable env.now notice s)) [
    | inl free ↦
        subst (Booked env req notice w) (ground arith)
          (claimed-some-Booked env req notice w s n e free)
    | inr taken ↦ ground arith
  ]
]

pub book-Booked :
    (env : Env) (req : BookingRequest) (notice : ℕ) (w : World)
    → env.connection ≡ one_client
    → w.saved ≡ none
    → Booked env req notice w (book env req notice w)
unfolding book
book-Booked env req notice w c n = elim (Option-cases (env.fails begin_tx)) [
  | inl fb ↦ elim (Option-cases (env.fails claim)) [
    | inl fc ↦ book_claim env req notice w c n fb fc
    | inr (x, fc) ↦ ground (arith, conflict_or_bad-status x)
  ]
  | inr (x, fb) ↦ ground (arith, conflict_or_bad-status x)
]
