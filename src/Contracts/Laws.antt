-- ===== src/Contracts/Laws.antt =====
-- The older rescheduleBooking on one connection moves the booking or changes nothing.
use chronos_appointment_sche.Base.{
  ℕ, ◌≡◌, ◌≢◌, true, by_run, refl, none, some, List, [], ◌∷◌, arith, Option, Option-cases,
  Bool-cases, ◌⊎◌, inl, inr, lookup, adjust, Table, ◌==◌,
}
use chronos_appointment_sche.Schema.{Tables, Slot, Booking, RescheduleRequest, SlotStatus}
use chronos_appointment_sche.Schema.Statements.{set_slot}
use chronos_appointment_sche.Schema.World.{
  World, Result, ok, err, one_client, M, PgError, catch, rollback, pure, ◌>>◌,
}
use chronos_appointment_sche.Bookings.Outcome.{
  BookingResult, created, refused, slot_unavailable, conflict_or_bad,
}
use chronos_appointment_sche.Bookings.Create.Atomic.{conflict_or_bad-status}
use chronos_appointment_sche.Contracts.{
  Env, begin_tx, claim, read_slot, read_booking, is_ahead, insert_if_ahead, rebooked, cancelled_at,
  is_past_window, hours_or_default, start_or_now, insert_jobs, move_rows, store_key, rebook,
  cancel_and_rebook, check_window, check_booking, reschedule_booking,
}

-- Reminder jobs and idempotency keys aside, nothing has changed.
abbrev SameRows : World → World → Type 0
SameRows w w' =
    (w'.saved ≡ w.saved)
    × (w'.tables.slots ≡ w.tables.slots)
    × (w'.tables.bookings ≡ w.tables.bookings)

insert_if_ahead-SameRows :
    (env : Env) (start off : ℕ) (w : World) → SameRows w (insert_if_ahead env start off w).1
unfolding insert_if_ahead
insert_if_ahead-SameRows env start off w = ground arith

insert_jobs-SameRows :
    (env : Env) (start : ℕ) (offs : List ℕ) (w : World)
    → SameRows w (insert_jobs env start offs w).1
unfolding insert_jobs
insert_jobs-SameRows env start [] w = (refl, refl, refl)
insert_jobs-SameRows env start (off ∷ offs) w = elim (Option-cases env.instant_fails) [
  | inr (x, e) ↦ ground arith
  | inl e ↦ ground (
    arith,
    insert_if_ahead-SameRows env start off w,
    insert_jobs-SameRows env start offs w,
    insert_jobs-SameRows env start offs (insert_if_ahead env start off w).1,
  )
]

insert_jobs-refused :
    (env : Env) (start : ℕ) {x : PgError}
    → env.instant_fails ≡ some x
    → (w : World) → insert_jobs env start (1440 ∷ 60 ∷ []) w ≡ (err x, w)
unfolding insert_jobs
insert_jobs-refused env start h w = ground arith

store_key-SameRows :
    (env : Env) (req : RescheduleRequest) (b : Booking) (key : Option ℕ) (w : World)
    → SameRows w (store_key env req b key w).1
unfolding store_key
store_key-SameRows env req b none w = (refl, refl, refl)
store_key-SameRows env req b (some k) w = ground arith

-- The slots and the bookings after a move.
abbrev pub moved_slots : RescheduleRequest → Booking → Table Slot → Table Slot
moved_slots req b slots =
    adjust b.slot_id (λ r. record r { status = SlotStatus.opened })
      (adjust req.new_slot_id (λ r. record r { status = SlotStatus.booked }) slots)

abbrev pub moved_bookings : Env → RescheduleRequest → Booking → Table Booking → Table Booking
moved_bookings env req b bookings =
    (env.booking_id, rebooked req b) ∷ adjust req.booking_id (cancelled_at env.server_now) bookings

abbrev RowsMoved : Env → RescheduleRequest → Booking → World → Result (Unit {0}) × World → Type 0
RowsMoved env req b w (err x, w') = w'.saved ≡ w.saved
RowsMoved env req b w (ok u, w') =
    (w'.saved ≡ w.saved)
    × (w'.tables.slots
        ≡ adjust b.slot_id (λ r. record r { status = SlotStatus.opened }) w.tables.slots)
    × (w'.tables.bookings ≡ moved_bookings env req b w.tables.bookings)

move_rows-RowsMoved :
    (env : Env) (req : RescheduleRequest) (b : Booking) (w : World)
    → RowsMoved env req b w (move_rows env req b w)
unfolding move_rows
move_rows-RowsMoved env req b w = ground arith

-- How the work inside the transaction ends, with `t` the tables at its BEGIN.
abbrev InTx :
    Env → RescheduleRequest → Booking → Tables → World → Result BookingResult × World → Type 0
InTx env req b t w (err e, w') = w'.saved ≡ some t
InTx env req b t w (ok r, w') =
    ((r ≡ created env.booking_id)
      × (env.instant_fails ≡ none)
      × (w'.tables.slots
          ≡ adjust b.slot_id (λ r. record r { status = SlotStatus.opened }) w.tables.slots)
      × (w'.tables.bookings ≡ moved_bookings env req b w.tables.bookings))
    ⊎ ((r ≡ refused 409 slot_unavailable) × (w'.tables ≡ t))

rebook-InTx :
    (env : Env) (req : RescheduleRequest) (b : Booking) (slot : Slot) (t : Tables) (w : World)
    → w.saved ≡ some t
    → InTx env req b t w (rebook env req b (some slot) w)
unfolding rebook
rebook-InTx env req b slot t w open_tx =
    let rows = (move_rows env req b w).1 in
    let jobs = (insert_jobs env slot.slot_start_utc (1440 ∷ 60 ∷ []) rows).1 in
    elim (Option-cases env.instant_fails) [
      | inr (x, e) ↦ ground (
        arith,
        move_rows-RowsMoved env req b w,
        insert_jobs-refused env slot.slot_start_utc {x = x} e rows,
      )
      | inl e ↦ ground (
        arith,
        move_rows-RowsMoved env req b w,
        insert_jobs-SameRows env slot.slot_start_utc (1440 ∷ 60 ∷ []) rows,
        store_key-SameRows env req b req.idempotency_key jobs,
      )
    ]

-- What an answer 201 says of the tables before and after it.
pub record Moved (env : Env) (req : RescheduleRequest) (t t' : Tables) : Type 0 where
  old : Booking
  found : lookup req.booking_id t.bookings ≡ some old
  same_version : old.version ≡ req.version
  slot : Slot
  slot_found : lookup req.new_slot_id t.slots ≡ some slot
  ahead : is_ahead env.now slot ≡ true
  parsed : env.instant_fails ≡ none
  slots : t'.slots ≡ moved_slots req old t.slots
  bookings : t'.bookings ≡ moved_bookings env req old t.bookings

abbrev pub Ends : Env → RescheduleRequest → Tables → Result BookingResult × World → Type 0
Ends env req t (err e, w') = w'.tables ≡ t
Ends env req t (ok r, w') =
    ((r ≡ created env.booking_id) × Moved env req t w'.tables)
    ⊎ ((r.status ≢ 201) × (w'.tables ≡ t))

abbrev claimed_world : RescheduleRequest → World → World
claimed_world req w = record w {
  tables = set_slot SlotStatus.booked req.new_slot_id w.tables;
  saved = some w.tables;
}

module _ (env : Env) (req : RescheduleRequest) (b : Booking) (w : World)
    (found : lookup req.booking_id w.tables.bookings ≡ some b) (same : b.version ≡ req.version)
    (one : env.connection ≡ one_client) (n : w.saved ≡ none) where
  rebooked_claim :
      env.fails begin_tx ≡ none
      → env.fails claim ≡ none
      → (s : Slot) → lookup req.new_slot_id w.tables.slots ≡ some s
      → is_ahead env.now s ≡ true
      → Ends env req w.tables (cancel_and_rebook env req b w)
  unfolding cancel_and_rebook
  rebooked_claim fb fc s slot_found free =
      let inside = rebook-InTx env req b s w.tables (claimed_world req w) refl in
      let run = rebook env req b (some s) (claimed_world req w) in
      by_run (Ends env req w.tables) (cancel_and_rebook env req b w) (catch (λ _. run) answer w)
        (ground (arith, one, n, fb, fc, slot_found, free)) (caught run inside)
    where
      answer : PgError → M BookingResult
      answer x = rollback >> pure (conflict_or_bad x)

      caught :
          (out : Result BookingResult × World)
          → InTx env req b w.tables (claimed_world req w) out
          → Ends env req w.tables (catch (λ _. out) answer w)
      caught (ok r, w') (inl (e, parsed, slots, bookings)) = inl (
        e,
        record {
          old = b;
          found = found;
          same_version = same;
          slot = s;
          slot_found = slot_found;
          ahead = free;
          parsed = parsed;
          slots = slots;
          bookings = bookings;
        },
      )
      caught (ok r, w') (inr (e, kept)) = inr (ground (arith, e), kept)
      caught (err x, w') open_tx = ground (arith, conflict_or_bad-status x, open_tx)

  cancel_and_rebook-Ends : Ends env req w.tables (cancel_and_rebook env req b w)
  unfolding cancel_and_rebook rebook
  cancel_and_rebook-Ends = elim (Option-cases (env.fails begin_tx)) [
    | inr (x, fb) ↦ ground (arith, conflict_or_bad-status x)
    | inl fb ↦ elim (Option-cases (env.fails claim)) [
      | inr (x, fc) ↦ ground (arith, conflict_or_bad-status x)
      | inl fc ↦ elim (Option-cases (lookup req.new_slot_id w.tables.slots)) [
        | inl e ↦ ground arith
        | inr (s, e) ↦ elim (Bool-cases (is_ahead env.now s)) [
          | inl free ↦ rebooked_claim fb fc s e free
          | inr taken ↦ ground arith
        ]
      ]
    ]
  ]

check_window-Ends :
    (env : Env) (req : RescheduleRequest) (b : Booking) (w : World)
    → Ends env req w.tables (cancel_and_rebook env req b w)
    → Ends env req w.tables (check_window env req b w)
unfolding check_window
check_window-Ends env req b w whole = elim (Option-cases (env.fails read_slot)) [
  | inr (x, f) ↦ ground (arith, f)
  | inl f ↦
      let late =
        is_past_window env.now (hours_or_default req.cancellation_window_hours)
          (start_or_now env.now (lookup b.slot_id w.tables.slots)) in
      elim (Bool-cases late) [
        | inl past ↦ ground (arith, f, past)
        | inr early ↦
            by_run (Ends env req w.tables) (check_window env req b w)
              (cancel_and_rebook env req b w) (rw (f, early) refl) whole
      ]
]

-- On one connection with no transaction open, a call of `reschedule_booking`, whichever statements fail,
-- either answers 201, with the version of the booking matched, the new slot open and ahead before it, and
-- afterwards the old booking cancelled, its slot open and the new booking on the new slot; or it answers
-- something else or raises, and no table has changed.
pub reschedule_booking-Ends :
    (env : Env) (req : RescheduleRequest) (w : World)
    → env.connection ≡ one_client
    → w.saved ≡ none
    → Ends env req w.tables (reschedule_booking env req w)
unfolding reschedule_booking check_booking
reschedule_booking-Ends env req w one n = elim (Option-cases (env.fails read_booking)) [
  | inr (x, f) ↦ ground (arith, f)
  | inl f ↦ elim (Option-cases (lookup req.booking_id w.tables.bookings)) [
    | inl e ↦ ground arith
    | inr (b, e) ↦ elim (Bool-cases (b.version == req.version)) [
      | inr v ↦ ground arith
      | inl v ↦ elim (Bool-cases (req.if_match == b.version)) [
        | inr m ↦ ground arith
        | inl m ↦
            by_run (Ends env req w.tables) (reschedule_booking env req w) (check_window env req b w)
              (rw (f, e, v, m) refl)
              (check_window-Ends env req b w
                (cancel_and_rebook-Ends env req b w e (ground (arith, v)) one n))
      ]
    ]
  ]
]

-- No table has changed, and the answer is no 201.
abbrev pub Unmoved : Tables → Result BookingResult × World → Type 0
Unmoved t (err e, w') = w'.tables ≡ t
Unmoved t (ok r, w') = (r.status ≢ 201) × (w'.tables ≡ t)

-- If Temporal.Instant.from raises at the Date of the new slot's start, as it does at every Date, then on one
-- connection with no transaction open a call of the older `reschedule_booking`, whatever else fails, moves
-- no booking: it answers no 201 and leaves every table as it was, also what it wrote before the error.
pub reschedule_booking_undone :
    (env : Env) (req : RescheduleRequest) (w : World) {x : PgError}
    → env.instant_fails ≡ some x
    → env.connection ≡ one_client
    → w.saved ≡ none
    → Unmoved w.tables (reschedule_booking env req w)
reschedule_booking_undone env req w {x} refused one n =
    unmoved (reschedule_booking env req w) (reschedule_booking-Ends env req w one n)
  where
    unmoved :
        (out : Result BookingResult × World) → Ends env req w.tables out → Unmoved w.tables out
    unmoved (err e, w') h = h
    unmoved (ok r, w') (inl (e, m)) = absurd (ground (arith, refused, m.parsed))
    unmoved (ok r, w') (inr h) = h
