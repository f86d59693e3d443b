-- ===== src/Schema/Statements.antt =====
-- The INSERT and UPDATE statements that the booking services share, with the constraints of
-- packages/db/migrations/002_phase2_full_schema.sql and the relations of prisma/schema.prisma.
use chronos_appointment_sche.Base.{
  ℕ, Bool, true, Option, none, some, List, [], ◌∷◌, lookup, adjust, exists, ◌==◌, if◌then◌else◌,
  ◌&&◌, ◌||◌, is_some, Table,
}
use chronos_appointment_sche.Schema.{
  Tables, Slot, Booking, SlotStatus, ReminderJob, IdempotencyKey, is_live_on, is_live,
}
use chronos_appointment_sche.Schema.World.{M, ok, err, unique_violation, foreign_key_violation}

-- UPDATE slots SET status = 'booked' WHERE id = slot_id AND (the row is free) RETURNING *
abbrev pub claim_slot : (Slot → Bool) → ℕ → M (Option Slot)
claim_slot is_free slot_id w = elim (lookup slot_id w.tables.slots) [
  | none ↦ (ok none, w)
  | some s ↦
      if is_free s
      then (
        ok (some s),
        record w {
          tables = record (w.tables) {
            slots = adjust slot_id (λ r. record r { status = SlotStatus.booked }) w.tables.slots;
          };
        },
      )
      else (ok none, w)
]

abbrev pub set_slot : SlotStatus → ℕ → Tables → Tables
set_slot status slot_id t = record t {
  slots = adjust slot_id (λ r. record r { status = status }) t.slots;
}

abbrev pub set_booking : (Booking → Booking) → ℕ → Tables → Tables
set_booking f booking_id t = record t { bookings = adjust booking_id f t.bookings }

abbrev pub refers_to {ℓ} : {V : Type ℓ} → Table V → Option ℕ → Bool
refers_to t none = true
refers_to t (some k) = is_some (lookup k t)

-- Would the row break the primary key, or be a second live booking on its slot?
unfoldable pub collides : ℕ → Booking → Tables → Bool
collides id b t =
    is_some (lookup id t.bookings) || (is_live b && exists (is_live_on b.slot_id) t.bookings)

unfoldable pub has_references : Booking → Tables → Bool
has_references b t =
    is_some (lookup b.slot_id t.slots)
    && (is_some (lookup b.client_id t.clients)
        && (refers_to t.providers b.provider_id && refers_to t.event_types b.event_type_id))

-- INSERT INTO bookings … RETURNING id; the server draws the id.
abbrev pub insert_booking : ℕ → Booking → M (Unit {0})
insert_booking id b w =
    if collides id b w.tables
    then (err unique_violation, w)
    else if has_references b w.tables
    then (ok tt, record w { tables = record (w.tables) { bookings = (id, b) ∷ w.tables.bookings } })
    else (err foreign_key_violation, w)

abbrev pub is_job_of : ℕ → ℕ → ReminderJob → Bool
is_job_of booking_id offset j = j.booking_id == booking_id && j.offset_minutes == offset

-- INSERT INTO reminder_jobs …, with its primary key, UNIQUE (booking_id, offset_minutes) and
-- reference.
abbrev pub insert_reminder_job : ℕ → ReminderJob → M (Unit {0})
insert_reminder_job id j w =
    if is_some (lookup id w.tables.reminder_jobs)
      || exists (is_job_of j.booking_id j.offset_minutes) w.tables.reminder_jobs
    then (err unique_violation, w)
    else if is_some (lookup j.booking_id w.tables.bookings)
    then (
      ok tt,
      record w { tables = record (w.tables) { reminder_jobs = (id, j) ∷ w.tables.reminder_jobs } },
    )
    else (err foreign_key_violation, w)

unfoldable pub find_key : (client_id key : ℕ) → List IdempotencyKey → Option IdempotencyKey
find_key c k [] = none
find_key c k (r ∷ rs) = if r.client_id == c && r.key == k then some r else find_key c k rs

-- INSERT INTO idempotency_keys …, with PRIMARY KEY (client_id, key).
abbrev pub insert_key : IdempotencyKey → M (Unit {0})
insert_key r w =
    if is_some (find_key r.client_id r.key w.tables.idempotency_keys)
    then (err unique_violation, w)
    else (
      ok tt,
      record w { tables = record (w.tables) { idempotency_keys = r ∷ w.tables.idempotency_keys } },
    )
