-- ===== src/Bookings/Create/Jobs.antt =====
-- The reminder rows of a committed booking.
use chronos_appointment_sche.Base.{
  ℕ, ◌≡◌, refl, Bool, true, List, [], ◌∷◌, arith, Table, exists, ltb, ◌==◌, ◌&&◌, Option-cases,
  Bool-cases, by_run, sym, ap, ◌∙◌, adjust_where, inl, inr, ==_refl, select, lookup, subst,
}
use chronos_appointment_sche.Schema.{BookingRequest, ReminderJob, ReminderJobStatus, Slot}
use chronos_appointment_sche.Schema.World.{World, ok, attempt, Result-cases}
use chronos_appointment_sche.Schema.Statements.{insert_reminder_job}
use chronos_appointment_sche.Reminders.Queue.{
  QueueEnv, fire_time, enqueue_offset, enqueue_for_booking, set_job_status, is_scheduled_job_of,
}
use chronos_appointment_sche.Bookings.Create.Checks.{Env, insert_job}
use chronos_appointment_sche.Bookings.Create.{
  insert_jobs, insert_key_row, write_rows, after_commit, enqueue_jobs, new_job, offsets_of,
  scheduled_of,
}
use chronos_appointment_sche.Bookings.Create.Writes.{with_booking}

-- A row for the reminder of the booking at the offset, due at the fire time.
abbrev pub is_reminder : (booking_id offset fire : ℕ) → ReminderJob → Bool
is_reminder b off fire j = j.booking_id == b && (j.offset_minutes == off && j.fire_at_utc == fire)

-- Each offset whose fire time lies ahead has its row.
abbrev pub Reminded : Env → (slot_start : ℕ) → List ℕ → Table ReminderJob → Type 0
Reminded env start [] jobs = Unit {0}
Reminded env start (off ∷ offs) jobs =
    (ltb env.clock (fire_time start off) ≡ true
      → exists (is_reminder env.booking_id off (fire_time start off)) jobs ≡ true)
    × Reminded env start offs jobs

insert_jobs-keeps :
    (env : Env) (start : ℕ) (offs : List ℕ) (p : ReminderJob → Bool) (w : World)
    → exists p w.tables.reminder_jobs ≡ true
    → exists p (insert_jobs env start offs w).1.tables.reminder_jobs ≡ true
unfolding insert_jobs
insert_jobs-keeps env start [] p w h = h
insert_jobs-keeps env start (off ∷ offs) p w h = ground (
  arith,
  insert_jobs-keeps env start offs p w,
  insert_jobs-keeps env start offs p
      (insert_reminder_job (env.job_id off) (new_job env.booking_id off (fire_time start off)) w).1,
)

row_written :
    (env : Env) (off fire : ℕ) (w : World)
    → (attempt
        (env.fails (insert_job off))
        (insert_reminder_job (env.job_id off) (new_job env.booking_id off fire))
        w).0
      ≡ ok tt
    → exists
        (is_reminder env.booking_id off fire)
        (attempt
          (env.fails (insert_job off))
          (insert_reminder_job (env.job_id off) (new_job env.booking_id off fire))
          w).1.tables.reminder_jobs
      ≡ true
row_written env off fire w h = ground (arith, ==_refl env.booking_id, ==_refl off, ==_refl fire)

insert_jobs-Reminded :
    (env : Env) (start : ℕ) (offs : List ℕ) (w : World)
    → (insert_jobs env start offs w).0 ≡ ok tt
    → Reminded env start offs (insert_jobs env start offs w).1.tables.reminder_jobs
unfolding insert_jobs
insert_jobs-Reminded env start [] w h = tt
insert_jobs-Reminded env start (off ∷ offs) w h =
    let fire = fire_time start off in
    let head =
      attempt (env.fails (insert_job off))
        (insert_reminder_job (env.job_id off) (new_job env.booking_id off fire)) w in
    let all = insert_jobs env start (off ∷ offs) w in
    elim (Bool-cases (ltb env.clock fire)) [
      | inr past ↦
          let same : all ≡ insert_jobs env start offs w = rw past refl in
          (
            λ ahead. absurd (ground (arith, past, ahead)),
            by_run (λ out. Reminded env start offs out.1.tables.reminder_jobs) all
                (insert_jobs env start offs w) same
                (insert_jobs-Reminded env start offs w (sym (ap (λ out. out.0) same) ∙ h)),
          )
      | inl ahead ↦ elim (Result-cases head.0) [
        | inr (x, e) ↦ absurd (ground (arith, h, ahead, e))
        | inl (u, e) ↦
            let same : all ≡ insert_jobs env start offs head.1 = ground (arith, ahead, e) in
            (
              λ _.
                  by_run
                    (λ out.
                      exists (is_reminder env.booking_id off fire) out.1.tables.reminder_jobs
                      ≡ true)
                    all (insert_jobs env start offs head.1) same
                    (insert_jobs-keeps env start offs (is_reminder env.booking_id off fire) head.1
                      (row_written env off fire w e)),
              by_run (λ out. Reminded env start offs out.1.tables.reminder_jobs) all
                  (insert_jobs env start offs head.1) same
                  (insert_jobs-Reminded env start offs head.1 (sym (ap (λ out. out.0) same) ∙ h)),
            )
      ]
    ]

-- Reminder rows that keep their booking, offset and fire time.
abbrev Remembers : Table ReminderJob → Table ReminderJob → Type 0
Remembers jobs jobs' =
    (b off fire : ℕ)
    → exists (is_reminder b off fire) jobs ≡ true
    → exists (is_reminder b off fire) jobs' ≡ true

Reminded-Remembers :
    (env : Env) (start : ℕ) (offs : List ℕ) (jobs jobs' : Table ReminderJob)
    → Remembers jobs jobs'
    → Reminded env start offs jobs
    → Reminded env start offs jobs'
Reminded-Remembers env start [] jobs jobs' keep h = tt
Reminded-Remembers env start (off ∷ offs) jobs jobs' keep (first, rest) = (
  λ ahead. keep env.booking_id off (fire_time start off) (first ahead),
  Reminded-Remembers env start offs jobs jobs' keep rest,
)

set_status-Remembers :
    (p : ReminderJob → Bool) (s : ReminderJobStatus) (jobs : Table ReminderJob)
    → Remembers jobs (adjust_where p (set_job_status s) jobs)
set_status-Remembers p s [] b off fire h = h
set_status-Remembers p s ((i, j) ∷ jobs) b off fire h =
    ground (arith, set_status-Remembers p s jobs b off fire)

enqueue_offset-Remembers :
    (queue : QueueEnv) (b start now off : ℕ) (w : World)
    → Remembers w.tables.reminder_jobs
        (enqueue_offset queue b start now off w).1.tables.reminder_jobs
unfolding enqueue_offset
enqueue_offset-Remembers queue b start now off w b' off' fire h = ground (
  arith,
  set_status-Remembers (is_scheduled_job_of b off) ReminderJobStatus.skipped w.tables.reminder_jobs
      b' off' fire h,
)

enqueue_for_booking-Remembers :
    (queue : QueueEnv) (b start : ℕ) (offs : List ℕ) (now : ℕ) (w : World)
    → Remembers w.tables.reminder_jobs
        (enqueue_for_booking queue b start offs now w).1.tables.reminder_jobs
unfolding enqueue_for_booking
enqueue_for_booking-Remembers queue b start [] now w b' off' fire h = h
enqueue_for_booking-Remembers queue b start (off ∷ offs) now w b' off' fire h =
    let kept = enqueue_offset-Remembers queue b start now off w b' off' fire h in
    ground (
      arith,
      kept,
      enqueue_for_booking-Remembers queue b start offs now
          (enqueue_offset queue b start now off w).1 b' off' fire kept,
    )

-- What follows the COMMIT keeps them.
after_commit-Remembers :
    (env : Env) (req : BookingRequest) (w : World)
    → Remembers w.tables.reminder_jobs (after_commit env req w).1.tables.reminder_jobs
unfolding after_commit enqueue_jobs
after_commit-Remembers env req w b' off' fire h = elim (Option-cases env.queue) [
  | inl e ↦ ground arith
  | inr (q, e) ↦ elim (Option-cases (lookup req.slot_id w.tables.slots)) [
    | inl f ↦ ground arith
    | inr (s, f) ↦ ground (
      arith,
      enqueue_for_booking-Remembers q env.booking_id s.slot_start_utc
          (offsets_of (select (scheduled_of env.booking_id) w.tables.reminder_jobs)) env.now w b'
          off' fire h,
    )
  ]
]

write_rows-Reminded :
    (env : Env) (req : BookingRequest) (slot : Slot) (w : World)
    → (write_rows env req slot w).0 ≡ ok tt
    → Reminded env slot.slot_start_utc
        (1440 ∷ 60 ∷ [])
        (write_rows env req slot w).1.tables.reminder_jobs
unfolding write_rows insert_key_row
write_rows-Reminded env req slot w h =
    let v = with_booking env req w in
    let jobs = insert_jobs env slot.slot_start_utc (1440 ∷ 60 ∷ []) v in
    elim (Result-cases jobs.0) [
      | inr (x, e) ↦ absurd (ground (arith, h, e))
      | inl (u, e) ↦
          let same : (write_rows env req slot w).1.tables.reminder_jobs
              ≡ jobs.1.tables.reminder_jobs =
            ground (arith, h, e) in
          subst (Reminded env slot.slot_start_utc (1440 ∷ 60 ∷ [])) (sym same)
            (insert_jobs-Reminded env slot.slot_start_utc (1440 ∷ 60 ∷ []) v e)
    ]

-- The reminder rows of a booking, in the end.
pub written-Reminded :
    (env : Env) (req : BookingRequest) (slot : Slot) (w : World)
    → (write_rows env req slot w).0 ≡ ok tt
    → Reminded env slot.slot_start_utc
        (1440 ∷ 60 ∷ [])
        (after_commit env req (write_rows env req slot w).1).1.tables.reminder_jobs
written-Reminded env req slot w h =
    Reminded-Remembers env slot.slot_start_utc (1440 ∷ 60 ∷ [])
      (write_rows env req slot w).1.tables.reminder_jobs
      (after_commit env req (write_rows env req slot w).1).1.tables.reminder_jobs
      (after_commit-Remembers env req (write_rows env req slot w).1)
      (write_rows-Reminded env req slot w h)
