-- ===== src/Reminders/Queue/Laws.antt =====
-- What a cancellation of a booking's reminders leaves in the table.
use chronos_appointment_sche.Base.{
  ℕ, ◌≡◌, refl, arith, select, lookup, lookup-adjust_where, false, some, Option-cases, inl, inr,
  by_run,
}
use chronos_appointment_sche.Schema.{ReminderJob, ReminderJobStatus, Tables}
use chronos_appointment_sche.Schema.World.{World, ok, err, Result}
use chronos_appointment_sche.Reminders.Queue.{
  QueueEnv, remove_all, cancel_for_booking, is_active_job_of, set_job_status, set_jobs,
}
use chronos_appointment_sche.Reminders.Queue.Frame.{remove_all-ok}

-- No job of the booking is scheduled or sending, and every other job is as it was.
pub record Cancelled (b : ℕ) (t t' : Tables) : Type 0 where
  pub none_active :
      (k : ℕ) (j : ReminderJob) → lookup k t'.reminder_jobs ≡ some j → is_active_job_of b j ≡ false
  pub others :
      (k : ℕ) (j : ReminderJob)
      → lookup k t.reminder_jobs ≡ some j
      → is_active_job_of b j ≡ false
      → lookup k t'.reminder_jobs ≡ some j
  pub rest : t' ≡ record t { reminder_jobs = t'.reminder_jobs }

abbrev pub CancelJobsEnds : ℕ → Tables → Result (Unit {0}) × World → Type 0
CancelJobsEnds b t (ok u, w') = Cancelled b t w'.tables
CancelJobsEnds b t (err e, w') = w'.tables ≡ t

-- Cancelling the reminders of a booking either raises and changes no table, or leaves no job of the
-- booking scheduled or sending and all else in the tables as it was; a job that the queue
-- cannot remove does not stop it.
pub cancel_for_booking-CancelJobsEnds :
    (env : QueueEnv) (b : ℕ) (w : World) → CancelJobsEnds b w.tables (cancel_for_booking env b w)
unfolding cancel_for_booking
cancel_for_booking-CancelJobsEnds env b w =
    let E = CancelJobsEnds b w.tables in
    let call = cancel_for_booking env b w in
    let rows = select (is_active_job_of b) w.tables.reminder_jobs in
    let removed = (remove_all env b rows w).1 in
    elim (Option-cases env.list_fails) [
      | inr (x, e) ↦ by_run E call (err x, w) (ground arith) refl
      | inl e ↦ elim (Option-cases env.cancel_fails) [
        | inr (x, f) ↦
            by_run E call (err x, removed) (ground (arith, remove_all-ok env b rows w))
              (ground (arith, remove_all-ok env b rows w))
        | inl f ↦
            let t' =
              set_jobs (is_active_job_of b) (set_job_status ReminderJobStatus.cancelled) w.tables in
            by_run E call (ok tt, record w { tables = t'; effects = removed.effects })
              (ground (arith, remove_all-ok env b rows w))
              (record {
                none_active = λ k j h. ground (
                  arith,
                  lookup-adjust_where k (is_active_job_of b)
                      (set_job_status ReminderJobStatus.cancelled) w.tables.reminder_jobs,
                );
                others = λ k j h n. ground (
                  arith,
                  lookup-adjust_where k (is_active_job_of b)
                      (set_job_status ReminderJobStatus.cancelled) w.tables.reminder_jobs,
                );
                rest = refl;
              })
      ]
    ]
