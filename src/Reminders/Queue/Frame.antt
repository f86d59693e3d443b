-- ===== src/Reminders/Queue/Frame.antt =====
-- The queue manager writes reminder jobs and asks the queue, and touches nothing else.
use chronos_appointment_sche.Base.{ℕ, ◌≡◌, refl, List, [], ◌∷◌, arith, Table, select}
use chronos_appointment_sche.Schema.{ReminderJob}
use chronos_appointment_sche.Schema.World.{World, with_queue, JobId, ok}
use chronos_appointment_sche.Reminders.Queue.{
  QueueEnv, enqueue_offset, enqueue_for_booking, remove_from_queue, remove_all, cancel_for_booking,
  is_active_job_of,
}

module _ (env : QueueEnv) where
  enqueue_offset-with_queue :
      (b start now off : ℕ) (w : World)
      → (enqueue_offset env b start now off w).1
        ≡ with_queue w (enqueue_offset env b start now off w).1
  unfolding enqueue_offset
  enqueue_offset-with_queue b start now off w = ground arith

  pub enqueue_for_booking-with_queue :
      (b start : ℕ) (offs : List ℕ) (now : ℕ) (w : World)
      → (enqueue_for_booking env b start offs now w).1
        ≡ with_queue w (enqueue_for_booking env b start offs now w).1
  unfolding enqueue_for_booking
  enqueue_for_booking-with_queue b start [] now w = refl
  enqueue_for_booking-with_queue b start (off ∷ offs) now w = ground (
    arith,
    enqueue_offset-with_queue b start now off w,
    enqueue_for_booking-with_queue b start offs now (enqueue_offset env b start now off w).1,
  )

  remove_from_queue-ok :
      (job : JobId) (w : World)
      → remove_from_queue env job w
        ≡ (ok tt, record w { effects = (remove_from_queue env job w).1.effects })
  unfolding remove_from_queue
  remove_from_queue-ok job w = ground arith

  pub remove_all-ok :
      (b : ℕ) (rows : Table ReminderJob) (w : World)
      → remove_all env b rows w
        ≡ (ok tt, record w { effects = (remove_all env b rows w).1.effects })
  unfolding remove_all
  remove_all-ok b [] w = refl
  remove_all-ok b ((i, j) ∷ rows) w =
      let job : JobId = record { booking_id = b; offset = j.offset_minutes } in
      ground
        (arith, remove_from_queue-ok job w, remove_all-ok b rows (remove_from_queue env job w).1)

  pub cancel_for_booking-with_queue :
      (b : ℕ) (w : World)
      → (cancel_for_booking env b w).1 ≡ with_queue w (cancel_for_booking env b w).1
  unfolding cancel_for_booking
  cancel_for_booking-with_queue b w =
      ground (arith, remove_all-ok b (select (is_active_job_of b) w.tables.reminder_jobs) w)
