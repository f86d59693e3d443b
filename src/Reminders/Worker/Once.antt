-- ===== src/Reminders/Worker/Once.antt =====
-- A queued job, from its claim on: `process`.
use Prim.Native.String.{String}
use chronos_appointment_sche.Base.{
  ℕ, ◌+◌, ◌≡◌, refl, by_run, true, false, none, some, arith, Option-cases, Bool-cases, inl, inr,
  lookup, adjust, lookup-adjust, ltb,
}
use chronos_appointment_sche.Schema.{
  Booking, Client, ReminderJob, is_booked, is_scheduled, is_sending,
}
use chronos_appointment_sche.Schema.World.{World, ok, err, check_violation}
use chronos_appointment_sche.Reminders.Worker.{
  Env, Statement, finished, process_reminder, process, claimed_until, lock_duration_ms, claim,
  read_status, read_reminder, read_booking, read_client, mark, retry_window_ms, address_of,
}
use chronos_appointment_sche.Reminders.Worker.Laws.{OnlyJob-trans, process_done, adjust_other}
use chronos_appointment_sche.Reminders.Worker.Runs.{Ran, stopped, process_reminder-Ran}

-- The world in which a scheduled job is claimed.
abbrev pub claimed : Env → ℕ → World → World
claimed env id w = record w {
  tables = record (w.tables) {
    reminder_jobs = adjust id (claimed_until (env.now + lock_duration_ms)) w.tables.reminder_jobs;
  };
}

module _ (env : Env) (id : ℕ) (w : World) {j : ReminderJob}
    (found : lookup id w.tables.reminder_jobs ≡ some j) where
  claimed-Ran : Ran env id j w (process_reminder env id (claimed env id w))
  claimed-Ran =
      let until = env.now + lock_duration_ms in
      let w1 = claimed env id w in
      let r =
        process_reminder-Ran env id (claimed_until until j) w1
          (ground (arith, lookup-adjust id id (claimed_until until) w.tables.reminder_jobs)) in
      record {
        only =
            OnlyJob-trans env id w w1 (process_reminder env id w1).1
              (refl, λ k h. adjust_other env id k (claimed_until until) w.tables.reminder_jobs h)
              r.only;
        mails = elim r.mails [
          | inl e ↦ inl e
          | inr m ↦ inr (record {
            booking = m.booking;
            client = m.client;
            to = m.to;
            found = m.found;
            booked = m.booked;
            in_window = m.in_window;
            address = m.address;
            opted_in = m.opted_in;
            effects = m.effects;
          })
        ];
        done = r.done;
      }

  -- A run of a queued job that has a row changes no row but this one, and no other table; it sends no
  -- mail or one, and one only for a booking that is booked, inside the retry window, to the address
  -- of a client who has not opted out; and if it ends without an exception, the job's status is
  -- final (sent, cancelled, skipped, failed or suppressed).
  pub process-Ran : Ran env id j w (process env (some id) w)
  unfolding process
  process-Ran =
      let call = process env (some id) w in
      elim (Option-cases (env.fails claim)) [
        | inr (x, e) ↦
            by_run (Ran env id j w) call (err x, w) (ground arith)
              (stopped env id j w (err x) (ground arith))
        | inl e ↦ elim (Bool-cases (is_scheduled j.status)) [
          | inl s ↦
              by_run (Ran env id j w) call (process_reminder env id (claimed env id w))
                (ground arith) claimed-Ran
          | inr s ↦ elim (Option-cases (env.fails read_status)) [
            | inr (x, f) ↦
                by_run (Ran env id j w) call (err x, w) (ground arith)
                  (stopped env id j w (err x) (ground arith))
            | inl f ↦ elim (Bool-cases (is_sending j.status)) [
              | inl k ↦
                  by_run (Ran env id j w) call (process_reminder env id w) (ground arith)
                    (process_reminder-Ran env id j w found)
              | inr k ↦
                  by_run (Ran env id j w) call (ok finished, w) (ground arith)
                    (record {
                      only = (refl, λ k h. refl);
                      mails = inl refl;
                      done = λ h. ground arith;
                    })
            ]
          ]
        ]
      ]

-- After a run of a queued job that ended without an exception, another run of it, at any time and
-- whatever fails in it, sends no mail and changes nothing.
pub process_once :
    (env env' : Env) (id : ℕ) (w : World) {j : ReminderJob}
    → lookup id w.tables.reminder_jobs ≡ some j
    → (process env (some id) w).0 ≡ ok finished
    → (process env' (some id) (process env (some id) w).1).1 ≡ (process env (some id) w).1
process_once env env' id w found h =
    process_done env' id (process env (some id) w).1 ((process-Ran env id w found).done h)

-- If the client of a scheduled reminder has opted out, no statement fails by itself, the booking is
-- booked and the retry window is open, then the run raises: the table refuses the status 'suppressed',
-- and the job stays in 'sending'.
pub process_opted_out :
    (env : Env) (id : ℕ) (w : World) {j : ReminderJob} {b : Booking} {c : Client} {to : String}
    → lookup id w.tables.reminder_jobs ≡ some j
    → is_scheduled j.status ≡ true
    → lookup j.booking_id w.tables.bookings ≡ some b
    → is_booked b.status ≡ true
    → ltb (j.fire_at_utc + retry_window_ms) env.now ≡ false
    → address_of (lookup b.client_id w.tables.clients) ≡ some (to, c)
    → c.reminders_opt_out ≡ true
    → ((s : Statement) → env.fails s ≡ none)
    → process env (some id) w ≡ (err check_violation, claimed env id w)
unfolding process
process_opted_out env id w {j} {b} {c} found s b-found booked window address out quiet = ground (
  arith,
  quiet claim,
  quiet read_reminder,
  quiet read_booking,
  quiet read_client,
  quiet mark,
  lookup-adjust id id (claimed_until (env.now + lock_duration_ms)) w.tables.reminder_jobs,
)
