-- ===== src/Reminders/Worker.antt =====
-- apps/api/src/reminders/reminder.worker.ts: the class ReminderWorker. Log lines are left out. What
-- the database, the mail provider and the rendering of a text throw is an argument.
pub mod Laws
pub mod Runs
pub mod Once
pub mod Claims
use Prim.Native.String.{String}
use chronos_appointment_sche.Base.{
  ℕ, ◌+◌, Bool, true, false, Option, none, some, List, [], ◌∷◌, Table, lookup, adjust, ltb, leb,
  ◌==◌, ◌&&◌, ◌||◌, not, if◌then◌else◌, is_some,
}
use chronos_appointment_sche.Schema.{
  Tables, Booking, Client, ReminderJob, ReminderJobStatus, LastError, booking_not_found,
  no_longer_booked, retry_window_exceeded, opted_out, gateway_message, allows_status, is_booked,
  is_scheduled, is_sending,
}
use chronos_appointment_sche.Schema.World.{
  M, PgError, check_violation, ok, err, JobId, pure, attempt, gets, ◌>>=◌, ◌>>◌,
}
use chronos_appointment_sche.Email.Gateway.{
  Gateway, SendResult, sent_as, email_error, ErrorKind, transient, send,
}

abbrev pub retry_window_ms : ℕ
retry_window_ms = 86399999

abbrev pub lock_duration_ms : ℕ
lock_duration_ms = 120000

pub data Statement : Type 0 where
  claim read_status read_reminder read_booking read_client read_client_again read_provider mark :
      Statement

pub record Env : Type 0 where
  pub now : ℕ
  pub fails : Statement → Option PgError
  pub gateway : Gateway
  -- What formatting the time of the appointment throws.
  pub render_fails : Option PgError

-- What the worker throws itself.
pub data WorkerError : Type 0 where
  missing_reminder_id reminder_not_found not_sending booking_missing past_window no_email :
      WorkerError
  network_error : String → WorkerError

pub data Ended : Type 0 where
  finished : Ended
  threw : WorkerError → Ended

-- What sendWithProvider returns or throws.
pub data Delivery : Type 0 where
  accepted provider_error : String → Delivery
  failed : WorkerError → Delivery

-- UPDATE reminder_jobs SET status = s, … WHERE id = reminder_id, with the CHECK of the status.
abbrev pub mark_as : ReminderJobStatus → (ReminderJob → ReminderJob) → ℕ → M (Unit {0})
mark_as s f reminder_id w =
    if allows_status s || not (is_some (lookup reminder_id w.tables.reminder_jobs))
    then (
      ok tt,
      record w {
        tables = record (w.tables) {
          reminder_jobs =
              adjust reminder_id (λ j. record (f j) { status = s }) w.tables.reminder_jobs;
        };
      },
    )
    else (err check_violation, w)

abbrev pub because : LastError → ReminderJob → ReminderJob
because e j = record j { last_error = some e }

abbrev pub as_sent : ℕ → String → ReminderJob → ReminderJob
as_sent at id j = record j { sent_at = some at; provider_message_id = some id }

abbrev pub claimed_until : ℕ → ReminderJob → ReminderJob
claimed_until t j = record j {
  status = ReminderJobStatus.sending;
  attempts = j.attempts + 1;
  locked_until = some t;
}

abbrev pub is_blank : String → Bool
is_blank String.[] = true
is_blank (String.◌∷◌ c s) = false

-- `!client?.email`: an empty address counts as none.
abbrev pub address_of : Option Client → Option (String × Client)
address_of none = none
address_of (some c) = elim c.email [
  | none ↦ none
  | some a ↦ if is_blank a then none else some (a, c)
]

abbrev pub delivery_of : SendResult → Delivery
delivery_of (sent_as id) = accepted id
delivery_of (email_error transient m) = failed (network_error m)
delivery_of (email_error _ m) = provider_error m

module _ (env : Env) where
  abbrev pub mark_with : ReminderJobStatus → (ReminderJob → ReminderJob) → ℕ → M (Unit {0})
  mark_with s f id = attempt (env.fails mark) (mark_as s f id)

  -- sendWithProvider with renderReminderEmail. `booking.providerId` is no column of the row, so the
  -- provider is looked up under NULL, and none is found.
  abbrev pub send_with_provider : Booking → (booking_id offset : ℕ) → M Delivery
  send_with_provider b booking_id offset = do
    client ← attempt (env.fails read_client_again) (gets λ t. lookup b.client_id t.clients)
    elim (address_of client) [
      | none ↦ pure (failed no_email)
      | some (to, _) ↦ do
        attempt (env.fails read_provider) (pure tt)
        attempt env.render_fails (pure tt)
        r ← send env.gateway to (record { booking_id = booking_id; offset = offset })
        pure (delivery_of r)
    ]

  abbrev pub settle : ℕ → Delivery → M Ended
  settle id (accepted message_id) = do
    mark_with ReminderJobStatus.sent (as_sent env.now message_id) id
    pure finished
  settle id (provider_error m) = do
    mark_with ReminderJobStatus.failed (because (gateway_message m)) id
    pure finished
  settle id (failed e) = pure (threw e)

  -- From the SELECT of the client on.
  unfoldable pub remind_client : ℕ → ReminderJob → Booking → M Ended
  unfolding send
  remind_client id r b = do
    client ← attempt (env.fails read_client) (gets λ t. lookup b.client_id t.clients)
    elim (address_of client) [
      | none ↦ pure (threw no_email)
      | some (_, c) ↦
          if c.reminders_opt_out
          then (do mark_with ReminderJobStatus.suppressed (because opted_out) id; pure finished)
          else send_with_provider b r.booking_id r.offset_minutes >>= settle id
    ]

  -- From the SELECT of the booking on.
  unfoldable pub remind : ℕ → ReminderJob → M Ended
  unfolding remind_client
  remind id r = do
    booking ← attempt (env.fails read_booking) (gets λ t. lookup r.booking_id t.bookings)
    elim booking [
      | none ↦ do
        mark_with ReminderJobStatus.failed (because booking_not_found) id
        pure (threw booking_missing)
      | some b ↦
          if not (is_booked b.status)
          then (do
            mark_with ReminderJobStatus.cancelled (because no_longer_booked) id
            pure finished)
          else if ltb (r.fire_at_utc + retry_window_ms) env.now
          then (do
            mark_with ReminderJobStatus.failed (because retry_window_exceeded) id
            pure (threw past_window))
          else remind_client id r b
    ]

  unfoldable pub process_reminder : ℕ → M Ended
  unfolding remind
  process_reminder id = do
    row ← attempt (env.fails read_reminder) (gets λ t. lookup id t.reminder_jobs)
    elim row [
      | none ↦ pure (threw reminder_not_found)
      | some r ↦ if is_sending r.status then remind id r else pure (threw not_sending)
    ]

  -- The claim of one reminder: was a scheduled row found?
  abbrev pub claim_scheduled : ℕ → M Bool
  claim_scheduled id w = elim (lookup id w.tables.reminder_jobs) [
    | none ↦ (ok false, w)
    | some j ↦
        if is_scheduled j.status
        then (
          ok true,
          record w {
            tables = record (w.tables) {
              reminder_jobs =
                  adjust id (claimed_until (env.now + lock_duration_ms)) w.tables.reminder_jobs;
            };
          },
        )
        else (ok false, w)
  ]

  unfoldable pub skip_or_process : ℕ → Option ReminderJob → M Ended
  unfolding process_reminder
  skip_or_process id none = pure finished
  skip_or_process id (some j) = if is_sending j.status then process_reminder id else pure finished

  unfoldable pub process : Option ℕ → M Ended
  unfolding skip_or_process
  process none = pure (threw missing_reminder_id)
  process (some id) = do
    claimed ← attempt (env.fails claim) (claim_scheduled id)
    if claimed then process_reminder id else (do
      check ← attempt (env.fails read_status) (gets λ t. lookup id t.reminder_jobs)
      skip_or_process id check)

  unfoldable pub handle_job : Option ℕ → M Ended
  unfolding process_reminder
  handle_job none = pure (threw missing_reminder_id)
  handle_job (some id) = process_reminder id

-- `locked_until < now()`; NULL compares as unknown.
abbrev pub is_expired : ℕ → Option ℕ → Bool
is_expired now none = false
is_expired now (some t) = ltb t now

abbrev pub is_claimable : ℕ → ReminderJob → Bool
is_claimable now j = is_scheduled j.status || (is_sending j.status && is_expired now j.locked_until)

abbrev pub earlier : Option (ℕ × ReminderJob) → Option (ℕ × ReminderJob) → Option (ℕ × ReminderJob)
earlier none q = q
earlier p none = p
earlier (some (i, j)) (some (k, l)) =
    if leb j.fire_at_utc l.fire_at_utc then some (i, j) else some (k, l)

-- ORDER BY fire_at_utc ASC LIMIT 1
unfoldable pub earliest : (ReminderJob → Bool) → Table ReminderJob → Option (ℕ × ReminderJob)
earliest p [] = none
earliest p ((i, j) ∷ t) = earlier (if p j then some (i, j) else none) (earliest p t)

unfoldable pub claim_due : Env → M (Option (ℕ × ReminderJob))
unfolding earliest
claim_due env = attempt (env.fails claim) λ w.
    elim (earliest (is_claimable env.now) w.tables.reminder_jobs) [
      | none ↦ (ok none, w)
      | some (i, j) ↦ (
        ok (some (i, claimed_until (env.now + lock_duration_ms) j)),
        record w {
          tables = record (w.tables) {
            reminder_jobs =
                adjust i (claimed_until (env.now + lock_duration_ms)) w.tables.reminder_jobs;
          };
        },
      )
    ]
