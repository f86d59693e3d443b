-- ===== src/Reminders/Worker/Runs.antt =====
-- The one mail that a run of the worker may send, and how each part of a run ends.
use Prim.Native.String.{String}
use chronos_appointment_sche.Base.{
  ℕ, ◌+◌, ◌≡◌, ◌≢◌, refl, sym, ap, ◌∙◌, subst, by_run, true, false, some, arith, Option-cases,
  Bool-cases, ◌⊎◌, inl, inr, lookup, ltb,
}
use chronos_appointment_sche.Schema.{
  Booking, Client, ReminderJob, ReminderJobStatus, is_booked, is_sending, opted_out,
  no_longer_booked, booking_not_found, retry_window_exceeded,
}
use chronos_appointment_sche.Schema.World.{World, pure, ◌>>=◌, ◌>>◌, Result-cases, Result, ok, err}
use chronos_appointment_sche.Reminders.Worker.{
  Env, Ended, finished, threw, process_reminder, remind, remind_client, settle, send_with_provider,
  address_of, mark_with, read_client, read_booking, read_reminder, because, retry_window_ms,
  no_email, booking_missing, past_window, not_sending,
}
use chronos_appointment_sche.Reminders.Worker.Laws.{
  OnlyJob, OnlyJob-trans, adjust_other, mark-done, settle-OnlyJob, settle-effects, settle-done,
  send_with_provider-sends, mailed, is_final, is_done,
}

module _ (env : Env) (id : ℕ) where
  -- The one mail that a run of job `r` may send, and what allowed it.
  pub record SentMail (r : ReminderJob) (w w' : World) : Type 0 where
    pub booking : Booking
    pub client : Client
    pub to : String
    pub found : lookup r.booking_id w.tables.bookings ≡ some booking
    pub booked : is_booked booking.status ≡ true
    pub in_window : ltb (r.fire_at_utc + retry_window_ms) env.now ≡ false
    pub address : address_of (lookup booking.client_id w.tables.clients) ≡ some (to, client)
    pub opted_in : client.reminders_opt_out ≡ false
    pub effects : w'.effects ≡ (mailed env id r to w).effects

  pub record Ran (r : ReminderJob) (w : World) (out : Result Ended × World) : Type 0 where
    pub only : OnlyJob env id w out.1
    pub mails : (out.1.effects ≡ w.effects) ⊎ SentMail r w out.1
    pub done : out.0 ≡ ok finished → is_done id out.1 ≡ true

  -- A run that stops before it writes, and one that ends with a mark.
  pub stopped : (r : ReminderJob) (w : World) (q : Result Ended) → q ≢ ok finished → Ran r w (q, w)
  stopped r w q h = record {
    only = (refl, λ k n. refl);
    mails = inl refl;
    done = λ e. absurd (h e);
  }

  marked :
      (r : ReminderJob) (w : World) (s : ReminderJobStatus) (f : ReminderJob → ReminderJob)
      (e : Ended)
      → is_final s ≡ true
      → Ran r w ((mark_with env s f id >> pure e) w)
  marked r w s f e final = record {
    only = (
      ground arith,
      λ k h. ground (
        arith,
        adjust_other env id k (λ j. record (f j) { status = s }) w.tables.reminder_jobs h,
      ),
    );
    mails = inl (ground arith);
    done = λ h. ground (arith, mark-done env id s f w final);
  }

  delivered-Ran :
      (r : ReminderJob) (b : Booking) (c : Client) (to : String) (w : World)
      → lookup r.booking_id w.tables.bookings ≡ some b
      → is_booked b.status ≡ true
      → ltb (r.fire_at_utc + retry_window_ms) env.now ≡ false
      → address_of (lookup b.client_id w.tables.clients) ≡ some (to, c)
      → c.reminders_opt_out ≡ false
      → Ran r w ((send_with_provider env b r.booking_id r.offset_minutes >>= settle env id) w)
  delivered-Ran r b c to w found booked window address o =
      let call = (send_with_provider env b r.booking_id r.offset_minutes >>= settle env id) w in
      let w1 = (send_with_provider env b r.booking_id r.offset_minutes w).1 in
      let sends = send_with_provider-sends env id b r w in
      let only : OnlyJob env id w w1 = elim sends [
        | inl e ↦ subst (OnlyJob env id w) (sym e) (refl, λ k n. refl)
        | inr (_, _, _, e) ↦ subst (OnlyJob env id w) (sym e) (refl, λ k n. refl)
      ] in
      let mails : (w' : World)
          → w'.effects ≡ w1.effects
          → (w'.effects ≡ w.effects) ⊎ SentMail r w w' =
        λ w' same. elim sends [
          | inl e ↦ inl (same ∙ ap (λ (u : World). u.effects) e)
          | inr (to', c', a', e) ↦ inr (record {
            booking = b;
            client = c;
            to = to;
            found = found;
            booked = booked;
            in_window = window;
            address = address;
            opted_in = o;
            effects = ground (arith, same, e, a');
          })
        ] in
      elim (Result-cases (send_with_provider env b r.booking_id r.offset_minutes w).0) [
        | inr (x, k) ↦
            by_run (Ran r w) call (err x, w1) (ground arith)
              (record { only = only; mails = mails w1 refl; done = λ h. ground arith })
        | inl (d, k) ↦ by_run (Ran r w) call (settle env id d w1) (ground arith) (record {
          only = OnlyJob-trans env id w w1 (settle env id d w1).1 only (settle-OnlyJob env id d w1);
          mails = mails (settle env id d w1).1 (settle-effects env id d w1);
          done = settle-done env id d w1;
        })
      ]

  remind_client-Ran :
      (r : ReminderJob) (b : Booking) (w : World)
      → lookup r.booking_id w.tables.bookings ≡ some b
      → is_booked b.status ≡ true
      → ltb (r.fire_at_utc + retry_window_ms) env.now ≡ false
      → Ran r w (remind_client env id r b w)
  unfolding remind_client
  remind_client-Ran r b w found booked window =
      let call = remind_client env id r b w in
      elim (Option-cases (env.fails read_client)) [
        | inr (x, e) ↦
            by_run (Ran r w) call (err x, w) (ground arith) (stopped r w (err x) (ground arith))
        | inl e ↦ elim (Option-cases (address_of (lookup b.client_id w.tables.clients))) [
          | inl a ↦
              by_run (Ran r w) call (ok (threw no_email), w) (ground arith)
                (stopped r w (ok (threw no_email)) (ground arith))
          | inr ((to, c), a) ↦ elim (Bool-cases c.reminders_opt_out) [
            | inl o ↦
                by_run (Ran r w) call
                  ((mark_with env ReminderJobStatus.suppressed (because opted_out) id
                      >> pure finished)
                    w)
                  (ground arith)
                  (marked r w ReminderJobStatus.suppressed (because opted_out) finished refl)
            | inr o ↦
                by_run (Ran r w) call
                  ((send_with_provider env b r.booking_id r.offset_minutes >>= settle env id) w)
                  (ground arith) (delivered-Ran r b c to w found booked window a o)
          ]
        ]
      ]

  remind-Ran : (r : ReminderJob) (w : World) → Ran r w (remind env id r w)
  unfolding remind
  remind-Ran r w =
      let call = remind env id r w in
      elim (Option-cases (env.fails read_booking)) [
        | inr (x, e) ↦
            by_run (Ran r w) call (err x, w) (ground arith) (stopped r w (err x) (ground arith))
        | inl e ↦ elim (Option-cases (lookup r.booking_id w.tables.bookings)) [
          | inl a ↦
              by_run (Ran r w) call
                ((mark_with env ReminderJobStatus.failed (because booking_not_found) id
                    >> pure (threw booking_missing))
                  w)
                (ground arith)
                (marked r w ReminderJobStatus.failed (because booking_not_found)
                  (threw booking_missing) refl)
          | inr (b, a) ↦ elim (Bool-cases (is_booked b.status)) [
            | inr k ↦
                by_run (Ran r w) call
                  ((mark_with env ReminderJobStatus.cancelled (because no_longer_booked) id
                      >> pure finished)
                    w)
                  (ground arith)
                  (marked r w ReminderJobStatus.cancelled (because no_longer_booked) finished refl)
            | inl k ↦ elim (Bool-cases (ltb (r.fire_at_utc + retry_window_ms) env.now)) [
              | inl l ↦
                  by_run (Ran r w) call
                    ((mark_with env ReminderJobStatus.failed (because retry_window_exceeded) id
                        >> pure (threw past_window))
                      w)
                    (ground arith)
                    (marked r w ReminderJobStatus.failed (because retry_window_exceeded)
                      (threw past_window) refl)
              | inr l ↦
                  by_run (Ran r w) call (remind_client env id r b w) (ground arith)
                    (remind_client-Ran r b w a k l)
            ]
          ]
        ]
      ]

  pub process_reminder-Ran :
      (r : ReminderJob) (w : World)
      → lookup id w.tables.reminder_jobs ≡ some r
      → Ran r w (process_reminder env id w)
  unfolding process_reminder
  process_reminder-Ran r w found =
      let call = process_reminder env id w in
      elim (Option-cases (env.fails read_reminder)) [
        | inr (x, e) ↦
            by_run (Ran r w) call (err x, w) (ground arith) (stopped r w (err x) (ground arith))
        | inl e ↦ elim (Bool-cases (is_sending r.status)) [
          | inr s ↦
              by_run (Ran r w) call (ok (threw not_sending), w) (ground arith)
                (stopped r w (ok (threw not_sending)) (ground arith))
          | inl s ↦ by_run (Ran r w) call (remind env id r w) (ground arith) (remind-Ran r w)
        ]
      ]
