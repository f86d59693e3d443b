-- ===== src/Reminders/Unsubscribed.antt =====
-- The unsubscribe link and the worker together.
use chronos_appointment_sche.Base.{
  ℕ, ◌≡◌, refl, true, some, arith, lookup, Option-cases, inl, inr, lookup-adjust,
}
use chronos_appointment_sche.Schema.{Tables, Client, Booking, ReminderJob}
use chronos_appointment_sche.Schema.World.{World}
use chronos_appointment_sche.Email.Token.{
  Text, Codec, unsubscribe_reminders, verify_token, unsubscribed,
}
use chronos_appointment_sche.Reminders.Worker.{Env, process}
use chronos_appointment_sche.Reminders.Worker.Once.{process-Ran}

-- The client who has unsubscribed has opted out, wherever the address comes from.
opted_out :
    (codec : Codec) (token : Text) (now client : ℕ) (t : Tables)
    → verify_token codec token now ≡ some client
    → (unsubscribe_reminders codec (some token) now t).0 ≡ unsubscribed
    → (c : Client) × (lookup client (unsubscribe_reminders codec (some token) now t).1.clients
        ≡ some c)
      × (c.reminders_opt_out ≡ true)
unfolding unsubscribe_reminders
opted_out codec token now client t v h = elim (Option-cases (lookup client t.clients)) [
  | inl e ↦ absurd (ground arith)
  | inr (c, e) ↦ (
    record c { reminders_opt_out = true },
    ground
        (arith, lookup-adjust client client (λ c. record c { reminders_opt_out = true }) t.clients),
    refl,
  )
]

-- Once a client has unsubscribed by a token that verifies, no run of a queued job for a booking of
-- theirs sends a mail, on the tables that the unsubscription left.
pub process_unsubscribed :
    (codec : Codec) (token : Text) (now : ℕ) (t : Tables) (env : Env) (id : ℕ) (w : World)
    {j : ReminderJob} {b : Booking}
    → (unsubscribe_reminders codec (some token) now t).0 ≡ unsubscribed
    → w.tables ≡ (unsubscribe_reminders codec (some token) now t).1
    → lookup id w.tables.reminder_jobs ≡ some j
    → lookup j.booking_id w.tables.bookings ≡ some b
    → verify_token codec token now ≡ some b.client_id
    → (process env (some id) w).1.effects ≡ w.effects
process_unsubscribed codec token now t env id w {j} {b} h same found held v =
    let (c, at, out) = opted_out codec token now b.client_id t v h in
    elim ((process-Ran env id w {j = j} found).mails) [
      | inl e ↦ e
      | inr m ↦ let f = m.found in let a = m.address in let o = m.opted_in in absurd (ground arith)
    ]
