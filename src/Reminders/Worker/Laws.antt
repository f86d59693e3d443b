-- ===== src/Reminders/Worker/Laws.antt =====
-- What a run of the worker changes, which mail it sends, and when it leaves its job done.
use Prim.Native.String.{String}
use chronos_appointment_sche.Base.{
  ℕ, ◌≡◌, refl, ◌∙◌, Bool, true, false, none, some, [], ◌∷◌, ◌++◌, arith, Option-cases, Bool-cases,
  ◌⊎◌, inl, inr, lookup, adjust, Table, lookup-adjust, ◌==◌,
}
use chronos_appointment_sche.Schema.{
  Booking, Client, ReminderJob, ReminderJobStatus, gateway_message,
}
use chronos_appointment_sche.Schema.World.{World, ok, send_mail}
use chronos_appointment_sche.Reminders.Worker.{
  Env, finished, process, settle, send_with_provider, Delivery, address_of, mark_with,
  read_client_again, read_provider, as_sent, because,
}
use chronos_appointment_sche.Email.Gateway.{send}

-- The status of a job after which no run of the worker touches it.
abbrev pub is_final : ReminderJobStatus → Bool
is_final ReminderJobStatus.scheduled = false
is_final ReminderJobStatus.sending = false
is_final _ = true

-- The job is gone, or no run of the worker touches it again.
abbrev pub is_done : ℕ → World → Bool
is_done id w = elim (lookup id w.tables.reminder_jobs) [ none ↦ true | some j ↦ is_final j.status ]

pub process_done :
    (env : Env) (id : ℕ) (w : World) → is_done id w ≡ true → (process env (some id) w).1 ≡ w
unfolding process
process_done env id w done = ground arith

module _ (env : Env) (id : ℕ) where
  -- What a call of the worker leaves alone.
  abbrev pub OnlyJob : World → World → Type 0
  OnlyJob w w' =
      (w' ≡ record w {
        tables = record (w.tables) { reminder_jobs = w'.tables.reminder_jobs };
        effects = w'.effects;
      })
      × ((k : ℕ)
          → (k == id) ≡ false
          → lookup k w'.tables.reminder_jobs ≡ lookup k w.tables.reminder_jobs)

  pub adjust_other :
      (k : ℕ) (f : ReminderJob → ReminderJob) (t : Table ReminderJob)
      → (k == id) ≡ false
      → lookup k (adjust id f t) ≡ lookup k t
  adjust_other k f t h = ground (arith, lookup-adjust k id f t)

  mark-OnlyJob :
      (s : ReminderJobStatus) (f : ReminderJob → ReminderJob) (w : World)
      → OnlyJob w (mark_with env s f id w).1
  mark-OnlyJob s f w = (
    ground arith,
    λ k h.
        ground (arith, adjust_other k (λ j. record (f j) { status = s }) w.tables.reminder_jobs h),
  )

  -- A mail that may be sent for a job `r`, and the world after it.
  abbrev pub mailed : ReminderJob → String → World → World
  mailed r to w = record w {
    effects =
        w.effects
        ++ send_mail (record { booking_id = r.booking_id; offset = r.offset_minutes }) to ∷ [];
  }

  pub send_with_provider-sends :
      (b : Booking) (r : ReminderJob) (w : World)
      → ((send_with_provider env b r.booking_id r.offset_minutes w).1 ≡ w)
        ⊎ ((to : String) × (c : Client) × (address_of (lookup b.client_id w.tables.clients)
              ≡ some (to, c))
            × ((send_with_provider env b r.booking_id r.offset_minutes w).1 ≡ mailed r to w))
  unfolding send
  send_with_provider-sends b r w = elim (Option-cases (env.fails read_client_again)) [
    | inr (x, e) ↦ inl (ground arith)
    | inl e ↦ elim (Option-cases (address_of (lookup b.client_id w.tables.clients))) [
      | inl a ↦ inl (ground arith)
      | inr ((to, c), a) ↦ elim (Option-cases (env.fails read_provider)) [
        | inr (x, f) ↦ inl (ground arith)
        | inl f ↦ elim (Option-cases env.render_fails) [
          | inr (x, g) ↦ inl (ground arith)
          | inl g ↦ elim (Bool-cases env.gateway.is_configured) [
            | inr h ↦ inl (ground arith)
            | inl h ↦ inr (to, c, a, ground arith)
          ]
        ]
      ]
    ]
  ]

  -- The calls of a run, from the inside out: what each leaves alone, and the mails it sends.
  pub OnlyJob-trans : (u v w : World) → OnlyJob u v → OnlyJob v w → OnlyJob u w
  OnlyJob-trans u v w (e, h) (f, k) = (ground (arith, e, f), λ i n. k i n ∙ h i n)

  pub settle-OnlyJob : (d : Delivery) (w : World) → OnlyJob w (settle env id d w).1
  settle-OnlyJob (Delivery.accepted m) w = (
    ground arith,
    λ k h. ground (
      arith,
      adjust_other k (λ j. record (as_sent env.now m j) { status = ReminderJobStatus.sent })
          w.tables.reminder_jobs h,
    ),
  )
  settle-OnlyJob (Delivery.provider_error m) w = (
    ground arith,
    λ k h. ground (
      arith,
      adjust_other k
          (λ j. record (because (gateway_message m) j) { status = ReminderJobStatus.failed })
          w.tables.reminder_jobs h,
    ),
  )
  settle-OnlyJob (Delivery.failed x) w = (refl, λ k h. refl)

  pub settle-effects : (d : Delivery) (w : World) → (settle env id d w).1.effects ≡ w.effects
  settle-effects (Delivery.accepted m) w = ground arith
  settle-effects (Delivery.provider_error m) w = ground arith
  settle-effects (Delivery.failed x) w = refl

  pub settle-done :
      (d : Delivery) (w : World)
      → (settle env id d w).0 ≡ ok finished
      → is_done id (settle env id d w).1 ≡ true
  settle-done (Delivery.accepted m) w h = ground (
    arith,
    lookup-adjust id id (λ j. record (as_sent env.now m j) { status = ReminderJobStatus.sent })
        w.tables.reminder_jobs,
  )
  settle-done (Delivery.provider_error m) w h = ground (
    arith,
    lookup-adjust id id
        (λ j. record (because (gateway_message m) j) { status = ReminderJobStatus.failed })
        w.tables.reminder_jobs,
  )
  settle-done (Delivery.failed x) w h = ground arith

  pub mark-done :
      (s : ReminderJobStatus) (f : ReminderJob → ReminderJob) (w : World)
      → is_final s ≡ true
      → (mark_with env s f id w).0 ≡ ok tt
      → is_done id (mark_with env s f id w).1 ≡ true
  mark-done s f w final h =
      ground (arith, lookup-adjust id id (λ j. record (f j) { status = s }) w.tables.reminder_jobs)
