-- ===== src/Bookings/Create/Succeeds.antt =====
-- When a booking must succeed.
use chronos_appointment_sche.Base.{
  ℕ, ◌≡◌, true, false, none, some, List, [], ◌∷◌, ◌==◌, arith, lookup, lookup-adjust, ==_refl,
  exists, is_some, Option-cases, inl, inr,
}
use chronos_appointment_sche.Schema.{Tables, Slot, SlotStatus, BookingRequest}
use chronos_appointment_sche.Schema.Live.{IsConsistent, Agrees-opened, exists-live_count}
use chronos_appointment_sche.Schema.Statements.{
  collides, has_references, find_key, is_job_of, refers_to,
}
use chronos_appointment_sche.Schema.World.{World, ok, one_client}
use chronos_appointment_sche.Bookings.Outcome.{created}
use chronos_appointment_sche.Bookings.Create.Checks.{
  Env, Statement, notice_of, configured_notice, notice_lookup, notice_query, event_type_error,
  key_check, begin_tx, claim, insert_row, insert_idempotency_row, commit_tx, insert_job, read_slot,
  read_notice, read_key,
}
use chronos_appointment_sche.Bookings.Create.{
  create_booking, is_bookable, new_booking, insert_jobs, insert_key_row, write_rows, after_commit,
  claimed, book, answer_or_book, unless_refused,
}
use chronos_appointment_sche.Bookings.Create.Atomic.{claimed_world}
use chronos_appointment_sche.Bookings.Create.Writes.{
  insert_jobs-with_jobs, with_booking, write_rows-Written,
}

-- A request that nothing stands against: the slot is open and far enough ahead, the rows that the
-- booking refers to exist, the ids that the server draws are new, the key is unused, and no statement
-- fails by itself.
pub record CanBook (env : Env) (req : BookingRequest) (t : Tables) (s : Slot) : Type 0 where
  pub slot : lookup req.slot_id t.slots ≡ some s
  pub bookable : is_bookable env.now (notice_of (lookup s.provider_id t.providers)) s ≡ true
  pub client : is_some (lookup req.client_id t.clients) ≡ true
  pub provider : refers_to t.providers req.provider_id ≡ true
  pub untyped : req.event_type_id ≡ none
  pub new_booking_id : lookup env.booking_id t.bookings ≡ none
  pub new_job_id : (offset : ℕ) → lookup (env.job_id offset) t.reminder_jobs ≡ none
  pub new_job : (offset : ℕ) → exists (is_job_of env.booking_id offset) t.reminder_jobs ≡ false
  pub two_job_ids : (env.job_id 60 == env.job_id 1440) ≡ false
  pub unused_key : (key : ℕ) → find_key req.client_id key t.idempotency_keys ≡ none
  pub quiet : (s : Statement) → env.fails s ≡ none
  pub no_queue : env.queue ≡ none
  pub one_connection : env.connection ≡ one_client

module _ (env : Env) (req : BookingRequest) (s : Slot) where
  jobs-ok :
      (w : World)
      → (env.job_id 60 == env.job_id 1440) ≡ false
      → ((st : Statement) → env.fails st ≡ none)
      → is_some (lookup env.booking_id w.tables.bookings) ≡ true
      → ((offset : ℕ) → lookup (env.job_id offset) w.tables.reminder_jobs ≡ none)
      → ((offset : ℕ) → exists (is_job_of env.booking_id offset) w.tables.reminder_jobs ≡ false)
      → (insert_jobs env s.slot_start_utc (1440 ∷ 60 ∷ []) w).0 ≡ ok tt
  unfolding insert_jobs
  jobs-ok w two quiet row ids jobs =
      ground (
        arith,
        quiet (insert_job 1440),
        quiet (insert_job 60),
        ids 1440,
        ids 60,
        jobs 1440,
        jobs 60,
      )

  -- The transaction's writes, in a world whose slot is claimed.
  writes-ok :
      (w : World)
      → (env.job_id 60 == env.job_id 1440) ≡ false
      → ((st : Statement) → env.fails st ≡ none)
      → collides env.booking_id (new_booking req) w.tables ≡ false
      → has_references (new_booking req) w.tables ≡ true
      → ((offset : ℕ) → lookup (env.job_id offset) w.tables.reminder_jobs ≡ none)
      → ((offset : ℕ) → exists (is_job_of env.booking_id offset) w.tables.reminder_jobs ≡ false)
      → ((key : ℕ) → find_key req.client_id key w.tables.idempotency_keys ≡ none)
      → (write_rows env req s w).0 ≡ ok tt
  unfolding write_rows insert_key_row
  writes-ok w two quiet free refs ids jobs unused =
      let w1 = with_booking env req w in
      let offs : List ℕ = 1440 ∷ 60 ∷ [] in
      elim (Option-cases req.idempotency_key) [
        | inl e ↦ ground (
          arith,
          jobs-ok w1 two quiet (ground (arith, ==_refl env.booking_id)) ids jobs,
          quiet insert_row,
          quiet commit_tx,
        )
        | inr (k, e) ↦ ground (
          arith,
          jobs-ok w1 two quiet (ground (arith, ==_refl env.booking_id)) ids jobs,
          insert_jobs-with_jobs env s.slot_start_utc offs w1,
          quiet insert_row,
          quiet insert_idempotency_row,
          quiet commit_tx,
          unused k,
        )
      ]

  module _ (w : World) (can : CanBook env req w.tables s) (v : IsConsistent w.tables) where
    abbrev slot_w : World
    slot_w = claimed_world req (record w { saved = some w.tables })

    free-collides : collides env.booking_id (new_booking req) slot_w.tables ≡ false
    unfolding collides
    free-collides = ground (
      arith,
      can.new_booking_id,
      exists-live_count req.slot_id w.tables.bookings,
      Agrees-opened w.tables.slots w.tables.bookings v req.slot_id s can.slot
          (ground (arith, can.bookable)),
    )

    refs-ok : has_references (new_booking req) slot_w.tables ≡ true
    unfolding has_references
    refs-ok = ground (
      arith,
      can.slot,
      can.client,
      can.provider,
      can.untyped,
      lookup-adjust req.slot_id req.slot_id (λ r. record r { status = SlotStatus.booked })
          w.tables.slots,
      ==_refl req.slot_id,
    )

    wrote : (write_rows env req s slot_w).0 ≡ ok tt
    wrote =
        writes-ok slot_w can.two_job_ids can.quiet free-collides refs-ok can.new_job_id can.new_job
          can.unused_key

    notice-ok :
        configured_notice env req w ≡ (ok (notice_of (lookup s.provider_id w.tables.providers)), w)
    unfolding configured_notice notice_lookup notice_query
    notice-ok = ground (arith, can.slot, can.quiet read_slot, can.quiet read_notice)

    untyped-ok : event_type_error env req w ≡ (ok none, w)
    unfolding event_type_error
    untyped-ok = ground (arith, can.untyped)

    key-ok : key_check env req w ≡ (ok none, w)
    unfolding key_check
    key-ok = elim (Option-cases req.idempotency_key) [
      | inl e ↦ ground arith
      | inr (k, e) ↦ ground (arith, can.quiet read_key, can.unused_key k)
    ]

    book-ok :
        ((book env req (notice_of (lookup s.provider_id w.tables.providers)) w).0
          ≡ ok (created env.booking_id))
        × (lookup env.booking_id
              (book env req
                (notice_of (lookup s.provider_id w.tables.providers))
                w).1.tables.bookings
            ≡ some (new_booking req))
    unfolding book claimed after_commit
    book-ok = ground (
      arith,
      wrote,
      can.slot,
      can.bookable,
      can.quiet begin_tx,
      can.quiet claim,
      can.no_queue,
      can.one_connection,
      write_rows-Written env req s slot_w,
      ==_refl env.booking_id,
    )

    -- A request that nothing stands against is answered 201 with the id of a new booking, and this
    -- booking is in the table: the slot is open and far enough ahead, slots and bookings are consistent,
    -- the client, the slot and the provider exist, no event type is asked for, the ids are new, the
    -- key is unused, no statement fails by itself, and there is one connection and no queue.
    pub create_booking_succeeds :
        ((create_booking env req w).0 ≡ ok (created env.booking_id))
        × (lookup env.booking_id (create_booking env req w).1.tables.bookings
            ≡ some (new_booking req))
    unfolding create_booking unless_refused answer_or_book
    create_booking_succeeds = ground (arith, notice-ok, untyped-ok, key-ok, book-ok)
