-- ===== src/System.antt =====
-- The service over time: requests that create, move, cancel, confirm and decline bookings or set their
-- status, calls of the lifecycle service, runs of the worker and unsubscriptions, one after the
-- other, each on a connection of its own. Left out is one request: to set a cancelled booking to
-- booked or completed. The only transactions that others come between
-- are the two of a move; what happens there is a sequence of steps too.
pub mod Patch
pub mod Safety
pub mod Revival
use chronos_appointment_sche.Base.{
  ℕ, ◌≡◌, Bool, true, false, not, lookup, Option, none, some, [], ◌⊎◌, inr, Table,
}
use chronos_appointment_sche.Schema.{
  Tables, Booking, is_live, BookingRequest, RescheduleRequest, BookingStatus,
}
use chronos_appointment_sche.Schema.World.{World, Connection, one_client}
use chronos_appointment_sche.Bookings.Create
use chronos_appointment_sche.Bookings.Reschedule
use chronos_appointment_sche.Bookings.Controller
use chronos_appointment_sche.Bookings.Controller.{StatusText, create_handler, reschedule_handler}
use chronos_appointment_sche.Bookings.Controller.Status.{
  status_handler, confirm_handler, decline_handler,
}
use chronos_appointment_sche.Bookings.Controller.Cancel.{cancel_handler}
use chronos_appointment_sche.Bookings.Prisma
use chronos_appointment_sche.Bookings.Prisma.{transition}
use chronos_appointment_sche.Reminders.Queue.{QueueEnv, cancel_for_booking}
use chronos_appointment_sche.Reminders.Worker
use chronos_appointment_sche.Email.Token.{Text, Codec, unsubscribe_reminders}

-- A connection on which no transaction is open.
abbrev pub fresh : Tables → World
fresh t = record { tables = t; saved = none; effects = [] }

-- Would PATCH status make a cancelled booking live again?
abbrev pub revives : StatusText → Option Booking → Bool
revives text none = false
revives StatusText.booked (some b) = not (is_live b)
revives StatusText.completed (some b) = not (is_live b)
revives _ (some b) = false

mutual
  -- One of these requests or jobs, whoever sends it and whatever fails in it.
  pub data Step : Tables → Tables → Type 0 where
    create :
        {t u : Tables} (env : Controller.Env) (service : Create.Checks.Env) (session : Option ℕ)
        (body : BookingRequest)
        → service.connection ≡ one_client
        → u ≡ (create_handler env service session body (fresh t)).1.tables
        → Step t u
    move :
        {t u : Tables} (env : Controller.Env) (service : Reschedule.Checks.Env) (session : Option ℕ)
        (body : RescheduleRequest)
        → Reach t (service.meanwhile t)
        → u ≡ (reschedule_handler env service session body (fresh t)).1.tables
        → Step t u
    cancel :
        {t u : Tables} (env : Controller.Env) (c : Connection) (session : Option ℕ)
        (if_match id : ℕ)
        → u ≡ (cancel_handler env c session if_match id (fresh t)).1.tables
        → Step t u
    confirm :
        {t u : Tables} (env : Controller.Env) (session : Option ℕ) (id : ℕ)
        → u ≡ (confirm_handler env session id (fresh t)).1.tables
        → Step t u
    decline :
        {t u : Tables} (env : Controller.Env) (session : Option ℕ) (id : ℕ)
        → u ≡ (decline_handler env session id (fresh t)).1.tables
        → Step t u
    patch :
        {t u : Tables} (env : Controller.Env) (session : Option ℕ) (id : ℕ) (text : StatusText)
        → revives text (lookup id t.bookings) ≡ false
        → u ≡ (status_handler env session id text (fresh t)).1.tables
        → Step t u
    transit :
        {t u : Tables} (id : ℕ) (to_status : BookingStatus) (expected : Option ℕ)
        → transition id to_status expected t ≡ inr u
        → Step t u
    withdraw : {t u : Tables} (now id hours : ℕ) → Prisma.cancel now id hours t ≡ inr u → Step t u
    remind :
        {t u : Tables} (env : Worker.Env) (reminder_id : Option ℕ)
        → u ≡ (Worker.process env reminder_id (fresh t)).1.tables
        → Step t u
    unsubscribe :
        {t u : Tables} (codec : Codec) (token : Option Text) (now : ℕ)
        → u ≡ (unsubscribe_reminders codec token now t).1
        → Step t u

  pub data Reach : Tables → Tables → Type 0 where
    here : {t : Tables} → Reach t t
    next : {t u v : Tables} → Reach t u → Step u v → Reach t v
