-- ===== src/Tests/Data.antt =====
-- The tables and environments of the tests: provider 1 with four slots, clients 7 and 8 (who has
-- opted out of mails), their bookings 20 and 22, and a reminder of each.
use chronos_appointment_sche.Base.{ℕ, ◌+◌, true, false, some, none, [], ◌∷◌, arith}
use chronos_appointment_sche.Schema.{
  Tables, Provider, Slot, SlotStatus, Booking, BookingStatus, ReminderJob, ReminderJobStatus,
  BookingRequest, RescheduleRequest,
}
use chronos_appointment_sche.Schema.Live.{IsConsistent, live_count}
use chronos_appointment_sche.Schema.World.{World, one_client, other_error}
use chronos_appointment_sche.Reminders.Queue.{QueueEnv}
use chronos_appointment_sche.Bookings.Create
use chronos_appointment_sche.Bookings.Reschedule
use chronos_appointment_sche.Bookings.Controller
use chronos_appointment_sche.Reminders.Worker
use chronos_appointment_sche.Email.Gateway

abbrev pub provider : Provider
provider = record {
  timezone = "Europe/Berlin";
  cancellation_window_hours = 24;
  minimum_booking_notice = some 2;
}

abbrev pub free_slot : Slot
free_slot = record {
  provider_id = 1;
  slot_start_utc = 1000000000;
  slot_end_utc = 1003600000;
  status = SlotStatus.opened;
}

abbrev pub held_slot : Slot
held_slot = record {
  provider_id = 1;
  slot_start_utc = 1500000000;
  slot_end_utc = 1503600000;
  status = SlotStatus.booked;
}

abbrev pub booking_of : (slot_id client_id : ℕ) → Booking
booking_of slot_id client_id = record {
  slot_id = slot_id;
  client_id = client_id;
  client_timezone = "Europe/Berlin";
  provider_id = none;
  event_type_id = none;
  status = BookingStatus.booked;
  version = 1;
  cancelled_at = none;
}

abbrev pub job_of : (booking_id fire_at_utc : ℕ) → ReminderJob
job_of booking_id fire_at_utc = record {
  booking_id = booking_id;
  offset_minutes = 60;
  fire_at_utc = fire_at_utc;
  status = ReminderJobStatus.scheduled;
  attempts = 0;
  locked_until = none;
  sent_at = none;
  provider_message_id = none;
  last_error = none;
}

abbrev pub tables : Tables
tables = record {
  providers = (1, provider) ∷ [];
  clients =
      (7, record { email = some "ada@example.com"; reminders_opt_out = false })
      ∷ (8, record { email = some "bob@example.com"; reminders_opt_out = true })
      ∷ [];
  event_types = [];
  slots = (10, free_slot) ∷ (11, free_slot) ∷ (12, held_slot) ∷ (13, held_slot) ∷ [];
  bookings = (20, booking_of 12 7) ∷ (22, booking_of 13 8) ∷ [];
  reminder_jobs = (30, job_of 20 99000000) ∷ (31, job_of 22 98000000) ∷ [];
  idempotency_keys = [];
  activity = [];
  notifications = [];
}

abbrev pub world : World
world = record { tables = tables; saved = none; effects = [] }

pub tables-IsConsistent : IsConsistent tables
unfolding live_count
tables-IsConsistent = record { single = λ s. ground arith; marked = λ s h. ground arith }

abbrev pub queue : QueueEnv
queue = record {
  skip_fails = λ _. none;
  find_fails = λ _. none;
  add_fails = λ _. none;
  list_fails = none;
  has_job = λ _. true;
  remove_fails = λ _. none;
  cancel_fails = none;
}

abbrev pub create_env : Create.Checks.Env
create_env = record {
  now = 100000000;
  clock = 100000000;
  connection = one_client;
  booking_id = 21;
  job_id = λ offset. 100 + offset;
  fails = λ _. none;
  queue = some queue;
}

abbrev pub request : BookingRequest
request = record {
  provider_id = none;
  event_type_id = none;
  slot_id = 10;
  client_id = 7;
  idempotency_key = some 5;
  client_timezone = "Europe/Berlin";
}

abbrev pub reschedule_env : Reschedule.Checks.Env
reschedule_env = record {
  now = 100000000;
  server_now = 100000000;
  clock = 100000000;
  booking_id = 21;
  job_id = λ offset. 100 + offset;
  fails = λ _. none;
  release_twice = none;
  instant_fails = some (other_error 7);
  meanwhile = λ t. t;
  queue = some queue;
}

abbrev pub reschedule_request : RescheduleRequest
reschedule_request = record {
  booking_id = 20;
  new_slot_id = 10;
  idempotency_key = none;
  version = 1;
  if_match = 1;
  cancellation_window_hours = none;
}

abbrev pub controller_env : Controller.Env
controller_env = record {
  now = 100000000;
  fails = λ _. none;
  queue = some queue;
  mentions_input = λ _. false;
}

abbrev pub worker_env : Worker.Env
worker_env = record {
  now = 100000000;
  fails = λ _. none;
  gateway = record { is_configured = true; answer = λ _. Gateway.delivered (some "m-1") };
  render_fails = none;
}
