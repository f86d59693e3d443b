-- ===== src/Schema.antt =====
-- The data model: packages/contracts/src/index.ts (the status enums) and the tables of
-- packages/db/migrations and prisma/schema.prisma, with the columns that the modelled code reads
-- or writes. A UUID is a number, since the code only compares them; an instant is its count of
-- milliseconds since the epoch, a time zone name is text.
pub mod World
pub mod Live
pub mod Statements
use Prim.Native.String.{String}
use chronos_appointment_sche.Base.{ℕ, Bool, true, false, Option, List, Table, ◌==◌, ◌&&◌, not}

-- `opened` is the source's 'open', which is a reserved word here.
pub data SlotStatus : Type 0 where
  opened booked blocked : SlotStatus

pub data BookingStatus : Type 0 where
  booked completed cancelled no_show : BookingStatus

-- `suppressed` is written by the worker and is no member of the enum; the table refuses it.
pub data ReminderJobStatus : Type 0 where
  scheduled sending sent cancelled skipped failed suppressed : ReminderJobStatus

abbrev pub is_opened : SlotStatus → Bool
is_opened SlotStatus.opened = true
is_opened SlotStatus.booked = false
is_opened SlotStatus.blocked = false

abbrev pub is_booked : BookingStatus → Bool
is_booked BookingStatus.booked = true
is_booked BookingStatus.completed = false
is_booked BookingStatus.cancelled = false
is_booked BookingStatus.no_show = false

abbrev pub is_cancelled : BookingStatus → Bool
is_cancelled BookingStatus.booked = false
is_cancelled BookingStatus.completed = false
is_cancelled BookingStatus.cancelled = true
is_cancelled BookingStatus.no_show = false

abbrev pub is_scheduled : ReminderJobStatus → Bool
is_scheduled ReminderJobStatus.scheduled = true
is_scheduled _ = false

abbrev pub is_sending : ReminderJobStatus → Bool
is_sending ReminderJobStatus.sending = true
is_sending _ = false

-- The CHECK of reminder_jobs.status.
abbrev pub allows_status : ReminderJobStatus → Bool
allows_status ReminderJobStatus.suppressed = false
allows_status _ = true

pub record Provider : Type 0 where
  pub timezone : String
  pub cancellation_window_hours : ℕ
  pub minimum_booking_notice : Option ℕ

pub record Client : Type 0 where
  pub email : Option String
  pub reminders_opt_out : Bool

pub record Slot : Type 0 where
  pub provider_id : ℕ
  pub slot_start_utc : ℕ
  pub slot_end_utc : ℕ
  pub status : SlotStatus

pub record Booking : Type 0 where
  pub slot_id : ℕ
  pub client_id : ℕ
  pub client_timezone : String
  pub provider_id : Option ℕ
  pub event_type_id : Option ℕ
  pub status : BookingStatus
  pub version : ℕ
  pub cancelled_at : Option ℕ

-- Why a job ended: the texts that the worker stores in last_error.
pub data LastError : Type 0 where
  booking_not_found no_longer_booked retry_window_exceeded opted_out : LastError
  gateway_message : String → LastError

pub record ReminderJob : Type 0 where
  pub booking_id : ℕ
  pub offset_minutes : ℕ
  pub fire_at_utc : ℕ
  pub status : ReminderJobStatus
  pub attempts : ℕ
  pub locked_until : Option ℕ
  pub sent_at : Option ℕ
  pub provider_message_id : Option String
  pub last_error : Option LastError

pub record BookingRequest : Type 0 where
  pub provider_id : Option ℕ
  pub event_type_id : Option ℕ
  pub slot_id : ℕ
  pub client_id : ℕ
  pub idempotency_key : Option ℕ
  pub client_timezone : String

pub record RescheduleRequest : Type 0 where
  pub booking_id : ℕ
  pub new_slot_id : ℕ
  pub idempotency_key : Option ℕ
  pub version : ℕ
  pub if_match : ℕ
  pub cancellation_window_hours : Option ℕ

-- JSON.stringify of a request: a request is its own text, since two requests have the same text
-- exactly when they have the same fields.
pub data RequestText : Type 0 where
  booking : BookingRequest → RequestText
  reschedule : RescheduleRequest → RequestText

pub record IdempotencyKey : Type 0 where
  pub client_id : ℕ
  pub key : ℕ
  pub request_hash : RequestText
  pub booking_id : ℕ

pub data Event : Type 0 where
  new_booking booking_rescheduled : Event

-- A row of activity or of notifications.
pub record Notice : Type 0 where
  pub event : Event
  pub provider_id : ℕ
  pub client_id : ℕ
  pub booking_id : Option ℕ

pub record Tables : Type 0 where
  pub providers : Table Provider
  pub clients : Table Client
  pub event_types : Table (Option ℕ)
  pub slots : Table Slot
  pub bookings : Table Booking
  pub reminder_jobs : Table ReminderJob
  pub idempotency_keys : List IdempotencyKey
  pub activity : List Notice
  pub notifications : List Notice

-- The row condition of the partial unique index bookings_one_live_per_slot.
abbrev pub is_live : Booking → Bool
is_live b = not (is_cancelled b.status)

abbrev pub is_live_on : ℕ → Booking → Bool
is_live_on s b = b.slot_id == s && is_live b
