-- ===== src/Bookings/Controller/Reads.antt =====
-- bookings.controller.ts: GET :id and GET of the client's bookings.
pub mod Laws
use Prim.Native.String.{String}
use chronos_appointment_sche.Base.{
  ℕ, Bool, Option, none, some, List, [], ◌∷◌, Table, lookup, ◌==◌, ◌&&◌, if◌then◌else◌,
}
use chronos_appointment_sche.Schema.{Tables, Slot, Booking, BookingStatus}

pub record BookingView : Type 0 where
  pub id : ℕ
  pub status : BookingStatus
  pub version : ℕ
  pub client_timezone : String
  pub slot_start_utc : ℕ
  pub slot_end_utc : ℕ

abbrev pub view_of : ℕ → Booking → Slot → BookingView
view_of id b s = record {
  id = id;
  status = b.status;
  version = b.version;
  client_timezone = b.client_timezone;
  slot_start_utc = s.slot_start_utc;
  slot_end_utc = s.slot_end_utc;
}

-- JOIN slots: a booking without its slot gives no row.
abbrev pub joined : Tables → ℕ → Booking → Option BookingView
joined t id b = elim (lookup b.slot_id t.slots) [ none ↦ none | some s ↦ some (view_of id b s) ]

-- What GET :id answers; a list has the same refusal.
pub data Answer : Type 0 where
  unauthorized not_found : Answer
  one : BookingView → Answer
  many : List BookingView → Answer

abbrev pub one_or_not_found : Option BookingView → Answer
one_or_not_found none = not_found
one_or_not_found (some v) = one v

abbrev pub own_row : ℕ → Option Booking → Option Booking
own_row client none = none
own_row client (some b) = if b.client_id == client then some b else none

unfoldable pub get_booking : Option ℕ → (booking_id : ℕ) → Tables → Answer
get_booking none id t = unauthorized
get_booking (some client) id t = elim (own_row client (lookup id t.bookings)) [
  | none ↦ not_found
  | some b ↦ one_or_not_found (joined t id b)
]

abbrev pub prepend : Option BookingView → List BookingView → List BookingView
prepend none vs = vs
prepend (some v) vs = v ∷ vs

-- The rows in the order of the table, which holds the newest first.
unfoldable pub own_views : Tables → ℕ → Table Booking → List BookingView
own_views t client [] = []
own_views t client ((id, b) ∷ rows) =
    let rest = own_views t client rows in
    if b.client_id == client then prepend (joined t id b) rest else rest

unfoldable pub list_bookings : Option ℕ → Tables → Answer
unfolding own_views
list_bookings none t = unauthorized
list_bookings (some client) t = many (own_views t client t.bookings)
