-- ===== src/Tests/Pages.antt =====
-- The pages and the adapter route.
use chronos_appointment_sche.Base.{
  ℕ, ◌≡◌, refl, true, false, none, some, List, [], ◌∷◌, map, ◌==◌, Table, lookup,
}
use chronos_appointment_sche.Schema.{Booking, BookingStatus, Tables}
use chronos_appointment_sche.Email.Gateway.{codes, to_lower}
use chronos_appointment_sche.Web.Adapter.{Listed, keep_rows, matches_status, map_booking_status}
use chronos_appointment_sche.Web.Forward.{Body, forwards, post_confirm, patch, own_path, id_in}
use chronos_appointment_sche.Web.Middleware.{middleware, next, redirect}
use chronos_appointment_sche.Web.Hours.{Day, office_hours, toggle_day, change_at}
use chronos_appointment_sche.Providers.{
  ProviderRow, update_me, get_me, saved_update, update_me-saved_update, provider, updated, returned,
}
use chronos_appointment_sche.Tests.Data.{tables, booking_of}

abbrev moved : Booking
moved = record (booking_of 12 7) { version = 2 }

abbrev moved_tables : Tables
moved_tables = record tables { bookings = (20, moved) ∷ [] }

abbrev listed_rows : List Listed
listed_rows =
    record {
      id = 1;
      status = BookingStatus.booked;
      version = 1;
      slot_start_utc = none;
      client_name = none;
    }
    ∷ record {
      id = 2;
      status = BookingStatus.no_show;
      version = 2;
      slot_start_utc = none;
      client_name = none;
    }
    ∷ []

no_pending : keep_rows (matches_status (map to_lower) (codes "pending")) listed_rows ≡ []
unfolding map_booking_status
no_pending = refl

abbrev confirm_body : Body
confirm_body = record {
  action = some (codes "confirm");
  new_slot_id = none;
  idempotency_key = none;
  version = none;
  if_match = none;
  cancellation_window_hours = none;
}

goes_to_the_word : patch own_path confirm_body ≡ forwards (post_confirm (codes "appointments"))
unfolding patch
goes_to_the_word = refl

last_part : id_in (codes "/api/appointments/42/") ≡ some (codes "42")
unfolding id_in
last_part = refl

-- The path of the private page of bookings begins with that of the public page of booking.
bookings_are_public : middleware (codes "/bookings") none ≡ next
unfolding middleware
bookings_are_public = refl

settings_are_not :
    middleware (codes "/settings") none ≡ redirect (codes "/login") (codes "/settings")
unfolding middleware
settings_are_not = refl

abbrev monday : Day
monday = record { label = codes "Monday"; active = true; slots = office_hours ∷ [] }

switched_back : toggle_day 0 (toggle_day 0 (monday ∷ [])) ≡ monday ∷ []
unfolding change_at
switched_back = refl

abbrev own_row : ProviderRow
own_row = record {
  name = codes "Bob";
  slug = codes "bob";
  timezone = codes "UTC";
  cancellation_window_hours = 24;
  minimum_booking_notice = some 2;
}

abbrev provider_rows : Table ProviderRow
provider_rows = (1, own_row) ∷ []

update_me-saved_update_example :
    let rows' = (update_me (λ t. true) 1 (saved_update (some 24)) provider_rows).1 in
    (get_me (λ t. true) 1 rows' ≡ provider (record own_row { minimum_booking_notice = some 24 }))
    × ((k : ℕ) → (k == 1) ≡ false → lookup k rows' ≡ lookup k provider_rows)
    × ((update_me (λ t. true) 1 (saved_update (some 24)) provider_rows).0
        ≡ updated (returned own_row))
update_me-saved_update_example =
    update_me-saved_update (λ t. true) 1 24 provider_rows {r = own_row} refl refl
