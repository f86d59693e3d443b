-- ===== src/Web/Adapter.antt =====
-- apps/web/src/app/api/appointments/route.ts: GET, over GET /appointments of the API
-- (apps/api/src/appointments/appointments.controller.ts). How a date and a time are written is an
-- argument. The API sends five fields; every other field of the adapter's answer is null.
use chronos_appointment_sche.Base.{
  ℕ, zero, suc, ◌*◌, ◌≡◌, refl, Bool, true, false, Option, none, some, List, [], ◌∷◌, map, ◌==◌,
  ◌&&◌, ◌||◌, leb, if◌then◌else◌,
}
use chronos_appointment_sche.Schema.{BookingStatus}
use chronos_appointment_sche.Bookings.Lifecycle.{same_status}
use chronos_appointment_sche.Email.Token.{Text, is_empty, same_text}
use chronos_appointment_sche.Email.Gateway.{codes, includes}

-- A row of GET /appointments.
pub record Listed : Type 0 where
  pub id : ℕ
  pub status : BookingStatus
  pub version : ℕ
  pub slot_start_utc : Option Text
  pub client_name : Option Text

abbrev pub drop_rows : ℕ → List Listed → List Listed
drop_rows zero rows = rows
drop_rows (suc n) [] = []
drop_rows (suc n) (r ∷ rows) = drop_rows n rows

abbrev pub take_rows : ℕ → List Listed → List Listed
take_rows zero rows = []
take_rows (suc n) [] = []
take_rows (suc n) (r ∷ rows) = r ∷ take_rows n rows

abbrev pub with_status : Option BookingStatus → List Listed → List Listed
with_status none rows = rows
with_status (some s) [] = []
with_status (some s) (r ∷ rows) =
    if same_status s r.status then r ∷ with_status (some s) rows else with_status (some s) rows

-- GET /appointments of the API over the bookings of all clients, newest first: a page of fifty.
-- Page 0 asks to skip a negative number, which Prisma refuses.
unfoldable pub list_appointments :
    Option BookingStatus → (page : Option ℕ) → List Listed → Option (List Listed)
list_appointments status none rows = some (take_rows 50 (with_status status rows))
list_appointments status (some zero) rows = none
list_appointments status (some (suc n)) rows =
    some (take_rows 50 (drop_rows (n * 50) (with_status status rows)))

abbrev pub status_text : BookingStatus → Text
status_text BookingStatus.booked = codes "booked"
status_text BookingStatus.completed = codes "completed"
status_text BookingStatus.cancelled = codes "cancelled"
status_text BookingStatus.no_show = codes "no_show"

-- toLowerCase.
abbrev pub Lower : Type 0
Lower = Text → Text

abbrev pub is_small : ℕ → Bool
is_small c = (leb 97 c && leb c 122) || c == 95

abbrev pub all_small : Text → Bool
all_small [] = true
all_small (c ∷ s) = is_small c && all_small s

-- It leaves a word of small letters and underscores as it is.
abbrev pub IsLower : Lower → Type 0
IsLower lower = (s : Text) → all_small s ≡ true → lower s ≡ s

abbrev pub mapped : Text → Text
mapped s =
    if same_text s (codes "booked")
    then codes "confirmed"
    else if same_text s (codes "completed")
    then codes "completed"
    else if same_text s (codes "cancelled")
    then codes "cancelled"
    else if same_text s (codes "no_show")
    then codes "completed"
    else s

unfoldable pub map_booking_status : Lower → Text → Text
map_booking_status lower s = mapped (lower s)

abbrev pub name_or_empty : Option Text → Text
name_or_empty none = []
name_or_empty (some name) = name

-- The API sends no email and no event type, so the search is in the names only.
abbrev pub matches_search : Lower → (search : Text) → Listed → Bool
matches_search lower search r =
    is_empty search || includes (lower (name_or_empty r.client_name)) (lower search)

abbrev pub shown_under : Lower → (filter : Text) → BookingStatus → Bool
shown_under lower filter s =
    same_text filter (codes "all")
    || same_text (map_booking_status lower (status_text s)) (lower filter)

abbrev pub matches_status : Lower → (filter : Text) → Listed → Bool
matches_status lower filter r = shown_under lower filter r.status

abbrev pub keep_rows : (Listed → Bool) → List Listed → List Listed
keep_rows p [] = []
keep_rows p (r ∷ rows) = if p r then r ∷ keep_rows p rows else keep_rows p rows

pub record Appointment : Type 0 where
  pub id : ℕ
  pub client_name : Option Text
  pub date : Option Text
  pub time : Option Text
  pub status : Text
  pub slot_start_utc : Option Text
  pub version : Option ℕ

-- The answer to the adapter's own request.
pub data Backend : Type 0 where
  network_failure : Backend
  -- The status, and the body if it is JSON: the rows, if it is an array.
  answered : (status : ℕ) → (body : Option (Option (List Listed))) → Backend

pub data Listing : Type 0 where
  authentication_required unable_to_load : Listing
  listed : List Appointment → Listing

abbrev pub version_or_null : ℕ → Option ℕ
version_or_null v = if v == 0 then none else some v

abbrev pub non_empty : Option Text → Option Text
non_empty none = none
non_empty (some t) = if is_empty t then none else some t

module _ (lower : Lower) (date_of time_of : Text → Text) where
  abbrev pub written : (Text → Text) → Option Text → Option Text
  written f none = none
  written f (some t) = some (f t)

  abbrev pub appointment_of : Listed → Appointment
  appointment_of r =
      let start = non_empty r.slot_start_utc in
      record {
        id = r.id;
        client_name = non_empty r.client_name;
        date = written date_of start;
        time = written time_of start;
        status = map_booking_status lower (status_text r.status);
        slot_start_utc = start;
        version = version_or_null r.version;
      }

  abbrev pub list_body : (search filter : Text) → Option (Option (List Listed)) → Listing
  list_body search filter none = unable_to_load
  list_body search filter (some none) = listed []
  list_body search filter (some (some rows)) = listed (
      map appointment_of
        (keep_rows (matches_status lower filter) (keep_rows (matches_search lower search) rows)))

  -- GET; `filter` is "all" where the query has none.
  unfoldable pub get_appointments : (search filter : Text) → Backend → Listing
  get_appointments search filter network_failure = unable_to_load
  get_appointments search filter (answered status body) =
      if status == 401
      then authentication_required
      else if leb 200 status && leb status 299
      then list_body search filter body
      else unable_to_load

keep-with_status :
    (lower : Lower) (filter : Text) (s : BookingStatus) (rows : List Listed)
    → ((q : BookingStatus) → shown_under lower filter q ≡ same_status s q)
    → keep_rows (matches_status lower filter) rows ≡ with_status (some s) rows
keep-with_status lower filter s [] same = refl
keep-with_status lower filter s (r ∷ rows) same =
    rw (same r.status, keep-with_status lower filter s rows same) refl

keep_none :
    (lower : Lower) (filter : Text) (rows : List Listed)
    → ((q : BookingStatus) → shown_under lower filter q ≡ false)
    → keep_rows (matches_status lower filter) rows ≡ []
keep_none lower filter [] never = refl
keep_none lower filter (r ∷ rows) never =
    rw (never r.status, keep_none lower filter rows never) refl

confirmed_pill :
    (lower : Lower)
    → IsLower lower
    → (q : BookingStatus)
    → shown_under lower (codes "confirmed") q ≡ same_status BookingStatus.booked q
unfolding map_booking_status
confirmed_pill lower small BookingStatus.booked =
    rw (small (codes "booked") refl, small (codes "confirmed") refl) refl
confirmed_pill lower small BookingStatus.completed =
    rw (small (codes "completed") refl, small (codes "confirmed") refl) refl
confirmed_pill lower small BookingStatus.cancelled =
    rw (small (codes "cancelled") refl, small (codes "confirmed") refl) refl
confirmed_pill lower small BookingStatus.no_show =
    rw (small (codes "no_show") refl, small (codes "confirmed") refl) refl

cancelled_pill :
    (lower : Lower)
    → IsLower lower
    → (q : BookingStatus)
    → shown_under lower (codes "cancelled") q ≡ same_status BookingStatus.cancelled q
unfolding map_booking_status
cancelled_pill lower small BookingStatus.booked =
    rw (small (codes "booked") refl, small (codes "cancelled") refl) refl
cancelled_pill lower small BookingStatus.completed =
    rw (small (codes "completed") refl, small (codes "cancelled") refl) refl
cancelled_pill lower small BookingStatus.cancelled = rw (small (codes "cancelled") refl) refl
cancelled_pill lower small BookingStatus.no_show =
    rw (small (codes "no_show") refl, small (codes "cancelled") refl) refl

pending_pill :
    (lower : Lower)
    → IsLower lower
    → (q : BookingStatus) → shown_under lower (codes "pending") q ≡ false
unfolding map_booking_status
pending_pill lower small BookingStatus.booked =
    rw (small (codes "booked") refl, small (codes "pending") refl) refl
pending_pill lower small BookingStatus.completed =
    rw (small (codes "completed") refl, small (codes "pending") refl) refl
pending_pill lower small BookingStatus.cancelled =
    rw (small (codes "cancelled") refl, small (codes "pending") refl) refl
pending_pill lower small BookingStatus.no_show =
    rw (small (codes "no_show") refl, small (codes "pending") refl) refl

rescheduled_pill :
    (lower : Lower)
    → IsLower lower
    → (q : BookingStatus) → shown_under lower (codes "rescheduled") q ≡ false
unfolding map_booking_status
rescheduled_pill lower small BookingStatus.booked =
    rw (small (codes "booked") refl, small (codes "rescheduled") refl) refl
rescheduled_pill lower small BookingStatus.completed =
    rw (small (codes "completed") refl, small (codes "rescheduled") refl) refl
rescheduled_pill lower small BookingStatus.cancelled =
    rw (small (codes "cancelled") refl, small (codes "rescheduled") refl) refl
rescheduled_pill lower small BookingStatus.no_show =
    rw (small (codes "no_show") refl, small (codes "rescheduled") refl) refl

-- The pills of the page: 'confirmed' shows the bookings that are booked and no others, 'cancelled' those
-- that are cancelled, and 'pending' and 'rescheduled' show none, whatever the rows are, if toLowerCase
-- leaves small letters as they are.
pub keep_rows-pills :
    (lower : Lower) (rows : List Listed)
    → IsLower lower
    → (keep_rows (matches_status lower (codes "confirmed")) rows
        ≡ with_status (some BookingStatus.booked) rows)
      × (keep_rows (matches_status lower (codes "cancelled")) rows
          ≡ with_status (some BookingStatus.cancelled) rows)
      × (keep_rows (matches_status lower (codes "pending")) rows ≡ [])
      × (keep_rows (matches_status lower (codes "rescheduled")) rows ≡ [])
keep_rows-pills lower rows small = (
  keep-with_status lower (codes "confirmed") BookingStatus.booked rows (confirmed_pill lower small),
  keep-with_status lower (codes "cancelled") BookingStatus.cancelled rows
      (cancelled_pill lower small),
  keep_none lower (codes "pending") rows (pending_pill lower small),
  keep_none lower (codes "rescheduled") rows (rescheduled_pill lower small),
)
