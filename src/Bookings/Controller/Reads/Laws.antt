-- ===== src/Bookings/Controller/Reads/Laws.antt =====
-- Which bookings a client may read.
use chronos_appointment_sche.Base.{
  ℕ, ◌≡◌, refl, some, List, [], ◌∷◌, arith, Table, lookup, ◌==◌, inl, inr, subst, if_ind,
  Option-cases, ==_iff,
}
use chronos_appointment_sche.Schema.{Tables, Booking, Slot}
use chronos_appointment_sche.Bookings.Controller.Reads.{
  BookingView, view_of, get_booking, one, joined, own_views, list_bookings, many, prepend,
}

-- The view of a booking of the client.
pub record IsOwn (client : ℕ) (t : Tables) (v : BookingView) : Type 0 where
  pub row : Booking
  pub slot : Slot
  pub owner : row.client_id ≡ client
  pub slot_found : lookup row.slot_id t.slots ≡ some slot
  pub view : v ≡ view_of v.id row slot

-- A booking that GET answers to a session is the client's own, found under the id asked for, and
-- shown with the times of its slot.
pub get_booking-IsOwn :
    (client id : ℕ) (t : Tables) {v : BookingView}
    → get_booking (some client) id t ≡ one v
    → (own : IsOwn client t v) × (v.id ≡ id) × (lookup id t.bookings ≡ some own.row)
unfolding get_booking
get_booking-IsOwn client id t {v} h = elim (Option-cases (lookup id t.bookings)) [
  | inl e ↦ absurd (ground arith)
  | inr (b, e) ↦ elim (Option-cases (lookup b.slot_id t.slots)) [
    | inl f ↦ absurd (ground arith)
    | inr (s, f) ↦ (
      record {
        row = b;
        slot = s;
        owner = ground (arith, ==_iff b.client_id client);
        slot_found = f;
        view = ground arith;
      },
      ground arith,
      e,
    )
  ]
]

abbrev pub AllOwn : ℕ → Tables → List BookingView → Type 0
AllOwn client t [] = Unit {0}
AllOwn client t (v ∷ vs) = IsOwn client t v × AllOwn client t vs

prepend-AllOwn :
    (t : Tables) (client id : ℕ) (b : Booking) (vs : List BookingView)
    → b.client_id ≡ client
    → AllOwn client t vs
    → AllOwn client t (prepend (joined t id b) vs)
prepend-AllOwn t client id b vs own h = elim (Option-cases (lookup b.slot_id t.slots)) [
  | inl e ↦ subst (AllOwn client t) {x = vs} (ground arith) h
  | inr (s, e) ↦
      subst (AllOwn client t) {x = view_of id b s ∷ vs} (ground arith)
        (record { row = b; slot = s; owner = own; slot_found = e; view = refl }, h)
]

own_views-AllOwn :
    (t : Tables) (client : ℕ) (rows : Table Booking) → AllOwn client t (own_views t client rows)
unfolding own_views
own_views-AllOwn t client [] = tt
own_views-AllOwn t client ((id, b) ∷ rows) =
    if_ind (AllOwn client t) (b.client_id == client)
      (λ e.
        prepend-AllOwn t client id b (own_views t client rows)
          (ground (arith, ==_iff b.client_id client)) (own_views-AllOwn t client rows))
      (λ e. own_views-AllOwn t client rows)

-- The list that GET answers to a session has bookings of the client only, each with the times of
-- its slot.
pub list_bookings-AllOwn :
    (client : ℕ) (t : Tables) {vs : List BookingView}
    → list_bookings (some client) t ≡ many vs
    → AllOwn client t vs
unfolding list_bookings
list_bookings-AllOwn client t {vs} h =
    subst (AllOwn client t) {x = own_views t client t.bookings} (ground arith)
      (own_views-AllOwn t client t.bookings)
