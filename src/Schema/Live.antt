-- ===== src/Schema/Live.antt =====
-- Live bookings counted by slot, and the consistency of slots with bookings.
use native.Mathlib.Decide.{dec_lt}
use chronos_appointment_sche.Base.{
  lookup-adjust, ℕ, ◌+◌, ◌≤◌, ◌≡◌, refl, true, Option, none, some, [], ◌∷◌, Table, arith, lookup,
  adjust, exists, if◌then◌else◌,
}
use chronos_appointment_sche.Schema.{is_opened, Tables, Slot, Booking, SlotStatus, is_live_on}

abbrev pub weight : ℕ → Booking → ℕ
weight s b = if is_live_on s b then 1 else 0

-- How many live bookings stand on slot `s`.
unfoldable pub live_count : ℕ → Table Booking → ℕ
live_count s [] = 0
live_count s ((i, b) ∷ t) = weight s b + live_count s t

pub live_count-cons :
    (s i : ℕ) (b : Booking) (t : Table Booking)
    → live_count s ((i, b) ∷ t) ≡ weight s b + live_count s t
unfolding live_count
live_count-cons s i b t = refl

pub live_count-adjust :
    (s k : ℕ) (f : Booking → Booking) (t : Table Booking) {b : Booking}
    → lookup k t ≡ some b
    → live_count s (adjust k f t) + weight s b ≡ live_count s t + weight s (f b)
unfolding live_count
live_count-adjust s k f [] h = ground arith
live_count-adjust s k f ((i, c) ∷ t) {b} h = ground (arith, live_count-adjust s k f t {b = b})

pub exists-live_count :
    (s : ℕ) (t : Table Booking) → exists (is_live_on s) t ≡ true → 1 ≤ live_count s t
unfolding live_count
exists-live_count s [] h = ground arith
exists-live_count s ((i, b) ∷ t) h = ground (arith, exists-live_count s t)

pub weight-le-live_count :
    (s k : ℕ) (t : Table Booking) {b : Booking} → lookup k t ≡ some b → weight s b ≤ live_count s t
unfolding live_count
weight-le-live_count s k [] h = ground arith
weight-le-live_count s k ((i, c) ∷ t) {b} h = ground (arith, weight-le-live_count s k t {b = b})

abbrev pub status_of : Option Slot → Option SlotStatus
status_of none = none
status_of (some s) = some s.status

-- Each slot carries at most one live booking, and one that carries any is marked booked.
pub record Agrees (slots : Table Slot) (bookings : Table Booking) : Type 0 where
  pub single : (s : ℕ) → live_count s bookings ≤ 1
  pub marked :
      (s : ℕ) → 1 ≤ live_count s bookings → status_of (lookup s slots) ≡ some SlotStatus.booked

abbrev pub IsConsistent : Tables → Type 0
IsConsistent t = Agrees t.slots t.bookings

module _ (slots : Table Slot) (bookings : Table Booking) (v : Agrees slots bookings) where
  -- A slot that is open carries no live booking.
  pub Agrees-opened :
      (k : ℕ) (s : Slot)
      → lookup k slots ≡ some s
      → is_opened s.status ≡ true
      → live_count k bookings ≡ 0
  Agrees-opened k s found o = elim (dec_lt 0 (live_count k bookings)) [
    | yes h ↦ ground (arith, v.marked k h)
    | no h ↦ omega arith
  ]

  -- Any change of a slot that carries none.
  pub Agrees-slot :
      (k : ℕ) (f : Slot → Slot) → live_count k bookings ≡ 0 → Agrees (adjust k f slots) bookings
  Agrees-slot k f none_live = record {
    single = v.single;
    marked = λ s h. ground (arith, lookup-adjust s k f slots, v.marked s h);
  }

  -- A new booking on a slot that is marked and carries none.
  pub Agrees-insert :
      (i : ℕ) (b : Booking)
      → live_count b.slot_id bookings ≡ 0
      → status_of (lookup b.slot_id slots) ≡ some SlotStatus.booked
      → Agrees slots ((i, b) ∷ bookings)
  unfolding live_count
  Agrees-insert i b none_live m = record {
    single = λ s. ground (arith, v.single s);
    marked = λ s h. elim (dec_lt 0 (live_count s bookings)) [
      | yes old ↦ v.marked s old
      | no new ↦ ground arith
    ];
  }

  -- A change of a booking that makes it live nowhere anew.
  pub Agrees-adjust :
      (i : ℕ) (f : Booking → Booking) {b : Booking}
      → lookup i bookings ≡ some b
      → ((s : ℕ) → weight s (f b) ≤ weight s b)
      → Agrees slots (adjust i f bookings)
  Agrees-adjust i f {b} found less = record {
    single = λ s. omega (arith, v.single s, less s, live_count-adjust s i f bookings {b = b} found);
    marked =
        λ s h. v.marked s (omega (arith, less s, live_count-adjust s i f bookings {b = b} found));
  }

  -- A live booking that is cancelled leaves its slot without one.
  pub live_count-cancel :
      (i : ℕ) (f : Booking → Booking) {b : Booking}
      → lookup i bookings ≡ some b
      → weight b.slot_id b ≡ 1
      → weight b.slot_id (f b) ≡ 0
      → live_count b.slot_id (adjust i f bookings) ≡ 0
  live_count-cancel i f {b} found one zero_left =
      omega (arith, v.single b.slot_id, live_count-adjust b.slot_id i f bookings {b = b} found)
