-- ===== src/Figures.antt =====
-- The figures that a provider is shown: apps/api/src/analytics, reports and billing. A row is a booking
-- as the query joins it. Rounding a share to percent, and the arithmetic of prices, which are
-- floating-point numbers, are arguments; so is what the database throws.
pub mod Rows
pub mod Analytics
pub mod Reports
pub mod Billing
use chronos_appointment_sche.Base.{
  ℕ, zero, suc, ◌+◌, ◌*◌, ◌≤◌, Bool, true, false, Option, none, some, List, [], ◌∷◌, ◌==◌, ◌&&◌,
  leb, if◌then◌else◌,
}
use chronos_appointment_sche.Schema.{BookingStatus, SlotStatus}
use chronos_appointment_sche.Email.Token.{Text}
use chronos_appointment_sche.Bookings.Lifecycle.{same_status}

-- IEEE doubles, as far as sums need them.
pub record Floats : Type 1 where
  pub Float : Type 0
  pub zero_price : Float
  pub add : Float → Float → Float

-- `Math.round((a / b) * 100)` for b > 0.
abbrev pub Percent : Type 0
Percent = (a b : ℕ) → ℕ

-- What the rounding promises: no other whole number is nearer to the share.
abbrev pub IsNearest : Percent → Type 0
IsNearest percent =
    (a b : ℕ)
    → 1 ≤ b
    → (2 * (b * percent a b) ≤ 200 * a + b) × (200 * a ≤ 2 * (b * percent a b) + b)

module _ (f : Floats) where
  pub record EventType : Type 0 where
    pub title : Text
    pub price : Option f.Float

  pub record Row : Type 0 where
    pub id : ℕ
    pub slot_provider_id : ℕ
    pub status : BookingStatus
    pub created_at : ℕ
    pub slot_status : SlotStatus
    pub slot_start_utc : ℕ
    pub slot_end_utc : ℕ
    pub client_id : Option ℕ
    -- The client's name and email, if there is one.
    pub client : Option (Option Text × Text)
    pub event_type_id : Option ℕ
    pub event_type : Option EventType

  abbrev pub take_first : ℕ → List Row → List Row
  take_first zero rows = []
  take_first (suc n) [] = []
  take_first (suc n) (r ∷ rows) = r ∷ take_first n rows

  -- ORDER BY created_at DESC; among rows of one time the order of the table stands.
  abbrev pub insert_row : Row → List Row → List Row
  insert_row r [] = r ∷ []
  insert_row r (q ∷ rows) =
      if leb q.created_at r.created_at then r ∷ q ∷ rows else q ∷ insert_row r rows

  abbrev pub newest_first : List Row → List Row
  newest_first [] = []
  newest_first (r ∷ rows) = insert_row r (newest_first rows)

  abbrev pub filter_rows : (Row → Bool) → List Row → List Row
  filter_rows p [] = []
  filter_rows p (r ∷ rows) = if p r then r ∷ filter_rows p rows else filter_rows p rows

  abbrev pub count_rows : (Row → Bool) → List Row → ℕ
  count_rows p [] = 0
  count_rows p (r ∷ rows) = if p r then 1 + count_rows p rows else count_rows p rows

  abbrev pub has_status : BookingStatus → Row → Bool
  has_status s r = same_status s r.status

  abbrev pub price_or_zero : Option f.Float → f.Float
  price_or_zero none = f.zero_price
  price_or_zero (some p) = p

  -- `prices.reduce((s, p) => s + p, s)`
  abbrev pub sum_from : f.Float → List f.Float → f.Float
  sum_from s [] = s
  sum_from s (p ∷ prices) = sum_from (f.add s p) prices

  abbrev pub is_slot_open : Row → Bool
  is_slot_open r = elim r.slot_status [ SlotStatus.opened ↦ true | _ ↦ false ]

  abbrev pub is_slot_booked : Row → Bool
  is_slot_booked r = elim r.slot_status [ SlotStatus.booked ↦ true | _ ↦ false ]

-- What `new Date(text)` gives.
pub data Moment : Type 0 where
  at : ℕ → Moment
  invalid_date : Moment

-- The query's `start` and `end`, where they are given and not empty.
pub record Range : Type 0 where
  pub start : Option Moment
  pub end : Option Moment

abbrev pub is_date : Option Moment → Bool
is_date none = true
is_date (some (at t)) = true
is_date (some invalid_date) = false

abbrev pub from_start : Option Moment → ℕ → Bool
from_start (some (at t)) created_at = leb t created_at
from_start _ created_at = true

abbrev pub to_end : Option Moment → ℕ → Bool
to_end (some (at t)) created_at = leb created_at t
to_end _ created_at = true

-- `where.createdAt`
abbrev pub in_range : Range → ℕ → Bool
in_range range t = from_start range.start t && to_end range.end t
