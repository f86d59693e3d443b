-- ===== src/Time.antt =====
-- packages/time/src/time-core.ts: the cancellation deadline and the fire times of reminders. An
-- instant is its count of milliseconds; Temporal's reading and printing of instants is left out.
pub mod Slots
pub mod Materializer
pub mod Laws
pub mod Texts
use chronos_appointment_sche.Base.{ℕ, ◌+◌, ◌-◌, ◌*◌, Bool, List, [], ◌∷◌, ltb, leb, if◌then◌else◌}

-- `now <= slotStart - window`, with the window on the left.
unfoldable pub is_cancellable : (now slot_start window_hours : ℕ) → Bool
is_cancellable now slot_start window_hours = leb (now + window_hours * 60 * 60 * 1000) slot_start

abbrev pub place_time : ℕ → List ℕ → List ℕ
place_time t [] = t ∷ []
place_time t (u ∷ us) = if leb t u then t ∷ u ∷ us else u ∷ place_time t us

abbrev pub sort_times : List ℕ → List ℕ
sort_times [] = []
sort_times (t ∷ ts) = place_time t (sort_times ts)

-- The loop over the offsets: `fire > now`, with the offset on the right.
unfoldable pub fire_times_ahead : (slot_start : ℕ) → List ℕ → (now : ℕ) → List ℕ
fire_times_ahead slot_start [] now = []
fire_times_ahead slot_start (off ∷ offs) now =
    let rest = fire_times_ahead slot_start offs now in
    if ltb (now + off * 60000) slot_start then (slot_start - off * 60000) ∷ rest else rest

-- Sorting the texts of instants that differ by whole minutes sorts the instants.
unfoldable pub reminder_fire_times : (slot_start : ℕ) → List ℕ → (now : ℕ) → List ℕ
unfolding fire_times_ahead
reminder_fire_times slot_start offsets now = sort_times (fire_times_ahead slot_start offsets now)
