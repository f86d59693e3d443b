-- ===== src/Time/Laws.antt =====
-- The deadline agrees with the cancellation rule; which fire times are answered, and in which order.
use chronos_appointment_sche.Base.{
  ℕ, ◌+◌, ◌≤◌, ◌≡◌, refl, List, [], ◌∷◌, arith, leb, ◌==◌, if◌then◌else◌, sym, subst, Bool-cases,
  inl, inr, ==_refl,
}
use chronos_appointment_sche.Schema.{BookingStatus}
use chronos_appointment_sche.Bookings.Lifecycle.{CancelRequest, evaluate_cancellation}
use chronos_appointment_sche.Reminders.Queue.{fire_time}
use chronos_appointment_sche.Time.{
  is_cancellable, place_time, sort_times, fire_times_ahead, reminder_fire_times,
}

-- The deadline of the time library is the window rule of the cancellation: for a booked booking at
-- the version that If-Match names, both give the same answer.
pub is_cancellable-evaluate_cancellation :
    (req : CancelRequest)
    → is_cancellable req.now req.slot_start req.cancellation_window_hours
      ≡ (evaluate_cancellation req BookingStatus.booked req.if_match).allowed
unfolding is_cancellable evaluate_cancellation
is_cancellable-evaluate_cancellation req = ground (arith, ==_refl req.if_match)

abbrev pub count : ℕ → List ℕ → ℕ
count t [] = 0
count t (u ∷ us) = (if t == u then 1 else 0) + count t us

abbrev pub IsSorted : List ℕ → Type 0
IsSorted [] = Unit {0}
IsSorted (t ∷ ts) = ((u : ℕ) → 1 ≤ count u ts → t ≤ u) × IsSorted ts

count-place_time : (t u : ℕ) (us : List ℕ) → count t (place_time u us) ≡ count t (u ∷ us)
count-place_time t u [] = refl
count-place_time t u (v ∷ us) = ground (arith, count-place_time t u us)

count-sort_times : (t : ℕ) (us : List ℕ) → count t (sort_times us) ≡ count t us
count-sort_times t [] = refl
count-sort_times t (u ∷ us) =
    ground (arith, count-place_time t u (sort_times us), count-sort_times t us)

place_time-IsSorted : (t : ℕ) (us : List ℕ) → IsSorted us → IsSorted (place_time t us)
place_time-IsSorted t [] h = (λ u k. ground arith, tt)
place_time-IsSorted t (u ∷ us) (least, h) = elim (Bool-cases (leb t u)) [
  | inl e ↦ sorted (t ∷ u ∷ us) (ground arith) (λ x k. ground (arith, least x), (least, h))
  | inr e ↦
      sorted (u ∷ place_time t us) (ground arith)
        (λ x k. ground (arith, least x, count-place_time x t us), place_time-IsSorted t us h)
]
  where
    sorted :
        (l : List ℕ) → place_time t (u ∷ us) ≡ l → IsSorted l → IsSorted (place_time t (u ∷ us))
    sorted l e k = subst IsSorted (sym e) k

sort_times-IsSorted : (us : List ℕ) → IsSorted (sort_times us)
sort_times-IsSorted [] = tt
sort_times-IsSorted (u ∷ us) = place_time-IsSorted u (sort_times us) (sort_times-IsSorted us)

-- How many of the offsets fire at `t`, as the queue manager computes it, and after `now`.
abbrev pub count_ahead : (t slot_start : ℕ) → List ℕ → (now : ℕ) → ℕ
count_ahead t start [] now = 0
count_ahead t start (off ∷ offs) now =
    (if leb (fire_time start off) now then 0 else if t == fire_time start off then 1 else 0)
    + count_ahead t start offs now

count-fire_times_ahead :
    (t start : ℕ) (offs : List ℕ) (now : ℕ)
    → count t (fire_times_ahead start offs now) ≡ count_ahead t start offs now
unfolding fire_times_ahead
count-fire_times_ahead t start [] now = refl
count-fire_times_ahead t start (off ∷ offs) now =
    ground (arith, count-fire_times_ahead t start offs now)

-- The fire times answered are in order, and each instant stands among them as often as there are
-- offsets that the queue manager, with its own reading of the fire time, would not skip at that
-- moment and that fire then.
pub reminder_fire_times_lem :
    (start : ℕ) (offs : List ℕ) (now : ℕ)
    → IsSorted (reminder_fire_times start offs now)
      × ((t : ℕ) → count t (reminder_fire_times start offs now) ≡ count_ahead t start offs now)
unfolding reminder_fire_times
reminder_fire_times_lem start offs now = (
  sort_times-IsSorted (fire_times_ahead start offs now),
  λ t. ground (
    arith,
    count-sort_times t (fire_times_ahead start offs now),
    count-fire_times_ahead t start offs now,
  ),
)
