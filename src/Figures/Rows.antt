-- ===== src/Figures/Rows.antt =====
-- Counting rows.
use chronos_appointment_sche.Base.{
  ℕ, zero, suc, ◌+◌, ◌≤◌, ◌≡◌, refl, Bool, true, List, [], ◌∷◌, arith,
}
use native.Mathlib.Decide.{dec_lt}
use native.Mathlib.Nat.{mul-le-mul_left}
use chronos_appointment_sche.Schema.{BookingStatus}
use chronos_appointment_sche.Figures.{
  Floats, Percent, IsNearest, Row, take_first, filter_rows, count_rows, has_status,
}

-- A share of at most the whole is at most 100 percent.
pub percent-le :
    (percent : Percent) → IsNearest percent → (a b : ℕ) → 1 ≤ b → a ≤ b → percent a b ≤ 100
percent-le percent nearest a b pos h = elim (dec_lt 100 (percent a b)) [
  | no small ↦ omega arith
  | yes large ↦ grind (arith, nearest a b pos, mul-le-mul_left b large)
]

module _ (f : Floats) where
  pub count-le :
      (p : Row f → Bool) (rows : List (Row f)) → count_rows f p rows ≤ count_rows f (λ r. true) rows
  count-le p [] = omega arith
  count-le p (r ∷ rows) = ground (arith, count-le p rows)

  -- Each row has one of the four statuses.
  pub count-statuses :
      (rows : List (Row f))
      → count_rows f (has_status f BookingStatus.booked) rows
          + count_rows f (has_status f BookingStatus.completed) rows
          + count_rows f (has_status f BookingStatus.cancelled) rows
          + count_rows f (has_status f BookingStatus.no_show) rows
        ≡ count_rows f (λ r. true) rows
  count-statuses [] = refl
  count-statuses (r ∷ rows) = ground (arith, count-statuses rows)

  pub count-filter :
      (p : Row f → Bool) (rows : List (Row f))
      → count_rows f (λ r. true) (filter_rows f p rows) ≡ count_rows f p rows
  count-filter p [] = refl
  count-filter p (r ∷ rows) = ground (arith, count-filter p rows)

  pub count-take_first :
      (n : ℕ) (rows : List (Row f)) → count_rows f (λ r. true) (take_first f n rows) ≤ n
  count-take_first zero rows = omega arith
  count-take_first (suc n) [] = omega arith
  count-take_first (suc n) (r ∷ rows) = ground (arith, count-take_first n rows)
