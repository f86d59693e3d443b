-- ===== src/Web/Hours.antt =====
-- apps/web/src/app/availability/page.tsx: the weekly schedule that the page edits, and what is saved of
-- it. A time is its text.
use chronos_appointment_sche.Base.{
  ℕ, zero, suc, ◌≡◌, refl, ap, subst, Holds, Bool, true, false, not, Option, none, some, List, [],
  ◌∷◌, ◌++◌,
}
use chronos_appointment_sche.Email.Token.{Text}
use chronos_appointment_sche.Email.Gateway.{codes}

pub record Hours : Type 0 where
  pub start : Text
  pub end : Text

pub record Day : Type 0 where
  pub label : Text
  pub active : Bool
  pub slots : List Hours

pub data Field : Type 0 where
  start_field end_field : Field

-- `list.map((x, idx) => idx === i ? f(x) : x)`
unfoldable pub change_at {ℓ} : {A : Type ℓ} → (i : ℕ) → (A → A) → List A → List A
change_at i f [] = []
change_at zero f (x ∷ xs) = f x ∷ xs
change_at (suc i) f (x ∷ xs) = x ∷ change_at i f xs

-- `list.filter((_, j) => j !== i)`
unfoldable pub remove_at {ℓ} : {A : Type ℓ} → (i : ℕ) → List A → List A
remove_at i [] = []
remove_at zero (x ∷ xs) = xs
remove_at (suc i) (x ∷ xs) = x ∷ remove_at i xs

-- 09:00 and 17:00.
abbrev pub office_hours : Hours
office_hours = record { start = codes "09:00"; end = codes "17:00" }

abbrev pub toggle_day : ℕ → List Day → List Day
toggle_day i = change_at i (λ d. record d { active = not d.active })

abbrev pub add_slot : ℕ → List Day → List Day
add_slot i = change_at i (λ d. record d { slots = d.slots ++ office_hours ∷ [] })

abbrev pub remove_slot : (i si : ℕ) → List Day → List Day
remove_slot i si = change_at i (λ d. record d { slots = remove_at si d.slots })

abbrev pub with_field : Field → Text → Hours → Hours
with_field start_field value h = record h { start = value }
with_field end_field value h = record h { end = value }

abbrev pub set_slot : (i si : ℕ) → Field → Text → List Day → List Day
set_slot i si field value =
    change_at i (λ d. record d { slots = change_at si (with_field field value) d.slots })

abbrev pub day_at : ℕ → List Day → Option Day
day_at i [] = none
day_at zero (d ∷ ds) = some d
day_at (suc i) (d ∷ ds) = day_at i ds

abbrev pub slot_count : List Hours → ℕ
slot_count [] = zero
slot_count (h ∷ hs) = suc (slot_count hs)

remove_at-append : (hs : List Hours) (h : Hours) → remove_at (slot_count hs) (hs ++ h ∷ []) ≡ hs
unfolding remove_at
remove_at-append [] h = refl
remove_at-append (g ∷ hs) h = ap (λ xs. g ∷ xs) (remove_at-append hs h)

not-not : (b : Bool) → not (not b) ≡ b
not-not true = refl
not-not false = refl

toggle_twice : (i : ℕ) (days : List Day) → toggle_day i (toggle_day i days) ≡ days
unfolding change_at
toggle_twice i [] = refl
toggle_twice zero (d ∷ ds) = ap (λ b. record d { active = b } ∷ ds) (not-not d.active)
toggle_twice (suc i) (d ∷ ds) = ap (λ xs. d ∷ xs) (toggle_twice i ds)

add_removed :
    (i : ℕ) (days : List Day) {d : Day}
    → day_at i days ≡ some d
    → remove_slot i (slot_count d.slots) (add_slot i days) ≡ days
unfolding change_at
add_removed i [] h = refl
add_removed zero (e ∷ ds) {d} h =
    subst
      (Holds (λ x.
        record e { slots = remove_at (slot_count x.slots) (e.slots ++ office_hours ∷ []) } ∷ ds
        ≡ e ∷ ds))
      h (ap (λ xs. record e { slots = xs } ∷ ds) (remove_at-append e.slots office_hours))
add_removed (suc i) (e ∷ ds) {d} h = ap (λ xs. e ∷ xs) (add_removed i ds {d = d} h)

-- What the buttons of a day do they also undo: switching it twice, and adding hours and removing the last
-- ones, leave the schedule as it was.
pub edits_undo :
    (i : ℕ) (days : List Day) {d : Day}
    → day_at i days ≡ some d
    → (toggle_day i (toggle_day i days) ≡ days)
      × (remove_slot i (slot_count d.slots) (add_slot i days) ≡ days)
edits_undo i days {d} h = (toggle_twice i days, add_removed i days {d = d} h)
