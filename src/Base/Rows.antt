-- ===== src/Base/Rows.antt =====
-- A database table as a list of rows under their primary keys. A row's key never changes, so a
-- statement `WHERE id = $1` reads and writes the one row under that key.
use Prim.Native.Nat.{ℕ}
use mathlib.Core.Path.{◌≡◌, refl}
use mathlib.Core.Bool.{Bool, false, ◌||◌}
use mathlib.Core.Option
use mathlib.Core.Option.{Option, none, some}
use mathlib.Core.List.{List, [], ◌∷◌}
use native.Mathlib.Omega.{arith}
use chronos_appointment_sche.Base.Tests.{◌==◌, if◌then◌else◌}

abbrev pub Table {ℓ} : Type ℓ → Type ℓ
Table V = List (ℕ × V)

module _ {ℓ} {V : Type ℓ} where
  -- SELECT … WHERE id = k
  abbrev pub lookup : ℕ → Table V → Option V
  lookup k [] = none
  lookup k ((j, v) ∷ t) = if k == j then some v else lookup k t

  -- UPDATE … SET … WHERE id = k
  abbrev pub adjust : ℕ → (V → V) → Table V → Table V
  adjust k f [] = []
  adjust k f ((j, v) ∷ t) = if k == j then (j, f v) ∷ t else (j, v) ∷ adjust k f t

  -- UPDATE … SET … WHERE p
  abbrev pub adjust_where : (V → Bool) → (V → V) → Table V → Table V
  adjust_where p f [] = []
  adjust_where p f ((j, v) ∷ t) = (j, if p v then f v else v) ∷ adjust_where p f t

  -- SELECT … WHERE p
  abbrev pub select : (V → Bool) → Table V → Table V
  select p [] = []
  select p ((j, v) ∷ t) = if p v then (j, v) ∷ select p t else select p t

  -- SELECT … WHERE p LIMIT 1
  abbrev pub find_first : (V → Bool) → Table V → Option (ℕ × V)
  find_first p [] = none
  find_first p ((j, v) ∷ t) = if p v then some (j, v) else find_first p t

  -- Does a row satisfy p?
  abbrev pub exists : (V → Bool) → Table V → Bool
  exists p [] = false
  exists p ((j, v) ∷ t) = p v || exists p t

  pub lookup-adjust :
      (j k : ℕ) (f : V → V) (t : Table V)
      → lookup j (adjust k f t) ≡ (if j == k then Option.map f (lookup j t) else lookup j t)
  lookup-adjust j k f [] = ground arith
  lookup-adjust j k f ((i, v) ∷ t) = ground (arith, lookup-adjust j k f t)

  pub lookup-adjust_where :
      (j : ℕ) (p : V → Bool) (f : V → V) (t : Table V)
      → lookup j (adjust_where p f t) ≡ Option.map (λ v. if p v then f v else v) (lookup j t)
  lookup-adjust_where j p f [] = refl
  lookup-adjust_where j p f ((i, v) ∷ t) = ground (arith, lookup-adjust_where j p f t)
