-- ===== src/Auth/Cookie.antt =====
-- The cookies of a request: `cookie.match(/name=([^;]+)/)` in the guards and the logouts.
use chronos_appointment_sche.Base.{
  ℕ, ◌≡◌, refl, Bool, false, Option, none, some, [], ◌∷◌, ◌++◌, ◌==◌, ◌||◌, if◌then◌else◌, arith,
  ==_refl,
}
use chronos_appointment_sche.Email.Token.{Text, is_empty}

abbrev pub semicolon : ℕ
semicolon = 59

-- Does the character stand in the text?
abbrev pub has : ℕ → Text → Bool
has c [] = false
has c (d ∷ s) = d == c || has c s

-- `[^c]*`
abbrev pub until : ℕ → Text → Text
until c [] = []
until c (d ∷ s) = if d == c then [] else d ∷ until c s

-- The text behind a prefix.
abbrev pub behind : Text → Text → Option Text
behind s [] = some s
behind [] (c ∷ p) = none
behind (d ∷ s) (c ∷ p) = if d == c then behind s p else none

-- `([^;]+)`: at least one character.
abbrev pub some_text : Text → Option Text
some_text [] = none
some_text (c ∷ s) = some (c ∷ s)

abbrev pub value_at : Option Text → Option Text
value_at none = none
value_at (some s) = some_text (until semicolon s)

-- The first place where the pattern matches.
abbrev pub or_else : Option Text → Option Text → Option Text
or_else none rest = rest
or_else (some v) rest = some v

unfoldable pub cookie_value : (name_and_equals : Text) → (header : Text) → Option Text
cookie_value p [] = none
cookie_value p (c ∷ s) = or_else (value_at (behind (c ∷ s) p)) (cookie_value p s)

until-append : (c : ℕ) (v t : Text) → has c v ≡ false → until c (v ++ c ∷ t) ≡ v
until-append c [] t h = ground (arith, ==_refl c)
until-append c (d ∷ v) t h = ground (arith, until-append c v t)

until_all : (c : ℕ) (v : Text) → has c v ≡ false → until c v ≡ v
until_all c [] h = refl
until_all c (d ∷ v) h = ground (arith, until_all c v)

behind-append : (p s : Text) → behind (p ++ s) p ≡ some s
behind-append [] s = refl
behind-append (c ∷ p) s = ground (arith, ==_refl c, behind-append p s)

some_text_full : (v : Text) → is_empty v ≡ false → some_text v ≡ some v
some_text_full [] h = ground arith
some_text_full (c ∷ v) h = refl

-- A cookie that stands alone is read back, if its value is not empty and has no semicolon.
pub cookie_value-alone :
    (c : ℕ) (p v : Text)
    → is_empty v ≡ false
    → has semicolon v ≡ false
    → cookie_value (c ∷ p) (c ∷ p ++ v) ≡ some v
unfolding cookie_value
cookie_value-alone c p v full clean =
    ground (arith, behind-append (c ∷ p) v, until_all semicolon v clean, some_text_full v full)
