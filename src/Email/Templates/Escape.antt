-- ===== src/Email/Templates/Escape.antt =====
-- escapeHtml against a single pass, and against a reader that resolves the references again.
use chronos_appointment_sche.Base.{
  ℕ, zero, suc, ◌≡◌, refl, sym, subst, false, [], ◌∷◌, ◌++◌, ◌==◌, if◌then◌else◌, arith, Bool-cases,
  inl, inr,
}
use chronos_appointment_sche.Email.Token.{Text}
use chronos_appointment_sche.Email.Gateway.{codes, starts_with}
use chronos_appointment_sche.Email.Templates.{replace_all, escape_html}

-- The reference that stands for one character.
abbrev pub entity : ℕ → Text
entity c =
    if c == 38
    then codes "&amp;"
    else if c == 60
    then codes "&lt;"
    else if c == 62
    then codes "&gt;"
    else if c == 34
    then codes "&quot;"
    else if c == 39
    then codes "&#39;"
    else c ∷ []

unfoldable pub escape_once : Text → Text
escape_once [] = []
escape_once (c ∷ s) = entity c ++ escape_once s

-- A property of characters, by the five that are escaped and the others.
pub by_entity :
    (P : ℕ → Type 0)
    → P 38
    → P 60
    → P 62
    → P 34
    → P 39
    → ((c : ℕ)
        → (c == 38) ≡ false
        → (c == 60) ≡ false
        → (c == 62) ≡ false
        → (c == 34) ≡ false
        → (c == 39) ≡ false
        → P c)
    → (c : ℕ) → P c
by_entity P amp lt gt quot apos other c = elim (Bool-cases (c == 38)) [
  | inl e ↦ subst P {x = 38} (ground arith) amp
  | inr a ↦ elim (Bool-cases (c == 60)) [
    | inl e ↦ subst P {x = 60} (ground arith) lt
    | inr b ↦ elim (Bool-cases (c == 62)) [
      | inl e ↦ subst P {x = 62} (ground arith) gt
      | inr d ↦ elim (Bool-cases (c == 34)) [
        | inl e ↦ subst P {x = 34} (ground arith) quot
        | inr e ↦ elim (Bool-cases (c == 39)) [
          | inl f ↦ subst P {x = 39} (ground arith) apos
          | inr f ↦ other c a b d e f
        ]
      ]
    ]
  ]
]

++_assoc : (s t u : Text) → (s ++ t) ++ u ≡ s ++ (t ++ u)
++_assoc [] t u = refl
++_assoc (c ∷ s) t u = ground (arith, ++_assoc s t u)

replace_all-++ :
    (c : ℕ) (with s t : Text)
    → replace_all c with (s ++ t) ≡ replace_all c with s ++ replace_all c with t
unfolding replace_all
replace_all-++ c with [] t = refl
replace_all-++ c with (d ∷ s) t = elim (Bool-cases (d == c)) [
  | inl e ↦
      rw (e, replace_all-++ c with s t)
        (sym (++_assoc with (replace_all c with s) (replace_all c with t)))
  | inr e ↦ rw (e, replace_all-++ c with s t) refl
]

escape_html-++ : (s t : Text) → escape_html (s ++ t) ≡ escape_html s ++ escape_html t
unfolding escape_html
escape_html-++ s t = simp replace_all-++

escape_html-one : (c : ℕ) → escape_html (c ∷ []) ≡ entity c
unfolding escape_html replace_all
escape_html-one c =
    by_entity (λ k. escape_html (k ∷ []) ≡ entity k) refl refl refl refl refl
      (λ k a b d e f. ground arith) c

empty : escape_html [] ≡ []
unfolding escape_html replace_all
empty = refl

-- The five replacements one after the other do what one pass does that replaces each character by
-- its own reference: none of them touches what an earlier one has written.
pub escape_html-escape_once : (s : Text) → escape_html s ≡ escape_once s
unfolding escape_once
escape_html-escape_once [] = empty
escape_html-escape_once (c ∷ s) =
    ground (arith, escape_html-++ (c ∷ []) s, escape_html-one c, escape_html-escape_once s)

-- What a reader of HTML makes of the five references; `skip` characters belong to the last one.
unfoldable pub unescape_from : (skip : ℕ) → Text → Text
unescape_from skip [] = []
unescape_from (suc skip) (c ∷ s) = unescape_from skip s
unescape_from zero (c ∷ s) =
    if starts_with (c ∷ s) (codes "&amp;")
    then 38 ∷ unescape_from 4 s
    else if starts_with (c ∷ s) (codes "&lt;")
    then 60 ∷ unescape_from 3 s
    else if starts_with (c ∷ s) (codes "&gt;")
    then 62 ∷ unescape_from 3 s
    else if starts_with (c ∷ s) (codes "&quot;")
    then 34 ∷ unescape_from 5 s
    else if starts_with (c ∷ s) (codes "&#39;")
    then 39 ∷ unescape_from 4 s
    else c ∷ unescape_from 0 s

abbrev pub unescape_html : Text → Text
unescape_html = unescape_from 0

unescape_html-entity : (c : ℕ) (s : Text) → unescape_html (entity c ++ s) ≡ c ∷ unescape_html s
unfolding unescape_from
unescape_html-entity c s =
    by_entity (λ k. unescape_html (entity k ++ s) ≡ k ∷ unescape_html s) refl refl refl refl refl
      (λ k a b d e f. ground arith) c

unescape_html-escape_once : (s : Text) → unescape_html (escape_once s) ≡ s
unfolding escape_once unescape_from
unescape_html-escape_once [] = refl
unescape_html-escape_once (c ∷ s) =
    ground (arith, unescape_html-entity c (escape_once s), unescape_html-escape_once s)

-- A reader who resolves the references again reads the text as it was before escapeHtml.
pub unescape_html-escape_html : (s : Text) → unescape_html (escape_html s) ≡ s
unescape_html-escape_html s = rw (escape_html-escape_once s) (unescape_html-escape_once s)
