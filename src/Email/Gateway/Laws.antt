-- ===== src/Email/Gateway/Laws.antt =====
-- What the gateway tells its callers.
use Prim.Native.String.{String}
use chronos_appointment_sche.Base.{
  ℕ, ◌≡◌, ◌↔◌, ◌⊎◌, inl, inr, refl, true, List, [], ◌∷◌, ◌++◌, arith, ==_refl, ==_iff, Bool-cases,
  subst, sym,
}
use chronos_appointment_sche.Email.Gateway.{
  includes, starts_with, includes_any, transient_words, is_transient_error, is_transient_status,
  is_network_code, lower_message, codes, MailError,
}

pub starts_with-append : (p s : List ℕ) → starts_with (p ++ s) p ≡ true
starts_with-append [] [] = refl
starts_with-append [] (d ∷ s) = refl
starts_with-append (c ∷ p) s = ground (arith, ==_refl c, starts_with-append p s)

includes-append : (a p s : List ℕ) → includes (a ++ (p ++ s)) p ≡ true
unfolding includes
includes-append [] [] [] = refl
includes-append [] [] (d ∷ s) = refl
includes-append [] (c ∷ p) s = ground (arith, starts_with-append (c ∷ p) s)
includes-append (d ∷ a) p s = ground (arith, includes-append a p s)

-- A text that includes a word splits at it.
pub starts_with_split : (s p : List ℕ) → starts_with s p ≡ true → (rest : List ℕ) × (s ≡ p ++ rest)
starts_with_split s [] h = (s, refl)
starts_with_split [] (c ∷ p) h = ground arith
starts_with_split (d ∷ s) (c ∷ p) h =
    let (rest, e) = starts_with_split s p (ground arith) in (rest, ground (arith, ==_iff c d, e))

includes_split :
    (s p : List ℕ) → includes s p ≡ true → (a : List ℕ) × (rest : List ℕ) × (s ≡ a ++ (p ++ rest))
unfolding includes
includes_split [] p h = let (rest, e) = starts_with_split [] p h in ([], rest, e)
includes_split (d ∷ s) p h = elim (Bool-cases (starts_with (d ∷ s) p)) [
  | inl e ↦ let (rest, q) = starts_with_split (d ∷ s) p e in ([], rest, q)
  | inr e ↦ let (a, rest, q) = includes_split s p (ground arith) in (d ∷ a, rest, ground (arith, q))
]

-- A text that includes one of the words.
abbrev HasWord : List ℕ → List String → Type 0
HasWord s [] = ⊥
HasWord s (word ∷ words) =
    ((a : List ℕ) × (rest : List ℕ) × (s ≡ a ++ (codes word ++ rest))) ⊎ HasWord s words

includes_any_split :
    (s : List ℕ) (words : List String) → includes_any s words ≡ true → HasWord s words
unfolding includes_any
includes_any_split s [] h = ground arith
includes_any_split s (word ∷ words) h = elim (Bool-cases (includes s (codes word))) [
  | inl e ↦ inl (includes_split s (codes word) e)
  | inr e ↦ inr (includes_any_split s words (ground arith))
]

includes_any-HasWord :
    (s : List ℕ) (words : List String) → HasWord s words → includes_any s words ≡ true
unfolding includes_any
includes_any-HasWord s [] h = absurd h
includes_any-HasWord s (word ∷ words) (inl (a, rest, e)) =
    let h : includes s (codes word) ≡ true =
      subst (λ q. includes q (codes word) ≡ true) (sym e) (includes-append a (codes word) rest) in
    ground arith
includes_any-HasWord s (word ∷ words) (inr h) = ground (arith, includes_any-HasWord s words h)

-- The three ways in which the comment above isTransientError lets an error be transient.
abbrev pub IsTransient : MailError → Type 0
IsTransient err =
    (is_transient_status err.status_code ≡ true)
    ⊎ ((is_network_code err.code ≡ true) ⊎ HasWord (lower_message err.message) transient_words)

-- An error is retried exactly when its status is 429 or at least 500, or its code is one of the
-- three network codes, or its message in lower case has one of the seven words in it, between any
-- two texts.
pub is_transient_error_iff : (err : MailError) → (is_transient_error err ≡ true) ↔ IsTransient err
unfolding is_transient_error
is_transient_error_iff err = ground (
  arith,
  includes_any_split (lower_message err.message) transient_words,
  includes_any-HasWord (lower_message err.message) transient_words,
)
