-- ===== src/Auth/Admin/Laws.antt =====
-- An admin's session is stored under a hash with a salt of its own, and looked up under another.
use chronos_appointment_sche.Base.{
  ℕ, ◌≡◌, refl, ap, false, Option, none, some, List, [], ◌∷◌, arith, Bool-cases, Option-cases, inl,
  inr, Table,
}
use chronos_appointment_sche.Email.Token.{Text, same_text}
use chronos_appointment_sche.Email.Token.Laws.{same_text_refl, same_text_eq}
use chronos_appointment_sche.Auth.{Crypto}
use chronos_appointment_sche.Auth.Cookie.{cookie_value, has}
use chronos_appointment_sche.Auth.Password.{colon, encoded_as, split, split-append}
use chronos_appointment_sche.Auth.Admin.{
  Admin, AdminSession, unauthorized, session_cookie, find_by_hash, delete_by_hash, hash_token,
  login, logout, can_activate, log_in, credentials, given,
}

abbrev second_part : List Text → Text
second_part (a ∷ b ∷ rest) = b
second_part _ = []

-- The salt that a stored hash names.
abbrev salt_in : Text → Text
salt_in hash = second_part (split colon hash)

salt_in-encoded_as : (salt d : Text) → has colon salt ≡ false → salt_in (encoded_as salt d) ≡ salt
salt_in-encoded_as salt d clean = rw (split-append colon salt d clean) refl

-- No session was stored under this salt.
abbrev IsUnused : Text → List AdminSession → Type 0
IsUnused salt [] = Unit {0}
IsUnused salt (x ∷ s) = (same_text (salt_in x.token_hash) salt ≡ false) × IsUnused salt s

module _ (crypto : Crypto) where
  -- A hash under a salt that a stored hash does not name is another.
  other_hash :
      (salt token stored : Text)
      → has colon salt ≡ false
      → same_text (salt_in stored) salt ≡ false
      → same_text stored (hash_token crypto salt token) ≡ false
  other_hash salt token stored clean unused =
      elim (Bool-cases (same_text stored (hash_token crypto salt token))) [
        | inr e ↦ e
        | inl e ↦ ground (
          arith,
          same_text_refl salt,
          same_text_eq stored (hash_token crypto salt token) e,
          salt_in-encoded_as salt (crypto.derive token salt) clean,
          ap salt_in (same_text_eq stored (hash_token crypto salt token) e),
        )
      ]

  find_unused :
      (salt token : Text) (s : List AdminSession)
      → has colon salt ≡ false
      → IsUnused salt s
      → find_by_hash (hash_token crypto salt token) s ≡ none
  unfolding find_by_hash
  find_unused salt token [] clean u = refl
  find_unused salt token (x ∷ s) clean (h, u) =
      rw (other_hash salt token x.token_hash clean h) (find_unused salt token s clean u)

  delete_unused :
      (salt token : Text) (s : List AdminSession)
      → has colon salt ≡ false
      → IsUnused salt s
      → delete_by_hash (hash_token crypto salt token) s ≡ s
  unfolding delete_by_hash
  delete_unused salt token [] clean u = refl
  delete_unused salt token (x ∷ s) clean (h, u) =
      rw (other_hash salt token x.token_hash clean h)
        (ap (λ r. x ∷ r) (delete_unused salt token s clean u))

  -- A login of an admin: whoever, with a new salt and token, at any time.
  pub record Attempt : Type 0 where
    pub email : Option Text
    pub password : Option Text
    pub salt : Text
    pub token : Text
    pub now : ℕ

  -- The sessions after some logins, the last one first.
  unfoldable pub logins : Table Admin → List Attempt → List AdminSession
  logins admins [] = []
  logins admins (a ∷ rest) =
      (login crypto admins a.email a.password a.salt a.token a.now (logins admins rest)).1

  -- A salt is drawn that no login has drawn.
  abbrev pub IsNewSalt : Text → List Attempt → Type 0
  IsNewSalt salt [] = Unit {0}
  IsNewSalt salt (a ∷ rest) =
      (same_text a.salt salt ≡ false) × (has colon a.salt ≡ false) × IsNewSalt salt rest

  log_in-IsUnused :
      (salt : Text) (a : Attempt) (s : List AdminSession) (o : Option ℕ)
      → same_text a.salt salt ≡ false
      → has colon a.salt ≡ false
      → IsUnused salt s
      → IsUnused salt (log_in crypto a.salt a.token a.now s o).1
  log_in-IsUnused salt a s none other clean u = u
  log_in-IsUnused salt a s (some id) other clean u =
      (rw (salt_in-encoded_as a.salt (crypto.derive a.token a.salt) clean) other, u)

  logins-IsUnused :
      (admins : Table Admin) (salt : Text) (tries : List Attempt)
      → IsNewSalt salt tries
      → IsUnused salt (logins admins tries)
  unfolding logins login
  logins-IsUnused admins salt [] new = tt
  logins-IsUnused admins salt (a ∷ rest) (other, clean, new) =
      log_in-IsUnused salt a (logins admins rest)
        (credentials crypto admins (given a.email) (given a.password)) other clean
        (logins-IsUnused admins salt rest new)

  -- After any logins of admins, the guard refuses every cookie at every time, if the salt that it draws
  -- is none of theirs and no salt has a colon; and a logout under such a salt ends no session.
  pub can_activate-logins :
      (admins : Table Admin) (tries : List Attempt) (salt cookie : Text) (now : ℕ)
      → has colon salt ≡ false
      → IsNewSalt salt tries
      → (can_activate crypto salt cookie now (logins admins tries) ≡ unauthorized)
        × ((logout crypto salt cookie (logins admins tries)).1 ≡ logins admins tries)
  unfolding can_activate logout
  can_activate-logins admins tries salt cookie now clean new =
      elim (Option-cases (cookie_value session_cookie cookie)) [
        | inl e ↦ rw e (refl, refl)
        | inr (token, e) ↦
            rw
              (
                e,
                find_unused salt token (logins admins tries) clean
                    (logins-IsUnused admins salt tries new),
                delete_unused salt token (logins admins tries) clean
                    (logins-IsUnused admins salt tries new),
              )
              (refl, refl)
      ]
