-- ===== src/Auth/Password.antt =====
-- apps/api/src/auth/password.service.ts.
use chronos_appointment_sche.Base.{
  ℕ, ◌≡◌, refl, Bool, true, false, List, [], ◌∷◌, ◌++◌, ◌==◌, ◌&&◌, not, if◌then◌else◌, arith,
  ==_refl,
}
use chronos_appointment_sche.Email.Token.{Text, is_empty, same_text}
use chronos_appointment_sche.Email.Token.Laws.{same_text_refl}
use chronos_appointment_sche.Email.Gateway.{codes}
use chronos_appointment_sche.Auth.{Crypto}
use chronos_appointment_sche.Auth.Cookie.{has}

abbrev pub colon : ℕ
colon = 58

abbrev pub prepend : ℕ → List Text → List Text
prepend d [] = (d ∷ []) ∷ []
prepend d (w ∷ ws) = (d ∷ w) ∷ ws

-- `s.split(c)`
abbrev pub split : ℕ → Text → List Text
split c [] = [] ∷ []
split c (d ∷ s) = if d == c then [] ∷ split c s else prepend d (split c s)

-- `scrypt:${salt}:${derived}`
abbrev pub encoded_as : (salt derived : Text) → Text
encoded_as salt derived = codes "scrypt" ++ colon ∷ (salt ++ colon ∷ derived)

module _ (crypto : Crypto) where
  unfoldable pub hash_password : (salt password : Text) → Text
  hash_password salt password = encoded_as salt (crypto.derive password salt)

  -- A part that is missing is undefined, and refused as an empty one is.
  abbrev pub verify_parts : (password : Text) → List Text → Bool
  verify_parts password (scheme ∷ salt ∷ derived ∷ rest) =
      same_text scheme (codes "scrypt")
      && not (is_empty salt)
      && not (is_empty derived)
      && same_text (crypto.derive password salt) derived
  verify_parts password _ = false

  unfoldable pub verify_password : (password encoded : Text) → Bool
  verify_password password encoded = verify_parts password (split colon encoded)

pub split-append : (c : ℕ) (a b : Text) → has c a ≡ false → split c (a ++ c ∷ b) ≡ a ∷ split c b
split-append c [] b h = ground (arith, ==_refl c)
split-append c (d ∷ a) b h = ground (arith, split-append c a b)

split_all : (c : ℕ) (a : Text) → has c a ≡ false → split c a ≡ a ∷ []
split_all c [] h = refl
split_all c (d ∷ a) h = ground (arith, split_all c a)

-- A password is accepted against the hash of a password exactly if scrypt derives the same key from
-- both under the hash's salt, provided that neither the salt nor the keys have a colon, and that the
-- salt and the stored key are not empty. So every password is accepted against its own hash.
pub verify_password-hash_password :
    (crypto : Crypto) (salt password other : Text)
    → is_empty salt ≡ false
    → has colon salt ≡ false
    → is_empty (crypto.derive password salt) ≡ false
    → has colon (crypto.derive password salt) ≡ false
    → (verify_password crypto other (hash_password crypto salt password)
        ≡ same_text (crypto.derive other salt) (crypto.derive password salt))
      × (verify_password crypto password (hash_password crypto salt password) ≡ true)
unfolding verify_password hash_password
verify_password-hash_password crypto salt password other full clean key_full key_clean =
    let key = crypto.derive password salt in
    rw (split-append colon salt key clean, split_all colon key key_clean, full, key_full)
      (refl, same_text_refl key)
