-- ===== src/Auth/Admin.antt =====
-- apps/api/src/auth/admin-session.service.ts, admin-auth.controller.ts, admin-auth.guard.ts.
pub mod Laws
use chronos_appointment_sche.Base.{
  ℕ, ◌+◌, Bool, true, false, Option, none, some, List, [], ◌∷◌, not, if◌then◌else◌, ltb, Table,
  find_first,
}
use chronos_appointment_sche.Email.Token.{Text, is_empty, same_text}
use chronos_appointment_sche.Email.Gateway.{codes}
use chronos_appointment_sche.Auth.{Crypto}
use chronos_appointment_sche.Auth.Cookie.{cookie_value}
use chronos_appointment_sche.Auth.Password.{encoded_as, verify_password}

pub record Admin : Type 0 where
  pub email : Text
  pub password_hash : Option Text

pub record AdminSession : Type 0 where
  pub admin_id : ℕ
  pub token_hash : Text
  pub expires_at : ℕ

pub data Answer : Type 0 where
  logged_in : (admin_id : ℕ) → (token : Text) → Answer
  authorized : (admin_id : ℕ) → Answer
  unauthorized done : Answer

abbrev pub session_ms : ℕ
session_ms = 28800000

abbrev pub session_cookie : Text
session_cookie = codes "chronos_admin_session="

abbrev pub given : Option Text → Option Text
given none = none
given (some t) = if is_empty t then none else some t

abbrev pub has_email : Text → Admin → Bool
has_email email a = same_text a.email email

-- findFirst({ where: { tokenHash } })
unfoldable pub find_by_hash : (hash : Text) → List AdminSession → Option AdminSession
find_by_hash hash [] = none
find_by_hash hash (x ∷ s) = if same_text x.token_hash hash then some x else find_by_hash hash s

-- deleteMany({ where: { tokenHash } })
unfoldable pub delete_by_hash : (hash : Text) → List AdminSession → List AdminSession
delete_by_hash hash [] = []
delete_by_hash hash (x ∷ s) =
    if same_text x.token_hash hash then delete_by_hash hash s else x ∷ delete_by_hash hash s

module _ (crypto : Crypto) where
  -- `salt` is what randomBytes(32) gives this call.
  abbrev pub hash_token : (salt token : Text) → Text
  hash_token salt token = encoded_as salt (crypto.derive token salt)

  abbrev pub create_session :
      (salt : Text)
      → (admin_id : ℕ) → (token : Text) → (now : ℕ) → List AdminSession
      → List AdminSession
  create_session salt admin_id token now s =
      record {
        admin_id = admin_id;
        token_hash = hash_token salt token;
        expires_at = now + session_ms;
      }
      ∷ s

  abbrev pub find_by_token : (salt token : Text) → List AdminSession → Option AdminSession
  find_by_token salt token = find_by_hash (hash_token salt token)

  abbrev pub revoke_session : (salt token : Text) → List AdminSession → List AdminSession
  revoke_session salt token = delete_by_hash (hash_token salt token)

  abbrev pub check_admin : (password : Text) → Option (ℕ × Admin) → Option ℕ
  check_admin password none = none
  check_admin password (some (id, a)) = elim (given a.password_hash) [
    | none ↦ none
    | some h ↦ if verify_password crypto password h then some id else none
  ]

  abbrev pub credentials : Table Admin → (email password : Option Text) → Option ℕ
  credentials admins none password = none
  credentials admins (some email) none = none
  credentials admins (some email) (some password) =
      check_admin password (find_first (has_email email) admins)

  abbrev pub log_in :
      (salt token : Text) → (now : ℕ) → List AdminSession → Option ℕ → Answer × List AdminSession
  log_in salt token now s none = (unauthorized, s)
  log_in salt token now s (some id) = (logged_in id token, create_session salt id token now s)

  -- POST /auth/admin/login
  unfoldable pub login :
      Table Admin
      → (email password : Option Text) → (salt token : Text) → (now : ℕ) → List AdminSession
      → Answer × List AdminSession
  login admins email password salt token now s =
      log_in salt token now s (credentials admins (given email) (given password))

  abbrev pub log_out : (salt : Text) → List AdminSession → Option Text → Answer × List AdminSession
  log_out salt s none = (done, s)
  log_out salt s (some token) = (done, revoke_session salt token s)

  -- POST /auth/admin/logout
  unfoldable pub logout :
      (salt : Text) → (cookie : Text) → List AdminSession → Answer × List AdminSession
  logout salt cookie s = log_out salt s (cookie_value session_cookie cookie)

  abbrev pub admit : (now : ℕ) → Option AdminSession → Answer
  admit now none = unauthorized
  admit now (some x) = if ltb x.expires_at now then unauthorized else authorized x.admin_id

  abbrev pub activate : (salt : Text) → (now : ℕ) → List AdminSession → Option Text → Answer
  activate salt now s none = unauthorized
  activate salt now s (some token) = admit now (find_by_token salt token s)

  -- AdminAuthGuard.canActivate; the token of the cookie is not decoded.
  unfoldable pub can_activate :
      (salt : Text) → (cookie : Text) → (now : ℕ) → List AdminSession → Answer
  can_activate salt cookie now s = activate salt now s (cookie_value session_cookie cookie)
