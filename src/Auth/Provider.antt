-- ===== src/Auth/Provider.antt =====
-- apps/api/src/auth/provider-session.service.ts, provider-auth.controller.ts, provider-auth.guard.ts.
pub mod Laws
pub mod Refines
use chronos_appointment_sche.Base.{
  ℕ, ◌+◌, Bool, true, false, Option, none, some, List, [], ◌∷◌, ◌&&◌, not, if◌then◌else◌, ltb,
  Table, find_first,
}
use chronos_appointment_sche.Email.Token.{Text, is_empty, same_text}
use chronos_appointment_sche.Email.Gateway.{codes}
use chronos_appointment_sche.Email.Templates.{trim}
use chronos_appointment_sche.Auth.{Crypto, Uri}
use chronos_appointment_sche.Auth.Cookie.{cookie_value}
use chronos_appointment_sche.Auth.Password.{verify_password}

pub record ProviderAccount : Type 0 where
  pub email : Text
  pub password_hash : Option Text

pub record ProviderSession : Type 0 where
  pub provider_id : ℕ
  pub token_hash : Text
  pub expires_at : ℕ

abbrev pub day_ms : ℕ
day_ms = 86400000

abbrev pub session_cookie : Text
session_cookie = codes "chronos_provider_session="

-- findFirst({ where: { tokenHash, expiresAt: { gt: new Date() } } })
unfoldable pub find_provider_by_token_hash :
    (hash : Text) → (now : ℕ) → List ProviderSession → Option ℕ
find_provider_by_token_hash hash now [] = none
find_provider_by_token_hash hash now (x ∷ s) =
    if same_text x.token_hash hash && ltb now x.expires_at
    then some x.provider_id
    else find_provider_by_token_hash hash now s

-- deleteMany({ where: { tokenHash } })
unfoldable pub revoke_session : (hash : Text) → List ProviderSession → List ProviderSession
revoke_session hash [] = []
revoke_session hash (x ∷ s) =
    if same_text x.token_hash hash then revoke_session hash s else x ∷ revoke_session hash s

-- deleteMany({ where: { expiresAt: { lt: new Date() } } })
unfoldable pub cleanup_expired : (now : ℕ) → List ProviderSession → List ProviderSession
cleanup_expired now [] = []
cleanup_expired now (x ∷ s) =
    if ltb x.expires_at now then cleanup_expired now s else x ∷ cleanup_expired now s

abbrev pub has_email : Text → ProviderAccount → Bool
has_email email a = same_text a.email email

abbrev pub non_empty : Option Text → Option Text
non_empty none = none
non_empty (some t) = if is_empty t then none else some t

pub data Answer : Type 0 where
  -- The cookie's value, before it is encoded.
  logged_in : (provider_id : ℕ) → (token : Text) → Answer
  authorized : (provider_id : ℕ) → Answer
  unauthorized done uri_error : Answer

module _ (crypto : Crypto) (uri : Uri) where
  abbrev pub stored_hash : Option (ℕ × ProviderAccount) → Option (ℕ × Text)
  stored_hash none = none
  stored_hash (some (id, a)) = elim (non_empty a.password_hash) [
    | none ↦ none
    | some h ↦ some (id, h)
  ]

  abbrev pub check_password : Text → Option (ℕ × Text) → Option ℕ
  check_password password none = none
  check_password password (some (id, h)) =
      if verify_password crypto password h then some id else none

  -- The provider whose email and password these are.
  unfoldable pub authenticate : (email password : Option Text) → Table ProviderAccount → Option ℕ
  authenticate none password accounts = none
  authenticate (some email) password accounts =
      if is_empty (trim email) then none else elim (non_empty password) [
        | none ↦ none
        | some p ↦ check_password p (stored_hash (find_first (has_email (trim email)) accounts))
      ]

  abbrev pub create_session :
      (provider_id : ℕ) → (token : Text) → (now : ℕ) → List ProviderSession → List ProviderSession
  create_session provider_id token now s =
      record {
        provider_id = provider_id;
        token_hash = crypto.derive_token token;
        expires_at = now + day_ms;
      }
      ∷ s

  -- What a login does with the provider that it found.
  abbrev pub log_in :
      (token : Text) → (now : ℕ) → List ProviderSession → Option ℕ → Answer × List ProviderSession
  log_in token now s none = (unauthorized, s)
  log_in token now s (some id) = (logged_in id token, create_session id token now s)

  -- POST /auth/provider/login; `token` is what randomBytes(48) gives.
  unfoldable pub login :
      Table ProviderAccount
      → (email password : Option Text) → (token : Text) → (now : ℕ) → List ProviderSession
      → Answer × List ProviderSession
  login accounts email password token now s =
      log_in token now s (authenticate email password accounts)

  -- The token in the request's cookie; `some none` if it cannot be decoded.
  abbrev pub raw_token : Option Text → Option (Option Text)
  raw_token none = none
  raw_token (some v) = some (uri.decode v)

  abbrev pub admit : Option ℕ → Answer
  admit none = unauthorized
  admit (some id) = authorized id

  abbrev pub activate : (now : ℕ) → List ProviderSession → Option (Option Text) → Answer
  activate now s none = unauthorized
  activate now s (some none) = uri_error
  activate now s (some (some token)) =
      admit (find_provider_by_token_hash (crypto.derive_token token) now s)

  -- ProviderAuthGuard.canActivate
  unfoldable pub can_activate : (cookie : Text) → (now : ℕ) → List ProviderSession → Answer
  can_activate cookie now s = activate now s (raw_token (cookie_value session_cookie cookie))

  abbrev pub log_out : List ProviderSession → Option (Option Text) → Answer × List ProviderSession
  log_out s none = (done, s)
  log_out s (some none) = (uri_error, s)
  log_out s (some (some token)) = (done, revoke_session (crypto.derive_token token) s)

  -- POST /auth/provider/logout
  unfoldable pub logout : (cookie : Text) → List ProviderSession → Answer × List ProviderSession
  logout cookie s = log_out s (raw_token (cookie_value session_cookie cookie))
