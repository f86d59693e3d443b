-- ===== src/Auth.antt =====
-- apps/api/src/auth: passwords, the sessions of providers and admins, and the client's cookie. scrypt,
-- base64 and the percent encoding of a cookie are outside the repository: they are arguments, and so
-- are the random bytes of a token or a salt. A statement of Prisma that fails ends a request with
-- its error and is left out; each request makes at most one change, its last statement.
pub mod Cookie
pub mod Password
pub mod Provider
pub mod Admin
pub mod Client
use chronos_appointment_sche.Base.{Option}
use chronos_appointment_sche.Email.Token.{Text}

pub record Crypto : Type 0 where
  -- scrypt(secret, Buffer.from(salt, 'base64'), 32), in base64.
  pub derive : (secret salt : Text) → Text
  -- scrypt(token, 'provider_session_salt', 32), in base64.
  pub derive_token : Text → Text

-- encodeURIComponent and decodeURIComponent, which throws on a text that is not well formed.
pub record Uri : Type 0 where
  pub encode : Text → Text
  pub decode : Text → Option Text
