-- ===== src/Auth/Client.antt =====
-- apps/api/src/auth/auth.controller.ts and auth.guard.ts: the client's session cookie is the id of the
-- client's row.
use chronos_appointment_sche.Base.{
  ◌≡◌, ap, Bool, false, Option, none, some, List, [], ◌∷◌, ◌++◌, ◌&&◌, not, if◌then◌else◌,
}
use chronos_appointment_sche.Email.Token.{Text, is_empty, same_text}
use chronos_appointment_sche.Email.Gateway.{codes}
use chronos_appointment_sche.Email.Templates.{trim}
use chronos_appointment_sche.Auth.Cookie.{cookie_value, cookie_value-alone, has, semicolon}

pub record ClientAccount : Type 0 where
  pub id : Text
  pub email : Text

pub data Answer : Type 0 where
  -- The cookie's value.
  logged_in : (session : Text) → Answer
  email_required invalid_email unauthorized : Answer
  -- `req.user` is set.
  user dev_user : (id : Text) → Answer

-- The environment's NO_REAL_AUTH and NODE_ENV.
pub record Settings : Type 0 where
  pub no_real_auth : Bool
  pub is_production : Bool

abbrev pub session_cookie : Text
session_cookie = codes "chronos_session="

abbrev pub with_email : Text → List ClientAccount → Option ClientAccount
with_email email [] = none
with_email email (c ∷ cs) = if same_text c.email email then some c else with_email email cs

abbrev pub session_of : Option ClientAccount → Answer
session_of none = invalid_email
session_of (some c) = logged_in c.id

-- POST /auth/login
unfoldable pub login : List ClientAccount → (email : Option Text) → Answer
login clients none = email_required
login clients (some email) =
    if is_empty (trim email) then email_required else session_of (with_email (trim email) clients)

abbrev pub user_of : Settings → Option Text → Answer
user_of settings none =
    if settings.no_real_auth && not settings.is_production
    then dev_user (codes "dev-user")
    else unauthorized
user_of settings (some session) = user session

-- AuthGuard.canActivate
unfoldable pub can_activate : Settings → (cookie : Text) → Answer
can_activate settings cookie = user_of settings (cookie_value session_cookie cookie)

-- The guard admits whoever sends a client's id as the cookie, for every id that is not empty and
-- has no semicolon, in every environment: no login, secret or expiry is asked for.
pub can_activate_any :
    (settings : Settings) (id : Text)
    → is_empty id ≡ false
    → has semicolon id ≡ false
    → can_activate settings (session_cookie ++ id) ≡ user id
unfolding can_activate
can_activate_any settings id full clean =
    ap (user_of settings) (cookie_value-alone 99 (codes "hronos_session=") id full clean)
