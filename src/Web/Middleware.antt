-- ===== src/Web/Middleware.antt =====
-- apps/web/src/middleware.ts: the function; which paths it is run on (its matcher) is left out.
use Prim.Native.String.{String}
use chronos_appointment_sche.Base.{
  Bool, false, Option, none, some, List, [], ◌∷◌, ◌||◌, if◌then◌else◌,
}
use chronos_appointment_sche.Email.Token.{Text, same_text}
use chronos_appointment_sche.Email.Gateway.{codes, starts_with}

pub data Response : Type 0 where
  next : Response
  redirect : (pathname from : Text) → Response

abbrev pub public_paths : List String
public_paths = "/login" ∷ "/auth/" ∷ "/book" ∷ "/search" ∷ []

-- `publicPaths.some(p => pathname === p || pathname.startsWith(p))`
abbrev some_path : Text → List String → Bool
some_path pathname [] = false
some_path pathname (p ∷ ps) =
    same_text pathname (codes p) || starts_with pathname (codes p) || some_path pathname ps

unfoldable pub middleware : (pathname : Text) → (session : Option Text) → Response
middleware pathname none =
    if some_path pathname public_paths then next else redirect (codes "/login") pathname
middleware pathname (some session) = next

-- The pages under apps/web/src/app that show the data of an account, all but /bookings.
abbrev pub private_pages : List String
private_pages =
    "/analytics" ∷ "/appointments" ∷ "/availability" ∷ "/billing" ∷ "/calendar" ∷ "/clients"
    ∷ "/dashboard" ∷ "/event-types" ∷ "/reports" ∷ "/settings" ∷ []

-- The pages that anybody opens.
abbrev pub open_pages : List String
open_pages = "/login" ∷ "/book/" ∷ "/search" ∷ []

-- What holds of each text of a list.
abbrev pub Each : (String → Type 0) → List String → Type 0
Each P [] = Unit {0}
Each P (p ∷ ps) = P p × Each P ps
