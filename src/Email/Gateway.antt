-- ===== src/Email/Gateway.antt =====
-- apps/api/src/email/email.gateway.ts: the class EmailGateway. The Resend client is outside the
-- repository: what it answers is an argument. A text is walked as its list of code points.
pub mod Laws
use Prim.Native.Char.{code}
use Prim.Native.String.{String, ◌++◌}
use chronos_appointment_sche.Base.{
  ℕ, ◌+◌, Bool, true, false, Option, none, some, List, [], ◌∷◌, map, ltb, leb, ◌==◌, ◌&&◌, ◌||◌,
  not, if◌then◌else◌,
}
use chronos_appointment_sche.Schema.World.{M, JobId, send_mail, pure, emit, ◌>>=◌, ◌>>◌}

-- The network codes that are compared, and any other.
pub data NetworkCode : Type 0 where
  econnrefused etimedout enotfound other_code : NetworkCode

-- The fields of a Resend or network error that the gateway reads.
pub record MailError : Type 0 where
  pub status_code : Option ℕ
  pub code : Option NetworkCode
  pub message : Option String

-- What `emails.send` does: it answers an id, or an error as a value, or throws.
pub data Answer : Type 0 where
  delivered : Option String → Answer
  refused thrown : MailError → Answer

pub data ErrorKind : Type 0 where
  transient permanent configuration : ErrorKind

-- `SendResult`, or the EmailError that is thrown.
pub data SendResult : Type 0 where
  sent_as : String → SendResult
  email_error : ErrorKind → String → SendResult

abbrev pub codes : String → List ℕ
codes String.[] = []
codes (String.◌∷◌ c s) = code c ∷ codes s

-- toLowerCase, as far as the searched words can tell: A to Z, and the Kelvin sign.
abbrev pub to_lower : ℕ → ℕ
to_lower c = if leb 65 c && leb c 90 then c + 32 else if c == 8490 then 107 else c

abbrev pub starts_with : List ℕ → List ℕ → Bool
starts_with s [] = true
starts_with [] (c ∷ p) = false
starts_with (d ∷ s) (c ∷ p) = c == d && starts_with s p

unfoldable pub includes : List ℕ → List ℕ → Bool
includes [] p = starts_with [] p
includes (d ∷ s) p = starts_with (d ∷ s) p || includes s p

abbrev pub transient_words : List String
transient_words =
    "rate limit" ∷ "too many requests" ∷ "timeout" ∷ "network" ∷ "503" ∷ "502" ∷ "504" ∷ []

unfoldable pub includes_any : List ℕ → List String → Bool
unfolding includes
includes_any s [] = false
includes_any s (p ∷ ps) = includes s (codes p) || includes_any s ps

abbrev pub is_transient_status : Option ℕ → Bool
is_transient_status none = false
is_transient_status (some n) = n == 429 || leb 500 n

abbrev pub is_network_code : Option NetworkCode → Bool
is_network_code none = false
is_network_code (some other_code) = false
is_network_code (some _) = true

abbrev pub lower_message : Option String → List ℕ
lower_message none = []
lower_message (some s) = map to_lower (codes s)

unfoldable pub is_transient_error : MailError → Bool
unfolding includes_any
is_transient_error err =
    is_transient_status err.status_code
    || (is_network_code err.code || includes_any (lower_message err.message) transient_words)

-- `${err.message}`
abbrev pub text_of : Option String → String
text_of none = "undefined"
text_of (some s) = s

abbrev pub id_or_unknown : Option String → String
id_or_unknown none = "unknown"
id_or_unknown (some s) = s

abbrev pub result_of : Answer → SendResult
result_of (delivered id) = sent_as (id_or_unknown id)
result_of (refused err) =
    email_error (if is_transient_error err then transient else permanent)
      ("Resend error: " ++ text_of err.message)
result_of (thrown err) =
    if is_transient_error err
    then email_error transient ("Transient email error: " ++ text_of err.message)
    else email_error permanent ("Permanent email error: " ++ text_of err.message)

-- The gateway, and what the provider will answer to each key.
pub record Gateway : Type 0 where
  pub is_configured : Bool
  pub answer : JobId → Answer

unfoldable pub send : Gateway → (to : String) → (idempotency_key : JobId) → M SendResult
send g to key =
    if g.is_configured
    then (do emit (send_mail key to); pure (result_of (g.answer key)))
    else pure (email_error configuration "Email gateway not configured: EMAIL_API_KEY is missing")

pub record Health : Type 0 where
  pub configured : Bool
  pub reachable : Bool

unfoldable pub health_check : Gateway → Health
health_check g =
    if g.is_configured
    then record { configured = true; reachable = false }
    else record { configured = false; reachable = false }
