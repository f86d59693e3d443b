-- ===== src/Email/Token.antt =====
-- apps/api/src/email/unsubscribe.token.ts and unsubscribe.controller.ts. HMAC, base64url and JSON are
-- outside the repository: they are arguments. A text is its list of code units; a client id is a
-- number, which stands for a text that is not empty.
pub mod Laws
use chronos_appointment_sche.Base.{
  ℕ, ◌+◌, ◌/◌, Bool, true, false, Option, none, some, List, [], ◌∷◌, ◌++◌, ltb, ◌==◌, ◌&&◌, not,
  if◌then◌else◌, Table, lookup, adjust,
}
use chronos_appointment_sche.Schema.{Tables, Client}
use chronos_appointment_sche.Email.Gateway.{codes}

abbrev pub Text : Type 0
Text = List ℕ

pub record Payload : Type 0 where
  pub sub : ℕ
  pub purpose : Text
  pub exp : ℕ

-- What JSON.parse gave, by the checks that follow: a field is `none` if it is absent or of another
-- type, or an empty `sub`.
pub record Parsed : Type 0 where
  pub sub : Option ℕ
  pub purpose : Option Text
  pub exp : Option ℕ

pub record Codec : Type 0 where
  -- The signature of a payload under the secret, in base64url.
  pub hmac : Text → Text
  pub encode : Text → Text
  pub decode : Text → Text
  -- The bytes of a base64url text.
  pub bytes : Text → List ℕ
  pub stringify : Payload → Text
  -- `none`: the parse throws, or gives no object.
  pub parse : Text → Option Parsed

abbrev pub purpose_text : Text
purpose_text = codes "reminder-unsubscribe"

abbrev pub dot : ℕ
dot = 46

-- The text before the first dot, and the one after it up to the next.
abbrev pub before_dot : Text → Text
before_dot [] = []
before_dot (c ∷ s) = if c == dot then [] else c ∷ before_dot s

abbrev pub after_dot : Text → Text
after_dot [] = []
after_dot (c ∷ s) = if c == dot then s else after_dot s

abbrev pub is_empty : Text → Bool
is_empty [] = true
is_empty (c ∷ s) = false

abbrev pub same_text : List ℕ → List ℕ → Bool
same_text [] [] = true
same_text [] (d ∷ t) = false
same_text (c ∷ s) [] = false
same_text (c ∷ s) (d ∷ t) = c == d && same_text s t

abbrev pub same_length : List ℕ → List ℕ → Bool
same_length [] [] = true
same_length [] (d ∷ t) = false
same_length (c ∷ s) [] = false
same_length (c ∷ s) (d ∷ t) = same_length s t

abbrev pub is_purpose : Option Text → Bool
is_purpose none = false
is_purpose (some p) = same_text p purpose_text

-- The checks of the parsed payload; `now` is in milliseconds.
abbrev pub checked : ℕ → Parsed → Option ℕ
checked now p =
    if not (is_purpose p.purpose)
    then none
    else elim p.exp [ none ↦ none | some e ↦ if ltb e (now / 1000) then none else p.sub ]

module _ (codec : Codec) where
  unfoldable pub sign_token : (client now : ℕ) → Text
  sign_token client now =
      let payload =
        codec.stringify
          (record { sub = client; purpose = purpose_text; exp = now / 1000 + 604800 }) in
      codec.encode payload ++ dot ∷ codec.hmac payload

  -- The client id of the payload. timingSafeEqual throws on lengths that differ, which is caught.
  unfoldable pub verify_token : (token : Text) → (now : ℕ) → Option ℕ
  verify_token token now =
      let b64 = before_dot token in
      let sig = before_dot (after_dot token) in
      let payload = codec.decode b64 in
      let expected = codec.hmac payload in
      if is_empty b64
      then none
      else if is_empty sig
      then none
      else if not (same_length sig expected)
      then none
      else if not (same_text (codec.bytes sig) (codec.bytes expected))
      then none
      else elim (codec.parse payload) [ none ↦ none | some p ↦ checked now p ]

-- The answers of GET /unsubscribe/reminders.
pub data Answer : Type 0 where
  invalid_request invalid_link client_not_found unsubscribed : Answer

unfoldable pub unsubscribe_reminders : Codec → Option Text → (now : ℕ) → Tables → Answer × Tables
unfolding verify_token
unsubscribe_reminders codec none now t = (invalid_request, t)
unsubscribe_reminders codec (some token) now t =
    if is_empty token then (invalid_request, t) else elim (verify_token codec token now) [
      | none ↦ (invalid_link, t)
      | some id ↦ elim (lookup id t.clients) [
        | none ↦ (client_not_found, t)
        | some _ ↦ (
          unsubscribed,
          record t { clients = adjust id (λ c. record c { reminders_opt_out = true }) t.clients },
        )
      ]
    ]
