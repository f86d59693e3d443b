-- ===== src/Tests/Jobs.antt =====
-- The worker and the unsubscribe link.
use chronos_appointment_sche.Base.{
  ◌≡◌, refl, false, Option, some, none, [], ◌∷◌, arith, ◌+◌, ◌-◌, ◌/◌, ltb, if◌then◌else◌,
}
use chronos_appointment_sche.Schema.World.{World, err, check_violation}
use chronos_appointment_sche.Email.Gateway.{MailError}
use chronos_appointment_sche.Email.Token.{
  Text, Codec, Parsed, sign_token, verify_token, unsubscribe_reminders,
}
use chronos_appointment_sche.Email.Token.Laws.{
  has_dot, IsCodec, verify_token-sign_token, IsAuthentic, verify_token-IsAuthentic,
}
use chronos_appointment_sche.Reminders.Worker.{process, claim_due}
use chronos_appointment_sche.Reminders.Worker.Runs.{Ran}
use chronos_appointment_sche.Reminders.Worker.Once.{
  claimed, process-Ran, process_once, process_opted_out,
}
use chronos_appointment_sche.Reminders.Worker.Claims.{ClaimEnds, claim_due-ClaimEnds}
use chronos_appointment_sche.Reminders.Unsubscribed.{process_unsubscribed}
use chronos_appointment_sche.Tests.Data.{worker_env, world, tables, job_of, booking_of}

abbrev rate_limited : MailError
rate_limited = record { status_code = some 400; code = none; message = some "Rate limit hit" }

process-Ran_example :
    Ran worker_env 30 (job_of 20 99000000) world (process worker_env (some 30) world)
process-Ran_example = process-Ran worker_env 30 world {j = job_of 20 99000000} refl

process_once_example :
    (process worker_env (some 30) (process worker_env (some 30) world).1).1
    ≡ (process worker_env (some 30) world).1
unfolding process
process_once_example =
    process_once worker_env worker_env 30 world {j = job_of 20 99000000} refl refl

process_opted_out_example :
    process worker_env (some 31) world ≡ (err check_violation, claimed worker_env 31 world)
process_opted_out_example =
    process_opted_out worker_env 31 world refl refl refl refl refl refl refl (λ s. refl)

claim_due-ClaimEnds_example : ClaimEnds worker_env world (claim_due worker_env world)
claim_due-ClaimEnds_example = claim_due-ClaimEnds worker_env world

-- A codec: a code unit is shifted past the dot, and a payload is written as its three fields.
abbrev shift : Text → Text
shift [] = []
shift (c ∷ s) = (c + 47) ∷ shift s

abbrev unshift : Text → Text
unshift [] = []
unshift (c ∷ s) = (c - 47) ∷ unshift s

abbrev read_payload : Text → Option Parsed
read_payload [] = none
read_payload (c ∷ []) = none
read_payload (c ∷ e ∷ p) = some (record { sub = some c; purpose = some p; exp = some e })

abbrev toy : Codec
toy = record {
  hmac = λ s. 100 ∷ shift s;
  encode = shift;
  decode = unshift;
  bytes = λ s. s;
  stringify = λ p. p.sub ∷ p.exp ∷ p.purpose;
  parse = read_payload;
}

shift_dot : (s : Text) → has_dot (shift s) ≡ false
shift_dot [] = refl
shift_dot (c ∷ s) = ground (arith, shift_dot s)

unshift-shift : (s : Text) → unshift (shift s) ≡ s
unshift-shift [] = refl
unshift-shift (c ∷ s) = ground (arith, unshift-shift s)

toy-IsCodec : IsCodec toy
toy-IsCodec = record {
  encode_dot = shift_dot;
  hmac_dot = shift_dot;
  hmac_empty = λ s. refl;
  encode_empty = λ p. refl;
  decode-encode = unshift-shift;
  parse-stringify = λ p. refl;
}

verify_token-sign_token_example :
    verify_token toy (sign_token toy 7 5000) 6000
    ≡ (if ltb (5000 / 1000 + 604800) (6000 / 1000) then none else some 7)
verify_token-sign_token_example = verify_token-sign_token toy 7 5000 6000 toy-IsCodec

verifies : verify_token toy (sign_token toy 7 5000) 6000 ≡ some 7
unfolding verify_token sign_token
verifies = refl

verify_token-IsAuthentic_example : IsAuthentic toy (sign_token toy 7 5000) 6000 7
verify_token-IsAuthentic_example =
    verify_token-IsAuthentic toy (sign_token toy 7 5000) 6000 verifies

abbrev left : World
left = record world {
  tables = (unsubscribe_reminders toy (some (sign_token toy 7 5000)) 6000 tables).1;
}

process_unsubscribed_example : (process worker_env (some 30) left).1.effects ≡ left.effects
unfolding unsubscribe_reminders sign_token
process_unsubscribed_example =
    process_unsubscribed toy (sign_token toy 7 5000) 6000 tables worker_env 30 left
      {j = job_of 20 99000000} {b = booking_of 12 7} refl refl refl refl verifies
