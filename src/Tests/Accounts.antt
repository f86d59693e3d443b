-- ===== src/Tests/Accounts.antt =====
-- Passwords and sessions. In place of scrypt stands the text itself, in place of the percent encoding
-- none.
use chronos_appointment_sche.Base.{
  ℕ, ◌≡◌, refl, true, false, none, some, List, [], ◌∷◌, ◌++◌, arith, Table,
}
use chronos_appointment_sche.Email.Token.{Text, same_text}
use chronos_appointment_sche.Email.Gateway.{codes}
use chronos_appointment_sche.Auth.{Crypto, Uri}
use chronos_appointment_sche.Auth.Cookie.{cookie_value}
use chronos_appointment_sche.Auth.Password.{
  hash_password, verify_password, verify_password-hash_password,
}
use chronos_appointment_sche.Auth.Provider
use chronos_appointment_sche.Auth.Provider.{ProviderAccount}
use chronos_appointment_sche.Auth.Provider.Refines.{
  Event, sign_in, sign_out, guard, clean_up, answer, run, book_run, run-book_run,
}
use chronos_appointment_sche.Auth.Admin
use chronos_appointment_sche.Auth.Admin.Laws.{Attempt, logins, can_activate-logins}
use chronos_appointment_sche.Auth.Client
use chronos_appointment_sche.Auth.Client.{can_activate_any}

abbrev plain : Crypto
plain = record { derive = λ secret salt. secret; derive_token = λ token. token }

abbrev plain_uri : Uri
plain_uri = record { encode = λ t. t; decode = λ t. some t }

refuses_malformed : verify_password plain (codes "x") (codes "scrypt::") ≡ false
unfolding verify_password
refuses_malformed = refl

verify_password-hash_password_example :
    (verify_password plain (codes "wrong") (hash_password plain (codes "c2FsdA") (codes "secret"))
      ≡ same_text (codes "wrong") (codes "secret"))
    × (verify_password plain
          (codes "secret")
          (hash_password plain (codes "c2FsdA") (codes "secret"))
        ≡ true)
verify_password-hash_password_example =
    verify_password-hash_password plain (codes "c2FsdA") (codes "secret") (codes "wrong") refl refl
      refl refl

abbrev accounts : Table ProviderAccount
accounts =
    (1, record { email = codes "p@x"; password_hash = some (codes "scrypt:c2FsdA:secret") }) ∷ []

abbrev cookie : Text
cookie = codes "a=b; chronos_provider_session=tok1"

abbrev day : List (ℕ × Event)
day =
    (1000, sign_in (some (codes " p@x ")) (some (codes "secret")) (codes "tok1"))
    ∷ (2000, guard cookie)
    ∷ (3000, sign_in (some (codes "p@x")) (some (codes "secret")) (codes "tok2"))
    ∷ (86401000, guard cookie)
    ∷ (86402000, clean_up)
    ∷ (86402000, guard (codes "chronos_provider_session=tok2"))
    ∷ (86402001, sign_out (codes "chronos_provider_session=tok2"))
    ∷ (86402002, guard (codes "chronos_provider_session=tok2"))
    ∷ []

answers :
    run plain plain_uri accounts day []
    ≡ Provider.logged_in 1 (codes "tok1")
      ∷ Provider.authorized 1
      ∷ Provider.logged_in 1 (codes "tok2")
      ∷ Provider.unauthorized
      ∷ Provider.done
      ∷ Provider.authorized 1
      ∷ Provider.done
      ∷ Provider.unauthorized
      ∷ []
unfolding run answer Provider.authenticate cookie_value verify_password
    Provider.find_provider_by_token_hash Provider.cleanup_expired Provider.revoke_session
answers = refl

run-book_run_example :
    run plain plain_uri accounts day [] ≡ book_run plain plain_uri accounts day (λ k. none)
unfolding answer Provider.authenticate cookie_value verify_password
    Provider.find_provider_by_token_hash Provider.cleanup_expired Provider.revoke_session
run-book_run_example =
    run-book_run plain plain_uri accounts day 0 [] (λ k. none)
      (
        omega arith,
        refl,
        (
          omega arith,
          tt,
          (
            omega arith,
            refl,
            (
              omega arith,
              tt,
              (omega arith, tt, (omega arith, tt, (omega arith, tt, (omega arith, tt, tt)))),
            ),
          ),
        ),
      )
      (λ k t h. refl)

abbrev attempts : List (Attempt plain)
attempts =
    record {
      email = some (codes "admin@x");
      password = some (codes "secret");
      salt = codes "salt1";
      token = codes "tok1";
      now = 1000;
    }
    ∷ []

abbrev admins : Table Admin.Admin
admins =
    (1, record { email = codes "admin@x"; password_hash = some (codes "scrypt:c2FsdA:secret") })
    ∷ []

can_activate-logins_example :
    (Admin.can_activate plain
        (codes "salt2")
        (codes "chronos_admin_session=tok1")
        2000
        (logins plain admins attempts)
      ≡ Admin.unauthorized)
    × ((Admin.logout plain
          (codes "salt2")
          (codes "chronos_admin_session=tok1")
          (logins plain admins attempts)).1
        ≡ logins plain admins attempts)
can_activate-logins_example =
    can_activate-logins plain admins attempts (codes "salt2") (codes "chronos_admin_session=tok1")
      2000 refl (refl, refl, tt)

admits_any_id :
    Client.can_activate
      (record { no_real_auth = false; is_production = true })
      (Client.session_cookie ++ codes "7")
    ≡ Client.user (codes "7")
unfolding Client.can_activate cookie_value
admits_any_id = refl
