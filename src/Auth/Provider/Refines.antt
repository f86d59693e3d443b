-- ===== src/Auth/Provider/Refines.antt =====
-- The sessions of providers as a book: which token stands for which provider, and until when.
use chronos_appointment_sche.Base.{
  ℕ, ◌+◌, ◌≤◌, ◌≡◌, refl, ap, ◌∙◌, subst, false, Option, none, some, List, [], ◌∷◌, if◌then◌else◌,
  ltb, arith, Bool-cases, inl, inr, Table,
}
use chronos_appointment_sche.Email.Token.{Text, same_text}
use chronos_appointment_sche.Email.Token.Laws.{same_text_eq}
use chronos_appointment_sche.Auth.{Crypto, Uri}
use chronos_appointment_sche.Auth.Cookie.{cookie_value}
use chronos_appointment_sche.Auth.Provider.{
  ProviderAccount, ProviderSession, find_provider_by_token_hash, cleanup_expired, Answer, logged_in,
  unauthorized, done, uri_error, authenticate, login, logout, can_activate, raw_token, log_in,
  log_out, activate, admit, session_cookie, day_ms,
}
use chronos_appointment_sche.Auth.Provider.Laws.{
  find-revoke_session, find-cleanup_expired, has_hash, find_unknown,
}

-- What a request asks, and when.
pub data Event : Type 0 where
  sign_in : (email password : Option Text) → (token : Text) → Event
  sign_out guard : (cookie : Text) → Event
  clean_up : Event

-- By the hash of a token: the provider, and the end of the session.
abbrev pub Book : Type 0
Book = Text → Option (ℕ × ℕ)

abbrev pub entry_at : (now : ℕ) → Option (ℕ × ℕ) → Option ℕ
entry_at now none = none
entry_at now (some (id, end)) = if ltb now end then some id else none

module _ (crypto : Crypto) (uri : Uri) (accounts : Table ProviderAccount) where
  unfoldable pub answer : Event → (now : ℕ) → List ProviderSession → Answer × List ProviderSession
  unfolding login logout can_activate
  answer (sign_in email password token) now s = login crypto uri accounts email password token now s
  answer (sign_out cookie) now s = logout crypto uri cookie s
  answer (guard cookie) now s = (can_activate crypto uri cookie now s, s)
  answer clean_up now s = (done, cleanup_expired now s)

  abbrev book_in : (token : Text) → (now : ℕ) → Book → Option ℕ → Answer × Book
  book_in token now b none = (unauthorized, b)
  book_in token now b (some id) = (
    logged_in id token,
    λ k. if same_text (crypto.derive_token token) k then some (id, now + day_ms) else b k,
  )

  abbrev book_out : Book → Option (Option Text) → Answer × Book
  book_out b none = (done, b)
  book_out b (some none) = (uri_error, b)
  book_out b (some (some token)) =
      (done, λ k. if same_text (crypto.derive_token token) k then none else b k)

  abbrev book_guard : (now : ℕ) → Book → Option (Option Text) → Answer
  book_guard now b none = unauthorized
  book_guard now b (some none) = uri_error
  book_guard now b (some (some token)) =
      admit crypto uri (entry_at now (b (crypto.derive_token token)))

  -- A book answers a login by an entry for a day, a logout by striking the token's entry, a guard by
  -- the entry, and a cleanup by nothing.
  unfoldable pub book_answer : Event → (now : ℕ) → Book → Answer × Book
  book_answer (sign_in email password token) now b =
      book_in token now b (authenticate crypto uri email password accounts)
  book_answer (sign_out cookie) now b =
      book_out b (raw_token crypto uri (cookie_value session_cookie cookie))
  book_answer (guard cookie) now b =
      (book_guard now b (raw_token crypto uri (cookie_value session_cookie cookie)), b)
  book_answer clean_up now b = (done, b)

  unfoldable pub run : List (ℕ × Event) → List ProviderSession → List Answer
  run [] s = []
  run ((now, e) ∷ es) s = let (a, s') = answer e now s in a ∷ run es s'

  unfoldable pub book_run : List (ℕ × Event) → Book → List Answer
  book_run [] b = []
  book_run ((now, e) ∷ es) b = let (a, b') = book_answer e now b in a ∷ book_run es b'

  -- The token of a login is new: no session has its hash.
  abbrev pub IsNew : Event → List ProviderSession → Type 0
  IsNew (sign_in email password token) s = has_hash (crypto.derive_token token) s ≡ false
  IsNew e s = Unit {0}

  -- Time does not run backwards, and each login draws a new token.
  abbrev pub IsTimely : (from : ℕ) → List (ℕ × Event) → List ProviderSession → Type 0
  IsTimely from [] s = Unit {0}
  IsTimely from ((now, e) ∷ es) s = (from ≤ now) × IsNew e s × IsTimely now es (answer e now s).1

  -- From `now` on, every token is good for the same provider in both.
  abbrev pub Agree : (now : ℕ) → List ProviderSession → Book → Type 0
  Agree now s b =
      (k : Text) (t : ℕ) → now ≤ t → find_provider_by_token_hash k t s ≡ entry_at t (b k)

  abbrev Both : (now : ℕ) → Answer × List ProviderSession → Answer × Book → Type 0
  Both now (a, s) (a', b) = (a ≡ a') × Agree now s b

  guard-same :
      (now : ℕ) (s : List ProviderSession) (b : Book) (o : Option (Option Text))
      → Agree now s b
      → activate crypto uri now s o ≡ book_guard now b o
  guard-same now s b none r = refl
  guard-same now s b (some none) r = refl
  guard-same now s b (some (some token)) r =
      ap (admit crypto uri) (r (crypto.derive_token token) now (omega arith))

  out-Both :
      (now : ℕ) (s : List ProviderSession) (b : Book) (o : Option (Option Text))
      → Agree now s b
      → Both now (log_out crypto uri s o) (book_out b o)
  out-Both now s b none r = (refl, r)
  out-Both now s b (some none) r = (refl, r)
  out-Both now s b (some (some token)) r = (
    refl,
    λ k t h. ground (arith, find-revoke_session (crypto.derive_token token) k t s, r k t h),
  )

  in-Both :
      (token : Text) (now : ℕ) (s : List ProviderSession) (b : Book) (o : Option ℕ)
      → has_hash (crypto.derive_token token) s ≡ false
      → Agree now s b
      → Both now (log_in crypto uri token now s o) (book_in token now b o)
  unfolding find_provider_by_token_hash
  in-Both token now s b none new r = (refl, r)
  in-Both token now s b (some id) new r = (
    refl,
    λ k t h. elim (Bool-cases (same_text (crypto.derive_token token) k)) [
      | inl e ↦ ground (
        arith,
        find_unknown k t s
            (subst (λ y. has_hash y s ≡ false) (same_text_eq (crypto.derive_token token) k e) new),
      )
      | inr e ↦ ground (arith, r k t h)
    ],
  )

  answer-Both :
      (e : Event) (now : ℕ) (s : List ProviderSession) (b : Book)
      → IsNew e s
      → Agree now s b
      → Both now (answer e now s) (book_answer e now b)
  unfolding answer book_answer login logout can_activate
  answer-Both clean_up now s b new r = (refl, λ k t h. find-cleanup_expired now k t s h ∙ r k t h)
  answer-Both (guard cookie) now s b new r =
      (guard-same now s b (raw_token crypto uri (cookie_value session_cookie cookie)) r, r)
  answer-Both (sign_out cookie) now s b new r =
      out-Both now s b (raw_token crypto uri (cookie_value session_cookie cookie)) r
  answer-Both (sign_in email password token) now s b new r =
      in-Both token now s b (authenticate crypto uri email password accounts) new r

  -- Logins, guards, logouts and cleanups in any order, at times that do not run backwards and with a
  -- new token at each login, are answered as by a book in which a login enters its token for a day
  -- and a logout strikes it; cleanups are not noticed. The table and the book may start in any
  -- state in which every token is good for the same provider from then on.
  pub run-book_run :
      (es : List (ℕ × Event)) (from : ℕ) (s : List ProviderSession) (b : Book)
      → IsTimely from es s
      → Agree from s b
      → run es s ≡ book_run es b
  unfolding run book_run
  run-book_run [] from s b timely r = refl
  run-book_run ((now, e) ∷ es) from s b (later, new, timely) r =
      let (same, r') = answer-Both e now s b new (λ k t h. r k t (omega arith)) in
      rw (same, run-book_run es now (answer e now s).1 (book_answer e now b).1 timely r') refl
