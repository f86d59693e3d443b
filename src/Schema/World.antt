-- ===== src/Schema/World.antt =====
-- What a handler acts on: the tables as its connection sees them, the tables at the last BEGIN,
-- and the effects made of the job queue so far. A statement that the database refuses raises.
use Prim.Native.String.{String}
use chronos_appointment_sche.Base.{
  ◌≡◌, refl, arith, by_run, ◌⊎◌, inl, inr, ℕ, Option, none, some, List, ◌++◌, ◌∷◌, [],
}
use chronos_appointment_sche.Schema.{Tables}

-- The codes that the handlers look at: 23505, 23P01, and those that they do not tell apart.
pub data PgError : Type 0 where
  unique_violation exclusion_violation foreign_key_violation check_violation : PgError
  other_error : ℕ → PgError

-- `reminder:${bookingId}:${offset}`
pub record JobId : Type 0 where
  pub booking_id : ℕ
  pub offset : ℕ

-- What a handler asks of the job queue and of the mail provider, and the release of a
-- client to the pool; the key of a mail is
-- `reminder/${booking.id}/${offset}`.
pub data Effect : Type 0 where
  add_job : JobId → (reminder_id delay_ms : ℕ) → Effect
  remove_job : JobId → Effect
  release_client : Effect
  send_mail : (key : JobId) → (to : String) → Effect

pub record World : Type 0 where
  pub tables : Tables
  pub saved : Option Tables
  pub effects : List Effect

pub data Result (A : Type 0) : Type 0 where
  ok : A → Result A
  err : PgError → Result A

abbrev pub M : Type 0 → Type 0
M A = World → Result A × World

module _ {A : Type 0} where
  abbrev pub pure : A → M A
  pure a w = (ok a, w)

  abbrev pub raise : PgError → M A
  raise e w = (err e, w)

  -- A statement that fails, on the wire or in the server, before it has any effect.
  abbrev pub attempt : Option PgError → M A → M A
  attempt none m w = m w
  attempt (some e) m w = (err e, w)

  -- SELECT: a function of the tables.
  abbrev pub gets : (Tables → A) → M A
  gets f w = (ok (f w.tables), w)

  -- `try { m } catch (e) { h }`
  abbrev pub catch : M A → (PgError → M A) → M A
  catch m h w = let (r, w') = m w in elim r [ ok a ↦ (ok a, w') | err e ↦ h e w' ]

  -- `try { m } finally { f }`
  abbrev pub finally : M A → M (Unit {0}) → M A
  finally m f w =
      let (r, w') = m w in
      let (r', w'') = f w' in elim r' [ ok u ↦ (r, w'') | err e ↦ (err e, w'') ]

infixl 5 ◌>>=◌ ◌>>◌
abbrev pub ◌>>=◌ : {A B : Type 0} → M A → (A → M B) → M B
◌>>=◌ m f w = let (r, w') = m w in elim r [ ok a ↦ f a w' | err e ↦ (err e, w') ]

abbrev pub ◌>>◌ : {B : Type 0} → M (Unit {0}) → M B → M B
m >> k = m >>= λ _. k

abbrev pub modify : (Tables → Tables) → M (Unit {0})
modify f w = (ok tt, record w { tables = f w.tables })

abbrev pub emit : Effect → M (Unit {0})
emit c w = (ok tt, record w { effects = w.effects ++ c ∷ [] })

-- The statements of a handler go to one connection, or each to any idle one of the pool. In the
-- second case the server runs each as a transaction of its own, and ROLLBACK finds none to undo.
pub data Connection : Type 0 where
  one_client scattered : Connection

abbrev pub begin : Connection → M (Unit {0})
begin one_client w = (ok tt, record w { saved = some w.tables })
begin scattered w = (ok tt, w)

abbrev pub commit : M (Unit {0})
commit w = (ok tt, record w { saved = none })

-- With no transaction open ROLLBACK is a warning.
abbrev pub rollback : M (Unit {0})
rollback w = elim w.saved [
  | none ↦ (ok tt, w)
  | some t ↦ (ok tt, record w { tables = t; saved = none })
]

-- Statements between BEGIN and COMMIT with no handler of their own: the first that fails aborts the
-- open transaction, and the server undoes it, also where the code sends no ROLLBACK.
abbrev pub aborting : {A : Type 0} → M A → M A
aborting m = catch m (λ e. rollback >> raise e)

-- The world `w`, with the reminder jobs and the effects of `w'`.
abbrev pub with_queue : World → World → World
with_queue w w' = record w {
  tables = record (w.tables) { reminder_jobs = w'.tables.reminder_jobs };
  effects = w'.effects;
}

pub Result-cases :
    {A : Type 0} (r : Result A) → ((a : A) × (r ≡ ok a)) ⊎ ((e : PgError) × (r ≡ err e))
Result-cases (ok a) = inl (a, refl)
Result-cases (err e) = inr (e, refl)

-- What the first part of a computation brings about and the second keeps.
pub >>=-keeps :
    {A B : Type 0} (P : World → Type 0) (m : M A) (f : A → M B) (w : World)
    → P (m w).1
    → ((a : A) (v : World) → P v → P (f a v).1)
    → P ((m >>= f) w).1
>>=-keeps {A} {B} P m f w first then = elim (Result-cases (m w).0) [
  | inl (a, e) ↦
      by_run (λ out. P out.1) ((m >>= f) w) (f a (m w).1) (ground arith) (then a (m w).1 first)
  | inr (x, e) ↦ by_run (λ out. P out.1) ((m >>= f) w) (err x, (m w).1) (ground arith) first
]
