-- ===== src/Reminders/Worker/Claims.antt =====
-- Which job claimDue takes.
use chronos_appointment_sche.Base.{
  ℕ, ◌+◌, ◌≤◌, ◌≡◌, refl, ◌≢◌, by_run, Bool, true, false, Option, none, some, [], ◌∷◌, arith,
  Option-cases, Bool-cases, ◌⊎◌, inl, inr, subst, ◌&&◌, lookup, Table, leb,
}
use chronos_appointment_sche.Schema.{ReminderJob}
use chronos_appointment_sche.Reminders.Worker.Once.{claimed}
use chronos_appointment_sche.Schema.World.{World, Result, ok, err}
use chronos_appointment_sche.Reminders.Worker.{
  Env, claim_due, earliest, is_claimable, claimed_until, lock_duration_ms, claim,
}

earliest-claimable :
    (p : ReminderJob → Bool) (t : Table ReminderJob) {i : ℕ} {j : ReminderJob}
    → earliest p t ≡ some (i, j)
    → p j ≡ true
unfolding earliest
earliest-claimable p [] h = ground arith
earliest-claimable p ((a, b) ∷ t) {i} {j} h = elim (Option-cases (earliest p t)) [
  | inl e ↦ ground arith
  | inr ((k, l), e) ↦ ground (arith, earliest-claimable p t e)
]

-- Row `i` of the table is `j`.
abbrev pub IsRow : ℕ → ReminderJob → Table ReminderJob → Type 0
IsRow i j [] = ⊥
IsRow i j ((a, b) ∷ t) = ((i ≡ a) × (j ≡ b)) ⊎ IsRow i j t

earliest-IsRow :
    (p : ReminderJob → Bool) (t : Table ReminderJob) {i : ℕ} {j : ReminderJob}
    → earliest p t ≡ some (i, j)
    → IsRow i j t
unfolding earliest
earliest-IsRow p [] h = ground arith
earliest-IsRow p ((a, b) ∷ t) {i} {j} h = elim (Option-cases (earliest p t)) [
  | inl e ↦ inl (ground arith, ground arith)
  | inr ((k, l), e) ↦ elim (Bool-cases (p b && leb b.fire_at_utc l.fire_at_utc)) [
    | inl q ↦ inl (ground arith, ground arith)
    | inr q ↦
        inr (subst (λ (u : ℕ × ReminderJob). IsRow u.0 u.1 t) (ground arith) (earliest-IsRow p t e))
  ]
]

earliest-some :
    (p : ReminderJob → Bool) (t : Table ReminderJob) (k : ℕ) {l : ReminderJob}
    → lookup k t ≡ some l
    → p l ≡ true
    → earliest p t ≢ none
unfolding earliest
earliest-some p [] k found h = ground arith
earliest-some p ((a, b) ∷ t) k {l} found h = elim (Option-cases (earliest p t)) [
  | inl e ↦ ground (arith, earliest-some p t k {l = l})
  | inr ((i, j), e) ↦ ground arith
]

-- None that satisfies `p` fires earlier than the row taken.
earliest-least :
    (p : ReminderJob → Bool) (t : Table ReminderJob) {i : ℕ} {j : ReminderJob} (k : ℕ)
    {l : ReminderJob}
    → earliest p t ≡ some (i, j)
    → lookup k t ≡ some l
    → p l ≡ true
    → j.fire_at_utc ≤ l.fire_at_utc
unfolding earliest
earliest-least p [] k h found q = ground arith
earliest-least p ((a, b) ∷ t) {i} {j} k {l} h found q = elim (Option-cases (earliest p t)) [
  | inl e ↦ ground (arith, earliest-some p t k {l = l})
  | inr ((m, n), e) ↦ ground (arith, earliest-least p t k {l = l} e)
]

-- How claimDue ends: no job may be claimed, or one that may was taken that fires no later than
-- any other that may, and only its row changed.
abbrev pub ClaimEnds : Env → World → Result (Option (ℕ × ReminderJob)) × World → Type 0
ClaimEnds env w (err e, w') = w' ≡ w
ClaimEnds env w (ok none, w') =
    (w' ≡ w)
    × ((k : ℕ) (l : ReminderJob)
        → lookup k w.tables.reminder_jobs ≡ some l
        → is_claimable env.now l ≡ false)
ClaimEnds env w (ok (some (i, c)), w') =
    (j : ReminderJob) × IsRow i j w.tables.reminder_jobs
    × (is_claimable env.now j ≡ true)
    × (c ≡ claimed_until (env.now + lock_duration_ms) j)
    × (w' ≡ claimed env i w)
    × ((k : ℕ) (l : ReminderJob)
        → lookup k w.tables.reminder_jobs ≡ some l
        → is_claimable env.now l ≡ true
        → j.fire_at_utc ≤ l.fire_at_utc)

-- claimDue either raises and changes nothing; or finds no job, changes nothing, and no job is
-- scheduled or has an expired lock; or answers such a job with the earliest fire time of all such
-- jobs, now sending, locked for two minutes, with its attempts counted up, and changes that row only.
pub claim_due-ClaimEnds : (env : Env) (w : World) → ClaimEnds env w (claim_due env w)
unfolding claim_due
claim_due-ClaimEnds env w =
    let p = is_claimable env.now in
    let jobs = w.tables.reminder_jobs in
    elim (Option-cases (env.fails claim)) [
      | inr (x, e) ↦ by_run (ClaimEnds env w) (claim_due env w) (err x, w) (ground arith) refl
      | inl e ↦ elim (Option-cases (earliest p jobs)) [
        | inl n ↦
            by_run (ClaimEnds env w) (claim_due env w) (ok none, w) (ground arith)
              (
                refl,
                λ k l found. elim (Bool-cases (p l)) [
                  | inl h ↦ absurd (earliest-some p jobs k found h n)
                  | inr h ↦ h
                ],
              )
        | inr ((i, j), n) ↦
            by_run (ClaimEnds env w) (claim_due env w)
              (ok (some (i, claimed_until (env.now + lock_duration_ms) j)), claimed env i w)
              (ground arith)
              (
                j,
                earliest-IsRow p jobs n,
                earliest-claimable p jobs n,
                refl,
                refl,
                λ k l found h. earliest-least p jobs k n found h,
              )
      ]
    ]
