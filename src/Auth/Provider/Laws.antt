-- ===== src/Auth/Provider/Laws.antt =====
-- What a statement on the sessions of providers does to the lookups after it.
use chronos_appointment_sche.Base.{
  ℕ, ◌≤◌, ◌≡◌, refl, sym, subst, Bool, true, false, none, List, [], ◌∷◌, ◌||◌, if◌then◌else◌, arith,
  Bool-cases, inl, inr,
}
use chronos_appointment_sche.Email.Token.{Text, same_text}
use chronos_appointment_sche.Email.Token.Laws.{same_text_eq}
use chronos_appointment_sche.Auth.Provider.{
  ProviderSession, find_provider_by_token_hash, revoke_session, cleanup_expired,
}

-- Two texts that a third is equal to.
pub same_text-left : (x h k : Text) → same_text x h ≡ true → same_text x k ≡ same_text h k
same_text-left x h k e = subst (λ y. same_text y k ≡ same_text h k) (sym (same_text_eq x h e)) refl

-- After a revocation of `hash` the lookups of it find nothing, and those of others what they found.
pub find-revoke_session :
    (hash k : Text) (t : ℕ) (s : List ProviderSession)
    → find_provider_by_token_hash k t (revoke_session hash s)
      ≡ (if same_text hash k then none else find_provider_by_token_hash k t s)
unfolding find_provider_by_token_hash revoke_session
find-revoke_session hash k t [] = ground arith
find-revoke_session hash k t (x ∷ s) = elim (Bool-cases (same_text x.token_hash hash)) [
  | inl e ↦ ground (arith, find-revoke_session hash k t s, same_text-left x.token_hash hash k e)
  | inr e ↦ elim (Bool-cases (same_text hash k)) [
    | inl f ↦ ground (
      arith,
      find-revoke_session hash k t s,
      subst (λ y. same_text x.token_hash y ≡ false) (same_text_eq hash k f) e,
    )
    | inr f ↦ ground (arith, find-revoke_session hash k t s)
  ]
]

-- A cleanup is not seen by any lookup from then on.
pub find-cleanup_expired :
    (now : ℕ) (k : Text) (t : ℕ) (s : List ProviderSession)
    → now ≤ t
    → find_provider_by_token_hash k t (cleanup_expired now s) ≡ find_provider_by_token_hash k t s
unfolding find_provider_by_token_hash cleanup_expired
find-cleanup_expired now k t [] h = refl
find-cleanup_expired now k t (x ∷ s) h = ground (arith, find-cleanup_expired now k t s h)

abbrev pub has_hash : Text → List ProviderSession → Bool
has_hash k [] = false
has_hash k (x ∷ s) = same_text x.token_hash k || has_hash k s

pub find_unknown :
    (k : Text) (t : ℕ) (s : List ProviderSession)
    → has_hash k s ≡ false
    → find_provider_by_token_hash k t s ≡ none
unfolding find_provider_by_token_hash
find_unknown k t [] h = refl
find_unknown k t (x ∷ s) h = ground (arith, find_unknown k t s)
