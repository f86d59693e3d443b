-- ===== src/Web/Forward.antt =====
-- apps/web/src/app/api/appointments/route.ts: PATCH, as the request that it sends to the API.
use chronos_appointment_sche.Base.{
  ℕ, ◌≡◌, refl, if_ind, subst, Option, none, some, List, [], ◌∷◌, ◌==◌, if◌then◌else◌,
}
use chronos_appointment_sche.Email.Token.{Text, is_empty, same_text}
use chronos_appointment_sche.Email.Gateway.{codes}
use chronos_appointment_sche.Auth.Password.{split}

-- The body of the request, as far as it is forwarded.
pub record Body : Type 0 where
  pub action : Option Text
  pub new_slot_id : Option ℕ
  pub idempotency_key : Option ℕ
  pub version : Option ℕ
  pub if_match : Option ℕ
  pub cancellation_window_hours : Option ℕ

-- The request to the API, under /bookings/:id.
pub data Call : Type 0 where
  post_confirm post_decline : (id : Text) → Call
  post_cancel : (id : Text) → (if_match : ℕ) → Call
  post_reschedule :
      (id : Text)
      → (new_slot_id idempotency_key version if_match cancellation_window_hours : Option ℕ) → Call

abbrev pub id_of : Call → Text
id_of (post_confirm id) = id
id_of (post_decline id) = id
id_of (post_cancel id m) = id
id_of (post_reschedule id s k v m h) = id

pub data Patched : Type 0 where
  missing_id_or_action unknown_action : Patched
  forwards : Call → Patched

abbrev pub slash : ℕ
slash = 47

-- `.filter(Boolean).pop()`
abbrev pub later : Text → Option Text → Option Text
later t none = if is_empty t then none else some t
later t (some u) = some u

abbrev pub last_full : List Text → Option Text
last_full [] = none
last_full (t ∷ ts) = later t (last_full ts)

unfoldable pub id_in : (pathname : Text) → Option Text
id_in pathname = last_full (split slash pathname)

-- `body.ifMatch || body.version || 1`: 0 counts as absent.
abbrev pub or_number : Option ℕ → ℕ → ℕ
or_number none d = d
or_number (some n) d = if n == 0 then d else n

-- `body.ifMatch ?? body.version`
abbrev pub or_version : Option ℕ → Option ℕ → Option ℕ
or_version none v = v
or_version (some m) v = some m

abbrev pub forwarded : (id action : Text) → Body → Patched
forwarded id action body =
    if same_text action (codes "confirm")
    then forwards (post_confirm id)
    else if same_text action (codes "decline")
    then forwards (post_decline id)
    else if same_text action (codes "cancel")
    then forwards (post_cancel id (or_number body.if_match (or_number body.version 1)))
    else if same_text action (codes "reschedule")
    then forwards (
        post_reschedule id body.new_slot_id body.idempotency_key body.version
          (or_version body.if_match body.version) body.cancellation_window_hours)
    else unknown_action

abbrev pub with_action : Body → Text → Option Text → Patched
with_action body id none = missing_id_or_action
with_action body id (some a) = if is_empty a then missing_id_or_action else forwarded id a body

abbrev pub with_id : Body → Option Text → Patched
with_id body none = missing_id_or_action
with_id body (some id) = with_action body id body.action

-- PATCH
unfoldable pub patch : (pathname : Text) → Body → Patched
unfolding id_in
patch pathname body = with_id body (id_in pathname)

abbrev pub own_path : Text
own_path = codes "/api/appointments"

-- What is forwarded for an id goes to this id.
abbrev GoesTo : Text → Patched → Type 0
GoesTo id (forwards c) = id_of c ≡ id
GoesTo id p = Unit {0}

forwarded-GoesTo : (id action : Text) (body : Body) → GoesTo id (forwarded id action body)
forwarded-GoesTo id action body =
    if_ind (GoesTo id) (same_text action (codes "confirm")) (λ e. refl)
      λ e.
        if_ind (GoesTo id) (same_text action (codes "decline")) (λ e. refl)
          λ e.
            if_ind (GoesTo id) (same_text action (codes "cancel")) (λ e. refl)
              λ e. if_ind (GoesTo id) (same_text action (codes "reschedule")) (λ e. refl) (λ e. tt)

with_action-GoesTo : (body : Body) (id : Text) (o : Option Text) → GoesTo id (with_action body id o)
with_action-GoesTo body id none = tt
with_action-GoesTo body id (some a) =
    if_ind (GoesTo id) (is_empty a) (λ e. tt) (λ e. forwarded-GoesTo id a body)

-- Under the route's own path, every request that is forwarded goes to the booking whose id is the word
-- 'appointments', whatever its body says: the id is read from the path's last part.
pub patch-own_path :
    (body : Body) (call : Call)
    → patch own_path body ≡ forwards call
    → id_of call ≡ codes "appointments"
unfolding patch id_in
patch-own_path body call h =
    subst (GoesTo (codes "appointments")) h
      (with_action-GoesTo body (codes "appointments") body.action)
