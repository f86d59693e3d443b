-- ===== src/Web/Actions.antt =====
-- apps/web/src/app/appointments/page.tsx: handleAction, with apps/web/src/lib/api.ts: apiFetch. An
-- answer that a handler returns goes out with HTTP status 200 or 201, whatever its body says; what it
-- throws does not.
use chronos_appointment_sche.Base.{
  ℕ, ◌≡◌, refl, sym, subst, by_run, true, false, Option, none, some, [], ◌∷◌, ◌++◌, lookup, ◌==◌,
  arith, Option-cases, inl, inr,
}
use chronos_appointment_sche.Schema.{Tables, Booking}
use chronos_appointment_sche.Schema.World.{World, Result, ok, err, Connection, release_client}
use chronos_appointment_sche.Bookings.Outcome.{invalid_status}
use chronos_appointment_sche.Bookings.Controller.{
  Env, Response, unauthorized_exception, conflict_exception, rejected, StatusText, connect,
  begin_tx, read_booking,
}
use chronos_appointment_sche.Bookings.Controller.Status.{
  status_handler, confirm_handler, decline_handler,
}
use chronos_appointment_sche.Bookings.Controller.Cancel.{cancel_handler, cancel_owned}
use chronos_appointment_sche.System.{fresh, Reach, here, next, cancel, confirm, decline}
use chronos_appointment_sche.System.Safety.{owned_by-cases}

-- The buttons; any other name is sent to a path that the API does not have.
pub data Action : Type 0 where
  confirm_it decline_it cancel_it reschedule_it other_action : Action

-- What the page does next: load the list again and close the drawer, or show an error in it.
pub data Shown : Type 0 where
  refreshed drawer_error : Shown

abbrev pub shown_of : Result Response → Shown
shown_of (ok unauthorized_exception) = drawer_error
shown_of (ok (conflict_exception e)) = drawer_error
shown_of (ok _) = refreshed
shown_of (err e) = drawer_error

abbrev pub show_result : Result Response × World → Shown × World
show_result (r, w) = (shown_of r, w)

-- handleAction. No If-Match header is sent, so the API takes the version to be 1; a reschedule is
-- sent as PATCH /bookings/:id/status with a new slot, and no status, in its body.
unfoldable pub handle_action :
    Env → Connection → (session : Option ℕ) → Action → (booking_id : ℕ) → World → Shown × World
unfolding confirm_handler decline_handler cancel_handler status_handler
handle_action env connection session confirm_it id w =
    show_result (confirm_handler env session id w)
handle_action env connection session decline_it id w =
    show_result (decline_handler env session id w)
handle_action env connection session cancel_it id w =
    show_result (cancel_handler env connection session 1 id w)
handle_action env connection session reschedule_it id w =
    show_result (status_handler env session id StatusText.other w)
handle_action env connection session other_action id w = (drawer_error, w)

-- The page's cancel button on an own booking that is not at version 1 changes nothing, and still the
-- page reloads as after a success: the API refuses the version, with an answer that is not thrown.
pub handle_action-stale :
    (env : Env) (c : Connection) (client id : ℕ) (w : World) {b : Booking}
    → lookup id w.tables.bookings ≡ some b
    → (b.client_id == client) ≡ true
    → (1 == b.version) ≡ false
    → env.fails read_booking ≡ none
    → handle_action env c (some client) cancel_it id w ≡ (refreshed, w)
unfolding handle_action cancel_handler cancel_owned
handle_action-stale env c client id w {b} found own stale quiet = ground arith

-- The page's reschedule button never changes a table, whoever presses it and whatever fails: no
-- booking is moved by it.
pub handle_action-reschedule :
    (env : Env) (c : Connection) (session : Option ℕ) (id : ℕ) (w : World)
    → w.saved ≡ none
    → (handle_action env c session reschedule_it id w).1.tables ≡ w.tables
unfolding handle_action status_handler
handle_action-reschedule env c none id w n = refl
handle_action-reschedule env c (some client) id w n =
    let call = status_handler env (some client) id StatusText.other w in
    let after = record w { saved = none; effects = w.effects ++ release_client ∷ [] } in
    let P = λ (out : Result Response × World). (show_result out).1.tables ≡ w.tables in
    elim (Option-cases (env.fails connect)) [
      | inr (x, e) ↦ by_run P call (err x, w) (ground arith) refl
      | inl e ↦ elim (Option-cases (env.fails begin_tx)) [
        | inr (x, e2) ↦ by_run P call (err x, after) (ground arith) refl
        | inl e2 ↦ elim (Option-cases (env.fails read_booking)) [
          | inr (x, e3) ↦ by_run P call (err x, after) (ground arith) refl
          | inl e3 ↦ elim (owned_by-cases client (lookup id w.tables.bookings)) [
            | inl (r, e4) ↦ by_run P call (ok r, after) (ground arith) refl
            | inr (b, e4) ↦
                by_run P call (ok (rejected 422 invalid_status), after) (ground arith) refl
          ]
        ]
      ]
    ]

-- Every button of the page is a run of the service of at most one step: so it is safe wherever
-- the service is.
pub handle_action-Reach :
    (env : Env) (c : Connection) (session : Option ℕ) (a : Action) (id : ℕ) (t : Tables)
    → Reach t (handle_action env c session a id (fresh t)).1.tables
unfolding handle_action
handle_action-Reach env c session confirm_it id t = next here (confirm env session id refl)
handle_action-Reach env c session decline_it id t = next here (decline env session id refl)
handle_action-Reach env c session cancel_it id t = next here (cancel env c session 1 id refl)
handle_action-Reach env c session reschedule_it id t =
    subst (Reach t) (sym (handle_action-reschedule env c session id (fresh t) refl)) here
handle_action-Reach env c session other_action id t = here
