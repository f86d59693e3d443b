-- ===== src/Providers.antt =====
-- apps/api/src/providers/providers.controller.ts: the provider's own row. Which texts name a timezone is
-- an argument; a statement that fails ends the request with its error and is left out. The upload of
-- an avatar and the times of a row are left out.
use chronos_appointment_sche.Base.{
  ℕ, ◌≡◌, refl, Bool, true, false, not, Option, none, some, ◌==◌, ◌||◌, if◌then◌else◌, arith, Table,
  lookup, adjust, lookup-adjust,
}
use chronos_appointment_sche.Email.Token.{Text, is_empty}

pub record ProviderRow : Type 0 where
  pub name : Text
  pub slug : Text
  pub timezone : Text
  pub cancellation_window_hours : ℕ
  pub minimum_booking_notice : Option ℕ

-- The body of PATCH /providers/me; `none` is undefined. A notice that is no whole number is `some none`.
pub record Update : Type 0 where
  pub name : Option Text
  pub slug : Option Text
  pub timezone : Option Text
  pub minimum_booking_notice : Option (Option ℕ)

-- The answer of PATCH /providers/me; `none` is undefined.
pub record UpdateAnswer : Type 0 where
  pub name : Text
  pub slug : Text
  pub timezone : Text
  pub cancellation_window_hours : Option ℕ
  pub minimum_booking_notice : Option (Option ℕ)

pub data Answer : Type 0 where
  provider : ProviderRow → Answer
  updated : UpdateAnswer → Answer
  invalid_notice invalid_timezone provider_not_found : Answer

abbrev pub is_notice : Option ℕ → Bool
is_notice none = false
is_notice (some v) = v == 4 || v == 24 || v == 48

abbrev pub is_notice_or_absent : Option (Option ℕ) → Bool
is_notice_or_absent none = true
is_notice_or_absent (some v) = is_notice v

-- `value || null` under COALESCE.
abbrev pub coalesce_text : Option Text → Text → Text
coalesce_text none old = old
coalesce_text (some t) old = if is_empty t then old else t

-- `Number(value) || 4`
abbrev pub or_four : Option ℕ → ℕ
or_four none = 4
or_four (some v) = if v == 0 then 4 else v

abbrev pub coalesce_notice : Option (Option ℕ) → Option ℕ → Option ℕ
coalesce_notice none old = old
coalesce_notice (some v) old = some (or_four v)

abbrev pub updated_row : Update → ProviderRow → ProviderRow
updated_row u r = record r {
  name = coalesce_text u.name r.name;
  slug = coalesce_text u.slug r.slug;
  timezone = coalesce_text u.timezone r.timezone;
  minimum_booking_notice = coalesce_notice u.minimum_booking_notice r.minimum_booking_notice;
}

-- RETURNING … cancellation_window_hours AS cancellationWindowHours, …: PostgreSQL folds a name without
-- quotes to lower case, and the handler reads it as it wrote it.
abbrev pub returned : ProviderRow → UpdateAnswer
returned r = record {
  name = r.name;
  slug = r.slug;
  timezone = r.timezone;
  cancellation_window_hours = none;
  minimum_booking_notice = none;
}

abbrev pub found_updated : Option ProviderRow → Answer
found_updated none = provider_not_found
found_updated (some r) = updated (returned r)

module _ (is_timezone : Text → Bool) where
  abbrev pub is_timezone_or_absent : Option Text → Bool
  is_timezone_or_absent none = true
  is_timezone_or_absent (some t) = is_timezone t

  abbrev pub found : Option ProviderRow → Answer
  found none = provider_not_found
  found (some r) = provider r

  -- GET /providers/me
  unfoldable pub get_me : (provider_id : ℕ) → Table ProviderRow → Answer
  get_me id rows = found (lookup id rows)

  -- PATCH /providers/me
  unfoldable pub update_me :
      (provider_id : ℕ) → Update → Table ProviderRow → Answer × Table ProviderRow
  update_me id u rows =
      if not (is_notice_or_absent u.minimum_booking_notice)
      then (invalid_notice, rows)
      else if not (is_timezone_or_absent u.timezone)
      then (invalid_timezone, rows)
      else (
        found_updated (lookup id (adjust id (updated_row u) rows)),
        adjust id (updated_row u) rows,
      )

-- handleSave of apps/web/src/app/availability/page.tsx: of all that the page edits only the notice is
-- sent. `notice` is the number of the chosen text, `none` if it is no number.
abbrev pub saved_update : (notice : Option ℕ) → Update
saved_update notice = record {
  name = none;
  slug = none;
  timezone = none;
  minimum_booking_notice = some (some (or_four notice));
}

-- What the availability page saves is what it reads back: after a save of 4, 24 or 48 hours by a provider
-- who has a row, the next load shows this notice, the row is otherwise as it was, and the rows of
-- other providers are too. The answer to the save itself names neither the notice nor the window.
pub update_me-saved_update :
    (is_timezone : Text → Bool) (id notice : ℕ) (rows : Table ProviderRow) {r : ProviderRow}
    → lookup id rows ≡ some r
    → is_notice (some notice) ≡ true
    → let rows' = (update_me is_timezone id (saved_update (some notice)) rows).1 in
      (get_me is_timezone id rows' ≡ provider (record r { minimum_booking_notice = some notice }))
      × ((k : ℕ) → (k == id) ≡ false → lookup k rows' ≡ lookup k rows)
      × ((update_me is_timezone id (saved_update (some notice)) rows).0 ≡ updated (returned r))
unfolding update_me get_me
update_me-saved_update is_timezone id notice rows {r} h e =
    let u = saved_update (some notice) in
    (
      ground (arith, lookup-adjust id id (updated_row u) rows),
      λ k other. ground (arith, lookup-adjust k id (updated_row u) rows),
      ground (arith, lookup-adjust id id (updated_row u) rows),
    )

-- A notice that is none of the three is refused, and no row changes.
pub update_me-refused :
    (is_timezone : Text → Bool) (id : ℕ) (u : Update) (rows : Table ProviderRow)
    → is_notice_or_absent u.minimum_booking_notice ≡ false
    → update_me is_timezone id u rows ≡ (invalid_notice, rows)
unfolding update_me
update_me-refused is_timezone id u rows e = rw e refl
