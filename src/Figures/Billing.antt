-- ===== src/Figures/Billing.antt =====
-- apps/api/src/billing/billing.controller.ts. The start of the month is an argument, and so is the
-- order in which the database returns rows: that of the table. The parts of the answer that are
-- constant (plan, invoices, currency) are left out.
use chronos_appointment_sche.Base.{
  ℕ, ◌+◌, ◌≡◌, refl, ap, subst, Bool, true, false, Option, none, some, List, [], ◌∷◌, map, ◌==◌,
  ◌&&◌, ◌||◌, leb, if◌then◌else◌, arith, Bool-cases, inl, inr, Table, lookup, ==_refl,
}
use chronos_appointment_sche.Schema.{BookingStatus}
use chronos_appointment_sche.Figures.{
  Floats, Row, take_first, filter_rows, count_rows, has_status, price_or_zero, sum_from,
}

module _ (f : Floats) where
  -- The columns of an event type that the queries read.
  pub record TypeRow : Type 0 where
    pub provider_id : ℕ
    pub price : Option f.Float

  pub record Billing : Type 0 where
    pub bookings_this_month : ℕ
    pub event_types : ℕ
    pub clients : ℕ
    pub estimated_revenue : f.Float
    pub completed_bookings : ℕ

  pub data Answer : Type 0 where
    unauthorized server_error : Answer
    billing : Billing → Answer

  abbrev pub is_one_of : ℕ → List ℕ → Bool
  is_one_of i [] = false
  is_one_of i (j ∷ js) = i == j || is_one_of i js

  abbrev pub with_id : Option ℕ → List ℕ → List ℕ
  with_id none ids = ids
  with_id (some id) ids = id ∷ ids

  -- `.map((b) => b.eventTypeId).filter(Boolean)`
  abbrev pub event_type_ids : List (Row f) → List ℕ
  event_type_ids [] = []
  event_type_ids (r ∷ rows) = with_id r.event_type_id (event_type_ids rows)

  -- findMany({ where: { id: { in: ids } } }), as the entries of the Map.
  abbrev pub with_ids : List ℕ → Table TypeRow → Table TypeRow
  with_ids ids [] = []
  with_ids ids ((i, e) ∷ t) = if is_one_of i ids then (i, e) ∷ with_ids ids t else with_ids ids t

  abbrev pub price_at : Option TypeRow → f.Float
  price_at none = f.zero_price
  price_at (some e) = price_or_zero f e.price

  abbrev pub price_for : Table TypeRow → Option ℕ → f.Float
  price_for types none = f.zero_price
  price_for types (some id) = price_at (lookup id types)

  abbrev pub price_in : Table TypeRow → Row f → f.Float
  price_in types r = price_for types r.event_type_id

  abbrev pub is_own : ℕ → Row f → Bool
  is_own provider_id r = r.slot_provider_id == provider_id

  abbrev pub count_own_types : ℕ → Table TypeRow → ℕ
  count_own_types provider_id [] = 0
  count_own_types provider_id ((i, e) ∷ t) =
      if e.provider_id == provider_id
      then 1 + count_own_types provider_id t
      else count_own_types provider_id t

  abbrev pub is_client : ℕ → Option ℕ → Bool
  is_client id none = false
  is_client id (some c) = id == c

  abbrev pub has_booking : ℕ → ℕ → List (Row f) → Bool
  has_booking provider_id id [] = false
  has_booking provider_id id (r ∷ rows) =
      (is_own provider_id r && is_client id r.client_id) || has_booking provider_id id rows

  -- client.findMany({ where: { bookings: { some: … } } }).length
  abbrev pub count_clients : ℕ → List ℕ → List (Row f) → ℕ
  count_clients provider_id [] rows = 0
  count_clients provider_id (c ∷ clients) rows =
      if has_booking provider_id c rows
      then 1 + count_clients provider_id clients rows
      else count_clients provider_id clients rows

  -- The first 50 completed bookings; none if that query throws.
  abbrev pub completed_bookings : (completed_fails : Bool) → ℕ → List (Row f) → List (Row f)
  completed_bookings true provider_id rows = []
  completed_bookings false provider_id rows =
      take_first f 50
        (filter_rows f (λ r. is_own provider_id r && has_status f BookingStatus.completed r) rows)

  abbrev pub revenue_estimate : Table TypeRow → List (Row f) → f.Float
  revenue_estimate types completed =
      let by_id = with_ids (event_type_ids completed) types in
      sum_from f f.zero_price (map (price_in by_id) completed)

  -- GET /billing
  unfoldable pub get_billing :
      (queries_fail completed_fails : Bool)
      → (month_start : ℕ) → (provider_id : Option ℕ) → Table TypeRow
      → (clients : List ℕ) → List (Row f)
      → Answer
  get_billing queries_fail completed_fails month_start none types clients rows = unauthorized
  get_billing queries_fail completed_fails month_start (some id) types clients rows =
      if queries_fail
      then server_error
      else (let completed = completed_bookings completed_fails id rows in
          billing (record {
            bookings_this_month =
                count_rows f (λ r. is_own id r && leb month_start r.created_at) rows;
            event_types = count_own_types id types;
            clients = count_clients id clients rows;
            estimated_revenue = revenue_estimate types completed;
            completed_bookings = count_rows f (λ r. true) completed;
          }))

  lookup-with_ids :
      (k : ℕ) (ids : List ℕ) (t : Table TypeRow)
      → is_one_of k ids ≡ true
      → lookup k (with_ids ids t) ≡ lookup k t
  lookup-with_ids k ids [] h = refl
  lookup-with_ids k ids ((i, e) ∷ t) h = elim (Bool-cases (k == i)) [
    | inl same ↦
        rw (subst (λ j. is_one_of j ids ≡ true) {x = k} {y = i} (ground (arith, same)) h)
          (ground arith)
    | inr other ↦ elim (Bool-cases (is_one_of i ids)) [
      | inl e' ↦ rw e' (ground (arith, lookup-with_ids k ids t h))
      | inr e' ↦ rw e' (ground (arith, lookup-with_ids k ids t h))
    ]
  ]

  with_id-more :
      (k : ℕ) (o : Option ℕ) (ids : List ℕ)
      → is_one_of k ids ≡ true
      → is_one_of k (with_id o ids) ≡ true
  with_id-more k none ids h = h
  with_id-more k (some id) ids h = ground arith

  price_for-with_ids :
      (ids : List ℕ) (types : Table TypeRow) (o : Option ℕ) (others : List ℕ)
      → ((k : ℕ) → is_one_of k (with_id o others) ≡ true → is_one_of k ids ≡ true)
      → price_for (with_ids ids types) o ≡ price_for types o
  price_for-with_ids ids types none others sub = refl
  price_for-with_ids ids types (some id) others sub =
      ap price_at (lookup-with_ids id ids types (sub id (ground (arith, ==_refl id))))

  -- Prices from the Map of the event types that were asked for, for rows whose ids are among them.
  prices-with_ids :
      (ids : List ℕ) (types : Table TypeRow) (rows : List (Row f))
      → ((k : ℕ) → is_one_of k (event_type_ids rows) ≡ true → is_one_of k ids ≡ true)
      → map (price_in (with_ids ids types)) rows ≡ map (price_in types) rows
  prices-with_ids ids types [] sub = refl
  prices-with_ids ids types (r ∷ rows) sub =
      rw
        (
          price_for-with_ids ids types r.event_type_id (event_type_ids rows) sub,
          prices-with_ids ids types rows
              (λ k h. sub k (with_id-more k r.event_type_id (event_type_ids rows) h)),
        )
        refl

  -- The one query for all event types at once gives the revenue that a lookup of each completed
  -- booking's own event type would give.
  pub revenue_estimate_lem :
      (types : Table TypeRow) (completed : List (Row f))
      → revenue_estimate types completed ≡ sum_from f f.zero_price (map (price_in types) completed)
  revenue_estimate_lem types completed =
      ap (sum_from f f.zero_price)
        (prices-with_ids (event_type_ids completed) types completed (λ k h. h))
