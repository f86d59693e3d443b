-- ===== src/Notifications/Laws.antt =====
-- What a client sees of the notifications, and whose rows the handlers change.
use chronos_appointment_sche.Base.{
  ℕ, zero, suc, ◌≤◌, ◌≡◌, refl, ◌∙◌, Bool, true, not, some, List, [], ◌∷◌, ◌&&◌, arith,
}
use chronos_appointment_sche.Notifications.{
  Notification, is_for, is_unread, rows_where, count, insert_newest, newest_first, take,
  update_many, list, read_one, read_all,
}

count-insert_newest :
    (p : Notification → Bool) (n : Notification) (ms : List Notification)
    → count p (insert_newest n ms) ≡ count p (n ∷ ms)
unfolding insert_newest
count-insert_newest p n [] = refl
count-insert_newest p n (m ∷ ms) = ground (arith, count-insert_newest p n ms)

count-newest_first :
    (p : Notification → Bool) (ns : List Notification) → count p (newest_first ns) ≡ count p ns
unfolding newest_first
count-newest_first p [] = refl
count-newest_first p (n ∷ ns) =
    ground (arith, count-insert_newest p n (newest_first ns), count-newest_first p ns)

count-take-le :
    (p : Notification → Bool) (k : ℕ) (ns : List Notification)
    → (count p (take k ns) ≤ count p ns) × (count p (take k ns) ≤ k)
count-take-le p zero ns = ground arith
count-take-le p (suc k) [] = ground arith
count-take-le p (suc k) (n ∷ ns) = ground (arith, count-take-le p k ns)

abbrev any_row : Notification → Bool
any_row n = true

count-take_all :
    (p : Notification → Bool) (k : ℕ) (ns : List Notification)
    → count any_row ns ≤ k
    → count p (take k ns) ≡ count p ns
count-take_all p zero [] h = refl
count-take_all p zero (n ∷ ns) h = absurd (omega (arith, h))
count-take_all p (suc k) [] h = refl
count-take_all p (suc k) (n ∷ ns) h = ground (arith, count-take_all p k ns (omega (arith, h)))

count-rows_where :
    (p q : Notification → Bool) (ns : List Notification)
    → count p (rows_where q ns) ≡ count (λ n. q n && p n) ns
count-rows_where p q [] = refl
count-rows_where p q (n ∷ ns) = ground (arith, count-rows_where p q ns)

abbrev pub is_unread_of : (client : ℕ) → Notification → Bool
is_unread_of client n = is_for client n && is_unread n

abbrev is_other : (client : ℕ) → Notification → Bool
is_other client n = not (is_for client n)

no_unread-update_many :
    (now client : ℕ) (ns : List Notification)
    → count (is_unread_of client) (update_many now (is_unread_of client) ns) ≡ 0
unfolding update_many
no_unread-update_many now client [] = refl
no_unread-update_many now client (n ∷ ns) = ground (arith, no_unread-update_many now client ns)

others-update_many :
    (now client : ℕ) (p : Notification → Bool) (ns : List Notification)
    → ((n : Notification) → p n ≡ true → is_for client n ≡ true)
    → rows_where (is_other client) (update_many now p ns) ≡ rows_where (is_other client) ns
unfolding update_many
others-update_many now client p [] own = refl
others-update_many now client p (n ∷ ns) own =
    ground (arith, own n, others-update_many now client p ns own)

-- The unread number that a client sees is at most 50 and at most the number of its unread
-- notifications, and is that number if the client has at most 50 notifications.
pub list-unread :
    (client : ℕ) (rows : List Notification)
    → ((list (some client) rows).unread ≤ 50)
      × ((list (some client) rows).unread ≤ count (is_unread_of client) rows)
      × (count (is_for client) rows ≤ 50
          → (list (some client) rows).unread ≡ count (is_unread_of client) rows)
unfolding list
list-unread client rows =
    let own = rows_where (is_for client) rows in
    let all = count-newest_first is_unread own ∙ count-rows_where is_unread (is_for client) rows in
    let bound = count-take-le is_unread 50 (newest_first own) in
    (
      omega (arith, bound.1),
      omega (arith, bound.0, all),
      λ few.
          count-take_all is_unread 50 (newest_first own) (
            omega (
              arith,
              few,
              count-newest_first any_row own,
              count-rows_where any_row (is_for client) rows,
              same rows,
            ))
          ∙ all,
    )
  where
    same :
        (ns : List Notification)
        → count (λ n. is_for client n && true) ns ≡ count (is_for client) ns
    same [] = refl
    same (n ∷ ns) = ground (arith, same ns)

-- Reading all answers the number of the client's unread notifications; after it the client sees none
-- unread, and the notifications of others are as they were.
pub read_all-list :
    (now client : ℕ) (rows : List Notification)
    → ((read_all now (some client) rows).0 ≡ count (is_unread_of client) rows)
      × ((list (some client) (read_all now (some client) rows).1).unread ≡ 0)
      × (rows_where (is_other client) (read_all now (some client) rows).1
          ≡ rows_where (is_other client) rows)
unfolding read_all
read_all-list now client rows =
    let after = update_many now (is_unread_of client) rows in
    (
      refl,
      omega (arith, (list-unread client after).1, no_unread-update_many now client rows),
      others-update_many now client (is_unread_of client) rows (λ n h. ground arith),
    )

-- Reading one notification leaves those of others as they were, whichever id is asked for.
pub read_one-others :
    (now id client : ℕ) (rows : List Notification)
    → rows_where (is_other client) (read_one now id (some client) rows).1
      ≡ rows_where (is_other client) rows
unfolding read_one
read_one-others now id client rows = others-update_many now client _ rows (λ n h. ground arith)
