-- ===== src/Tests/Lists.antt =====
-- Notifications.
use chronos_appointment_sche.Base.{ℕ, ◌≡◌, refl, not, false, none, some, List, [], ◌∷◌}
use chronos_appointment_sche.Email.Gateway.{codes}
use chronos_appointment_sche.Notifications.{
  Notification, is_for, rows_where, count, list, read_all, newest_first, insert_newest,
}
use chronos_appointment_sche.Notifications.Laws.{is_unread_of, read_all-list}

abbrev note : (id client created_at : ℕ) → Notification
note id client created_at = record {
  id = id;
  kind = codes "booking_created";
  provider_id = none;
  client_id = some client;
  booking_id = none;
  title = none;
  message = none;
  is_read = false;
  created_at = created_at;
  updated_at = created_at;
}

abbrev notes : List Notification
notes = note 1 7 10 ∷ note 2 8 20 ∷ note 3 7 30 ∷ []

newest_of_notes : newest_first notes ≡ note 3 7 30 ∷ note 2 8 20 ∷ note 1 7 10 ∷ []
unfolding newest_first insert_newest
newest_of_notes = refl

two_unread : (list (some 7) notes).unread ≡ 2
unfolding list newest_first insert_newest
two_unread = refl

read_all-list_example :
    ((read_all 40 (some 7) notes).0 ≡ count (is_unread_of 7) notes)
    × ((list (some 7) (read_all 40 (some 7) notes).1).unread ≡ 0)
    × (rows_where (λ n. not (is_for 7 n)) (read_all 40 (some 7) notes).1
        ≡ rows_where (λ n. not (is_for 7 n)) notes)
read_all-list_example = read_all-list 40 7 notes
