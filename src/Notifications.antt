-- ===== src/Notifications.antt =====
-- apps/api/src/notifications: NotificationsService and the handlers of NotificationsController, over
-- the rows of notifications. A session is the client id that the cookie names, or none.
pub mod Laws
use chronos_appointment_sche.Base.{
  ℕ, zero, suc, ◌+◌, ◌-◌, Bool, true, false, not, Option, none, some, List, [], ◌∷◌, leb, ◌==◌,
  ◌&&◌, if◌then◌else◌,
}
use chronos_appointment_sche.Email.Token.{Text}

-- The field `kind` is `type` in the source.
pub record Notification : Type 0 where
  pub id : ℕ
  pub kind : Text
  pub provider_id : Option ℕ
  pub client_id : Option ℕ
  pub booking_id : Option ℕ
  pub title : Option Text
  pub message : Option Text
  pub is_read : Bool
  pub created_at : ℕ
  pub updated_at : ℕ

pub record Params : Type 0 where
  pub kind : Text
  pub provider_id : Option ℕ
  pub client_id : Option ℕ
  pub booking_id : Option ℕ
  pub title : Option Text
  pub message : Option Text

abbrev pub is_id : ℕ → Option ℕ → Bool
is_id k none = false
is_id k (some j) = j == k

abbrev pub is_for : (client_id : ℕ) → Notification → Bool
is_for c n = is_id c n.client_id

abbrev pub is_unread : Notification → Bool
is_unread n = not n.is_read

abbrev pub rows_where : (Notification → Bool) → List Notification → List Notification
rows_where p [] = []
rows_where p (n ∷ ns) = if p n then n ∷ rows_where p ns else rows_where p ns

abbrev pub count : (Notification → Bool) → List Notification → ℕ
count p [] = 0
count p (n ∷ ns) = if p n then count p ns + 1 else count p ns

-- ORDER BY created_at DESC. The order of rows of one instant is the server's choice.
unfoldable pub insert_newest : Notification → List Notification → List Notification
insert_newest n [] = n ∷ []
insert_newest n (m ∷ ms) =
    let rest = insert_newest n ms in if leb m.created_at n.created_at then n ∷ m ∷ ms else m ∷ rest

unfoldable pub newest_first : List Notification → List Notification
newest_first [] = []
newest_first (n ∷ ns) = insert_newest n (newest_first ns)

abbrev pub take : ℕ → List Notification → List Notification
take zero ns = []
take (suc k) [] = []
take (suc k) (n ∷ ns) = n ∷ take k ns

abbrev read_at : ℕ → Notification → Notification
read_at now n = record n { is_read = true; updated_at = now }

-- updateMany with `read: true`; it answers the number of rows that it changed.
unfoldable pub update_many :
    (now : ℕ) (p : Notification → Bool) (rows : List Notification) → List Notification
update_many now p [] = []
update_many now p (n ∷ ns) =
    let rest = update_many now p ns in if p n then read_at now n ∷ rest else n ∷ rest

-- The id and the instant are the server's.
abbrev pub create : (id now : ℕ) → Params → List Notification → List Notification
create id now p rows =
    record {
      id = id;
      kind = p.kind;
      provider_id = p.provider_id;
      client_id = p.client_id;
      booking_id = p.booking_id;
      title = p.title;
      message = p.message;
      is_read = false;
      created_at = now;
      updated_at = now;
    }
    ∷ rows

abbrev pub list_for_provider : ℕ → List Notification → List Notification
list_for_provider provider rows =
    take 50 (newest_first (rows_where (λ n. is_id provider n.provider_id) rows))

abbrev pub list_for_client : ℕ → List Notification → List Notification
list_for_client client rows = take 50 (newest_first (rows_where (is_for client) rows))

abbrev pub mark_all_read_for_provider :
    (now provider : ℕ) → List Notification → ℕ × List Notification
mark_all_read_for_provider now provider rows =
    let p = λ (n : Notification). is_id provider n.provider_id && is_unread n in
    (count p rows, update_many now p rows)

abbrev pub mark_read : (now id client : ℕ) → List Notification → ℕ × List Notification
mark_read now id client rows =
    let p = λ (n : Notification). n.id == id && is_for client n in
    (count p rows, update_many now p rows)

abbrev pub mark_all_read_for_client : (now client : ℕ) → List Notification → ℕ × List Notification
mark_all_read_for_client now client rows =
    let p = λ (n : Notification). is_for client n && is_unread n in
    (count p rows, update_many now p rows)

pub record Listing : Type 0 where
  pub notifications : List Notification
  pub unread : ℕ

unfoldable pub list : Option ℕ → List Notification → Listing
list none rows = record { notifications = []; unread = 0 }
list (some client) rows =
    let found = list_for_client client rows in
    record { notifications = found; unread = count is_unread found }

-- The answer `{ read: true }`, or `{ read: false, error: 'unauthorized' }`.
unfoldable pub read_one : (now id : ℕ) → Option ℕ → List Notification → Bool × List Notification
read_one now id none rows = (false, rows)
read_one now id (some client) rows = (true, (mark_read now id client rows).1)

unfoldable pub read_all : (now : ℕ) → Option ℕ → List Notification → ℕ × List Notification
read_all now none rows = (0, rows)
read_all now (some client) rows = mark_all_read_for_client now client rows
