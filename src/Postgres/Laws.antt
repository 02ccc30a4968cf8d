-- ===== src/Postgres/Laws.antt =====
-- What PostgresStore relies on: the documented behaviour of its statements, transactions and
-- constraints (internal/migrations), said of what a client can see of the tables. A statement casts
-- its ids to uuid, which takes a UUID in several spellings, and answers them in the canonical one;
-- a text that is no UUID makes it fail. A TIMESTAMPTZ holds whole microseconds.
use avito_test.Prelude.{
  ◌≤◌, ◌<◌, ◌≡◌, ◌≢◌, ◌↔◌, ◌⊎◌, Option, none, some, List, String, ℤ, Memᴰ, IsSorted, true, false,
  ◌==◌, if◌then◌else◌, map, ◌%◌,
}
use avito_test.Times.{Time}
use avito_test.Types.{Slot, Booking, active, cancelled}
use avito_test.Memory.{starts_before, is_active}
use avito_test.Contract.{Form, View, Reserved, IsCalendar, put_booking}
use avito_test.Postgres.Driver.{
  Database, Fetched, found, no_rows, failed, Scanned, row, unreadable, Queried, refused, rows,
  pg_err_contains,
}

-- A SELECT of at most one row, where the tables hold `o`. A statement never changes what it reads.
abbrev pub Selects : {A : Type 0} → Option A → Fetched A → Type 0
Selects o (found a) = o ≡ some a
Selects o no_rows = o ≡ none
Selects o (failed m) = Unit {0}

abbrev pub start_of : Option Slot → Option Time
start_of none = none
start_of (some s) = some s.start

abbrev pub owner_of : Option Booking → Option String
owner_of none = none
owner_of (some b) = some b.user_id

-- The query of ListAvailableSlots: a slot of the room in the interval, with no active booking.
abbrev pub IsSelected : (room_id : String) → (start end : Time) → View → Slot → Type 0
IsSelected room_id start end v s =
    (v.slots s.id ≡ some s)
    × (s.room_id ≡ room_id)
    × (start ≤ s.start)
    × (s.start < end)
    × (¬ Reserved v s.id)

-- Where every row is read and no error ends the loop, the rows are those of the query, in order.
abbrev pub SelectsSlots : (Slot → Type 0) → Queried Slot → Type 0
SelectsSlots P (refused m) = Unit {0}
SelectsSlots P (rows answer (some m)) = Unit {0}
SelectsSlots P (rows answer none) =
    (slots : List Slot)
    → answer ≡ map row slots
    → ((s : Slot) → Memᴰ s slots ↔ P s) × IsSorted starts_before slots

-- ON CONFLICT DO NOTHING: the row stands afterwards, and nothing else is changed.
pub record IsInserted (room_id : String) (start end : Time) (v v' : View) : Type 0 where
  pub bookings : v'.bookings ≡ v.bookings
  pub kept : (k : String) (t : Slot) → v.slots k ≡ some t → v'.slots k ≡ some t
  pub added :
      (k : String) (t : Slot)
      → v'.slots k ≡ some t
      → (v.slots k ≡ some t) ⊎ ((t.room_id ≡ room_id) × (t.start ≡ start) × (t.end ≡ end))
  pub stands :
      (k : String) × (t : Slot) × (v'.slots k ≡ some t)
      × (t.room_id ≡ room_id)
      × (t.start ≡ start)
      × (t.end ≡ end)

abbrev pub InsertsSlot : String → (start end : Time) → View → View → Option String → Type 0
InsertsSlot room_id start end v v' none = IsInserted room_id start end v v'
InsertsSlot room_id start end v v' (some m) = v' ≡ v

-- The row that INSERT INTO bookings returns: the foreign key, the partial unique index and the
-- primary key hold, and the columns have the values of the statement.
pub record IsNewRow (slot_id user_id : String) (v v' : View) (b : Booking) : Type 0 where
  pub references : v.slots slot_id ≢ none
  pub unique : ¬ Reserved v slot_id
  pub fresh : v.bookings b.id ≡ none
  pub slot_column : b.slot_id ≡ slot_id
  pub user_column : b.user_id ≡ user_id
  pub status_column : b.status ≡ active
  pub stored : v' ≡ put_booking b.id b v

-- The error of a duplicate key stands for the partial unique index: the slot has an active booking.
abbrev pub InsertsBooking : (slot_id user_id : String) → View → View → Fetched Booking → Type 0
InsertsBooking slot_id user_id v v' (found b) = IsNewRow slot_id user_id v v' b
InsertsBooking slot_id user_id v v' no_rows = Unit {0}
InsertsBooking slot_id user_id v v' (failed m) =
    (pg_err_contains m "idx_bookings_active_per_slot" ≡ true)
      ⊎ (pg_err_contains m "duplicate key value" ≡ true)
    → Reserved v slot_id

-- UPDATE … SET status='cancelled' WHERE id=$1 AND status='active'
abbrev pub cancel_active : Option Booking → Option Booking
cancel_active none = none
cancel_active (some b) =
    if is_active b.status then some (record b { status = cancelled }) else some b

abbrev pub update_booking : String → View → View
update_booking id v = record v {
  bookings = λ k. if k == id then cancel_active (v.bookings k) else v.bookings k;
}

abbrev pub Updates : String → View → View → Option String → Type 0
Updates id v v' none = v' ≡ update_booking id v
Updates id v v' (some m) = v' ≡ v

-- A transaction sees the tables as they were when it began, with its own changes.
abbrev pub Begins : {Tx : Type 0} → (begun seen : Tx → View) → View → Scanned Tx → Type 0
Begins begun seen v (row tx) = (begun tx ≡ v) × (seen tx ≡ v)
Begins begun seen v (unreadable m) = Unit {0}

-- Commit makes the changes of the transaction visible, or reports an error and drops them. No
-- constraint of the tables is deferred: a duplicate key is reported by the INSERT.
abbrev pub Commits : (seen v v' : View) → Option String → Type 0
Commits seen v v' none = v' ≡ seen
Commits seen v v' (some m) = (v' ≡ v) × (pg_err_contains m "duplicate key value" ≡ false)

-- `form` gives the canonical spelling of an id and a time cut to what a column keeps. `view` is what
-- the tables hold, by canonical ids; `begun` is what they held when a transaction began, and `seen`
-- is what the transaction sees.
pub record IsPostgres (form : Form) (db : Database) (view : db.State → View)
    (begun seen : db.Tx → View) : Type 0 where
  -- Where no fraction of a microsecond is lost, a time is kept as it is.
  pub whole : (t : Time) → t % 1000 ≡ 0 → form.time t ≡ t
  pub constraints : (s : db.State) → IsCalendar (view s)
  pub insert_room :
      (name : String) (description : Option String) (capacity : Option ℤ) (s : db.State)
      → view (db.insert_room name description capacity s).1 ≡ view s
  pub select_rooms : (s : db.State) → view (db.select_rooms s).1 ≡ view s
  pub select_room_exists :
      (id : String) (s : db.State) → view (db.select_room_exists id s).1 ≡ view s
  pub insert_schedule :
      (room_id days start_time end_time : String) (s : db.State)
      → view (db.insert_schedule room_id days start_time end_time s).1 ≡ view s
  pub select_schedule :
      (room_id : String) (s : db.State) → view (db.select_schedule room_id s).1 ≡ view s
  pub insert_slot :
      (room_id : String) (start end : Time) (s : db.State)
      → InsertsSlot
          (form.id room_id)
          (form.time start)
          (form.time end)
          (view s)
          (view (db.insert_slot room_id start end s).1)
          (db.insert_slot room_id start end s).0
  pub select_available :
      (room_id : String) (start end : Time) (s : db.State)
      → SelectsSlots
          (IsSelected (form.id room_id) (form.time start) (form.time end) (view s))
          (db.select_available room_id start end s).0
        × (view (db.select_available room_id start end s).1 ≡ view s)
  pub select_slot :
      (id : String) (s : db.State)
      → Selects ((view s).slots (form.id id)) (db.select_slot id s).0
        × (view (db.select_slot id s).1 ≡ view s)
  pub select_booking :
      (id : String) (s : db.State)
      → Selects ((view s).bookings (form.id id)) (db.select_booking id s).0
        × (view (db.select_booking id s).1 ≡ view s)
  pub count_bookings : (s : db.State) → view (db.count_bookings s).1 ≡ view s
  pub select_page :
      (limit offset : ℤ) (s : db.State) → view (db.select_page limit offset s).1 ≡ view s
  pub select_future :
      (user_id : String) (now : Time) (s : db.State)
      → view (db.select_future user_id now s).1 ≡ view s
  pub select_owner :
      (id : String) (s : db.State)
      → Selects (owner_of ((view s).bookings (form.id id))) (db.select_owner id s).0
        × (view (db.select_owner id s).1 ≡ view s)
  pub update_cancelled :
      (id : String) (s : db.State)
      → Updates
          (form.id id)
          (view s)
          (view (db.update_cancelled id s).1)
          (db.update_cancelled id s).0
  pub begin_tx :
      (s : db.State)
      → Begins begun seen (view s) (db.begin_tx s).0 × (view (db.begin_tx s).1 ≡ view s)
  pub select_start :
      (id : String) (tx : db.Tx)
      → Selects (start_of ((seen tx).slots (form.id id))) (db.select_start id tx).0
        × (begun (db.select_start id tx).1 ≡ begun tx)
        × (seen (db.select_start id tx).1 ≡ seen tx)
  pub insert_booking :
      (slot_id user_id : String) (link : Option String) (tx : db.Tx)
      → InsertsBooking
          (form.id slot_id)
          (form.id user_id)
          (seen tx)
          (seen (db.insert_booking slot_id user_id link tx).1)
          (db.insert_booking slot_id user_id link tx).0
        × (begun (db.insert_booking slot_id user_id link tx).1 ≡ begun tx)
  pub commit :
      (tx : db.Tx) (s : db.State)
      → begun tx ≡ view s
      → Commits (seen tx) (view s) (view (db.commit tx s).1) (db.commit tx s).0
  pub rollback : (tx : db.Tx) (s : db.State) → view (db.rollback tx s) ≡ view s
