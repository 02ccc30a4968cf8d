-- ===== src/Postgres/Driver.antt =====
-- What PostgresStore asks of database/sql and of the database, and how it reads the answers.
use avito_test.Prelude.{
  ℕ, Bool, true, false, ◌||◌, Option, none, some, List, [], ◌∷◌, String, ℤ, eqb, if◌then◌else◌,
}
use avito_test.Times.{Time}
use avito_test.Times.Clock.{codes}
use avito_test.Types.{Room, Slot, Booking, Error, other, Result, ok, err, panic}
use avito_test.Postgres.Arrays.{Src}

-- `QueryRow(…).Scan(…)`: the row, `sql.ErrNoRows`, or another error by its text.
pub data Fetched (A : Type 0) : Type 0 where
  found : A → Fetched A
  no_rows : Fetched A
  failed : String → Fetched A

-- What `rows.Scan(…)` answers for one row.
pub data Scanned (A : Type 0) : Type 0 where
  row : A → Scanned A
  unreadable : String → Scanned A

-- `Query(…)`: an error, or the rows that `rows.Next` goes through with the error `rows.Err` after
-- them, if any.
pub data Queried (A : Type 0) : Type 0 where
  refused : String → Queried A
  rows : List (Scanned A) → Option String → Queried A

-- A row of the table schedules; its array of days comes as the driver hands it to Scan.
pub record ScheduleRow : Type 0 where
  pub id : String
  pub room_id : String
  pub days_of_week : Src
  pub start_time : String
  pub end_time : String

-- One field for each statement of the store, with its arguments and the state of the database.
-- A statement without rows answers an error, or none. A transaction has a state of its own.
pub record Database : Type 1 where
  pub State : Type 0
  pub Tx : Type 0
  -- INSERT INTO rooms(name, description, capacity) … RETURNING …
  pub insert_room : String → Option String → Option ℤ → State → Fetched Room × State
  -- SELECT … FROM rooms ORDER BY created_at DESC
  pub select_rooms : State → Queried Room × State
  -- SELECT EXISTS(SELECT 1 FROM rooms WHERE id=$1::uuid)
  pub select_room_exists : (id : String) → State → Fetched Bool × State
  -- INSERT INTO schedules(room_id,days_of_week,start_time,end_time) … RETURNING …
  pub insert_schedule :
      (room_id days start_time end_time : String) → State → Fetched ScheduleRow × State
  -- SELECT … FROM schedules WHERE room_id=$1::uuid
  pub select_schedule : (room_id : String) → State → Fetched ScheduleRow × State
  -- INSERT INTO slots(room_id,start_at,end_at) … ON CONFLICT (room_id,start_at,end_at) DO NOTHING
  pub insert_slot : (room_id : String) → (start end : Time) → State → Option String × State
  -- SELECT … FROM slots s LEFT JOIN bookings b ON b.slot_id=s.id AND b.status='active'
  -- WHERE s.room_id=$1::uuid AND s.start_at >= $2 AND s.start_at < $3 AND b.id IS NULL
  -- ORDER BY s.start_at ASC
  pub select_available : (room_id : String) → (start end : Time) → State → Queried Slot × State
  -- SELECT … FROM slots WHERE id=$1::uuid
  pub select_slot : (id : String) → State → Fetched Slot × State
  -- SELECT … FROM bookings WHERE id=$1::uuid
  pub select_booking : (id : String) → State → Fetched Booking × State
  -- SELECT count(*) FROM bookings
  pub count_bookings : State → Fetched ℕ × State
  -- SELECT … FROM bookings ORDER BY created_at DESC LIMIT $1 OFFSET $2
  pub select_page : (limit offset : ℤ) → State → Queried Booking × State
  -- SELECT … FROM bookings b JOIN slots s ON s.id=b.slot_id
  -- WHERE b.user_id=$1::uuid AND s.start_at >= $2 ORDER BY s.start_at ASC
  pub select_future : (user_id : String) → (now : Time) → State → Queried Booking × State
  -- SELECT user_id::text FROM bookings WHERE id=$1::uuid
  pub select_owner : (id : String) → State → Fetched String × State
  -- UPDATE bookings SET status='cancelled' WHERE id=$1::uuid AND status='active'
  pub update_cancelled : (id : String) → State → Option String × State
  -- BeginTx with the isolation level serializable
  pub begin_tx : State → Scanned Tx × State
  -- SELECT start_at FROM slots WHERE id=$1::uuid, in the transaction
  pub select_start : (id : String) → Tx → Fetched Time × Tx
  -- INSERT INTO bookings(slot_id,user_id,status,conference_link)
  -- VALUES($1::uuid,$2::uuid,'active',$3) RETURNING …, in the transaction
  pub insert_booking : (slot_id user_id : String) → Option String → Tx → Fetched Booking × Tx
  -- Commit, and Rollback, whose error is ignored
  pub commit : Tx → State → Option String × State
  pub rollback : Tx → State → State

-- The database, with the number of UUIDs drawn and of clock readings made so far.
pub record Session (db : Database) : Type 0 where
  pub state : db.State
  pub drawn : ℕ
  pub ticks : ℕ

-- The text of `sql.ErrNoRows`.
abbrev pub no_rows_text : String
no_rows_text = "sql: no rows in result set"

-- `return v, err` after a Scan.
abbrev pub scanned : {A : Type 0} → Fetched A → Result A
scanned (found a) = ok a
scanned no_rows = err (other no_rows_text)
scanned (failed m) = err (other m)

-- The same where `errors.Is(err, sql.ErrNoRows)` has an answer of its own.
abbrev pub scanned_or : {A : Type 0} → Error → Fetched A → Result A
scanned_or e (found a) = ok a
scanned_or e no_rows = err e
scanned_or e (failed m) = err (other m)

abbrev pub appended : {A : Type 0} → A → Result (List A) → Result (List A)
appended a (ok out) = ok (a ∷ out)
appended a (err e) = err e
appended a panic = panic

-- The loop over `rows.Next` with its appends, and `return out, rows.Err()`.
unfoldable pub scan_rows : {A : Type 0} → List (Scanned A) → Option String → Result (List A)
scan_rows [] none = ok []
scan_rows [] (some m) = err (other m)
scan_rows (row a ∷ more) last = appended a (scan_rows more last)
scan_rows (unreadable m ∷ more) last = err (other m)

abbrev pub all_rows : {A : Type 0} → Queried A → Result (List A)
all_rows (refused m) = err (other m)
all_rows (rows answer last) = scan_rows answer last

-- `strings.HasPrefix` and `strings.Contains`
unfoldable pub has_prefix : (s prefix : List ℕ) → Bool
has_prefix s [] = true
has_prefix [] (_ ∷ _) = false
has_prefix (a ∷ s) (b ∷ prefix) = if eqb a b then has_prefix s prefix else false

unfoldable pub contains : (s sub : List ℕ) → Bool
contains [] sub = has_prefix [] sub
contains (a ∷ s) sub = has_prefix (a ∷ s) sub || contains s sub

-- `pgErrContains`, on the text of an error.
unfoldable pub pg_err_contains : String → (sub : String) → Bool
unfolding has_prefix contains
pg_err_contains text sub = contains (codes text) (codes sub)
