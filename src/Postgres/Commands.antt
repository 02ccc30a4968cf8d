-- ===== src/Postgres/Commands.antt =====
-- The methods of PostgresStore that change the database.
use Prim.Native.String
use avito_test.Prelude.{
  suc, Bool, true, false, not, ◌||◌, Option, none, some, List, [], ◌∷◌, String, ℤ, ltb, ◌==◌,
  if◌then◌else◌,
}
use avito_test.Times.{Time}
use avito_test.Types.{
  Room, Schedule, Slot, Booking, Error, slot_not_found, slot_already_booked, booking_not_found,
  forbidden, room_not_found, schedule_exists, invalid_request, other, Result, ok, err, panic,
}
use avito_test.Memory.{Env}
use avito_test.Postgres.Arrays.{int_array_value}
use avito_test.Postgres.Driver.{
  Database, Session, Fetched, found, no_rows, failed, Scanned, row, unreadable, ScheduleRow,
  scanned, no_rows_text, pg_err_contains,
}
use avito_test.Postgres.Queries.{Action, run, schedule_of}

-- The answers of CreateSchedule to the text of an error.
abbrev pub schedule_failure : String → Error
schedule_failure m =
    if pg_err_contains m "duplicate key value violates unique constraint"
    then schedule_exists
    else if pg_err_contains m "violates foreign key constraint"
    then room_not_found
    else other m

abbrev pub schedule_scanned : Result Schedule → Result Schedule
schedule_scanned (ok s) = ok s
schedule_scanned (err (other m)) = err (schedule_failure m)
schedule_scanned (err e) = err e
schedule_scanned panic = panic

abbrev pub schedule_created : Fetched ScheduleRow → Result Schedule
schedule_created (found r) = schedule_scanned (schedule_of r)
schedule_created no_rows = err (schedule_failure no_rows_text)
schedule_created (failed m) = err (schedule_failure m)

-- The answers of CreateBooking to the error of the INSERT, and to the error of Commit.
abbrev pub insert_failure : String → Error
insert_failure m =
    if pg_err_contains m "idx_bookings_active_per_slot" || pg_err_contains m "duplicate key value"
    then slot_already_booked
    else other m

abbrev pub commit_failure : String → Error
commit_failure m = if pg_err_contains m "duplicate key value" then slot_already_booked else other m

abbrev pub if_committed : Booking → Option String → Result Booking
if_committed b none = ok b
if_committed b (some m) = err (commit_failure m)

module _ (db : Database) where
  unfoldable pub create_room : String → Option String → Option ℤ → Action db Room
  create_room name description capacity = run db (db.insert_room name description capacity) scanned

  unfoldable pub create_schedule : Schedule → Action db Schedule
  create_schedule s =
      run db (db.insert_schedule s.room_id (int_array_value s.days_of_week) s.start_time s.end_time)
        schedule_created

  -- The loop of UpsertSlots; `ok tt` is a nil error.
  unfoldable pub upsert_slots : String → List Slot → Action db (Unit {0})
  upsert_slots room_id [] st = (ok tt, st)
  upsert_slots room_id (s ∷ slots) st =
      let (failure, state) = db.insert_slot room_id s.start s.end st.state in
      let st' = record st { state = state } in
      let rest = upsert_slots room_id slots st' in
      elim failure [ some m ↦ (err (other m), st') | none ↦ rest ]

  -- The end of CancelBooking, after the UPDATE.
  abbrev pub read_cancelled : String → Option String → Action db Booking
  read_cancelled booking_id (some m) st = (err (other m), st)
  read_cancelled booking_id none st = run db (db.select_booking booking_id) scanned st

  abbrev pub cancel_owned : (booking_id user_id owner : String) → Action db Booking
  cancel_owned booking_id user_id owner st =
      if not (owner == user_id)
      then (err forbidden, st)
      else let (failure, state) = db.update_cancelled booking_id st.state in
        read_cancelled booking_id failure (record st { state = state })

  abbrev pub cancel_if_any : (booking_id user_id : String) → Fetched String → Action db Booking
  cancel_if_any booking_id user_id (found owner) st = cancel_owned booking_id user_id owner st
  cancel_if_any booking_id user_id no_rows st = (err booking_not_found, st)
  cancel_if_any booking_id user_id (failed m) st = (err (other m), st)

  unfoldable pub cancel_booking : (booking_id user_id : String) → Action db Booking
  cancel_booking booking_id user_id st =
      let (f, state) = db.select_owner booking_id st.state in
      cancel_if_any booking_id user_id f (record st { state = state })

module _ (env : Env) (db : Database) where
  -- `defer tx.Rollback()`, which runs as CreateBooking returns.
  abbrev pub rolled_back : db.Tx → Result Booking → Action db Booking
  rolled_back tx r st = (r, record st { state = db.rollback tx st.state })

  -- The part of CreateBooking from the answer of the INSERT on.
  abbrev pub commit_inserted : Fetched Booking × db.Tx → Action db Booking
  commit_inserted (found b, tx) st =
      let (failure, state) = db.commit tx st.state in
      rolled_back tx (if_committed b failure) (record st { state = state })
  commit_inserted (no_rows, tx) st = rolled_back tx (err (insert_failure no_rows_text)) st
  commit_inserted (failed m, tx) st = rolled_back tx (err (insert_failure m)) st

  -- `"https://meet.example.com/%s"` with a new UUID
  abbrev pub link_for : Bool → Session db → Option String × Session db
  link_for false st = (none, st)
  link_for true st = (
    some (String.◌++◌ "https://meet.example.com/" (env.new_string st.drawn)),
    record st { drawn = suc st.drawn },
  )

  abbrev pub insert_linked :
      (slot_id user_id : String) → db.Tx → Option String × Session db → Result Booking × Session db
  insert_linked slot_id user_id tx (link, st) =
      commit_inserted (db.insert_booking slot_id user_id link tx) st

  -- The part of CreateBooking from the answer about the slot on.
  abbrev pub book_start :
      (slot_id user_id : String) → Bool → Fetched Time × db.Tx → Action db Booking
  book_start slot_id user_id with_link (found start, tx) st =
      let st' = record st { ticks = suc st.ticks } in
      if ltb start (env.now st.ticks)
      then rolled_back tx (err invalid_request) st'
      else insert_linked slot_id user_id tx (link_for with_link st')
  book_start slot_id user_id with_link (no_rows, tx) st = rolled_back tx (err slot_not_found) st
  book_start slot_id user_id with_link (failed m, tx) st = rolled_back tx (err (other m)) st

  abbrev pub book_in : (slot_id user_id : String) → Bool → Scanned db.Tx → Action db Booking
  book_in slot_id user_id with_link (row tx) st =
      book_start slot_id user_id with_link (db.select_start slot_id tx) st
  book_in slot_id user_id with_link (unreadable m) st = (err (other m), st)

  unfoldable pub create_booking : (slot_id user_id : String) → Bool → Action db Booking
  create_booking slot_id user_id with_link st =
      let (tx, state) = db.begin_tx st.state in
      book_in slot_id user_id with_link tx (record st { state = state })
