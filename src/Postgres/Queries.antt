-- ===== src/Postgres/Queries.antt =====
-- The methods of PostgresStore that only read.
use avito_test.Prelude.{ℕ, ◌+◌, ◌*◌, Bool, Option, none, some, List, String, ℤ}
use avito_test.Times.{Time, day_number, date, hour}
use avito_test.Types.{
  Room, Schedule, Slot, Booking, slot_not_found, booking_not_found, other, Result, ok, err, panic,
}
use avito_test.Memory.{page_offset}
use avito_test.Postgres.Arrays.{int_array_scan}
use avito_test.Postgres.Driver.{
  Database, Session, Fetched, found, no_rows, failed, ScheduleRow, scanned, scanned_or,
  no_rows_text, scan_rows, all_rows,
}

-- Scan of a row of schedules, once the days are read.
abbrev pub schedule_with : ScheduleRow → Result (List ℤ) → Result Schedule
schedule_with r (ok days) = ok (record {
  id = r.id;
  room_id = r.room_id;
  days_of_week = days;
  start_time = r.start_time;
  end_time = r.end_time;
})
schedule_with r (err e) = err e
schedule_with r panic = panic

abbrev pub schedule_of : ScheduleRow → Result Schedule
schedule_of r = schedule_with r (int_array_scan r.days_of_week)

-- `return &out, nil`
abbrev pub found_schedule : Result Schedule → Result (Option Schedule)
found_schedule (ok s) = ok (some s)
found_schedule (err e) = err e
found_schedule panic = panic

abbrev pub schedule_if_any : Fetched ScheduleRow → Result (Option Schedule)
schedule_if_any (found r) = found_schedule (schedule_of r)
schedule_if_any no_rows = ok none
schedule_if_any (failed m) = err (other m)

-- `return out, total, rows.Err()`
abbrev pub with_total : ℕ → Result (List Booking) → Result (List Booking × ℕ)
with_total total (ok out) = ok (out, total)
with_total total (err e) = err e
with_total total panic = panic

module _ (db : Database) where
  abbrev pub Action : Type 0 → Type 0
  Action A = Session db → Result A × Session db

  -- One statement, and what its method makes of the answer.
  abbrev pub run : {F A : Type 0} → (db.State → F × db.State) → (F → Result A) → Action A
  run statement read st =
      let (f, state) = statement st.state in (read f, record st { state = state })

  unfoldable pub list_rooms : Action (List Room)
  unfolding scan_rows
  list_rooms = run db.select_rooms all_rows

  unfoldable pub room_exists : String → Action Bool
  room_exists room_id = run (db.select_room_exists room_id) scanned

  unfoldable pub get_schedule_by_room : String → Action (Option Schedule)
  get_schedule_by_room room_id = run (db.select_schedule room_id) schedule_if_any

  unfoldable pub list_available_slots : String → Time → Action (List Slot)
  unfolding scan_rows
  list_available_slots room_id day =
      let start = date (day_number day) 0 0 in
      run (db.select_available room_id start (start + 24 * hour)) all_rows

  unfoldable pub get_slot : String → Action Slot
  get_slot slot_id = run (db.select_slot slot_id) (scanned_or slot_not_found)

  unfoldable pub get_booking_by_id : String → Action Booking
  get_booking_by_id booking_id = run (db.select_booking booking_id) (scanned_or booking_not_found)

  -- ListAllBookings once the bookings are counted.
  abbrev pub list_counted : (page page_size : ℤ) → Fetched ℕ → Action (List Booking × ℕ)
  list_counted page page_size (found total) st =
      run (db.select_page page_size (page_offset page page_size))
        (λ q. with_total total (all_rows q)) st
  list_counted page page_size no_rows st = (err (other no_rows_text), st)
  list_counted page page_size (failed m) st = (err (other m), st)

  unfoldable pub list_all_bookings : (page page_size : ℤ) → Action (List Booking × ℕ)
  unfolding scan_rows
  list_all_bookings page page_size st =
      let (f, state) = db.count_bookings st.state in
      list_counted page page_size f (record st { state = state })

  unfoldable pub list_my_future_bookings : String → Time → Action (List Booking)
  unfolding scan_rows
  list_my_future_bookings user_id now = run (db.select_future user_id now) all_rows
