-- ===== src/Contract/InPostgres.antt =====
-- The PostgresStore keeps the contract, over any database that behaves as documented.
pub mod Rows
pub mod Changes
pub mod Upserting
pub mod Reserving
use avito_test.Prelude.{ℕ, ◌+◌, ◌*◌, ◌≡◌, refl, ◌∙◌, ℤ}
use avito_test.Times.{Time, day_number, date, hour}
use avito_test.Types.{booking_not_found, slot_not_found}
use avito_test.Memory.{Env, page_offset}
use avito_test.Contract.{Form, View, IsBookingStore}
use avito_test.Contract.InPostgres.Rows.{Selects-Finds, available-Offers}
use avito_test.Contract.InPostgres.Changes.{cancel_booking-Cancels}
use avito_test.Contract.InPostgres.Upserting.{upsert_slots-Upserts}
use avito_test.Contract.InPostgres.Reserving.{create_booking-Books}
use avito_test.Postgres.{postgres_store}
use avito_test.Postgres.Driver.{Database, Session, Fetched, found, no_rows, failed}
use avito_test.Postgres.Laws.{IsPostgres}
use avito_test.Postgres.Queries.{
  list_rooms, room_exists, get_schedule_by_room, list_available_slots, get_slot, get_booking_by_id,
  list_counted, list_all_bookings, list_my_future_bookings,
}
use avito_test.Postgres.Commands.{create_room, create_schedule}

-- Every state is well formed: the constraints of the tables see to it.
abbrev pub IsAny : (db : Database) → Session db → Type 0
IsAny db st = Unit {0}

module _ (env : Env) {form : Form} (db : Database) {view : db.State → View}
    {begun seen : db.Tx → View} (laws : IsPostgres form db view begun seen) where
  list_counted_same :
      (page page_size : ℤ) (f : Fetched ℕ) (st : Session db)
      → view (list_counted db page page_size f st).1.state ≡ view st.state
  list_counted_same page page_size (found total) st =
      laws.select_page page_size (page_offset page page_size) st.state
  list_counted_same page page_size no_rows st = refl
  list_counted_same page page_size (failed m) st = refl

  pub postgres_store-IsBookingStore :
      IsBookingStore form (postgres_store env db) (IsAny db) (λ st. view st.state)
  unfolding list_rooms room_exists get_schedule_by_room list_available_slots get_slot
      get_booking_by_id list_all_bookings list_my_future_bookings create_room create_schedule
  postgres_store-IsBookingStore = record {
    calendar = λ st _. laws.constraints st.state;
    create_room =
        λ name description capacity st _. (tt, laws.insert_room name description capacity st.state);
    list_rooms = λ st _. (tt, laws.select_rooms st.state);
    room_exists = λ room_id st _. (tt, laws.select_room_exists room_id st.state);
    create_schedule =
        λ s st _. (tt, laws.insert_schedule s.room_id _ s.start_time s.end_time st.state);
    get_schedule_by_room = λ room_id st _. (tt, laws.select_schedule room_id st.state);
    upsert_slots = λ room_id slots st _. (tt, upsert_slots-Upserts db laws room_id slots st);
    list_available_slots = λ room_id day st _. (
      tt,
      let start = date (day_number day) 0 0 in
          let (read, same) = laws.select_available room_id start (start + 24 * hour) st.state in
          available-Offers form laws.whole (form.id room_id) day (view st.state) _ _ read same,
    );
    get_slot = λ id st _. (
      tt,
      let (read, same) = laws.select_slot id st.state in
          Selects-Finds _ slot_not_found (view st.state) _ _ read same,
    );
    get_booking_by_id = λ id st _. (
      tt,
      let (read, same) = laws.select_booking id st.state in
          Selects-Finds _ booking_not_found (view st.state) _ _ read same,
    );
    create_booking = λ slot_id user_id with_link st _.
        (tt, create_booking-Books env db laws slot_id user_id with_link st);
    list_all_bookings = λ page page_size st _. (
      tt,
      list_counted_same page page_size (db.count_bookings st.state).0
            (record st { state = (db.count_bookings st.state).1 })
          ∙ laws.count_bookings st.state,
    );
    list_my_future_bookings = λ user_id now st _. (tt, laws.select_future user_id now st.state);
    cancel_booking =
        λ booking_id user_id st _. (tt, cancel_booking-Cancels db laws booking_id user_id st);
  }
