-- ===== src/Examples/Tables.antt =====
-- A database for the examples: the tables are those of a well-formed MemoryStore. One of its ids is
-- known in two spellings, and times are kept to the microsecond.
use avito_test.Prelude.{
  ◌/◌, ◌*◌, map, arith, refl, none, String, lookup, true, false, ◌==◌, if◌then◌else◌,
}
use avito_test.Times.{Time}
use avito_test.Memory.{create_booking}
use avito_test.Memory.Invariant.{create_booking-IsValid}
use avito_test.Contract.{Form, View}
use avito_test.Contract.InMemory.{memory_view}
use avito_test.Postgres.Driver.{Database, found, no_rows, failed, row, refused, rows}
use avito_test.Postgres.Laws.{start_of, owner_of, IsPostgres}
use avito_test.Examples.Fixture.{env, env-IsUuidSource}
use avito_test.Examples.Listing.{selected, selected-SelectsSlots}
use avito_test.Examples.Changes.{
  Valid, view_of, memory, row_of, row_of-Selects, insert_answer, insert_answer-InsertsBooking,
  insert_slot_in, insert_slot_in-IsInserted, cancel_in, cancel_in-Updates,
}

abbrev pub canonical : String → String
canonical s = if s == "UUU" then "uuu" else s

abbrev pub microseconds : Time → Time
microseconds t = t / 1000 * 1000

abbrev pub tables_form : Form
tables_form = record { id = canonical; time = microseconds }

abbrev pub database : Database
database = record {
  State = Valid;
  Tx = Valid × Valid;
  insert_room = λ name description capacity s. (failed "read only", s);
  select_rooms = λ s. (refused "no rooms", s);
  select_room_exists = λ id s. (found true, s);
  insert_schedule = λ room_id days from until s. (failed "read only", s);
  select_schedule = λ room_id s. (no_rows, s);
  insert_slot = λ room_id start end s.
      (none, insert_slot_in (canonical room_id) (microseconds start) (microseconds end) s);
  select_available = λ room_id start end s. (
    rows (map row (selected (canonical room_id) (microseconds start) (microseconds end) s.0)) none,
    s,
  );
  select_slot = λ id s. (row_of (lookup (canonical id) s.0.store.slots), s);
  select_booking = λ id s. (row_of (lookup (canonical id) s.0.store.bookings), s);
  count_bookings = λ s. (failed "no listing", s);
  select_page = λ limit offset s. (refused "no listing", s);
  select_future = λ user_id now s. (refused "no listing", s);
  select_owner = λ id s. (row_of (owner_of (lookup (canonical id) s.0.store.bookings)), s);
  update_cancelled =
      λ id s. (none, cancel_in (canonical id) (lookup (canonical id) s.0.store.bookings) s);
  begin_tx = λ s. (row (s, s), s);
  select_start = λ id tx. (row_of (start_of (lookup (canonical id) tx.1.0.store.slots)), tx);
  insert_booking = λ slot_id user_id link (begun, (w, v)).
      let r = create_booking env (canonical slot_id) (canonical user_id) false w in
      (
        insert_answer r.0,
        (
          begun,
          (
            r.1,
            create_booking-IsValid env env-IsUuidSource (canonical slot_id) (canonical user_id)
                false w v,
          ),
        ),
      );
  commit = λ (begun, seen) s. (none, seen);
  rollback = λ tx s. s;
}

abbrev pub begun_view : Valid × Valid → View
begun_view tx = view_of tx.0

abbrev pub seen_view : Valid × Valid → View
seen_view tx = view_of tx.1

pub database-IsPostgres : IsPostgres tables_form database view_of begun_view seen_view
database-IsPostgres = record {
  whole = λ t h. omega arith;
  constraints = λ s. memory.calendar s.0 s.1;
  insert_room = λ name description capacity s. refl;
  select_rooms = λ s. refl;
  select_room_exists = λ id s. refl;
  insert_schedule = λ room_id days from until s. refl;
  select_schedule = λ room_id s. refl;
  insert_slot = λ room_id start end s.
      insert_slot_in-IsInserted (canonical room_id) (microseconds start) (microseconds end) s;
  select_available = λ room_id start end s. (
    selected-SelectsSlots (canonical room_id) (microseconds start) (microseconds end) s.0 s.1,
    refl,
  );
  select_slot = λ id s. (row_of-Selects (lookup (canonical id) s.0.store.slots), refl);
  select_booking = λ id s. (row_of-Selects (lookup (canonical id) s.0.store.bookings), refl);
  count_bookings = λ s. refl;
  select_page = λ limit offset s. refl;
  select_future = λ user_id now s. refl;
  select_owner =
      λ id s. (row_of-Selects (owner_of (lookup (canonical id) s.0.store.bookings)), refl);
  update_cancelled =
      λ id s. cancel_in-Updates (canonical id) (lookup (canonical id) s.0.store.bookings) s refl;
  begin_tx = λ s. ((refl, refl), refl);
  select_start =
      λ id tx. (row_of-Selects (start_of (lookup (canonical id) tx.1.0.store.slots)), refl, refl);
  insert_booking = λ slot_id user_id link (begun, (w, v)). (
    insert_answer-InsertsBooking (canonical slot_id) (canonical user_id) (memory_view w) _ _
        (memory.create_booking (canonical slot_id) (canonical user_id) false w v).1,
    refl,
  );
  commit = λ (begun, seen) s same. refl;
  rollback = λ tx s. refl;
}
