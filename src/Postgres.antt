-- ===== src/Postgres.antt =====
-- internal/app/store_postgres.go: the store over a PostgreSQL database. Each statement is a call of
-- a parameter, the database with its driver.
pub mod Arrays
pub mod Driver
pub mod Queries
pub mod Commands
pub mod Laws
use avito_test.Store.{Store}
use avito_test.Memory.{Env}
use avito_test.Postgres.Driver.{Database, Session}
use avito_test.Postgres.Queries
use avito_test.Postgres.Commands

-- PostgresStore as a Store.
abbrev pub postgres_store : Env → Database → Store
postgres_store env db = record {
  State = Session db;
  create_room = Commands.create_room db;
  list_rooms = Queries.list_rooms db;
  room_exists = Queries.room_exists db;
  create_schedule = Commands.create_schedule db;
  get_schedule_by_room = Queries.get_schedule_by_room db;
  upsert_slots = Commands.upsert_slots db;
  list_available_slots = Queries.list_available_slots db;
  get_slot = Queries.get_slot db;
  get_booking_by_id = Queries.get_booking_by_id db;
  create_booking = Commands.create_booking env db;
  list_all_bookings = Queries.list_all_bookings db;
  list_my_future_bookings = Queries.list_my_future_bookings db;
  cancel_booking = Commands.cancel_booking db;
}
