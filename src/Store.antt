-- ===== src/Store.antt =====
-- The interface `Store` of internal/app/types.go, which the handlers use, and its implementation by
-- the MemoryStore.
use avito_test.Prelude.{ℕ, ℤ, Bool, Option, List, String}
use avito_test.Times.{Time}
use avito_test.Types.{Room, Schedule, Slot, Booking, Result, ok}
use avito_test.Memory
use avito_test.Memory.{Env, World}

-- Each method takes the store's state and returns what the call ends with and the new state.
pub record Store : Type 1 where
  pub State : Type 0
  pub create_room : String → Option String → Option ℤ → State → Result Room × State
  pub list_rooms : State → Result (List Room) × State
  pub room_exists : String → State → Result Bool × State
  pub create_schedule : Schedule → State → Result Schedule × State
  pub get_schedule_by_room : String → State → Result (Option Schedule) × State
  pub upsert_slots : String → List Slot → State → Result (Unit {0}) × State
  pub list_available_slots : String → Time → State → Result (List Slot) × State
  pub get_slot : String → State → Result Slot × State
  pub get_booking_by_id : String → State → Result Booking × State
  pub create_booking : (slot_id user_id : String) → Bool → State → Result Booking × State
  pub list_all_bookings : (page page_size : ℤ) → State → Result (List Booking × ℕ) × State
  pub list_my_future_bookings : String → Time → State → Result (List Booking) × State
  pub cancel_booking : (booking_id user_id : String) → State → Result Booking × State

abbrev pub memory_store : Env → Store
memory_store env = record {
  State = World;
  create_room = Memory.create_room env;
  list_rooms = Memory.list_rooms;
  room_exists = λ room_id w. (ok (Memory.room_exists room_id w.store), w);
  create_schedule = Memory.create_schedule env;
  get_schedule_by_room = Memory.get_schedule_by_room;
  upsert_slots = λ room_id slots w. (ok tt, Memory.upsert_slots env room_id slots w);
  list_available_slots = Memory.list_available_slots;
  get_slot = λ slot_id w. (Memory.get_slot slot_id w.store, w);
  get_booking_by_id = λ booking_id w. (Memory.get_booking_by_id booking_id w.store, w);
  create_booking = Memory.create_booking env;
  list_all_bookings = Memory.list_all_bookings;
  list_my_future_bookings = Memory.list_my_future_bookings;
  cancel_booking = Memory.cancel_booking;
}
