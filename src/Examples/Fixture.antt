-- ===== src/Examples/Fixture.antt =====
-- A run of the service that the examples start from: UUIDs, a clock, and a few calls.
use avito_test.Prelude.{
  ℕ, zero, suc, ◌+◌, ◌*◌, false, ◌≡◌, ◌≢◌, refl, sym, ap, none, some, List, [], ◌∷◌, String, pos,
  string_discrete, lookup, insert, values, length, sort_func, Dict,
}
use avito_test.Times.{date, minute}
use avito_test.Types.{Schedule, Slot, Booking, active, cancelled, ok}
use avito_test.Memory.{
  Env, World, new_memory_store, create_room, create_schedule, upsert_slots, create_booking,
  cancel_booking, upsert_slot, existing_id, room_exists, get_slot, is_busy, add_booking,
}
use avito_test.Memory.Pages.{newest_first}
use avito_test.Memory.Tables.{IsUuidSource, IsValid}
use avito_test.Memory.History.{
  Reach, start, next, room, schedule, slots, book, cancel, Reach-IsValid,
}

-- "u", "uu", "uuu", …
pub uuid : ℕ → String
uuid zero = "u"
uuid (suc n) = String.◌∷◌ "u" (uuid n)

abbrev tail : String → String
tail String.[] = String.[]
tail (String.◌∷◌ c s) = s

uuid-nonempty : (n : ℕ) → uuid n ≢ ""
unfolding uuid
uuid-nonempty zero = cc
uuid-nonempty (suc n) = cc

uuid-injective : (i j : ℕ) → uuid i ≡ uuid j → i ≡ j
unfolding uuid
uuid-injective zero zero e = refl
uuid-injective zero (suc j) e = absurd (uuid-nonempty j (sym (ap tail e)))
uuid-injective (suc i) zero e = absurd (uuid-nonempty i (ap tail e))
uuid-injective (suc i) (suc j) e = ap suc (uuid-injective i j (ap tail e))

-- Monday, 23 March 2026
abbrev pub monday : ℕ
monday = 740063

-- The clock starts at 08:00 and advances by a nanosecond with each reading.
abbrev pub env : Env
env = record { new_string = uuid; now = λ n. date monday 8 0 + n }

pub env-IsUuidSource : IsUuidSource env
env-IsUuidSource = record { injective = uuid-injective; nonempty = uuid-nonempty }

-- Mondays, from 09:00 to 10:00, in the room of the first UUID.
abbrev pub mondays : Schedule
mondays = record {
  id = "";
  room_id = "u";
  days_of_week = pos 1 ∷ [];
  start_time = "09:00";
  end_time = "10:00";
}

abbrev pub slot_from : (h m : ℕ) → Slot
slot_from h m = record {
  id = "";
  room_id = "u";
  start = date monday h m;
  end = date monday h m + 30 * minute;
}

abbrev pub new_slots : List Slot
new_slots = slot_from 9 0 ∷ slot_from 9 30 ∷ []

abbrev pub empty_world : World
empty_world = record { store = new_memory_store; drawn = 0; ticks = 0 }

-- A room "u".
abbrev pub with_room : World
with_room = (create_room env "Room" none none empty_world).1

-- Its schedule "uu".
abbrev pub with_schedule : World
with_schedule = (create_schedule env mondays with_room).1

-- Its slots "uuu", from 09:00, and "uuuu", from 09:30.
abbrev pub with_slots : World
with_slots = upsert_slots env "u" new_slots with_schedule

-- The booking "uuuuu" of the first one, by "ann".
abbrev pub with_booking : World
with_booking = (create_booking env "uuu" "ann" false with_slots).1

-- The same booking, cancelled.
abbrev pub with_cancelled : World
with_cancelled = (cancel_booking "uuuuu" "ann" with_booking).1

-- The booking "uuuuuu" of the first slot, by "bob".
abbrev pub with_rebooking : World
with_rebooking = (create_booking env "uuu" "bob" false with_cancelled).1

pub Reach-with_slots : Reach env with_slots
Reach-with_slots = next (next (next start (room _ _ _ _)) (schedule _ _)) (slots _ _ _)

pub Reach-with_booking : Reach env with_booking
Reach-with_booking = next Reach-with_slots (book _ _ _ _)

pub Reach-with_rebooking : Reach env with_rebooking
Reach-with_rebooking = next (next Reach-with_booking (cancel _ _ _)) (book _ _ _ _)

pub with_schedule-IsValid : IsValid env with_schedule
with_schedule-IsValid =
    Reach-IsValid env env-IsUuidSource (next (next start (room _ _ _ _)) (schedule _ _))

pub with_slots-IsValid : IsValid env with_slots
with_slots-IsValid = Reach-IsValid env env-IsUuidSource Reach-with_slots

pub with_booking-IsValid : IsValid env with_booking
with_booking-IsValid = Reach-IsValid env env-IsUuidSource Reach-with_booking

-- The slot "uuu" as it is stored.
abbrev pub stored_slot : Slot
stored_slot = record (slot_from 9 0) { id = "uuu" }

-- The booking that a call makes at the given reading of the clock.
abbrev pub booking_of : (id user_id : String) → (tick : ℕ) → Booking
booking_of id user_id tick = record {
  id = id;
  slot_id = "uuu";
  user_id = user_id;
  status = active;
  conference_link = none;
  created_at = some (env.now tick);
}

pub with_slots-slot : lookup "uuu" with_slots.store.slots ≡ some stored_slot
unfolding create_room create_schedule upsert_slots upsert_slot existing_id uuid lookup insert
    room_exists string_discrete create_booking get_slot is_busy values add_booking
with_slots-slot = refl

pub with_booking-slot : lookup "uuu" with_booking.store.slots ≡ some stored_slot
unfolding create_room create_schedule upsert_slots upsert_slot existing_id uuid lookup insert
    room_exists string_discrete create_booking get_slot is_busy values add_booking
with_booking-slot = refl

pub with_booking-booking :
    lookup "uuuuu" with_booking.store.bookings ≡ some (booking_of "uuuuu" "ann" 2)
unfolding create_room create_schedule upsert_slots upsert_slot existing_id uuid lookup insert
    room_exists string_discrete create_booking get_slot is_busy values add_booking
with_booking-booking = refl

pub with_booking-ticks : with_booking.ticks ≡ 3
unfolding create_room create_schedule upsert_slots upsert_slot existing_id uuid lookup insert
    room_exists string_discrete create_booking get_slot is_busy values add_booking
with_booking-ticks = refl

pub with_booking-ok :
    (create_booking env "uuu" "ann" false with_slots).0 ≡ ok (booking_of "uuuuu" "ann" 2)
unfolding create_room create_schedule upsert_slots upsert_slot existing_id uuid lookup insert
    room_exists string_discrete create_booking get_slot is_busy values add_booking
with_booking-ok = refl

pub with_cancelled-ok :
    (cancel_booking "uuuuu" "ann" with_booking).0
    ≡ ok (record (booking_of "uuuuu" "ann" 2) { status = cancelled })
unfolding create_room create_schedule upsert_slots upsert_slot existing_id uuid lookup insert
    room_exists string_discrete create_booking get_slot is_busy values add_booking cancel_booking
with_cancelled-ok = refl

-- The cancelled booking and the one after it.
abbrev pub two : Dict Booking
two =
    ("uuuuu", record (booking_of "uuuuu" "ann" 2) { status = cancelled })
    ∷ ("uuuuuu", booking_of "uuuuuu" "bob" 4)
    ∷ []

pub with_rebooking-two : with_rebooking.store.bookings ≡ two
unfolding create_room create_schedule upsert_slots upsert_slot existing_id uuid lookup insert
    room_exists string_discrete create_booking cancel_booking get_slot is_busy values add_booking
with_rebooking-two = refl

-- How many bookings ListAllBookings pages through.
pub two_bookings : length (newest_first with_rebooking) ≡ 2
unfolding newest_first sort_func create_room create_schedule upsert_slots upsert_slot existing_id
    uuid lookup insert room_exists string_discrete create_booking cancel_booking get_slot is_busy
    values add_booking
two_bookings = refl
