-- ===== src/Memory/History.antt =====
-- The stores that calls of the MemoryStore can reach from NewMemoryStore.
use avito_test.Prelude.{suc, List, String, Bool, Option, ℤ}
use avito_test.Types.{Schedule, Slot}
use avito_test.Memory.{
  Env, World, new_memory_store, create_room, create_schedule, upsert_slots, create_booking,
  cancel_booking,
}
use avito_test.Memory.Tables.{IsUuidSource, IsValid}
use avito_test.Memory.Invariant.{
  new_memory_store-IsValid, create_room-IsValid, create_schedule-IsValid, upsert_slots-IsValid,
  create_booking-IsValid, cancel_booking-IsValid, ticked,
}

-- One call that can change the store, with any arguments and whatever it answers; or a clock
-- reading by other code.
pub data Step (env : Env) : World → World → Type 0 where
  room :
      (name : String) (description : Option String) (capacity : Option ℤ) (w : World)
      → Step env w (create_room env name description capacity w).1
  schedule : (s : Schedule) (w : World) → Step env w (create_schedule env s w).1
  slots :
      (room_id : String) (slots : List Slot) (w : World)
      → Step env w (upsert_slots env room_id slots w)
  book :
      (slot_id user_id : String) (with_link : Bool) (w : World)
      → Step env w (create_booking env slot_id user_id with_link w).1
  cancel :
      (booking_id user_id : String) (w : World) → Step env w (cancel_booking booking_id user_id w).1
  clock : (w : World) → Step env w (record w { ticks = suc w.ticks })

-- What a run of the service that starts with an empty store can lead to.
pub data Reach (env : Env) : World → Type 0 where
  start : Reach env (record { store = new_memory_store; drawn = 0; ticks = 0 })
  next : {w w' : World} → Reach env w → Step env w w' → Reach env w'

module _ (env : Env) (src : IsUuidSource env) where
  Step-IsValid : {w w' : World} → Step env w w' → IsValid env w → IsValid env w'
  Step-IsValid (room name description capacity w) v =
      create_room-IsValid env src name description capacity w v
  Step-IsValid (schedule s w) v = create_schedule-IsValid env src s w v
  Step-IsValid (slots room_id new w) v = upsert_slots-IsValid env src room_id new w v
  Step-IsValid (book slot_id user_id with_link w) v =
      create_booking-IsValid env src slot_id user_id with_link w v
  Step-IsValid (cancel booking_id user_id w) v =
      cancel_booking-IsValid env src booking_id user_id w v
  Step-IsValid (clock w) v = ticked env src w (suc w.ticks) v

  -- Every store that calls can reach from an empty one, in any order, with any arguments and
  -- with UUIDs that are never empty and never come twice, is well formed: slots, bookings and
  -- schedules stand once under their ids or rooms, no two slots of a room coincide, every
  -- booking is for a stored slot, no two active bookings share a slot, and every schedule's room
  -- exists.
  pub Reach-IsValid : {w : World} → Reach env w → IsValid env w
  Reach-IsValid start = new_memory_store-IsValid env src 0 0
  Reach-IsValid (next r s) = Step-IsValid s (Reach-IsValid r)
