-- ===== src/Memory/Tables.antt =====
-- What always holds of the maps of a MemoryStore.
use avito_test.Prelude.{ℕ, ◌≤◌, ◌≡◌, ◌≢◌, none, some, String, Dict, lookup, NodupKeys, true}
use avito_test.Types.{Schedule, Slot, Booking, active}
use avito_test.Memory.{Env, World, MemoryStore, room_exists}

-- What the store relies on of `uuid.NewString`: no text comes twice, and none is empty.
pub record IsUuidSource (env : Env) : Type 0 where
  pub injective : (i j : ℕ) → env.new_string i ≡ env.new_string j → i ≡ j
  pub nonempty : (i : ℕ) → env.new_string i ≢ ""

-- The same room, start and end.
abbrev pub SameSlot : Slot → Slot → Type 0
SameSlot s t = (s.room_id ≡ t.room_id) × (s.start ≡ t.start) × (s.end ≡ t.end)

module _ (env : Env) where
  -- Slots stand under their ids, later UUIDs are unused, and no two slots of a room coincide.
  pub record SlotTable (drawn : ℕ) (slots : Dict Slot) : Type 0 where
    pub keys : (k : String) (s : Slot) → lookup k slots ≡ some s → s.id ≡ k
    pub nodup : NodupKeys slots
    pub fresh : (i : ℕ) → drawn ≤ i → lookup (env.new_string i) slots ≡ none
    pub named : lookup "" slots ≡ none
    pub unique :
        (k j : String) (s t : Slot)
        → lookup k slots ≡ some s
        → lookup j slots ≡ some t
        → SameSlot s t
        → k ≡ j

  -- Bookings stand under their ids, are for slots that exist, know when they were created, and at
  -- most one booking of a slot is active.
  pub record BookingTable (drawn : ℕ) (slots : Dict Slot) (bookings : Dict Booking) : Type 0 where
    pub keys : (k : String) (b : Booking) → lookup k bookings ≡ some b → b.id ≡ k
    pub nodup : NodupKeys bookings
    pub fresh : (i : ℕ) → drawn ≤ i → lookup (env.new_string i) bookings ≡ none
    pub booked :
        (k : String) (b : Booking) → lookup k bookings ≡ some b → lookup b.slot_id slots ≢ none
    pub created : (k : String) (b : Booking) → lookup k bookings ≡ some b → b.created_at ≢ none
    pub exclusive :
        (k j : String) (b c : Booking)
        → lookup k bookings ≡ some b
        → lookup j bookings ≡ some c
        → b.status ≡ active
        → c.status ≡ active
        → b.slot_id ≡ c.slot_id
        → k ≡ j

  -- A schedule stands under its room, which exists.
  pub record ScheduleTable (m : MemoryStore) : Type 0 where
    pub keys : (k : String) (s : Schedule) → lookup k m.schedules ≡ some s → s.room_id ≡ k
    pub nodup : NodupKeys m.schedules
    pub known : (k : String) (s : Schedule) → lookup k m.schedules ≡ some s → room_exists k m ≡ true

  pub record IsValid (w : World) : Type 0 where
    pub slots : SlotTable w.drawn w.store.slots
    pub bookings : BookingTable w.drawn w.store.slots w.store.bookings
    pub schedules : ScheduleTable w.store
