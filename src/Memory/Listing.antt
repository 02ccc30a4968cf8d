-- ===== src/Memory/Listing.antt =====
-- ListAvailableSlots and ListMyFutureBookings: which entries they return, and in which order.
use avito_test.Prelude.{
  ◌+◌, ◌*◌, ◌≤◌, ◌<◌, ◌≡◌, ◌↔◌, refl, ◌∙◌, ap, inl, inr, some, List, String, Bool, true, false,
  Dict, lookup, values, NodupKeys, mem-values, lookup_of_mem-values, Memᴰ, keep, mem-keep,
  mem_of_mem-keep, sort_func, mem-sort_func, mem_of_mem-sort_func, sort_func-IsSorted, IsSorted,
  arith, Bool-cases,
}
use avito_test.Times.{Time, day_number, day_length}
use avito_test.Types.{Slot, ok}
use avito_test.Memory.{
  Env, World, MemoryStore, is_busy, is_available, starts_before, list_available_slots,
}
use avito_test.Memory.Tables.{IsValid}
use avito_test.Memory.Bookings.{Occupied, is_busy_iff}

module _ (room_id : String) (day : Time) (m : MemoryStore) (s : Slot) where
  -- A slot of the room that begins on the day and has no active booking.
  abbrev pub IsFree : Type 0
  IsFree =
      (s.room_id ≡ room_id)
      × (day_number day * day_length ≤ s.start)
      × (s.start < (day_number day + 1) * day_length)
      × (¬ Occupied s.id m.bookings)

  is_available_sound : NodupKeys m.bookings → is_available room_id day m s ≡ true → IsFree
  is_available_sound u e =
      (ground arith, ground arith, ground arith, λ o. cc ((is_busy_iff s.id m u).1 o, idle))
    where
      idle : is_busy s.id m ≡ false
      idle = ground arith

  is_available_complete : NodupKeys m.bookings → IsFree → is_available room_id day m s ≡ true
  is_available_complete u (room, from, to, free) = elim (Bool-cases (is_busy s.id m)) [
    | inl busy ↦ absurd (free ((is_busy_iff s.id m u).0 busy))
    | inr idle ↦ ground arith
  ]

mem-values_iff :
    (m : Dict Slot) (s : Slot)
    → ((k : String) (t : Slot) → lookup k m ≡ some t → t.id ≡ k)
    → NodupKeys m
    → Memᴰ s (values m)
    → lookup s.id m ≡ some s
mem-values_iff m s keys u mem =
    let (k, found) = lookup_of_mem-values m u mem in ap (λ i. lookup i m) (keys k s found) ∙ found

pub starts_before-asym : (s t : Slot) → starts_before s t ≡ true → starts_before t s ≡ false
starts_before-asym s t h = ground arith

pub starts_before-skip :
    (x y z : Slot)
    → starts_before x y ≡ true
    → starts_before z y ≡ false
    → starts_before z x ≡ false
starts_before-skip x y z h k = ground arith

-- In a well-formed store ListAvailableSlots returns, without an error and without changing the
-- store, a list in order of the start that holds exactly the stored slots of the room that begin on
-- the given day and have no active booking.
pub list_available_slots-mem :
    (env : Env) (room_id : String) (day : Time) (w : World) (s : Slot)
    → IsValid env w
    → (slots : List Slot) × (list_available_slots room_id day w ≡ (ok slots, w))
      × IsSorted starts_before slots
      × (Memᴰ s slots ↔ ((lookup s.id w.store.slots ≡ some s) × IsFree room_id day w.store s))
unfolding list_available_slots
list_available_slots-mem env room_id day w s v = (
  sort_func starts_before found,
  refl,
  sort_func-IsSorted starts_before starts_before-asym starts_before-skip found,
  (sound, complete),
)
  where
    test : Slot → Bool
    test = is_available room_id day w.store

    found : List Slot
    found = keep test (values w.store.slots)

    sound :
        Memᴰ s (sort_func starts_before found)
        → (lookup s.id w.store.slots ≡ some s) × IsFree room_id day w.store s
    sound mem =
        let (stored, e) =
          mem_of_mem-keep test (values w.store.slots)
            (mem_of_mem-sort_func starts_before found mem) in
        (
          mem-values_iff w.store.slots s v.slots.keys v.slots.nodup stored,
          is_available_sound room_id day w.store s v.bookings.nodup e,
        )

    complete :
        (lookup s.id w.store.slots ≡ some s) × IsFree room_id day w.store s
        → Memᴰ s (sort_func starts_before found)
    complete (stored, free) = mem-sort_func starts_before found (
        mem-keep test (values w.store.slots) (mem-values s.id w.store.slots stored)
          (is_available_complete room_id day w.store s v.bookings.nodup free))
