-- ===== src/Contract/InMemory.antt =====
-- The MemoryStore keeps the contract.
use mathlib.Core.Path.{fun_ext}
use avito_test.Prelude.{
  ℕ, ◌≡◌, refl, sym, ap, ◌↔◌, ◌∙◌, inl, inr, Option, List, String, ℤ, lookup, insert, lookup-insert,
  subst, arith, Option-cases, Memᴰ, Bool, Bool-cases, values,
}
use avito_test.Times.{Time}
use avito_test.Types.{
  Slot, Booking, cancelled, Result, ok, err, panic, Schedule, booking_not_found, slot_not_found,
}
use avito_test.Memory.{
  Env, World, MemoryStore, create_booking, cancel_booking, get_slot, get_booking_by_id,
  upsert_slots, list_available_slots, list_all_bookings, page_of, sort_by_creation,
  list_my_future_bookings, create_room, create_schedule, room_exists, list_rooms,
  get_schedule_by_room,
}
use avito_test.Memory.Tables.{IsUuidSource, IsValid}
use avito_test.Memory.Create.{create_booking-outcome}
use avito_test.Memory.Cancel.{cancel_booking-outcome}
use avito_test.Memory.Listing.{list_available_slots-mem}
use avito_test.Memory.Upsert.{
  upsert_slots_keeps, upsert_slots-ComesFrom, upsert_slots-Stored, upsert_slots-IsFrame,
}
use avito_test.Memory.Invariant.{
  create_room-IsValid, create_schedule-IsValid, upsert_slots-IsValid, create_booking-IsValid,
  cancel_booking-IsValid,
}
use avito_test.Store.{memory_store}
use avito_test.Contract.{
  View, exact, IsCalendar, put_booking, Finds, Books, Cancels, Offers, IsOffered, Upserts,
  IsBookingStore,
}

-- What a client can see of the maps.
abbrev pub store_view : MemoryStore → View
store_view m = record { slots = λ k. lookup k m.slots; bookings = λ k. lookup k m.bookings }

abbrev pub memory_view : World → View
memory_view w = store_view w.store

pub insert-put_booking :
    (k : String) (b : Booking) (m : MemoryStore)
    → store_view (record m { bookings = insert k b m.bookings }) ≡ put_booking k b (store_view m)
insert-put_booking k b m =
    let entries = fun_ext (λ j. lookup-insert j k b m.bookings) in
    λ i. record { slots = λ j. lookup j m.slots; bookings = entries i }

module _ (env : Env) where
  memory-IsCalendar : (w : World) → IsValid env w → IsCalendar (memory_view w)
  memory-IsCalendar w v = record {
    slot_keys = v.slots.keys;
    booking_keys = v.bookings.keys;
    booked = v.bookings.booked;
    exclusive = v.bookings.exclusive;
  }

  memory_get_slot :
      (id : String) (w : World)
      → Finds
          (lookup id w.store.slots)
          slot_not_found
          (memory_view w)
          (memory_view w)
          (get_slot id w.store)
  unfolding get_slot
  memory_get_slot id w = elim (Option-cases (lookup id w.store.slots)) [
    | inl e ↦ rw (e, get_slot) (inl (refl, refl), refl)
    | inr (s, e) ↦ rw (e, get_slot) (refl, refl)
  ]

  memory_get_booking_by_id :
      (id : String) (w : World)
      → Finds
          (lookup id w.store.bookings)
          booking_not_found
          (memory_view w)
          (memory_view w)
          (get_booking_by_id id w.store)
  unfolding get_booking_by_id
  memory_get_booking_by_id id w = elim (Option-cases (lookup id w.store.bookings)) [
    | inl e ↦ rw (e, get_booking_by_id) (inl (refl, refl), refl)
    | inr (s, e) ↦ rw (e, get_booking_by_id) (refl, refl)
  ]

  memory_create_booking :
      (slot_id user_id : String) (with_link : Bool) (w : World)
      → IsValid env w
      → let r = create_booking env slot_id user_id with_link w in
        Books slot_id user_id (memory_view w) (memory_view r.1) r.0
  memory_create_booking slot_id user_id with_link w v =
      elim (create_booking-outcome env slot_id user_id with_link w v.bookings.nodup) [
        | inl (gone, e) ↦ rw e (inl (refl, gone), refl)
        | inr (inl (s, at, past, e, same)) ↦ rw (e, same) (inr (inl (refl, cc (at))), refl)
        | inr (inr (inl (s, at, ahead, taken, e, same))) ↦
            rw (e, same) (inr (inr (inl (refl, taken))), refl)
        | inr (inr (inr (s, at, ahead, free, b, e, made))) ↦ rw e (record {
          exists = cc (at);
          free = free;
          fresh =
              ap (λ i. lookup i w.store.bookings) made.id ∙ v.bookings.fresh w.drawn (omega arith);
          slot_id = made.slot;
          user_id = made.user;
          status = made.status;
          gained = ap store_view made.stored ∙ insert-put_booking b.id b w.store;
        })
      ]

  memory_cancel_booking :
      (booking_id user_id : String) (w : World)
      → let r = cancel_booking booking_id user_id w in
        Cancels booking_id user_id (memory_view w) (memory_view r.1) r.0
  memory_cancel_booking booking_id user_id w = elim (cancel_booking-outcome booking_id user_id w) [
    | inl (gone, e) ↦ rw e (inl (refl, gone, refl))
    | inr (inl (b, found, other, e)) ↦ rw e (inr (inl (refl, b, found, other, refl)))
    | inr (inr (b, found, mine, e)) ↦ rw e (
      b,
      refl,
      (found, mine, insert-put_booking booking_id (record b { status = cancelled }) w.store),
    )
  ]

  memory_upsert_slots :
      (room_id : String) (slots : List Slot) (src : IsUuidSource env) (w : World)
      → IsValid env w
      → Upserts exact room_id slots
          (memory_view w)
          (memory_view (upsert_slots env room_id slots w))
          (ok tt)
  memory_upsert_slots room_id slots src w v = (
    record {
      bookings =
          ap (λ m. λ (k : String). lookup k m) (upsert_slots-IsFrame env room_id slots w).bookings;
      kept = λ k t h. upsert_slots_keeps env src room_id slots w k t v.slots h;
      origin = λ k t h. upsert_slots-ComesFrom env src room_id slots w k t h;
    },
    upsert_slots-Stored env src room_id slots w v.slots,
  )

  memory_list_available_slots :
      (room_id : String) (day : Time) (w : World)
      → IsValid env w
      → let r = list_available_slots room_id day w in
        Offers room_id day (memory_view w) (memory_view r.1) r.0
  memory_list_available_slots room_id day w v =
      let none_slot : Slot = record { id = ""; room_id = ""; start = 0; end = 0 } in
      let (slots, e, sorted, _) = list_available_slots-mem env room_id day w none_slot v in
      rw e (listed slots e, sorted, refl)
    where
      same :
          (slots slots' : List Slot)
          → list_available_slots room_id day w ≡ (ok slots, w)
          → list_available_slots room_id day w ≡ (ok slots', w)
          → slots' ≡ slots
      same slots slots' e e' = cc

      listed :
          (slots : List Slot)
          → list_available_slots room_id day w ≡ (ok slots, w)
          → (s : Slot) → Memᴰ s slots ↔ IsOffered room_id day (memory_view w) s
      listed slots e s =
          let (slots', e', _, iff) = list_available_slots-mem env room_id day w s v in
          subst (λ l. Memᴰ s l ↔ IsOffered room_id day (memory_view w) s) (same slots slots' e e')
            iff

  memory_create_room :
      (name : String) (description : Option String) (capacity : Option ℤ) (w : World)
      → memory_view (create_room env name description capacity w).1 ≡ memory_view w
  unfolding create_room
  memory_create_room name description capacity w = refl

  memory_create_schedule :
      (s : Schedule) (w : World) → memory_view (create_schedule env s w).1 ≡ memory_view w
  unfolding create_schedule
  memory_create_schedule s w = elim (Bool-cases (room_exists s.room_id w.store)) [
    | inr e ↦ rw (e, create_schedule)
    | inl e ↦ elim (Option-cases (lookup s.room_id w.store.schedules)) [
      | inl new ↦ rw (e, new, create_schedule)
      | inr (old, found) ↦ rw (e, found, create_schedule)
    ]
  ]

  same_world : (page page_size : ℤ) (w : World) → (list_all_bookings page page_size w).1 ≡ w
  unfolding list_all_bookings
  same_world page page_size w =
      elim (sort_by_creation (values w.store.bookings))
        as (λ sorted.
          (elim sorted as (λ _. Result (List Booking × ℕ) × World) [
            | ok all ↦ (page_of all page page_size, w)
            | err e ↦ (err e, w)
            | panic ↦ (panic, w)
          ]).1
          ≡ w) [ ok all ↦ refl | err e ↦ refl | panic ↦ refl ]

  -- The MemoryStore keeps the contract of the interface Store: with well-formed tables as the
  -- invariant and the contents of its maps as the view, every method keeps the invariant and
  -- answers as the specification says, provided that uuid.NewString never repeats a text nor
  -- returns the empty one.
  pub memory_store-IsBookingStore :
      IsUuidSource env → IsBookingStore exact (memory_store env) (IsValid env) memory_view
  unfolding list_rooms get_schedule_by_room list_my_future_bookings list_available_slots
  memory_store-IsBookingStore src = record {
    calendar = memory-IsCalendar;
    create_room = λ name description capacity w v. (
      create_room-IsValid env src name description capacity w v,
      memory_create_room name description capacity w,
    );
    list_rooms = λ w v. (v, refl);
    room_exists = λ room_id w v. (v, refl);
    create_schedule = λ s w v. (create_schedule-IsValid env src s w v, memory_create_schedule s w);
    get_schedule_by_room = λ room_id w v. (v, refl);
    upsert_slots = λ room_id slots w v.
        (upsert_slots-IsValid env src room_id slots w v, memory_upsert_slots room_id slots src w v);
    list_available_slots = λ room_id day w v. (v, memory_list_available_slots room_id day w v);
    get_slot = λ id w v. (v, memory_get_slot id w);
    get_booking_by_id = λ id w v. (v, memory_get_booking_by_id id w);
    create_booking = λ slot_id user_id with_link w v. (
      create_booking-IsValid env src slot_id user_id with_link w v,
      memory_create_booking slot_id user_id with_link w v,
    );
    list_all_bookings = λ page page_size w v. (
      subst (IsValid env) (sym (same_world page page_size w)) v,
      ap memory_view (same_world page page_size w),
    );
    list_my_future_bookings = λ user_id now w v. (v, refl);
    cancel_booking = λ booking_id user_id w v. (
      cancel_booking-IsValid env src booking_id user_id w v,
      memory_cancel_booking booking_id user_id w,
    );
  }
