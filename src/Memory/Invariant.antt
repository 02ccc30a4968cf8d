-- ===== src/Memory/Invariant.antt =====
-- Every operation of the store keeps its tables well formed.
use avito_test.Prelude.{
  ℕ, suc, ◌≤◌, ◌≡◌, ◌≢◌, refl, sym, ap, inl, inr, none, some, List, [], ◌∷◌, ◌++◌, String, Bool,
  true, Dict, lookup, ℤ, Option, arith, any, Bool-cases, Option-cases, insert-each,
  insert-NodupKeys, string_discrete, not-same, ==_iff, subst, subst₂,
}
use avito_test.Types.{Room, Slot, Booking, Schedule, Result}
use avito_test.Memory.{
  Env, World, MemoryStore, new_memory_store, has_id, room_exists, create_room, add_schedule,
  create_schedule, upsert_slots, create_booking, cancel_booking,
}
use avito_test.Memory.Tables.{IsUuidSource, SlotTable, BookingTable, ScheduleTable, IsValid}
use avito_test.Memory.Slots.{upsert_slots-SlotTable}
use avito_test.Memory.Upsert.{upsert_slots_keeps, upsert_slots-IsFrame}
use avito_test.Memory.Bookings.{Occupied, insert-BookingTable, cancel-BookingTable}
use avito_test.Memory.Create.{IsCreated, create_booking-outcome}

any-append :
    (p : Room → Bool) (xs : List Room) (r : Room) → any p xs ≡ true → any p (xs ++ r ∷ []) ≡ true
any-append p [] r h = cc
any-append p (x ∷ xs) r h = ground (arith, any-append p xs r)

module _ (env : Env) (src : IsUuidSource env) where
  SlotTable-later : (n n' : ℕ) (m : Dict Slot) → n ≤ n' → SlotTable env n m → SlotTable env n' m
  SlotTable-later n n' m h v = record {
    keys = v.keys;
    nodup = v.nodup;
    fresh = λ i p. v.fresh i (omega arith);
    named = v.named;
    unique = v.unique;
  }

  BookingTable-later :
      (n n' : ℕ) (slots slots' : Dict Slot) (m : Dict Booking)
      → n ≤ n'
      → ((k : String) (s : Slot) → lookup k slots ≡ some s → lookup k slots' ≡ some s)
      → BookingTable env n slots m
      → BookingTable env n' slots' m
  BookingTable-later n n' slots slots' m h grow v = record {
    keys = v.keys;
    nodup = v.nodup;
    fresh = λ i p. v.fresh i (omega arith);
    booked = λ k b e. kept b.slot_id (v.booked k b e);
    created = v.created;
    exclusive = v.exclusive;
  }
    where
      kept : (k : String) → lookup k slots ≢ none → lookup k slots' ≢ none
      kept k there gone = elim (Option-cases (lookup k slots)) [
        | inl e ↦ there e
        | inr (s, e) ↦ cc (grow k s e, gone)
      ]

  -- The empty store is well formed, whatever the UUIDs drawn and the clock readings so far.
  pub new_memory_store-IsValid :
      (n t : ℕ) → IsValid env (record { store = new_memory_store; drawn = n; ticks = t })
  unfolding lookup
  new_memory_store-IsValid n t = record {
    slots = record {
      keys = λ k s h. cc;
      nodup = tt;
      fresh = λ i h. refl;
      named = refl;
      unique = λ k j s t h. cc;
    };
    bookings = record {
      keys = λ k b h. cc;
      nodup = tt;
      fresh = λ i h. refl;
      booked = λ k b h. cc;
      created = λ k b h. cc;
      exclusive = λ k j b c h. cc;
    };
    schedules = record { keys = λ k s h. cc; nodup = tt; known = λ k s h. cc };
  }

  pub create_room-IsValid :
      (name : String) (description : Option String) (capacity : Option ℤ) (w : World)
      → IsValid env w
      → IsValid env (create_room env name description capacity w).1
  unfolding create_room room_exists
  create_room-IsValid name description capacity w v = record {
    slots = SlotTable-later w.drawn (suc w.drawn) w.store.slots (omega arith) v.slots;
    bookings =
        BookingTable-later w.drawn (suc w.drawn) w.store.slots w.store.slots w.store.bookings
          (omega arith) (λ k s h. h) v.bookings;
    schedules = record {
      keys = v.schedules.keys;
      nodup = v.schedules.nodup;
      known = λ k s h. any-append (has_id k) w.store.rooms _ (v.schedules.known k s h);
    };
  }

  add_schedule-IsValid :
      (s : Schedule) (w : World)
      → room_exists s.room_id w.store ≡ true
      → IsValid env w
      → IsValid env (add_schedule env s w).1
  unfolding room_exists
  add_schedule-IsValid s w there v = record {
    slots = SlotTable-later w.drawn (suc w.drawn) w.store.slots (omega arith) v.slots;
    bookings =
        BookingTable-later w.drawn (suc w.drawn) w.store.slots w.store.slots w.store.bookings
          (omega arith) (λ k s h. h) v.bookings;
    schedules = record {
      keys = insert-each (λ k s. s.room_id ≡ k) s.room_id _ w.store.schedules refl v.schedules.keys;
      nodup = insert-NodupKeys s.room_id _ w.store.schedules v.schedules.nodup;
      known =
          insert-each (λ k _. any (has_id k) w.store.rooms ≡ true) s.room_id _ w.store.schedules
            there v.schedules.known;
    };
  }

  pub create_schedule-IsValid :
      (s : Schedule) (w : World) → IsValid env w → IsValid env (create_schedule env s w).1
  unfolding create_schedule
  create_schedule-IsValid s w v = elim (Bool-cases (room_exists s.room_id w.store)) [
    | inr e ↦ rw (e, create_schedule) v
    | inl e ↦ elim (Option-cases (lookup s.room_id w.store.schedules)) [
      | inl new ↦ rw (e, new, create_schedule) (add_schedule-IsValid s w e v)
      | inr (old, found) ↦ rw (e, found, create_schedule) v
    ]
  ]

  ScheduleTable-frame :
      (m m' : MemoryStore)
      → m'.rooms ≡ m.rooms
      → m'.schedules ≡ m.schedules
      → ScheduleTable env m
      → ScheduleTable env m'
  unfolding room_exists
  ScheduleTable-frame m m' same_rooms same v = record {
    keys = λ k s h. v.keys k s (rw same at h);
    nodup = rw same v.nodup;
    known = λ k s h. rw same_rooms (v.known k s (rw same at h));
  }

  pub upsert_slots-IsValid :
      (room_id : String) (slots : List Slot) (w : World)
      → IsValid env w
      → IsValid env (upsert_slots env room_id slots w)
  upsert_slots-IsValid room_id slots w v =
      let w' = upsert_slots env room_id slots w in
      let f = upsert_slots-IsFrame env room_id slots w in
      record {
        slots = upsert_slots-SlotTable env src room_id slots w v.slots;
        bookings = subst (BookingTable env w'.drawn w'.store.slots) (sym f.bookings) (
            BookingTable-later w.drawn w'.drawn w.store.slots w'.store.slots w.store.bookings
              f.drawn (λ k t h. upsert_slots_keeps env src room_id slots w k t v.slots h)
              v.bookings);
        schedules = ScheduleTable-frame w.store w'.store f.rooms f.schedules v.schedules;
      }

  -- A reading of the clock changes no table.
  pub ticked : (w : World) (t : ℕ) → IsValid env w → IsValid env (record w { ticks = t })
  ticked w t v = record { slots = v.slots; bookings = v.bookings; schedules = v.schedules }

  pub IsCreated-IsValid :
      (slot_id user_id : String) (with_link : Bool) (w w' : World) (b : Booking) (s : Slot)
      → lookup slot_id w.store.slots ≡ some s
      → (¬ Occupied slot_id w.store.bookings)
      → IsCreated env slot_id user_id with_link w b w'
      → IsValid env w
      → IsValid env w'
  IsCreated-IsValid slot_id user_id with_link w w' b s found free c v = record {
    slots =
        subst (SlotTable env w'.drawn) (sym (ap (λ (m : MemoryStore). m.slots) c.stored))
          (SlotTable-later w.drawn w'.drawn w.store.slots (omega (arith, c.drawn)) v.slots);
    bookings =
        subst₂ (BookingTable env w'.drawn) (sym (ap (λ (m : MemoryStore). m.slots) c.stored))
          (sym (ap (λ (m : MemoryStore). m.bookings) c.stored))
          (insert-BookingTable env src w.drawn w'.drawn w.store.slots w.store.bookings b c.id
            c.drawn (λ e. cc (found, e, c.slot)) (λ e. cc (e, c.created_at)) (rw c.slot free)
            v.bookings);
    schedules =
        ScheduleTable-frame w.store w'.store (ap (λ (m : MemoryStore). m.rooms) c.stored)
          (ap (λ (m : MemoryStore). m.schedules) c.stored) v.schedules;
  }

  -- CreateBooking keeps the store well formed, whichever way it ends.
  pub create_booking-IsValid :
      (slot_id user_id : String) (with_link : Bool) (w : World)
      → IsValid env w
      → IsValid env (create_booking env slot_id user_id with_link w).1
  create_booking-IsValid slot_id user_id with_link w v =
      elim (create_booking-outcome env slot_id user_id with_link w v.bookings.nodup) [
        | inl (_, e) ↦ subst (λ (r : Result Booking × World). IsValid env r.1) (sym e) v
        | inr (inl (s, found, past, refused, same)) ↦ rw same (ticked w (suc w.ticks) v)
        | inr (inr (inl (s, found, later, taken, refused, same))) ↦
            rw same (ticked w (suc w.ticks) v)
        | inr (inr (inr (s, found, later, free, b, done, made))) ↦
            IsCreated-IsValid slot_id user_id with_link w _ b s found free made v
      ]

  -- CancelBooking keeps the store well formed, whichever way it ends.
  pub cancel_booking-IsValid :
      (booking_id user_id : String) (w : World)
      → IsValid env w
      → IsValid env (cancel_booking booking_id user_id w).1
  unfolding cancel_booking
  cancel_booking-IsValid booking_id user_id w v =
      elim (Option-cases (lookup booking_id w.store.bookings)) [
        | inl e ↦ rw (e, cancel_booking) v
        | inr (b, e) ↦ elim (string_discrete b.user_id user_id) [
          | no other ↦ rw (e, not-same b.user_id user_id other, cancel_booking) v
          | yes mine ↦
              rw (e, (==_iff b.user_id user_id).1 mine, cancel_booking)
                (record {
                  slots = v.slots;
                  bookings =
                      cancel-BookingTable env src w.drawn w.store.slots w.store.bookings booking_id
                        b e v.bookings;
                  schedules = ScheduleTable-frame w.store _ refl refl v.schedules;
                })
        ]
      ]
