-- ===== src/Examples/Stores.antt =====
-- The MemoryStore's theorems at the store of the examples.
use avito_test.Prelude.{
  Dict, AllApart, ℕ, zero, suc, ◌∷◌, [], inr, ◌≡◌, ◌≢◌, refl, none, some, List, pos, true, false,
  lookup, values, Memᴰ, ◌↔◌, ◌⊎◌, arith, All, IsSorted, length, take, drop,
}
use mathlib.Core.List.{Perm, Permᴰ}
use mathlib.Core.List.Permᴰ
use avito_test.Times.{date}
use avito_test.Types.{Slot, Booking, active, cancelled, ok, err, booking_not_found, forbidden}
use avito_test.Memory.{
  upsert_slots, create_booking, cancel_booking, list_available_slots, starts_before,
  list_all_bookings, list_my_future_bookings, created_after,
}
use avito_test.Memory.Tables.{IsValid}
use avito_test.Memory.History.{Reach-IsValid}
use avito_test.Memory.Create.{Missing, Past, Taken, Created, create_booking-outcome}
use avito_test.Memory.Cancel.{
  after_cancel, cancel_booking-outcome, cancel_booking_idem, create_booking-cancel,
  create_booking-again,
}
use avito_test.Memory.Upsert.{Stored, upsert_slots_idem, upsert_slots-Stored}
use avito_test.Memory.Listing.{IsFree, list_available_slots-mem}
use avito_test.Memory.Future.{IsFuture, list_my_future_bookings-mem}
use avito_test.Memory.Pages.{newest_first, list_all_bookings-page, read_pages, read_pages-all}
use avito_test.Examples.Fixture.{
  env, env-IsUuidSource, two_bookings, two, with_rebooking-two, monday, new_slots, with_slots,
  with_booking, with_cancelled, with_rebooking, stored_slot, booking_of, with_booking-slot,
  with_booking-ok, with_booking-ticks, with_cancelled-ok, with_schedule, with_schedule-IsValid,
  with_booking-booking, Reach-with_rebooking, with_slots-IsValid, with_booking-IsValid,
}

Reach-IsValid_example : IsValid env with_rebooking
Reach-IsValid_example = Reach-IsValid env env-IsUuidSource Reach-with_rebooking

create_booking-outcome_example :
    let r = create_booking env "uuu" "ann" false with_slots in
    Missing env "uuu" "ann" false with_slots r
    ⊎ (Past env "uuu" "ann" false with_slots r
        ⊎ Taken env "uuu" "ann" false with_slots r
        ⊎ Created env "uuu" "ann" false with_slots r)
create_booking-outcome_example =
    create_booking-outcome env "uuu" "ann" false with_slots with_slots-IsValid.bookings.nodup

create_booking-again_example :
    (create_booking env "uuu" "bob" true with_booking).0 ≢ ok (booking_of "uuuuuu" "bob" 4)
create_booking-again_example =
    create_booking-again env env-IsUuidSource "uuu" "ann" "bob" false true with_slots
      (booking_of "uuuuu" "ann" 2) (booking_of "uuuuuu" "bob" 4) with_slots-IsValid with_booking-ok

create_booking-cancel_example :
    (c : Booking) × ((create_booking env "uuu" "bob" false with_cancelled).0 ≡ ok c)
    × (c.user_id ≡ "bob")
    × (c.slot_id ≡ "uuu")
    × (c.status ≡ active)
create_booking-cancel_example =
    create_booking-cancel env env-IsUuidSource "uuuuu" "bob" false with_booking
      (booking_of "uuuuu" "ann" 2) stored_slot with_booking-IsValid with_booking-booking refl
      with_booking-slot (omega (arith, with_booking-ticks))

cancel_booking_idem_example :
    cancel_booking "uuuuu" "ann" with_cancelled
    ≡ (ok (record (booking_of "uuuuu" "ann" 2) { status = cancelled }), with_cancelled)
cancel_booking_idem_example =
    cancel_booking_idem "uuuuu" "ann" with_booking
      (record (booking_of "uuuuu" "ann" 2) { status = cancelled }) with_cancelled-ok

upsert_slots_idem_example : upsert_slots env "u" new_slots with_slots ≡ with_slots
upsert_slots_idem_example =
    upsert_slots_idem env env-IsUuidSource "u" new_slots with_schedule with_schedule-IsValid.slots

list_available_slots-mem_example :
    (slots : List Slot) × (list_available_slots "u" (date monday 0 0) with_booking
      ≡ (ok slots, with_booking))
    × IsSorted starts_before slots
    × (Memᴰ stored_slot slots ↔ (
        (lookup "uuu" with_booking.store.slots ≡ some stored_slot)
        × IsFree "u" (date monday 0 0) with_booking.store stored_slot))
list_available_slots-mem_example =
    list_available_slots-mem env "u" (date monday 0 0) with_booking stored_slot with_booking-IsValid

list_my_future_bookings-mem_example :
    (bs : List Booking) × (list_my_future_bookings "ann" (date monday 8 0) with_booking
      ≡ (ok bs, with_booking))
    × (Memᴰ (booking_of "uuuuu" "ann" 2) bs ↔ (
        (lookup "uuuuu" with_booking.store.bookings ≡ some (booking_of "uuuuu" "ann" 2))
        × IsFuture "ann" (date monday 8 0) with_booking.store.slots (booking_of "uuuuu" "ann" 2)))
list_my_future_bookings-mem_example =
    list_my_future_bookings-mem env "ann" (date monday 8 0) with_booking
      (booking_of "uuuuu" "ann" 2) with_booking-IsValid

upsert_slots-Stored_example : All (λ s. Stored "u" s with_slots.store.slots) new_slots
upsert_slots-Stored_example =
    upsert_slots-Stored env env-IsUuidSource "u" new_slots with_schedule with_schedule-IsValid.slots

cancel_booking-outcome_example :
    let r = cancel_booking "uuuuu" "bob" with_booking in
    ((lookup "uuuuu" with_booking.store.bookings ≡ none)
      × (r ≡ (err booking_not_found, with_booking)))
    ⊎ (((b : Booking) × (lookup "uuuuu" with_booking.store.bookings ≡ some b)
          × (b.user_id ≢ "bob")
          × (r ≡ (err forbidden, with_booking)))
        ⊎ ((b : Booking) × (lookup "uuuuu" with_booking.store.bookings ≡ some b)
            × (b.user_id ≡ "bob")
            × (r ≡ (ok (record b { status = cancelled }), after_cancel "uuuuu" b with_booking))))
cancel_booking-outcome_example = cancel_booking-outcome "uuuuu" "bob" with_booking

list_all_bookings-page_example :
    (list_all_bookings (pos 1) (pos 20) with_booking ≡ (
      ok (take 20 (drop 0 (newest_first with_booking)), length (newest_first with_booking)),
      with_booking,
    ))
    × Perm (newest_first with_booking) (values with_booking.store.bookings)
    × IsSorted created_after (newest_first with_booking)
list_all_bookings-page_example =
    list_all_bookings-page env with_booking with_booking-IsValid 0 20 (omega arith) (omega arith)

-- The two bookings in either order.
abbrev two_swapped : Dict Booking
two_swapped =
    ("uuuuuu", booking_of "uuuuuu" "bob" 4)
    ∷ ("uuuuu", record (booking_of "uuuuu" "ann" 2) { status = cancelled })
    ∷ []

abbrev either_order : ℕ → Dict Booking
either_order zero = two
either_order (suc i) = two_swapped

two_apart : AllApart created_after (values with_rebooking.store.bookings)
unfolding values
two_apart = rw with_rebooking-two ((inr refl, tt), (tt, tt))

either_order-Perm : (i : ℕ) → Permᴰ with_rebooking.store.bookings (either_order i)
either_order-Perm zero = rw with_rebooking-two (Permᴰ.refl two)
either_order-Perm (suc i) = rw with_rebooking-two (Permᴰ.swap refl refl)

read_pages-all_example :
    (read_pages either_order 2 1 with_rebooking ≡ ok (newest_first with_rebooking))
    × Perm (newest_first with_rebooking) (values with_rebooking.store.bookings)
read_pages-all_example =
    read_pages-all env with_rebooking Reach-IsValid_example either_order either_order-Perm two_apart
      2 1 (omega arith) (omega arith) (rw two_bookings (omega arith))
