-- ===== src/Contract.antt =====
-- What any implementation of the interface Store promises about slots and bookings, said without
-- lists, tables or order: the abstract specification of internal/app/store_memory.go and
-- internal/app/store_postgres.go.
pub mod InMemory
pub mod InPostgres
pub mod Effects
use avito_test.Prelude.{
  ℕ, ◌+◌, ◌*◌, ◌≤◌, ◌<◌, ◌≡◌, ◌≢◌, ◌↔◌, ◌⊎◌, Option, none, some, List, [], ◌∷◌, String, ℤ, Memᴰ,
  All, IsSorted, Bool, ◌==◌, if◌then◌else◌,
}
use avito_test.Times.{Time, day_number, day_length}
use avito_test.Types.{
  Room, Schedule, Slot, Booking, active, cancelled, Error, slot_not_found, slot_already_booked,
  booking_not_found, forbidden, invalid_request, other, Result, ok, err, panic,
}
use avito_test.Memory.{starts_before}
use avito_test.Store.{Store}

-- How a store writes what it is given: the text that it keeps for an id, and the instant that it
-- keeps for a time.
pub record Form : Type 0 where
  pub id : String → String
  pub time : Time → Time

-- Ids and times are kept as they are.
abbrev pub exact : Form
exact = record { id = λ s. s; time = λ t. t }

-- The slots and bookings by their ids.
pub record View : Type 0 where
  pub slots : String → Option Slot
  pub bookings : String → Option Booking

-- The slot has an active booking.
abbrev pub Reserved : View → String → Type 0
Reserved v slot_id =
    (k : String) × (b : Booking) × (v.bookings k ≡ some b)
    × (b.slot_id ≡ slot_id)
    × (b.status ≡ active)

-- Slots and bookings stand under their ids, a booking is for a slot that exists, and a slot has at
-- most one active booking.
pub record IsCalendar (v : View) : Type 0 where
  pub slot_keys : (k : String) (s : Slot) → v.slots k ≡ some s → s.id ≡ k
  pub booking_keys : (k : String) (b : Booking) → v.bookings k ≡ some b → b.id ≡ k
  pub booked : (k : String) (b : Booking) → v.bookings k ≡ some b → v.slots b.slot_id ≢ none
  pub exclusive :
      (k j : String) (b c : Booking)
      → v.bookings k ≡ some b
      → v.bookings j ≡ some c
      → b.status ≡ active
      → c.status ≡ active
      → b.slot_id ≡ c.slot_id
      → k ≡ j

abbrev pub put_booking : String → Booking → View → View
put_booking k b v = record v { bookings = λ j. if j == k then some b else v.bookings j }

-- A failure of the storage itself, which may strike any call.
abbrev pub IsFailure : Error → Type 0
IsFailure e = (m : String) × (e ≡ other m)

-- The call answers what `o` holds, or `missing` where it holds nothing, and changes nothing.
abbrev pub Finds : {A : Type 0} → Option A → Error → View → View → Result A → Type 0
Finds o missing v v' (ok a) = (o ≡ some a) × (v' ≡ v)
Finds o missing v v' (err e) = (((e ≡ missing) × (o ≡ none)) ⊎ IsFailure e) × (v' ≡ v)
Finds o missing v v' panic = ⊥

abbrev pub Unchanged : {A : Type 0} → View → View → Result A → Type 0
Unchanged v v' r = v' ≡ v

-- The view gains one booking: active, under a new id, of a slot that exists and was not reserved.
pub record IsBooking (slot user : String) (v v' : View) (b : Booking) : Type 0 where
  pub exists : v.slots slot ≢ none
  pub free : ¬ Reserved v slot
  pub fresh : v.bookings b.id ≡ none
  pub slot_id : b.slot_id ≡ slot
  pub user_id : b.user_id ≡ user
  pub status : b.status ≡ active
  pub gained : v' ≡ put_booking b.id b v

-- Why a booking is refused: no such slot, a slot in the past, a reserved slot, or a failure.
abbrev pub Refusal : String → View → Error → Type 0
Refusal slot_id v e =
    ((e ≡ slot_not_found) × (v.slots slot_id ≡ none))
    ⊎ (((e ≡ invalid_request) × (v.slots slot_id ≢ none))
        ⊎ (((e ≡ slot_already_booked) × Reserved v slot_id) ⊎ IsFailure e))

abbrev pub Books : (slot_id user_id : String) → View → View → Result Booking → Type 0
Books slot_id user_id v v' (ok b) = IsBooking slot_id user_id v v' b
Books slot_id user_id v v' (err e) = Refusal slot_id v e × (v' ≡ v)
Books slot_id user_id v v' panic = ⊥

-- The booking is the user's, and is cancelled in the second view.
abbrev pub IsCancelled : (booking_id user_id : String) → View → View → Booking → Type 0
IsCancelled booking_id user_id v v' b =
    (v.bookings booking_id ≡ some b)
    × (b.user_id ≡ user_id)
    × (v' ≡ put_booking booking_id (record b { status = cancelled }) v)

-- A failure may come before the change or after it.
abbrev pub CancelRefusal : (booking_id user_id : String) → View → View → Error → Type 0
CancelRefusal booking_id user_id v v' e =
    ((e ≡ booking_not_found) × (v.bookings booking_id ≡ none) × (v' ≡ v))
    ⊎ (((e ≡ forbidden)
          × (b : Booking) × (v.bookings booking_id ≡ some b)
          × (b.user_id ≢ user_id)
          × (v' ≡ v))
        ⊎ (IsFailure e × ((v' ≡ v) ⊎ ((b : Booking) × IsCancelled booking_id user_id v v' b))))

abbrev pub Cancels : (booking_id user_id : String) → View → View → Result Booking → Type 0
Cancels booking_id user_id v v' (ok c) =
    (b : Booking) × (c ≡ record b { status = cancelled }) × IsCancelled booking_id user_id v v' b
Cancels booking_id user_id v v' (err e) = CancelRefusal booking_id user_id v v' e
Cancels booking_id user_id v v' panic = ⊥

-- The slot is one of the room, begins on the day, and is not reserved.
abbrev pub IsOpen : (room_id : String) → (day : Time) → View → Slot → Type 0
IsOpen room_id day v s =
    (s.room_id ≡ room_id)
    × (day_number day * day_length ≤ s.start)
    × (s.start < (day_number day + 1) * day_length)
    × (¬ Reserved v s.id)

abbrev pub IsOffered : (room_id : String) → (day : Time) → View → Slot → Type 0
IsOffered room_id day v s = (v.slots s.id ≡ some s) × IsOpen room_id day v s

abbrev pub Offers : (room_id : String) → (day : Time) → View → View → Result (List Slot) → Type 0
Offers room_id day v v' (ok slots) =
    ((s : Slot) → Memᴰ s slots ↔ IsOffered room_id day v s)
    × IsSorted starts_before slots
    × (v' ≡ v)
Offers room_id day v v' (err e) = IsFailure e × (v' ≡ v)
Offers room_id day v v' panic = ⊥

-- The entry is for the room, with the times of `s` as the store keeps them.
abbrev pub HasTimes : Form → String → Slot → Slot → Type 0
HasTimes form room_id s t =
    (t.room_id ≡ form.id room_id) × (t.start ≡ form.time s.start) × (t.end ≡ form.time s.end)

-- Slots are added for the room with times of the list; those that stand stay.
pub record Extends (form : Form) (room_id : String) (slots : List Slot) (v v' : View) : Type 0 where
  pub bookings : v'.bookings ≡ v.bookings
  pub kept : (k : String) (t : Slot) → v.slots k ≡ some t → v'.slots k ≡ some t
  pub origin :
      (k : String) (t : Slot)
      → v'.slots k ≡ some t
      → (v.slots k ≡ some t) ⊎ ((s : Slot) × Memᴰ s slots × HasTimes form room_id s t)

abbrev pub StandsIn : Form → String → View → Slot → Type 0
StandsIn form room_id v s =
    (k : String) × (t : Slot) × (v.slots k ≡ some t) × HasTimes form room_id s t

abbrev pub Upserts : Form → String → List Slot → View → View → Result (Unit {0}) → Type 0
Upserts form room_id slots v v' (ok _) =
    Extends form room_id slots v v' × All (StandsIn form room_id v') slots
Upserts form room_id slots v v' (err e) = IsFailure e × Extends form room_id slots v v'
Upserts form room_id slots v v' panic = ⊥

-- From a state of the invariant the call leads to one, and answers as the specification says.
abbrev pub Meets :
    {State A : Type 0}
    → (State → Type 0)
    → (State → View)
    → (View → View → Result A → Type 0)
    → (State → Result A × State)
    → Type 0
Meets {State} Inv view P call =
    (st : State) → Inv st → Inv (call st).1 × P (view st) (view (call st).1) (call st).0

-- The contract, for an implementation with its form of ids and times, its invariant and its view.
-- The user who cancels is compared with the kept id as a text.
pub record IsBookingStore (form : Form) (S : Store) (Inv : S.State → Type 0) (view : S.State → View)
    : Type 0 where
  pub calendar : (st : S.State) → Inv st → IsCalendar (view st)
  pub create_room :
      (name : String) (description : Option String) (capacity : Option ℤ)
      → Meets Inv view Unchanged (S.create_room name description capacity)
  pub list_rooms : Meets Inv view Unchanged S.list_rooms
  pub room_exists : (room_id : String) → Meets Inv view Unchanged (S.room_exists room_id)
  pub create_schedule : (s : Schedule) → Meets Inv view Unchanged (S.create_schedule s)
  pub get_schedule_by_room :
      (room_id : String) → Meets Inv view Unchanged (S.get_schedule_by_room room_id)
  pub upsert_slots :
      (room_id : String) (slots : List Slot)
      → Meets Inv view (Upserts form room_id slots) (S.upsert_slots room_id slots)
  pub list_available_slots :
      (room_id : String) (day : Time)
      → Meets Inv view (Offers (form.id room_id) day) (S.list_available_slots room_id day)
  pub get_slot :
      (id : String) (st : S.State)
      → Inv st
      → Inv (S.get_slot id st).1
        × Finds
            ((view st).slots (form.id id))
            slot_not_found
            (view st)
            (view (S.get_slot id st).1)
            (S.get_slot id st).0
  pub get_booking_by_id :
      (id : String) (st : S.State)
      → Inv st
      → Inv (S.get_booking_by_id id st).1
        × Finds
            ((view st).bookings (form.id id))
            booking_not_found
            (view st)
            (view (S.get_booking_by_id id st).1)
            (S.get_booking_by_id id st).0
  pub create_booking :
      (slot_id user_id : String) (with_link : Bool)
      → Meets Inv view
          (Books (form.id slot_id) (form.id user_id))
          (S.create_booking slot_id user_id with_link)
  pub list_all_bookings :
      (page page_size : ℤ) → Meets Inv view Unchanged (S.list_all_bookings page page_size)
  pub list_my_future_bookings :
      (user_id : String) (now : Time)
      → Meets Inv view Unchanged (S.list_my_future_bookings user_id now)
  pub cancel_booking :
      (booking_id user_id : String)
      → Meets Inv view (Cancels (form.id booking_id) user_id) (S.cancel_booking booking_id user_id)
