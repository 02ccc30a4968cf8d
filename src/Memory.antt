-- ===== src/Memory.antt =====
-- internal/app/store_memory.go: the store that keeps everything in memory.
pub mod Tables
pub mod Slots
pub mod Upsert
pub mod Bookings
pub mod Create
pub mod Invariant
pub mod Cancel
pub mod History
pub mod Listing
pub mod Future
pub mod Paging
pub mod Pages
use avito_test.Prelude.{
  ℕ, zero, suc, ◌+◌, ◌-◌, ◌*◌, Bool, true, false, ◌&&◌, ◌||◌, not, Option, none, some, List, [],
  ◌∷◌, ◌++◌, String, ℤ, pos, negsuc, ◌+ℤ◌, ◌-ℤ◌, ◌*ℤ◌, wrap64, ltb_ℤ, leb_ℤ, ltb, leb, eqb, any,
  keep, length, take, drop, Dict, lookup, insert, values, sort_func, ◌==◌, if◌then◌else◌,
}
use Prim.Native.String
use avito_test.Times.{Time, day_number, day_length, date, hour}
use avito_test.Types.{
  Room, Schedule, Slot, Booking, BookingStatus, active, cancelled, Error, room_not_found,
  slot_not_found, slot_already_booked, booking_not_found, forbidden, schedule_exists,
  invalid_request, Result, ok, err, panic,
}

pub record MemoryStore : Type 0 where
  pub rooms : List Room
  pub schedules : Dict Schedule
  pub slots : Dict Slot
  pub bookings : Dict Booking

-- NewMemoryStore
abbrev pub new_memory_store : MemoryStore
new_memory_store = record { rooms = []; schedules = []; slots = []; bookings = [] }

-- What the store asks of its surroundings: the text that the n-th call of `uuid.NewString` returns,
-- and the instant that the n-th call of `time.Now` reads.
pub record Env : Type 0 where
  pub new_string : ℕ → String
  pub now : ℕ → Time

-- The store, with the number of UUIDs drawn and of clock readings made so far.
pub record World : Type 0 where
  pub store : MemoryStore
  pub drawn : ℕ
  pub ticks : ℕ

abbrev pub Action : Type 0 → Type 0
Action A = World → Result A × World

-- `range m.rooms` with an early return
abbrev pub has_id : String → Room → Bool
has_id room_id r = r.id == room_id

unfoldable pub room_exists : String → MemoryStore → Bool
room_exists room_id m = any (has_id room_id) m.rooms

-- `slices.Clone(m.rooms)`
unfoldable pub list_rooms : Action (List Room)
list_rooms w = (ok w.store.rooms, w)

-- `none` is a nil pointer, which is no error here.
unfoldable pub get_schedule_by_room : String → Action (Option Schedule)
get_schedule_by_room room_id w = (ok (lookup room_id w.store.schedules), w)

-- The id of the first slot that the inner loop of UpsertSlots takes for the same, or "".
unfoldable pub existing_id : String → Slot → Dict Slot → String
existing_id room_id s [] = ""
existing_id room_id s ((id, cur) ∷ m) =
    if cur.room_id == room_id && eqb cur.start s.start && eqb cur.end s.end
    then id
    else existing_id room_id s m

unfoldable pub get_slot : String → MemoryStore → Result Slot
get_slot slot_id m = elim (lookup slot_id m.slots) [ none ↦ err slot_not_found | some s ↦ ok s ]

unfoldable pub get_booking_by_id : String → MemoryStore → Result Booking
get_booking_by_id booking_id m = elim (lookup booking_id m.bookings) [
  | none ↦ err booking_not_found
  | some b ↦ ok b
]

abbrev pub is_active : BookingStatus → Bool
is_active active = true
is_active cancelled = false

-- The test of the loops over the bookings in ListAvailableSlots and CreateBooking.
abbrev pub occupies : String → Booking → Bool
occupies slot_id b = b.slot_id == slot_id && is_active b.status

unfoldable pub is_busy : String → MemoryStore → Bool
is_busy slot_id m = any (occupies slot_id) (values m.bookings)

-- The slots that the loop of ListAvailableSlots appends.
abbrev pub is_available : String → Time → MemoryStore → Slot → Bool
is_available room_id day m s =
    let start = date (day_number day) 0 0 in
    not (not (s.room_id == room_id) || ltb s.start start || not (ltb s.start (start + 24 * hour)))
    && not (is_busy s.id m)

abbrev pub starts_before : Slot → Slot → Bool
starts_before a b = ltb a.start b.start

unfoldable pub list_available_slots : String → Time → Action (List Slot)
unfolding keep
list_available_slots room_id day w = (
  ok (sort_func starts_before (keep (is_available room_id day w.store) (values w.store.slots))),
  w,
)

-- `b.CreatedAt.Compare(*a.CreatedAt) < 0`, where neither pointer is nil: newest first.
abbrev pub created_after : Booking → Booking → Bool
created_after a b = elim a.created_at [
  | none ↦ false
  | some ta ↦ elim b.created_at [ none ↦ false | some tb ↦ ltb tb ta ]
]

abbrev pub lacks_creation : Booking → Bool
lacks_creation b = elim b.created_at [ none ↦ true | some _ ↦ false ]

-- The sort compares every booking with another one where there are two, and a nil pointer panics.
unfoldable pub sort_by_creation : List Booking → Result (List Booking)
sort_by_creation all =
    if ltb 1 (length all) && any lacks_creation all then panic else ok (sort_func created_after all)

-- `all[offset:end]`
unfoldable pub slice {ℓ} : {A : Type ℓ} → List A → (offset end : ℤ) → Option (List A)
slice all (negsuc _) end = none
slice all (pos o) (negsuc _) = none
slice all (pos o) (pos e) =
    if leb o e && leb e (length all) then some (take (e - o) (drop o all)) else none

abbrev pub or_panic : {A B : Type 0} → (A → B) → Option A → Result B
or_panic f none = panic
or_panic f (some a) = ok (f a)

-- The arithmetic on `int` of ListAllBookings.
abbrev pub page_offset : (page page_size : ℤ) → ℤ
page_offset page page_size = wrap64 (wrap64 (page -ℤ pos 1) *ℤ page_size)

abbrev pub page_end : (offset page_size total : ℤ) → ℤ
page_end offset page_size total =
    let end = wrap64 (offset +ℤ page_size) in if ltb_ℤ total end then total else end

unfoldable pub page_of : List Booking → (page page_size : ℤ) → Result (List Booking × ℕ)
unfolding slice
page_of all page page_size =
    let total = length all in
    let offset = page_offset page page_size in
    if leb_ℤ (pos total) offset
    then ok ([], total)
    else or_panic (λ part. (part, total)) (slice all offset (page_end offset page_size (pos total)))

unfoldable pub list_all_bookings : (page page_size : ℤ) → Action (List Booking × ℕ)
list_all_bookings page page_size w = elim (sort_by_creation (values w.store.bookings)) [
  | ok all ↦ (page_of all page page_size, w)
  | err e ↦ (err e, w)
  | panic ↦ (panic, w)
]

abbrev pub prepend : Booking → Result (List Booking) → Result (List Booking)
prepend b (ok bs) = ok (b ∷ bs)
prepend b (err e) = err e
prepend b panic = panic

-- The loop of ListMyFutureBookings; reading the start of a slot that is not there panics.
unfoldable pub future_bookings : String → Time → Dict Slot → List Booking → Result (List Booking)
future_bookings user_id now slots [] = ok []
future_bookings user_id now slots (b ∷ bs) =
    let rest = future_bookings user_id now slots bs in
    if not (b.user_id == user_id) then rest else elim (lookup b.slot_id slots) [
      | none ↦ panic
      | some s ↦ if ltb s.start now then rest else prepend b rest
    ]

unfoldable pub list_my_future_bookings : String → Time → Action (List Booking)
list_my_future_bookings user_id now w =
    (future_bookings user_id now w.store.slots (values w.store.bookings), w)

unfoldable pub cancel_booking : (booking_id user_id : String) → Action Booking
cancel_booking booking_id user_id w = elim (lookup booking_id w.store.bookings) [
  | none ↦ (err booking_not_found, w)
  | some b ↦
      if not (b.user_id == user_id)
      then (err forbidden, w)
      else let b' = record b { status = cancelled } in
        (
          ok b',
          record w { store = record w.store { bookings = insert booking_id b' w.store.bookings } },
        )
]

module _ (env : Env) where
  -- `time.Now().UTC()`
  abbrev pub read_clock : World → Time × World
  read_clock w = (env.now w.ticks, record w { ticks = suc w.ticks })

  -- `uuid.NewString()`
  abbrev pub new_uuid : World → String × World
  new_uuid w = (env.new_string w.drawn, record w { drawn = suc w.drawn })

  unfoldable pub create_room : String → Option String → Option ℤ → Action Room
  create_room name description capacity w =
      let (now, w1) = read_clock w in
      let (id, w2) = new_uuid w1 in
      let r : Room = record {
        id = id;
        name = name;
        description = description;
        capacity = capacity;
        created_at = some now;
      } in
      (ok r, record w2 { store = record w2.store { rooms = w2.store.rooms ++ r ∷ [] } })

  -- The rest of CreateSchedule once its two checks have passed.
  abbrev pub add_schedule : Schedule → Action Schedule
  add_schedule s w =
      let (id, w1) = new_uuid w in
      let s' = record s { id = id } in
      (
        ok s',
        record w1 {
          store = record w1.store { schedules = insert s.room_id s' w1.store.schedules };
        },
      )

  unfoldable pub create_schedule : Schedule → Action Schedule
  create_schedule s w =
      if not (room_exists s.room_id w.store)
      then (err room_not_found, w)
      else elim (lookup s.room_id w.store.schedules) [
        | some _ ↦ (err schedule_exists, w)
        | none ↦ add_schedule s w
      ]

  -- The body of the loop of UpsertSlots.
  unfoldable pub upsert_slot : String → Slot → World → World
  unfolding existing_id
  upsert_slot room_id s w =
      if not (existing_id room_id s w.store.slots == "")
      then w
      else let (id, w1) = new_uuid w in
        record w1 {
          store = record w1.store {
            slots = insert id (record s { id = id; room_id = room_id }) w1.store.slots;
          };
        }

  unfoldable pub upsert_slots : String → List Slot → World → World
  upsert_slots room_id [] w = w
  upsert_slots room_id (s ∷ slots) w = upsert_slots room_id slots (upsert_slot room_id s w)

  -- `"https://meet.example.com/" + uuid.NewString()`
  abbrev pub meeting_link : Bool → World → Option String × World
  meeting_link false w = (none, w)
  meeting_link true w =
      let (id, w1) = new_uuid w in (some (String.◌++◌ "https://meet.example.com/" id), w1)

  -- The rest of CreateBooking once its checks have passed.
  unfoldable pub add_booking : (slot_id user_id : String) → Bool → Action Booking
  add_booking slot_id user_id with_link w =
      let (now, w1) = read_clock w in
      let (id, w2) = new_uuid w1 in
      let (link, w3) = meeting_link with_link w2 in
      let b : Booking = record {
        id = id;
        slot_id = slot_id;
        user_id = user_id;
        status = active;
        conference_link = link;
        created_at = some now;
      } in
      (ok b, record w3 { store = record w3.store { bookings = insert id b w3.store.bookings } })

  -- CreateBooking from the check of the start on.
  abbrev pub book_slot : Slot → (slot_id user_id : String) → Bool → Action Booking
  book_slot s slot_id user_id with_link w =
      let (now, w1) = read_clock w in
      if ltb s.start now
      then (err invalid_request, w1)
      else if is_busy slot_id w1.store
      then (err slot_already_booked, w1)
      else add_booking slot_id user_id with_link w1

  unfoldable pub create_booking : (slot_id user_id : String) → Bool → Action Booking
  create_booking slot_id user_id with_link w = elim (get_slot slot_id w.store) [
    | err e ↦ (err e, w)
    | panic ↦ (panic, w)
    | ok s ↦ book_slot s slot_id user_id with_link w
  ]
