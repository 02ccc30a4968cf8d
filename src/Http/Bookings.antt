-- ===== src/Http/Bookings.antt =====
-- The handlers of /bookings/… in internal/app/http.go.
use avito_test.Prelude.{
  Bool, not, ◌||◌, Option, none, some, String, ℤ, pos, ltb_ℤ, ◌==◌, if◌then◌else◌,
}
use avito_test.Times.{Time}
use avito_test.Types.{
  Claims, Slot, Booking, Error, slot_not_found, slot_already_booked, booking_not_found, forbidden,
  invalid_request, Result, ok, err, panic,
}
use avito_test.Strconv.{atoi}
use avito_test.Store.{Store}
use avito_test.Cache.{SlotsCache}
use avito_test.Http.{
  Reply, write_json, write_error, bad_request, internal_error, crash, booking_body, bookings_body,
  my_bookings_body, Handler, reply, decode_json, with_store, run_cache,
}

pub record CreateBookingRequest : Type 0 where
  pub slot_id : String
  pub create_conference_link : Bool

-- The answer to an error of GetSlot.
abbrev pub slot_error : Error → Reply
slot_error slot_not_found = write_error 404 "SLOT_NOT_FOUND" "slot not found"
slot_error _ = internal_error

-- The answers to the errors of CreateBooking.
abbrev pub create_error : Error → Reply
create_error slot_not_found = write_error 404 "SLOT_NOT_FOUND" "slot not found"
create_error slot_already_booked = write_error 409 "SLOT_ALREADY_BOOKED" "slot is already booked"
create_error invalid_request = bad_request "slot is in the past"
create_error _ = internal_error

-- The answers to the errors of CancelBooking.
abbrev pub cancel_error : Error → Reply
cancel_error booking_not_found = write_error 404 "BOOKING_NOT_FOUND" "booking not found"
cancel_error forbidden = write_error 403 "FORBIDDEN" "cannot cancel another user's booking"
cancel_error _ = internal_error

-- A number of the query: its default where it is missing, `none` where it is refused.
abbrev pub accept : (ℤ → Bool) → Option ℤ → Option ℤ
accept fits none = none
accept fits (some n) = if fits n then some n else none

unfoldable pub query_int : (default : ℤ) → (ℤ → Bool) → String → Option ℤ
query_int default fits v = if v == "" then some default else accept fits (atoi v)

abbrev pub is_page : ℤ → Bool
is_page n = not (ltb_ℤ n (pos 1))

abbrev pub is_page_size : ℤ → Bool
is_page_size n = not (ltb_ℤ n (pos 1) || ltb_ℤ (pos 100) n)

abbrev pub room_id_or_empty : Option Slot → String
room_id_or_empty none = ""
room_id_or_empty (some s) = s.room_id

module _ (S : Store) (C : SlotsCache) where
  -- handleCreateBooking once the slot is found.
  abbrev pub book : Claims → CreateBookingRequest → Slot → Handler S C
  book claims req slot =
      with_store S C (S.create_booking req.slot_id claims.user_id req.create_conference_link)
        create_error
        (λ b srv.
          (write_json 201 (booking_body b), run_cache S C (C.invalidate_room slot.room_id) srv))

  abbrev pub find_and_book : Claims → CreateBookingRequest → Handler S C
  find_and_book claims req srv =
      if req.slot_id == ""
      then (bad_request "slotId is required", srv)
      else with_store S C (S.get_slot req.slot_id) slot_error (book claims req) srv

  unfoldable pub handle_create_booking : Claims → Option CreateBookingRequest → Handler S C
  handle_create_booking claims body = decode_json S C body (find_and_book claims)

  abbrev pub list_page : (page page_size : ℤ) → Handler S C
  list_page page page_size =
      with_store S C (S.list_all_bookings page page_size) (λ _. internal_error)
        (λ (bookings, total).
          reply S C (write_json 200 (bookings_body bookings page page_size total)))

  unfoldable pub handle_list_bookings : (page_raw size_raw : String) → Handler S C
  unfolding query_int
  handle_list_bookings page_raw size_raw srv = elim (query_int (pos 1) is_page page_raw) [
    | none ↦ (bad_request "invalid pagination", srv)
    | some page ↦ elim (query_int (pos 20) is_page_size size_raw) [
      | none ↦ (bad_request "invalid pagination", srv)
      | some page_size ↦ list_page page page_size srv
    ]
  ]

  unfoldable pub handle_my_bookings : Claims → (now : Time) → Handler S C
  handle_my_bookings claims now =
      with_store S C (S.list_my_future_bookings claims.user_id now) (λ _. internal_error)
        (λ bookings. reply S C (write_json 200 (my_bookings_body bookings)))

  abbrev pub try_result : {A : Type 0} → Result A → (Option A → Handler S C) → Handler S C
  try_result (ok a) k = k (some a)
  try_result (err _) k = k none
  try_result panic k = reply S C crash

  -- A call whose error is ignored: the rest of the handler gets `none`.
  abbrev pub try_store :
      {A : Type 0} → (S.State → Result A × S.State) → (Option A → Handler S C) → Handler S C
  try_store call k srv = let (r, st) = call srv.store in try_result r k (record srv { store = st })

  -- The first part of handleCancelBooking: the room of the booking's slot, or "".
  abbrev pub with_room : Option Booking → (String → Handler S C) → Handler S C
  with_room none k = k ""
  with_room (some b) k = try_store (S.get_slot b.slot_id) (λ s. k (room_id_or_empty s))

  -- handleCancelBooking from CancelBooking on.
  abbrev pub cancel_in : Claims → (booking_id room_id : String) → Handler S C
  cancel_in claims booking_id room_id =
      with_store S C (S.cancel_booking booking_id claims.user_id) cancel_error (λ b srv.
        let done = write_json 200 (booking_body b) in
        if not (room_id == "")
        then (done, run_cache S C (C.invalidate_room room_id) srv)
        else (done, srv))

  unfoldable pub handle_cancel_booking : Claims → (booking_id : String) → Handler S C
  handle_cancel_booking claims booking_id =
      try_store (S.get_booking_by_id booking_id)
        (λ found. with_room found (cancel_in claims booking_id))
