-- ===== src/Http/Effects/Bookings.antt =====
-- The handlers of /bookings/… change slots and bookings only as they may.
use avito_test.Prelude.{
  ◌≡◌, pos, Option, none, some, inl, inr, String, Bool, true, false, not, ◌==◌, if◌then◌else◌,
  Option-cases,
}
use avito_test.Times.{Time}
use avito_test.Types.{Claims, Error, Result, ok, err, panic, Slot, Booking}
use avito_test.Store.{Store}
use avito_test.Cache.{SlotsCache}
use avito_test.Contract.{Form, View, Finds, IsBookingStore}
use avito_test.Contract.Effects.{Evolves, Books-Evolves, Cancels-Evolves}
use avito_test.Http.{Server, Reply, write_json, booking_body, Handler, run_cache}
use avito_test.Http.Bookings.{
  CreateBookingRequest, book, handle_create_booking, handle_list_bookings, query_int, is_page,
  is_page_size, handle_my_bookings, try_store, try_result, room_id_or_empty, with_room, cancel_in,
  handle_cancel_booking,
}
use avito_test.Http.Effects.{Safe, SafeCall, quiet, stays, after-Safe, with_store-Safe, guard-Safe}

Finds-same :
    {A : Type 0} (o : Option A) (missing : Error) (v v' : View) (r : Result A)
    → Finds o missing v v' r
    → v' ≡ v
Finds-same o missing v v' (ok a) (_, same) = same
Finds-same o missing v v' (err e) (_, same) = same
Finds-same o missing v v' panic h = elim h [ ]

module _ (S : Store) (C : SlotsCache) {form : Form} {Inv : S.State → Type 0} {view : S.State → View}
    (spec : IsBookingStore form S Inv view) (May : String → Type 0) where
  pub handle_list_bookings-Safe :
      (page_raw size_raw : String) → Safe S C spec May (handle_list_bookings S C page_raw size_raw)
  unfolding handle_list_bookings
  handle_list_bookings-Safe page_raw size_raw srv =
      elim (Option-cases (query_int (pos 1) is_page page_raw)) [
        | inl bad ↦ rw (bad, handle_list_bookings) (stays S C spec May srv.store)
        | inr (page, e) ↦ elim (Option-cases (query_int (pos 20) is_page_size size_raw)) [
          | inl bad ↦ rw (e, bad, handle_list_bookings) (stays S C spec May srv.store)
          | inr (page_size, d) ↦
              rw (e, d, handle_list_bookings)
                (with_store-Safe S C spec May (S.list_all_bookings page page_size) _ _
                  (quiet S C spec May (S.list_all_bookings page page_size)
                    (spec.list_all_bookings page page_size))
                  (λ page_of srv. stays S C spec May srv.store) srv)
        ]
      ]

  pub handle_my_bookings-Safe :
      (claims : Claims) (now : Time) → Safe S C spec May (handle_my_bookings S C claims now)
  unfolding handle_my_bookings
  handle_my_bookings-Safe claims now =
      let call = S.list_my_future_bookings claims.user_id now in
      with_store-Safe S C spec May call _ _
        (quiet S C spec May call (spec.list_my_future_bookings claims.user_id now))
        (λ bookings srv. stays S C spec May srv.store)

  get_slot-Safe : (id : String) → SafeCall S C spec May (S.get_slot id)
  get_slot-Safe id = quiet S C spec May (S.get_slot id) (λ st inv.
      let (inv', answered) = spec.get_slot id st inv in (inv', Finds-same _ _ _ _ _ answered))

  get_booking-Safe : (id : String) → SafeCall S C spec May (S.get_booking_by_id id)
  get_booking-Safe id = quiet S C spec May (S.get_booking_by_id id) (λ st inv.
      let (inv', answered) = spec.get_booking_by_id id st inv in
      (inv', Finds-same _ _ _ _ _ answered))

  book-Safe :
      (claims : Claims) (req : CreateBookingRequest) (slot : Slot)
      → May (form.id claims.user_id)
      → Safe S C spec May (book S C claims req slot)
  book-Safe claims req slot may =
      with_store-Safe S C spec May
        (S.create_booking req.slot_id claims.user_id req.create_conference_link) _ _
        (λ st inv.
          let (inv', made) =
            spec.create_booking req.slot_id claims.user_id req.create_conference_link st inv in
          (inv', Books-Evolves May (form.id req.slot_id) (form.id claims.user_id) _ _ _ may made))
        (λ b srv. stays S C spec May srv.store)

  pub handle_create_booking-Safe :
      (claims : Claims) (body : Option CreateBookingRequest)
      → May (form.id claims.user_id)
      → Safe S C spec May (handle_create_booking S C claims body)
  unfolding handle_create_booking
  handle_create_booking-Safe claims none may = λ srv. stays S C spec May srv.store
  handle_create_booking-Safe claims (some req) may =
      guard-Safe S C spec May (req.slot_id == "") _ _ (
        with_store-Safe S C spec May (S.get_slot req.slot_id) _ _ (get_slot-Safe req.slot_id)
          (λ slot. book-Safe claims req slot may))

  try_result-Safe :
      {A : Type 0} (r : Result A) (k : Option A → Handler S C)
      → ((o : Option A) → Safe S C spec May (k o))
      → Safe S C spec May (try_result S C r k)
  try_result-Safe (ok a) k safe = safe (some a)
  try_result-Safe (err _) k safe = safe none
  try_result-Safe panic k safe = λ srv. stays S C spec May srv.store

  try_store-Safe :
      {A : Type 0} (call : S.State → Result A × S.State) (k : Option A → Handler S C)
      → SafeCall S C spec May call
      → ((o : Option A) → Safe S C spec May (k o))
      → Safe S C spec May (try_store S C call k)
  try_store-Safe call k made safe =
      after-Safe S C spec May call (λ r. try_result S C r k) made (λ r. try_result-Safe r k safe)

  with_room-Safe :
      (found : Option Booking) (k : String → Handler S C)
      → ((room_id : String) → Safe S C spec May (k room_id))
      → Safe S C spec May (with_room S C found k)
  with_room-Safe none k safe = safe ""
  with_room-Safe (some b) k safe =
      try_store-Safe (S.get_slot b.slot_id) _ (get_slot-Safe b.slot_id)
        (λ s. safe (room_id_or_empty s))

  cancel_in-Safe :
      (claims : Claims) (booking_id room_id : String)
      → May claims.user_id
      → Safe S C spec May (cancel_in S C claims booking_id room_id)
  cancel_in-Safe claims booking_id room_id may =
      with_store-Safe S C spec May (S.cancel_booking booking_id claims.user_id) _ _
        (λ st inv.
          let (inv', made) = spec.cancel_booking booking_id claims.user_id st inv in
          (inv', Cancels-Evolves May (form.id booking_id) claims.user_id _ _ _ may made))
        (λ b srv. answered (not (room_id == "")) (write_json 200 (booking_body b)) srv)
    where
      answered :
          (t : Bool) (r : Reply) (srv : Server S C)
          → Inv srv.store
          → let end : Reply × Server S C =
              if t then (r, run_cache S C (C.invalidate_room room_id) srv) else (r, srv) in
            Inv end.1.store × Evolves May (view srv.store) (view end.1.store)
      answered true r srv = stays S C spec May srv.store
      answered false r srv = stays S C spec May srv.store

  pub handle_cancel_booking-Safe :
      (claims : Claims) (booking_id : String)
      → May claims.user_id
      → Safe S C spec May (handle_cancel_booking S C claims booking_id)
  unfolding handle_cancel_booking
  handle_cancel_booking-Safe claims booking_id may =
      try_store-Safe (S.get_booking_by_id booking_id) _ (get_booking-Safe booking_id)
        (λ found. with_room-Safe found _ (λ room_id. cancel_in-Safe claims booking_id room_id may))
