-- ===== src/Http/Effects/Rooms.antt =====
-- The handlers of /rooms/… change slots and bookings only as they may.
use avito_test.Prelude.{
  ℕ, zero, suc, ◌*◌, ◌≡◌, Option, none, some, inl, inr, List, String, not, ◌==◌, Option-cases,
}
use avito_test.Times.{Time, add_date, day_length}
use avito_test.Times.Clock.{codes}
use avito_test.Times.Calendar.{parse_date}
use avito_test.Types.{Result, ok, err, panic, Schedule, Slot}
use avito_test.Slots.{validate_schedule, generate_slots_for_date}
use avito_test.Store.{Store}
use avito_test.Cache.{SlotsCache}
use avito_test.Contract.{Form, View, Offers, IsBookingStore}
use avito_test.Contract.Effects.{Upserts-Evolves}
use avito_test.Http.{Handler}
use avito_test.Http.Rooms.{
  is_blank, CreateRoomRequest, handle_list_rooms, handle_create_room, upsert_ignoring, upsert_days,
  unless_panic, store_schedule, handle_create_schedule, slots_or_nil, list_free, list_generated,
  list_found, list_scheduled, list_uncached, list_cached, handle_list_slots,
}
use avito_test.Http.Effects.{Safe, SafeCall, quiet, stays, after-Safe, with_store-Safe, guard-Safe}

Offers-same :
    (room_id : String) (day : Time) (v v' : View) (r : Result (List Slot))
    → Offers room_id day v v' r
    → v' ≡ v
Offers-same room_id day v v' (ok slots) (_, _, same) = same
Offers-same room_id day v v' (err e) (_, same) = same
Offers-same room_id day v v' panic h = elim h [ ]

module _ (S : Store) (C : SlotsCache) {form : Form} {Inv : S.State → Type 0} {view : S.State → View}
    (spec : IsBookingStore form S Inv view) (May : String → Type 0) where
  pub handle_list_rooms-Safe : Safe S C spec May (handle_list_rooms S C)
  unfolding handle_list_rooms
  handle_list_rooms-Safe =
      with_store-Safe S C spec May S.list_rooms _ _
        (quiet S C spec May S.list_rooms spec.list_rooms)
        (λ rooms srv. stays S C spec May srv.store)

  pub handle_create_room-Safe :
      (body : Option CreateRoomRequest) → Safe S C spec May (handle_create_room S C body)
  unfolding handle_create_room
  handle_create_room-Safe none = λ srv. stays S C spec May srv.store
  handle_create_room-Safe (some req) =
      let call = S.create_room req.name req.description req.capacity in
      guard-Safe S C spec May (is_blank (codes req.name)) _ _ (
        with_store-Safe S C spec May call _ _
          (quiet S C spec May call (spec.create_room req.name req.description req.capacity))
          (λ room srv. stays S C spec May srv.store))

  upsert-Safe :
      (room_id : String) (slots : List Slot) → SafeCall S C spec May (S.upsert_slots room_id slots)
  upsert-Safe room_id slots st inv =
      let (inv', answered) = spec.upsert_slots room_id slots st inv in
      (inv', Upserts-Evolves May form room_id slots _ _ _ answered)

  unless_panic-Safe :
      {A : Type 0} (r : Result A) (k : Handler S C)
      → Safe S C spec May k
      → Safe S C spec May (unless_panic S C r k)
  unless_panic-Safe (ok _) k safe = safe
  unless_panic-Safe (err _) k safe = safe
  unless_panic-Safe panic k safe = λ srv. stays S C spec May srv.store

  upsert_ignoring-Safe :
      (room_id : String) (slots : List Slot) (k : Handler S C)
      → Safe S C spec May k
      → Safe S C spec May (upsert_ignoring S C room_id slots k)
  upsert_ignoring-Safe room_id slots k safe =
      after-Safe S C spec May (S.upsert_slots room_id slots) (λ r. unless_panic S C r k)
        (upsert-Safe room_id slots) (λ r. unless_panic-Safe r k safe)

  upsert_days-Safe :
      (room_id : String) (sc : Schedule) (left : ℕ) (day : Time) (k : Handler S C)
      → Safe S C spec May k
      → Safe S C spec May (upsert_days S C room_id sc left day k)
  unfolding upsert_days
  upsert_days-Safe room_id sc zero day k safe = safe
  upsert_days-Safe room_id sc (suc left) day k safe =
      upsert_ignoring-Safe room_id (slots_or_nil (generate_slots_for_date room_id sc day)) _
        (upsert_days-Safe room_id sc left (add_date day 1) k safe)

  store_schedule-Safe :
      (room_id : String) (now : Time) (req : Schedule)
      → Safe S C spec May (store_schedule S C room_id now req)
  store_schedule-Safe room_id now req srv = elim (Option-cases (validate_schedule req)) [
    | inr (e, bad) ↦ rw (bad, store_schedule) (stays S C spec May srv.store)
    | inl fine ↦
        rw (fine, store_schedule)
          (with_store-Safe S C spec May (S.create_schedule req) _ _
            (quiet S C spec May (S.create_schedule req) (spec.create_schedule req))
            (λ sc. upsert_days-Safe room_id sc 7 now _ (λ srv. stays S C spec May srv.store)) srv)
  ]

  pub handle_create_schedule-Safe :
      (room_id : String) (now : Time) (body : Option Schedule)
      → Safe S C spec May (handle_create_schedule S C room_id now body)
  unfolding handle_create_schedule
  handle_create_schedule-Safe room_id now none = λ srv. stays S C spec May srv.store
  handle_create_schedule-Safe room_id now (some req) =
      store_schedule-Safe room_id now (record req { room_id = room_id })

  list_free-Safe :
      (room_id date_raw : String) (date : Time)
      → Safe S C spec May (list_free S C room_id date_raw date)
  list_free-Safe room_id date_raw date =
      let call = S.list_available_slots room_id date in
      with_store-Safe S C spec May call _ _
        (quiet S C spec May call (λ st inv.
          let (inv', answered) = spec.list_available_slots room_id date st inv in
          (inv', Offers-same (form.id room_id) date _ _ _ answered)))
        (λ slots srv. stays S C spec May srv.store)

  list_generated-Safe :
      (room_id date_raw : String) (date : Time) (r : Result (List Slot))
      → Safe S C spec May (list_generated S C room_id date_raw date r)
  list_generated-Safe room_id date_raw date (ok generated) =
      upsert_ignoring-Safe room_id generated _ (list_free-Safe room_id date_raw date)
  list_generated-Safe room_id date_raw date (err _) = list_free-Safe room_id date_raw date
  list_generated-Safe room_id date_raw date panic = λ srv. stays S C spec May srv.store

  list_scheduled-Safe :
      (room_id date_raw : String) (date : Time) (found : Option Schedule)
      → Safe S C spec May (list_scheduled S C room_id date_raw date found)
  list_scheduled-Safe room_id date_raw date none = λ srv. stays S C spec May srv.store
  list_scheduled-Safe room_id date_raw date (some schedule) =
      list_generated-Safe room_id date_raw date (generate_slots_for_date room_id schedule date)

  list_uncached-Safe :
      (room_id date_raw : String) (date : Time)
      → Safe S C spec May (list_uncached S C room_id date_raw date)
  list_uncached-Safe room_id date_raw date =
      let call = S.get_schedule_by_room room_id in
      with_store-Safe S C spec May call _ _
        (quiet S C spec May call (spec.get_schedule_by_room room_id))
        (list_scheduled-Safe room_id date_raw date)

  list_found-Safe :
      (room_id date_raw : String) (date : Time) (r : Result (Option (List Slot)))
      → Safe S C spec May (list_found S C room_id date_raw date r)
  list_found-Safe room_id date_raw date (ok (some slots)) = λ srv. stays S C spec May srv.store
  list_found-Safe room_id date_raw date (ok none) = list_uncached-Safe room_id date_raw date
  list_found-Safe room_id date_raw date (err _) = list_uncached-Safe room_id date_raw date
  list_found-Safe room_id date_raw date panic = λ srv. stays S C spec May srv.store

  list_cached-Safe :
      (room_id date_raw : String) (date : Time)
      → Safe S C spec May (list_cached S C room_id date_raw date)
  list_cached-Safe room_id date_raw date srv =
      list_found-Safe room_id date_raw date (C.get_slots room_id date_raw srv.cache).0
        (record srv { cache = (C.get_slots room_id date_raw srv.cache).1 })

  pub handle_list_slots-Safe :
      (room_id date_raw : String) → Safe S C spec May (handle_list_slots S C room_id date_raw)
  unfolding handle_list_slots
  handle_list_slots-Safe room_id date_raw = guard-Safe S C spec May (date_raw == "") _ _ (λ srv.
      elim (Option-cases (parse_date (codes date_raw))) [
        | inl bad ↦ rw bad (stays S C spec May srv.store)
        | inr (day, good) ↦ rw good (
            with_store-Safe S C spec May (S.room_exists room_id) _ _
              (quiet S C spec May (S.room_exists room_id) (spec.room_exists room_id))
              (λ exists.
                guard-Safe S C spec May (not exists) _ _
                  (list_cached-Safe room_id date_raw (day * day_length)))
              srv)
      ])
