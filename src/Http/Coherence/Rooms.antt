-- ===== src/Http/Coherence/Rooms.antt =====
-- The handlers of /rooms/… that change rooms and schedules keep the cached lists true.
use avito_test.Prelude.{
  ℕ, zero, suc, ◌≡◌, sym, ap, ◌∙◌, subst, inl, inr, Option, none, some, List, String, Option-cases,
}
use avito_test.Times.{Time, add_date}
use avito_test.Times.Clock.{codes}
use avito_test.Types.{Schedule, Slot, Result, ok, err, panic}
use avito_test.Slots.{validate_schedule, generate_slots_for_date}
use avito_test.Store.{Store}
use avito_test.Cache.{SlotsCache}
use avito_test.Cache.Contract.{IsSlotsCache}
use avito_test.Contract.{Form, View, Extends, Upserts, Offers, IsBookingStore}
use avito_test.Http.{Server, Reply, write_json, Handler, slots_body}
use avito_test.Http.Rooms.{
  CreateRoomRequest, is_blank, handle_create_room, upsert_ignoring, upsert_days, unless_panic,
  store_schedule, handle_create_schedule, slots_or_nil, handle_list_rooms,
}
use avito_test.Http.Coherence.{
  Calmer, Calmer-same, AllFree, Says, Anything, Says-Anything, Good, Keeps, Calls, quiet,
  after-Good, with_store-Keeps, guard-Keeps, invalidate-Good,
}

Extends-Calmer :
    (form : Form) (room_id : String) (slots : List Slot) (v v' : View)
    → Extends form room_id slots v v'
    → Calmer v v'
Extends-Calmer form room_id slots v v' h = record {
  slots = h.kept;
  reserved = λ id (k, b, at, of_it, is). (k, b, sym (ap (λ m. m k) h.bookings) ∙ at, of_it, is);
}

Upserts-Calmer :
    (form : Form) (room_id : String) (slots : List Slot) (v v' : View) (r : Result (Unit {0}))
    → Upserts form room_id slots v v' r
    → Calmer v v'
Upserts-Calmer form room_id slots v v' (ok _) (h, _) = Extends-Calmer form room_id slots v v' h
Upserts-Calmer form room_id slots v v' (err e) (_, h) = Extends-Calmer form room_id slots v v' h
Upserts-Calmer form room_id slots v v' panic h = elim h [ ]

-- What ListAvailableSlots answers may be offered.
pub Offers-AllFree :
    (room_id : String) (day : Time) (v v' : View) (r : Result (List Slot))
    → Offers room_id day v v' r
    → Calmer v v' × Says (λ slots. AllFree v' room_id slots) r
Offers-AllFree room_id day v v' (ok slots) (mem, _, same) = (
  Calmer-same v v' same,
  subst (λ w. AllFree w room_id slots) (sym same)
      (λ t m. let (at, (room, _, _, free)) = (mem t).0 m in (at, room, free)),
)
Offers-AllFree room_id day v v' (err e) (_, same) = (Calmer-same v v' same, tt)
Offers-AllFree room_id day v v' panic h = elim h [ ]

-- A reply of 200 lists only slots that may be offered.
abbrev pub ListsFree : View → (room_id : String) → Reply → Type 0
ListsFree v room_id r =
    (slots : List Slot) → r ≡ write_json 200 (slots_body slots) → AllFree v room_id slots

module _ (S : Store) (C : SlotsCache) {form : Form} {Inv : S.State → Type 0} {view : S.State → View}
    (spec : IsBookingStore form S Inv view)
    {Holds : C.State → (room_id date : String) → List Slot → Type 0}
    (cache : IsSlotsCache C Holds) where
  pub handle_create_room-Keeps :
      (body : Option CreateRoomRequest) → Keeps S C spec cache (handle_create_room S C body)
  unfolding handle_create_room
  handle_create_room-Keeps none = λ srv good. good
  handle_create_room-Keeps (some req) =
      let call = S.create_room req.name req.description req.capacity in
      guard-Keeps S C spec cache (is_blank (codes req.name)) _ _ (
        with_store-Keeps S C spec cache call _ _ Anything
          (quiet S C spec cache call (spec.create_room req.name req.description req.capacity))
          (λ room srv _ good. good))

  pub handle_list_rooms-Keeps : Keeps S C spec cache (handle_list_rooms S C)
  unfolding handle_list_rooms
  handle_list_rooms-Keeps =
      with_store-Keeps S C spec cache S.list_rooms _ _ Anything
        (quiet S C spec cache S.list_rooms spec.list_rooms) (λ rooms srv _ good. good)

  pub upsert_slots-Calls :
      (room_id : String) (slots : List Slot)
      → Calls S C spec cache Anything (S.upsert_slots room_id slots)
  upsert_slots-Calls room_id slots st inv =
      let (inv', answered) = spec.upsert_slots room_id slots st inv in
      (
        inv',
        Upserts-Calmer form room_id slots _ _ _ answered,
        Says-Anything (view (S.upsert_slots room_id slots st).1) _,
      )

  upsert_ignoring-Keeps :
      (room_id : String) (slots : List Slot) (k : Handler S C)
      → Keeps S C spec cache k
      → Keeps S C spec cache (upsert_ignoring S C room_id slots k)
  upsert_ignoring-Keeps room_id slots k keeps =
      after-Good S C spec cache (S.upsert_slots room_id slots) (λ r. unless_panic S C r k) Anything
        (λ end. Good S C spec cache end.1) (upsert_slots-Calls room_id slots) rest
    where
      rest :
          (r : Result (Unit {0})) (srv : Server S C)
          → Says (λ a. Anything a (view srv.store)) r
          → Good S C spec cache srv
          → Good S C spec cache (unless_panic S C r k srv).1
      rest (ok _) srv _ good = keeps srv good
      rest (err e) srv _ good = keeps srv good
      rest panic srv _ good = good

  upsert_days-Keeps :
      (room_id : String) (sc : Schedule) (left : ℕ) (day : Time) (k : Handler S C)
      → Keeps S C spec cache k
      → Keeps S C spec cache (upsert_days S C room_id sc left day k)
  unfolding upsert_days
  upsert_days-Keeps room_id sc zero day k keeps = keeps
  upsert_days-Keeps room_id sc (suc left) day k keeps =
      upsert_ignoring-Keeps room_id (slots_or_nil (generate_slots_for_date room_id sc day)) _
        (upsert_days-Keeps room_id sc left (add_date day 1) k keeps)

  store_schedule-Keeps :
      (room_id : String) (now : Time) (req : Schedule)
      → Keeps S C spec cache (store_schedule S C room_id now req)
  store_schedule-Keeps room_id now req srv = elim (Option-cases (validate_schedule req)) [
    | inr (e, bad) ↦ rw (bad, store_schedule) (λ good. good)
    | inl fine ↦
        rw (fine, store_schedule)
          (with_store-Keeps S C spec cache (S.create_schedule req) _ _ Anything
            (quiet S C spec cache (S.create_schedule req) (spec.create_schedule req))
            (λ sc srv _.
              upsert_days-Keeps room_id sc 7 now _ (invalidate-Good S C spec cache room_id) srv)
            srv)
  ]

  pub handle_create_schedule-Keeps :
      (room_id : String) (now : Time) (body : Option Schedule)
      → Keeps S C spec cache (handle_create_schedule S C room_id now body)
  unfolding handle_create_schedule
  handle_create_schedule-Keeps room_id now none = λ srv good. good
  handle_create_schedule-Keeps room_id now (some req) =
      store_schedule-Keeps room_id now (record req { room_id = room_id })
