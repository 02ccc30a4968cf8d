-- ===== src/Http/Rooms.antt =====
-- The handlers of /rooms/… in internal/app/http.go.
use avito_test.Prelude.{
  ℕ, zero, suc, ◌*◌, Bool, true, not, ◌&&◌, ◌||◌, Option, none, some, List, [], ◌∷◌, String, ℤ, eqb,
  leb, ◌==◌, if◌then◌else◌,
}
use avito_test.Times.{Time, second, day_length, add_date}
use avito_test.Times.Clock.{codes}
use avito_test.Times.Calendar.{parse_date}
use avito_test.Types.{
  Schedule, Slot, Error, room_not_found, schedule_exists, Result, ok, err, panic,
}
use avito_test.Slots.{validate_schedule, generate_slots_for_date}
use avito_test.Store.{Store}
use avito_test.Cache.{SlotsCache}
use avito_test.Http.{
  Reply, write_json, write_error, bad_request, internal_error, crash, rooms_body, room_body,
  schedule_body, slots_body, Handler, reply, decode_json, with_store, run_cache,
}

pub record CreateRoomRequest : Type 0 where
  pub name : String
  pub description : Option String
  pub capacity : Option ℤ

-- `unicode.IsSpace`
abbrev pub is_space : ℕ → Bool
is_space c =
    leb 9 c && leb c 13
    || eqb c 32
    || eqb c 133
    || eqb c 160
    || eqb c 5760
    || leb 8192 c && leb c 8202
    || eqb c 8232
    || eqb c 8233
    || eqb c 8239
    || eqb c 8287
    || eqb c 12288

-- `strings.TrimSpace(s) == ""`
unfoldable pub is_blank : List ℕ → Bool
is_blank [] = true
is_blank (c ∷ s) = is_space c && is_blank s

abbrev pub schedule_error : Error → Reply
schedule_error room_not_found = write_error 404 "ROOM_NOT_FOUND" "room not found"
schedule_error schedule_exists =
    write_error 409 "SCHEDULE_EXISTS" "schedule for this room already exists and cannot be changed"
schedule_error _ = internal_error

-- `slots, _ := GenerateSlotsForDate(…)`
abbrev pub slots_or_nil : Result (List Slot) → List Slot
slots_or_nil (ok slots) = slots
slots_or_nil (err _) = []
slots_or_nil panic = []

-- `30*time.Second`
abbrev pub slots_ttl : ℕ
slots_ttl = 30 * second

module _ (S : Store) (C : SlotsCache) where
  unfoldable pub handle_list_rooms : Handler S C
  handle_list_rooms =
      with_store S C S.list_rooms (λ _. internal_error)
        (λ rooms. reply S C (write_json 200 (rooms_body rooms)))

  abbrev pub create_named_room : CreateRoomRequest → Handler S C
  create_named_room req srv =
      if is_blank (codes req.name)
      then (bad_request "name is required", srv)
      else with_store S C (S.create_room req.name req.description req.capacity)
          (λ _. internal_error) (λ room. reply S C (write_json 201 (room_body room))) srv

  unfoldable pub handle_create_room : Option CreateRoomRequest → Handler S C
  unfolding is_blank
  handle_create_room body = decode_json S C body create_named_room

  -- The rest of a handler after a call whose error is ignored.
  abbrev pub unless_panic : {A : Type 0} → Result A → Handler S C → Handler S C
  unless_panic (ok _) k = k
  unless_panic (err _) k = k
  unless_panic panic k = reply S C crash

  -- `_ = s.store.UpsertSlots(roomID, slots)`; a panic of the call is a panic of the handler.
  abbrev pub upsert_ignoring : String → List Slot → Handler S C → Handler S C
  upsert_ignoring room_id slots k srv =
      let (r, st) = S.upsert_slots room_id slots srv.store in
      unless_panic r k (record srv { store = st })

  -- The loop of handleCreateSchedule: `left` more days, from `day` on.
  unfoldable pub upsert_days :
      String → Schedule → (left : ℕ) → (day : Time) → Handler S C → Handler S C
  upsert_days room_id sc zero day k = k
  upsert_days room_id sc (suc left) day k =
      upsert_ignoring room_id (slots_or_nil (generate_slots_for_date room_id sc day))
        (upsert_days room_id sc left (add_date day 1) k)

  -- handleCreateSchedule once the schedule is stored.
  abbrev pub open_days : String → (now : Time) → Schedule → Handler S C
  open_days room_id now sc =
      upsert_days room_id sc 7 now
        (λ srv. (write_json 201 (schedule_body sc), run_cache S C (C.invalidate_room room_id) srv))

  abbrev pub store_schedule : String → (now : Time) → Schedule → Handler S C
  store_schedule room_id now req srv = elim (validate_schedule req) [
    | some _ ↦ (bad_request "invalid schedule", srv)
    | none ↦ with_store S C (S.create_schedule req) schedule_error (open_days room_id now) srv
  ]

  unfoldable pub handle_create_schedule :
      (room_id : String) → (now : Time) → Option Schedule → Handler S C
  unfolding upsert_days
  handle_create_schedule room_id now body =
      decode_json S C body (λ req. store_schedule room_id now (record req { room_id = room_id }))

  -- `_ = s.cache.SetSlots(…)`, and the reply with the same slots.
  abbrev pub cache_and_reply : (room_id date_raw : String) → List Slot → Handler S C
  cache_and_reply room_id date_raw slots srv = (
    write_json 200 (slots_body slots),
    run_cache S C (C.set_slots room_id date_raw slots slots_ttl) srv,
  )

  -- The end of handleListSlots, after the generated slots are stored.
  abbrev pub list_free : (room_id date_raw : String) → (date : Time) → Handler S C
  list_free room_id date_raw date =
      with_store S C (S.list_available_slots room_id date) (λ _. internal_error)
        (cache_and_reply room_id date_raw)

  -- The same from the generated slots on; without them, the stored ones are listed.
  abbrev pub list_generated :
      (room_id date_raw : String) → (date : Time) → Result (List Slot) → Handler S C
  list_generated room_id date_raw date (ok generated) =
      upsert_ignoring room_id generated (list_free room_id date_raw date)
  list_generated room_id date_raw date (err _) = list_free room_id date_raw date
  list_generated room_id date_raw date panic = reply S C crash

  -- handleListSlots from the schedule on.
  abbrev pub list_scheduled :
      (room_id date_raw : String) → (date : Time) → Option Schedule → Handler S C
  list_scheduled room_id date_raw date none = cache_and_reply room_id date_raw []
  list_scheduled room_id date_raw date (some schedule) =
      list_generated room_id date_raw date (generate_slots_for_date room_id schedule date)

  -- handleListSlots from the cache on.
  abbrev pub list_uncached : (room_id date_raw : String) → (date : Time) → Handler S C
  list_uncached room_id date_raw date =
      with_store S C (S.get_schedule_by_room room_id) (λ _. internal_error)
        (list_scheduled room_id date_raw date)

  abbrev pub list_found :
      (room_id date_raw : String) → (date : Time) → Result (Option (List Slot)) → Handler S C
  list_found room_id date_raw date (ok (some slots)) = reply S C (write_json 200 (slots_body slots))
  list_found room_id date_raw date (ok none) = list_uncached room_id date_raw date
  list_found room_id date_raw date (err _) = list_uncached room_id date_raw date
  list_found room_id date_raw date panic = reply S C crash

  abbrev pub list_cached : (room_id date_raw : String) → (date : Time) → Handler S C
  list_cached room_id date_raw date srv =
      let (r, c) = C.get_slots room_id date_raw srv.cache in
      list_found room_id date_raw date r (record srv { cache = c })

  abbrev pub list_of_day : (room_id date_raw : String) → (date : Time) → Handler S C
  list_of_day room_id date_raw date =
      with_store S C (S.room_exists room_id) (λ _. internal_error)
        (λ exists srv.
          if not exists
          then (write_error 404 "ROOM_NOT_FOUND" "room not found", srv)
          else list_cached room_id date_raw date srv)

  unfoldable pub handle_list_slots : (room_id date_raw : String) → Handler S C
  handle_list_slots room_id date_raw srv =
      if date_raw == ""
      then (bad_request "date is required", srv)
      else elim (parse_date (codes date_raw)) [
        | none ↦ (bad_request "invalid date", srv)
        | some day ↦ list_of_day room_id date_raw (day * day_length) srv
      ]
