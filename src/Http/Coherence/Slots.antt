-- ===== src/Http/Coherence/Slots.antt =====
-- handleListSlots keeps the cached lists true, and answers a true list.
use avito_test.Prelude.{
  ◌*◌, ◌≡◌, ◌≢◌, sym, subst, inl, inr, Option, none, some, List, String, Bool, true, false, not,
  ◌==◌, if◌then◌else◌, Bool-cases, Option-cases, [],
}
use avito_test.Times.{Time, day_length}
use avito_test.Times.Clock.{codes}
use avito_test.Times.Calendar.{parse_date}
use avito_test.Types.{Schedule, Slot, Result, ok, err, panic}
use avito_test.Slots.{generate_slots_for_date}
use avito_test.Store.{Store}
use avito_test.Cache.{SlotsCache}
use avito_test.Cache.Contract.{IsPlain, Gets, IsSlotsCache}
use avito_test.Contract.{Form, View, IsBookingStore}
use avito_test.Http.{Server, Reply, write_json, Handler, slots_body}
use avito_test.Http.Rooms.{
  upsert_ignoring, unless_panic, slots_ttl, cache_and_reply, list_free, list_generated, list_found,
  list_scheduled, list_uncached, list_cached, list_of_day, handle_list_slots,
}
use avito_test.Http.Coherence.{
  AllFree, Says, Anything, IsSound, Good, quiet, after-Good, with_store-Good,
}
use avito_test.Http.Coherence.Rooms.{Offers-AllFree, ListsFree, upsert_slots-Calls}

-- The reply lists no slots.
abbrev ListsNone : Reply → Type 0
ListsNone r = (slots : List Slot) → r ≢ write_json 200 (slots_body slots)

-- The text names a room: it is plain, and is the one that the store keeps.
abbrev pub IsName : Form → String → Type 0
IsName form room_id = IsPlain room_id × (form.id room_id ≡ room_id)

module _ (S : Store) (C : SlotsCache) {form : Form} {Inv : S.State → Type 0} {view : S.State → View}
    (spec : IsBookingStore form S Inv view)
    {Holds : C.State → (room_id date : String) → List Slot → Type 0}
    (cache : IsSlotsCache C Holds) where
  -- The handler keeps the lists true, and answers a true list.
  abbrev TrueList : (room_id : String) → Reply × Server S C → Type 0
  TrueList room_id end = Good S C spec cache end.1 × ListsFree (view end.1.store) room_id end.0

  abbrev Lists : (room_id : String) → Handler S C → Type 0
  Lists room_id h = (srv : Server S C) → Good S C spec cache srv → TrueList room_id (h srv)

  cache_and_reply-Lists :
      (room_id date_raw : String) (slots : List Slot) (srv : Server S C)
      → IsName form room_id
      → AllFree (view srv.store) room_id slots
      → Good S C spec cache srv
      → TrueList room_id (cache_and_reply S C room_id date_raw slots srv)
  cache_and_reply-Lists room_id date_raw slots srv plain free (inv, sound) =
      ((inv, kept), λ listed e. subst (AllFree (view srv.store) room_id) (same listed e) free)
    where
      same :
          (listed : List Slot)
          → write_json 200 (slots_body slots) ≡ write_json 200 (slots_body listed)
          → slots ≡ listed
      same listed e = cc

      kept :
          IsSound S C spec cache
            (view srv.store)
            (C.set_slots room_id date_raw slots slots_ttl srv.cache).1
      kept room date cached held =
          elim (cache.set_slots room_id date_raw slots slots_ttl srv.cache room date cached plain.0
            held) [
              | inl old ↦ sound room date cached old
              | inr (rooms, _, lists) ↦
                  subst (λ r. AllFree (view srv.store) r cached) (sym rooms)
                    (subst (AllFree (view srv.store) room_id) (sym lists) free)
            ]

  list_free-Lists :
      (room_id date_raw : String) (date : Time)
      → IsName form room_id
      → Lists room_id (list_free S C room_id date_raw date)
  list_free-Lists room_id date_raw date plain =
      with_store-Good S C spec cache (S.list_available_slots room_id date) _ _
        (λ slots v. AllFree v (form.id room_id) slots) (TrueList room_id)
        (λ st inv.
          let (inv', answered) = spec.list_available_slots room_id date st inv in
          let (calm, free) = Offers-AllFree (form.id room_id) date _ _ _ answered in
          (inv', calm, free))
        (λ e srv good. (good, λ slots same. cc)) (λ srv good. (good, λ slots same. cc))
        (λ slots srv free good.
          cache_and_reply-Lists room_id date_raw slots srv plain
            (subst (λ r. AllFree (view srv.store) r slots) plain.1 free) good)

  upsert_ignoring-Lists :
      (room_id : String) (slots : List Slot) (k : Handler S C)
      → Lists room_id k
      → Lists room_id (upsert_ignoring S C room_id slots k)
  upsert_ignoring-Lists room_id slots k lists =
      after-Good S C spec cache (S.upsert_slots room_id slots) (λ r. unless_panic S C r k) Anything
        (TrueList room_id) (upsert_slots-Calls S C spec cache room_id slots) rest
    where
      rest :
          (r : Result (Unit {0})) (srv : Server S C)
          → Says (λ a. Anything a (view srv.store)) r
          → Good S C spec cache srv
          → TrueList room_id (unless_panic S C r k srv)
      rest (ok _) srv _ good = lists srv good
      rest (err e) srv _ good = lists srv good
      rest panic srv _ good = (good, λ slots same. cc)

  list_generated-Lists :
      (room_id date_raw : String) (date : Time) (r : Result (List Slot))
      → IsName form room_id
      → Lists room_id (list_generated S C room_id date_raw date r)
  list_generated-Lists room_id date_raw date (ok generated) plain =
      upsert_ignoring-Lists room_id generated _ (list_free-Lists room_id date_raw date plain)
  list_generated-Lists room_id date_raw date (err _) plain =
      list_free-Lists room_id date_raw date plain
  list_generated-Lists room_id date_raw date panic plain = λ srv good. (good, λ slots same. cc)

  list_scheduled-Lists :
      (room_id date_raw : String) (date : Time) (found : Option Schedule)
      → IsName form room_id
      → Lists room_id (list_scheduled S C room_id date_raw date found)
  list_scheduled-Lists room_id date_raw date none plain =
      λ srv good. cache_and_reply-Lists room_id date_raw [] srv plain (λ t m. elim m [ ]) good
  list_scheduled-Lists room_id date_raw date (some schedule) plain =
      list_generated-Lists room_id date_raw date (generate_slots_for_date room_id schedule date)
        plain

  list_uncached-Lists :
      (room_id date_raw : String) (date : Time)
      → IsName form room_id
      → Lists room_id (list_uncached S C room_id date_raw date)
  list_uncached-Lists room_id date_raw date plain =
      let call = S.get_schedule_by_room room_id in
      with_store-Good S C spec cache call _ _ Anything (TrueList room_id)
        (quiet S C spec cache call (spec.get_schedule_by_room room_id))
        (λ e srv good. (good, λ slots same. cc)) (λ srv good. (good, λ slots same. cc))
        (λ found srv _ good. list_scheduled-Lists room_id date_raw date found plain srv good)

  -- A list of the cache is true since the cache was.
  list_found-Lists :
      (room_id date_raw : String) (date : Time) (r : Result (Option (List Slot))) (srv : Server S C)
      → IsName form room_id
      → Gets (AllFree (view srv.store) room_id) r
      → Good S C spec cache srv
      → TrueList room_id (list_found S C room_id date_raw date r srv)
  list_found-Lists room_id date_raw date (ok (some slots)) srv plain free good =
      (good, λ listed e. subst (AllFree (view srv.store) room_id) (same listed e) free)
    where
      same :
          (listed : List Slot)
          → write_json 200 (slots_body slots) ≡ write_json 200 (slots_body listed)
          → slots ≡ listed
      same listed e = cc
  list_found-Lists room_id date_raw date (ok none) srv plain _ good =
      list_uncached-Lists room_id date_raw date plain srv good
  list_found-Lists room_id date_raw date (err _) srv plain _ good =
      list_uncached-Lists room_id date_raw date plain srv good
  list_found-Lists room_id date_raw date panic srv plain _ good = (good, λ slots same. cc)

  Gets-AllFree :
      (P Q : List Slot → Type 0) (r : Result (Option (List Slot)))
      → ((slots : List Slot) → P slots → Q slots)
      → Gets P r
      → Gets Q r
  Gets-AllFree P Q (ok (some slots)) f h = f slots h
  Gets-AllFree P Q (ok none) f h = tt
  Gets-AllFree P Q (err e) f h = tt
  Gets-AllFree P Q panic f h = h

  list_cached-Lists :
      (room_id date_raw : String) (date : Time)
      → IsName form room_id
      → Lists room_id (list_cached S C room_id date_raw date)
  list_cached-Lists room_id date_raw date plain srv (inv, sound) =
      let answer = C.get_slots room_id date_raw srv.cache in
      list_found-Lists room_id date_raw date answer.0 (record srv { cache = answer.1 }) plain
        (Gets-AllFree (Holds srv.cache room_id date_raw) (AllFree (view srv.store) room_id) answer.0
          (sound room_id date_raw) (cache.get_slots room_id date_raw srv.cache plain.0))
        (
          inv,
          λ room day slots held.
              sound room day slots (cache.get_keeps room_id date_raw srv.cache room day slots held),
        )

  guard-Lists :
      (room_id : String) (t : Bool) (r : Reply) (h : Handler S C)
      → ListsNone r
      → Lists room_id h
      → Lists room_id (λ srv. if t then (r, srv) else h srv)
  guard-Lists room_id true r h none_listed lists =
      λ srv good. (good, λ slots e. absurd (none_listed slots e))
  guard-Lists room_id false r h none_listed lists = lists

  list_of_day-Lists :
      (room_id date_raw : String) (date : Time)
      → IsName form room_id
      → Lists room_id (list_of_day S C room_id date_raw date)
  list_of_day-Lists room_id date_raw date plain =
      with_store-Good S C spec cache (S.room_exists room_id) _ _ Anything (TrueList room_id)
        (quiet S C spec cache (S.room_exists room_id) (spec.room_exists room_id))
        (λ e srv good. (good, λ slots same. cc)) (λ srv good. (good, λ slots same. cc))
        (λ exists srv _.
          guard-Lists room_id (not exists) _ (list_cached S C room_id date_raw date) (λ slots e. cc)
            (list_cached-Lists room_id date_raw date plain) srv)

  -- GET /rooms/{roomId}/slots/list, over any store and any cache that keep their contracts, at a
  -- server whose cached lists are true: where it answers 200 with slots, cached or not, each is
  -- stored, is of the room, and has no active booking as it answers; and the cached lists stay
  -- true. The name of the room is plain, as a UUID is, and is
  -- the one that the store keeps.
  pub handle_list_slots-TrueList :
      (room_id date_raw : String) (srv : Server S C)
      → IsName form room_id
      → Inv srv.store
      → IsSound S C spec cache (view srv.store) srv.cache
      → let end = handle_list_slots S C room_id date_raw srv in
        (Inv end.1.store × IsSound S C spec cache (view end.1.store) end.1.cache)
        × ListsFree (view end.1.store) room_id end.0
  unfolding handle_list_slots
  handle_list_slots-TrueList room_id date_raw srv plain inv sound =
      elim (Bool-cases (date_raw == "")) [
        | inl empty ↦ rw (empty, handle_list_slots) ((inv, sound), λ slots same. cc)
        | inr full ↦ elim (Option-cases (parse_date (codes date_raw))) [
          | inl bad ↦ rw (full, bad, handle_list_slots) ((inv, sound), λ slots same. cc)
          | inr (day, fine) ↦
              rw (full, fine, handle_list_slots)
                (list_of_day-Lists room_id date_raw (day * day_length) plain srv (inv, sound))
        ]
      ]
