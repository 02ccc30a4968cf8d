-- ===== src/Http/Effects.antt =====
-- What the handlers do to the slots and bookings of a store that keeps its contract.
pub mod Rooms
pub mod Bookings
use avito_test.Prelude.{
  ℕ, zero, suc, ◌*◌, ◌≡◌, refl, sym, ◌∙◌, ℤ, pos, Option, none, some, inl, inr, List, String, Bool,
  true, false, not, ◌==◌, ==_iff, string_discrete, not-same, if◌then◌else◌, Bool-cases,
  Option-cases,
}
use avito_test.Times.{Time, add_date, day_length}
use avito_test.Times.Clock.{codes}
use avito_test.Times.Calendar.{parse_date}
use avito_test.Types.{
  Role, role_admin, role_user, Claims, Error, Result, ok, err, panic, Schedule, Slot, Booking,
}
use avito_test.Slots.{validate_schedule, generate_slots_for_date}
use avito_test.Store.{Store}
use avito_test.Cache.{SlotsCache}
use avito_test.Contract.{Form, View, Offers, Finds, IsBookingStore}
use avito_test.Contract.Effects.{
  Evolves, Evolves-same, Evolves-trans, Upserts-Evolves, Books-Evolves, Cancels-Evolves,
}
use avito_test.Http.{Server, Reply, crash, Handler, resume, with_store, run_cache, claims_from_ctx}
use avito_test.Http.Rooms.{
  is_blank, CreateRoomRequest, handle_list_rooms, create_named_room, handle_create_room,
  upsert_ignoring, upsert_days, unless_panic, open_days, store_schedule, handle_create_schedule,
  slots_or_nil, cache_and_reply, list_free, list_generated, list_found, list_scheduled,
  list_uncached, list_cached, list_of_day, handle_list_slots,
}
use avito_test.Http.Bookings.{
  CreateBookingRequest, book, find_and_book, handle_create_booking, list_page, handle_list_bookings,
  query_int, is_page, is_page_size, handle_my_bookings, try_store, with_room, cancel_in,
  handle_cancel_booking,
}
use avito_test.Http.Router.{
  Protected, list_rooms, create_room, create_schedule, list_slots, create_booking, list_bookings,
  my_bookings, cancel_booking, Reading, require_role, route,
}

module _ (S : Store) (C : SlotsCache) {form : Form} {Inv : S.State → Type 0} {view : S.State → View}
    (spec : IsBookingStore form S Inv view) (May : String → Type 0) where
  -- The handler keeps the store's invariant, and changes slots and bookings only as it may.
  abbrev pub Safe : Handler S C → Type 0
  Safe h =
      (srv : Server S C)
      → Inv srv.store
      → Inv (h srv).1.store × Evolves May (view srv.store) (view (h srv).1.store)

  abbrev pub SafeCall : {A : Type 0} → (S.State → Result A × S.State) → Type 0
  SafeCall call =
      (st : S.State) → Inv st → Inv (call st).1 × Evolves May (view st) (view (call st).1)

  -- A call after which the store looks the same.
  pub quiet :
      {A : Type 0} (call : S.State → Result A × S.State)
      → ((st : S.State) → Inv st → Inv (call st).1 × (view (call st).1 ≡ view st))
      → SafeCall call
  quiet call same st inv =
      let (inv', e) = same st inv in (inv', Evolves-same May (view st) (view (call st).1) e)

  -- A reply leaves the store alone, whatever it does to the cache and the users.
  pub stays : (st : S.State) → Inv st → Inv st × Evolves May (view st) (view st)
  stays st inv = (inv, Evolves-same May (view st) (view st) refl)

  -- One part of a handler after another.
  pub then-Safe :
      (st : S.State) (h : Handler S C) (srv : Server S C)
      → Safe h
      → Inv srv.store
      → Evolves May (view st) (view srv.store)
      → Inv (h srv).1.store × Evolves May (view st) (view (h srv).1.store)
  then-Safe st h srv safe inv first =
      let (inv', next) = safe srv inv in
      (inv', Evolves-trans May (view st) (view srv.store) (view (h srv).1.store) first next)

  pub after-Safe :
      {A : Type 0} (call : S.State → Result A × S.State) (rest : Result A → Handler S C)
      → SafeCall call
      → ((r : Result A) → Safe (rest r))
      → Safe (λ srv. rest (call srv.store).0 (record srv { store = (call srv.store).1 }))
  after-Safe call rest made safe srv inv =
      let (inv', first) = made srv.store inv in
      then-Safe srv.store (rest (call srv.store).0) (record srv { store = (call srv.store).1 })
        (safe (call srv.store).0) inv' first

  resume-Safe :
      {A : Type 0} (r : Result A) (fail : Error → Reply) (k : A → Handler S C)
      → ((a : A) → Safe (k a))
      → Safe (resume S C r fail k)
  resume-Safe (ok a) fail k safe = safe a
  resume-Safe (err e) fail k safe = λ srv. stays srv.store
  resume-Safe panic fail k safe = λ srv. stays srv.store

  pub with_store-Safe :
      {A : Type 0} (call : S.State → Result A × S.State) (fail : Error → Reply)
      (k : A → Handler S C)
      → SafeCall call
      → ((a : A) → Safe (k a))
      → Safe (with_store S C call fail k)
  with_store-Safe call fail k made safe =
      after-Safe call (λ r. resume S C r fail k) made (λ r. resume-Safe r fail k safe)

  pub guard-Safe :
      (t : Bool) (r : Reply) (h : Handler S C)
      → Safe h
      → Safe (λ srv. if t then (r, srv) else h srv)
  guard-Safe true r h safe = λ srv. stays srv.store
  guard-Safe false r h safe = safe
