-- ===== src/Http/Coherence/Booking.antt =====
-- The handlers of /bookings/… keep the cached lists true.
use avito_test.Prelude.{
  ◌≡◌, ◌≢◌, sym, ap, ◌∙◌, subst, Option, none, some, List, String, ◌==◌, string_discrete, ==_iff,
  not-same,
}
use avito_test.Types.{Claims, Slot, Booking, Error, Result, ok, err, panic}
use avito_test.Store.{Store}
use avito_test.Cache.{SlotsCache}
use avito_test.Cache.Contract.{Invalidates, IsSlotsCache}
use avito_test.Contract.{Form, View, put_booking, Finds, IsBooking, Books, IsBookingStore}
use avito_test.Http.{Server, write_json, resume, run_cache, booking_body}
use avito_test.Http.Bookings.{CreateBookingRequest, book, create_error, handle_create_booking}
use avito_test.Http.Coherence.{
  Calmer-same, Says, Anything, Says-Anything, IsSound, Good, Keeps, Calls, with_store-Keeps,
  guard-Keeps,
}

Finds-Calmer :
    {A : Type 0} (o : Option A) (missing : Error) (v v' : View) (r : Result A)
    → Finds o missing v v' r
    → (v' ≡ v) × Says (λ a. o ≡ some a) r
Finds-Calmer o missing v v' (ok a) (at, same) = (same, at)
Finds-Calmer o missing v v' (err e) (_, same) = (same, tt)
Finds-Calmer o missing v v' panic h = elim h [ ]

Says-map :
    {A : Type 0} (P Q : A → Type 0) (r : Result A) → ((a : A) → P a → Q a) → Says P r → Says Q r
Says-map P Q (ok a) f h = f a h
Says-map P Q (err e) f h = tt
Says-map P Q panic f h = tt

pub put_booking-other :
    (k id : String) (b : Booking) (v : View)
    → k ≢ id
    → (put_booking id b v).bookings k ≡ v.bookings k
put_booking-other k id b v differs = rw (not-same k id differs)

pub put_booking-same :
    (k id : String) (b : Booking) (v : View) → k ≡ id → (put_booking id b v).bookings k ≡ some b
put_booking-same k id b v same = rw ((==_iff k id).1 same)

module _ (S : Store) (C : SlotsCache) {form : Form} {Inv : S.State → Type 0} {view : S.State → View}
    (spec : IsBookingStore form S Inv view)
    {Holds : C.State → (room_id date : String) → List Slot → Type 0}
    (cache : IsSlotsCache C Holds) where
  pub get_slot-Calls :
      (id : String) → Calls S C spec cache (λ s v. v.slots (form.id id) ≡ some s) (S.get_slot id)
  get_slot-Calls id st inv =
      let (inv', answered) = spec.get_slot id st inv in
      let (same, at) = Finds-Calmer _ _ _ _ _ answered in
      (
        inv',
        Calmer-same (view st) _ same,
        Says-map _ _ (S.get_slot id st).0 (λ s found. ap (λ w. w.slots (form.id id)) same ∙ found)
            at,
      )

  pub get_booking-Calls : (id : String) → Calls S C spec cache Anything (S.get_booking_by_id id)
  get_booking-Calls id st inv =
      let (inv', answered) = spec.get_booking_by_id id st inv in
      let (same, at) = Finds-Calmer _ _ _ _ _ answered in
      (inv', Calmer-same (view st) _ same, Says-Anything (view (S.get_booking_by_id id st).1) _)

  -- The server after a booking whose room has been invalidated.
  booked-Good :
      (slot_id user_id : String) (slot : Slot) (srv : Server S C) (st : S.State) (b : Booking)
      → (view srv.store).slots slot_id ≡ some slot
      → IsSound S C spec cache (view srv.store) srv.cache
      → (C.invalidate_room slot.room_id srv.cache).0 ≡ ok tt
      → IsBooking slot_id user_id (view srv.store) (view st) b
      → IsSound S C spec cache (view st) (C.invalidate_room slot.room_id srv.cache).1
  booked-Good slot_id user_id slot srv st b found sound sure new room date slots held t m =
      let (at, room_of, vacant) =
        sound room date slots (cache.invalidate_keeps slot.room_id srv.cache room date slots held) t
          m in
      (
        ap (λ w. w.slots t.id) new.gained ∙ at,
        room_of,
        λ (k, c, here, of_it, is). elim (string_discrete k b.id) [
          | yes same ↦ dropped t at room_of (
              booked_here c
                (sym (put_booking-same k b.id b (view srv.store) same) ∙ sym (entry k) ∙ here)
                of_it)
          | no differs ↦ vacant (
            k,
            c,
            sym (put_booking-other k b.id b (view srv.store) differs) ∙ sym (entry k) ∙ here,
            of_it,
            is,
          )
        ],
      )
    where
      entry : (k : String) → (view st).bookings k ≡ (put_booking b.id b (view srv.store)).bookings k
      entry k = ap (λ w. w.bookings k) new.gained

      booked_here : (c : Booking) → some b ≡ some c → c.slot_id ≡ t.id → slot_id ≡ t.id
      booked_here c e of_it = cc (new.slot_id)

      the_slot : (t : Slot) → some slot ≡ some t → slot.room_id ≡ t.room_id
      the_slot t e = cc

      away : ¬ Holds (C.invalidate_room slot.room_id srv.cache).1 slot.room_id date slots
      away =
          subst (Invalidates (Holds (C.invalidate_room slot.room_id srv.cache).1 slot.room_id date))
            sure (cache.invalidate_room slot.room_id date srv.cache) slots

      dropped :
          (t : Slot) → (view srv.store).slots t.id ≡ some t → t.room_id ≡ room → slot_id ≡ t.id → ⊥
      dropped t at room_of same =
          let e = sym found ∙ ap (view srv.store).slots same ∙ at in
          away (
            subst (λ r. Holds (C.invalidate_room slot.room_id srv.cache).1 r date slots)
              (sym (the_slot t e ∙ room_of)) held)

  -- No call of InvalidateRoom fails.
  abbrev pub NeverFails : Type 0
  NeverFails = (room_id : String) (c : C.State) → (C.invalidate_room room_id c).0 ≡ ok tt

  book-Good :
      (claims : Claims) (req : CreateBookingRequest) (slot : Slot) (srv : Server S C)
      → NeverFails
      → (view srv.store).slots (form.id req.slot_id) ≡ some slot
      → Good S C spec cache srv
      → Good S C spec cache (book S C claims req slot srv).1
  book-Good claims req slot srv sure found (inv, sound) =
      let call = S.create_booking req.slot_id claims.user_id req.create_conference_link in
      let (inv', answered) =
        spec.create_booking req.slot_id claims.user_id req.create_conference_link srv.store inv in
      ended (call srv.store).0 (call srv.store).1 inv' answered
    where
      ended :
          (r : Result Booking) (st : S.State)
          → Inv st
          → Books (form.id req.slot_id) (form.id claims.user_id) (view srv.store) (view st) r
          → Good S C spec cache
              (resume S C r create_error
                (λ b srv. (
                  write_json 201 (booking_body b),
                  run_cache S C (C.invalidate_room slot.room_id) srv,
                ))
                (record srv { store = st })).1
      ended (ok b) st inv' new = (
        inv',
        booked-Good (form.id req.slot_id) (form.id claims.user_id) slot srv st b found sound
            (sure slot.room_id srv.cache) new,
      )
      ended (err e) st inv' (_, same) =
          (inv', subst (λ w. IsSound S C spec cache w srv.cache) (sym same) sound)
      ended panic st inv' h = elim h [ ]

  pub handle_create_booking-Keeps :
      (claims : Claims) (body : Option CreateBookingRequest)
      → NeverFails
      → Keeps S C spec cache (handle_create_booking S C claims body)
  unfolding handle_create_booking
  handle_create_booking-Keeps claims none sure = λ srv good. good
  handle_create_booking-Keeps claims (some req) sure =
      guard-Keeps S C spec cache (req.slot_id == "") _ _ (
        with_store-Keeps S C spec cache (S.get_slot req.slot_id) _ _
          (λ s v. v.slots (form.id req.slot_id) ≡ some s) (get_slot-Calls req.slot_id)
          (λ slot srv found good. book-Good claims req slot srv sure found good))
