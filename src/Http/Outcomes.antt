-- ===== src/Http/Outcomes.antt =====
-- POST /bookings/create over any store that keeps its contract: the status and the effects of each
-- outcome, failures of the storage included.
use avito_test.Prelude.{◌≡◌, ◌≢◌, refl, sym, ◌⊎◌, inl, inr, none, some, subst, not-same}
use avito_test.Types.{Claims, Slot, Booking, slot_not_found, Result, ok, err, panic}
use avito_test.Store.{Store}
use avito_test.Cache.{SlotsCache}
use avito_test.Contract.{Form, View, Reserved, Finds, IsBooking, Books, IsBookingStore}
use avito_test.Http.{
  Server, Reply, write_json, write_error, bad_request, internal_error, booking_body, resume,
  run_cache,
}
use avito_test.Http.Bookings.{
  CreateBookingRequest, slot_error, create_error, book, handle_create_booking,
}

module _ (form : Form) (claims : Claims) (req : CreateBookingRequest) (v v' : View)
    (r : Reply) where
  -- 201: the booking in the answer is the only change.
  abbrev pub Booked : Type 0
  Booked =
      (b : Booking) × (r ≡ write_json 201 (booking_body b))
      × IsBooking (form.id req.slot_id) (form.id claims.user_id) v v' b

  -- The reasons of a refusal, by the status.
  abbrev pub Refused : Type 0
  Refused =
      ((r ≡ write_error 404 "SLOT_NOT_FOUND" "slot not found")
        × (v.slots (form.id req.slot_id) ≡ none))
      ⊎ (((r ≡ bad_request "slot is in the past") × (v.slots (form.id req.slot_id) ≢ none))
          ⊎ (((r ≡ write_error 409 "SLOT_ALREADY_BOOKED" "slot is already booked")
                × Reserved v (form.id req.slot_id))
              ⊎ (r ≡ internal_error)))

  abbrev pub Answered : Type 0
  Answered = Booked ⊎ (Refused × (v' ≡ v))

module _ (S : Store) (C : SlotsCache) {form : Form} {Inv : S.State → Type 0} {view : S.State → View}
    (spec : IsBookingStore form S Inv view) (claims : Claims) (req : CreateBookingRequest)
    (srv : Server S C) where
  abbrev Outcome : View → Reply × Server S C → Type 0
  Outcome v end = Answered form claims req v (view end.1.store) end.0

  created :
      (slot : Slot) (v : View) (st st' : S.State) (r : Result Booking)
      → v ≡ view st
      → Books (form.id req.slot_id) (form.id claims.user_id) v (view st') r
      → Outcome v (
          resume S C r create_error
            (λ b srv.
              (write_json 201 (booking_body b), run_cache S C (C.invalidate_room slot.room_id) srv))
            (record srv { store = st' }))
  created slot v st st' (ok b) same new = inl (b, refl, new)
  created slot v st st' (err e) same (why, kept) = elim why [
    | inl (is, gone) ↦ rw is (inr (inl (refl, gone), kept))
    | inr (inl (is, there)) ↦ rw is (inr (inr (inl (refl, there)), kept))
    | inr (inr (inl (is, taken))) ↦ rw is (inr (inr (inr (inl (refl, taken))), kept))
    | inr (inr (inr (m, is))) ↦ rw is (inr (inr (inr (inr refl)), kept))
  ]
  created slot v st st' panic same h = elim h [ ]

  booked :
      (slot : Slot) (v : View) (st : S.State)
      → view st ≡ v
      → Inv st
      → Outcome v (book S C claims req slot (record srv { store = st }))
  booked slot v st same inv =
      let call = S.create_booking req.slot_id claims.user_id req.create_conference_link in
      let (_, answered) =
        spec.create_booking req.slot_id claims.user_id req.create_conference_link st inv in
      created slot v st (call st).1 (call st).0 (sym same) (
        subst
          (λ w.
            Books (form.id req.slot_id) (form.id claims.user_id) w (view (call st).1) (call st).0)
          same answered)

  looked_up :
      (v : View) (st : S.State) (r : Result Slot)
      → Inv st
      → Finds (v.slots (form.id req.slot_id)) slot_not_found v (view st) r
      → Outcome v (resume S C r slot_error (book S C claims req) (record srv { store = st }))
  looked_up v st (ok slot) inv (_, same) = booked slot v st same inv
  looked_up v st (err e) inv (inl (is, gone), same) = rw is (inr (inl (refl, gone), same))
  looked_up v st (err e) inv (inr (m, is), same) = rw is (inr (inr (inr (inr refl)), same))
  looked_up v st panic inv h = elim h [ ]

  -- A request with a slot id, over any store that keeps its contract and any cache, is answered in
  -- one of two ways. 201 comes with a booking that is the only change: active, new, for the user of
  -- the claims, of a slot that exists and was not reserved. Otherwise slots and bookings stay as
  -- they are, and the answer is 404 only where there is no such slot, 400 only where there is one,
  -- 409 only where the slot has an active booking, or 500. It never panics. The ids of the slot and
  -- of the user are read in the form in which the store keeps them.
  pub handle_create_booking-Answered :
      req.slot_id ≢ ""
      → Inv srv.store
      → let end = handle_create_booking S C claims (some req) srv in
        Answered form claims req (view srv.store) (view end.1.store) end.0
  unfolding handle_create_booking
  handle_create_booking-Answered named inv =
      let (inv', found) = spec.get_slot req.slot_id srv.store inv in
      rw (not-same req.slot_id "" named) (
        looked_up (view srv.store) (S.get_slot req.slot_id srv.store).1
          (S.get_slot req.slot_id srv.store).0 inv' found)
