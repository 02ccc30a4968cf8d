-- ===== src/Http/Answers.antt =====
-- POST /bookings/create over the MemoryStore: the status and the effects of each outcome.
use avito_test.Prelude.{
  suc, ◌≤◌, ◌<◌, ◌≡◌, ◌≢◌, sym, ap, ◌∙◌, ◌⊎◌, inl, inr, none, some, lookup, not-same, subst,
}
use avito_test.Types.{
  Claims, Slot, Booking, Error, Result, err, slot_already_booked, invalid_request,
}
use avito_test.Memory.{Env, World, create_booking, get_slot}
use avito_test.Memory.Tables.{IsValid}
use avito_test.Memory.Bookings.{Occupied}
use avito_test.Memory.Create.{IsCreated, create_booking-outcome}
use avito_test.Store.{Store, memory_store}
use avito_test.Cache.{SlotsCache}
use avito_test.Http.{Server, Reply, write_json, write_error, bad_request, booking_body}
use avito_test.Http.Calls.{with_store-ok, with_store-err}
use avito_test.Http.Bookings.{CreateBookingRequest, book, create_error, handle_create_booking}

module _ (env : Env) (C : SlotsCache) (claims : Claims) (req : CreateBookingRequest)
    (srv : Server (memory_store env) C) where
  -- The store's call that the handler makes.
  abbrev call : World → Result Booking × World
  call = create_booking env req.slot_id claims.user_id req.create_conference_link

  -- The server after a call that left the store as it was but for a reading of the clock.
  abbrev pub OnlyTicked : Server (memory_store env) C → Type 0
  OnlyTicked srv' = srv' ≡ record srv { store = record srv.store { ticks = suc srv.store.ticks } }

  abbrev pub NoSlot : Reply × Server (memory_store env) C → Type 0
  NoSlot r =
      (lookup req.slot_id srv.store.store.slots ≡ none)
      × (r ≡ (write_error 404 "SLOT_NOT_FOUND" "slot not found", srv))

  abbrev pub InPast : Slot → Reply × Server (memory_store env) C → Type 0
  InPast s r =
      (s.start < env.now srv.store.ticks)
      × (r.0 ≡ bad_request "slot is in the past")
      × OnlyTicked r.1

  abbrev pub IsTaken : Slot → Reply × Server (memory_store env) C → Type 0
  IsTaken s r =
      (env.now srv.store.ticks ≤ s.start)
      × Occupied req.slot_id srv.store.store.bookings
      × (r.0 ≡ write_error 409 "SLOT_ALREADY_BOOKED" "slot is already booked")
      × OnlyTicked r.1

  abbrev pub IsBooked : Slot → Reply × Server (memory_store env) C → Type 0
  IsBooked s r =
      (env.now srv.store.ticks ≤ s.start)
      × (¬ Occupied req.slot_id srv.store.store.bookings)
      × (b : Booking) × (r.0 ≡ write_json 201 (booking_body b))
      × IsCreated env req.slot_id claims.user_id req.create_conference_link srv.store b r.1.store
      × (r.1.cache ≡ (C.invalidate_room s.room_id srv.cache).1)
      × (r.1.users ≡ srv.users)

  found :
      (s : Slot)
      → req.slot_id ≢ ""
      → lookup req.slot_id srv.store.store.slots ≡ some s
      → handle_create_booking (memory_store env) C claims (some req) srv
        ≡ book (memory_store env) C claims req s srv
  unfolding handle_create_booking get_slot
  found s h e = rw (not-same req.slot_id "" h, e, get_slot)

  abbrev S : Store
  S = memory_store env

  no_slot :
      req.slot_id ≢ ""
      → lookup req.slot_id srv.store.store.slots ≡ none
      → handle_create_booking S C claims (some req) srv
        ≡ (write_error 404 "SLOT_NOT_FOUND" "slot not found", srv)
  unfolding handle_create_booking get_slot
  no_slot h gone = rw (not-same req.slot_id "" h, gone, get_slot)

  answered :
      (s : Slot)
      → req.slot_id ≢ ""
      → lookup req.slot_id srv.store.store.slots ≡ some s
      → (x : Error) → (call srv.store).0 ≡ err x
      → handle_create_booking S C claims (some req) srv
        ≡ (create_error x, record srv { store = (call srv.store).1 })
  answered s h at x e = found s h at ∙ with_store-err S C call create_error _ srv x e

  refused :
      (s : Slot)
      → req.slot_id ≢ ""
      → lookup req.slot_id srv.store.store.slots ≡ some s
      → (x : Error) → (call srv.store).0 ≡ err x
      → (handle_create_booking S C claims (some req) srv).0 ≡ create_error x
  refused s h at x e = ap (λ (r : Reply × Server S C). r.0) (answered s h at x e)

  ticked :
      (s : Slot)
      → req.slot_id ≢ ""
      → lookup req.slot_id srv.store.store.slots ≡ some s
      → (x : Error) → (call srv.store).0 ≡ err x
      → (call srv.store).1 ≡ record srv.store { ticks = suc srv.store.ticks }
      → OnlyTicked (handle_create_booking S C claims (some req) srv).1
  ticked s h at x e same =
      ap (λ (r : Reply × Server S C). r.1) (answered s h at x e)
      ∙ ap (λ (w : World). record srv { store = w }) same

  -- A request to create a booking with a slot id, by the user of the claims and on a well-formed
  -- store, is answered by 404 and changes nothing if there is no such slot; by 400 if its start
  -- lies before the time read, and by 409 if it lies ahead and has an active booking, where only
  -- the clock has been read; and otherwise by 201 with a new active booking of the slot for the
  -- user of the claims, which is stored, and the cache's InvalidateRoom has been called for the
  -- slot's room, whatever it answered.
  pub handle_create_booking-outcome :
      req.slot_id ≢ ""
      → IsValid env srv.store
      → let r = handle_create_booking (memory_store env) C claims (some req) srv in
        NoSlot r
        ⊎ ((s : Slot) × (lookup req.slot_id srv.store.store.slots ≡ some s)
            × (InPast s r ⊎ (IsTaken s r ⊎ IsBooked s r)))
  handle_create_booking-outcome h v =
      elim (create_booking-outcome env req.slot_id claims.user_id req.create_conference_link
        srv.store v.bookings.nodup) [
          | inl (gone, _) ↦ inl (gone, no_slot h gone)
          | inr (inl (s, at, past, e, same)) ↦ inr (
            s,
            at,
            inl (past, refused s h at invalid_request e, ticked s h at invalid_request e same),
          )
          | inr (inr (inl (s, at, ahead, taken, e, same))) ↦ inr (
            s,
            at,
            inr (
                inl (
                  ahead,
                  taken,
                  refused s h at slot_already_booked e,
                  ticked s h at slot_already_booked e same,
                )),
          )
          | inr (inr (inr (s, at, ahead, free, b, e, made))) ↦
              let done = found s h at ∙ with_store-ok S C call create_error _ srv b e in
              inr (
                s,
                at,
                inr (
                    inr (
                      ahead,
                      free,
                      b,
                      ap (λ (r : Reply × Server S C). r.0) done,
                      subst
                          (IsCreated env req.slot_id claims.user_id req.create_conference_link
                            srv.store b)
                          (sym (ap (λ (r : Reply × Server S C). r.1.store) done)) made,
                      ap (λ (r : Reply × Server S C). r.1.cache) done,
                      ap (λ (r : Reply × Server S C). r.1.users) done,
                    )),
              )
        ]
