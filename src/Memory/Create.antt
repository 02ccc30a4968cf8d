-- ===== src/Memory/Create.antt =====
-- CreateBooking: what it answers in each case, and that it keeps the table of bookings.
use Prim.Native.String
use avito_test.Prelude.{
  suc, ◌≤◌, ◌<◌, ◌≡◌, refl, inl, inr, none, some, String, Bool, true, false, lookup, insert, arith,
  ◌⊎◌, Bool-cases, Option-cases, if◌then◌else◌, lt→ltb, not-ltb, NodupKeys, ap,
}
use native.Mathlib.Decide.{dec_lt}
use avito_test.Types.{
  Slot, Booking, active, Result, ok, err, slot_not_found, slot_already_booked, invalid_request,
}
use avito_test.Memory.{
  Env, World, MemoryStore, is_busy, get_slot, add_booking, book_slot, create_booking,
}
use avito_test.Memory.Bookings.{Occupied, is_busy_iff}

module _ (env : Env) (slot_id user_id : String) (with_link : Bool) where
  -- The booking that a successful call returns and what it stores: an active booking of the slot
  -- for the user, under the next UUID, dated by the second reading of the clock; nothing else of
  -- the store changes.
  pub record IsCreated (w : World) (b : Booking) (w' : World) : Type 0 where
    pub id : b.id ≡ env.new_string w.drawn
    pub slot : b.slot_id ≡ slot_id
    pub user : b.user_id ≡ user_id
    pub status : b.status ≡ active
    pub created_at : b.created_at ≡ some (env.now (suc w.ticks))
    pub link : b.conference_link ≡ (
        if with_link
        then some (String.◌++◌ "https://meet.example.com/" (env.new_string (suc w.drawn)))
        else none)
    pub stored : w'.store ≡ record w.store { bookings = insert b.id b w.store.bookings }
    pub drawn : suc w.drawn ≤ w'.drawn

  -- The slot does not exist.
  abbrev pub Missing : World → Result Booking × World → Type 0
  Missing w r = (lookup slot_id w.store.slots ≡ none) × (r ≡ (err slot_not_found, w))

  -- The slot has begun before the clock was read.
  abbrev pub Past : World → Result Booking × World → Type 0
  Past w r =
      (s : Slot) × (lookup slot_id w.store.slots ≡ some s)
      × (s.start < env.now w.ticks)
      × (r.0 ≡ err invalid_request)
      × (r.1 ≡ record w { ticks = suc w.ticks })

  -- The slot lies ahead and is booked.
  abbrev pub Taken : World → Result Booking × World → Type 0
  Taken w r =
      (s : Slot) × (lookup slot_id w.store.slots ≡ some s)
      × (env.now w.ticks ≤ s.start)
      × Occupied slot_id w.store.bookings
      × (r.0 ≡ err slot_already_booked)
      × (r.1 ≡ record w { ticks = suc w.ticks })

  -- The slot lies ahead and is free.
  abbrev pub Created : World → Result Booking × World → Type 0
  Created w r =
      (s : Slot) × (lookup slot_id w.store.slots ≡ some s)
      × (env.now w.ticks ≤ s.start)
      × (¬ Occupied slot_id w.store.bookings)
      × (b : Booking) × (r.0 ≡ ok b)
      × IsCreated w b r.1

  create_found :
      (w : World) (s : Slot)
      → lookup slot_id w.store.slots ≡ some s
      → create_booking env slot_id user_id with_link w ≡ book_slot env s slot_id user_id with_link w
  unfolding create_booking get_slot
  create_found w s e = rw (e, get_slot, create_booking)

-- After the reading of the clock by the check of the start.
abbrev checked : World → World
checked w = record w { ticks = suc w.ticks }

add_booking-IsCreated :
    (env : Env) (slot_id user_id : String) (with_link : Bool) (w : World)
    → (b : Booking) × ((add_booking env slot_id user_id with_link (checked w)).0 ≡ ok b)
      × IsCreated env slot_id user_id with_link w b
          (add_booking env slot_id user_id with_link (checked w)).1
unfolding add_booking
add_booking-IsCreated env slot_id user_id true w = (
  _,
  refl,
  record {
    id = refl;
    slot = refl;
    user = refl;
    status = refl;
    created_at = refl;
    link = refl;
    stored = refl;
    drawn = omega arith;
  },
)
add_booking-IsCreated env slot_id user_id false w = (
  _,
  refl,
  record {
    id = refl;
    slot = refl;
    user = refl;
    status = refl;
    created_at = refl;
    link = refl;
    stored = refl;
    drawn = omega arith;
  },
)

module _ (env : Env) (slot_id user_id : String) (with_link : Bool) where
  book_slot_past :
      (w : World) (s : Slot)
      → s.start < env.now w.ticks
      → book_slot env s slot_id user_id with_link w ≡ (err invalid_request, checked w)
  book_slot_past w s h = rw (lt→ltb s.start (env.now w.ticks) h)

  book_slot_busy :
      (w : World) (s : Slot)
      → env.now w.ticks ≤ s.start
      → is_busy slot_id w.store ≡ true
      → book_slot env s slot_id user_id with_link w ≡ (err slot_already_booked, checked w)
  book_slot_busy w s h busy = rw (not-ltb s.start (env.now w.ticks) h, busy)

  book_slot_free :
      (w : World) (s : Slot)
      → env.now w.ticks ≤ s.start
      → is_busy slot_id w.store ≡ false
      → book_slot env s slot_id user_id with_link w
        ≡ add_booking env slot_id user_id with_link (checked w)
  book_slot_free w s h free = rw (not-ltb s.start (env.now w.ticks) h, free)

  not-Occupied :
      (m : MemoryStore)
      → NodupKeys m.bookings
      → is_busy slot_id m ≡ false
      → ¬ Occupied slot_id m.bookings
  not-Occupied m u free o = cc ((is_busy_iff slot_id m u).1 o, free)

  outcome_found :
      (w : World) (s : Slot)
      → NodupKeys w.store.bookings
      → lookup slot_id w.store.slots ≡ some s
      → let r = book_slot env s slot_id user_id with_link w in
        Past env slot_id user_id with_link w r
        ⊎ Taken env slot_id user_id with_link w r
        ⊎ Created env slot_id user_id with_link w r
  outcome_found w s u found = elim (dec_lt s.start (env.now w.ticks)) [
    | yes p ↦
        let e = book_slot_past w s p in
        inl (
          s,
          found,
          p,
          ap (λ (r : Result Booking × World). r.0) e,
          ap (λ (r : Result Booking × World). r.1) e,
        )
    | no p ↦
        let later : env.now w.ticks ≤ s.start = omega arith in
        elim (Bool-cases (is_busy slot_id w.store)) [
          | inl b ↦
              let e = book_slot_busy w s later b in
              inr (
                inl (
                  s,
                  found,
                  later,
                  (is_busy_iff slot_id w.store u).0 b,
                  ap (λ (r : Result Booking × World). r.0) e,
                  ap (λ (r : Result Booking × World). r.1) e,
                ))
          | inr b ↦
              let (new, same, made) = add_booking-IsCreated env slot_id user_id with_link w in
              let e = book_slot_free w s later b in
              inr (inr (s, found, later, not-Occupied w.store u b, new, rw e same, rw e made))
        ]
  ]

  -- On a store that has no two bookings under one key, CreateBooking ends in one of four ways:
  -- the slot does not exist, and it answers ErrSlotNotFound and changes nothing; the slot's
  -- start lies before the time read, and it answers ErrInvalidRequest; the slot lies ahead and
  -- has an active booking, and it answers ErrSlotAlreadyBooked, where in both cases only the
  -- clock has been read; or the slot lies ahead and has none, and it stores and returns a new
  -- active booking of the slot for the user.
  pub create_booking-outcome :
      (w : World)
      → NodupKeys w.store.bookings
      → let r = create_booking env slot_id user_id with_link w in
        Missing env slot_id user_id with_link w r
        ⊎ (Past env slot_id user_id with_link w r
            ⊎ Taken env slot_id user_id with_link w r
            ⊎ Created env slot_id user_id with_link w r)
  unfolding create_booking get_slot
  create_booking-outcome w u = elim (Option-cases (lookup slot_id w.store.slots)) [
    | inl e ↦ inl (e, rw (e, get_slot, create_booking))
    | inr (s, e) ↦
        inr (rw (create_found env slot_id user_id with_link w s e) (outcome_found w s u e))
  ]
