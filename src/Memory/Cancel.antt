-- ===== src/Memory/Cancel.antt =====
-- CancelBooking: what it answers, that a second call changes nothing, and what it means for the slot.
use avito_test.Prelude.{
  ◌≤◌, ◌≡◌, ◌≢◌, refl, sym, ◌∙◌, ap, inl, inr, none, some, String, Bool, lookup, insert,
  lookup-insert_self, lookup-insert_cases, insert_again, arith, ◌⊎◌, Option-cases, string_discrete,
  not-same, ==_iff, subst, ◌<◌,
}
use avito_test.Types.{
  Slot, Booking, active, cancelled, Result, ok, err, booking_not_found, forbidden,
}
use avito_test.Memory.{Env, World, cancel_booking, create_booking}
use avito_test.Memory.Tables.{IsUuidSource, IsValid}
use avito_test.Memory.Bookings.{Occupied}
use avito_test.Memory.Create.{IsCreated, create_booking-outcome}
use avito_test.Memory.Invariant.{cancel_booking-IsValid, create_booking-IsValid}

-- The world after the booking `b` under `id` has been cancelled.
abbrev pub after_cancel : String → Booking → World → World
after_cancel id b w = record w {
  store = record w.store {
    bookings = insert id (record b { status = cancelled }) w.store.bookings;
  };
}

-- CancelBooking ends in one of three ways: there is no such booking, and it answers
-- ErrBookingNotFound; it is another user's, and it answers ErrForbidden, where both leave the store
-- as it was; or it is the user's, and it is stored and returned as cancelled, with its other fields
-- and everything else unchanged.
pub cancel_booking-outcome :
    (booking_id user_id : String) (w : World)
    → let r = cancel_booking booking_id user_id w in
      ((lookup booking_id w.store.bookings ≡ none) × (r ≡ (err booking_not_found, w)))
      ⊎ (((b : Booking) × (lookup booking_id w.store.bookings ≡ some b)
            × (b.user_id ≢ user_id)
            × (r ≡ (err forbidden, w)))
          ⊎ ((b : Booking) × (lookup booking_id w.store.bookings ≡ some b)
              × (b.user_id ≡ user_id)
              × (r ≡ (ok (record b { status = cancelled }), after_cancel booking_id b w))))
unfolding cancel_booking
cancel_booking-outcome booking_id user_id w =
    elim (Option-cases (lookup booking_id w.store.bookings)) [
      | inl e ↦ inl (e, rw (e, cancel_booking))
      | inr (b, e) ↦ elim (string_discrete b.user_id user_id) [
        | no other ↦
            inr (inl (b, e, other, rw (e, not-same b.user_id user_id other, cancel_booking)))
        | yes mine ↦
            inr (inr (b, e, mine, rw (e, (==_iff b.user_id user_id).1 mine, cancel_booking)))
      ]
    ]

cancel_mine :
    (booking_id : String) (b : Booking) (w : World)
    → lookup booking_id w.store.bookings ≡ some b
    → cancel_booking booking_id b.user_id w
      ≡ (ok (record b { status = cancelled }), after_cancel booking_id b w)
unfolding cancel_booking
cancel_mine booking_id b w e = rw (e, (==_iff b.user_id b.user_id).1 refl, cancel_booking)

-- Cancelling again, by the same user, what has been cancelled answers the same and changes nothing.
pub cancel_booking_idem :
    (booking_id user_id : String) (w : World) (c : Booking)
    → (cancel_booking booking_id user_id w).0 ≡ ok c
    → let w' = (cancel_booking booking_id user_id w).1 in
      cancel_booking booking_id user_id w' ≡ (ok c, w')
cancel_booking_idem booking_id user_id w c done =
    elim (cancel_booking-outcome booking_id user_id w) [
      | inl (_, e) ↦ cc
      | inr (inl (b, found, other, e)) ↦ cc
      | inr (inr (b, found, mine, e)) ↦ again b found mine e
    ]
  where
    again :
        (b : Booking)
        → lookup booking_id w.store.bookings ≡ some b
        → b.user_id ≡ user_id
        → cancel_booking booking_id user_id w
          ≡ (ok (record b { status = cancelled }), after_cancel booking_id b w)
        → let w' = (cancel_booking booking_id user_id w).1 in
          cancel_booking booking_id user_id w' ≡ (ok c, w')
    again b found mine e =
        let b' = record b { status = cancelled } in
        let w' = after_cancel booking_id b w in
        let answer : ok b' ≡ ok c = ap (λ (r : Result Booking × World). r.0) (sym e) ∙ done in
        let second =
          cancel_mine booking_id b' w' (lookup-insert_self booking_id b' w.store.bookings) in
        let stored = insert_again booking_id b' w.store.bookings in
        rw e (
          subst (λ u. cancel_booking booking_id u w' ≡ (ok c, w')) mine
            (second ∙ λ i. (answer i, record w { store = record w.store { bookings = stored i } })))

module _ (env : Env) (src : IsUuidSource env) where
  -- Once its active booking is cancelled, a slot has no active booking.
  pub after_cancel-free :
      (id : String) (b : Booking) (w : World)
      → IsValid env w
      → lookup id w.store.bookings ≡ some b
      → b.status ≡ active
      → ¬ Occupied b.slot_id (after_cancel id b w).store.bookings
  after_cancel-free id b w v found act (k, c, h, same, still) =
      elim (lookup-insert_cases k id (record b { status = cancelled }) w.store.bookings h) [
        | inl (_, f) ↦ ground arith
        | inr (other, h') ↦ other (v.bookings.exclusive k id c b h' found still act same)
      ]

  -- In a well-formed store, with UUIDs that are never empty and never come twice, when a user
  -- has cancelled an active booking of a slot whose start is not before the time read next, the
  -- next call of CreateBooking for that slot returns an active booking of it, for whichever user
  -- it names.
  pub create_booking-cancel :
      (id user_id : String) (with_link : Bool) (w : World) (b : Booking) (s : Slot)
      → IsValid env w
      → lookup id w.store.bookings ≡ some b
      → b.status ≡ active
      → lookup b.slot_id w.store.slots ≡ some s
      → env.now w.ticks ≤ s.start
      → (c : Booking) × ((create_booking env b.slot_id user_id with_link
            (cancel_booking id b.user_id w).1).0
          ≡ ok c)
        × (c.user_id ≡ user_id)
        × (c.slot_id ≡ b.slot_id)
        × (c.status ≡ active)
  create_booking-cancel id user_id with_link w b s v found act there ahead =
      rw (cancel_mine id b w found)
        (elim (create_booking-outcome env b.slot_id user_id with_link w' v'.bookings.nodup) [
          | inl (gone, _) ↦ absurd (cc (gone, there))
          | inr (inl (t, at, past, _, _)) ↦ absurd (late t at past)
          | inr (inr (inl (t, at, _, taken, _, _))) ↦
              absurd (after_cancel-free id b w v found act taken)
          | inr (inr (inr (t, at, _, _, c, done, made))) ↦
              (c, done, made.user, made.slot, made.status)
        ])
    where
      w' : World
      w' = after_cancel id b w

      v' : IsValid env w'
      v' = rw (cancel_mine id b w found) at (cancel_booking-IsValid env src id b.user_id w v)

      late : (t : Slot) → lookup b.slot_id w.store.slots ≡ some t → t.start < env.now w.ticks → ⊥
      late t at past =
          let same : s.start ≡ t.start = ground (arith, there, at) in absurd (omega arith)

  -- After a call of CreateBooking on a well-formed store that has returned a booking, with UUIDs
  -- that are never empty and never come twice, the next call for that slot returns no booking,
  -- whoever asks.
  pub create_booking-again :
      (slot_id user_id other_id : String) (with_link other_link : Bool) (w : World) (b c : Booking)
      → IsValid env w
      → (create_booking env slot_id user_id with_link w).0 ≡ ok b
      → (create_booking env slot_id other_id other_link
          (create_booking env slot_id user_id with_link w).1).0
        ≢ ok c
  create_booking-again slot_id user_id other_id with_link other_link w b c v first second =
      elim (create_booking-outcome env slot_id user_id with_link w v.bookings.nodup) [
        | inl (_, e) ↦ cc
        | inr (inl (_, _, _, e, _)) ↦ cc
        | inr (inr (inl (_, _, _, _, e, _))) ↦ cc
        | inr (inr (inr (_, _, _, _, d, _, made))) ↦ occupied d made
      ]
    where
      w' : World
      w' = (create_booking env slot_id user_id with_link w).1

      v' : IsValid env w'
      v' = create_booking-IsValid env src slot_id user_id with_link w v

      occupied : (d : Booking) → IsCreated env slot_id user_id with_link w d w' → ⊥
      occupied d made =
          let o : Occupied slot_id w'.store.bookings = (
            d.id,
            d,
            rw made.stored (lookup-insert_self d.id d w.store.bookings),
            made.slot,
            made.status,
          ) in
          elim (create_booking-outcome env slot_id other_id other_link w' v'.bookings.nodup) [
            | inl (_, e) ↦ cc (ap (λ (r : Result Booking × World). r.0) e)
            | inr (inl (_, _, _, e, _)) ↦ cc
            | inr (inr (inl (_, _, _, _, e, _))) ↦ cc
            | inr (inr (inr (_, _, _, free, _, _, _))) ↦ free o
          ]
