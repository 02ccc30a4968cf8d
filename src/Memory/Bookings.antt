-- ===== src/Memory/Bookings.antt =====
-- The table of bookings under CreateBooking and CancelBooking.
use avito_test.Prelude.{
  ℕ, suc, ◌≤◌, ◌≡◌, ◌≢◌, ◌↔◌, refl, sym, ◌∙◌, ap, inl, inr, none, some, String, Dict, lookup,
  insert, values, insert-each, lookup-insert_ne, lookup-insert_cases, insert-NodupKeys, mem-values,
  lookup_of_mem-values, arith, ◌⊎◌, any, any_of_mem, mem_of_any, true, NodupKeys,
}
use avito_test.Types.{Slot, Booking, active, cancelled}
use avito_test.Memory.{Env, MemoryStore, occupies, is_busy}
use avito_test.Memory.Tables.{IsUuidSource, BookingTable}

-- An active booking of the slot is in the table.
abbrev pub Occupied : String → Dict Booking → Type 0
Occupied slot_id m =
    (k : String) × (b : Booking) × (lookup k m ≡ some b)
    × (b.slot_id ≡ slot_id)
    × (b.status ≡ active)

occupies_sound :
    (slot_id : String) (b : Booking)
    → occupies slot_id b ≡ true
    → (b.slot_id ≡ slot_id) × (b.status ≡ active)
occupies_sound slot_id b h = ground arith

-- The loops over the bookings find an active booking of the slot exactly when there is one.
pub is_busy_iff :
    (slot_id : String) (m : MemoryStore)
    → NodupKeys m.bookings
    → (is_busy slot_id m ≡ true) ↔ Occupied slot_id m.bookings
unfolding is_busy
is_busy_iff slot_id m u = (sound, complete)
  where
    sound : any (occupies slot_id) (values m.bookings) ≡ true → Occupied slot_id m.bookings
    sound h =
        let (b, mem, e) = mem_of_any (occupies slot_id) (values m.bookings) h in
        let (k, found) = lookup_of_mem-values m.bookings u mem in
        let (same, act) = occupies_sound slot_id b e in (k, b, found, same, act)

    complete : Occupied slot_id m.bookings → any (occupies slot_id) (values m.bookings) ≡ true
    complete (k, b, found, same, act) =
        any_of_mem (occupies slot_id) (mem-values k m.bookings found) (ground arith)

module _ (env : Env) (src : IsUuidSource env) where
  -- Adding an active booking of a free slot that exists, under the next UUID.
  pub insert-BookingTable :
      (n n' : ℕ) (slots : Dict Slot) (m : Dict Booking) (b : Booking)
      → b.id ≡ env.new_string n
      → suc n ≤ n'
      → lookup b.slot_id slots ≢ none
      → b.created_at ≢ none
      → ¬ Occupied b.slot_id m
      → BookingTable env n slots m
      → BookingTable env n' slots (insert b.id b m)
  insert-BookingTable n n' slots m b named later there made free v = record {
    keys = insert-each (λ k c. c.id ≡ k) b.id b m refl v.keys;
    nodup = insert-NodupKeys b.id b m v.nodup;
    fresh = λ i h.
        lookup-insert_ne (env.new_string i) b.id b m
          (λ e. absurd (omega (arith, src.injective i n (e ∙ named))))
        ∙ v.fresh i (omega arith);
    booked = insert-each (λ _ c. lookup c.slot_id slots ≢ none) b.id b m there v.booked;
    created = insert-each (λ _ c. c.created_at ≢ none) b.id b m made v.created;
    exclusive = λ k j c d hc hd ac ad same.
        exclusive k j c d ac ad same (lookup-insert_cases k b.id b m hc)
          (lookup-insert_cases j b.id b m hd);
  }
    where
      alone :
          (k : String) (c d : Booking)
          → b ≡ d
          → lookup k m ≡ some c
          → c.status ≡ active
          → c.slot_id ≡ d.slot_id
          → ⊥
      alone k c d e h a same = free (k, c, h, same ∙ ap (λ (x : Booking). x.slot_id) (sym e), a)

      exclusive :
          (k j : String) (c d : Booking)
          → c.status ≡ active
          → d.status ≡ active
          → c.slot_id ≡ d.slot_id
          → ((k ≡ b.id) × (b ≡ c)) ⊎ ((k ≢ b.id) × (lookup k m ≡ some c))
          → ((j ≡ b.id) × (b ≡ d)) ⊎ ((j ≢ b.id) × (lookup j m ≡ some d))
          → k ≡ j
      exclusive k j c d ac ad same (inl (e, _)) (inl (f, _)) = e ∙ sym f
      exclusive k j c d ac ad same (inl (_, e)) (inr (_, h)) =
          absurd (alone j d c e h ad (sym same))
      exclusive k j c d ac ad same (inr (_, h)) (inl (_, e)) = absurd (alone k c d e h ac same)
      exclusive k j c d ac ad same (inr (_, h)) (inr (_, h')) = v.exclusive k j c d h h' ac ad same

  -- Cancelling a booking in place.
  pub cancel-BookingTable :
      (n : ℕ) (slots : Dict Slot) (m : Dict Booking) (id : String) (b : Booking)
      → lookup id m ≡ some b
      → BookingTable env n slots m
      → BookingTable env n slots (insert id (record b { status = cancelled }) m)
  cancel-BookingTable n slots m id b found v = record {
    keys = insert-each (λ k c. c.id ≡ k) id _ m (v.keys id b found) v.keys;
    nodup = insert-NodupKeys id _ m v.nodup;
    fresh = λ i h. lookup-insert_ne (env.new_string i) id _ m (other i h) ∙ v.fresh i h;
    booked =
        insert-each (λ _ c. lookup c.slot_id slots ≢ none) id _ m (v.booked id b found) v.booked;
    created = insert-each (λ _ c. c.created_at ≢ none) id _ m (v.created id b found) v.created;
    exclusive = λ k j c d hc hd ac ad same.
        exclusive k j c d ac ad same (lookup-insert_cases k id _ m hc)
          (lookup-insert_cases j id _ m hd);
  }
    where
      other : (i : ℕ) → n ≤ i → env.new_string i ≢ id
      other i h e = cc (found, v.fresh i h, e)

      b' : Booking
      b' = record b { status = cancelled }

      exclusive :
          (k j : String) (c d : Booking)
          → c.status ≡ active
          → d.status ≡ active
          → c.slot_id ≡ d.slot_id
          → ((k ≡ id) × (b' ≡ c)) ⊎ ((k ≢ id) × (lookup k m ≡ some c))
          → ((j ≡ id) × (b' ≡ d)) ⊎ ((j ≢ id) × (lookup j m ≡ some d))
          → k ≡ j
      exclusive k j c d ac ad same (inl (_, e)) _ = ground arith
      exclusive k j c d ac ad same (inr (_, h)) (inl (_, e)) = ground arith
      exclusive k j c d ac ad same (inr (_, h)) (inr (_, h')) = v.exclusive k j c d h h' ac ad same
