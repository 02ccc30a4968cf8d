-- ===== src/Memory/Upsert.antt =====
-- What UpsertSlots has stored when it ends.
use avito_test.Prelude.{
  ◌≤◌, ◌≡◌, ◌≢◌, refl, ◌∙◌, inl, inr, some, List, [], ◌∷◌, String, Dict, lookup, lookup-insert_self,
  lookup-insert_cases, NodupKeys, arith, ◌⊎◌, Memᴰ, All, string_discrete, Bool-cases, eqb, ◌&&◌,
  ◌==◌,
}
use avito_test.Types.{Slot}
use avito_test.Memory.{Env, World, existing_id, upsert_slot, upsert_slots}
use avito_test.Memory.Tables.{IsUuidSource, SlotTable}
use avito_test.Memory.Slots.{
  Matches, Table, existing_id-empty, upsert_slot_absent, upsert_slot_present, upsert_slot-SlotTable,
  upsert_slots-SlotTable, upsert_slot_keeps,
}

-- A slot of the room with the times of `s` is in the table.
abbrev pub Stored : String → Slot → Dict Slot → Type 0
Stored room_id s m = (k : String) × (t : Slot) × (lookup k m ≡ some t) × Matches room_id s t

Stored-of_existing_id :
    (room_id : String) (s : Slot) (m : Dict Slot)
    → NodupKeys m
    → existing_id room_id s m ≢ ""
    → Stored room_id s m
unfolding existing_id lookup
Stored-of_existing_id room_id s [] u e = absurd (e refl)
Stored-of_existing_id room_id s ((id, cur) ∷ m) u e =
    elim (Bool-cases (cur.room_id == room_id && eqb cur.start s.start && eqb cur.end s.end)) [
      | inl same ↦ (id, cur, ground arith, ground arith)
      | inr other ↦
          let (k, t, h, p) = Stored-of_existing_id room_id s m u.1 (ground arith) in
          (k, t, ground (arith, u.0), p)
    ]

module _ (env : Env) (u : IsUuidSource env) where
  upsert_slot-Stored :
      (room_id : String) (s : Slot) (w : World)
      → Table env u w
      → Stored room_id s (upsert_slot env room_id s w).store.slots
  upsert_slot-Stored room_id s w v =
      elim (string_discrete (existing_id room_id s w.store.slots) "") [
        | yes e ↦
            rw (upsert_slot_absent env u room_id s w e)
              (env.new_string w.drawn, _, lookup-insert_self _ _ w.store.slots, (refl, refl, refl))
        | no e ↦
            rw (upsert_slot_present env u room_id s w e)
              (Stored-of_existing_id room_id s w.store.slots v.nodup e)
      ]

  -- Entries that were stored before stay, and the other parts of the store are left alone.
  pub upsert_slots_keeps :
      (room_id : String) (slots : List Slot) (w : World) (k : String) (t : Slot)
      → Table env u w
      → lookup k w.store.slots ≡ some t
      → lookup k (upsert_slots env room_id slots w).store.slots ≡ some t
  unfolding upsert_slots
  upsert_slots_keeps room_id [] w k t v h = h
  upsert_slots_keeps room_id (s ∷ slots) w k t v h =
      upsert_slots_keeps room_id slots (upsert_slot env room_id s w) k t
        (upsert_slot-SlotTable env u room_id s w v) (upsert_slot_keeps env u room_id s w k t v h)

  -- After a call of UpsertSlots on a store whose table of slots is well formed, with UUIDs that
  -- are never empty and never come twice, every slot of the list has an entry with its start and
  -- end, for the room of the call.
  pub upsert_slots-Stored :
      (room_id : String) (slots : List Slot) (w : World)
      → Table env u w
      → All (λ s. Stored room_id s (upsert_slots env room_id slots w).store.slots) slots
  unfolding upsert_slots
  upsert_slots-Stored room_id [] w v = tt
  upsert_slots-Stored room_id (s ∷ slots) w v =
      let v' = upsert_slot-SlotTable env u room_id s w v in
      let (k, t, h, p) = upsert_slot-Stored room_id s w v in
      (
        (k, t, upsert_slots_keeps room_id slots (upsert_slot env room_id s w) k t v' h, p),
        upsert_slots-Stored room_id slots (upsert_slot env room_id s w) v',
      )

  upsert_slots-Stored_again :
      (room_id : String) (slots : List Slot) (w : World)
      → Table env u w
      → All (λ s. Stored room_id s w.store.slots) slots
      → upsert_slots env room_id slots w ≡ w
  unfolding upsert_slots
  upsert_slots-Stored_again room_id [] w v _ = refl
  upsert_slots-Stored_again room_id (s ∷ slots) w v ((k, t, h, p), rest) =
      let there =
        upsert_slot_present env u room_id s w
          (λ e. existing_id-empty room_id s w.store.slots v.named e k t h p) in
      rw there (upsert_slots-Stored_again room_id slots w v rest)

  -- A second call of UpsertSlots with the same room and slots changes nothing: no slot is stored
  -- twice and no UUID is drawn. This holds of any store whose table of slots is well formed,
  -- with UUIDs that are never empty and never come twice.
  pub upsert_slots_idem :
      (room_id : String) (slots : List Slot) (w : World)
      → SlotTable env w.drawn w.store.slots
      → upsert_slots env room_id slots (upsert_slots env room_id slots w)
        ≡ upsert_slots env room_id slots w
  upsert_slots_idem room_id slots w v =
      upsert_slots-Stored_again room_id slots (upsert_slots env room_id slots w)
        (upsert_slots-SlotTable env u room_id slots w v) (upsert_slots-Stored room_id slots w v)

  -- Where a slot comes from that is in the table after a call.
  abbrev pub ComesFrom : String → List Slot → Dict Slot → String → Slot → Type 0
  ComesFrom room_id slots old k t =
      (lookup k old ≡ some t) ⊎ ((s : Slot) × Memᴰ s slots × Matches room_id s t)

  upsert_slot-ComesFrom :
      (room_id : String) (s : Slot) (w : World) (k : String) (t : Slot)
      → lookup k (upsert_slot env room_id s w).store.slots ≡ some t
      → (lookup k w.store.slots ≡ some t) ⊎ Matches room_id s t
  upsert_slot-ComesFrom room_id s w k t h =
      elim (string_discrete (existing_id room_id s w.store.slots) "") [
        | no e ↦ inl (rw (upsert_slot_present env u room_id s w e) at h)
        | yes e ↦ added (
            lookup-insert_cases k _ _ w.store.slots
              (rw (upsert_slot_absent env u room_id s w e) at h))
      ]
    where
      added :
          ((k ≡ env.new_string w.drawn)
              × (record s { id = env.new_string w.drawn; room_id = room_id } ≡ t))
            ⊎ ((k ≢ env.new_string w.drawn) × (lookup k w.store.slots ≡ some t))
          → (lookup k w.store.slots ≡ some t) ⊎ Matches room_id s t
      added (inl (_, e)) = inr (ground arith)
      added (inr (_, e)) = inl e

  -- An entry after a call stood there before, or is for the room with the times of a slot of the list.
  pub upsert_slots-ComesFrom :
      (room_id : String) (slots : List Slot) (w : World) (k : String) (t : Slot)
      → lookup k (upsert_slots env room_id slots w).store.slots ≡ some t
      → ComesFrom room_id slots w.store.slots k t
  unfolding upsert_slots
  upsert_slots-ComesFrom room_id [] w k t h = inl h
  upsert_slots-ComesFrom room_id (s ∷ slots) w k t h =
      elim (upsert_slots-ComesFrom room_id slots (upsert_slot env room_id s w) k t h) [
        | inr (x, m, p) ↦ inr (x, Memᴰ.tail m, p)
        | inl old ↦ elim (upsert_slot-ComesFrom room_id s w k t old) [
          | inl older ↦ inl older
          | inr p ↦ inr (s, Memᴰ.head refl, p)
        ]
      ]

-- UpsertSlots leaves rooms, schedules and bookings alone, and draws UUIDs only.
pub record IsFrame (w w' : World) : Type 0 where
  pub rooms : w'.store.rooms ≡ w.store.rooms
  pub schedules : w'.store.schedules ≡ w.store.schedules
  pub bookings : w'.store.bookings ≡ w.store.bookings
  pub drawn : w.drawn ≤ w'.drawn
  pub ticks : w'.ticks ≡ w.ticks

upsert_slot-IsFrame :
    (env : Env) (room_id : String) (s : Slot) (w : World) → IsFrame w (upsert_slot env room_id s w)
unfolding upsert_slot
upsert_slot-IsFrame env room_id s w = ground arith

pub upsert_slots-IsFrame :
    (env : Env) (room_id : String) (slots : List Slot) (w : World)
    → IsFrame w (upsert_slots env room_id slots w)
unfolding upsert_slots
upsert_slots-IsFrame env room_id [] w = record {
  rooms = refl;
  schedules = refl;
  bookings = refl;
  drawn = omega arith;
  ticks = refl;
}
upsert_slots-IsFrame env room_id (s ∷ slots) w =
    let f = upsert_slot-IsFrame env room_id s w in
    let g = upsert_slots-IsFrame env room_id slots (upsert_slot env room_id s w) in
    record {
      rooms = g.rooms ∙ f.rooms;
      schedules = g.schedules ∙ f.schedules;
      bookings = g.bookings ∙ f.bookings;
      drawn = omega (arith, f.drawn, g.drawn);
      ticks = g.ticks ∙ f.ticks;
    }
