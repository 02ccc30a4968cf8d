-- ===== src/Memory/Slots.antt =====
-- UpsertSlots: what it stores, and that it keeps the table of slots.
use avito_test.Prelude.{
  ℕ, suc, ◌≡◌, ◌≢◌, sym, inl, inr, none, some, List, [], ◌∷◌, String, Dict, lookup, insert,
  lookup-insert_ne, lookup-insert_cases, insert-NodupKeys, arith, string_discrete, ◌⊎◌, ap, ◌∙◌,
}
use avito_test.Types.{Slot}
use avito_test.Memory.{Env, World, existing_id, upsert_slot, upsert_slots}
use avito_test.Memory.Tables.{IsUuidSource, SameSlot, SlotTable}

-- The slot `s` as a slot of the room.
abbrev pub Matches : String → Slot → Slot → Type 0
Matches room_id s t = (t.room_id ≡ room_id) × (t.start ≡ s.start) × (t.end ≡ s.end)

pub existing_id-empty :
    (room_id : String) (s : Slot) (m : Dict Slot)
    → lookup "" m ≡ none
    → existing_id room_id s m ≡ ""
    → (k : String) (t : Slot) → lookup k m ≡ some t
    → ¬ Matches room_id s t
unfolding existing_id lookup
existing_id-empty room_id s [] n e k t h p = cc
existing_id-empty room_id s ((id, cur) ∷ m) n e k t h p = ground (
  arith,
  existing_id-empty room_id s m,
  λ (a : lookup "" m ≡ none) (b : existing_id room_id s m ≡ "") (c : lookup k m ≡ some t).
      existing_id-empty room_id s m a b k t c p,
)

pub existing_id-found :
    (room_id : String) (s : Slot) (m : Dict Slot) (k : String) (t : Slot)
    → lookup "" m ≡ none
    → lookup k m ≡ some t
    → Matches room_id s t
    → existing_id room_id s m ≢ ""
existing_id-found room_id s m k t n h p e = existing_id-empty room_id s m n e k t h p

module _ (env : Env) (u : IsUuidSource env) where
  -- The entry that upsert_slot adds.
  abbrev new_slot : String → Slot → World → Slot
  new_slot room_id s w = record s { id = env.new_string w.drawn; room_id = room_id }

  pub insert-SlotTable :
      (room_id : String) (s : Slot) (n : ℕ) (m : Dict Slot)
      → existing_id room_id s m ≡ ""
      → SlotTable env n m
      → SlotTable env
          (suc n)
          (insert (env.new_string n) (record s { id = env.new_string n; room_id = room_id }) m)
  insert-SlotTable room_id s n m absent v = record {
    keys = λ k t h. elim (lookup-insert_cases k (env.new_string n) _ m h) [
      | inl (e, f) ↦ ap (λ (x : Slot). x.id) (sym f) ∙ sym e
      | inr (_, h') ↦ v.keys k t h'
    ];
    nodup = insert-NodupKeys (env.new_string n) _ m v.nodup;
    fresh = λ i h.
        lookup-insert_ne (env.new_string i) (env.new_string n) _ m
          (λ e. absurd (omega (arith, u.injective i n e)))
        ∙ v.fresh i (omega arith);
    named = lookup-insert_ne "" (env.new_string n) _ m (λ e. u.nonempty n (sym e)) ∙ v.named;
    unique = λ k j a b ha hb same.
        unique k j a b same (lookup-insert_cases k (env.new_string n) _ m ha)
          (lookup-insert_cases j (env.new_string n) _ m hb);
  }
    where
      added : Slot
      added = record s { id = env.new_string n; room_id = room_id }

      alone : (j : String) (b : Slot) → SameSlot added b → lookup j m ≡ some b → ⊥
      alone j b (p, q, r) h =
          existing_id-empty room_id s m v.named absent j b h (sym p, sym q, sym r)

      unique :
          (k j : String) (a b : Slot)
          → SameSlot a b
          → ((k ≡ env.new_string n) × (added ≡ a))
            ⊎ ((k ≢ env.new_string n) × (lookup k m ≡ some a))
          → ((j ≡ env.new_string n) × (added ≡ b))
            ⊎ ((j ≢ env.new_string n) × (lookup j m ≡ some b))
          → k ≡ j
      unique k j a b same (inl (e, _)) (inl (f, _)) = e ∙ sym f
      unique k j a b same (inl (_, e)) (inr (_, h)) = absurd (alone j b (ground arith) h)
      unique k j a b (p, q, r) (inr (_, h)) (inl (_, e)) = absurd (alone k a (ground arith) h)
      unique k j a b same (inr (_, h)) (inr (_, h')) = v.unique k j a b h h' same

  -- The world after upsert_slot has added the slot.
  abbrev with_slot : String → Slot → World → World
  with_slot room_id s w = record w {
    drawn = suc w.drawn;
    store = record w.store {
      slots = insert (env.new_string w.drawn) (new_slot room_id s w) w.store.slots;
    };
  }

  pub upsert_slot_absent :
      (room_id : String) (s : Slot) (w : World)
      → existing_id room_id s w.store.slots ≡ ""
      → upsert_slot env room_id s w ≡ with_slot room_id s w
  unfolding upsert_slot
  upsert_slot_absent room_id s w e = ground arith

  pub upsert_slot_present :
      (room_id : String) (s : Slot) (w : World)
      → existing_id room_id s w.store.slots ≢ ""
      → upsert_slot env room_id s w ≡ w
  unfolding upsert_slot
  upsert_slot_present room_id s w e = ground arith

  abbrev pub Table : World → Type 0
  Table w = SlotTable env w.drawn w.store.slots

  pub upsert_slot-SlotTable :
      (room_id : String) (s : Slot) (w : World) → Table w → Table (upsert_slot env room_id s w)
  upsert_slot-SlotTable room_id s w v =
      elim (string_discrete (existing_id room_id s w.store.slots) "") [
        | yes e ↦
            rw (upsert_slot_absent room_id s w e)
              (insert-SlotTable room_id s w.drawn w.store.slots e v)
        | no e ↦ rw (upsert_slot_present room_id s w e) v
      ]

  pub upsert_slots-SlotTable :
      (room_id : String) (slots : List Slot) (w : World)
      → Table w
      → Table (upsert_slots env room_id slots w)
  unfolding upsert_slots
  upsert_slots-SlotTable room_id [] w v = v
  upsert_slots-SlotTable room_id (s ∷ slots) w v =
      upsert_slots-SlotTable room_id slots (upsert_slot env room_id s w)
        (upsert_slot-SlotTable room_id s w v)

  -- A slot that is stored stays as it is.
  pub upsert_slot_keeps :
      (room_id : String) (s : Slot) (w : World) (k : String) (t : Slot)
      → Table w
      → lookup k w.store.slots ≡ some t
      → lookup k (upsert_slot env room_id s w).store.slots ≡ some t
  upsert_slot_keeps room_id s w k t v h =
      elim (string_discrete (existing_id room_id s w.store.slots) "") [
        | no e ↦ rw (upsert_slot_present room_id s w e) h
        | yes e ↦
            rw (upsert_slot_absent room_id s w e)
              (lookup-insert_ne k (env.new_string w.drawn) _ w.store.slots (other) ∙ h)
      ]
    where
      other : k ≢ env.new_string w.drawn
      other q = cc (v.fresh w.drawn (omega arith), q)
