-- ===== src/Contract/InPostgres/Upserting.antt =====
-- The loop of UpsertSlots over its INSERTs.
use avito_test.Prelude.{
  ◌≡◌, ◌⊎◌, refl, sym, ap, ◌∙◌, inl, inr, Option, none, some, List, [], ◌∷◌, String, Memᴰ,
}
use avito_test.Types.{Slot, other, Result, ok, err, panic}
use avito_test.Contract.{Form, View, Extends, HasTimes, Upserts}
use avito_test.Postgres.Driver.{Database, Session}
use avito_test.Postgres.Laws.{IsInserted, InsertsSlot, IsPostgres}
use avito_test.Postgres.Commands.{upsert_slots}

Extends-same :
    (form : Form) (room_id : String) (slots : List Slot) (v v' : View)
    → v' ≡ v
    → Extends form room_id slots v v'
Extends-same form room_id slots v v' same = record {
  bookings = ap (λ w. w.bookings) same;
  kept = λ k t at. ap (λ w. w.slots k) same ∙ at;
  origin = λ k t at. inl (sym (ap (λ w. w.slots k) same) ∙ at);
}

Extends-next :
    (form : Form) (room_id : String) (s : Slot) (slots : List Slot) (v w v' : View)
    → IsInserted (form.id room_id) (form.time s.start) (form.time s.end) v w
    → Extends form room_id slots w v'
    → Extends form room_id (s ∷ slots) v v'
Extends-next form room_id s slots v w v' first more = record {
  bookings = more.bookings ∙ first.bookings;
  kept = λ k t at. more.kept k t (first.kept k t at);
  origin = λ k t at. earlier k t (more.origin k t at);
}
  where
    earlier :
        (k : String) (t : Slot)
        → (w.slots k ≡ some t) ⊎ ((u : Slot) × Memᴰ u slots × HasTimes form room_id u t)
        → (v.slots k ≡ some t) ⊎ ((u : Slot) × Memᴰ u (s ∷ slots) × HasTimes form room_id u t)
    earlier k t (inr (u, m, times)) = inr (u, Memᴰ.tail m, times)
    earlier k t (inl at) = elim (first.added k t at) [
      | inl old ↦ inl old
      | inr (room, from, until) ↦ inr (s, Memᴰ.head refl, (room, from, until))
    ]

-- The INSERT of one slot, then the rest of the loop.
Upserts-next :
    (form : Form) (room_id : String) (s : Slot) (slots : List Slot) (v w v' : View)
    (r : Result (Unit {0}))
    → IsInserted (form.id room_id) (form.time s.start) (form.time s.end) v w
    → Upserts form room_id slots w v' r
    → Upserts form room_id (s ∷ slots) v v' r
Upserts-next form room_id s slots v w v' (ok _) first (more, stand) =
    let (k, t, at, room, from, until) = first.stands in
    (
      Extends-next form room_id s slots v w v' first more,
      ((k, t, more.kept k t at, (room, from, until)), stand),
    )
Upserts-next form room_id s slots v w v' (err e) first (failure, more) =
    (failure, Extends-next form room_id s slots v w v' first more)
Upserts-next form room_id s slots v w v' panic first x = elim x [ ]

module _ {form : Form} (db : Database) {view : db.State → View} {begun seen : db.Tx → View}
    (laws : IsPostgres form db view begun seen) where
  after_insert :
      (room_id : String) (s : Slot) (slots : List Slot) (v : View) (failure : Option String)
      (st : Session db) (rest : Result (Unit {0}) × Session db)
      → InsertsSlot
          (form.id room_id)
          (form.time s.start)
          (form.time s.end)
          v
          (view st.state)
          failure
      → Upserts form room_id slots (view st.state) (view rest.1.state) rest.0
      → let r : Result (Unit {0}) × Session db = elim failure [
        | some m ↦ (err (other m), st)
        | none ↦ rest
      ] in
        Upserts form room_id (s ∷ slots) v (view r.1.state) r.0
  after_insert room_id s slots v none st rest first more =
      Upserts-next form room_id s slots v (view st.state) (view rest.1.state) rest.0 first more
  after_insert room_id s slots v (some m) st rest same more =
      ((m, refl), Extends-same form room_id (s ∷ slots) v (view st.state) same)

  pub upsert_slots-Upserts :
      (room_id : String) (slots : List Slot) (st : Session db)
      → let r = upsert_slots db room_id slots st in
        Upserts form room_id slots (view st.state) (view r.1.state) r.0
  unfolding upsert_slots
  upsert_slots-Upserts room_id [] st =
      (Extends-same form room_id [] (view st.state) (view st.state) refl, tt)
  upsert_slots-Upserts room_id (s ∷ slots) st =
      let st' : Session db = record st {
        state = (db.insert_slot room_id s.start s.end st.state).1;
      } in
      after_insert room_id s slots (view st.state) (db.insert_slot room_id s.start s.end st.state).0
        st' (upsert_slots db room_id slots st') (laws.insert_slot room_id s.start s.end st.state)
        (upsert_slots-Upserts room_id slots st')
