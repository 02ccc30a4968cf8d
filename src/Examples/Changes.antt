-- ===== src/Examples/Changes.antt =====
-- The statements of the database of the examples that change its tables, over well-formed stores.
use mathlib.Core.Path.{fun_ext}
use avito_test.Prelude.{
  ◌≡◌, ◌⊎◌, refl, sym, ap, ◌∙◌, inl, inr, Option, none, some, List, [], ◌∷◌, String, lookup, Memᴰ,
  true, ◌==◌, if◌then◌else◌, string_discrete, not-same, ==_iff,
}
use avito_test.Times.{Time}
use avito_test.Types.{Slot, Booking, slot_already_booked, Result, ok, err, panic, cancelled}
use avito_test.Memory.{World, cancel_booking, upsert_slots}
use avito_test.Memory.Tables.{IsValid}
use avito_test.Memory.Invariant.{upsert_slots-IsValid, cancel_booking-IsValid}
use avito_test.Memory.Cancel.{cancel_booking-outcome}
use avito_test.Contract.{exact, View, Books, IsBookingStore}
use avito_test.Contract.InMemory.{memory_view, insert-put_booking, memory_store-IsBookingStore}
use avito_test.Contract.InPostgres.Rows.{update_booking-put}
use avito_test.Store.{memory_store}
use avito_test.Postgres.Driver.{
  Fetched, found, no_rows, failed, pg_err_contains, has_prefix, contains,
}
use avito_test.Postgres.Laws.{Selects, IsInserted, InsertsBooking, cancel_active, update_booking}
use avito_test.Examples.Fixture.{env, env-IsUuidSource}

-- A well-formed store.
abbrev pub Valid : Type 0
Valid = (w : World) × IsValid env w

pub memory : IsBookingStore exact (memory_store env) (IsValid env) memory_view
memory = memory_store-IsBookingStore env env-IsUuidSource

abbrev pub view_of : Valid → View
view_of s = memory_view s.0

abbrev pub row_of : {A : Type 0} → Option A → Fetched A
row_of none = no_rows
row_of (some a) = found a

pub row_of-Selects : {A : Type 0} (o : Option A) → Selects o (row_of o)
row_of-Selects none = refl
row_of-Selects (some a) = refl

abbrev pub insert_answer : Result Booking → Fetched Booking
insert_answer (ok b) = found b
insert_answer (err slot_already_booked) =
    failed "duplicate key value violates unique constraint idx_bookings_active_per_slot"
insert_answer (err _) = failed "refused"
insert_answer panic = failed "refused"

never :
    {A : Type 0}
    → (pg_err_contains "refused" "idx_bookings_active_per_slot" ≡ true)
      ⊎ (pg_err_contains "refused" "duplicate key value" ≡ true)
    → A
unfolding pg_err_contains has_prefix contains
never (inl e) = cc
never (inr e) = cc

pub insert_answer-InsertsBooking :
    (slot_id user_id : String) (v v' : View) (r : Result Booking)
    → Books slot_id user_id v v' r
    → InsertsBooking slot_id user_id v v' (insert_answer r)
insert_answer-InsertsBooking slot_id user_id v v' (ok b) new = record {
  references = new.exists;
  unique = new.free;
  fresh = new.fresh;
  slot_column = new.slot_id;
  user_column = new.user_id;
  status_column = new.status;
  stored = new.gained;
}
insert_answer-InsertsBooking slot_id user_id v v' (err e) (why, _) = elim why [
  | inl (is, _) ↦ rw is never
  | inr (inl (is, _)) ↦ rw is never
  | inr (inr (inl (is, taken))) ↦ rw is (λ _. taken)
  | inr (inr (inr (m, is))) ↦ rw is never
]
insert_answer-InsertsBooking slot_id user_id v v' panic h = elim h [ ]

abbrev one_slot : String → (start end : Time) → List Slot
one_slot room_id start end = record { id = ""; room_id = room_id; start = start; end = end } ∷ []

abbrev pub insert_slot_in : String → (start end : Time) → Valid → Valid
insert_slot_in room_id start end (w, v) = (
  upsert_slots env room_id (one_slot room_id start end) w,
  upsert_slots-IsValid env env-IsUuidSource room_id (one_slot room_id start end) w v,
)

pub insert_slot_in-IsInserted :
    (room_id : String) (start end : Time) (s : Valid)
    → IsInserted room_id start end (view_of s) (view_of (insert_slot_in room_id start end s))
insert_slot_in-IsInserted room_id start end (w, v) =
    let (_, (grown, ((k, t, at, times), _))) =
      memory.upsert_slots room_id (one_slot room_id start end) w v in
    record {
      bookings = grown.bookings;
      kept = grown.kept;
      added = λ j u here. elim (grown.origin j u here) [
        | inl old ↦ inl old
        | inr (x, Memᴰ.head same, times) ↦ inr (
          times.0,
          times.1 ∙ ap (λ (y : Slot). y.start) same,
          times.2 ∙ ap (λ (y : Slot). y.end) same,
        )
        | inr (x, Memᴰ.tail m, times) ↦ elim m [ ]
      ];
      stands = (k, t, at, times.0, times.1, times.2);
    }

abbrev pub cancel_in : String → Option Booking → Valid → Valid
cancel_in id none s = s
cancel_in id (some b) (w, v) = (
  (cancel_booking id b.user_id w).1,
  cancel_booking-IsValid env env-IsUuidSource id b.user_id w v,
)

update_booking-none : (id : String) (v : View) → v.bookings id ≡ none → update_booking id v ≡ v
update_booking-none id v gone =
    let entries = fun_ext (λ k. entry k) in λ i. record v { bookings = entries i }
  where
    entry :
        (k : String)
        → (if k == id then cancel_active (v.bookings k) else v.bookings k) ≡ v.bookings k
    entry k = elim (string_discrete k id) [
      | yes same ↦
          let e : v.bookings k ≡ none = ap v.bookings same ∙ gone in
          rw ((==_iff k id).1 same, e) refl
      | no differs ↦ rw (not-same k id differs)
    ]

pub cancel_in-Updates :
    (id : String) (o : Option Booking) (s : Valid)
    → lookup id s.0.store.bookings ≡ o
    → view_of (cancel_in id o s) ≡ update_booking id (view_of s)
cancel_in-Updates id none s gone = sym (update_booking-none id (view_of s) gone)
cancel_in-Updates id (some b) (w, v) at = elim (cancel_booking-outcome id b.user_id w) [
  | inl (gone, _) ↦ cc (at, gone)
  | inr (inl (c, here, other_user, _)) ↦ absurd (other_user (owner c (sym here ∙ at)))
  | inr (inr (c, here, mine, e)) ↦ rw e (
      insert-put_booking id (record c { status = cancelled }) w.store
      ∙ sym (update_booking-put id c (memory_view w) here))
]
  where
    owner : (c : Booking) → some c ≡ some b → c.user_id ≡ b.user_id
    owner c e = cc
