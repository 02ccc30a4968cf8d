-- ===== src/Contract/InPostgres/Reserving.antt =====
-- The transaction of CreateBooking.
use avito_test.Prelude.{
  suc, ◌≡◌, ◌≢◌, ◌⊎◌, refl, sym, ◌∙◌, inl, inr, Option, none, some, String, subst, Bool, true,
  false, Bool-cases, ltb,
}
use avito_test.Times.{Time}
use avito_test.Types.{Slot, Booking, other}
use avito_test.Memory.{Env}
use avito_test.Contract.{Form, View, Reserved, Books, Refusal}
use avito_test.Postgres.Driver.{
  Database, Session, Fetched, found, no_rows, failed, Scanned, row, unreadable, no_rows_text,
  pg_err_contains, has_prefix, contains,
}
use avito_test.Postgres.Laws.{Selects, start_of, InsertsBooking, Begins, Commits, IsPostgres}
use avito_test.Postgres.Commands.{
  insert_failure, if_committed, commit_inserted, insert_linked, link_for, book_start, book_in,
  create_booking,
}

module _ (env : Env) {form : Form} (db : Database) {view : db.State → View}
    {begun seen : db.Tx → View} (laws : IsPostgres form db view begun seen) where
  insert_failure-Refusal :
      (slot_id m : String) (v : View)
      → ((pg_err_contains m "idx_bookings_active_per_slot" ≡ true)
            ⊎ (pg_err_contains m "duplicate key value" ≡ true)
          → Reserved v slot_id)
      → Refusal slot_id v (insert_failure m)
  insert_failure-Refusal slot_id m v taken =
      elim (Bool-cases (pg_err_contains m "idx_bookings_active_per_slot")) [
        | inl e ↦ rw e (inr (inr (inl (refl, taken (inl e)))))
        | inr e ↦ elim (Bool-cases (pg_err_contains m "duplicate key value")) [
          | inl d ↦ rw (e, d) (inr (inr (inl (refl, taken (inr d)))))
          | inr d ↦ rw (e, d) (inr (inr (inr (m, refl))))
        ]
      ]

  no_rows-failure : insert_failure no_rows_text ≡ other no_rows_text
  unfolding pg_err_contains has_prefix contains
  no_rows-failure = refl

  -- After the INSERT: a booking stands as soon as the transaction is committed.
  commit_inserted-Books :
      (slot_id user_id : String) (v : View) (f : Fetched Booking) (tx : db.Tx) (st : Session db)
      → view st.state ≡ v
      → begun tx ≡ view st.state
      → InsertsBooking (form.id slot_id) (form.id user_id) v (seen tx) f
      → let r = commit_inserted env db (f, tx) st in
        Books (form.id slot_id) (form.id user_id) v (view r.1.state) r.0
  commit_inserted-Books slot_id user_id v (found b) tx st same still new =
      answer (db.commit tx st.state).0 (laws.commit tx st.state still)
        (laws.rollback tx (db.commit tx st.state).1)
    where
      answer :
          {w v' : View} (failure : Option String)
          → Commits (seen tx) (view st.state) w failure
          → v' ≡ w
          → Books (form.id slot_id) (form.id user_id) v v' (if_committed b failure)
      answer none done kept = record {
        exists = new.references;
        free = new.unique;
        fresh = new.fresh;
        slot_id = new.slot_column;
        user_id = new.user_column;
        status = new.status_column;
        gained = kept ∙ done ∙ new.stored;
      }
      answer (some m) (dropped, other_text) kept =
          rw other_text (inr (inr (inr (m, refl))), kept ∙ dropped ∙ same)
  commit_inserted-Books slot_id user_id v no_rows tx st same still _ =
      rw no_rows-failure (inr (inr (inr (no_rows_text, refl))), laws.rollback tx st.state ∙ same)
  commit_inserted-Books slot_id user_id v (failed m) tx st same still taken =
      (insert_failure-Refusal (form.id slot_id) m v taken, laws.rollback tx st.state ∙ same)

  insert_linked-Books :
      (slot_id user_id : String) (v : View) (tx : db.Tx) (link : Option String) (st : Session db)
      → view st.state ≡ v
      → begun tx ≡ v
      → seen tx ≡ v
      → let r = insert_linked env db slot_id user_id tx (link, st) in
        Books (form.id slot_id) (form.id user_id) v (view r.1.state) r.0
  insert_linked-Books slot_id user_id v tx link st same still sees =
      let (new, kept) = laws.insert_booking slot_id user_id link tx in
      commit_inserted-Books slot_id user_id v (db.insert_booking slot_id user_id link tx).0
        (db.insert_booking slot_id user_id link tx).1 st same (kept ∙ still ∙ sym same)
        (subst
          (λ w.
            InsertsBooking (form.id slot_id) (form.id user_id) w
              (seen (db.insert_booking slot_id user_id link tx).1)
              (db.insert_booking slot_id user_id link tx).0)
          sees new)

  start_of-some : (o : Option Slot) (start : Time) → start_of o ≡ some start → o ≢ none
  start_of-some none start h gone = cc
  start_of-some (some s) start h gone = cc

  start_of-none : (o : Option Slot) → start_of o ≡ none → o ≡ none
  start_of-none none h = refl
  start_of-none (some s) h = cc

  -- With the answer about the slot: `tx` is the transaction after it.
  book_start-Books :
      (slot_id user_id : String) (with_link : Bool) (v : View) (f : Fetched Time) (tx : db.Tx)
      (st : Session db)
      → Selects (start_of (v.slots (form.id slot_id))) f
      → view st.state ≡ v
      → begun tx ≡ v
      → seen tx ≡ v
      → let r = book_start env db slot_id user_id with_link (f, tx) st in
        Books (form.id slot_id) (form.id user_id) v (view r.1.state) r.0
  book_start-Books slot_id user_id with_link v (found start) tx st at same still sees =
      elim (Bool-cases (ltb start (env.now st.ticks))) [
        | inl past ↦ rw past (
          inr (inl (refl, start_of-some (v.slots (form.id slot_id)) start at)),
          laws.rollback tx st.state ∙ same,
        )
        | inr ahead ↦ rw ahead (booked with_link)
      ]
    where
      booked :
          (with_link : Bool)
          → let r =
              insert_linked env db slot_id user_id tx
                (link_for env db with_link (record st { ticks = suc st.ticks })) in
            Books (form.id slot_id) (form.id user_id) v (view r.1.state) r.0
      booked true = insert_linked-Books slot_id user_id v tx _ _ same still sees
      booked false = insert_linked-Books slot_id user_id v tx _ _ same still sees
  book_start-Books slot_id user_id with_link v no_rows tx st gone same still sees =
      (inl (refl, start_of-none (v.slots (form.id slot_id)) gone), laws.rollback tx st.state ∙ same)
  book_start-Books slot_id user_id with_link v (failed m) tx st _ same still sees =
      (inr (inr (inr (m, refl))), laws.rollback tx st.state ∙ same)

  book_in-Books :
      (slot_id user_id : String) (with_link : Bool) (v : View) (begin : Scanned db.Tx)
      (st : Session db)
      → Begins begun seen v begin
      → view st.state ≡ v
      → let r = book_in env db slot_id user_id with_link begin st in
        Books (form.id slot_id) (form.id user_id) v (view r.1.state) r.0
  book_in-Books slot_id user_id with_link v (row tx) st (still, sees) same =
      let (read, began, saw) = laws.select_start slot_id tx in
      book_start-Books slot_id user_id with_link v (db.select_start slot_id tx).0
        (db.select_start slot_id tx).1 st
        (subst (λ w. Selects (start_of (w.slots (form.id slot_id))) (db.select_start slot_id tx).0)
          sees read)
        same (began ∙ still) (saw ∙ sees)
  book_in-Books slot_id user_id with_link v (unreadable m) st _ same =
      (inr (inr (inr (m, refl))), same)

  pub create_booking-Books :
      (slot_id user_id : String) (with_link : Bool) (st : Session db)
      → let r = create_booking env db slot_id user_id with_link st in
        Books (form.id slot_id) (form.id user_id) (view st.state) (view r.1.state) r.0
  unfolding create_booking
  create_booking-Books slot_id user_id with_link st =
      let (still, same) = laws.begin_tx st.state in
      book_in-Books slot_id user_id with_link (view st.state) (db.begin_tx st.state).0
        (record st { state = (db.begin_tx st.state).1 }) still same
