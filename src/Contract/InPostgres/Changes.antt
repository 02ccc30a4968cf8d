-- ===== src/Contract/InPostgres/Changes.antt =====
-- The statements of CancelBooking and UpsertSlots one after the other.
use avito_test.Prelude.{
  ◌≡◌, refl, sym, ap, ◌∙◌, inl, inr, Option, none, some, String, subst, string_discrete, ==_iff,
  not-same, ==_refl,
}
use avito_test.Types.{Booking, cancelled}
use avito_test.Contract.{Form, View, put_booking, Cancels}
use avito_test.Contract.InPostgres.Rows.{update_booking-put}
use avito_test.Postgres.Driver.{
  Database, Session, Fetched, found, no_rows, failed, scanned, no_rows_text,
}
use avito_test.Postgres.Laws.{Selects, owner_of, Updates, IsPostgres}
use avito_test.Postgres.Commands.{read_cancelled, cancel_owned, cancel_if_any, cancel_booking}

put_booking-same : (k : String) (b : Booking) (v : View) → (put_booking k b v).bookings k ≡ some b
put_booking-same k b v = rw (==_refl k)

owner_of-some :
    (o : Option Booking) (owner : String)
    → owner_of o ≡ some owner
    → (b : Booking) × (o ≡ some b) × (b.user_id ≡ owner)
owner_of-some none owner h = cc
owner_of-some (some b) owner h = (b, refl, cc)

owner_of-none : (o : Option Booking) → owner_of o ≡ none → o ≡ none
owner_of-none none h = refl
owner_of-none (some b) h = cc

module _ {form : Form} (db : Database) {view : db.State → View} {begun seen : db.Tx → View}
    (laws : IsPostgres form db view begun seen) where
  read_cancelled-Cancels :
      (booking_id user_id : String) (v : View) (b : Booking) (failure : Option String)
      (st : Session db)
      → v.bookings (form.id booking_id) ≡ some b
      → b.user_id ≡ user_id
      → Updates (form.id booking_id) v (view st.state) failure
      → let r = read_cancelled db booking_id failure st in
        Cancels (form.id booking_id) user_id v (view r.1.state) r.0
  read_cancelled-Cancels booking_id user_id v b (some m) st at mine same =
      inr (inr ((m, refl), inl same))
  read_cancelled-Cancels booking_id user_id v b none st at mine updated =
      let (read, same) = laws.select_booking booking_id st.state in
      let put = updated ∙ update_booking-put (form.id booking_id) b v at in
      answer (db.select_booking booking_id st.state).0
        (ap (λ w. w.bookings (form.id booking_id)) put
          ∙ put_booking-same (form.id booking_id) (record b { status = cancelled }) v)
        read (same ∙ put)
    where
      answer :
          {o : Option Booking} {v' : View} (f : Fetched Booking)
          → o ≡ some (record b { status = cancelled })
          → Selects o f
          → v' ≡ put_booking (form.id booking_id) (record b { status = cancelled }) v
          → Cancels (form.id booking_id) user_id v v' (scanned f)
      answer (found c) here read put = (b, cc, (at, mine, put))
      answer no_rows here read put = inr (inr ((no_rows_text, refl), inr (b, (at, mine, put))))
      answer (failed m) here read put = inr (inr ((m, refl), inr (b, (at, mine, put))))

  cancel_owned-Cancels :
      (booking_id user_id owner : String) (v : View) (st : Session db)
      → owner_of (v.bookings (form.id booking_id)) ≡ some owner
      → view st.state ≡ v
      → let r = cancel_owned db booking_id user_id owner st in
        Cancels (form.id booking_id) user_id v (view r.1.state) r.0
  cancel_owned-Cancels booking_id user_id owner v st at same =
      let (b, found_it, owned) = owner_of-some (v.bookings (form.id booking_id)) owner at in
      elim (string_discrete owner user_id) [
        | no differs ↦
            rw (not-same owner user_id differs)
              (inr (inl (refl, b, found_it, (λ e. differs (sym owned ∙ e)), same)))
        | yes mine ↦ rw ((==_iff owner user_id).1 mine) (
            let updated = laws.update_cancelled booking_id st.state in
            read_cancelled-Cancels booking_id user_id v b _ _ found_it (owned ∙ mine) (
              subst
                (λ w.
                  Updates (form.id booking_id) w (view (db.update_cancelled booking_id st.state).1)
                    (db.update_cancelled booking_id st.state).0)
                same updated))
      ]

  cancel_if_any-Cancels :
      (booking_id user_id : String) (v : View) (f : Fetched String) (st : Session db)
      → Selects (owner_of (v.bookings (form.id booking_id))) f
      → view st.state ≡ v
      → let r = cancel_if_any db booking_id user_id f st in
        Cancels (form.id booking_id) user_id v (view r.1.state) r.0
  cancel_if_any-Cancels booking_id user_id v (found owner) st at same =
      cancel_owned-Cancels booking_id user_id owner v st at same
  cancel_if_any-Cancels booking_id user_id v no_rows st gone same =
      inl (refl, owner_of-none (v.bookings (form.id booking_id)) gone, same)
  cancel_if_any-Cancels booking_id user_id v (failed m) st _ same = inr (inr ((m, refl), inl same))

  pub cancel_booking-Cancels :
      (booking_id user_id : String) (st : Session db)
      → let r = cancel_booking db booking_id user_id st in
        Cancels (form.id booking_id) user_id (view st.state) (view r.1.state) r.0
  unfolding cancel_booking
  cancel_booking-Cancels booking_id user_id st =
      let (read, same) = laws.select_owner booking_id st.state in
      cancel_if_any-Cancels booking_id user_id (view st.state)
        (db.select_owner booking_id st.state).0
        (record st { state = (db.select_owner booking_id st.state).1 }) read same
