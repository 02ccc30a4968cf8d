-- ===== src/Contract/InPostgres/Rows.antt =====
-- What the answers of the SELECTs of internal/app/store_postgres.go come to.
use mathlib.Core.Path.{fun_ext}
use avito_test.Prelude.{
  ◌+◌, ◌*◌, ◌%◌, ◌≡◌, ◌⊎◌, ◌↔◌, refl, ap, ◌∙◌, inl, inr, Option, none, some, List, [], ◌∷◌, String,
  arith, ◌==◌, if◌then◌else◌, string_discrete, ==_iff, not-same, map,
}
use avito_test.Times.{Time, day_number, date, hour}
use avito_test.Types.{
  Slot, Booking, cancelled, active, Error, other, Result, ok, err, panic, BookingStatus,
}
use avito_test.Contract.{Form, View, put_booking, Finds, Offers, IsOffered}
use avito_test.Postgres.Driver.{
  Fetched, found, no_rows, failed, Scanned, row, unreadable, Queried, refused, rows, scanned_or,
  appended, scan_rows, all_rows,
}
use avito_test.Postgres.Laws.{Selects, IsSelected, SelectsSlots, cancel_active, update_booking}

pub Selects-Finds :
    {A : Type 0} (o : Option A) (missing : Error) (v v' : View) (f : Fetched A)
    → Selects o f
    → v' ≡ v
    → Finds o missing v v' (scanned_or missing f)
Selects-Finds o missing v v' (found a) h same = (h, same)
Selects-Finds o missing v v' no_rows h same = (inl (refl, h), same)
Selects-Finds o missing v v' (failed m) h same = (inr (m, refl), same)

-- The loop ends without an error only where every row was read.
appended-ok :
    {A : Type 0} (a : A) (r : Result (List A)) (out : List A)
    → appended a r ≡ ok out
    → (more : List A) × (r ≡ ok more) × (out ≡ a ∷ more)
appended-ok a (ok more) out h = (more, refl, cc)
appended-ok a (err e) out h = cc
appended-ok a panic out h = cc

scan_rows-ok :
    {A : Type 0} (answer : List (Scanned A)) (last : Option String) (out : List A)
    → scan_rows answer last ≡ ok out
    → (answer ≡ map row out) × (last ≡ none)
unfolding scan_rows
scan_rows-ok [] none out h = (cc, refl)
scan_rows-ok [] (some m) out h = cc
scan_rows-ok (row a ∷ more) last out h =
    let (out', e, shape) = appended-ok a (scan_rows more last) out h in
    let (all, none_last) = scan_rows-ok more last out' e in (rw (shape, all), none_last)
scan_rows-ok (unreadable m ∷ more) last out h = cc

-- A loop over rows never panics, and its errors are the driver's.
scan_rows-err :
    {A : Type 0} (answer : List (Scanned A)) (last : Option String)
    → ((out : List A) × (scan_rows answer last ≡ ok out))
      ⊎ ((m : String) × (scan_rows answer last ≡ err (other m)))
unfolding scan_rows
scan_rows-err [] none = inl ([], refl)
scan_rows-err [] (some m) = inr (m, refl)
scan_rows-err (row a ∷ more) last = elim (scan_rows-err more last) [
  | inl (out, e) ↦ inl (a ∷ out, ap (appended a) e)
  | inr (m, e) ↦ inr (m, ap (appended a) e)
]
scan_rows-err (unreadable m ∷ more) last = inr (m, refl)

-- The interval of the query is the day: it begins and ends at whole microseconds.
IsSelected-IsOffered :
    (form : Form)
    → ((t : Time) → t % 1000 ≡ 0 → form.time t ≡ t)
    → (room_id : String) (day : Time) (v : View) (s : Slot)
    → let start = date (day_number day) 0 0 in
      IsSelected room_id (form.time start) (form.time (start + 24 * hour)) v s
      ↔ IsOffered room_id day v s
IsSelected-IsOffered form whole room_id day v s =
    rw
      (
        whole (date (day_number day) 0 0) (omega arith),
        whole (date (day_number day) 0 0 + 24 * hour) (omega arith),
      )
      (
        λ (at, room, from, until, free). (at, (room, omega arith, omega arith, free)),
        λ (at, (room, from, until, free)). (at, room, omega arith, omega arith, free),
      )

pub available-Offers :
    (form : Form)
    → ((t : Time) → t % 1000 ≡ 0 → form.time t ≡ t)
    → (room_id : String) (day : Time) (v v' : View) (q : Queried Slot)
    → let start = date (day_number day) 0 0 in
      SelectsSlots (IsSelected room_id (form.time start) (form.time (start + 24 * hour)) v) q
      → v' ≡ v
      → Offers room_id day v v' (all_rows q)
available-Offers form whole room_id day v v' (refused m) h same = ((m, refl), same)
available-Offers form whole room_id day v v' (rows answer (some m)) h same =
    elim (scan_rows-err answer (some m)) [
      | inl (out, e) ↦ cc ((scan_rows-ok answer (some m) out e).1)
      | inr (n, e) ↦ rw e ((n, refl), same)
    ]
available-Offers form whole room_id day v v' (rows answer none) h same =
    elim (scan_rows-err answer none) [
      | inl (out, e) ↦ rw e (
          let (mem, sorted) = h out (scan_rows-ok answer none out e).0 in
          (
            λ s.
                let (to, from) = IsSelected-IsOffered form whole room_id day v s in
                (λ m. to ((mem s).0 m), λ o. (mem s).1 (from o)),
            sorted,
            same,
          ))
      | inr (n, e) ↦ rw e ((n, refl), same)
    ]

-- CancelBooking changes an active booking of the id, and leaves a cancelled one as it is.
pub update_booking-put :
    (id : String) (b : Booking) (v : View)
    → v.bookings id ≡ some b
    → update_booking id v ≡ put_booking id (record b { status = cancelled }) v
update_booking-put id b v at =
    let entries = fun_ext (λ k. entry k) in λ i. record v { bookings = entries i }
  where
    settled :
        (status : BookingStatus)
        → b.status ≡ status
        → cancel_active (some b) ≡ some (record b { status = cancelled })
    settled active e = rw e refl
    settled cancelled e =
        ap (λ is. cancel_active (some (record b { status = is }))) e
        ∙ ap (λ is. some (record b { status = is })) refl

    entry :
        (k : String)
        → (if k == id then cancel_active (v.bookings k) else v.bookings k)
          ≡ (if k == id then some (record b { status = cancelled }) else v.bookings k)
    entry k = elim (string_discrete k id) [
      | yes same ↦
          let e : v.bookings k ≡ some b = ap v.bookings same ∙ at in
          rw ((==_iff k id).1 same, e) (settled b.status refl)
      | no differs ↦ rw (not-same k id differs)
    ]
