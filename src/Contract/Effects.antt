-- ===== src/Contract/Effects.antt =====
-- What the calls of a Store may do to slots and bookings, and to whose bookings.
use avito_test.Prelude.{
  ◌≡◌, ◌≢◌, ◌⊎◌, sym, ap, ◌∙◌, inl, inr, Option, none, some, List, String, string_discrete, ==_iff,
  not-same, Option-cases, subst,
}
use avito_test.Types.{Slot, Booking, cancelled, Result, ok, err, panic}
use avito_test.Contract.{Form, View, put_booking, Books, IsCancelled, Cancels, Extends, Upserts}

-- The booking stands in the view, or is there as a cancelled one and its user is in `May`.
abbrev pub Remains : (String → Type 0) → View → String → Booking → Type 0
Remains May v k b =
    (v.bookings k ≡ some b)
    ⊎ (May b.user_id × (v.bookings k ≡ some (record b { status = cancelled })))

-- Slots stay, bookings stay or are cancelled, and new bookings appear, both for users in `May` only.
pub record Evolves (May : String → Type 0) (v v' : View) : Type 0 where
  pub slots : (k : String) (s : Slot) → v.slots k ≡ some s → v'.slots k ≡ some s
  pub remains : (k : String) (b : Booking) → v.bookings k ≡ some b → Remains May v' k b
  pub made :
      (k : String) (b : Booking) → v'.bookings k ≡ some b → (v.bookings k ≢ none) ⊎ May b.user_id

abbrev or_else : Booking → Option Booking → Booking
or_else b none = b
or_else b (some c) = c

module _ (May : String → Type 0) where
  pub Evolves-same : (v v' : View) → v' ≡ v → Evolves May v v'
  Evolves-same v v' same = record {
    slots = λ k s at. ap (λ w. w.slots k) same ∙ at;
    remains = λ k b at. inl (ap (λ w. w.bookings k) same ∙ at);
    made = λ k b at. inl (λ gone. cc (at, ap (λ w. w.bookings k) same, gone));
  }

  Remains-owner :
      (v : View) (k : String) (b c : Booking)
      → Remains May v k b
      → v.bookings k ≡ some c
      → c.user_id ≡ b.user_id
  Remains-owner v k b c (inl at) here = cc
  Remains-owner v k b c (inr (_, at)) here = cc

  Remains-next :
      (v w : View) (k : String) (b : Booking)
      → Remains May v k b
      → Evolves May v w
      → Remains May w k b
  Remains-next v w k b (inl at) next = next.remains k b at
  Remains-next v w k b (inr (may, at)) next = elim (next.remains k _ at) [
    | inl still ↦ inr (may, still)
    | inr (_, again) ↦ inr (may, again)
  ]

  pub Evolves-trans : (u v w : View) → Evolves May u v → Evolves May v w → Evolves May u w
  Evolves-trans u v w first next = record {
    slots = λ k s at. next.slots k s (first.slots k s at);
    remains = λ k b at. Remains-next v w k b (first.remains k b at) next;
    made = λ k b at. elim (next.made k b at) [ inr may ↦ inr may | inl old ↦ earlier k b at old ];
  }
    where
      earlier :
          (k : String) (b : Booking)
          → w.bookings k ≡ some b
          → v.bookings k ≢ none
          → (u.bookings k ≢ none) ⊎ May b.user_id
      earlier k b at old = elim (Option-cases (v.bookings k)) [
        | inl gone ↦ absurd (old gone)
        | inr (c, there) ↦ elim (first.made k c there) [
          | inl older ↦ inl older
          | inr may ↦ inr (subst May (sym (Remains-owner w k c b (next.remains k c there) at)) may)
        ]
      ]

  pub Upserts-Evolves :
      (form : Form) (room_id : String) (slots : List Slot) (v v' : View) (r : Result (Unit {0}))
      → Upserts form room_id slots v v' r
      → Evolves May v v'
  Upserts-Evolves form room_id slots v v' r h = extended (extends r h)
    where
      extends :
          (r : Result (Unit {0}))
          → Upserts form room_id slots v v' r
          → Extends form room_id slots v v'
      extends (ok _) (h, _) = h
      extends (err e) (_, h) = h
      extends panic h = elim h [ ]

      extended : Extends form room_id slots v v' → Evolves May v v'
      extended h = record {
        slots = h.kept;
        remains = λ k b at. inl (ap (λ m. m k) h.bookings ∙ at);
        made = λ k b at. inl (λ gone. cc (at, ap (λ m. m k) h.bookings, gone));
      }

  put_booking-Evolves :
      (k : String) (b : Booking) (v : View)
      → May b.user_id
      → ((c : Booking) → v.bookings k ≡ some c → b ≡ record c { status = cancelled })
      → Evolves May v (put_booking k b v)
  put_booking-Evolves k b v may over = record {
    slots = λ j s at. at;
    remains = λ j c at. elim (string_discrete j k) [
      | yes same ↦
          let e : b ≡ record c { status = cancelled } = over c (ap v.bookings (sym same) ∙ at) in
          rw ((==_iff j k).1 same)
            (inr (subst May (ap (λ (d : Booking). d.user_id) e) may, ap some e))
      | no differs ↦ rw (not-same j k differs) (inl at)
    ];
    made = λ j c at. elim (string_discrete j k) [
      | yes same ↦
          let e : some b ≡ some c = rw ((==_iff j k).1 same) at at in inr (subst May (mine c e) may)
      | no differs ↦
          let e : v.bookings j ≡ some c = rw (not-same j k differs) at at in
          inl (λ gone. cc (e, gone))
    ];
  }
    where
      mine : (c : Booking) → some b ≡ some c → b.user_id ≡ c.user_id
      mine c e = cc

  pub Books-Evolves :
      (slot_id user_id : String) (v v' : View) (r : Result Booking)
      → May user_id
      → Books slot_id user_id v v' r
      → Evolves May v v'
  Books-Evolves slot_id user_id v v' (ok b) may new =
      subst (Evolves May v) (sym new.gained) (
        put_booking-Evolves b.id b v (subst May (sym new.user_id) may) (λ c at. cc (new.fresh, at)))
  Books-Evolves slot_id user_id v v' (err e) may (_, same) = Evolves-same v v' same
  Books-Evolves slot_id user_id v v' panic may h = elim h [ ]

  IsCancelled-Evolves :
      (booking_id user_id : String) (v v' : View) (b : Booking)
      → May user_id
      → IsCancelled booking_id user_id v v' b
      → Evolves May v v'
  IsCancelled-Evolves booking_id user_id v v' b may (at, mine, put) =
      subst (Evolves May v) (sym put) (
        put_booking-Evolves booking_id (record b { status = cancelled }) v
          (subst May (sym mine) may) (λ c here. same c (sym at ∙ here)))
    where
      same :
          (c : Booking)
          → some b ≡ some c
          → record b { status = cancelled } ≡ record c { status = cancelled }
      same c e = ap (λ o. record (or_else b o) { status = cancelled }) e

  pub Cancels-Evolves :
      (booking_id user_id : String) (v v' : View) (r : Result Booking)
      → May user_id
      → Cancels booking_id user_id v v' r
      → Evolves May v v'
  Cancels-Evolves booking_id user_id v v' (ok c) may (b, _, h) =
      IsCancelled-Evolves booking_id user_id v v' b may h
  Cancels-Evolves booking_id user_id v v' (err e) may (inl (_, _, same)) = Evolves-same v v' same
  Cancels-Evolves booking_id user_id v v' (err e) may (inr (inl (_, _, _, _, same))) =
      Evolves-same v v' same
  Cancels-Evolves booking_id user_id v v' (err e) may (inr (inr (_, inl same))) =
      Evolves-same v v' same
  Cancels-Evolves booking_id user_id v v' (err e) may (inr (inr (_, inr (b, h)))) =
      IsCancelled-Evolves booking_id user_id v v' b may h
  Cancels-Evolves booking_id user_id v v' panic may h = elim h [ ]
