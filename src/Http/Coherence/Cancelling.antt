-- ===== src/Http/Coherence/Cancelling.antt =====
-- handleCancelBooking and the lists of bookings keep the cached lists true.
use avito_test.Prelude.{
  ◌≡◌, ◌≢◌, sym, ap, ◌∙◌, inl, inr, Option, none, some, List, String, Bool, true, false, not, ◌==◌,
  if◌then◌else◌, Option-cases, pos, string_discrete,
}
use avito_test.Times.{Time}
use avito_test.Types.{Claims, Slot, Booking, cancelled, active, Result, ok, err, panic}
use avito_test.Store.{Store}
use avito_test.Cache.{SlotsCache}
use avito_test.Cache.Contract.{IsSlotsCache}
use avito_test.Contract.{Form, View, IsCancelled, Cancels, IsBookingStore}
use avito_test.Http.{Server, Reply, write_json, Handler, run_cache, booking_body}
use avito_test.Http.Bookings.{
  handle_list_bookings, query_int, is_page, is_page_size, handle_my_bookings, try_store, try_result,
  room_id_or_empty, with_room, cancel_in, handle_cancel_booking,
}
use avito_test.Http.Coherence.{
  Calmer, Calmer-same, Says, Anything, Says-Anything, Good, Keeps, Calls, quiet, after-Good,
  with_store-Keeps, invalidate-Good,
}
use avito_test.Http.Coherence.Booking.{
  get_slot-Calls, get_booking-Calls, put_booking-other, put_booking-same,
}

IsCancelled-Calmer :
    (booking_id user_id : String) (v v' : View) (b : Booking)
    → IsCancelled booking_id user_id v v' b
    → Calmer v v'
IsCancelled-Calmer booking_id user_id v v' b (at, mine, put) = record {
  slots = λ k s here. ap (λ w. w.slots k) put ∙ here;
  reserved = λ id (k, c, here, of_it, is). elim (string_discrete k booking_id) [
    | yes same ↦
        let e =
          sym (put_booking-same k booking_id (record b { status = cancelled }) v same)
          ∙ sym (ap (λ w. w.bookings k) put)
          ∙ here in
        absurd (not_active c e is)
    | no differs ↦ (
      k,
      c,
      sym (put_booking-other k booking_id (record b { status = cancelled }) v differs)
          ∙ sym (ap (λ w. w.bookings k) put)
          ∙ here,
      of_it,
      is,
    )
  ];
}
  where
    not_active : (c : Booking) → some (record b { status = cancelled }) ≡ some c → c.status ≢ active
    not_active c e is = cc

Cancels-Calmer :
    (booking_id user_id : String) (v v' : View) (r : Result Booking)
    → Cancels booking_id user_id v v' r
    → Calmer v v'
Cancels-Calmer booking_id user_id v v' (ok c) (b, _, h) =
    IsCancelled-Calmer booking_id user_id v v' b h
Cancels-Calmer booking_id user_id v v' (err e) (inl (_, _, same)) = Calmer-same v v' same
Cancels-Calmer booking_id user_id v v' (err e) (inr (inl (_, _, _, _, same))) =
    Calmer-same v v' same
Cancels-Calmer booking_id user_id v v' (err e) (inr (inr (_, inl same))) = Calmer-same v v' same
Cancels-Calmer booking_id user_id v v' (err e) (inr (inr (_, inr (b, h)))) =
    IsCancelled-Calmer booking_id user_id v v' b h
Cancels-Calmer booking_id user_id v v' panic h = elim h [ ]

module _ (S : Store) (C : SlotsCache) {form : Form} {Inv : S.State → Type 0} {view : S.State → View}
    (spec : IsBookingStore form S Inv view)
    {Holds : C.State → (room_id date : String) → List Slot → Type 0}
    (cache : IsSlotsCache C Holds) where
  try_store-Keeps :
      {A : Type 0} (call : S.State → Result A × S.State) (k : Option A → Handler S C)
      → Calls S C spec cache Anything call
      → ((o : Option A) → Keeps S C spec cache (k o))
      → Keeps S C spec cache (try_store S C call k)
  try_store-Keeps {A} call k made keeps =
      after-Good S C spec cache call (λ r. try_result S C r k) Anything
        (λ end. Good S C spec cache end.1) made answered
    where
      answered :
          (r : Result A) (srv : Server S C)
          → Says (λ a. Anything a (view srv.store)) r
          → Good S C spec cache srv
          → Good S C spec cache (try_result S C r k srv).1
      answered (ok a) srv _ good = keeps (some a) srv good
      answered (err _) srv _ good = keeps none srv good
      answered panic srv _ good = good

  forget :
      {A : Type 0} (Post : A → View → Type 0) (call : S.State → Result A × S.State)
      → Calls S C spec cache Post call
      → Calls S C spec cache Anything call
  forget Post call made st inv =
      let (inv', calm, _) = made st inv in
      (inv', calm, Says-Anything (view (call st).1) (call st).0)

  with_room-Keeps :
      (found : Option Booking) (k : String → Handler S C)
      → ((room_id : String) → Keeps S C spec cache (k room_id))
      → Keeps S C spec cache (with_room S C found k)
  with_room-Keeps none k keeps = keeps ""
  with_room-Keeps (some b) k keeps =
      try_store-Keeps (S.get_slot b.slot_id) _
        (forget (λ s v. v.slots (form.id b.slot_id) ≡ some s) _
          (get_slot-Calls S C spec cache b.slot_id))
        (λ s. keeps (room_id_or_empty s))

  cancel_in-Keeps :
      (claims : Claims) (booking_id room_id : String)
      → Keeps S C spec cache (cancel_in S C claims booking_id room_id)
  cancel_in-Keeps claims booking_id room_id =
      with_store-Keeps S C spec cache (S.cancel_booking booking_id claims.user_id) _ _ Anything
        (λ st inv.
          let (inv', answered) = spec.cancel_booking booking_id claims.user_id st inv in
          (
            inv',
            Cancels-Calmer (form.id booking_id) claims.user_id _ _ _ answered,
            Says-Anything (view (S.cancel_booking booking_id claims.user_id st).1) _,
          ))
        (λ b srv _. answered (not (room_id == "")) (write_json 200 (booking_body b)) srv)
    where
      answered :
          (t : Bool) (r : Reply) (srv : Server S C)
          → Good S C spec cache srv
          → let end : Reply × Server S C =
              if t then (r, run_cache S C (C.invalidate_room room_id) srv) else (r, srv) in
            Good S C spec cache end.1
      answered true r srv good = invalidate-Good S C spec cache room_id srv good
      answered false r srv good = good

  pub handle_cancel_booking-Keeps :
      (claims : Claims) (booking_id : String)
      → Keeps S C spec cache (handle_cancel_booking S C claims booking_id)
  unfolding handle_cancel_booking
  handle_cancel_booking-Keeps claims booking_id =
      try_store-Keeps (S.get_booking_by_id booking_id) _
        (get_booking-Calls S C spec cache booking_id)
        (λ found. with_room-Keeps found _ (λ room_id. cancel_in-Keeps claims booking_id room_id))

  pub handle_list_bookings-Keeps :
      (page_raw size_raw : String)
      → Keeps S C spec cache (handle_list_bookings S C page_raw size_raw)
  unfolding handle_list_bookings
  handle_list_bookings-Keeps page_raw size_raw srv good =
      elim (Option-cases (query_int (pos 1) is_page page_raw)) [
        | inl bad ↦ rw (bad, handle_list_bookings) good
        | inr (page, e) ↦ elim (Option-cases (query_int (pos 20) is_page_size size_raw)) [
          | inl bad ↦ rw (e, bad, handle_list_bookings) good
          | inr (page_size, d) ↦
              rw (e, d, handle_list_bookings)
                (with_store-Keeps S C spec cache (S.list_all_bookings page page_size) _ _ Anything
                  (quiet S C spec cache (S.list_all_bookings page page_size)
                    (spec.list_all_bookings page page_size))
                  (λ part srv _ good. good) srv good)
        ]
      ]

  pub handle_my_bookings-Keeps :
      (claims : Claims) (now : Time) → Keeps S C spec cache (handle_my_bookings S C claims now)
  unfolding handle_my_bookings
  handle_my_bookings-Keeps claims now =
      let call = S.list_my_future_bookings claims.user_id now in
      with_store-Keeps S C spec cache call _ _ Anything
        (quiet S C spec cache call (spec.list_my_future_bookings claims.user_id now))
        (λ bookings srv _ good. good)
