-- ===== src/Memory/Future.antt =====
-- ListMyFutureBookings: it never panics in a well-formed store, and which bookings it returns.
use avito_test.Prelude.{
  ◌≤◌, ◌<◌, ◌≡◌, ◌≢◌, ◌↔◌, refl, sym, ◌∙◌, ap, inl, inr, none, some, Option, List, [], ◌∷◌, String,
  Dict, lookup, values, mem-values, lookup_of_mem-values, Memᴰ, arith, Option-cases,
  string_discrete, ==_iff, not-same, lt→ltb, not-ltb, subst,
}
use native.Mathlib.Decide.{dec_lt}
use avito_test.Times.{Time}
use avito_test.Types.{Slot, Booking, ok}
use avito_test.Memory.{Env, World, future_bookings, list_my_future_bookings, prepend}
use avito_test.Memory.Tables.{IsValid}

module _ (user_id : String) (now : Time) (slots : Dict Slot) where
  -- The user's booking of a slot that has not begun.
  abbrev pub IsFuture : Booking → Type 0
  IsFuture b =
      (b.user_id ≡ user_id) × (s : Slot) × (lookup b.slot_id slots ≡ some s) × (now ≤ s.start)

  -- What the loop has collected from the bookings that it has met.
  record Collects (bs out : List Booking) : Type 0 where
    sound : (b : Booking) → Memᴰ b out → Memᴰ b bs × IsFuture b
    complete : (b : Booking) → Memᴰ b bs → IsFuture b → Memᴰ b out

  skip :
      (b : Booking) (bs out : List Booking) → ¬ IsFuture b → Collects bs out → Collects (b ∷ bs) out
  skip b bs out never c = record {
    sound = λ x m. let (n, f) = c.sound x m in (Memᴰ.tail n, f);
    complete = λ x m f. complete x m f;
  }
    where
      complete : (x : Booking) → Memᴰ x (b ∷ bs) → IsFuture x → Memᴰ x out
      complete x (Memᴰ.head e) f = absurd (never (subst IsFuture e f))
      complete x (Memᴰ.tail n) f = c.complete x n f

  take_it :
      (b : Booking) (bs out : List Booking)
      → IsFuture b
      → Collects bs out
      → Collects (b ∷ bs) (b ∷ out)
  take_it b bs out here c = record { sound = sound; complete = complete }
    where
      sound : (x : Booking) → Memᴰ x (b ∷ out) → Memᴰ x (b ∷ bs) × IsFuture x
      sound x (Memᴰ.head e) = (Memᴰ.head e, subst IsFuture (sym e) here)
      sound x (Memᴰ.tail m) = let (n, f) = c.sound x m in (Memᴰ.tail n, f)

      complete : (x : Booking) → Memᴰ x (b ∷ bs) → IsFuture x → Memᴰ x (b ∷ out)
      complete x (Memᴰ.head e) f = Memᴰ.head e
      complete x (Memᴰ.tail n) f = Memᴰ.tail (c.complete x n f)

  begun :
      (o : Option Slot) (s t : Slot) → o ≡ some s → o ≡ some t → s.start < now → now ≤ t.start → ⊥
  begun o s t hs ht past later = let same : s.start ≡ t.start = ground arith in absurd (omega arith)

  future_bookings-Collects :
      (bs : List Booking)
      → ((b : Booking) → Memᴰ b bs → lookup b.slot_id slots ≢ none)
      → (out : List Booking) × (future_bookings user_id now slots bs ≡ ok out) × Collects bs out
  unfolding future_bookings
  future_bookings-Collects [] there =
      ([], refl, record { sound = λ b m. elim m [ ]; complete = λ b m f. elim m [ ] })
  future_bookings-Collects (b ∷ bs) there =
      step (future_bookings-Collects bs (λ x m. there x (Memᴰ.tail m)))
    where
      step :
          (out : List Booking) × (future_bookings user_id now slots bs ≡ ok out) × Collects bs out
          → (out : List Booking) × (future_bookings user_id now slots (b ∷ bs) ≡ ok out)
            × Collects (b ∷ bs) out
      step (out, e, c) = elim (string_discrete b.user_id user_id) [
        | no other ↦ (
          out,
          rw (not-same b.user_id user_id other, future_bookings) e,
          skip b bs out (λ f. other f.0) c,
        )
        | yes mine ↦ elim (Option-cases (lookup b.slot_id slots)) [
          | inl gone ↦ absurd (there b (Memᴰ.head refl) gone)
          | inr (s, found) ↦ elim (dec_lt s.start now) [
            | yes past ↦ (
              out,
              rw
                  (
                    (==_iff b.user_id user_id).1 mine,
                    found,
                    lt→ltb s.start now past,
                    future_bookings,
                  )
                  e,
              skip b bs out
                  (λ (_, t, at, later).
                    absurd (begun (lookup b.slot_id slots) s t found at past later))
                  c,
            )
            | no ahead ↦
                let later : now ≤ s.start = omega arith in
                (
                  b ∷ out,
                  rw
                      (
                        (==_iff b.user_id user_id).1 mine,
                        found,
                        not-ltb s.start now later,
                        future_bookings,
                      )
                      (ap (prepend b) e),
                  take_it b bs out (mine, s, found, later) c,
                )
          ]
        ]
      ]

-- In a well-formed store ListMyFutureBookings does not panic, reports no error and changes nothing;
-- the bookings that it returns are exactly the stored ones of the user whose slot does not begin
-- before the given time, whatever their status.
pub list_my_future_bookings-mem :
    (env : Env) (user_id : String) (now : Time) (w : World) (b : Booking)
    → IsValid env w
    → (bs : List Booking) × (list_my_future_bookings user_id now w ≡ (ok bs, w))
      × (Memᴰ b bs
          ↔ ((lookup b.id w.store.bookings ≡ some b) × IsFuture user_id now w.store.slots b))
unfolding list_my_future_bookings
list_my_future_bookings-mem env user_id now w b v =
    let (bs, e, c) =
      future_bookings-Collects user_id now w.store.slots (values w.store.bookings) there in
    (bs, λ i. (e i, w), (λ m. sound m c, λ p. complete p c))
  where
    there : (x : Booking) → Memᴰ x (values w.store.bookings) → lookup x.slot_id w.store.slots ≢ none
    there x m =
        let (k, found) = lookup_of_mem-values w.store.bookings v.bookings.nodup m in
        v.bookings.booked k x found

    sound :
        {bs : List Booking}
        → Memᴰ b bs
        → Collects user_id now w.store.slots (values w.store.bookings) bs
        → (lookup b.id w.store.bookings ≡ some b) × IsFuture user_id now w.store.slots b
    sound m c =
        let (stored, f) = c.sound b m in
        let (k, found) = lookup_of_mem-values w.store.bookings v.bookings.nodup stored in
        (ap (λ i. lookup i w.store.bookings) (v.bookings.keys k b found) ∙ found, f)

    complete :
        {bs : List Booking}
        → (lookup b.id w.store.bookings ≡ some b) × IsFuture user_id now w.store.slots b
        → Collects user_id now w.store.slots (values w.store.bookings) bs
        → Memᴰ b bs
    complete (stored, f) c = c.complete b (mem-values b.id w.store.bookings stored) f
