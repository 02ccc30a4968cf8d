-- ===== src/Memory/Pages.antt =====
-- ListAllBookings over a whole store: the order of the bookings, and the pages read in turn.
use avito_test.Prelude.{
  ℕ, zero, suc, ◌+◌, ◌*◌, ◌^◌, ◌≤◌, ◌<◌, ◌≡◌, sym, ◌∙◌, ap, inl, inr, none, List, [], ◌++◌, true,
  false, pos, values, length, lookup_of_mem-values, take, drop, take-add, take_all, any, mem_of_any,
  sort_func, sort_func-IsSorted, sort_func-perm, IsSorted, arith, Bool-cases, Memᴰ, Dict, AllApart,
  sort_func-same, mem-reordered,
}
use mathlib.Core.List.{Perm, Permᴰ}
use mathlib.Core.List.Permᴰ
use native.Mathlib.Nat.{zero-mul}
use avito_test.Types.{Booking, Result, ok, err, panic}
use avito_test.Memory.{
  Env, World, created_after, lacks_creation, sort_by_creation, page_of, list_all_bookings,
}
use avito_test.Memory.Tables.{IsValid}
use avito_test.Memory.Paging.{page_of_exact}

-- All bookings of the store, as ListAllBookings orders them.
unfoldable pub newest_first : World → List Booking
newest_first w = sort_func created_after (values w.store.bookings)

created_after-asym : (a b : Booking) → created_after a b ≡ true → created_after b a ≡ false
created_after-asym a b h = ground arith

created_after-skip :
    (x y z : Booking)
    → created_after x y ≡ true
    → created_after z y ≡ false
    → created_after z x ≡ false
created_after-skip x y z h k = ground arith

missing : (b : Booking) → lacks_creation b ≡ true → b.created_at ≡ none
missing b e = ground arith

-- Bookings of a well-formed store are dated, in whatever order they come.
pub dated :
    (env : Env) (w : World) (l : List Booking)
    → IsValid env w
    → ((b : Booking) → Memᴰ b l → Memᴰ b (values w.store.bookings))
    → any lacks_creation l ≡ false
dated env w l v sub = elim (Bool-cases (any lacks_creation l)) [
  | inr e ↦ e
  | inl e ↦
      let (b, m, lacks) = mem_of_any lacks_creation l e in
      let (k, found) = lookup_of_mem-values w.store.bookings v.bookings.nodup (sub b m) in
      absurd (v.bookings.created k b found (missing b lacks))
]

module _ (w : World) (all_dated : any lacks_creation (values w.store.bookings) ≡ false) where
  sorted : sort_by_creation (values w.store.bookings) ≡ ok (newest_first w)
  unfolding sort_by_creation newest_first
  sorted = ground (arith, all_dated)

  pub list_all_sorted :
      (page page_size : ℕ)
      → list_all_bookings (pos page) (pos page_size) w
        ≡ (page_of (newest_first w) (pos page) (pos page_size), w)
  unfolding list_all_bookings
  list_all_sorted page page_size = rw (sorted, list_all_bookings)

  list_all_page :
      (p s : ℕ)
      → 1 ≤ s
      → p * s + s < 2 ^ 63
      → list_all_bookings (pos (suc p)) (pos s) w
        ≡ (ok (take s (drop (p * s) (newest_first w)), length (newest_first w)), w)
  list_all_page p s one small =
      list_all_sorted (suc p) s
      ∙ ap (λ (r : Result (List Booking × ℕ)). (r, w))
          (page_of_exact (newest_first w) p s one small)

module _ (env : Env) (w : World) (v : IsValid env w) where
  -- In a well-formed store and for a page from 1 on whose last index stays below 2^63,
  -- ListAllBookings does not panic, reports no error and changes nothing: it returns the stretch of
  -- all stored bookings, newest first, that the page names, and their number.
  pub list_all_bookings-page :
      (p s : ℕ)
      → 1 ≤ s
      → p * s + s < 2 ^ 63
      → (list_all_bookings (pos (suc p)) (pos s) w
          ≡ (ok (take s (drop (p * s) (newest_first w)), length (newest_first w)), w))
        × Perm (newest_first w) (values w.store.bookings)
        × IsSorted created_after (newest_first w)
  unfolding newest_first
  list_all_bookings-page p s one small = (
    list_all_page w (dated env w (values w.store.bookings) v (λ b m. m)) p s one small,
    sort_func-perm created_after (values w.store.bookings),
    sort_func-IsSorted created_after created_after-asym created_after-skip
        (values w.store.bookings),
  )

-- The store as a `range` over its bookings meets them, in the order `m`.
abbrev pub ranged : Dict Booking → World → World
ranged m w = record w { store = record w.store { bookings = m } }

-- A client that reads the pages 1, 2, …, `n` in turn and joins what they hold; the range of the
-- call for the page `i + 1` meets the bookings in the order `order i`.
abbrev pub join_page : Result (List Booking) → Result (List Booking × ℕ) → Result (List Booking)
join_page (ok bs) (ok (page, total)) = ok (bs ++ page)
join_page (ok bs) (err e) = err e
join_page (ok bs) panic = panic
join_page (err e) _ = err e
join_page panic _ = panic

unfoldable pub read_pages :
    (order : ℕ → Dict Booking) → (n page_size : ℕ) → World → Result (List Booking)
read_pages order zero s w = ok []
read_pages order (suc n) s w =
    join_page (read_pages order n s w)
      (list_all_bookings (pos (suc n)) (pos s) (ranged (order n) w)).0

values-perm : {m k : Dict Booking} → Permᴰ m k → Permᴰ (values m) (values k)
unfolding values
values-perm Permᴰ.nil = Permᴰ.nil
values-perm (Permᴰ.cons e p) = Permᴰ.cons (ap (λ x. x.1) e) (values-perm p)
values-perm (Permᴰ.swap e f) = Permᴰ.swap (ap (λ x. x.1) e) (ap (λ x. x.1) f)
values-perm (Permᴰ.trans p q) = Permᴰ.trans (values-perm p) (values-perm q)

created_after_trans :
    (x y z : Booking)
    → created_after x y ≡ true
    → created_after y z ≡ true
    → created_after x z ≡ true
created_after_trans x y z h k = ground arith

module _ (env : Env) (w : World) (v : IsValid env w) (order : ℕ → Dict Booking)
    (orders : (i : ℕ) → Permᴰ w.store.bookings (order i))
    (apart : AllApart created_after (values w.store.bookings)) where
  newest_first-ranged : (i : ℕ) → newest_first (ranged (order i) w) ≡ newest_first w
  unfolding newest_first
  newest_first-ranged i = sym (
      sort_func-same created_after created_after-asym created_after_trans (values-perm (orders i))
        apart)

  page_in_turn :
      (i s : ℕ)
      → 1 ≤ s
      → i * s + s < 2 ^ 63
      → (list_all_bookings (pos (suc i)) (pos s) (ranged (order i) w)).0
        ≡ ok (take s (drop (i * s) (newest_first w)), length (newest_first w))
  page_in_turn i s one small =
      ap (λ (r : Result (List Booking × ℕ) × World). r.0)
        (list_all_page (ranged (order i) w)
          (dated env w (values (order i)) v
            (λ b m. mem-reordered (Permᴰ.symm (values-perm (orders i))) m))
          i s one small)
      ∙ ap (λ (l : List Booking). ok (take s (drop (i * s) l), length l)) (newest_first-ranged i)

  read_pages-take :
      (n s : ℕ)
      → 1 ≤ s
      → n * s < 2 ^ 63
      → read_pages order n s w ≡ ok (take (n * s) (newest_first w))
  unfolding read_pages
  read_pages-take zero s one small = rw zero-mul
  read_pages-take (suc n) s one small =
      let here = page_in_turn n s one (omega arith) in
      let before = read_pages-take n s one (omega arith) in
      rw (here, before, read_pages)
        (ap ok (
          sym (take-add (n * s) s (newest_first w))
          ∙ ap (λ (k : ℕ). take k (newest_first w)) (omega arith)))

  -- In a well-formed store where of any two bookings one was created after the other, reading
  -- enough pages of one size in turn, with indices below 2^63, yields every stored booking exactly
  -- once, newest first, in whatever order the `range` of each call meets the bookings.
  pub read_pages-all :
      (n s : ℕ)
      → 1 ≤ s
      → n * s < 2 ^ 63
      → length (newest_first w) ≤ n * s
      → (read_pages order n s w ≡ ok (newest_first w))
        × Perm (newest_first w) (values w.store.bookings)
  unfolding newest_first
  read_pages-all n s one small enough = (
    read_pages-take n s one small ∙ ap ok (take_all (n * s) (newest_first w) enough),
    sort_func-perm created_after (values w.store.bookings),
  )
