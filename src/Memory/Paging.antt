-- ===== src/Memory/Paging.antt =====
-- ListAllBookings: the order of the bookings, and the pages of the list.
use avito_test.Prelude.{
  ℕ, suc, ◌+◌, ◌-◌, ◌*◌, ◌^◌, min, ◌≤◌, ◌<◌, ◌≡◌, ◌∙◌, ap, some, List, [], pos, negsuc, ◌+ℤ◌, ◌-ℤ◌,
  ◌*ℤ◌, wrap64-pos, wrap64-negative, length, take, drop, take_past, drop_all, length-drop, take_nil,
  arith,
}
use native.Mathlib.Decide.{dec_le}
use avito_test.Types.{Booking, ok, panic}
use avito_test.Memory.{slice, page_offset, page_end, page_of}

pred_int : (p : ℕ) → pos (suc p) -ℤ pos 1 ≡ pos p
unfolding ◌-ℤ◌
pred_int p = ground arith

mul_int : (a b : ℕ) → pos a *ℤ pos b ≡ pos (a * b)
unfolding ◌*ℤ◌
mul_int a b = ground arith

add_int : (a b : ℕ) → pos a +ℤ pos b ≡ pos (a + b)
unfolding ◌+ℤ◌
add_int a b = ground arith

le-mul : (p s : ℕ) → 1 ≤ s → p ≤ p * s
le-mul p s h = grind arith

page_offset_exact :
    (p s : ℕ) → p < 2 ^ 63 → p * s < 2 ^ 63 → page_offset (pos (suc p)) (pos s) ≡ pos (p * s)
page_offset_exact p s small h =
    rw (pred_int p, wrap64-pos p small, mul_int p s) (wrap64-pos (p * s) h)

slice-take :
    {A : Type 0} (all : List A) (o e : ℕ)
    → o ≤ e
    → e ≤ length all
    → slice all (pos o) (pos e) ≡ some (take (e - o) (drop o all))
unfolding slice
slice-take all o e h k = ground arith

page_end_exact :
    (o s t : ℕ) → o + s < 2 ^ 63 → page_end (pos o) (pos s) (pos t) ≡ pos (min t (o + s))
page_end_exact o s t h = rw (add_int o s, wrap64-pos (o + s) h) (ground arith)

nothing_left :
    {A : Type 0} (n : ℕ) (all : List A) (o : ℕ) → length all ≤ o → take n (drop o all) ≡ []
nothing_left n all o h = ap (take n) (drop_all o all h) ∙ take_nil n

-- The part that the code takes, written without the end of the list.
rest_or_page :
    {A : Type 0} (all : List A) (o s : ℕ)
    → o ≤ length all
    → take (min (length all) (o + s) - o) (drop o all) ≡ take s (drop o all)
rest_or_page all o s h = elim (dec_le (o + s) (length all)) [
  | yes p ↦ ap (λ n. take n (drop o all)) (omega arith)
  | no p ↦
      take_past (min (length all) (o + s) - o) s (drop o all) (omega (arith, length-drop o all))
        (omega (arith, length-drop o all))
]

-- A page whose numbers stay below 2^63 holds the elements from its offset on, as many as the page
-- size or as are left; the total is the length of the list.
pub page_of_exact :
    (all : List Booking) (p s : ℕ)
    → 1 ≤ s
    → p * s + s < 2 ^ 63
    → page_of all (pos (suc p)) (pos s) ≡ ok (take s (drop (p * s) all), length all)
unfolding page_of
page_of_exact all p s one small = elim (dec_le (length all) (p * s)) [
  | yes past ↦ rw offset (rw (nothing_left s all (p * s) past) (ground arith))
  | no before ↦
      let within : p * s ≤ length all = omega arith in
      let cut = slice-take all (p * s) (min (length all) (p * s + s)) (omega arith) (omega arith) in
      rw offset (
        rw (page_end_exact (p * s) s (length all) small, cut, rest_or_page all (p * s) s within)
          (ground arith))
]
  where
    offset : page_offset (pos (suc p)) (pos s) ≡ pos (p * s)
    offset = page_offset_exact p s (omega (arith, le-mul p s one)) (omega arith)

-- From 2^63 up to 2^64 the offset comes out negative.
page_offset_wraps :
    (p s : ℕ)
    → p < 2 ^ 63
    → 2 ^ 63 ≤ p * s
    → p * s < 2 ^ 64
    → page_offset (pos (suc p)) (pos s) ≡ negsuc (2 ^ 64 - 1 - p * s)
page_offset_wraps p s small h k =
    rw (pred_int p, wrap64-pos p small, mul_int p s) (wrap64-negative (p * s) h k)

-- For a page and a page size that the handler accepts and whose offset lies from 2^63 up to 2^64,
-- the offset becomes negative and the slice expression panics, whatever the list.
pub page_of_overflow :
    (all : List Booking) (p s : ℕ)
    → p < 2 ^ 63
    → s ≤ 100
    → 2 ^ 63 ≤ p * s
    → p * s < 2 ^ 64
    → page_of all (pos (suc p)) (pos s) ≡ panic
unfolding page_of slice
page_of_overflow all p s small _ h k = rw (page_offset_wraps p s small h k) (ground arith)
