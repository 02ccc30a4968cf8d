-- ===== src/Seed/Rows.antt =====
-- The rows of the seed command, against the slots that the service generates.
use avito_test.Prelude.{
  ℕ, zero, suc, ◌+◌, ◌-◌, ◌*◌, ◌≤◌, ◌<◌, ◌≡◌, refl, sym, subst, ◌%◌, pos, List, [], ◌∷◌, ◌++◌,
  String, arith, map, Memᴰ,
}
use avito_test.Times.{Time, date, day_number, weekday, add_date}
use avito_test.Types.{Slot, slot_duration}
use avito_test.Slots.{cut, window_slots, iso_weekday}
use avito_test.Slots.Generation.{IsListed}
use avito_test.Seed.{
  schedule_c, SeedRoom, Row, row_at, room_a, room_b, room_c, hour_rows, room_rows, rooms_rows,
  day_rows, days_rows, seed_rows,
}

-- What a slot and a row have in common.
abbrev pub row_of : Slot → Row
row_of s = record { room_id = s.room_id; start = s.start; end = s.end }

cut-hour_rows :
    (n fuel : ℕ) (id : String) (day h cur end : ℕ)
    → cur ≡ date day h 0
    → end ≡ date day (h + n) 0
    → n * 2 < fuel
    → map row_of (cut fuel id cur end) ≡ hour_rows id day n h
unfolding cut hour_rows
cut-hour_rows n zero id day h cur end c e f = elim f [ ]
cut-hour_rows zero (suc fuel) id day h cur end c e f = ground arith
cut-hour_rows (suc n) (suc zero) id day h cur end c e f = absurd (omega arith)
cut-hour_rows (suc n) (suc (suc fuel)) id day h cur end c e f =
    let rest =
      cut-hour_rows n fuel id day (suc h) (cur + slot_duration + slot_duration) end (omega arith)
        (omega arith) (omega arith) in
    ground (arith, rest)

-- For a room that does not close before it opens, the rows of one day are, in order, the slots that
-- the service cuts the hours of the room on that day into, but for their ids.
pub room_rows-window_slots :
    (r : SeedRoom) (day : ℕ)
    → r.start_hour ≤ r.end_hour
    → room_rows day r
      ≡ map row_of (window_slots r.id (date day r.start_hour 0) (date day r.end_hour 0))
room_rows-window_slots r day h = sym (
    cut-hour_rows (r.end_hour - r.start_hour) _ r.id day r.start_hour _ _ refl (omega arith)
      (omega arith))

mem-left : {x : Row} {xs : List Row} (ys : List Row) → Memᴰ x xs → Memᴰ x (xs ++ ys)
mem-left ys (Memᴰ.head e) = Memᴰ.head e
mem-left ys (Memᴰ.tail m) = Memᴰ.tail (mem-left ys m)

mem-right : {x : Row} (xs : List Row) {ys : List Row} → Memᴰ x ys → Memᴰ x (xs ++ ys)
mem-right [] m = m
mem-right (y ∷ xs) m = Memᴰ.tail (mem-right xs m)

mem-days_rows :
    (row : Row) (base : Time) (left d k : ℕ)
    → k < left
    → Memᴰ row (day_rows (add_date base (d + k)))
    → Memᴰ row (days_rows base left d)
unfolding days_rows
mem-days_rows row base zero d k h m = elim h [ ]
mem-days_rows row base (suc left) d zero h m =
    mem-left _ (subst (λ n. Memᴰ row (day_rows (add_date base n))) (omega arith) m)
mem-days_rows row base (suc left) d (suc k) h m = mem-right _ (
    mem-days_rows row base left (suc d) k (omega arith)
      (subst (λ n. Memᴰ row (day_rows (add_date base n))) (omega arith) m))

mem-day_rows :
    (day : Time)
    → weekday day ≡ 2
    → Memᴰ (row_at room_c.id (date (day_number day) 11 0)) (day_rows day)
unfolding rooms_rows hour_rows
mem-day_rows day e = rw e (
    mem-right (rooms_rows (day_number day) (room_a ∷ room_b ∷ []))
      {ys = rooms_rows (day_number day) (room_c ∷ [])} (Memᴰ.head refl))

iso_weekday-tuesday : (n : ℕ) → (n + 6) % 7 ≡ 2 → iso_weekday (date n 11 0) ≡ 2
iso_weekday-tuesday n e = let d : day_number (date n 11 0) ≡ n = omega arith in ground arith

unlisted : (d : ℕ) → d ≡ 2 → ¬ Memᴰ (pos d) schedule_c.days_of_week
unlisted d e (Memᴰ.head f) = ground arith
unlisted d e (Memᴰ.tail (Memᴰ.head f)) = ground arith
unlisted d e (Memᴰ.tail (Memᴰ.tail (Memᴰ.head f))) = ground arith
unlisted d e (Memᴰ.tail (Memᴰ.tail (Memᴰ.tail m))) = elim m [ ]

-- Whatever the day it runs on, seedSlots has a row for the third room on a weekday that the seeded
-- schedule of that room does not list.
pub seed_rows-IsListed :
    (now : Time)
    → (row : Row) × Memᴰ row (seed_rows now)
      × (row.room_id ≡ room_c.id)
      × (¬ IsListed schedule_c row.start)
seed_rows-IsListed now =
    let base = date (day_number now) 0 0 in
    let k = (9 - weekday now) % 7 in
    let tuesday : weekday (add_date base k) ≡ 2 = omega arith in
    let row = row_at room_c.id (date (day_number (add_date base k)) 11 0) in
    (
      row,
      mem-days_rows row base 7 0 k (omega arith) (
          subst (λ d. Memᴰ row (day_rows (add_date base d))) (omega arith)
            (mem-day_rows (add_date base k) tuesday)),
      refl,
      unlisted (iso_weekday row.start) (iso_weekday-tuesday (day_number (add_date base k)) tuesday),
    )
