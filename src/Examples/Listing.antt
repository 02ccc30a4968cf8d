-- ===== src/Examples/Listing.antt =====
-- The query of ListAvailableSlots over the tables of the examples.
use avito_test.Prelude.{
  ◌≡◌, ◌↔◌, refl, ap, ◌∙◌, inl, inr, none, List, [], ◌∷◌, String, lookup, values, Memᴰ, Bool, false,
  ◌==◌, ◌&&◌, not, leb, ltb, keep, mem-keep, mem_of_mem-keep, sort_func, mem-sort_func,
  mem_of_mem-sort_func, sort_func-IsSorted, map, mem-values, lookup_of_mem-values, Bool-cases,
  arith, IsSorted, subst,
}
use avito_test.Times.{Time}
use avito_test.Types.{Slot}
use avito_test.Memory.{World, is_busy, starts_before}
use avito_test.Memory.Tables.{IsValid}
use avito_test.Memory.Bookings.{is_busy_iff}
use avito_test.Memory.Listing.{starts_before-asym, starts_before-skip}
use avito_test.Contract.InMemory.{memory_view}
use avito_test.Postgres.Driver.{row, rows}
use avito_test.Postgres.Laws.{IsSelected, SelectsSlots}
use avito_test.Examples.Fixture.{env}

abbrev is_selected : String → (start end : Time) → World → Slot → Bool
is_selected room_id start end w s =
    (s.room_id == room_id) && leb start s.start && ltb s.start end && not (is_busy s.id w.store)

abbrev pub selected : String → (start end : Time) → World → List Slot
selected room_id start end w =
    sort_func starts_before (keep (is_selected room_id start end w) (values w.store.slots))

module _ (room_id : String) (start end : Time) (w : World) (v : IsValid env w) (s : Slot) where
  selected_sound :
      Memᴰ s (selected room_id start end w) → IsSelected room_id start end (memory_view w) s
  selected_sound mem =
      let (stored, e) =
        mem_of_mem-keep test (values w.store.slots)
          (mem_of_mem-sort_func starts_before (keep test (values w.store.slots)) mem) in
      let (k, found) = lookup_of_mem-values w.store.slots v.slots.nodup stored in
      let idle : is_busy s.id w.store ≡ false = ground arith in
      (
        ap (λ i. lookup i w.store.slots) (v.slots.keys k s found) ∙ found,
        ground arith,
        ground arith,
        ground arith,
        λ o. cc ((is_busy_iff s.id w.store v.bookings.nodup).1 o, idle),
      )
    where
      test : Slot → Bool
      test = is_selected room_id start end w

  selected_complete :
      IsSelected room_id start end (memory_view w) s → Memᴰ s (selected room_id start end w)
  selected_complete (stored, room, from, to, free) =
      mem-sort_func starts_before (keep test (values w.store.slots)) (
        mem-keep test (values w.store.slots) (mem-values s.id w.store.slots stored)
          (elim (Bool-cases (is_busy s.id w.store)) [
            | inl busy ↦ absurd (free ((is_busy_iff s.id w.store v.bookings.nodup).0 busy))
            | inr idle ↦ ground arith
          ]))
    where
      test : Slot → Bool
      test = is_selected room_id start end w

rows-injective : (l k : List Slot) → map row l ≡ map row k → l ≡ k
rows-injective [] [] e = refl
rows-injective [] (s ∷ k) e = cc
rows-injective (s ∷ l) [] e = cc
rows-injective (s ∷ l) (t ∷ k) e =
    let rest : map row l ≡ map row k = cc in
    let same : s ≡ t = cc in rw (same, rows-injective l k rest) refl

pub selected-SelectsSlots :
    (room_id : String) (start end : Time) (w : World)
    → IsValid env w
    → SelectsSlots
        (IsSelected room_id start end (memory_view w))
        (rows (map row (selected room_id start end w)) none)
selected-SelectsSlots room_id start end w v slots e =
    subst
      (λ l.
        ((s : Slot) → Memᴰ s l ↔ IsSelected room_id start end (memory_view w) s)
        × IsSorted starts_before l)
      (rows-injective (selected room_id start end w) slots e)
      (
        λ s. (selected_sound room_id start end w v s, selected_complete room_id start end w v s),
        sort_func-IsSorted starts_before starts_before-asym starts_before-skip
            (keep (is_selected room_id start end w) (values w.store.slots)),
      )
