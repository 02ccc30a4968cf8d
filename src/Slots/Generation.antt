-- ===== src/Slots/Generation.antt =====
-- What `GenerateSlotsForDate` returns.
use avito_test.Prelude.{
  ℕ, suc, ◌+◌, ◌*◌, ◌≤◌, ◌<◌, ◌≡◌, ◌⊎◌, inl, inr, some, List, [], String, arith, true, ℤ, pos,
  eqb_ℤ, any, any_of_mem, mem_of_any, length, Bool-cases, Option-cases, Memᴰ,
}
use avito_test.Times.{Time, day_number, day_length}
use avito_test.Types.{Schedule, Slot, invalid_request, ok, err, slot_duration}
use avito_test.Slots.{
  parse_hm, validate_schedule, iso_weekday, on_day, window_slots, generate_slots_for_date,
}
use avito_test.Slots.Clock.{parse_hm_iff}
use avito_test.Slots.Tiling.{Tiles, window_slots-Tiles}
use avito_test.Slots.Validation.{IsValid, validate_schedule-error, validate_schedule_iff}

-- The schedule lists the weekday of the day.
abbrev pub IsListed : Schedule → Time → Type 0
IsListed s day = Memᴰ (pos (iso_weekday day)) s.days_of_week

eqb_ℤ-pos : (n : ℕ) (d : ℤ) → eqb_ℤ (pos n) d ≡ true → d ≡ pos n
eqb_ℤ-pos n d h = ground arith

eqb_ℤ_refl : (n : ℕ) → eqb_ℤ (pos n) (pos n) ≡ true
eqb_ℤ_refl n = ground arith

any-IsListed :
    (s : Schedule) (day : Time)
    → IsListed s day
    → any (eqb_ℤ (pos (iso_weekday day))) s.days_of_week ≡ true
any-IsListed s day m = any_of_mem (eqb_ℤ (pos (iso_weekday day))) m (eqb_ℤ_refl (iso_weekday day))

IsListed-of_any :
    (s : Schedule) (day : Time)
    → any (eqb_ℤ (pos (iso_weekday day))) s.days_of_week ≡ true
    → IsListed s day
IsListed-of_any s day h =
    let (d, m, e) = mem_of_any (eqb_ℤ (pos (iso_weekday day))) s.days_of_week h in
    rw (← eqb_ℤ-pos (iso_weekday day) d e) m

-- A clock time lies within its day.
on_day-lt :
    (day : Time) (v : String) (h m : ℕ)
    → parse_hm v ≡ some (h, m)
    → (day_number day * day_length ≤ on_day day (h, m))
      × (on_day day (h, m) < (day_number day + 1) * day_length)
on_day-lt day v h m e = let (p, q, _) = (parse_hm_iff v h m).0 e in (omega arith, omega arith)

module _ (room_id : String) (s : Schedule) (day : Time) where
  generate_listed :
      (v : IsValid s)
      → IsListed s day
      → generate_slots_for_date room_id s day
        ≡ ok (
            window_slots room_id
              (on_day day (v.sh, v.sm))
              (on_day day (v.sh, v.sm) + suc v.half_hours * slot_duration))
  unfolding generate_slots_for_date
  generate_listed v listed =
      let ends : on_day day (v.eh, v.em)
          ≡ on_day day (v.sh, v.sm) + suc v.half_hours * slot_duration =
        omega (arith, v.whole) in
      rw (
        generate_slots_for_date,
        (validate_schedule_iff s).1 v,
        any-IsListed s day listed,
        v.starts,
        v.ends,
        ends,
        generate_slots_for_date,
      )

  pub generate_slots_for_date-Tiles :
      (v : IsValid s)
      → IsListed s day
      → (slots : List Slot) × (generate_slots_for_date room_id s day ≡ ok slots)
        × Tiles room_id slots (on_day day (v.sh, v.sm)) (on_day day (v.eh, v.em))
        × (length slots ≡ suc v.half_hours)
  generate_slots_for_date-Tiles v listed =
      let ends : on_day day (v.eh, v.em)
          ≡ on_day day (v.sh, v.sm) + suc v.half_hours * slot_duration =
        omega (arith, v.whole) in
      let (tiles, count) =
        window_slots-Tiles (suc v.half_hours) room_id (on_day day (v.sh, v.sm)) in
      (
        window_slots room_id (on_day day (v.sh, v.sm))
            (on_day day (v.sh, v.sm) + suc v.half_hours * slot_duration),
        generate_listed v listed,
        rw ends tiles,
        count,
      )

  unlisted : IsValid s → ¬ IsListed s day → generate_slots_for_date room_id s day ≡ ok []
  unfolding generate_slots_for_date
  unlisted v h = elim (Bool-cases (any (eqb_ℤ (pos (iso_weekday day))) s.days_of_week)) [
    | inl e ↦ absurd (h (IsListed-of_any s day e))
    | inr e ↦ rw ((validate_schedule_iff s).1 v, e, generate_slots_for_date)
  ]

  abbrev pub Refused : Type 0
  Refused = (¬ IsValid s) × (generate_slots_for_date room_id s day ≡ err invalid_request)

  abbrev pub Unlisted : Type 0
  Unlisted = IsValid s × (¬ IsListed s day) × (generate_slots_for_date room_id s day ≡ ok [])

  abbrev pub Listed : Type 0
  Listed =
      (v : IsValid s) × IsListed s day
      × (slots : List Slot) × (generate_slots_for_date room_id s day ≡ ok slots)
      × Tiles room_id slots (on_day day (v.sh, v.sm)) (on_day day (v.eh, v.em))
      × (length slots ≡ suc v.half_hours)

  -- GenerateSlotsForDate ends in one of three ways: the schedule is not valid, and it answers
  -- ErrInvalidRequest; the schedule is valid and does not list the weekday of the day, and it
  -- returns no slots and no error; or the schedule is valid and lists it, and the slots returned
  -- stand end to end, each half an hour long and for the given room, from the start time on that
  -- day to the end time on that day, as many as half hours between the two.
  pub generate_slots_for_date-outcome : Refused ⊎ (Unlisted ⊎ Listed)
  unfolding generate_slots_for_date
  generate_slots_for_date-outcome = elim (Option-cases (validate_schedule s)) [
    | inr (e, found) ↦
        let refused = validate_schedule-error s found in
        inl
          (λ v. cc ((validate_schedule_iff s).1 v, refused), rw (refused, generate_slots_for_date))
    | inl e ↦
        let v = (validate_schedule_iff s).0 e in
        inr (elim (Bool-cases (any (eqb_ℤ (pos (iso_weekday day))) s.days_of_week)) [
          | inl h ↦
              let listed = IsListed-of_any s day h in
              let (slots, done, tiles, count) = generate_slots_for_date-Tiles v listed in
              inr (v, listed, slots, done, tiles, count)
          | inr h ↦
              let away : ¬ IsListed s day = λ l. cc (any-IsListed s day l) in
              inl (v, away, unlisted v away)
        ])
  ]
