-- ===== src/Slots.antt =====
-- internal/app/slots.go: reading clock times, checking a schedule, and cutting the working hours of
-- a day into slots.
pub mod Clock
pub mod Tiling
pub mod Validation
pub mod Generation
use avito_test.Prelude.{
  ℕ, zero, suc, ◌+◌, ◌-◌, ◌*◌, ◌/◌, ◌%◌, Bool, true, false, ◌||◌, not, Option, none, some, List, [],
  ◌∷◌, String, ℤ, pos, ltb, leb, eqb, ltb_ℤ, eqb_ℤ, any, ◌==◌, if◌then◌else◌,
}
use avito_test.Times.{Time, day_number, date, weekday}
use avito_test.Times.Clock.{codes, parse_clock}
use avito_test.Types.{Schedule, Slot, slot_duration, Error, invalid_request, Result, ok, err}
use avito_test.Strconv.{unix_nano_text}

-- `none` is a non-nil error.
unfoldable pub parse_hm : String → Option (ℕ × ℕ)
unfolding parse_clock
parse_hm v = parse_clock (codes v)

abbrev pub is_empty {ℓ} : {A : Type ℓ} → List A → Bool
is_empty [] = true
is_empty (_ ∷ _) = false

-- The loop over the days, with the days that it has seen: whether it returns an error.
unfoldable pub rejects_days : (seen days : List ℤ) → Bool
rejects_days seen [] = false
rejects_days seen (d ∷ days) =
    ltb_ℤ d (pos 1) || ltb_ℤ (pos 7) d || any (eqb_ℤ d) seen || rejects_days (d ∷ seen) days

-- The part of ValidateSchedule from `start := sh*60 + sm` on.
unfoldable pub check_window : (start end : ℕ) → Option Error
check_window start end =
    if leb end start || not (eqb ((end - start) % 30) 0) then some invalid_request else none

-- `none` is a nil error.
unfoldable pub validate_schedule : Schedule → Option Error
unfolding rejects_days check_window
validate_schedule s =
    if s.room_id == "" || is_empty s.days_of_week || s.start_time == "" || s.end_time == ""
    then some invalid_request
    else if rejects_days [] s.days_of_week
    then some invalid_request
    else elim (parse_hm s.start_time) [
      | none ↦ some invalid_request
      | some (sh, sm) ↦ elim (parse_hm s.end_time) [
        | none ↦ some invalid_request
        | some (eh, em) ↦ check_window (sh * 60 + sm) (eh * 60 + em)
      ]
    ]

-- `h, m, _ := ParseHM(v)`
abbrev pub hm_or_zero : Option (ℕ × ℕ) → ℕ × ℕ
hm_or_zero none = (0, 0)
hm_or_zero (some hm) = hm

-- Monday = 1, …, Sunday = 7.
abbrev pub iso_weekday : Time → ℕ
iso_weekday day = if eqb (weekday day) 0 then 7 else weekday day

abbrev pub slot_at : String → Time → Slot
slot_at room_id cur = record {
  id = unix_nano_text cur;
  room_id = room_id;
  start = cur;
  end = cur + slot_duration;
}

-- The loop over `cur`; the fuel bounds its rounds.
unfoldable pub cut : (fuel : ℕ) → String → (cur end : Time) → List Slot
cut zero room_id cur end = []
cut (suc fuel) room_id cur end =
    let rest = cut fuel room_id (cur + slot_duration) end in
    if ltb cur end
    then if ltb end (cur + slot_duration) then [] else slot_at room_id cur ∷ rest
    else []

-- The instant of a clock time on a day.
abbrev pub on_day : Time → ℕ × ℕ → Time
on_day day (h, m) = date (day_number day) h m

abbrev pub window_slots : String → (start end : Time) → List Slot
window_slots room_id start end = cut ((end - start) / slot_duration + 1) room_id start end

unfoldable pub generate_slots_for_date : String → Schedule → Time → Result (List Slot)
generate_slots_for_date room_id schedule day = elim (validate_schedule schedule) [
  | some e ↦ err e
  | none ↦
      if any (eqb_ℤ (pos (iso_weekday day))) schedule.days_of_week
      then ok (
          window_slots room_id (on_day day (hm_or_zero (parse_hm schedule.start_time)))
            (on_day day (hm_or_zero (parse_hm schedule.end_time))))
      else ok []
]
