-- ===== src/Examples/Schedules.antt =====
-- internal/app/slots_test.go and further inputs of internal/app/slots.go.
use avito_test.Prelude.{◌≡◌, refl, none, some, [], ◌∷◌, pos, string_discrete, ◌↔◌, ◌⊎◌}
use avito_test.Times.{date, weekday, unix_day}
use avito_test.Times.Clock.{codes, parse_clock}
use avito_test.Times.Calendar.{parse_date}
use avito_test.Strconv.{format_int, unix_nano_text}
use avito_test.Types.{Schedule, invalid_request, ok}
use avito_test.Slots.{
  parse_hm, rejects_days, check_window, validate_schedule, cut, generate_slots_for_date,
}
use avito_test.Slots.Clock.{IsClockText, parse_hm_iff}
use avito_test.Slots.Validation.{IsValid, validate_schedule_iff}
use avito_test.Slots.Generation.{generate_slots_for_date-outcome, Refused, Unlisted, Listed}
use avito_test.Examples.Fixture.{monday, mondays}

-- The schedules of TestValidateSchedule.
abbrev accepted : Schedule
accepted = record {
  id = "";
  room_id = "r1";
  days_of_week = pos 1 ∷ pos 3 ∷ pos 5 ∷ [];
  start_time = "09:00";
  end_time = "12:00";
}

validate_schedule_test :
    (validate_schedule accepted ≡ none)
    × (validate_schedule (record accepted { days_of_week = pos 0 ∷ [] }) ≡ some invalid_request)
    × (validate_schedule (record accepted { days_of_week = pos 1 ∷ pos 1 ∷ [] })
        ≡ some invalid_request)
    × (validate_schedule (record accepted { start_time = "xx" }) ≡ some invalid_request)
    × (validate_schedule (record accepted { end_time = "09:15" }) ≡ some invalid_request)
unfolding validate_schedule string_discrete rejects_days check_window parse_hm parse_clock
validate_schedule_test = (refl, refl, refl, refl, refl)

-- TestGenerateSlotsForDate
generate_slots_for_date_test :
    generate_slots_for_date "u" mondays (date monday 0 0)
    ≡ ok (
        record {
          id = unix_nano_text (date monday 9 0);
          room_id = "u";
          start = date monday 9 0;
          end = date monday 9 30;
        }
        ∷ record {
          id = unix_nano_text (date monday 9 30);
          room_id = "u";
          start = date monday 9 30;
          end = date monday 10 0;
        }
        ∷ [])
unfolding generate_slots_for_date validate_schedule string_discrete rejects_days check_window
    parse_hm parse_clock cut
generate_slots_for_date_test = refl

parse_hm_test :
    (parse_hm "9:05" ≡ some (9, 5))
    × (parse_hm "23:59" ≡ some (23, 59))
    × (parse_hm "24:00" ≡ none)
    × (parse_hm "09:5" ≡ none)
    × (parse_hm "09:00 " ≡ none)
unfolding parse_hm parse_clock
parse_hm_test = (refl, refl, refl, refl, refl)

parse_date_test :
    (parse_date (codes "1970-01-01") ≡ some unix_day)
    × (parse_date (codes "2026-03-23") ≡ some monday)
    × (parse_date (codes "2026-02-29") ≡ none)
    × (parse_date (codes "2024-02-29") ≡ some 739310)
    × (parse_date (codes "2024-2-29") ≡ none)
unfolding parse_date
parse_date_test = (refl, refl, refl, refl, refl)

weekday_test : weekday (date monday 12 0) ≡ 1
weekday_test = refl

unix_nano_text_test : unix_nano_text (date monday 9 0) ≡ "1774256400000000000"
unfolding unix_nano_text format_int
unix_nano_text_test = refl

parse_hm_iff_example : (parse_hm "9:05" ≡ some (9, 5)) ↔ IsClockText (codes "9:05") 9 5
parse_hm_iff_example = parse_hm_iff "9:05" 9 5

validate_schedule_iff_example : (validate_schedule accepted ≡ none) ↔ IsValid accepted
validate_schedule_iff_example = validate_schedule_iff accepted

generate_slots_for_date-outcome_example :
    Refused "u" mondays (date monday 0 0)
    ⊎ (Unlisted "u" mondays (date monday 0 0) ⊎ Listed "u" mondays (date monday 0 0))
generate_slots_for_date-outcome_example =
    generate_slots_for_date-outcome "u" mondays (date monday 0 0)
