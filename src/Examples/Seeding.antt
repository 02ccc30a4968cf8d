-- ===== src/Examples/Seeding.antt =====
-- The theorems on the seed command at concrete inputs, and the configuration of the commands.
use avito_test.Prelude.{◌≡◌, refl, arith, map, Memᴰ, string_discrete, ◌==◌, if◌then◌else◌, String}
use avito_test.Times.{date}
use avito_test.Slots.{window_slots}
use avito_test.Slots.Generation.{IsListed}
use avito_test.Seed.{getenv, Row, room_c, schedule_c, room_rows, seed_rows}
use avito_test.Seed.Rows.{row_of, room_rows-window_slots, seed_rows-IsListed}
use avito_test.Examples.Fixture.{monday}

abbrev environment : String → String
environment k = if k == "PORT" then "8080" else ""

getenv_test :
    (getenv environment "PORT" "80" ≡ "8080")
    × (getenv environment "REDIS_ADDR" "redis:6379" ≡ "redis:6379")
unfolding string_discrete
getenv_test = (refl, refl)

room_rows-window_slots_example :
    room_rows monday room_c
    ≡ map row_of (window_slots room_c.id (date monday 11 0) (date monday 16 0))
room_rows-window_slots_example = room_rows-window_slots room_c monday (omega arith)

seed_rows-IsListed_example :
    (row : Row) × Memᴰ row (seed_rows (date monday 8 0))
    × (row.room_id ≡ room_c.id)
    × (¬ IsListed schedule_c row.start)
seed_rows-IsListed_example = seed_rows-IsListed (date monday 8 0)
