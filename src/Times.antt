-- ===== src/Times.antt =====
-- What the service uses of package `time`, for instants in UTC. An instant is its number of
-- nanoseconds since the start of the year 0, the earliest date that the layouts of the service can
-- write. Year, month and day are used only together, to name a day: they stand as its number.
pub mod Clock
pub mod Calendar
pub mod Digits
use avito_test.Prelude.{ℕ, ◌+◌, ◌*◌, ◌/◌, ◌%◌}

abbrev pub Time : Type 0
Time = ℕ

abbrev pub second : ℕ
second = 1000000000

abbrev pub minute : ℕ
minute = 60 * second

abbrev pub hour : ℕ
hour = 60 * minute

abbrev pub day_length : ℕ
day_length = 24 * hour

-- The number of the day that `t.Year(), t.Month(), t.Day()` name.
abbrev pub day_number : Time → ℕ
day_number t = t / day_length

-- `time.Date(year, month, day, h, m, 0, 0, time.UTC)`
abbrev pub date : (day h m : ℕ) → Time
date day h m = day * day_length + h * hour + m * minute

-- `t.AddDate(0, 0, days)`
abbrev pub add_date : Time → ℕ → Time
add_date t days = t + days * day_length

-- `t.Weekday()`, Sunday = 0; the first day of the year 0 is a Saturday.
abbrev pub weekday : Time → ℕ
weekday t = (day_number t + 6) % 7

-- The number of the day 1970-01-01.
abbrev pub unix_day : ℕ
unix_day = 719528
