-- ===== src/Seed.antt =====
-- cmd/seed/main.go: the slots that the seed command inserts. The database is a parameter.
pub mod Rows
use avito_test.Prelude.{
  ℕ, zero, suc, ◌+◌, ◌-◌, ◌*◌, Option, none, some, List, [], ◌∷◌, ◌++◌, String, pos, eqb, ◌||◌,
  ◌==◌, if◌then◌else◌,
}
use avito_test.Types.{Schedule}
use avito_test.Times.{Time, day_number, date, add_date, weekday, minute}

-- `os.Getenv` is a parameter.
abbrev pub getenv : (env : String → String) → (k fallback : String) → String
getenv env k fallback = let v = env k in if v == "" then fallback else v

pub record SeedRoom : Type 0 where
  pub id : String
  pub start_hour : ℕ
  pub end_hour : ℕ

abbrev pub room_a : SeedRoom
room_a = record { id = "00000000-0000-0000-0000-000000000101"; start_hour = 9; end_hour = 18 }

abbrev pub room_b : SeedRoom
room_b = record { id = "00000000-0000-0000-0000-000000000102"; start_hour = 10; end_hour = 17 }

abbrev pub room_c : SeedRoom
room_c = record { id = "00000000-0000-0000-0000-000000000103"; start_hour = 11; end_hour = 16 }

abbrev pub seeded_rooms : List SeedRoom
seeded_rooms = room_a ∷ room_b ∷ room_c ∷ []

-- The row of seedSchedules for the third room.
abbrev pub schedule_c : Schedule
schedule_c = record {
  id = "00000000-0000-0000-0000-000000000203";
  room_id = room_c.id;
  days_of_week = pos 1 ∷ pos 3 ∷ pos 5 ∷ [];
  start_time = "11:00";
  end_time = "16:00";
}

-- The arguments of one INSERT.
pub record Row : Type 0 where
  pub room_id : String
  pub start : Time
  pub end : Time

abbrev pub row_at : String → (start : Time) → Row
row_at id start = record { room_id = id; start = start; end = start + 30 * minute }

-- The loop over the hours with the loop over the minutes 0 and 30: `left` more hours, from `h` on.
unfoldable pub hour_rows : String → (day : ℕ) → (left h : ℕ) → List Row
hour_rows id day zero h = []
hour_rows id day (suc left) h =
    row_at id (date day h 0) ∷ row_at id (date day h 30) ∷ hour_rows id day left (suc h)

abbrev pub room_rows : (day : ℕ) → SeedRoom → List Row
room_rows day r = hour_rows r.id day (r.end_hour - r.start_hour) r.start_hour

-- The loop over the rooms.
unfoldable pub rooms_rows : (day : ℕ) → List SeedRoom → List Row
rooms_rows day [] = []
rooms_rows day (r ∷ rooms) = room_rows day r ++ rooms_rows day rooms

abbrev pub day_rows : Time → List Row
day_rows day =
    if eqb (weekday day) 6 || eqb (weekday day) 0
    then []
    else rooms_rows (day_number day) seeded_rooms

-- The loop over the days: `left` more, from the d-th after `base` on.
unfoldable pub days_rows : (base : Time) → (left d : ℕ) → List Row
days_rows base zero d = []
days_rows base (suc left) d = day_rows (add_date base d) ++ days_rows base left (suc d)

-- The rows that seedSlots inserts, in order.
abbrev pub seed_rows : (now : Time) → List Row
seed_rows now = days_rows (date (day_number now) 0 0) 7 0

-- Executing a statement: an error, or none, and the new state of the database.
pub record SeedDb : Type 1 where
  pub State : Type 0
  pub Failure : Type 0
  pub insert_slot : Row → State → Option Failure × State

module _ (db : SeedDb) where
  abbrev pub Inserted : Type 0
  Inserted = Option db.Failure × db.State

  -- A failed INSERT ends the loops.
  unfoldable pub insert_rows : List Row → db.State → Inserted
  insert_rows [] st = (none, st)
  insert_rows (r ∷ rows) st =
      let (failure, st') = db.insert_slot r st in
      let rest = insert_rows rows st' in elim failure [ some e ↦ (some e, st') | none ↦ rest ]

  abbrev pub seed_slots : (now : Time) → db.State → Inserted
  seed_slots now st = insert_rows (seed_rows now) st
