-- ===== src/Slots/Tiling.antt =====
-- The slots that the loop of `GenerateSlotsForDate` cuts a window into.
use avito_test.Prelude.{
  ℕ, zero, suc, ◌+◌, ◌*◌, ◌<◌, ◌≡◌, refl, List, [], ◌∷◌, String, arith, length,
}
use avito_test.Times.{Time, minute}
use avito_test.Types.{Slot, slot_duration}
use avito_test.Slots.{cut, window_slots}

-- The slots stand end to end, each for half an hour and for the room, from `start` up to `end`.
abbrev pub Tiles : String → List Slot → (start end : Time) → Type 0
Tiles room_id [] start end = start ≡ end
Tiles room_id (s ∷ slots) start end =
    (s.room_id ≡ room_id)
    × (s.start ≡ start)
    × (s.end ≡ start + 30 * minute)
    × Tiles room_id slots s.end end

-- A window of `n` half hours is cut into `n` slots, whatever fuel above `n` is left.
cut-Tiles :
    (n fuel : ℕ) (room_id : String) (cur end : Time)
    → end ≡ cur + n * slot_duration
    → n < fuel
    → Tiles room_id (cut fuel room_id cur end) cur end × (length (cut fuel room_id cur end) ≡ n)
unfolding cut
cut-Tiles n zero room_id cur end e h = elim h [ ]
cut-Tiles zero (suc fuel) room_id cur end e h = ground arith
cut-Tiles (suc n) (suc fuel) room_id cur end e h =
    ground (arith, cut-Tiles n fuel room_id (cur + slot_duration) end)

pub window_slots-Tiles :
    (n : ℕ) (room_id : String) (start : Time)
    → Tiles room_id
        (window_slots room_id start (start + n * slot_duration))
        start
        (start + n * slot_duration)
      × (length (window_slots room_id start (start + n * slot_duration)) ≡ n)
window_slots-Tiles n room_id start =
    cut-Tiles n _ room_id start (start + n * slot_duration) refl (omega arith)
