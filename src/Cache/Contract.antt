-- ===== src/Cache/Contract.antt =====
-- What any implementation of the interface SlotsCache promises: it never invents a list of slots,
-- and forgets those of a room that is invalidated.
use Prim.Native.Char.{code}
use avito_test.Prelude.{ℕ, ◌≡◌, ◌≢◌, ◌⊎◌, Option, none, some, List, String}
use avito_test.Types.{Slot, Result, ok, err, panic}
use avito_test.Cache.{SlotsCache}

-- A character that stands for itself in a pattern of keys, and is not the separator.
abbrev pub IsOrdinary : ℕ → Type 0
IsOrdinary c = (c ≢ b'*') × (c ≢ b'?') × (c ≢ b'[') × (c ≢ b'\\') × (c ≢ b':')

-- Every UUID is such a text.
abbrev pub IsPlain : String → Type 0
IsPlain String.[] = Unit {0}
IsPlain (String.◌∷◌ c s) = IsOrdinary (code c) × IsPlain s

-- What an answer of GetSlots tells.
abbrev pub Gets : (List Slot → Type 0) → Result (Option (List Slot)) → Type 0
Gets P (ok (some slots)) = P slots
Gets P (ok none) = Unit {0}
Gets P (err e) = Unit {0}
Gets P panic = ⊥

abbrev pub Invalidates : (List Slot → Type 0) → Result (Unit {0}) → Type 0
Invalidates P (ok _) = (slots : List Slot) → ¬ P slots
Invalidates P (err e) = Unit {0}
Invalidates P panic = ⊥

-- `Holds c room_id date slots`: a call of GetSlots may answer these slots. Entries go whenever they
-- expire.
pub record IsSlotsCache (C : SlotsCache)
    (Holds : C.State → (room_id date : String) → List Slot → Type 0) : Type 0 where
  pub get_slots :
      (room_id date : String) (c : C.State)
      → IsPlain room_id
      → Gets (Holds c room_id date) (C.get_slots room_id date c).0
  pub get_keeps :
      (room_id date : String) (c : C.State) (r d : String) (s : List Slot)
      → Holds (C.get_slots room_id date c).1 r d s
      → Holds c r d s
  pub set_slots :
      (room_id date : String) (slots : List Slot) (ttl : ℕ) (c : C.State) (r d : String)
      (s : List Slot)
      → IsPlain room_id
      → Holds (C.set_slots room_id date slots ttl c).1 r d s
      → Holds c r d s ⊎ ((r ≡ room_id) × (d ≡ date) × (s ≡ slots))
  pub invalidate_room :
      (room_id date : String) (c : C.State)
      → Invalidates
          (Holds (C.invalidate_room room_id c).1 room_id date)
          (C.invalidate_room room_id c).0
  pub invalidate_keeps :
      (room_id : String) (c : C.State) (r d : String) (s : List Slot)
      → Holds (C.invalidate_room room_id c).1 r d s
      → Holds c r d s
