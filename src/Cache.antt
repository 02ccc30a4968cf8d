-- ===== src/Cache.antt =====
-- internal/app/cache.go: the interface `SlotsCache`, and the implementation that caches nothing.
pub mod Redis
pub mod Contract
use avito_test.Prelude.{ℕ, Option, none, List, String}
use avito_test.Types.{Slot, Result, ok}

-- `ok none` stands for "not found". A time to live is in nanoseconds.
pub record SlotsCache : Type 1 where
  pub State : Type 0
  pub get_slots : (room_id date : String) → State → Result (Option (List Slot)) × State
  pub set_slots :
      (room_id date : String) → List Slot → (ttl : ℕ) → State → Result (Unit {0}) × State
  pub invalidate_room : String → State → Result (Unit {0}) × State

abbrev pub noop_slots_cache : SlotsCache
noop_slots_cache = record {
  State = Unit {0};
  get_slots = λ _ _ c. (ok none, c);
  set_slots = λ _ _ _ _ c. (ok tt, c);
  invalidate_room = λ _ c. (ok tt, c);
}
