-- ===== src/Cache/Redis.antt =====
-- internal/app/cache.go: RedisSlotsCache, over parameters for github.com/redis/go-redis and
-- encoding/json.
pub mod Laws
pub mod Keys
pub mod Refines
use Prim.Native.String
use avito_test.Prelude.{ℕ, Option, none, some, List, [], ◌∷◌, String}
use avito_test.Types.{Slot, Result, ok, err, panic, other}
use avito_test.Cache.{SlotsCache}

-- The answer of GET: a value, `redis.Nil`, or an error.
pub data Got : Type 0 where
  value : String → Got
  nil : Got
  lost : String → Got

-- A client with its server, and the coding of slots. A command without a value answers its error,
-- if any. `scan` answers the keys that its iterator goes through and the error that ends it.
pub record Redis : Type 1 where
  pub State : Type 0
  pub get : (key : String) → State → Got × State
  pub set : (key value : String) → (ttl : ℕ) → State → Option String × State
  pub scan : (pattern : String) → (count : ℕ) → State → (List String × Option String) × State
  pub del : (key : String) → State → Option String × State
  -- json.Marshal and json.Unmarshal
  pub marshal : List Slot → Result String
  pub unmarshal : String → Result (List Slot)

-- `fmt.Sprintf("%s:%s:", prefix, room_id)`
abbrev pub room_prefix : (prefix room_id : String) → String
room_prefix prefix room_id = String.◌++◌ prefix (String.◌++◌ ":" (String.◌++◌ room_id ":"))

abbrev pub key : (prefix room_id date : String) → String
key prefix room_id date = String.◌++◌ (room_prefix prefix room_id) date

-- `return slots, true, nil`
abbrev pub decoded : Result (List Slot) → Result (Option (List Slot))
decoded (ok slots) = ok (some slots)
decoded (err e) = err e
decoded panic = panic

-- `return err` where `none` is nil
abbrev pub done : Option String → Result (Unit {0})
done none = ok tt
done (some m) = err (other m)

module _ (r : Redis) (prefix : String) where
  abbrev pub Action : Type 0 → Type 0
  Action A = r.State → Result A × r.State

  abbrev pub read_got : Got → Result (Option (List Slot))
  read_got nil = ok none
  read_got (lost m) = err (other m)
  read_got (value raw) = decoded (r.unmarshal raw)

  unfoldable pub get_slots : (room_id date : String) → Action (Option (List Slot))
  get_slots room_id date c = let (got, c') = r.get (key prefix room_id date) c in (read_got got, c')

  abbrev pub set_raw : (room_id date : String) → (ttl : ℕ) → Result String → Action (Unit {0})
  set_raw room_id date ttl (ok raw) c =
      let (failure, c') = r.set (key prefix room_id date) raw ttl c in (done failure, c')
  set_raw room_id date ttl (err e) c = (err e, c)
  set_raw room_id date ttl panic c = (panic, c)

  unfoldable pub set_slots : (room_id date : String) → List Slot → (ttl : ℕ) → Action (Unit {0})
  set_slots room_id date slots ttl = set_raw room_id date ttl (r.marshal slots)

  -- The loop of InvalidateRoom over the keys, and `return iter.Err()`.
  unfoldable pub del_all : List String → (last : Option String) → Action (Unit {0})
  del_all [] last c = (done last, c)
  del_all (k ∷ ks) last c =
      let (failure, c') = r.del k c in
      let rest = del_all ks last c' in elim failure [ some m ↦ (err (other m), c') | none ↦ rest ]

  unfoldable pub invalidate_room : (room_id : String) → Action (Unit {0})
  unfolding del_all
  invalidate_room room_id c =
      let ((keys, last), c') = r.scan (String.◌++◌ (room_prefix prefix room_id) "*") 1000 c in
      del_all keys last c'

  abbrev pub redis_slots_cache : SlotsCache
  redis_slots_cache = record {
    State = r.State;
    get_slots = get_slots;
    set_slots = set_slots;
    invalidate_room = invalidate_room;
  }
