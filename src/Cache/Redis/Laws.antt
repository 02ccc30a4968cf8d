-- ===== src/Cache/Redis/Laws.antt =====
-- The documented behaviour of Redis and of encoding/json that RedisSlotsCache relies on.
use Prim.Native.Char.{code}
use Prim.Native.String
use avito_test.Prelude.{ℕ, ◌≡◌, ◌≢◌, ◌⊎◌, Option, none, some, List, String, Memᴰ}
use avito_test.Types.{Slot, Result, ok, err, panic}
use avito_test.Cache.Redis.{Redis, Got, value, nil, lost}

-- A text without the special characters of a pattern.
abbrev pub IsLiteral : String → Type 0
IsLiteral String.[] = Unit {0}
IsLiteral (String.◌∷◌ c s) =
    ((code c ≢ b'*') × (code c ≢ b'?') × (code c ≢ b'[') × (code c ≢ b'\\')) × IsLiteral s

abbrev pub Keyspace : Type 0
Keyspace = String → Option String

-- Keys may go, since they expire or are deleted.
abbrev pub Forgets : Keyspace → Keyspace → Type 0
Forgets v v' = (k x : String) → v' k ≡ some x → v k ≡ some x

abbrev pub Reads : Option String → Got → Type 0
Reads o (value x) = o ≡ some x
Reads o nil = Unit {0}
Reads o (lost m) = Unit {0}

-- SCAN returns every key that matches from its start to its end; nothing but the text before the
-- last `*` limits what matches.
abbrev pub Scans : (text : String) → Keyspace → List String × Option String → Type 0
Scans text v (keys, none) =
    (rest : String) → v (String.◌++◌ text rest) ≢ none → Memᴰ (String.◌++◌ text rest) keys
Scans text v (keys, some m) = Unit {0}

abbrev pub Deletes : String → Keyspace → Option String → Type 0
Deletes k v' none = v' k ≡ none
Deletes k v' (some m) = Unit {0}

abbrev pub NoPanic : {A : Type 0} → Result A → Type 0
NoPanic (ok a) = Unit {0}
NoPanic (err e) = Unit {0}
NoPanic panic = ⊥

pub record IsRedis (r : Redis) (view : r.State → Keyspace) : Type 0 where
  pub get : (k : String) (c : r.State) → Reads (view c k) (r.get k c).0
  pub get_keeps : (k : String) (c : r.State) → Forgets (view c) (view (r.get k c).1)
  pub set :
      (k x : String) (ttl : ℕ) (c : r.State) (j y : String)
      → view (r.set k x ttl c).1 j ≡ some y
      → (view c j ≡ some y) ⊎ ((j ≡ k) × (y ≡ x))
  pub scan :
      (text : String) (count : ℕ) (c : r.State)
      → IsLiteral text
      → Scans text (view c) (r.scan (String.◌++◌ text "*") count c).0
  pub scan_keeps :
      (pattern : String) (count : ℕ) (c : r.State)
      → Forgets (view c) (view (r.scan pattern count c).1)
  pub del : (k : String) (c : r.State) → Deletes k (view (r.del k c).1) (r.del k c).0
  pub del_keeps : (k : String) (c : r.State) → Forgets (view c) (view (r.del k c).1)
  -- What Marshal has written is read back by Unmarshal.
  pub unmarshal :
      (slots : List Slot) (raw : String) → r.marshal slots ≡ ok raw → r.unmarshal raw ≡ ok slots
  pub unmarshal-NoPanic : (raw : String) → NoPanic (r.unmarshal raw)
  pub marshal-NoPanic : (slots : List Slot) → NoPanic (r.marshal slots)
