-- ===== src/Cache/Redis/Refines.antt =====
-- RedisSlotsCache keeps the contract of a cache.
use Prim.Native.String
use avito_test.Prelude.{
  ℕ, ◌≡◌, ◌⊎◌, refl, sym, ap, ◌∙◌, inl, inr, Option, none, some, List, [], ◌∷◌, String, Memᴰ,
  Option-cases,
}
use avito_test.Types.{Slot, Result, ok, err, panic, other}
use avito_test.Cache.Contract.{IsPlain, Gets, Invalidates, IsSlotsCache}
use avito_test.Cache.Redis.{
  Redis, Got, value, nil, lost, room_prefix, key, decoded, read_got, get_slots, set_raw, set_slots,
  del_all, invalidate_room, redis_slots_cache,
}
use avito_test.Cache.Redis.Laws.{
  IsLiteral, Keyspace, Forgets, Reads, Scans, Deletes, NoPanic, IsRedis,
}
use avito_test.Cache.Redis.Keys.{key-injective, room_prefix-IsLiteral}

module _ (r : Redis) {view : r.State → Keyspace} (laws : IsRedis r view) (prefix : String) where
  -- The key of the room and the date has a value that is read as these slots.
  abbrev pub Holds : r.State → (room_id date : String) → List Slot → Type 0
  Holds c room_id date slots =
      IsPlain room_id
      × ((raw : String) × (view c (key prefix room_id date) ≡ some raw)
          × (r.unmarshal raw ≡ ok slots))

  Forgets-Holds :
      (c c' : r.State) (room_id date : String) (slots : List Slot)
      → Forgets (view c) (view c')
      → Holds c' room_id date slots
      → Holds c room_id date slots
  Forgets-Holds c c' room_id date slots less (plain, (raw, at, read)) =
      (plain, (raw, less _ raw at, read))

  decoded-Gets :
      (P : List Slot → Type 0) (a : Result (List Slot))
      → NoPanic a
      → ((slots : List Slot) → a ≡ ok slots → P slots)
      → Gets P (decoded a)
  decoded-Gets P (ok slots) fine held = held slots refl
  decoded-Gets P (err e) fine held = tt
  decoded-Gets P panic fine held = fine

  read_got-Gets :
      (room_id date : String) (c : r.State) (got : Got)
      → IsPlain room_id
      → Reads (view c (key prefix room_id date)) got
      → Gets (Holds c room_id date) (read_got r prefix got)
  read_got-Gets room_id date c nil plain at = tt
  read_got-Gets room_id date c (lost m) plain at = tt
  read_got-Gets room_id date c (value raw) plain at =
      decoded-Gets (Holds c room_id date) (r.unmarshal raw) (laws.unmarshal-NoPanic raw)
        (λ slots read. (plain, (raw, at, read)))

  set_raw-Holds :
      (room_id date : String) (slots : List Slot) (ttl : ℕ) (a : Result String) (c : r.State)
      (room day : String) (s : List Slot)
      → r.marshal slots ≡ a
      → IsPlain room_id
      → Holds (set_raw r prefix room_id date ttl a c).1 room day s
      → Holds c room day s ⊎ ((room ≡ room_id) × (day ≡ date) × (s ≡ slots))
  set_raw-Holds room_id date slots ttl (err e) c room day s wrote plain held = inl held
  set_raw-Holds room_id date slots ttl panic c room day s wrote plain held = inl held
  set_raw-Holds room_id date slots ttl (ok raw) c room day s wrote plain (plain', (x, at, read)) =
      elim (laws.set (key prefix room_id date) raw ttl c (key prefix room day) x at) [
        | inl old ↦ inl (plain', (x, old, read))
        | inr (same_key, same) ↦
            let (rooms, days) = key-injective prefix room room_id day date plain' plain same_key in
            inr
              (rooms, days, one s (sym read ∙ ap r.unmarshal same ∙ laws.unmarshal slots raw wrote))
      ]
    where
      one : (s : List Slot) → ok s ≡ ok slots → s ≡ slots
      one s e = cc

  gone :
      (c c' : r.State) (k : String)
      → view c k ≡ none
      → Forgets (view c) (view c')
      → view c' k ≡ none
  gone c c' k e less = elim (Option-cases (view c' k)) [
    | inl none' ↦ none'
    | inr (x, here) ↦ cc (less k x here, e)
  ]

  -- Where the loop ends well, the keys are gone and the iterator reports no error.
  abbrev Clears : List String → Option String → r.State → Result (Unit {0}) → Type 0
  Clears ks last c (ok _) = (last ≡ none) × ((k : String) → Memᴰ k ks → view c k ≡ none)
  Clears ks last c (err e) = Unit {0}
  Clears ks last c panic = ⊥

  Clears-next :
      (k : String) (ks : List String) (last : Option String) (c c' : r.State)
      (a : Result (Unit {0}))
      → view c k ≡ none
      → Forgets (view c) (view c')
      → Clears ks last c' a
      → Clears (k ∷ ks) last c' a
  Clears-next k ks last c c' (ok _) away less (end, cleared) = (end, each)
    where
      each : (j : String) → Memᴰ j (k ∷ ks) → view c' j ≡ none
      each j (Memᴰ.head same) = gone c c' j (ap (view c) same ∙ away) less
      each j (Memᴰ.tail m) = cleared j m
  Clears-next k ks last c c' (err e) away less _ = tt
  Clears-next k ks last c c' panic away less h = h

  abbrev Sweeps : List String → Option String → r.State → Result (Unit {0}) × r.State → Type 0
  Sweeps ks last c end = Clears ks last end.1 end.0 × Forgets (view c) (view end.1)

  del_all-Sweeps :
      (ks : List String) (last : Option String) (c : r.State)
      → Sweeps ks last c (del_all r prefix ks last c)
  unfolding del_all
  del_all-Sweeps [] none c = ((refl, λ k m. elim m [ ]), λ k x h. h)
  del_all-Sweeps [] (some m) c = (tt, λ k x h. h)
  del_all-Sweeps (k ∷ ks) last c =
      next (r.del k c).0 (r.del k c).1 (laws.del k c) (laws.del_keeps k c)
        (del_all r prefix ks last (r.del k c).1) (del_all-Sweeps ks last (r.del k c).1)
    where
      next :
          (failure : Option String) (c' : r.State)
          → Deletes k (view c') failure
          → Forgets (view c) (view c')
          → (rest : Result (Unit {0}) × r.State) → Sweeps ks last c' rest
          → Sweeps (k ∷ ks) last c (elim failure [ some m ↦ (err (other m), c') | none ↦ rest ])
      next (some m) c' away less rest swept = (tt, less)
      next none c' away less rest (cleared, more) =
          (Clears-next k ks last c' rest.1 rest.0 away more cleared, λ j x h. less j x (more j x h))

  Clears-Invalidates :
      (room_id date : String) (c c' : r.State) (ks : List String) (last : Option String)
      (a : Result (Unit {0}))
      → (IsPlain room_id → Scans (room_prefix prefix room_id) (view c) (ks, last))
      → Forgets (view c) (view c')
      → Clears ks last c' a
      → Invalidates (Holds c' room_id date) a
  Clears-Invalidates room_id date c c' ks (some m) (ok _) scanned less (end, _) = cc (end)
  Clears-Invalidates room_id date c c' ks none (ok _) scanned less (_, cleared) =
      λ slots (plain, (raw, at, read)).
        let listed = scanned plain date (λ e. cc (less _ raw at, e)) in cc (at, cleared _ listed)
  Clears-Invalidates room_id date c c' ks last (err e) scanned less _ = tt
  Clears-Invalidates room_id date c c' ks last panic scanned less h = h

  invalidate_room-swept :
      (room_id : String) (c : r.State)
      → let scanned = r.scan (String.◌++◌ (room_prefix prefix room_id) "*") 1000 c in
        Sweeps scanned.0.0 scanned.0.1 scanned.1 (invalidate_room r prefix room_id c)
  unfolding invalidate_room
  invalidate_room-swept room_id c = del_all-Sweeps _ _ _

  invalidate_room-Forgets :
      (room_id : String) (c : r.State)
      → Forgets (view c) (view (invalidate_room r prefix room_id c).1)
  invalidate_room-Forgets room_id c k x h =
      laws.scan_keeps _ 1000 c k x ((invalidate_room-swept room_id c).1 k x h)

  -- RedisSlotsCache with a prefix without special characters keeps the contract of a cache, over a
  -- Redis and a coding of slots that behave as documented: GetSlots answers only slots that
  -- SetSlots was given for that room and date, and once InvalidateRoom has returned without an
  -- error it answers none for any date of that room, provided that the names of rooms are plain,
  -- as UUIDs are.
  pub redis_slots_cache-IsSlotsCache :
      IsLiteral prefix → IsSlotsCache (redis_slots_cache r prefix) Holds
  unfolding get_slots set_slots
  redis_slots_cache-IsSlotsCache literal = record {
    get_slots = λ room_id date c plain.
        read_got-Gets room_id date c _ plain (laws.get (key prefix room_id date) c);
    get_keeps = λ room_id date c room day s.
        Forgets-Holds c _ room day s (laws.get_keeps (key prefix room_id date) c);
    set_slots = λ room_id date slots ttl c room day s.
        set_raw-Holds room_id date slots ttl (r.marshal slots) c room day s refl;
    invalidate_room = λ room_id date c.
        Clears-Invalidates room_id date c _ _ _ _
          (λ plain.
            laws.scan (room_prefix prefix room_id) 1000 c
              (room_prefix-IsLiteral prefix room_id literal plain))
          (invalidate_room-Forgets room_id c) (invalidate_room-swept room_id c).0;
    invalidate_keeps =
        λ room_id c room day s. Forgets-Holds c _ room day s (invalidate_room-Forgets room_id c);
  }
