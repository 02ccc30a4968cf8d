-- ===== src/Examples/Keyspaces.antt =====
-- A Redis for the examples: an association list, and a coding that writes the empty list and that
-- of the slot of the examples.
use avito_test.Prelude.{
  ◌≡◌, ◌≢◌, ◌⊎◌, refl, sym, ap, ◌∙◌, inl, inr, Option, none, some, List, [], ◌∷◌, String, Bool,
  true, ◌&&◌, Dict, lookup, Memᴰ, ◌==◌, if◌then◌else◌, string_discrete, not-same, ==_iff,
  Bool-cases, eqb, insert, lookup-insert, arith,
}
use avito_test.Types.{Slot, Result, ok, err, other}
use avito_test.Cache.Redis.{Redis, Got, value, nil}
use avito_test.Cache.Redis.Laws.{Reads, NoPanic, IsRedis}
use avito_test.Examples.Fixture.{stored_slot}

abbrev is_stored : Slot → Bool
is_stored s =
    s.id == stored_slot.id
    && s.room_id == stored_slot.room_id
    && eqb s.start stored_slot.start
    && eqb s.end stored_slot.end

stored_only : (s : Slot) → is_stored s ≡ true → s ≡ stored_slot
stored_only s h =
    let id : s.id ≡ stored_slot.id = ground arith in
    let room_id : s.room_id ≡ stored_slot.room_id = ground arith in
    let start : s.start ≡ stored_slot.start = ground arith in
    let end : s.end ≡ stored_slot.end = ground arith in
    λ i. record { id = id i; room_id = room_id i; start = start i; end = end i }

abbrev write : List Slot → Result String
write [] = ok "none"
write (s ∷ []) = if is_stored s then ok "one" else err (other "unsupported")
write (s ∷ t ∷ slots) = err (other "unsupported")

abbrev read : String → Result (List Slot)
read raw =
    if raw == "none"
    then ok []
    else if raw == "one"
    then ok (stored_slot ∷ [])
    else err (other "syntax")

read-write : (slots : List Slot) (raw : String) → write slots ≡ ok raw → read raw ≡ ok slots
unfolding string_discrete
read-write [] raw h = let e : raw ≡ "none" = cc (h) in rw e refl
read-write (s ∷ []) raw h = elim (Bool-cases (is_stored s)) [
  | inl fine ↦
      let h' : ok "one" ≡ ok raw = rw fine at h in
      let e : raw ≡ "one" = cc (h') in rw e (ap (λ t. ok (t ∷ [])) (sym (stored_only s fine)))
  | inr bad ↦ let h' : err (other "unsupported") ≡ ok raw = rw bad at h in cc (h')
]
read-write (s ∷ t ∷ slots) raw h = cc

read-NoPanic : (raw : String) → NoPanic (read raw)
read-NoPanic raw = elim (Bool-cases (raw == "none")) [
  | inl e ↦ rw e tt
  | inr e ↦ elim (Bool-cases (raw == "one")) [ inl d ↦ rw (e, d) tt | inr d ↦ rw (e, d) tt ]
]

write-NoPanic : (slots : List Slot) → NoPanic (write slots)
write-NoPanic [] = tt
write-NoPanic (s ∷ []) = elim (Bool-cases (is_stored s)) [ inl e ↦ rw e tt | inr e ↦ rw e tt ]
write-NoPanic (s ∷ t ∷ slots) = tt

abbrev keys : Dict String → List String
keys [] = []
keys ((k, x) ∷ m) = k ∷ keys m

abbrev remove : String → Dict String → Dict String
remove k [] = []
remove k ((j, x) ∷ m) = if k == j then remove k m else (j, x) ∷ remove k m

abbrev got_of : Option String → Got
got_of none = nil
got_of (some x) = value x

got_of-Reads : (o : Option String) → Reads o (got_of o)
got_of-Reads none = tt
got_of-Reads (some x) = refl

lookup-remove : (k : String) (m : Dict String) → lookup k (remove k m) ≡ none
unfolding lookup
lookup-remove k [] = refl
lookup-remove k ((j, x) ∷ m) = elim (Bool-cases (k == j)) [
  | inl e ↦ rw e (lookup-remove k m)
  | inr e ↦ rw (e, e) (lookup-remove k m)
]

remove-lookup :
    (k j x : String) (m : Dict String) → lookup j (remove k m) ≡ some x → lookup j m ≡ some x
unfolding lookup
remove-lookup k j x [] h = h
remove-lookup k j x ((i, y) ∷ m) h = elim (Bool-cases (k == i)) [
  | inl e ↦
      let older = remove-lookup k j x m (rw e at h) in
      elim (string_discrete j i) [
        | yes same ↦ cc (
          lookup-remove k m,
          ap (λ l. lookup l (remove k m)) (same ∙ sym ((==_iff k i).0 e)),
          rw e at h,
        )
        | no differs ↦ rw (not-same j i differs) older
      ]
  | inr e ↦ elim (string_discrete j i) [
    | yes same ↦ rw ((==_iff j i).1 same) (rw (e, (==_iff j i).1 same) at h)
    | no differs ↦
        rw (not-same j i differs) (remove-lookup k j x m (rw (e, not-same j i differs) at h))
  ]
]

mem-keys : (k : String) (m : Dict String) → lookup k m ≢ none → Memᴰ k (keys m)
unfolding lookup
mem-keys k [] h = absurd (h refl)
mem-keys k ((j, x) ∷ m) h = elim (string_discrete k j) [
  | yes e ↦ Memᴰ.head e
  | no differs ↦ Memᴰ.tail (mem-keys k m (λ gone. h (rw (not-same k j differs, lookup) gone)))
]

inserted :
    (k x : String) (m : Dict String) (j y : String)
    → (if j == k then some x else lookup j m) ≡ some y
    → (lookup j m ≡ some y) ⊎ ((j ≡ k) × (y ≡ x))
inserted k x m j y h = elim (string_discrete j k) [
  | yes same ↦ let h' : some x ≡ some y = rw ((==_iff j k).1 same) at h in inr (same, cc (h'))
  | no differs ↦ inl (rw (not-same j k differs) at h)
]

abbrev pub redis : Redis
redis = record {
  State = Dict String;
  get = λ k m. (got_of (lookup k m), m);
  set = λ k x ttl m. (none, insert k x m);
  scan = λ pattern count m. ((keys m, none), m);
  del = λ k m. (none, remove k m);
  marshal = write;
  unmarshal = read;
}

abbrev pub keyspace : Dict String → String → Option String
keyspace m k = lookup k m

pub redis-IsRedis : IsRedis redis keyspace
redis-IsRedis = record {
  get = λ k m. got_of-Reads (lookup k m);
  get_keeps = λ k m j x h. h;
  set = λ k x ttl m j y h. inserted k x m j y (sym (lookup-insert j k x m) ∙ h);
  scan = λ text count m literal rest there. mem-keys _ m there;
  scan_keeps = λ pattern count m k x h. h;
  del = λ k m. lookup-remove k m;
  del_keeps = λ k m j x h. remove-lookup k j x m h;
  unmarshal = read-write;
  unmarshal-NoPanic = read-NoPanic;
  marshal-NoPanic = write-NoPanic;
}
