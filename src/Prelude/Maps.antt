-- ===== src/Prelude/Maps.antt =====
-- A Go map with string keys: its entries in the order in which one `range` meets them.
use mathlib.Core.Path.{◌≡◌, refl}
use mathlib.Core.Logic.{◌≢◌}
use mathlib.Core.Option.{Option, none, some}
use mathlib.Core.List.{List, [], ◌∷◌, Memᴰ}
use Prim.Native.String.{String}
use native.Mathlib.Omega.{arith}
use mathlib.Core.Logic.{◌⊎◌, inl, inr}
use avito_test.Prelude.Tests.{◌==◌, if◌then◌else◌, Bool-cases, string_discrete, ==_refl}

abbrev pub Dict {ℓ} : Type ℓ → Type ℓ
Dict V = List (String × V)

module _ {ℓ} {V : Type ℓ} where
  unfoldable pub lookup : String → Dict V → Option V
  lookup k [] = none
  lookup k ((j, v) ∷ m) = if k == j then some v else lookup k m

  -- `m[k] = v`
  unfoldable pub insert : String → V → Dict V → Dict V
  insert k v [] = (k, v) ∷ []
  insert k v ((j, w) ∷ m) = if k == j then (k, v) ∷ m else (j, w) ∷ insert k v m

  -- what `for _, v := range m` visits
  unfoldable pub values : Dict V → List V
  values [] = []
  values ((_, v) ∷ m) = v ∷ values m

  abbrev pub NodupKeys : Dict V → Type ℓ
  NodupKeys [] = Unit
  NodupKeys ((k, _) ∷ m) = (lookup k m ≡ none) × NodupKeys m

  pub lookup-insert :
      (j k : String) (v : V) (m : Dict V)
      → lookup j (insert k v m) ≡ (if j == k then some v else lookup j m)
  unfolding lookup insert
  lookup-insert j k v [] = refl
  lookup-insert j k v (_ ∷ m) = ground (arith, lookup-insert j k v m)

  pub lookup-insert_self : (k : String) (v : V) (m : Dict V) → lookup k (insert k v m) ≡ some v
  lookup-insert_self k v m = ground (arith, lookup-insert k k v m)

  pub lookup-insert_ne :
      (j k : String) (v : V) (m : Dict V) → j ≢ k → lookup j (insert k v m) ≡ lookup j m
  lookup-insert_ne j k v m h = ground (arith, lookup-insert j k v m)

  pub insert-NodupKeys : (k : String) (v : V) (m : Dict V) → NodupKeys m → NodupKeys (insert k v m)
  unfolding insert lookup
  insert-NodupKeys k v [] _ = (refl, tt)
  insert-NodupKeys k v ((j, _) ∷ m) (fresh, u) =
      ground (arith, insert-NodupKeys k v m u, lookup-insert j k v m)

  pub mem-values : (k : String) {v : V} (m : Dict V) → lookup k m ≡ some v → Memᴰ v (values m)
  unfolding lookup values
  mem-values k [] h = cc
  mem-values k ((j, w) ∷ m) h = elim (Bool-cases (k == j)) [
    | inl e ↦ Memᴰ.head (ground arith)
    | inr e ↦ Memᴰ.tail (mem-values k m (ground arith))
  ]

  pub lookup_of_mem-values :
      {v : V} (m : Dict V) → NodupKeys m → Memᴰ v (values m) → (k : String) × (lookup k m ≡ some v)
  unfolding lookup values
  lookup_of_mem-values [] u h = elim h [ ]
  lookup_of_mem-values ((j, w) ∷ m) u (Memᴰ.head e) = (j, ground arith)
  lookup_of_mem-values ((j, w) ∷ m) u (Memᴰ.tail h) =
      let (k, found) = lookup_of_mem-values m u.1 h in (k, ground (arith, u.0))

  -- An entry of the changed map is the new one, or an old one under another key.
  pub lookup-insert_cases :
      (j k : String) (v : V) (m : Dict V) {x : V}
      → lookup j (insert k v m) ≡ some x
      → ((j ≡ k) × (v ≡ x)) ⊎ ((j ≢ k) × (lookup j m ≡ some x))
  lookup-insert_cases j k v m h = elim (string_discrete j k) [
    | yes e ↦ inl (e, ground (arith, lookup-insert j k v m))
    | no e ↦ inr (e, rw (← lookup-insert_ne j k v m e) h)
  ]

  pub lookup-insert_ne-none :
      (j k : String) (v : V) (m : Dict V) → lookup j m ≢ none → lookup j (insert k v m) ≢ none
  lookup-insert_ne-none j k v m h = ground (arith, lookup-insert j k v m)

  -- What holds of the entries still holds when the new entry has it too.
  pub insert-each {κ} :
      (P : String → V → Type κ) (k : String) (v : V) (m : Dict V)
      → P k v
      → ((j : String) (x : V) → lookup j m ≡ some x → P j x)
      → (j : String) (x : V) → lookup j (insert k v m) ≡ some x
      → P j x
  insert-each P k v m new old j x h = elim (lookup-insert_cases j k v m h) [
    | inl (e, f) ↦ rw (e, ← f) new
    | inr (_, h') ↦ old j x h'
  ]

  -- Storing the same value twice is storing it once.
  pub insert_again : (k : String) (v : V) (m : Dict V) → insert k v (insert k v m) ≡ insert k v m
  unfolding insert
  insert_again k v [] = ground (arith, ==_refl k)
  insert_again k v ((j, w) ∷ m) = ground (arith, insert_again k v m, ==_refl k)
