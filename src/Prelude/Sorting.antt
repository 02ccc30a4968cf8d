-- ===== src/Prelude/Sorting.antt =====
-- `slices.SortFunc`: an insertion sort by the test "is before".
use mathlib.Core.Path.{◌≡◌}
use mathlib.Core.Bool.{Bool, true, false}
use mathlib.Core.Logic.{◌⊎◌, inl, inr}
use mathlib.Core.List.{List, [], ◌∷◌, ◌++◌, Perm, perm_middle, append-nil, Memᴰ}
use mathlib.Core.List.Perm
use avito_test.Prelude.Tests.{if◌then◌else◌, Bool-cases}
use avito_test.Prelude.Lists.{All}

module _ {ℓ} {A : Type ℓ} (before : A → A → Bool) where
  -- one round of the sort: `x` moves in front of the elements that it is before
  unfoldable pub insert_sorted : A → List A → List A
  insert_sorted x [] = x ∷ []
  insert_sorted x (y ∷ ys) =
      let rest = insert_sorted x ys in if before x y then x ∷ y ∷ ys else y ∷ rest

  unfoldable pub sort_onto : List A → List A → List A
  unfolding insert_sorted
  sort_onto sorted [] = sorted
  sort_onto sorted (x ∷ xs) = sort_onto (insert_sorted x sorted) xs

  unfoldable pub sort_func : List A → List A
  unfolding sort_onto
  sort_func xs = sort_onto [] xs

  -- No element is before one that stands in front of it.
  abbrev pub IsSorted : List A → Type ℓ
  IsSorted [] = Unit
  IsSorted (x ∷ xs) = All (λ y. before y x ≡ false) xs × IsSorted xs

  insert_sorted-perm : (x : A) (ys : List A) → Perm (insert_sorted x ys) (x ∷ ys)
  unfolding insert_sorted
  insert_sorted-perm x [] = Perm.refl _
  insert_sorted-perm x (y ∷ ys) = elim (Bool-cases (before x y)) [
    | inl e ↦ rw (e, insert_sorted) (Perm.refl _)
    | inr e ↦
        rw (e, insert_sorted)
          (Perm.trans (Perm.cons y (insert_sorted-perm x ys)) (Perm.swap x y ys))
  ]

  sort_onto-perm : (sorted xs : List A) → Perm (sort_onto sorted xs) (xs ++ sorted)
  unfolding sort_onto
  sort_onto-perm sorted [] = Perm.refl _
  sort_onto-perm sorted (x ∷ xs) = Perm.trans (sort_onto-perm (insert_sorted x sorted) xs) (
      Perm.trans (Perm.append (Perm.refl xs) (insert_sorted-perm x sorted)) (perm_middle xs sorted))

  pub sort_func-perm : (xs : List A) → Perm (sort_func xs) xs
  unfolding sort_func
  sort_func-perm xs = rw (append-nil xs) at (sort_onto-perm [] xs)

  mem-insert_sorted : {z : A} (x : A) (ys : List A) → Memᴰ z (x ∷ ys) → Memᴰ z (insert_sorted x ys)
  unfolding insert_sorted
  mem-insert_sorted x [] m = m
  mem-insert_sorted {z} x (y ∷ ys) m = elim (Bool-cases (before x y)) [
    | inl e ↦ rw (e, insert_sorted) m
    | inr e ↦ rw (e, insert_sorted) (later m (mem-insert_sorted x ys))
  ]
    where
      later :
          Memᴰ z (x ∷ y ∷ ys)
          → (Memᴰ z (x ∷ ys) → Memᴰ z (insert_sorted x ys))
          → Memᴰ z (y ∷ insert_sorted x ys)
      later (Memᴰ.head e) ih = Memᴰ.tail (ih (Memᴰ.head e))
      later (Memᴰ.tail (Memᴰ.head e)) ih = Memᴰ.head e
      later (Memᴰ.tail (Memᴰ.tail n)) ih = Memᴰ.tail (ih (Memᴰ.tail n))

  mem_of_mem-insert_sorted :
      {z : A} (x : A) (ys : List A) → Memᴰ z (insert_sorted x ys) → Memᴰ z (x ∷ ys)
  unfolding insert_sorted
  mem_of_mem-insert_sorted x [] m = m
  mem_of_mem-insert_sorted {z} x (y ∷ ys) m = elim (Bool-cases (before x y)) [
    | inl e ↦ rw (e, insert_sorted) at m
    | inr e ↦ later (rw (e, insert_sorted) at m) (mem_of_mem-insert_sorted x ys)
  ]
    where
      swap : Memᴰ z (x ∷ ys) → Memᴰ z (x ∷ y ∷ ys)
      swap (Memᴰ.head e) = Memᴰ.head e
      swap (Memᴰ.tail n) = Memᴰ.tail (Memᴰ.tail n)

      later :
          Memᴰ z (y ∷ insert_sorted x ys)
          → (Memᴰ z (insert_sorted x ys) → Memᴰ z (x ∷ ys))
          → Memᴰ z (x ∷ y ∷ ys)
      later (Memᴰ.head e) ih = Memᴰ.tail (Memᴰ.head e)
      later (Memᴰ.tail n) ih = swap (ih n)

  mem-sort_onto_left : {z : A} (sorted xs : List A) → Memᴰ z sorted → Memᴰ z (sort_onto sorted xs)
  unfolding sort_onto
  mem-sort_onto_left sorted [] m = m
  mem-sort_onto_left sorted (x ∷ xs) m =
      mem-sort_onto_left (insert_sorted x sorted) xs (mem-insert_sorted x sorted (Memᴰ.tail m))

  mem-sort_onto_right : {z : A} (sorted xs : List A) → Memᴰ z xs → Memᴰ z (sort_onto sorted xs)
  unfolding sort_onto
  mem-sort_onto_right sorted [] m = elim m [ ]
  mem-sort_onto_right sorted (x ∷ xs) (Memᴰ.head e) =
      mem-sort_onto_left (insert_sorted x sorted) xs (mem-insert_sorted x sorted (Memᴰ.head e))
  mem-sort_onto_right sorted (x ∷ xs) (Memᴰ.tail m) =
      mem-sort_onto_right (insert_sorted x sorted) xs m

  mem_of_mem-sort_onto :
      {z : A} (sorted xs : List A) → Memᴰ z (sort_onto sorted xs) → Memᴰ z sorted ⊎ Memᴰ z xs
  unfolding sort_onto
  mem_of_mem-sort_onto sorted [] m = inl m
  mem_of_mem-sort_onto {z} sorted (x ∷ xs) m =
      from (mem_of_mem-sort_onto (insert_sorted x sorted) xs m)
    where
      first : Memᴰ z (x ∷ sorted) → Memᴰ z sorted ⊎ Memᴰ z (x ∷ xs)
      first (Memᴰ.head e) = inr (Memᴰ.head e)
      first (Memᴰ.tail n) = inl n

      from : Memᴰ z (insert_sorted x sorted) ⊎ Memᴰ z xs → Memᴰ z sorted ⊎ Memᴰ z (x ∷ xs)
      from (inl n) = first (mem_of_mem-insert_sorted x sorted n)
      from (inr n) = inr (Memᴰ.tail n)

  pub mem-sort_func : {z : A} (xs : List A) → Memᴰ z xs → Memᴰ z (sort_func xs)
  unfolding sort_func
  mem-sort_func xs m = mem-sort_onto_right [] xs m

  pub mem_of_mem-sort_func : {z : A} (xs : List A) → Memᴰ z (sort_func xs) → Memᴰ z xs
  unfolding sort_func
  mem_of_mem-sort_func xs m = elim (mem_of_mem-sort_onto [] xs m) [ inl n ↦ elim n [ ] | inr n ↦ n ]

  -- What the sort needs of the test: it is a strict order in which "not before" composes.
  module _ (asym : (x y : A) → before x y ≡ true → before y x ≡ false)
      (skip : (x y z : A) → before x y ≡ true → before z y ≡ false → before z x ≡ false) where
    All-skip :
        (x y : A) (ys : List A)
        → before x y ≡ true
        → All (λ z. before z y ≡ false) ys
        → All (λ z. before z x ≡ false) ys
    All-skip x y [] h _ = tt
    All-skip x y (z ∷ ys) h (e, es) = (skip x y z h e, All-skip x y ys h es)

    All-insert_sorted :
        (x y : A) (ys : List A)
        → before x y ≡ false
        → All (λ z. before z y ≡ false) ys
        → All (λ z. before z y ≡ false) (insert_sorted x ys)
    unfolding insert_sorted
    All-insert_sorted x y [] h _ = (h, tt)
    All-insert_sorted x y (z ∷ ys) h (e, es) = elim (Bool-cases (before x z)) [
      | inl b ↦ rw (b, insert_sorted) (h, (e, es))
      | inr b ↦ rw (b, insert_sorted) (e, All-insert_sorted x y ys h es)
    ]

    insert_sorted-IsSorted : (x : A) (ys : List A) → IsSorted ys → IsSorted (insert_sorted x ys)
    unfolding insert_sorted
    insert_sorted-IsSorted x [] _ = (tt, tt)
    insert_sorted-IsSorted x (y ∷ ys) (es, s) = elim (Bool-cases (before x y)) [
      | inl b ↦ rw (b, insert_sorted) ((asym x y b, All-skip x y ys b es), (es, s))
      | inr b ↦ rw (b, insert_sorted) (All-insert_sorted x y ys b es, insert_sorted-IsSorted x ys s)
    ]

    sort_onto-IsSorted : (sorted xs : List A) → IsSorted sorted → IsSorted (sort_onto sorted xs)
    unfolding sort_onto
    sort_onto-IsSorted sorted [] s = s
    sort_onto-IsSorted sorted (x ∷ xs) s =
        sort_onto-IsSorted (insert_sorted x sorted) xs (insert_sorted-IsSorted x sorted s)

    pub sort_func-IsSorted : (xs : List A) → IsSorted (sort_func xs)
    unfolding sort_func
    sort_func-IsSorted xs = sort_onto-IsSorted [] xs tt
