-- ===== src/Prelude/Reordering.antt =====
-- `slices.SortFunc` on two orders of the same elements, no two of which tie.
use mathlib.Core.Path.{◌≡◌, refl, sym, ap, ◌∙◌, subst}
use mathlib.Core.Bool.{Bool, true, false}
use mathlib.Core.Logic.{◌⊎◌, inl, inr}
use mathlib.Core.List.{List, [], ◌∷◌, Permᴰ, Memᴰ}
use avito_test.Prelude.Tests.{Bool-cases}
use avito_test.Prelude.Lists.{All}
use avito_test.Prelude.Sorting.{insert_sorted, sort_onto, sort_func}

pub mem-reordered {ℓ} : {A : Type ℓ} {x : A} {l k : List A} → Permᴰ l k → Memᴰ x l → Memᴰ x k
mem-reordered Permᴰ.nil m = m
mem-reordered (Permᴰ.cons e p) (Memᴰ.head h) = Memᴰ.head (h ∙ e)
mem-reordered (Permᴰ.cons e p) (Memᴰ.tail m) = Memᴰ.tail (mem-reordered p m)
mem-reordered (Permᴰ.swap e f) (Memᴰ.head h) = Memᴰ.tail (Memᴰ.head (h ∙ e))
mem-reordered (Permᴰ.swap e f) (Memᴰ.tail (Memᴰ.head h)) = Memᴰ.head (h ∙ f)
mem-reordered (Permᴰ.swap e f) (Memᴰ.tail (Memᴰ.tail m)) = Memᴰ.tail (Memᴰ.tail m)
mem-reordered (Permᴰ.trans p q) m = mem-reordered q (mem-reordered p m)

module _ {ℓ} {A : Type ℓ} (before : A → A → Bool) where
  -- One of the two is before the other.
  abbrev pub Apart : A → A → Type 0
  Apart x y = (before x y ≡ true) ⊎ (before y x ≡ true)

  abbrev pub AllApart : List A → Type ℓ
  AllApart [] = Unit
  AllApart (x ∷ xs) = All (Apart x) xs × AllApart xs

  All-perm : (P : A → Type 0) {l k : List A} → Permᴰ l k → All P l → All P k
  All-perm P Permᴰ.nil h = h
  All-perm P (Permᴰ.cons e p) (h, hs) = (subst P e h, All-perm P p hs)
  All-perm P (Permᴰ.swap e f) (h, (g, hs)) = (subst P f g, (subst P e h, hs))
  All-perm P (Permᴰ.trans p q) h = All-perm P q (All-perm P p h)

  Apart-sym : {x y : A} → Apart x y → Apart y x
  Apart-sym (inl h) = inr h
  Apart-sym (inr h) = inl h

  AllApart-perm : {l k : List A} → Permᴰ l k → AllApart l → AllApart k
  AllApart-perm Permᴰ.nil h = h
  AllApart-perm (Permᴰ.cons {a = a} {l₂ = ys} e p) (h, hs) =
      (subst (λ x. All (Apart x) ys) e (All-perm (Apart a) p h), AllApart-perm p hs)
  AllApart-perm (Permᴰ.swap {b = b} {b' = b'} {l = l} e f) ((g, h), (k, hs)) =
      subst (λ y. AllApart (y ∷ b' ∷ l)) f
        (subst (λ x. AllApart (b ∷ x ∷ l)) e ((Apart-sym g, k), (h, hs)))
  AllApart-perm (Permᴰ.trans p q) h = AllApart-perm q (AllApart-perm p h)

  module _ (asym : (x y : A) → before x y ≡ true → before y x ≡ false)
      (trans : (x y z : A) → before x y ≡ true → before y z ≡ true → before x z ≡ true) where
    swap_before :
        (x y : A) (s : List A)
        → before x y ≡ true
        → insert_sorted before x (insert_sorted before y s)
          ≡ insert_sorted before y (insert_sorted before x s)
    unfolding insert_sorted
    swap_before x y [] h = rw (h, asym x y h) refl
    swap_before x y (z ∷ s) h = elim (Bool-cases (before y z)) [
      | inl below ↦ rw (below, trans x y z h below, h, asym x y h, below) refl
      | inr above ↦ elim (Bool-cases (before x z)) [
        | inl below ↦ rw (above, below, asym x y h, above) refl
        | inr over ↦ rw (above, over, above, swap_before x y s h) refl
      ]
    ]

    insert_sorted-swap :
        (x y : A) (s : List A)
        → Apart x y
        → insert_sorted before x (insert_sorted before y s)
          ≡ insert_sorted before y (insert_sorted before x s)
    insert_sorted-swap x y s (inl h) = swap_before x y s h
    insert_sorted-swap x y s (inr h) = sym (swap_before y x s h)

    sort_onto-same :
        {l k : List A}
        → Permᴰ l k
        → AllApart l
        → (s : List A) → sort_onto before s l ≡ sort_onto before s k
    unfolding sort_onto
    sort_onto-same Permᴰ.nil h s = refl
    sort_onto-same (Permᴰ.cons {a = x} {l₂ = ys} e p) (h, hs) s =
        sort_onto-same p hs (insert_sorted before x s)
        ∙ ap (λ a. sort_onto before (insert_sorted before a s) ys) e
    sort_onto-same (Permᴰ.swap {a = a} {b = b} {a' = a'} {l = l} e f) ((g, h), _) s =
        ap (λ t. sort_onto before t l) (sym (insert_sorted-swap a b s g))
        ∙ ap (λ c. sort_onto before (insert_sorted before a (insert_sorted before c s)) l) f
        ∙ ap (λ c. sort_onto before (insert_sorted before c (insert_sorted before a' s)) l) e
    sort_onto-same (Permᴰ.trans p q) h s =
        sort_onto-same p h s ∙ sort_onto-same q (AllApart-perm p h) s

    -- The order in which distinct elements come makes no difference to the sorted list.
    pub sort_func-same :
        {l k : List A} → Permᴰ l k → AllApart l → sort_func before l ≡ sort_func before k
    unfolding sort_func
    sort_func-same p h = sort_onto-same p h []
