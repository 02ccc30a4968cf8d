-- ===== src/Times/Digits.antt =====
-- What the steps of `time.Parse` have read when they succeed.
use avito_test.Prelude.{
  ℕ, ◌+◌, ◌/◌, ◌%◌, ◌<◌, ◌≡◌, refl, ◌⊎◌, inr, Option, none, some, List, [], ◌∷◌, arith, true, false,
}
use avito_test.Times.Clock.{◌>>=◌, getnum, skip_byte, below, at_end}

-- `n` written with two digits, in front of `rest`.
abbrev pub two_digits : ℕ → List ℕ → List ℕ
two_digits n rest = (b'0' + n / 10) ∷ (b'0' + n % 10) ∷ rest

pub >>=-eq-some :
    {A B : Type 0} (o : Option A) (f : A → Option B) {b : B}
    → (o >>= f) ≡ some b
    → (a : A) × (o ≡ some a) × (f a ≡ some b)
>>=-eq-some none f h = cc
>>=-eq-some (some a) f h = (a, refl, h)

pub getnum_fixed :
    (s : List ℕ) (n : ℕ) (r : List ℕ)
    → getnum true s ≡ some (n, r)
    → (s ≡ two_digits n r) × (n < 100)
unfolding getnum
getnum_fixed [] n r e = cc
getnum_fixed (a ∷ []) n r e = cc
getnum_fixed (a ∷ b ∷ s) n r e = ground arith

pub getnum_free :
    (s : List ℕ) (n : ℕ) (r : List ℕ)
    → getnum false s ≡ some (n, r)
    → (s ≡ two_digits n r) ⊎ ((s ≡ (b'0' + n) ∷ r) × (n < 10))
unfolding getnum
getnum_free [] n r e = cc
getnum_free (a ∷ []) n r e = inr (ground arith)
getnum_free (a ∷ b ∷ s) n r e = ground arith

pub skip_byte_lem : (c : ℕ) (s r : List ℕ) → skip_byte c s ≡ some r → s ≡ c ∷ r
unfolding skip_byte
skip_byte_lem c [] r e = cc
skip_byte_lem c (a ∷ s) r e = ground arith

below_lem :
    (bound : ℕ) (p : ℕ × List ℕ) (n : ℕ) (r : List ℕ)
    → below bound p ≡ some (n, r)
    → (p.0 ≡ n) × (p.1 ≡ r) × (n < bound)
below_lem bound (k, s) n r e = ground arith

pub fixed_below :
    (bound : ℕ) (s : List ℕ) (n : ℕ) (r : List ℕ)
    → (getnum true s >>= below bound) ≡ some (n, r)
    → (s ≡ two_digits n r) × (n < bound)
fixed_below bound s n r e =
    let ((k, s'), got, inside) = >>=-eq-some (getnum true s) (below bound) e in
    let (same_n, same_r, lt) = below_lem bound (k, s') n r inside in
    (rw (← same_n, ← same_r) (getnum_fixed s k s' got).0, lt)

pub free_below :
    (bound : ℕ) (s : List ℕ) (n : ℕ) (r : List ℕ)
    → (getnum false s >>= below bound) ≡ some (n, r)
    → ((s ≡ two_digits n r) ⊎ ((s ≡ (b'0' + n) ∷ r) × (n < 10))) × (n < bound)
free_below bound s n r e =
    let ((k, s'), got, inside) = >>=-eq-some (getnum false s) (below bound) e in
    let (same_n, same_r, lt) = below_lem bound (k, s') n r inside in
    (rw (← same_n, ← same_r) (getnum_free s k s' got), lt)

pub at_end_lem : {A : Type 0} (a b : A) (s : List ℕ) → at_end a s ≡ some b → (s ≡ []) × (a ≡ b)
at_end_lem a b [] e = (refl, cc)
at_end_lem a b (_ ∷ _) e = cc
