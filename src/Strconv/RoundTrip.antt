-- ===== src/Strconv/RoundTrip.antt =====
-- `strconv.Atoi` reads back what `fmt.Sprintf("%d", n)` has written.
use Prim.Native.Char.{code}
use Prim.Native.String
use Prim.Native.String.append
use avito_test.Prelude.{
  ℕ, zero, suc, ◌+◌, ◌-◌, ◌*◌, ◌/◌, ◌%◌, ◌^◌, ◌≤◌, ◌<◌, ◌≡◌, ◌≢◌, refl, ap, ◌∙◌, String, ℤ, pos,
  negsuc, some, List, [], ◌∷◌, ◌++◌, arith, All, inl, inr, Bool-cases, ltb,
}
use avito_test.Times.Clock.{codes}
use avito_test.Strconv.{
  digit_char, digits_onto, format_int, read_digits, read_magnitude, positive, negated, read_signed,
  atoi,
}

pub codes-append : (s t : String) → codes (String.◌++◌ s t) ≡ codes s ++ codes t
codes-append String.[] t = rw append.nil
codes-append (String.◌∷◌ c s) t =
    rw append.cons (ap (λ (r : List ℕ). code c ∷ r) (codes-append s t))

code-digit_char : (d : ℕ) → d < 10 → code (digit_char d) ≡ b'0' + d
code-digit_char zero h = refl
code-digit_char (suc zero) h = refl
code-digit_char (suc (suc zero)) h = refl
code-digit_char (suc (suc (suc zero))) h = refl
code-digit_char (suc (suc (suc (suc zero)))) h = refl
code-digit_char (suc (suc (suc (suc (suc zero))))) h = refl
code-digit_char (suc (suc (suc (suc (suc (suc zero)))))) h = refl
code-digit_char (suc (suc (suc (suc (suc (suc (suc zero))))))) h = refl
code-digit_char (suc (suc (suc (suc (suc (suc (suc (suc zero)))))))) h = refl
code-digit_char (suc (suc (suc (suc (suc (suc (suc (suc (suc zero))))))))) h = refl
code-digit_char (suc (suc (suc (suc (suc (suc (suc (suc (suc (suc n)))))))))) h =
    absurd (omega arith)

abbrev pub IsDigit : ℕ → Type 0
IsDigit c = (b'0' ≤ c) × (c ≤ b'9')

read_digits-cons :
    (acc c : ℕ) (s : List ℕ)
    → IsDigit c
    → read_digits acc (c ∷ s) ≡ read_digits (acc * 10 + (c - b'0')) s
unfolding read_digits
read_digits-cons acc c s h = ground arith

read_digits-digit_char :
    (acc d : ℕ) (s : List ℕ)
    → d < 10
    → read_digits acc (code (digit_char d) ∷ s) ≡ read_digits (acc * 10 + d) s
read_digits-digit_char acc d s h =
    let e = code-digit_char d h in
    let same : acc * 10 + (code (digit_char d) - b'0') ≡ acc * 10 + d = omega (arith, e) in
    read_digits-cons acc (code (digit_char d)) s (omega (arith, e), omega (arith, e))
    ∙ ap (λ n. read_digits n s) same

read_digits-digits_onto :
    (fuel n : ℕ) (tail : String)
    → n < fuel
    → read_digits 0 (codes (digits_onto fuel n tail)) ≡ read_digits n (codes tail)
unfolding digits_onto
read_digits-digits_onto zero n tail h = elim h [ ]
read_digits-digits_onto (suc fuel) n tail h =
    let longer = String.◌∷◌ (digit_char (n % 10)) tail in
    elim (Bool-cases (ltb n 10)) [
      | inl small ↦
          rw (small, digits_onto)
            (read_digits-digit_char 0 (n % 10) (codes tail) (omega arith)
              ∙ ap (λ k. read_digits k (codes tail)) (ground arith))
      | inr large ↦
          rw (large, digits_onto)
            (read_digits-digits_onto fuel (n / 10) longer (ground arith)
              ∙ read_digits-digit_char (n / 10) (n % 10) (codes tail) (omega arith)
              ∙ ap (λ k. read_digits k (codes tail)) (omega arith))
    ]

-- What is written in front of digits is digits, and at least one.
digits_onto-All :
    (fuel n : ℕ) (tail : String)
    → All IsDigit (codes tail)
    → All IsDigit (codes (digits_onto fuel n tail))
unfolding digits_onto
digits_onto-All zero n tail h = h
digits_onto-All (suc fuel) n tail h =
    let longer = String.◌∷◌ (digit_char (n % 10)) tail in
    let d = code-digit_char (n % 10) (omega arith) in
    let all : All IsDigit (codes longer) = ((omega (arith, d), omega (arith, d)), h) in
    elim (Bool-cases (ltb n 10)) [
      | inl small ↦ rw (small, digits_onto) all
      | inr large ↦ rw (large, digits_onto) (digits_onto-All fuel (n / 10) longer all)
    ]

digits_onto-nonempty : (fuel n : ℕ) (tail : String) → codes (digits_onto (suc fuel) n tail) ≢ []
unfolding digits_onto
digits_onto-nonempty zero n tail = ground arith
digits_onto-nonempty (suc fuel) n tail = elim (Bool-cases (ltb n 10)) [
  | inl small ↦ rw (small, digits_onto) (cc)
  | inr large ↦ rw (large, digits_onto) (digits_onto-nonempty fuel (n / 10) _)
]

read_magnitude-digits :
    (bound n : ℕ) (s : List ℕ)
    → s ≢ []
    → read_digits 0 s ≡ some n
    → n ≤ bound
    → read_magnitude bound s ≡ some n
unfolding read_magnitude
read_magnitude-digits bound n [] h e le = absurd (h refl)
read_magnitude-digits bound n (c ∷ s) h e le = rw e (ground arith)

-- The digits of `n`.
abbrev digits : ℕ → List ℕ
digits n = codes (digits_onto (suc n) n "")

read_digits-digits : (n : ℕ) → read_digits 0 (digits n) ≡ some n
unfolding read_digits
read_digits-digits n = read_digits-digits_onto (suc n) n "" (omega arith)

unsigned :
    (s : List ℕ) → s ≢ [] → All IsDigit s → read_signed s ≡ positive (read_magnitude (2 ^ 63 - 1) s)
unsigned [] h d = absurd (h refl)
unsigned (c ∷ s) h d = ground arith

-- The values of `int`.
abbrev pub IsInt : ℤ → Type 0
IsInt (pos n) = n < 2 ^ 63
IsInt (negsuc n) = n < 2 ^ 63

-- Every value of `int` that is written by the verb %d is read back by Atoi.
pub atoi-format_int : (z : ℤ) → IsInt z → atoi (format_int z) ≡ some z
unfolding atoi format_int
atoi-format_int (pos n) h =
    let here =
      read_magnitude-digits (2 ^ 63 - 1) n (digits n) (digits_onto-nonempty n n "")
        (read_digits-digits n) (omega arith) in
    unsigned (digits n) (digits_onto-nonempty n n "") (digits_onto-All (suc n) n "" tt)
    ∙ ap positive here
atoi-format_int (negsuc n) h =
    let here =
      read_magnitude-digits (2 ^ 63) (suc n) (digits (suc n))
        (digits_onto-nonempty (suc n) (suc n) "") (read_digits-digits (suc n)) (omega arith) in
    ap negated here ∙ ground arith

All-map {ℓ κ} :
    {P : ℕ → Type ℓ} {Q : ℕ → Type κ} (s : List ℕ) → ((c : ℕ) → P c → Q c) → All P s → All Q s
All-map [] f h = tt
All-map (c ∷ s) f (h, hs) = (f c h, All-map s f hs)

pub format_int-ne_comma : (z : ℤ) → All (λ c. c ≢ b',') (codes (format_int z))
unfolding format_int
format_int-ne_comma (pos n) =
    All-map (digits n) (λ c d. ground arith) (digits_onto-All (suc n) n "" tt)
format_int-ne_comma (negsuc n) = (
  ground arith,
  All-map (digits (suc n)) (λ c d. ground arith) (digits_onto-All (suc (suc n)) (suc n) "" tt),
)

pub format_int-nonempty : (z : ℤ) → codes (format_int z) ≢ []
unfolding format_int
format_int-nonempty (pos n) = digits_onto-nonempty n n ""
format_int-nonempty (negsuc n) = cc
