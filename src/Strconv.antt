-- ===== src/Strconv.antt =====
-- What the service uses of packages `strconv` and `fmt`: integers in decimal.
pub mod RoundTrip
use Prim.Native.Char.{Char, char}
use avito_test.Prelude.{
  ℕ, zero, suc, ◌+◌, ◌-◌, ◌*◌, ◌/◌, ◌%◌, String, ℤ, pos, negsuc, sub_ℕ, wrap64, ltb, leb, eqb, ◌^◌,
  Option, none, some, List, [], ◌∷◌, if◌then◌else◌,
}
use avito_test.Times.Clock.{codes, is_digit, ◌>>=◌}
use avito_test.Times.{Time, day_length, unix_day}

abbrev pub digit_char : ℕ → Char
digit_char zero = char b'0' tt
digit_char (suc zero) = char b'1' tt
digit_char (suc (suc zero)) = char b'2' tt
digit_char (suc (suc (suc zero))) = char b'3' tt
digit_char (suc (suc (suc (suc zero)))) = char b'4' tt
digit_char (suc (suc (suc (suc (suc zero))))) = char b'5' tt
digit_char (suc (suc (suc (suc (suc (suc zero)))))) = char b'6' tt
digit_char (suc (suc (suc (suc (suc (suc (suc zero))))))) = char b'7' tt
digit_char (suc (suc (suc (suc (suc (suc (suc (suc zero)))))))) = char b'8' tt
digit_char _ = char b'9' tt

-- The decimal digits of `n` in front of `tail`; `n` rounds are more than there are digits.
unfoldable pub digits_onto : (fuel n : ℕ) → String → String
digits_onto zero n tail = tail
digits_onto (suc fuel) n tail =
    let longer = String.◌∷◌ (digit_char (n % 10)) tail in
    let rest = digits_onto fuel (n / 10) longer in if ltb n 10 then longer else rest

-- `fmt.Sprintf("%d", n)`
unfoldable pub format_int : ℤ → String
unfolding digits_onto
format_int (pos n) = digits_onto (suc n) n ""
format_int (negsuc n) = String.◌∷◌ (char b'-' tt) (digits_onto (suc (suc n)) (suc n) "")

-- `fmt.Sprintf("%d", t.UnixNano())`
unfoldable pub unix_nano_text : Time → String
unfolding format_int wrap64
unix_nano_text t = format_int (wrap64 (sub_ℕ t (unix_day * day_length)))

-- The digits of `strconv.Atoi`, after the sign.
unfoldable pub read_digits : (acc : ℕ) → List ℕ → Option ℕ
read_digits acc [] = some acc
read_digits acc (c ∷ s) =
    let rest = read_digits (acc * 10 + (c - b'0')) s in if is_digit c then rest else none

abbrev pub at_most : ℕ → ℕ → Option ℕ
at_most bound n = if leb n bound then some n else none

-- Digits for a number of at most `bound`; there is at least one.
unfoldable pub read_magnitude : (bound : ℕ) → List ℕ → Option ℕ
unfolding read_digits
read_magnitude bound [] = none
read_magnitude bound (c ∷ s) = read_digits 0 (c ∷ s) >>= at_most bound

abbrev pub positive : Option ℕ → Option ℤ
positive none = none
positive (some n) = some (pos n)

abbrev pub negated : Option ℕ → Option ℤ
negated none = none
negated (some n) = some (sub_ℕ 0 n)

-- An optional sign, and a magnitude within the range of `int`.
abbrev pub read_signed : List ℕ → Option ℤ
read_signed [] = none
read_signed (c ∷ s) =
    if eqb c b'-'
    then negated (read_magnitude (2 ^ 63) s)
    else if eqb c b'+'
    then positive (read_magnitude (2 ^ 63 - 1) s)
    else positive (read_magnitude (2 ^ 63 - 1) (c ∷ s))

-- `strconv.Atoi(v)`; `none` is an error.
unfoldable pub atoi : String → Option ℤ
unfolding read_magnitude
atoi v = read_signed (codes v)
