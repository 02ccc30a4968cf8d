-- ===== src/Times/Calendar.antt =====
-- `time.Parse` with the layout "2006-01-02", over the bytes of the text: the day that it names.
use avito_test.Prelude.{
  ℕ, zero, suc, ◌+◌, ◌-◌, ◌*◌, ◌/◌, ◌%◌, Bool, true, ◌&&◌, ◌||◌, not, Option, none, some, List, ◌∷◌,
  leb, eqb, if◌then◌else◌,
}
use avito_test.Times.Clock.{is_digit, ◌>>=◌, getnum, skip_byte, at_end}

abbrev pub is_leap : ℕ → Bool
is_leap year = eqb (year % 4) 0 && (not (eqb (year % 100) 0) || eqb (year % 400) 0)

unfoldable pub days_in : (month year : ℕ) → ℕ
days_in month year =
    if eqb month 2
    then if is_leap year then 29 else 28
    else if eqb month 4 || eqb month 6 || eqb month 9 || eqb month 11
    then 30
    else 31

-- Days before the first of the month after `n` months of the year.
unfoldable pub days_before : (n year : ℕ) → ℕ
unfolding days_in
days_before zero year = 0
days_before (suc n) year = days_before n year + days_in (suc n) year

-- The number of the day, counted from the first of January of the year 0.
unfoldable pub day_of : (year month day : ℕ) → ℕ
unfolding days_before
day_of year month day =
    year * 365
    + (year + 3) / 4
    + (year + 399) / 400
    - (year + 99) / 100
    + days_before (month - 1) year
    + (day - 1)

abbrev pub digits4 : (a b c d : ℕ) → ℕ
digits4 a b c d = (a - b'0') * 1000 + (b - b'0') * 100 + (c - b'0') * 10 + (d - b'0')

-- "2006": four digits.
unfoldable pub get_year : List ℕ → Option (ℕ × List ℕ)
get_year (a ∷ b ∷ c ∷ d ∷ s) =
    if is_digit a && is_digit b && is_digit c && is_digit d then some (digits4 a b c d, s) else none
get_year _ = none

abbrev pub month_in_range : ℕ × List ℕ → Option (ℕ × List ℕ)
month_in_range (n, s) = if leb 1 n && leb n 12 then some (n, s) else none

unfoldable pub parse_date : List ℕ → Option ℕ
unfolding getnum skip_byte get_year day_of days_in
parse_date s = do
  (year, s1) ← get_year s
  s2 ← skip_byte b'-' s1
  (month, s3) ← getnum true s2 >>= month_in_range
  s4 ← skip_byte b'-' s3
  (day, s5) ← getnum true s4
  at_end tt s5 >>= λ _.
      if leb 1 day && leb day (days_in month year) then some (day_of year month day) else none
