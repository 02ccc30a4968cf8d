-- ===== src/Slots/Clock.antt =====
-- What `ParseHM` reads, against the pattern of `startTime` and `endTime` in api.yaml.
use avito_test.Prelude.{
  ℕ, ◌+◌, ◌<◌, ◌≡◌, ◌⊎◌, ◌↔◌, inl, inr, some, true, false, List, [], ◌∷◌, String, arith, ap,
}
use avito_test.Times.Clock.{
  codes, parse_clock, parse_minute, getnum, skip_byte, below, at_end, ◌>>=◌,
}
use avito_test.Times.Digits.{
  two_digits, >>=-eq-some, fixed_below, free_below, skip_byte_lem, at_end_lem,
}
use avito_test.Slots.{parse_hm}

-- "HH:MM"
abbrev pub long_form : (h m : ℕ) → List ℕ
long_form h m = two_digits h (b':' ∷ two_digits m [])

-- "H:MM"
abbrev pub short_form : (h m : ℕ) → List ℕ
short_form h m = (b'0' + h) ∷ b':' ∷ two_digits m []

-- The texts that `^([01]?[0-9]|2[0-3]):[0-5][0-9]$` takes for the time `h` : `m`.
abbrev pub IsClockText : List ℕ → (h m : ℕ) → Type 0
IsClockText s h m = (h < 24) × (m < 60) × ((s ≡ long_form h m) ⊎ ((h < 10) × (s ≡ short_form h m)))

parse_minute_sound :
    (h : ℕ) (s : List ℕ) (h' m : ℕ)
    → parse_minute h s ≡ some (h', m)
    → (s ≡ two_digits m []) × (m < 60) × (h ≡ h')
unfolding parse_minute
parse_minute_sound h s h' m e =
    let ((k, rest), got, e1) =
      >>=-eq-some (getnum true s >>= below 60) (λ (m, rest). at_end (h, m) rest) e in
    let (ended, same) = at_end_lem (h, k) (h', m) rest e1 in
    let (text, k_lt) = fixed_below 60 s k rest got in
    let same_m = ap (λ (t : ℕ × ℕ). t.1) same in
    (rw (← same_m, ← ended) text, rw (← same_m) k_lt, ap (λ (t : ℕ × ℕ). t.0) same)

parse_clock_sound : (s : List ℕ) (h m : ℕ) → parse_clock s ≡ some (h, m) → IsClockText s h m
unfolding parse_clock
parse_clock_sound s h m e =
    let ((k, s1), got, e1) =
      >>=-eq-some (getnum false s >>= below 24)
        (λ (h, rest). skip_byte b':' rest >>= parse_minute h) e in
    let (s2, colon, e2) = >>=-eq-some (skip_byte b':' s1) (parse_minute k) e1 in
    let (minutes, m_lt, same_h) = parse_minute_sound k s2 h m e2 in
    let at_s1 = skip_byte_lem b':' s1 s2 colon in
    let (text, k_lt) = free_below 24 s k s1 got in
    (
      rw (← same_h) k_lt,
      m_lt,
      rw (← same_h) (elim text [ inl e ↦ inl (cc) | inr (e, k10) ↦ inr (k10, cc) ]),
    )

parse_clock-long_form : (h m : ℕ) → h < 24 → m < 60 → parse_clock (long_form h m) ≡ some (h, m)
unfolding parse_clock
parse_clock-long_form h m p q = ground arith

parse_clock-short_form : (h m : ℕ) → h < 10 → m < 60 → parse_clock (short_form h m) ≡ some (h, m)
unfolding parse_clock
parse_clock-short_form h m p q = ground arith

-- ParseHM reads a text as the time h:m exactly when h is below 24, m is below 60, and the text
-- writes h with two digits, or with one where h is below 10, then a colon and two digits for m.
pub parse_hm_iff : (v : String) (h m : ℕ) → (parse_hm v ≡ some (h, m)) ↔ IsClockText (codes v) h m
unfolding parse_hm
parse_hm_iff v h m = (parse_clock_sound (codes v) h m, complete)
  where
    complete : IsClockText (codes v) h m → parse_hm v ≡ some (h, m)
    complete (p, q, inl e) = rw e (parse_clock-long_form h m p q)
    complete (p, q, inr (r, e)) = rw e (parse_clock-short_form h m r q)
