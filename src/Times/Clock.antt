-- ===== src/Times/Clock.antt =====
-- `time.Parse` with the layout "15:04", over the bytes of the text.
use Prim.Native.Char.{code}
use avito_test.Prelude.{
  ℕ, ◌+◌, ◌-◌, ◌*◌, Bool, true, false, ◌&&◌, Option, none, some, List, [], ◌∷◌, String, ltb, leb,
  eqb, if◌then◌else◌,
}

abbrev pub codes : String → List ℕ
codes String.[] = []
codes (String.◌∷◌ c s) = code c ∷ codes s

abbrev pub is_digit : ℕ → Bool
is_digit c = leb b'0' c && leb c b'9'

infixl 5 ◌>>=◌
abbrev pub ◌>>=◌ : {A B : Type 0} → Option A → (A → Option B) → Option B
none >>= f = none
some a >>= f = f a

-- `getnum(s, fixed)` of package time: two digits, or also one where `fixed` is false.
unfoldable pub getnum : Bool → List ℕ → Option (ℕ × List ℕ)
getnum fixed [] = none
getnum true (a ∷ []) = none
getnum false (a ∷ []) = if is_digit a then some (a - b'0', []) else none
getnum true (a ∷ b ∷ s) =
    if is_digit a && is_digit b then some ((a - b'0') * 10 + (b - b'0'), s) else none
getnum false (a ∷ b ∷ s) =
    if is_digit a
    then if is_digit b then some ((a - b'0') * 10 + (b - b'0'), s) else some (a - b'0', b ∷ s)
    else none

-- A literal byte of the layout.
unfoldable pub skip_byte : ℕ → List ℕ → Option (List ℕ)
skip_byte c [] = none
skip_byte c (a ∷ s) = if eqb a c then some s else none

-- A number of the layout, out of range at `bound`.
abbrev pub below : ℕ → ℕ × List ℕ → Option (ℕ × List ℕ)
below bound (n, s) = if ltb n bound then some (n, s) else none

-- The whole text must be read.
abbrev pub at_end {ℓ} : {A : Type ℓ} → A → List ℕ → Option A
at_end a [] = some a
at_end a (_ ∷ _) = none

-- The steps of the layout after the hour, and after the colon.
unfoldable pub parse_minute : ℕ → List ℕ → Option (ℕ × ℕ)
unfolding getnum
parse_minute h s = do (m, rest) ← getnum true s >>= below 60; at_end (h, m) rest

unfoldable pub parse_clock : List ℕ → Option (ℕ × ℕ)
unfolding getnum skip_byte parse_minute
parse_clock s = do (h, rest) ← getnum false s >>= below 24; skip_byte b':' rest >>= parse_minute h
