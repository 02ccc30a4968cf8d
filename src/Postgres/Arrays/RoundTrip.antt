-- ===== src/Postgres/Arrays/RoundTrip.antt =====
-- Scan against what Value has written.
use Prim.Native.String
use mathlib.Core.List.{append-nil, append_assoc, map}
use avito_test.Prelude.{
  ℕ, ◌≡◌, ◌≢◌, refl, ap, ◌∙◌, List, [], ◌∷◌, ◌++◌, String, ℤ, false, some, All, arith,
}
use avito_test.Times.Clock.{codes}
use avito_test.Strconv.{format_int, read_signed, atoi}
use avito_test.Strconv.RoundTrip.{
  codes-append, IsInt, atoi-format_int, format_int-ne_comma, format_int-nonempty,
}
use avito_test.Types.{ok, err, other}
use avito_test.Postgres.Arrays.{
  value_loop, int_array_value, bytes, go_string, split_commas, without_last, read_parts,
  int_array_scan,
}

-- The numbers with a comma in front of each.
abbrev tailed : List ℤ → List ℕ
tailed [] = []
tailed (m ∷ a) = b',' ∷ (codes (format_int m) ++ tailed a)

value_loop-tailed :
    (out : String) (a : List ℤ) → codes (value_loop out false a) ≡ codes out ++ tailed a
unfolding value_loop
value_loop-tailed out [] = rw append-nil
value_loop-tailed out (m ∷ a) =
    value_loop-tailed (String.◌++◌ (String.◌++◌ out ",") (format_int m)) a
    ∙ simp (codes-append, append_assoc)

-- The text between the braces.
abbrev body : ℤ → List ℤ → List ℕ
body n a = codes (format_int n) ++ tailed a

value-body : (n : ℤ) (a : List ℤ) → codes (int_array_value (n ∷ a)) ≡ b'{' ∷ (body n a ++ b'}' ∷ [])
unfolding int_array_value value_loop
value-body n a =
    codes-append (value_loop (String.◌++◌ "{" (format_int n)) false a) "}"
    ∙ simp (value_loop-tailed, codes-append, append_assoc)

without_last-append : (s : List ℕ) (c : ℕ) → without_last (s ++ c ∷ []) ≡ s
unfolding without_last
without_last-append [] c = refl
without_last-append (a ∷ []) c = refl
without_last-append (a ∷ b ∷ s) c = ap (λ (r : List ℕ). a ∷ r) (without_last-append (b ∷ s) c)

split_commas-prefix :
    (xs ys p : List ℕ) (ps : List (List ℕ))
    → All (λ c. c ≢ b',') xs
    → split_commas ys ≡ p ∷ ps
    → split_commas (xs ++ ys) ≡ (xs ++ p) ∷ ps
unfolding split_commas
split_commas-prefix [] ys p ps _ e = e
split_commas-prefix (x ∷ xs) ys p ps (h, hs) e =
    let rest = split_commas-prefix xs ys p ps hs e in ground (arith, rest)

abbrev texts : List ℤ → List (List ℕ)
texts a = map (λ m. codes (format_int m)) a

split_commas-tailed :
    (xs : List ℕ) (a : List ℤ)
    → All (λ c. c ≢ b',') xs
    → split_commas (xs ++ tailed a) ≡ xs ∷ texts a
unfolding split_commas
split_commas-tailed xs [] h = split_commas-prefix xs [] [] [] h refl ∙ rw append-nil
split_commas-tailed xs (m ∷ a) h =
    let rest = split_commas-tailed (codes (format_int m)) a (format_int-ne_comma m) in
    split_commas-prefix xs (tailed (m ∷ a)) [] (texts (m ∷ a)) h (rw (split_commas, rest))
    ∙ rw append-nil

read_parts-texts : (a : List ℤ) → All IsInt a → read_parts (texts a) ≡ ok a
unfolding read_parts
read_parts-texts [] _ = refl
read_parts-texts (m ∷ a) (h, hs) =
    let here : read_signed (codes (format_int m)) ≡ some m = unfold atoi in atoi-format_int m h in
    rw (here, read_parts-texts a hs, read_parts)

scan-braces :
    (s : List ℕ)
    → s ≢ []
    → int_array_scan (bytes (b'{' ∷ (s ++ b'}' ∷ []))) ≡ read_parts (split_commas s)
unfolding int_array_scan
scan-braces [] h = absurd (h refl)
scan-braces (c ∷ []) h = ground arith
scan-braces (c ∷ d ∷ s) h =
    ap (λ r. read_parts (split_commas (c ∷ r))) (without_last-append (d ∷ s) b'}')

append-nonempty : (xs ys : List ℕ) → xs ≢ [] → xs ++ ys ≢ []
append-nonempty [] ys h = absurd (h refl)
append-nonempty (x ∷ xs) ys h = cc

body-nonempty : (n : ℤ) (a : List ℤ) → body n a ≢ []
body-nonempty n a = append-nonempty (codes (format_int n)) (tailed a) (format_int-nonempty n)

value-bytes : (a : List ℤ) → All IsInt a → int_array_scan (bytes (codes (int_array_value a))) ≡ ok a
unfolding int_array_scan int_array_value
value-bytes [] _ = refl
value-bytes (n ∷ a) h =
    ap (λ s. int_array_scan (bytes s)) (value-body n a)
    ∙ scan-braces (body n a) (body-nonempty n a)
    ∙ ap read_parts (split_commas-tailed (codes (format_int n)) a (format_int-ne_comma n))
    ∙ read_parts-texts (n ∷ a) h

-- For every slice of `int`: where the driver hands over, as a `[]byte`, the text that Value
-- returns, Scan stores that slice again; where it hands over the string itself that Value returns,
-- Scan refuses it with the error "unexpected type: string".
pub int_array_scan-value :
    (a : List ℤ)
    → All IsInt a
    → (int_array_scan (bytes (codes (int_array_value a))) ≡ ok a)
      × (int_array_scan (go_string (int_array_value a)) ≡ err (other "unexpected type: string"))
unfolding int_array_scan
int_array_scan-value a h = (value-bytes a h, refl)
