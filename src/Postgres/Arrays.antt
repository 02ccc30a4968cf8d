-- ===== src/Postgres/Arrays.antt =====
-- `intArray` and `intArrayScanner` of internal/app/store_postgres.go: a slice of `int` as the text
-- of an array in PostgreSQL.
pub mod RoundTrip
use Prim.Native.String
use avito_test.Prelude.{
  ℕ, Bool, true, false, Option, none, some, List, [], ◌∷◌, String, ℤ, eqb, if◌then◌else◌,
}
use avito_test.Strconv.{format_int, read_signed}
use avito_test.Types.{Error, Result, ok, err, panic, other}

-- The loop of Value over the rest of the slice, where `first` says that `i` is 0.
unfoldable pub value_loop : (out : String) → (first : Bool) → List ℤ → String
value_loop out first [] = out
value_loop out true (n ∷ a) = value_loop (String.◌++◌ out (format_int n)) false a
value_loop out false (n ∷ a) = value_loop (String.◌++◌ (String.◌++◌ out ",") (format_int n)) false a

-- `intArray.Value`, whose error is always nil.
unfoldable pub int_array_value : List ℤ → String
unfolding value_loop
int_array_value [] = "{}"
int_array_value (n ∷ a) = String.◌++◌ (value_loop "{" true (n ∷ a)) "}"

-- The argument of Scan: a `[]byte`, a Go string, or a value of another type with its name.
pub data Src : Type 0 where
  bytes : List ℕ → Src
  go_string : String → Src
  foreign : (type_name : String) → Src

abbrev pub push : ℕ → List (List ℕ) → List (List ℕ)
push c [] = (c ∷ []) ∷ []
push c (part ∷ parts) = (c ∷ part) ∷ parts

-- `strings.Split(text, ",")`
unfoldable pub split_commas : List ℕ → List (List ℕ)
split_commas [] = [] ∷ []
split_commas (c ∷ s) = let rest = split_commas s in if eqb c b',' then [] ∷ rest else push c rest

-- All but the last byte.
unfoldable pub without_last : List ℕ → List ℕ
without_last [] = []
without_last (c ∷ []) = []
without_last (c ∷ d ∷ s) = c ∷ without_last (d ∷ s)

-- `text[1 : len(text)-1]`; `none` is a panic, since the bounds cross.
abbrev pub inner : List ℕ → Option (List ℕ)
inner [] = none
inner (c ∷ []) = none
inner (c ∷ d ∷ s) = some (without_last (d ∷ s))

-- The loop over the parts; of the text of an error of Atoi, only the end is kept.
unfoldable pub read_parts : List (List ℕ) → Result (List ℤ)
read_parts [] = ok []
read_parts (p ∷ parts) =
    let rest = read_parts parts in
    elim (read_signed p) [
      | none ↦ err (other "invalid syntax")
      | some n ↦ elim rest [ ok res ↦ ok (n ∷ res) | err e ↦ err e | panic ↦ panic ]
    ]

abbrev pub is_empty_array : List ℕ → Bool
is_empty_array (a ∷ b ∷ []) = if eqb a b'{' then eqb b b'}' else false
is_empty_array _ = false

abbrev pub scan_inner : Option (List ℕ) → Result (List ℤ)
scan_inner none = panic
scan_inner (some text) = read_parts (split_commas text)

-- `intArrayScanner.Scan`: what it stores in its target.
unfoldable pub int_array_scan : Src → Result (List ℤ)
unfolding split_commas without_last read_parts
int_array_scan (go_string s) = err (other "unexpected type: string")
int_array_scan (foreign type_name) = err (other (String.◌++◌ "unexpected type: " type_name))
int_array_scan (bytes b) = if is_empty_array b then ok [] else scan_inner (inner b)
