-- ===== src/Examples/Tokens.antt =====
-- The theorems on tokens at a token library that signs one set of claims, for one key.
use avito_test.Prelude.{
  ◌+◌, ◌*◌, ◌≡◌, ◌≢◌, refl, inr, none, some, [], ◌∷◌, String, true, false, ◌&&◌, Bool, Option,
  string_discrete, lookup, arith, ℤ, pos, negsuc, eqb_ℤ, ltb_ℤ, ◌==◌, if◌then◌else◌, ==_refl,
}
use avito_test.Times.{Time, date, hour}
use avito_test.Types.{ok}
use avito_test.Jwt.{
  JwtLibrary, ClaimValue, text, number, other, MapClaims, Parsed, hs256, unix, issued_claims,
  issue_token, parse_token,
}
use avito_test.Jwt.Tokens.{IsJwtLibrary, IsRole, parse_token_sound, parse_token-issue_token}
use avito_test.Examples.Fixture.{monday}

-- 08:00 on the Monday of the examples.
abbrev pub morning : Time
morning = date monday 8 0

abbrev sample : MapClaims
sample = issued_claims "ann" "user" morning morning

abbrev same_value : ClaimValue → ClaimValue → Bool
same_value (text s) (text t) = s == t
same_value (number m) (number n) = eqb_ℤ m n
same_value _ _ = false

pub same_claims : MapClaims → MapClaims → Bool
same_claims [] [] = true
same_claims ((j, v) ∷ m) ((k, w) ∷ n) = j == k && same_value v w && same_claims m n
same_claims _ _ = false

eqb_ℤ_sound : (m n : ℤ) → eqb_ℤ m n ≡ true → m ≡ n
eqb_ℤ_sound (pos m) (pos n) e = ground arith
eqb_ℤ_sound (pos m) (negsuc n) e = ground arith
eqb_ℤ_sound (negsuc m) (pos n) e = ground arith
eqb_ℤ_sound (negsuc m) (negsuc n) e = ground arith

same_value_sound : (v w : ClaimValue) → same_value v w ≡ true → v ≡ w
same_value_sound (text s) (text t) e = ground arith
same_value_sound (text s) (number n) e = cc
same_value_sound (text s) other e = cc
same_value_sound (number m) (text t) e = cc
same_value_sound (number m) (number n) e = ground (arith, eqb_ℤ_sound m n)
same_value_sound (number m) other e = cc
same_value_sound other w e = cc

same_claims_sound : (m n : MapClaims) → same_claims m n ≡ true → m ≡ n
unfolding same_claims
same_claims_sound [] [] e = refl
same_claims_sound [] (x ∷ n) e = cc
same_claims_sound (x ∷ m) [] e = cc
same_claims_sound ((j, v) ∷ m) ((k, w) ∷ n) e =
    ground (arith, same_value_sound v w, same_claims_sound m n)

abbrev exp : ℤ
exp = unix (morning + 24 * hour)

abbrev read_key : Option String → Time → String → Option Parsed
read_key none now token = none
read_key (some key) now token =
    if token == "token" && key == "key" && ltb_ℤ (unix now) exp
    then some (record { valid = true; claims = some sample })
    else none

abbrev pub library : JwtLibrary
library = record {
  signed_string = λ alg secret claims.
      if alg == hs256 && secret == "key" && same_claims claims sample then some "token" else none;
  parse = λ keyfunc now token. read_key (keyfunc hs256) now token;
}

-- What the library has been asked to sign when it returns a token.
signed_only :
    (method secret token : String) (claims : MapClaims)
    → library.signed_string method secret claims ≡ some token
    → (method ≡ hs256) × (secret ≡ "key") × (claims ≡ sample) × (token ≡ "token")
signed_only method secret token claims made = ground (arith, same_claims_sound claims sample)

sample-exp : lookup "exp" sample ≡ some (number exp)
unfolding lookup string_discrete
sample-exp = refl

library-IsJwtLibrary : IsJwtLibrary library
library-IsJwtLibrary = record {
  alg = λ token. hs256;
  keyed = λ keyfunc now token e. rw e;
  signed = λ keyfunc now method secret token claims e made key found live.
      let (alg, same_key, same, is_token) = signed_only method secret token claims made in
      let end : e ≡ exp = cc (sample-exp, found, same) in
      let asked : keyfunc hs256 ≡ some "key" = cc (alg, key, same_key) in
      rw (asked, is_token, same, read_key)
        (rw (==_refl "token", ==_refl "key", rw end at live) refl);
}

issued : issue_token library "key" "ann" "user" morning morning ≡ some "token"
unfolding issue_token same_claims string_discrete
issued = refl

-- ParseToken on the token of the examples, by evaluation.
pub parse_token-user :
    parse_token library "key" "token" morning ≡ ok (record { user_id = "ann"; role = "user" })
unfolding parse_token lookup string_discrete
parse_token-user = refl

ann_named : ◌≢◌ {A = String} "ann" ""
ann_named = cc

parse_token-issue_token_example :
    parse_token library "key" "token" morning ≡ ok (record { user_id = "ann"; role = "user" })
parse_token-issue_token_example =
    parse_token-issue_token library "key" "ann" "user" "token" morning morning morning
      library-IsJwtLibrary ann_named (inr refl) issued refl

parse_token_sound_example :
    (◌≢◌ {A = String} "ann" "") × IsRole "user" × (library-IsJwtLibrary.alg "token" ≡ hs256)
parse_token_sound_example =
    parse_token_sound library "key" "token" morning (record { user_id = "ann"; role = "user" })
      library-IsJwtLibrary parse_token-user
