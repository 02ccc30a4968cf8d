-- ===== src/Jwt.antt =====
-- internal/app/jwt.go: issuing and reading tokens. The library github.com/golang-jwt/jwt is a
-- parameter.
pub mod Tokens
use avito_test.Prelude.{
  ℕ, ◌+◌, ◌*◌, ◌/◌, Bool, true, false, not, ◌&&◌, ◌||◌, Option, none, some, List, [], ◌∷◌, String,
  ℤ, sub_ℕ, Dict, lookup, ◌==◌, if◌then◌else◌,
}
use avito_test.Times.{Time, hour, second, unix_day}
use avito_test.Types.{Role, role_admin, role_user, Claims, Result, ok, err, invalid_request}

-- The values of `jwt.MapClaims` that the service writes; `other` is a value of another type.
pub data ClaimValue : Type 0 where
  text : String → ClaimValue
  number : ℤ → ClaimValue
  other : ClaimValue

abbrev pub MapClaims : Type 0
MapClaims = Dict ClaimValue

-- A parsed token: its `Valid` field, and its claims where they are of type MapClaims.
pub record Parsed : Type 0 where
  pub valid : Bool
  pub claims : Option MapClaims

-- What the service calls of the library: `NewWithClaims(method, claims).SignedString(secret)`, by
-- the method's name, and `Parse(token, keyfunc)` at a time, where the key function sees the name of
-- the token's method.
pub record JwtLibrary : Type 0 where
  pub signed_string : (alg secret : String) → MapClaims → Option String
  pub parse : (keyfunc : String → Option String) → Time → String → Option Parsed

abbrev pub hs256 : String
hs256 = "HS256"

-- `t.Unix()`
abbrev pub unix : Time → ℤ
unix t = sub_ℕ (t / second) (unix_day * 86400)

-- The claims of IssueToken, at the two readings of the clock.
abbrev pub issued_claims : (user_id : String) → Role → (exp_now iat_now : Time) → MapClaims
issued_claims user_id role exp_now iat_now =
    ("user_id", text user_id)
    ∷ ("role", text role)
    ∷ ("exp", number (unix (exp_now + 24 * hour)))
    ∷ ("iat", number (unix iat_now))
    ∷ []

-- `s, _ := claims[key].(string)`
abbrev pub text_of : Option ClaimValue → String
text_of (some (text s)) = s
text_of (some (number _)) = ""
text_of (some other) = ""
text_of none = ""

-- The end of ParseToken, once the library has accepted the token.
abbrev pub claims_of : MapClaims → Result Claims
claims_of claims =
    let user_id = text_of (lookup "user_id" claims) in
    let role = text_of (lookup "role" claims) in
    if user_id == "" || not (role == role_admin) && not (role == role_user)
    then err invalid_request
    else ok (record { user_id = user_id; role = role })

abbrev pub claims_or_error : Option MapClaims → Result Claims
claims_or_error none = err invalid_request
claims_or_error (some claims) = claims_of claims

-- The key function of ParseToken; `none` is its error.
abbrev pub key_for : (secret alg : String) → Option String
key_for secret alg = if not (alg == hs256) then none else some secret

-- ParseToken after the library's Parse.
abbrev pub judge : Option Parsed → Result Claims
judge none = err invalid_request
judge (some parsed) =
    if not parsed.valid then err invalid_request else claims_or_error parsed.claims

module _ (lib : JwtLibrary) (secret : String) where
  -- `none` is an error.
  unfoldable pub issue_token : String → Role → (exp_now iat_now : Time) → Option String
  issue_token user_id role exp_now iat_now =
      lib.signed_string hs256 secret (issued_claims user_id role exp_now iat_now)

  unfoldable pub parse_token : String → (now : Time) → Result Claims
  parse_token token now = judge (lib.parse (key_for secret) now token)
