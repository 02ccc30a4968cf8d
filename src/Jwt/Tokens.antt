-- ===== src/Jwt/Tokens.antt =====
-- Which tokens ParseToken accepts, and that it reads what IssueToken wrote.
use avito_test.Prelude.{
  true, ◌≡◌, ◌≢◌, refl, ap, ◌*◌, ◌⊎◌, inl, inr, Option, none, some, String, ℤ, ltb_ℤ, lookup, ◌+◌,
  string_discrete, not-same, ==_iff, arith, Option-cases,
}
use avito_test.Times.{Time, hour}
use avito_test.Types.{Role, role_admin, role_user, Claims, ok, err, panic, invalid_request}
use avito_test.Jwt.{
  JwtLibrary, text, number, MapClaims, Parsed, hs256, unix, key_for, issued_claims, claims_of,
  judge, issue_token, parse_token,
}

-- The documented behaviour of the library that the service relies on. `alg` is the method that a
-- token's header names.
pub record IsJwtLibrary (lib : JwtLibrary) : Type 0 where
  pub alg : String → String
  -- Parse asks the key function about the token's method, and fails where it does.
  pub keyed :
      (keyfunc : String → Option String) (now : Time) (token : String)
      → keyfunc (alg token) ≡ none
      → lib.parse keyfunc now token ≡ none
  -- A token that was signed with the key that the key function answers is valid up to its "exp",
  -- and carries the claims that were signed.
  pub signed :
      (keyfunc : String → Option String) (now : Time) (method secret token : String)
      (claims : MapClaims) (exp : ℤ)
      → lib.signed_string method secret claims ≡ some token
      → keyfunc method ≡ some secret
      → lookup "exp" claims ≡ some (number exp)
      → ltb_ℤ (unix now) exp ≡ true
      → lib.parse keyfunc now token ≡ some (record { valid = true; claims = some claims })

abbrev pub IsRole : Role → Type 0
IsRole role = (role ≡ role_admin) ⊎ (role ≡ role_user)

claims_of_sound :
    (claims : MapClaims) (c : Claims) → claims_of claims ≡ ok c → (c.user_id ≢ "") × IsRole c.role
claims_of_sound claims c e = ground arith

judge_sound : (o : Option Parsed) (c : Claims) → judge o ≡ ok c → (c.user_id ≢ "") × IsRole c.role
judge_sound none c e = cc
judge_sound (some p) c e = elim (Option-cases p.claims) [
  | inl q ↦ ground arith
  | inr (claims, q) ↦ claims_of_sound claims c (ground arith)
]

judge-ne-panic : (o : Option Parsed) → judge o ≢ panic
judge-ne-panic none = cc
judge-ne-panic (some p) = ground arith

-- ParseToken does not panic.
pub parse_token-ne-panic :
    (lib : JwtLibrary) (secret token : String) (now : Time)
    → parse_token lib secret token now ≢ panic
unfolding parse_token
parse_token-ne-panic lib secret token now = judge-ne-panic (lib.parse (key_for secret) now token)

-- With a token library as documented, a token that ParseToken accepts names a user and the role
-- admin or user, and its header names the method HS256.
pub parse_token_sound :
    (lib : JwtLibrary) (secret token : String) (now : Time) (c : Claims) (law : IsJwtLibrary lib)
    → parse_token lib secret token now ≡ ok c
    → (c.user_id ≢ "") × IsRole c.role × (law.alg token ≡ hs256)
unfolding parse_token
parse_token_sound lib secret token now c law e =
    let (named, role) = judge_sound (lib.parse (key_for secret) now token) c e in
    (named, role, method)
  where
    refusal : judge (lib.parse (key_for secret) now token) ≡ err invalid_request → ⊥
    refusal q = cc (e, q)

    method : law.alg token ≡ hs256
    method = elim (string_discrete (law.alg token) hs256) [
      | yes same ↦ same
      | no differs ↦
          let refused =
            law.keyed (key_for secret) now token (rw (not-same (law.alg token) hs256 differs)) in
          absurd (refusal (ap judge refused))
    ]

module _ (user_id role : String) (exp_now iat_now : Time) where
  issued-exp :
      lookup "exp" (issued_claims user_id role exp_now iat_now)
      ≡ some (number (unix (exp_now + 24 * hour)))
  unfolding lookup string_discrete
  issued-exp = refl

  issued-user_id :
      lookup "user_id" (issued_claims user_id role exp_now iat_now) ≡ some (text user_id)
  unfolding lookup string_discrete
  issued-user_id = refl

  issued-role : lookup "role" (issued_claims user_id role exp_now iat_now) ≡ some (text role)
  unfolding lookup string_discrete
  issued-role = refl

  claims_of-issued :
      user_id ≢ ""
      → IsRole role
      → claims_of (issued_claims user_id role exp_now iat_now)
        ≡ ok (record { user_id = user_id; role = role })
  claims_of-issued named known = rw (issued-user_id, issued-role) (ground arith)

-- With a token library as documented, a token that IssueToken made for a user with an id and the
-- role admin or user is accepted under the same secret, up to 24 hours after the first reading
-- of the clock, and yields that user and role.
pub parse_token-issue_token :
    (lib : JwtLibrary) (secret user_id role token : String) (exp_now iat_now now : Time)
    → IsJwtLibrary lib
    → user_id ≢ ""
    → IsRole role
    → issue_token lib secret user_id role exp_now iat_now ≡ some token
    → ltb_ℤ (unix now) (unix (exp_now + 24 * hour)) ≡ true
    → parse_token lib secret token now ≡ ok (record { user_id = user_id; role = role })
unfolding parse_token issue_token
parse_token-issue_token lib secret user_id role token exp_now iat_now now law named known made
      live =
    let claims = issued_claims user_id role exp_now iat_now in
    let read =
      law.signed (key_for secret) now hs256 secret token claims (unix (exp_now + 24 * hour)) made
        (rw ((==_iff hs256 hs256).1 refl)) (issued-exp user_id role exp_now iat_now) live in
    rw read (claims_of-issued user_id role exp_now iat_now named known)
