-- ===== src/Http/Users.antt =====
-- The handlers of /register, /login and /dummyLogin in internal/app/http.go.
use avito_test.Prelude.{
  Bool, true, not, ◌&&◌, ◌||◌, Option, none, some, String, lookup, insert, ◌==◌, if◌then◌else◌,
}
use avito_test.Times.{Time}
use avito_test.Types.{User, role_admin, role_user}
use avito_test.Store.{Store}
use avito_test.Cache.{SlotsCache}
use avito_test.Jwt.{JwtLibrary, issue_token}
use avito_test.Http.{
  RegisteredUser, Reply, write_json, write_error, bad_request, internal_error, user_body,
  token_body, Handler, decode_json,
}

pub record RegisterRequest : Type 0 where
  pub email : String
  pub password : String
  pub role : String

pub record LoginRequest : Type 0 where
  pub email : String
  pub password : String

abbrev pub admin_id : String
admin_id = "11111111-1111-1111-1111-111111111111"

abbrev pub user_id : String
user_id = "22222222-2222-2222-2222-222222222222"

-- The first check of handleRegister.
abbrev pub lacks_field : RegisterRequest → Bool
lacks_field req =
    req.email == ""
    || req.password == ""
    || not (req.role == role_admin) && not (req.role == role_user)

-- What a handler writes once it has asked for a token.
abbrev pub token_reply : Option String → Reply
token_reply none = internal_error
token_reply (some token) = write_json 200 (token_body token)

-- `!exists || user.Password != req.Password`
abbrev pub wrong_password : Option RegisteredUser → String → Bool
wrong_password none password = true
wrong_password (some u) password = not (u.password == password)

-- `strings.ToLower` is a parameter: nothing depends on which letters it maps.
module _ (S : Store) (C : SlotsCache) (lib : JwtLibrary) (secret : String)
    (to_lower : String → String) where
  -- The new user and its entry; `now` is what nowFn reads and `id` the UUID.
  abbrev pub add_user : (now : Time) → (id : String) → RegisterRequest → Handler S C
  add_user now id req srv =
      let u : User = record {
        id = id;
        email = req.email;
        role = req.role;
        created_at = some now;
      } in
      (
        write_json 201 (user_body u),
        record srv {
          users =
              insert (to_lower req.email) (record { user = u; password = req.password }) srv.users;
        },
      )

  abbrev pub register : (now : Time) → (id : String) → RegisterRequest → Handler S C
  register now id req srv =
      if lacks_field req
      then (bad_request "invalid request", srv)
      else elim (lookup (to_lower req.email) srv.users) [
        | some _ ↦ (bad_request "email already exists", srv)
        | none ↦ add_user now id req srv
      ]

  unfoldable pub handle_register :
      (now : Time) → (id : String) → Option RegisterRequest → Handler S C
  handle_register now id body = decode_json S C body (register now id)

  -- The rest of handleLogin on the entry that it has found; the password has been checked.
  abbrev pub login_token : (exp_now iat_now : Time) → Option RegisteredUser → Reply
  login_token exp_now iat_now none = internal_error
  login_token exp_now iat_now (some u) =
      token_reply (issue_token lib secret u.user.id u.user.role exp_now iat_now)

  abbrev pub login : (exp_now iat_now : Time) → LoginRequest → Handler S C
  login exp_now iat_now req srv =
      let entry = lookup (to_lower req.email) srv.users in
      if wrong_password entry req.password
      then (write_error 401 "UNAUTHORIZED" "invalid credentials", srv)
      else (login_token exp_now iat_now entry, srv)

  unfoldable pub handle_login : (exp_now iat_now : Time) → Option LoginRequest → Handler S C
  handle_login exp_now iat_now body = decode_json S C body (login exp_now iat_now)

  abbrev pub dummy_login : (exp_now iat_now : Time) → (role : String) → Handler S C
  dummy_login exp_now iat_now role srv =
      if role == role_admin
      then (token_reply (issue_token lib secret admin_id role exp_now iat_now), srv)
      else if role == role_user
      then (token_reply (issue_token lib secret user_id role exp_now iat_now), srv)
      else (bad_request "invalid role", srv)

  unfoldable pub handle_dummy_login : (exp_now iat_now : Time) → Option String → Handler S C
  handle_dummy_login exp_now iat_now body = decode_json S C body (dummy_login exp_now iat_now)
