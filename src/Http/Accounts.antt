-- ===== src/Http/Accounts.antt =====
-- Registration and login: one account for each email, and the password that was given for it.
use avito_test.Prelude.{
  false, ◌≢◌, arith, none, some, String, ◌≡◌, sym, ap, ◌∙◌, ◌⊎◌, inl, inr, lookup, insert,
  lookup-insert_self, Bool-cases, Option-cases, ◌==◌, if◌then◌else◌,
}
use avito_test.Times.{Time}
use avito_test.Types.{User}
use avito_test.Store.{Store}
use avito_test.Cache.{SlotsCache}
use avito_test.Jwt.{JwtLibrary, issue_token}
use avito_test.Jwt.Tokens.{IsRole}
use avito_test.Http.{RegisteredUser, Server, Reply, write_json, write_error, bad_request, user_body}
use avito_test.Http.Users.{
  RegisterRequest, LoginRequest, lacks_field, token_reply, register, login, handle_register,
  handle_login,
}

-- The user that a registration creates.
abbrev pub new_user : Time → String → RegisterRequest → User
new_user now id req = record { id = id; email = req.email; role = req.role; created_at = some now }

-- An email, a password, and one of the two roles.
abbrev pub IsComplete : RegisterRequest → Type 0
IsComplete req = (req.email ≢ "") × (req.password ≢ "") × IsRole req.role

fits-IsComplete : (req : RegisterRequest) → lacks_field req ≡ false → IsComplete req
fits-IsComplete req e = ground arith

IsComplete-fits : (req : RegisterRequest) → IsComplete req → lacks_field req ≡ false
IsComplete-fits req c = ground arith

module _ (S : Store) (C : SlotsCache) (lib : JwtLibrary) (secret : String)
    (to_lower : String → String) where
  abbrev pub Incomplete : RegisterRequest → Server S C → Reply × Server S C → Type 0
  Incomplete req srv r = (¬ IsComplete req) × (r ≡ (bad_request "invalid request", srv))

  abbrev pub Known : RegisterRequest → Server S C → Reply × Server S C → Type 0
  Known req srv r =
      IsComplete req
      × (u : RegisteredUser) × (lookup (to_lower req.email) srv.users ≡ some u)
      × (r ≡ (bad_request "email already exists", srv))

  abbrev pub Registered :
      (now : Time) → (id : String) → RegisterRequest → Server S C → Reply × Server S C → Type 0
  Registered now id req srv r =
      let entry : RegisteredUser = record { user = new_user now id req; password = req.password } in
      IsComplete req
      × (lookup (to_lower req.email) srv.users ≡ none)
      × (r.0 ≡ write_json 201 (user_body (new_user now id req)))
      × (r.1 ≡ record srv { users = insert (to_lower req.email) entry srv.users })

  -- handleRegister on a body that decodes ends in one of three ways: the email or the password is
  -- empty or the role is neither admin nor user, or a user is registered under the lower-case
  -- email, and both are answered by 400 with nothing changed; or it answers 201 with the new user,
  -- and stores the user and the password under the lower-case email.
  pub handle_register-outcome :
      (now : Time) (id : String) (req : RegisterRequest) (srv : Server S C)
      → let r = handle_register S C lib secret to_lower now id (some req) srv in
        Incomplete req srv r ⊎ (Known req srv r ⊎ Registered now id req srv r)
  unfolding handle_register
  handle_register-outcome now id req srv = elim (Bool-cases (lacks_field req)) [
    | inl e ↦ inl (λ c. cc (IsComplete-fits req c, e), rw (e, register))
    | inr e ↦ elim (Option-cases (lookup (to_lower req.email) srv.users)) [
      | inr (u, f) ↦ inr (inl (fits-IsComplete req e, u, f, rw (e, f, register)))
      | inl f ↦ inr (inr (fits-IsComplete req e, f, rw (e, f, register), rw (e, f, register)))
    ]
  ]

  -- The entry that a successful registration leaves.
  registered :
      (now : Time) (id : String) (req : RegisterRequest) (u : User) (srv : Server S C)
      → (handle_register S C lib secret to_lower now id (some req) srv).0
        ≡ write_json 201 (user_body u)
      → (u ≡ new_user now id req)
        × (lookup
              (to_lower req.email)
              (handle_register S C lib secret to_lower now id (some req) srv).1.users
            ≡ some (record { user = new_user now id req; password = req.password }))
  registered now id req u srv done = elim (handle_register-outcome now id req srv) [
    | inl (_, e) ↦ cc (ap (λ (r : Reply × Server S C). r.0) e)
    | inr (inl (_, _, _, e)) ↦ cc (ap (λ (r : Reply × Server S C). r.0) e)
    | inr (inr (_, _, e, stored)) ↦ (
      cc,
      ap (λ (s : Server S C). lookup (to_lower req.email) s.users) stored
          ∙ lookup-insert_self (to_lower req.email) _ srv.users,
    )
  ]

  pair : Reply → Server S C → Reply × Server S C
  pair r srv = (r, srv)

  login_found :
      (exp_now iat_now : Time) (req : LoginRequest) (r : RegisteredUser) (srv : Server S C)
      → lookup (to_lower req.email) srv.users ≡ some r
      → login S C lib secret to_lower exp_now iat_now req srv ≡ (
        if r.password == req.password
            then token_reply (issue_token lib secret r.user.id r.user.role exp_now iat_now)
            else write_error 401 "UNAUTHORIZED" "invalid credentials",
        srv,
      )
  login_found exp_now iat_now req r srv found = elim (Bool-cases (r.password == req.password)) [
    | inl e ↦ rw (found, e, login)
    | inr e ↦ rw (found, e, login)
  ]

  -- After a registration that answered 201 with a user, a login with an email of the same lower-
  -- case form is answered as IssueToken answers for that user's id and role if the password is
  -- the registered one, and by 401 if it is another; either way it changes nothing.
  pub handle_login-register :
      (now : Time) (id email password : String) (req : RegisterRequest) (u : User)
      (exp_now iat_now : Time) (srv : Server S C)
      → (handle_register S C lib secret to_lower now id (some req) srv).0
        ≡ write_json 201 (user_body u)
      → to_lower email ≡ to_lower req.email
      → let srv' = (handle_register S C lib secret to_lower now id (some req) srv).1 in
        handle_login S C lib secret to_lower exp_now iat_now
          (some (record { email = email; password = password }))
          srv'
        ≡ (
          if req.password == password
              then token_reply (issue_token lib secret u.id u.role exp_now iat_now)
              else write_error 401 "UNAUTHORIZED" "invalid credentials",
          srv',
        )
  unfolding handle_login pair
  handle_login-register now id email password req u exp_now iat_now srv done same =
      let srv' = (handle_register S C lib secret to_lower now id (some req) srv).1 in
      let (made, entry) = registered now id req u srv done in
      let found = ap (λ e. lookup e srv'.users) same ∙ entry in
      login_found exp_now iat_now (record { email = email; password = password }) _ srv' found
      ∙ ap
          (λ (x : User).
            pair
              (if req.password == password
                then token_reply (issue_token lib secret x.id x.role exp_now iat_now)
                else write_error 401 "UNAUTHORIZED" "invalid credentials")
              srv')
          (sym made)

  -- After a registration that answered 201 with a user, another one with an email of the same
  -- lower-case form is refused by 400 and changes nothing.
  pub handle_register-again :
      (now later : Time) (id id' : String) (req again : RegisterRequest) (u : User)
      (srv : Server S C)
      → (handle_register S C lib secret to_lower now id (some req) srv).0
        ≡ write_json 201 (user_body u)
      → to_lower again.email ≡ to_lower req.email
      → let srv' = (handle_register S C lib secret to_lower now id (some req) srv).1 in
        (m : String) × (handle_register S C lib secret to_lower later id' (some again) srv'
          ≡ (bad_request m, srv'))
  handle_register-again now later id id' req again u srv done same =
      let (_, entry) = registered now id req u srv done in
      elim (handle_register-outcome later id' again
        (handle_register S C lib secret to_lower now id (some req) srv).1) [
          | inl (_, e) ↦ (_, e)
          | inr (inl (_, _, _, e)) ↦ (_, e)
          | inr (inr (_, free, _, _)) ↦ absurd (cc (free, same, entry))
        ]
