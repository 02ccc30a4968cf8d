-- ===== src/Http/Service.antt =====
-- The whole service over any Store that keeps its contract: one request, and requests in turn.
use avito_test.Prelude.{
  ◌≡◌, ◌⊎◌, refl, Option, none, some, List, [], ◌∷◌, String, ◌==◌, ==_iff, Bool-cases, inl, inr,
  Option-cases, lookup,
}
use avito_test.Types.{Role, role_admin, role_user, Claims, Error, Result, ok, err, panic}
use avito_test.Store.{Store}
use avito_test.Cache.{SlotsCache}
use avito_test.Jwt.{JwtLibrary, parse_token}
use avito_test.Contract.{Form, View, IsBookingStore}
use avito_test.Contract.Effects.{Evolves}
use avito_test.Http.{Server, Handler}
use avito_test.Http.Users.{
  RegisterRequest, LoginRequest, lacks_field, wrong_password, handle_register, login, handle_login,
  handle_dummy_login,
}
use avito_test.Http.Router.{
  Protected, list_rooms, create_room, create_schedule, list_slots, create_booking, list_bookings,
  my_bookings, cancel_booking, Call, info, guarded, Reading, strip_prefix, require_role, route,
  authorize, auth_middleware, serve,
}
use avito_test.Http.Effects.{Safe, stays, guard-Safe}
use avito_test.Http.Effects.Rooms.{
  handle_list_rooms-Safe, handle_create_room-Safe, handle_create_schedule-Safe,
  handle_list_slots-Safe,
}
use avito_test.Http.Effects.Bookings.{
  handle_list_bookings-Safe, handle_my_bookings-Safe, handle_create_booking-Safe,
  handle_cancel_booking-Safe,
}

pub Result-cases :
    {A : Type 0} (r : Result A)
    → ((a : A) × (r ≡ ok a)) ⊎ (((e : Error) × (r ≡ err e)) ⊎ (r ≡ panic))
Result-cases (ok a) = inl (a, refl)
Result-cases (err e) = inr (inl (e, refl))
Result-cases panic = inr (inr refl)

module _ (S : Store) (C : SlotsCache) {form : Form} {Inv : S.State → Type 0} {view : S.State → View}
    (spec : IsBookingStore form S Inv view) (May : String → Type 0) where
  require_role-Safe :
      (role : Role) (c : Claims) (next : Handler S C)
      → (c.role ≡ role → Safe S C spec May next)
      → Safe S C spec May (require_role S C role (some c) next)
  require_role-Safe role c next safe srv = elim (Bool-cases (c.role == role)) [
    | inl same ↦ rw same (safe ((==_iff c.role role).0 same) srv)
    | inr differs ↦ rw differs (stays S C spec May srv.store)
  ]

  -- The operations of users are made for the user of the token.
  route-Safe :
      (r : Reading) (c : Claims) (call : Protected)
      → (c.role ≡ role_user → May c.user_id × May (form.id c.user_id))
      → Safe S C spec May (route S C r (some c) call)
  unfolding route
  route-Safe r c list_rooms may = handle_list_rooms-Safe S C spec May
  route-Safe r c (create_room body) may =
      require_role-Safe role_admin c _ (λ _. handle_create_room-Safe S C spec May body)
  route-Safe r c (create_schedule room_id body) may =
      require_role-Safe role_admin c _
        (λ _. handle_create_schedule-Safe S C spec May room_id r.now body)
  route-Safe r c (list_slots room_id date) may = handle_list_slots-Safe S C spec May room_id date
  route-Safe r c (create_booking body) may =
      require_role-Safe role_user c _
        (λ user. handle_create_booking-Safe S C spec May c body (may user).1)
  route-Safe r c (list_bookings page size) may =
      require_role-Safe role_admin c _ (λ _. handle_list_bookings-Safe S C spec May page size)
  route-Safe r c my_bookings may =
      require_role-Safe role_user c _ (λ _. handle_my_bookings-Safe S C spec May c r.now)
  route-Safe r c (cancel_booking booking_id) may =
      require_role-Safe role_user c _
        (λ user. handle_cancel_booking-Safe S C spec May c booking_id (may user).0)

  module _ (lib : JwtLibrary) (secret : String) (to_lower : String → String) where
    register-Safe :
        (r : Reading) (body : Option RegisterRequest)
        → Safe S C spec May (handle_register S C lib secret to_lower r.now r.id body)
    unfolding handle_register
    register-Safe r none = λ srv. stays S C spec May srv.store
    register-Safe r (some req) = guard-Safe S C spec May (lacks_field req) _ _ (λ srv.
        elim (Option-cases (lookup (to_lower req.email) srv.users)) [
          | inl new ↦ rw new (stays S C spec May srv.store)
          | inr (u, known) ↦ rw known (stays S C spec May srv.store)
        ])

    login-Safe :
        (r : Reading) (body : Option LoginRequest)
        → Safe S C spec May (handle_login S C lib secret to_lower r.exp_now r.iat_now body)
    unfolding handle_login
    login-Safe r none = λ srv. stays S C spec May srv.store
    login-Safe r (some req) = λ srv.
        elim (Bool-cases (wrong_password (lookup (to_lower req.email) srv.users) req.password)) [
          | inl wrong ↦ rw (wrong, login) (stays S C spec May srv.store)
          | inr right ↦ rw (right, login) (stays S C spec May srv.store)
        ]

    dummy_login-Safe :
        (r : Reading) (body : Option String)
        → Safe S C spec May (handle_dummy_login S C lib secret to_lower r.exp_now r.iat_now body)
    unfolding handle_dummy_login
    dummy_login-Safe r none = λ srv. stays S C spec May srv.store
    dummy_login-Safe r (some role) =
        guard-Safe S C spec May (role == role_admin) _ _
          (guard-Safe S C spec May (role == role_user) _ _ (λ srv. stays S C spec May srv.store))

    authorize-Safe :
        (r : Reading) (token : String) (call : Protected)
        → ((c : Claims)
            → parse_token lib secret token r.auth_now ≡ ok c
            → c.role ≡ role_user
            → May c.user_id × May (form.id c.user_id))
        → Safe S C spec May (authorize S C lib secret r token (λ ctx. route S C r ctx call))
    authorize-Safe r token call may srv =
        elim (Result-cases (parse_token lib secret token r.auth_now)) [
          | inl (c, good) ↦ rw (good, authorize) (route-Safe r c call (may c good) srv)
          | inr (inl (e, bad)) ↦ rw (bad, authorize) (stays S C spec May srv.store)
          | inr (inr crashed) ↦ rw (crashed, authorize) (stays S C spec May srv.store)
        ]

-- The request brings a token of this user that ParseToken accepts, and the role is user; the id in
-- the token may be another text that the store keeps as this one.
abbrev pub IsUser :
    Form → JwtLibrary → (secret : String) → Reading → Call → (user_id : String) → Type 0
IsUser form lib secret r (guarded authorization call) user_id =
    (token : String) × (c : Claims) × (strip_prefix "Bearer " authorization ≡ some token)
    × (parse_token lib secret token r.auth_now ≡ ok c)
    × (c.role ≡ role_user)
    × ((c.user_id ≡ user_id) ⊎ (form.id c.user_id ≡ user_id))
IsUser form lib secret r _ user_id = ⊥

module _ (S : Store) (C : SlotsCache) (lib : JwtLibrary) (secret : String)
    (to_lower : String → String) where
  -- Requests in turn, each with what it reads from its surroundings.
  unfoldable pub serve_all : List (Reading × Call) → Server S C → Server S C
  serve_all [] srv = srv
  serve_all ((r, call) ∷ requests) srv =
      serve_all requests (serve S C lib secret to_lower r call srv).1

module _ (S : Store) (C : SlotsCache) {form : Form} {Inv : S.State → Type 0} {view : S.State → View}
    (spec : IsBookingStore form S Inv view) (lib : JwtLibrary) (secret : String)
    (to_lower : String → String) where
  guarded-Safe :
      (r : Reading) (authorization : String) (call : Protected)
      → Safe S C spec
          (IsUser form lib secret r (guarded authorization call))
          (serve S C lib secret to_lower r (guarded authorization call))
  unfolding serve
  guarded-Safe r authorization call srv =
      elim (Option-cases (strip_prefix "Bearer " authorization)) [
        | inl missing ↦ rw (missing, auth_middleware) (stays S C spec _ srv.store)
        | inr (token, brought) ↦
            rw (brought, auth_middleware)
              (authorize-Safe S C spec (IsUser form lib secret r (guarded authorization call)) lib
                secret to_lower r token call
                (λ c good user. (
                  (token, c, brought, good, user, inl refl),
                  (token, c, brought, good, user, inr refl),
                ))
                srv)
      ]

  -- One request, over any store that keeps its contract and any cache: the store's invariant is
  -- kept, no slot goes, no booking goes, and a booking is made or cancelled only for the user of a
  -- token that the request brings, that ParseToken accepts and whose role is user: its id is that of
  -- the token as it is, or in the form in which the store keeps it.
  pub serve-Evolves :
      (r : Reading) (call : Call) (srv : Server S C)
      → Inv srv.store
      → let srv' = (serve S C lib secret to_lower r call srv).1 in
        Inv srv'.store × Evolves (IsUser form lib secret r call) (view srv.store) (view srv'.store)
  unfolding serve
  serve-Evolves r info srv = stays S C spec _ srv.store
  serve-Evolves r (Call.register body) srv = register-Safe S C spec _ lib secret to_lower r body srv
  serve-Evolves r (Call.login body) srv = login-Safe S C spec _ lib secret to_lower r body srv
  serve-Evolves r (Call.dummy_login role) srv =
      dummy_login-Safe S C spec _ lib secret to_lower r role srv
  serve-Evolves r (guarded authorization call) srv = guarded-Safe r authorization call srv
