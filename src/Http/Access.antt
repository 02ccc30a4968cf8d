-- ===== src/Http/Access.antt =====
-- Who can reach the handlers behind authMiddleware and requireRole.
use avito_test.Prelude.{some, String, ◌≡◌, refl, ◌∙◌, ◌⊎◌, inl, inr, Option-cases, not-same}
use avito_test.Types.{Role, role_admin, role_user, Claims, Result, ok, err, panic}
use avito_test.Store.{Store}
use avito_test.Cache.{SlotsCache}
use avito_test.Jwt.{JwtLibrary, parse_token}
use avito_test.Jwt.Tokens.{parse_token-ne-panic}
use avito_test.Http.{Server, Reply, write_error}
use avito_test.Http.Router.{
  Protected, list_rooms, create_room, create_schedule, list_slots, create_booking, list_bookings,
  my_bookings, cancel_booking, guarded, Reading, strip_prefix, route, authorize, auth_middleware,
  serve,
}

-- The roles that api.yaml allows for each operation.
abbrev pub Allows : Protected → Role → Type 0
Allows list_rooms role = Unit
Allows (create_room _) role = role ≡ role_admin
Allows (create_schedule _ _) role = role ≡ role_admin
Allows (list_slots _ _) role = Unit
Allows (create_booking _) role = role ≡ role_user
Allows (list_bookings _ _) role = role ≡ role_admin
Allows my_bookings role = role ≡ role_user
Allows (cancel_booking _) role = role ≡ role_user

abbrev pub unauthorized : String → Reply
unauthorized message = write_error 401 "UNAUTHORIZED" message

abbrev pub not_allowed : Reply
not_allowed = write_error 403 "FORBIDDEN" "forbidden"

module _ (S : Store) (C : SlotsCache) where
  route_refuses :
      (r : Reading) (c : Claims) (call : Protected) (srv : Server S C)
      → ¬ Allows call c.role
      → route S C r (some c) call srv ≡ (not_allowed, srv)
  unfolding route
  route_refuses r c list_rooms srv h = absurd (h tt)
  route_refuses r c (create_room body) srv h = rw (not-same c.role role_admin h)
  route_refuses r c (create_schedule room_id body) srv h = rw (not-same c.role role_admin h)
  route_refuses r c (list_slots room_id date) srv h = absurd (h tt)
  route_refuses r c (create_booking body) srv h = rw (not-same c.role role_user h)
  route_refuses r c (list_bookings page size) srv h = rw (not-same c.role role_admin h)
  route_refuses r c my_bookings srv h = rw (not-same c.role role_user h)
  route_refuses r c (cancel_booking booking_id) srv h = rw (not-same c.role role_user h)

  module _ (lib : JwtLibrary) (secret : String) where
    -- The header holds a token that ParseToken accepts, of a role that the operation is open to.
    abbrev pub IsAuthorized : Reading → String → Protected → Type 0
    IsAuthorized r authorization call =
        (token : String) × (c : Claims) × (strip_prefix "Bearer " authorization ≡ some token)
        × (parse_token lib secret token r.auth_now ≡ ok c)
        × Allows call c.role

    -- The token is accepted, of a role that the operation is not open to.
    abbrev pub IsForbidden : Reading → String → Protected → Type 0
    IsForbidden r authorization call =
        (token : String) × (c : Claims) × (strip_prefix "Bearer " authorization ≡ some token)
        × (parse_token lib secret token r.auth_now ≡ ok c)
        × (¬ Allows call c.role)

    with_token :
        (to_lower : String → String) (r : Reading) (authorization token : String) (call : Protected)
        (srv : Server S C)
        → strip_prefix "Bearer " authorization ≡ some token
        → serve S C lib secret to_lower r (guarded authorization call) srv
          ≡ authorize S C lib secret r token (λ ctx. route S C r ctx call) srv
    unfolding serve
    with_token to_lower r authorization token call srv e = rw (e, auth_middleware)

    -- A request to a protected route that does not bring a token that ParseToken accepts, of a
    -- role that the operation is open to, changes neither the users, the store nor the cache. It
    -- is answered by 401, or by 403 where its token is accepted but of a role that the operation
    -- is not open to.
    pub serve-refuses :
        (to_lower : String → String) (r : Reading) (authorization : String) (call : Protected)
        (srv : Server S C)
        → ¬ IsAuthorized r authorization call
        → let request = serve S C lib secret to_lower r (guarded authorization call) srv in
          (request ≡ (unauthorized "missing token", srv))
          ⊎ ((request ≡ (unauthorized "invalid token", srv))
              ⊎ (IsForbidden r authorization call × (request ≡ (not_allowed, srv))))
    unfolding serve
    serve-refuses to_lower r authorization call srv h =
        elim (Option-cases (strip_prefix "Bearer " authorization)) [
          | inl e ↦ inl (rw (e, auth_middleware))
          | inr (token, e) ↦ inr (checked token e (parse_token lib secret token r.auth_now) refl)
        ]
      where
        checked :
            (token : String)
            → strip_prefix "Bearer " authorization ≡ some token
            → (p : Result Claims) → parse_token lib secret token r.auth_now ≡ p
            → (serve S C lib secret to_lower r (guarded authorization call) srv
                ≡ (unauthorized "invalid token", srv))
              ⊎ (IsForbidden r authorization call
                  × (serve S C lib secret to_lower r (guarded authorization call) srv
                      ≡ (not_allowed, srv)))
        checked token e (err x) q =
            inl (with_token to_lower r authorization token call srv e ∙ rw (q, authorize))
        checked token e panic q = absurd (parse_token-ne-panic lib secret token r.auth_now q)
        checked token e (ok c) q =
            let refused : ¬ Allows call c.role = λ a. h (token, c, e, q, a) in
            let answer : authorize S C lib secret r token (λ ctx. route S C r ctx call) srv
                ≡ (not_allowed, srv) =
              rw (q, authorize) (route_refuses r c call srv refused) in
            inr (
              (token, c, e, q, refused),
              with_token to_lower r authorization token call srv e ∙ answer,
            )
