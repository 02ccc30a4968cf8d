-- ===== src/Http/Router.antt =====
-- The routes of `Router` in internal/app/http.go with their middleware. Which route a request's
-- method and path select is the work of github.com/go-chi/chi: a `Call` is its outcome, with the
-- parameters of the path and the query and the decoded body.
use Prim.Native.Char.{code}
use avito_test.Prelude.{not, Option, none, some, String, eqb, ◌==◌, if◌then◌else◌}
use avito_test.Times.{Time}
use avito_test.Types.{Role, role_admin, role_user, Claims, Schedule, ok, err, panic}
use avito_test.Store.{Store}
use avito_test.Cache.{SlotsCache}
use avito_test.Jwt.{JwtLibrary, parse_token}
use avito_test.Http.{write_error, crash, handle_info, claims_from_ctx, Handler, reply}
use avito_test.Http.Users.{
  RegisterRequest, LoginRequest, handle_register, handle_login, handle_dummy_login,
}
use avito_test.Http.Rooms.{
  CreateRoomRequest, handle_list_rooms, handle_create_room, handle_create_schedule,
  handle_list_slots,
}
use avito_test.Http.Bookings.{
  CreateBookingRequest, handle_create_booking, handle_list_bookings, handle_my_bookings,
  handle_cancel_booking,
}

-- The routes of the group with authMiddleware.
pub data Protected : Type 0 where
  list_rooms : Protected
  create_room : Option CreateRoomRequest → Protected
  create_schedule : (room_id : String) → Option Schedule → Protected
  list_slots : (room_id date : String) → Protected
  create_booking : Option CreateBookingRequest → Protected
  list_bookings : (page page_size : String) → Protected
  my_bookings : Protected
  cancel_booking : (booking_id : String) → Protected

pub data Call : Type 0 where
  info : Call
  register : Option RegisterRequest → Call
  login : Option LoginRequest → Call
  dummy_login : (role : Option String) → Call
  guarded : (authorization : String) → Protected → Call

-- What one request reads from its surroundings: the clock in ParseToken, in the handler and twice in
-- IssueToken, and a UUID.
pub record Reading : Type 0 where
  pub auth_now : Time
  pub now : Time
  pub exp_now : Time
  pub iat_now : Time
  pub id : String

-- `strings.TrimPrefix(s, prefix)` where `strings.HasPrefix(s, prefix)`; `none` where it is not.
unfoldable pub strip_prefix : (prefix s : String) → Option String
strip_prefix String.[] s = some s
strip_prefix (String.◌∷◌ c prefix) String.[] = none
strip_prefix (String.◌∷◌ c prefix) (String.◌∷◌ d s) =
    let rest = strip_prefix prefix s in if eqb (code c) (code d) then rest else none

module _ (S : Store) (C : SlotsCache) where
  -- requireRole: the claims come from the request's context.
  abbrev pub require_role : Role → Option Claims → Handler S C → Handler S C
  require_role role ctx next srv =
      let claims = claims_from_ctx ctx in
      if not (claims.role == role) then (write_error 403 "FORBIDDEN" "forbidden", srv) else next srv

  -- The handlers of the group, behind their requireRole.
  unfoldable pub route : Reading → Option Claims → Protected → Handler S C
  route r ctx list_rooms = handle_list_rooms S C
  route r ctx (create_room body) = require_role role_admin ctx (handle_create_room S C body)
  route r ctx (create_schedule room_id body) =
      require_role role_admin ctx (handle_create_schedule S C room_id r.now body)
  route r ctx (list_slots room_id date) = handle_list_slots S C room_id date
  route r ctx (create_booking body) =
      require_role role_user ctx (handle_create_booking S C (claims_from_ctx ctx) body)
  route r ctx (list_bookings page page_size) =
      require_role role_admin ctx (handle_list_bookings S C page page_size)
  route r ctx my_bookings =
      require_role role_user ctx (handle_my_bookings S C (claims_from_ctx ctx) r.now)
  route r ctx (cancel_booking booking_id) =
      require_role role_user ctx (handle_cancel_booking S C (claims_from_ctx ctx) booking_id)

  module _ (lib : JwtLibrary) (secret : String) where
    -- authMiddleware after the prefix of the header.
    abbrev pub authorize : Reading → (token : String) → (Option Claims → Handler S C) → Handler S C
    authorize r token next srv = elim (parse_token lib secret token r.auth_now) [
      | ok claims ↦ next (some claims) srv
      | err _ ↦ (write_error 401 "UNAUTHORIZED" "invalid token", srv)
      | panic ↦ (crash, srv)
    ]

    abbrev pub auth_middleware :
        Reading → (authorization : String) → (Option Claims → Handler S C) → Handler S C
    auth_middleware r authorization next srv = elim (strip_prefix "Bearer " authorization) [
      | none ↦ (write_error 401 "UNAUTHORIZED" "missing token", srv)
      | some token ↦ authorize r token next srv
    ]

    -- One request.
    unfoldable pub serve : (to_lower : String → String) → Reading → Call → Handler S C
    serve to_lower r info = reply S C handle_info
    serve to_lower r (register body) = handle_register S C lib secret to_lower r.now r.id body
    serve to_lower r (login body) = handle_login S C lib secret to_lower r.exp_now r.iat_now body
    serve to_lower r (dummy_login role) =
        handle_dummy_login S C lib secret to_lower r.exp_now r.iat_now role
    serve to_lower r (guarded authorization call) =
        auth_middleware r authorization (λ ctx. route r ctx call)
