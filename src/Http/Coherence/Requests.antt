-- ===== src/Http/Coherence/Requests.antt =====
-- Requests in turn keep the cached lists true.
use avito_test.Prelude.{
  Option, none, some, List, [], ◌∷◌, String, All, ◌==◌, Bool-cases, Option-cases, lookup, inl, inr,
}
use avito_test.Types.{Role, role_admin, role_user, Claims, Slot}
use avito_test.Store.{Store}
use avito_test.Cache.{SlotsCache}
use avito_test.Cache.Contract.{IsSlotsCache}
use avito_test.Jwt.{JwtLibrary, parse_token}
use avito_test.Contract.{Form, View, IsBookingStore}
use avito_test.Http.{Server, Handler}
use avito_test.Http.Rooms.{handle_list_slots}
use avito_test.Http.Users.{
  RegisterRequest, LoginRequest, lacks_field, wrong_password, login, handle_register, handle_login,
  handle_dummy_login,
}
use avito_test.Http.Router.{
  Protected, list_rooms, create_room, create_schedule, list_slots, create_booking, list_bookings,
  my_bookings, cancel_booking, Call, info, guarded, Reading, strip_prefix, require_role, route,
  authorize, auth_middleware, serve,
}
use avito_test.Http.Service.{Result-cases, serve_all}
use avito_test.Http.Coherence.{IsSound, Good, Keeps, guard-Keeps}
use avito_test.Http.Coherence.Booking.{NeverFails, handle_create_booking-Keeps}
use avito_test.Http.Coherence.Cancelling.{
  handle_cancel_booking-Keeps, handle_list_bookings-Keeps, handle_my_bookings-Keeps,
}
use avito_test.Http.Coherence.Rooms.{
  ListsFree, handle_list_rooms-Keeps, handle_create_room-Keeps, handle_create_schedule-Keeps,
}
use avito_test.Http.Coherence.Slots.{IsName, handle_list_slots-TrueList}

-- A request for slots names its room by a plain text, the one that the store keeps.
abbrev pub NamesRoom : Form → Protected → Type 0
NamesRoom form (list_slots room_id date) = IsName form room_id
NamesRoom form _ = Unit {0}

abbrev pub AsksRoom : Form → Call → Type 0
AsksRoom form (guarded authorization call) = NamesRoom form call
AsksRoom form _ = Unit {0}

module _ (S : Store) (C : SlotsCache) {form : Form} {Inv : S.State → Type 0} {view : S.State → View}
    (spec : IsBookingStore form S Inv view)
    {Holds : C.State → (room_id date : String) → List Slot → Type 0} (cache : IsSlotsCache C Holds)
    (sure : NeverFails S C spec cache) where
  require_role-Keeps :
      (role : Role) (c : Claims) (next : Handler S C)
      → Keeps S C spec cache next
      → Keeps S C spec cache (require_role S C role (some c) next)
  require_role-Keeps role c next keeps srv good = elim (Bool-cases (c.role == role)) [
    | inl same ↦ rw same (keeps srv good)
    | inr differs ↦ rw differs good
  ]

  route-Keeps :
      (r : Reading) (c : Claims) (call : Protected)
      → NamesRoom form call
      → Keeps S C spec cache (route S C r (some c) call)
  unfolding route
  route-Keeps r c list_rooms plain = handle_list_rooms-Keeps S C spec cache
  route-Keeps r c (create_room body) plain =
      require_role-Keeps role_admin c _ (handle_create_room-Keeps S C spec cache body)
  route-Keeps r c (create_schedule room_id body) plain =
      require_role-Keeps role_admin c _
        (handle_create_schedule-Keeps S C spec cache room_id r.now body)
  route-Keeps r c (list_slots room_id date) plain = λ srv (inv, sound).
      (handle_list_slots-TrueList S C spec cache room_id date srv plain inv sound).0
  route-Keeps r c (create_booking body) plain =
      require_role-Keeps role_user c _ (handle_create_booking-Keeps S C spec cache c body sure)
  route-Keeps r c (list_bookings page size) plain =
      require_role-Keeps role_admin c _ (handle_list_bookings-Keeps S C spec cache page size)
  route-Keeps r c my_bookings plain =
      require_role-Keeps role_user c _ (handle_my_bookings-Keeps S C spec cache c r.now)
  route-Keeps r c (cancel_booking booking_id) plain =
      require_role-Keeps role_user c _ (handle_cancel_booking-Keeps S C spec cache c booking_id)

  module _ (lib : JwtLibrary) (secret : String) (to_lower : String → String) where
    guarded-Keeps :
        (r : Reading) (authorization : String) (call : Protected)
        → NamesRoom form call
        → Keeps S C spec cache (serve S C lib secret to_lower r (guarded authorization call))
    unfolding serve
    guarded-Keeps r authorization call plain srv good =
        elim (Option-cases (strip_prefix "Bearer " authorization)) [
          | inl missing ↦ rw (missing, auth_middleware) good
          | inr (token, brought) ↦ elim (Result-cases (parse_token lib secret token r.auth_now)) [
            | inl (c, fine) ↦
                rw (brought, auth_middleware, fine, authorize) (route-Keeps r c call plain srv good)
            | inr (inl (e, bad)) ↦ rw (brought, auth_middleware, bad, authorize) good
            | inr (inr crashed) ↦ rw (brought, auth_middleware, crashed, authorize) good
          ]
        ]

    register-Keeps :
        (r : Reading) (body : Option RegisterRequest)
        → Keeps S C spec cache (handle_register S C lib secret to_lower r.now r.id body)
    unfolding handle_register
    register-Keeps r none = λ srv good. good
    register-Keeps r (some req) = guard-Keeps S C spec cache (lacks_field req) _ _ (λ srv good.
        elim (Option-cases (lookup (to_lower req.email) srv.users)) [
          | inl new ↦ rw new good
          | inr (u, known) ↦ rw known good
        ])

    login-Keeps :
        (r : Reading) (body : Option LoginRequest)
        → Keeps S C spec cache (handle_login S C lib secret to_lower r.exp_now r.iat_now body)
    unfolding handle_login
    login-Keeps r none = λ srv good. good
    login-Keeps r (some req) = λ srv good.
        elim (Bool-cases (wrong_password (lookup (to_lower req.email) srv.users) req.password)) [
          | inl wrong ↦ rw (wrong, login) good
          | inr right ↦ rw (right, login) good
        ]

    dummy_login-Keeps :
        (r : Reading) (body : Option String)
        → Keeps S C spec cache (handle_dummy_login S C lib secret to_lower r.exp_now r.iat_now body)
    unfolding handle_dummy_login
    dummy_login-Keeps r none = λ srv good. good
    dummy_login-Keeps r (some role) =
        guard-Keeps S C spec cache (role == role_admin) _ _
          (guard-Keeps S C spec cache (role == role_user) _ _ (λ srv good. good))

    serve-Keeps :
        (r : Reading) (call : Call)
        → AsksRoom form call
        → Keeps S C spec cache (serve S C lib secret to_lower r call)
    unfolding serve
    serve-Keeps r info plain = λ srv good. good
    serve-Keeps r (Call.register body) plain = register-Keeps r body
    serve-Keeps r (Call.login body) plain = login-Keeps r body
    serve-Keeps r (Call.dummy_login role) plain = dummy_login-Keeps r role
    serve-Keeps r (guarded authorization call) plain = guarded-Keeps r authorization call plain

    serve_all-Good :
        (requests : List (Reading × Call)) (srv : Server S C)
        → All (λ (q : Reading × Call). AsksRoom form q.1) requests
        → Good S C spec cache srv
        → Good S C spec cache (serve_all S C lib secret to_lower requests srv)
    unfolding serve_all
    serve_all-Good [] srv plain good = good
    serve_all-Good ((r, call) ∷ requests) srv (plain, more) good =
        serve_all-Good requests (serve S C lib secret to_lower r call srv).1 more
          (serve-Keeps r call plain srv good)

    -- The cache never offers a booked slot: after requests of any kind, in any order, over any
    -- store and any cache that keep their contracts, from a well-formed server whose cached lists
    -- are true, every slot that handleListSlots then answers with 200, cached or not, is stored, is
    -- of the room and has no active booking as it answers. It takes calls of InvalidateRoom that
    -- never fail, and names of rooms in requests for slots that are plain, as UUIDs are, and are the
    -- ones that the store keeps.
    pub serve_all-ListsFree :
        (requests : List (Reading × Call)) (srv : Server S C) (room_id date_raw : String)
        → All (λ (q : Reading × Call). AsksRoom form q.1) requests
        → IsName form room_id
        → Inv srv.store
        → IsSound S C spec cache (view srv.store) srv.cache
        → let end =
            handle_list_slots S C room_id date_raw
              (serve_all S C lib secret to_lower requests srv) in
          ListsFree (view end.1.store) room_id end.0
    serve_all-ListsFree requests srv room_id date_raw plain here inv sound =
        let (inv', sound') = serve_all-Good requests srv plain (inv, sound) in
        (handle_list_slots-TrueList S C spec cache room_id date_raw
          (serve_all S C lib secret to_lower requests srv) here inv' sound').1
