-- ===== src/Http.antt =====
-- internal/app/http.go: the server's state, its replies, and the helpers of the handlers. The child
-- modules hold the handlers. A request carries what `encoding/json` decodes from its body, or
-- `none` where decoding fails; a reply carries the value that is encoded.
pub mod Users
pub mod Rooms
pub mod Bookings
pub mod Router
pub mod Access
pub mod Accounts
pub mod Calls
pub mod Answers
pub mod Pagination
pub mod Effects
pub mod Service
pub mod Coherence
pub mod Outcomes
use avito_test.Prelude.{
  ℕ, Bool, true, false, ◌&&◌, Option, none, some, List, [], ◌∷◌, String, ℤ, Dict, eqb,
  if◌then◌else◌,
}
use Prim.Native.Char.{Char, code}
use Prim.Native.String
use avito_test.Times.{Time}
use avito_test.Types.{
  Claims, User, Room, Schedule, Slot, Booking, Error, room_not_found, slot_not_found,
  slot_already_booked, booking_not_found, forbidden, schedule_exists, invalid_request, Result, ok,
  err, panic,
}
use avito_test.Store.{Store}
use avito_test.Cache.{SlotsCache}

pub record RegisteredUser : Type 0 where
  pub user : User
  pub password : String

-- The state of a Server: its map of users, and the states of its store and cache.
pub record Server (S : Store) (C : SlotsCache) : Type 0 where
  pub users : Dict RegisteredUser
  pub store : S.State
  pub cache : C.State

-- The values that the handlers encode.
pub data Body : Type 0 where
  empty : Body
  error_body : (code message : String) → Body
  user_body : User → Body
  token_body : String → Body
  rooms_body : List Room → Body
  room_body : Room → Body
  schedule_body : Schedule → Body
  slots_body : List Slot → Body
  booking_body : Booking → Body
  bookings_body : List Booking → (page page_size : ℤ) → (total : ℕ) → Body
  my_bookings_body : List Booking → Body

-- What a request ends with: a response, or a panic, which closes the connection.
pub data Reply : Type 0 where
  respond : (status : ℕ) → Body → Reply
  crash : Reply

-- writeJSON
abbrev pub write_json : ℕ → Body → Reply
write_json status body = respond status body

-- writeError
abbrev pub write_error : ℕ → (code message : String) → Reply
write_error status code message = write_json status (error_body code message)

abbrev pub internal_error : Reply
internal_error = write_error 500 "INTERNAL_ERROR" "internal server error"

abbrev pub bad_request : String → Reply
bad_request message = write_error 400 "INVALID_REQUEST" message

-- handleInfo
abbrev pub handle_info : Reply
handle_info = respond 200 empty

-- claimsFromCtx: the zero value where the middleware has set none.
abbrev pub claims_from_ctx : Option Claims → Claims
claims_from_ctx none = record { user_id = ""; role = "" }
claims_from_ctx (some c) = c

module _ (S : Store) (C : SlotsCache) where
  abbrev pub Handler : Type 0
  Handler = Server S C → Reply × Server S C

  abbrev pub reply : Reply → Handler
  reply r srv = (r, srv)

  -- decodeJSON: the rest of the handler runs on the decoded value.
  abbrev pub decode_json : {A : Type 0} → Option A → (A → Handler) → Handler
  decode_json none k = reply (bad_request "invalid request")
  decode_json (some req) k = k req

  -- The rest of a handler after a call, by how the call ended.
  abbrev pub resume : {A : Type 0} → Result A → (Error → Reply) → (A → Handler) → Handler
  resume (ok a) fail k = k a
  resume (err e) fail k = reply (fail e)
  resume panic fail k = reply crash

  -- A call of the store: `fail` answers its errors, and `k` is the rest of the handler.
  abbrev pub with_store :
      {A : Type 0} → (S.State → Result A × S.State) → (Error → Reply) → (A → Handler) → Handler
  with_store call fail k srv =
      let (r, st) = call srv.store in resume r fail k (record srv { store = st })

  -- A call of the cache whose error is ignored, `_ = s.cache.…`.
  abbrev pub run_cache : {A : Type 0} → (C.State → Result A × C.State) → Server S C → Server S C
  run_cache call srv = record srv { cache = (call srv.cache).1 }
