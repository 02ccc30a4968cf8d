-- ===== src/Examples/Requests.antt =====
-- The theorems on requests at a server over the store of the examples.
use avito_test.Prelude.{
  ◌≡◌, ◌≢◌, refl, none, some, [], String, false, subst, sym, string_discrete, lookup, ◌⊎◌, ◌==◌,
  if◌then◌else◌,
}
use avito_test.Types.{Claims, Slot, ok}
use avito_test.Jwt.{issue_token, parse_token}
use avito_test.Prelude.{pos, take, drop, length, arith}
use avito_test.Strconv.{atoi, read_magnitude, read_digits}
use avito_test.Memory.Pages.{newest_first}
use avito_test.Http.{bookings_body, crash}
use avito_test.Http.Bookings.{query_int, is_page, is_page_size, handle_list_bookings}
use avito_test.Http.Pagination.{handle_list_bookings-page, handle_list_bookings-crash}
use avito_test.Store.{memory_store}
use avito_test.Cache.{noop_slots_cache}
use avito_test.Http.{Server, write_json, write_error, bad_request, user_body}
use avito_test.Http.Users.{RegisterRequest, token_reply, handle_register, handle_login}
use avito_test.Http.Bookings.{CreateBookingRequest, handle_create_booking}
use avito_test.Http.Router.{create_room, Reading, guarded, strip_prefix, serve}
use avito_test.Http.Access.{IsAuthorized, IsForbidden, unauthorized, not_allowed, serve-refuses}
use avito_test.Http.Accounts.{
  Incomplete, Known, Registered, new_user, handle_register-outcome, handle_login-register,
  handle_register-again,
}
use avito_test.Http.Answers.{NoSlot, InPast, IsTaken, IsBooked, handle_create_booking-outcome}
use avito_test.Examples.Fixture.{env, with_slots, with_slots-IsValid}
use avito_test.Examples.Tokens.{morning, library, parse_token-user}

-- A server over the store of the examples, with the two slots.
abbrev pub server : Server (memory_store env) noop_slots_cache
server = record { users = []; store = with_slots; cache = tt }

abbrev pub reading : Reading
reading = record {
  auth_now = morning;
  now = morning;
  exp_now = morning;
  iat_now = morning;
  id = "id";
}

-- The text that `strings.ToLower` answers to a text in lower case.
abbrev pub same_text : String → String
same_text s = s

header : strip_prefix "Bearer " "Bearer token" ≡ some "token"
unfolding strip_prefix
header = refl

not_for_users :
    ¬ IsAuthorized
      (memory_store env)
      noop_slots_cache
      library
      "key"
      reading
      "Bearer token"
      (create_room none)
not_for_users (token, c, at, read, admin) =
    let same : "token" ≡ token = cc (header, at) in
    let mine : parse_token library "key" "token" morning ≡ ok c =
      subst (λ t. parse_token library "key" t morning ≡ ok c) (sym same) read in
    let who : ok (record { user_id = "ann"; role = "user" }) ≡ ok c = cc (mine, parse_token-user) in
    cc (who, admin)

serve-refuses_example :
    let request =
      serve
        (memory_store env)
        noop_slots_cache
        library
        "key"
        same_text
        reading
        (guarded "Bearer token" (create_room none))
        server in
    (request ≡ (unauthorized "missing token", server))
    ⊎ ((request ≡ (unauthorized "invalid token", server))
        ⊎ (IsForbidden
              (memory_store env)
              noop_slots_cache
              library
              "key"
              reading
              "Bearer token"
              (create_room none)
            × (request ≡ (not_allowed, server))))
serve-refuses_example =
    serve-refuses (memory_store env) noop_slots_cache library "key" same_text reading "Bearer token"
      (create_room none) server not_for_users

slot_named : ◌≢◌ {A = String} "uuu" ""
slot_named = cc

abbrev pub booking_request : CreateBookingRequest
booking_request = record { slot_id = "uuu"; create_conference_link = false }

abbrev pub ann : Claims
ann = record { user_id = "ann"; role = "user" }

handle_create_booking-outcome_example :
    let r =
      handle_create_booking (memory_store env) noop_slots_cache ann (some booking_request) server in
    NoSlot env noop_slots_cache ann booking_request server r
    ⊎ ((s : Slot) × (lookup "uuu" with_slots.store.slots ≡ some s)
        × (InPast env noop_slots_cache ann booking_request server s r
            ⊎ (IsTaken env noop_slots_cache ann booking_request server s r
                ⊎ IsBooked env noop_slots_cache ann booking_request server s r)))
handle_create_booking-outcome_example =
    handle_create_booking-outcome env noop_slots_cache ann booking_request server slot_named
      with_slots-IsValid

abbrev registration : RegisterRequest
registration = record { email = "ann@example.com"; password = "secret"; role = "user" }

abbrev registered_server : Server (memory_store env) noop_slots_cache
registered_server =
    (handle_register (memory_store env) noop_slots_cache library "key" same_text morning "id"
      (some registration) server).1

handle_register-outcome_example :
    let r =
      handle_register
        (memory_store env)
        noop_slots_cache
        library
        "key"
        same_text
        morning
        "id"
        (some registration)
        server in
    Incomplete (memory_store env) noop_slots_cache library "key" same_text registration server r
    ⊎ (Known (memory_store env) noop_slots_cache library "key" same_text registration server r
        ⊎ Registered
            (memory_store env)
            noop_slots_cache
            library
            "key"
            same_text
            morning
            "id"
            registration
            server
            r)
handle_register-outcome_example =
    handle_register-outcome (memory_store env) noop_slots_cache library "key" same_text morning "id"
      registration server

registration-ok :
    (handle_register
      (memory_store env)
      noop_slots_cache
      library
      "key"
      same_text
      morning
      "id"
      (some registration)
      server).0
    ≡ write_json 201 (user_body (new_user morning "id" registration))
unfolding handle_register string_discrete lookup
registration-ok = refl

handle_login-register_example :
    handle_login
      (memory_store env)
      noop_slots_cache
      library
      "key"
      same_text
      morning
      morning
      (some (record { email = "ann@example.com"; password = "secret" }))
      registered_server
    ≡ (
      if "secret" == "secret"
          then token_reply (issue_token library "key" "id" "user" morning morning)
          else write_error 401 "UNAUTHORIZED" "invalid credentials",
      registered_server,
    )
handle_login-register_example =
    handle_login-register (memory_store env) noop_slots_cache library "key" same_text morning "id"
      "ann@example.com" "secret" registration (new_user morning "id" registration) morning morning
      server registration-ok refl

handle_register-again_example :
    (m : String) × (handle_register
        (memory_store env)
        noop_slots_cache
        library
        "key"
        same_text
        morning
        "id2"
        (some registration)
        registered_server
      ≡ (bad_request m, registered_server))
handle_register-again_example =
    handle_register-again (memory_store env) noop_slots_cache library "key" same_text morning
      morning "id" "id2" registration registration (new_user morning "id" registration) server
      registration-ok refl

first_page : query_int (pos 1) is_page "1" ≡ some (pos 1)
unfolding query_int string_discrete atoi read_magnitude read_digits
first_page = refl

-- The pages of the examples have 100 bookings.
page_size : query_int (pos 20) is_page_size "100" ≡ some (pos 100)
unfolding query_int string_discrete atoi read_magnitude read_digits
page_size = refl

far_page : query_int (pos 1) is_page "92233720368547760" ≡ some (pos 92233720368547760)
unfolding query_int string_discrete atoi read_magnitude read_digits
far_page = refl

handle_list_bookings-page_example :
    handle_list_bookings (memory_store env) noop_slots_cache "1" "100" server ≡ (
      write_json 200 (
          bookings_body
            (take 100 (drop 0 (newest_first with_slots)))
            (pos 1)
            (pos 100)
            (length (newest_first with_slots))),
      server,
    )
handle_list_bookings-page_example =
    handle_list_bookings-page env noop_slots_cache "1" "100" 0 100 server first_page page_size
      with_slots-IsValid (omega arith)

handle_list_bookings-crash_example :
    (handle_list_bookings (memory_store env) noop_slots_cache "92233720368547760" "100" server).0
    ≡ crash
handle_list_bookings-crash_example =
    handle_list_bookings-crash env noop_slots_cache "92233720368547760" "100" 92233720368547759 100
      server far_page page_size with_slots-IsValid (omega arith) (omega arith) (omega arith)
