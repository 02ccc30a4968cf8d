-- ===== src/Examples/Contracts.antt =====
-- The contract of the stores, and the service over it, at the stores of the examples.
use avito_test.Prelude.{◌≢◌, some, [], String}
use avito_test.Cache.{noop_slots_cache}
use avito_test.Contract.{exact, IsBookingStore}
use avito_test.Contract.InMemory.{memory_view, memory_store-IsBookingStore}
use avito_test.Contract.InPostgres.{postgres_store-IsBookingStore}
use avito_test.Contract.Effects.{Evolves}
use avito_test.Store.{memory_store}
use avito_test.Memory.Tables.{IsValid}
use avito_test.Postgres.{postgres_store}
use avito_test.Http.{Server}
use avito_test.Http.Bookings.{CreateBookingRequest, handle_create_booking}
use avito_test.Http.Outcomes.{Answered, handle_create_booking-Answered}
use avito_test.Http.Router.{cancel_booking, guarded, serve}
use avito_test.Http.Service.{IsUser, serve-Evolves}
use avito_test.Examples.Fixture.{
  env, env-IsUuidSource, with_slots, with_slots-IsValid, with_booking, with_booking-IsValid,
}
use avito_test.Examples.Tokens.{library}
use avito_test.Examples.Changes.{view_of}
use avito_test.Examples.Tables.{tables_form, database, database-IsPostgres}
use avito_test.Examples.Requests.{reading, same_text, ann, booking_request, server}

memory_store-IsBookingStore_example :
    IsBookingStore exact (memory_store env) (IsValid env) memory_view
memory_store-IsBookingStore_example = memory_store-IsBookingStore env env-IsUuidSource

abbrev postgres_server : Server (postgres_store env database) noop_slots_cache
postgres_server = record {
  users = [];
  store = record { state = (with_slots, with_slots-IsValid); drawn = 0; ticks = 0 };
  cache = tt;
}

serve-Evolves_example :
    let call = guarded "Bearer token" (cancel_booking "uuuuu") in
    let srv : Server (memory_store env) noop_slots_cache = record server { store = with_booking } in
    let srv' =
      (serve (memory_store env) noop_slots_cache library "key" same_text reading call srv).1 in
    IsValid env srv'.store
    × Evolves
        (IsUser exact library "key" reading call)
        (memory_view with_booking)
        (memory_view srv'.store)
serve-Evolves_example =
    serve-Evolves (memory_store env) noop_slots_cache
      (memory_store-IsBookingStore env env-IsUuidSource) library "key" same_text reading
      (guarded "Bearer token" (cancel_booking "uuuuu")) (record server { store = with_booking })
      with_booking-IsValid

-- The booked slot is named by the other spelling of its id.
abbrev other_spelling : CreateBookingRequest
other_spelling = record booking_request { slot_id = "UUU" }

postgres_named : ◌≢◌ {A = String} "UUU" ""
postgres_named = cc

handle_create_booking-Answered_example :
    let end =
      handle_create_booking
        (postgres_store env database)
        noop_slots_cache
        ann
        (some other_spelling)
        postgres_server in
    Answered tables_form ann other_spelling
      (view_of postgres_server.store.state)
      (view_of end.1.store.state)
      end.0
handle_create_booking-Answered_example =
    handle_create_booking-Answered (postgres_store env database) noop_slots_cache
      (postgres_store-IsBookingStore env database database-IsPostgres) ann other_spelling
      postgres_server postgres_named tt
