-- ===== src/Examples/Caches.antt =====
-- The cache's contract over the Redis of the examples, and the service with it.
use avito_test.Prelude.{◌≡◌, ◌≢◌, refl, lookup, none, some, List, [], ◌∷◌, String, arith}
use avito_test.Types.{ok}
use avito_test.Store.{memory_store}
use avito_test.Cache.Contract.{IsPlain, IsSlotsCache}
use avito_test.Cache.Redis.{redis_slots_cache, del_all, invalidate_room}
use avito_test.Cache.Redis.Laws.{IsLiteral}
use avito_test.Cache.Redis.Refines.{Holds, redis_slots_cache-IsSlotsCache}
use avito_test.Contract.InMemory.{memory_view, memory_store-IsBookingStore}
use avito_test.Http.{Server}
use avito_test.Http.Rooms.{handle_list_slots}
use avito_test.Http.Router.{Call, Reading, create_booking, list_slots, guarded}
use avito_test.Http.Service.{serve_all}
use avito_test.Http.Coherence.Booking.{NeverFails}
use avito_test.Http.Coherence.Rooms.{ListsFree}
use avito_test.Http.Coherence.Requests.{serve_all-ListsFree}
use avito_test.Examples.Fixture.{env, env-IsUuidSource, with_slots, with_slots-IsValid}
use avito_test.Examples.Keyspaces.{redis, redis-IsRedis, keyspace}
use avito_test.Examples.Requests.{reading, same_text, booking_request}
use avito_test.Examples.Tokens.{library}

slots-IsLiteral : IsLiteral "slots"
slots-IsLiteral = ground arith

u-IsPlain : IsPlain "u"
u-IsPlain = ground arith

redis_slots_cache-IsSlotsCache_example :
    IsSlotsCache (redis_slots_cache redis "slots") (Holds redis redis-IsRedis "slots")
redis_slots_cache-IsSlotsCache_example =
    redis_slots_cache-IsSlotsCache redis redis-IsRedis "slots" slots-IsLiteral

redis_slots_cache-contract :
    IsSlotsCache (redis_slots_cache redis "slots") (Holds redis redis-IsRedis "slots")
redis_slots_cache-contract =
    redis_slots_cache-IsSlotsCache redis redis-IsRedis "slots" slots-IsLiteral

del_all-ok : (ks : List String) (c : redis.State) → (del_all redis "slots" ks none c).0 ≡ ok tt
unfolding del_all
del_all-ok [] c = refl
del_all-ok (k ∷ ks) c = del_all-ok ks _

redis-NeverFails :
    NeverFails
      (memory_store env)
      (redis_slots_cache redis "slots")
      (memory_store-IsBookingStore env env-IsUuidSource)
      redis_slots_cache-contract
unfolding invalidate_room
redis-NeverFails room_id c = del_all-ok (redis.scan "" 1000 c).0.0 c

nothing_cached : (k raw : String) → keyspace [] k ≢ some raw
unfolding lookup
nothing_cached k raw h = cc

-- A list that fills the cache, and a booking.
abbrev requests : List (Reading × Call)
requests =
    (reading, guarded "Bearer token" (list_slots "u" "2026-03-23"))
    ∷ (reading, guarded "Bearer token" (create_booking (some booking_request)))
    ∷ []

abbrev cached_server : Server (memory_store env) (redis_slots_cache redis "slots")
cached_server = record { users = []; store = with_slots; cache = [] }

serve_all-ListsFree_example :
    let end =
      handle_list_slots (memory_store env) (redis_slots_cache redis "slots") "u" "2026-03-23" (
        serve_all
          (memory_store env)
          (redis_slots_cache redis "slots")
          library
          "key"
          same_text
          requests
          cached_server) in
    ListsFree (memory_view end.1.store) "u" end.0
serve_all-ListsFree_example =
    serve_all-ListsFree (memory_store env) (redis_slots_cache redis "slots")
      (memory_store-IsBookingStore env env-IsUuidSource) redis_slots_cache-contract redis-NeverFails
      library "key" same_text requests cached_server "u" "2026-03-23" ((u-IsPlain, refl), (tt, tt))
      (u-IsPlain, refl) with_slots-IsValid
      (λ room_id date slots (_, (raw, at, _)). absurd (nothing_cached _ raw at))
