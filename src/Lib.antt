-- ===== src/Lib.antt =====
-- The room booking service: an HTTP server that lets administrators create rooms with weekly
-- schedules, cuts the schedules into slots of half an hour, and lets users book slots and cancel
-- their bookings. This library models the code in Go and proves what makes it correct.
--
-- The parts and their files. A handler of the server decodes a request, checks the token, calls the
-- store and the cache, and maps the store's errors to a status. The store keeps rooms, schedules,
-- slots and bookings; the functions on schedules are pure.
-- - Types, Store: internal/app/types.go and errors.go. A pointer is an Option, a Go call ends with
--   `ok`, an error or a panic, and the interface Store is a record of methods that take the store's
--   state and return the new one.
-- - Slots and its children: internal/app/slots.go. ParseHM is parse_hm, ValidateSchedule is
--   validate_schedule, GenerateSlotsForDate is generate_slots_for_date with its loop `cut`.
-- - Memory and its children: internal/app/store_memory.go, a method as a function of the same name.
--   A World is the store with the number of UUIDs drawn and of clock readings made; uuid.NewString and
--   time.Now are the fields of a parameter, Env. Memory/Tables has the invariant, Memory/Invariant
--   that every operation keeps it, Memory/History what calls can reach, and the other children the
--   behaviour of the operations.
-- - Postgres and its children: internal/app/store_postgres.go. Driver has the parameter for
--   database/sql and the database, a field for each SQL statement, and the reading of its answers;
--   Queries has the methods that read, Commands those that write, Arrays the type intArray, and Laws
--   the documented behaviour of the statements, of transactions and of the constraints that
--   internal/migrations declares.
-- - Contract: what every implementation of the interface Store promises about slots and bookings, as
--   a relation between a View before and after each call. A Form says how a store writes ids and
--   times: MemoryStore keeps them as they are, PostgreSQL writes a UUID in its canonical spelling and
--   keeps whole microseconds. Contract/InMemory and Contract/InPostgres show that the two stores keep
--   the contract, and Contract/Effects what the calls may change.
-- - Jwt, Jwt/Tokens: internal/app/jwt.go, over a parameter for github.com/golang-jwt/jwt, whose
--   documented behaviour is the record IsJwtLibrary.
-- - Cache: the interface and NoopSlotsCache of internal/app/cache.go. Cache/Redis has
--   RedisSlotsCache, over a parameter for the client of Redis and the coding of slots, whose
--   documented behaviour is in Cache/Redis/Laws; Cache/Contract says what any cache promises, and
--   Cache/Redis/Refines that this one keeps it.
-- - Http and its children: internal/app/http.go. Users, Rooms and Bookings have the handlers, Router
--   the two middlewares and the routes; Access, Accounts, Calls, Answers, Pagination, Effects,
--   Service, Coherence and Outcomes prove. The handlers take any Store and any SlotsCache; the last
--   four know of them only their contracts.
-- - Times, Strconv: what the service uses of the packages time, fmt and strconv. An instant is a
--   number of nanoseconds from the start of the year 0, in UTC.
-- - Prelude and its children: `int` with its wrap-around at 64 bits, slices, maps, slices.SortFunc.
-- - Seed, Seed/Rows: seedSlots of cmd/seed/main.go, over a parameter for the database.
-- - Startup, Startup/Outcomes: cmd/server/main.go, internal/app/migrations.go and the constructors
--   NewPostgresStore and NewRedisSlotsCache, over parameters for the environment and the packages.
-- - Examples and its children: tests by evaluation, and the theorems at concrete inputs.
--
-- Conventions and bounds. A map is an association list, in the order in which one `range` meets its
-- entries; the theorems hold for every such list, so for every order, and the theorem on the pages of
-- ListAllBookings lets each call meet an order of its own. The loop `cut` runs on fuel,
-- one round more than the half hours between start and end, and the theorem on
-- GenerateSlotsForDate shows that it reaches the end. A sort with a comparison that panics on a nil
-- pointer panics where it compares at all. The numbers `page` and `pageSize` are 64-bit integers, and
-- their arithmetic wraps around.
--
-- Not modelled: the SQL of the migrations beyond the constraints in
-- Postgres/Laws, the settings of the connection pool and the rest of the seed command; JSON, the
-- routing of chi and request contexts; and the interleaving of calls within one handler, since a call
-- of the store runs to its end before another begins. For PostgresStore this includes what two
-- transactions at once do: the law of Commit is about a transaction that no other one overlaps.
pub mod Prelude
pub mod Times
pub mod Strconv
pub mod Types
pub mod Slots
pub mod Memory
pub mod Store
pub mod Postgres
pub mod Cache
pub mod Contract
pub mod Jwt
pub mod Http
pub mod Seed
pub mod Startup
pub mod Examples
