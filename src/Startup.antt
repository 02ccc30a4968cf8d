-- ===== src/Startup.antt =====
-- The start of the server: cmd/server/main.go, internal/app/migrations.go, and the constructors of
-- the store and of the cache.
pub mod Outcomes
use Prim.Native.String
use avito_test.Prelude.{Option, none, some, String, ◌==◌, if◌then◌else◌}

-- What `migrate.New` and `sql.Open` answer: a handle, or an error by its text.
pub data Opened : Type 0 where
  opened : Opened
  unopened : String → Opened

-- What `m.Up` answers: nil, `migrate.ErrNoChange`, or another error.
pub data Up : Type 0 where
  applied : Up
  no_change : Up
  broken : String → Up

-- What main asks of the process and of the packages it uses.
pub record Surroundings : Type 0 where
  -- os.Getenv
  pub variable : String → String
  -- migrate.New
  pub new_migration : (path dsn : String) → Opened
  -- m.Up
  pub up : (path dsn : String) → Up
  -- sql.Open("pgx", dsn)
  pub open_database : (dsn : String) → Opened
  -- the PING of a new Redis client: its error, if any
  pub ping : (addr password : String) → Option String
  -- http.ListenAndServe, which returns an error only
  pub listen_and_serve : (addr : String) → String

-- getenv
abbrev pub getenv : Surroundings → (k fallback : String) → String
getenv s k fallback = let v = s.variable k in if v == "" then fallback else v

abbrev pub after_up : Up → Option String
after_up applied = none
after_up no_change = none
after_up (broken m) = some m

abbrev pub migrate : Opened → Up → Option String
migrate (unopened m) up = some m
migrate opened up = after_up up

-- RunMigrations: the error that it returns, if any.
unfoldable pub run_migrations : Surroundings → (path dsn : String) → Option String
run_migrations s path dsn = migrate (s.new_migration path dsn) (s.up path dsn)

-- The cache that the server gets.
pub data CacheChoice : Type 0 where
  noop : CacheChoice
  redis : (addr password prefix : String) → CacheChoice

abbrev pub after_ping : (addr password : String) → Option String → Option CacheChoice
after_ping addr password (some _) = none
after_ping addr password none = some (redis addr password "slots")

-- NewRedisSlotsCache; `none` stands for its error, after which main keeps NoopSlotsCache.
abbrev pub new_redis_slots_cache : Surroundings → (addr password : String) → Option CacheChoice
new_redis_slots_cache s addr password = after_ping addr password (s.ping addr password)

abbrev pub slots_cache : Option CacheChoice → CacheChoice
slots_cache none = noop
slots_cache (some cache) = cache

-- What `NewServer` and `ListenAndServe` are called with.
pub record Setup : Type 0 where
  pub dsn : String
  pub jwt_secret : String
  pub cache : CacheChoice
  pub addr : String

-- How main ends: by `log.Fatalf` before it listens, or by `log.Fatal` once ListenAndServe returns.
pub data Ending : Type 0 where
  fatal : String → Ending
  stopped : Setup → String → Ending

abbrev pub setup_of : Surroundings → (dsn : String) → Setup
setup_of s dsn = record {
  dsn = dsn;
  jwt_secret = getenv s "JWT_SECRET" "dev-secret";
  cache =
      slots_cache (
        new_redis_slots_cache s (getenv s "REDIS_ADDR" "redis:6379")
          (getenv s "REDIS_PASSWORD" ""));
  addr = String.◌++◌ ":" (getenv s "PORT" "8080");
}

-- The part of main from NewPostgresStore on.
abbrev pub start : Surroundings → (dsn : String) → Opened → Ending
start s dsn (unopened m) = fatal (String.◌++◌ "db open: " m)
start s dsn opened = let setup = setup_of s dsn in stopped setup (s.listen_and_serve setup.addr)

abbrev pub start_migrated : Surroundings → (dsn : String) → Option String → Ending
start_migrated s dsn (some m) = fatal (String.◌++◌ "migrate: " m)
start_migrated s dsn none = start s dsn (s.open_database dsn)

unfoldable pub main : Surroundings → Ending
unfolding run_migrations
main s =
    let dsn =
      getenv s "DATABASE_URL" "postgres://postgres:postgres@db:5432/booking?sslmode=disable" in
    start_migrated s dsn
      (run_migrations s (getenv s "MIGRATIONS_PATH" "file:///app/internal/migrations") dsn)
