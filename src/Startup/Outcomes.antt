-- ===== src/Startup/Outcomes.antt =====
-- When the server listens, and with which cache.
use Prim.Native.String
use avito_test.Prelude.{◌≡◌, ◌↔◌, ◌⊎◌, refl, inl, inr, Option, none, some, String, Option-cases}
use avito_test.Startup.{
  Opened, opened, unopened, Up, applied, no_change, broken, Surroundings, getenv, run_migrations,
  CacheChoice, noop, redis, Setup, fatal, stopped, main, after_ping, slots_cache, setup_of,
}

abbrev pub dsn_of : Surroundings → String
dsn_of s = getenv s "DATABASE_URL" "postgres://postgres:postgres@db:5432/booking?sslmode=disable"

abbrev pub path_of : Surroundings → String
path_of s = getenv s "MIGRATIONS_PATH" "file:///app/internal/migrations"

-- The database is as the migrations leave it, and can be opened.
abbrev pub IsReady : Surroundings → Type 0
IsReady s =
    (s.new_migration (path_of s) (dsn_of s) ≡ opened)
    × ((s.up (path_of s) (dsn_of s) ≡ applied) ⊎ (s.up (path_of s) (dsn_of s) ≡ no_change))
    × (s.open_database (dsn_of s) ≡ opened)

-- The server listens over the cache of Redis where the PING is answered, and over none where not.
abbrev pub HasCache : Surroundings → CacheChoice → Type 0
HasCache s cache =
    let addr = getenv s "REDIS_ADDR" "redis:6379" in
    let password = getenv s "REDIS_PASSWORD" "" in
    ((s.ping addr password ≡ none) × (cache ≡ redis addr password "slots"))
    ⊎ (((m : String) × (s.ping addr password ≡ some m)) × (cache ≡ noop))

abbrev pub Listens : Surroundings → Setup → Type 0
Listens s setup = main s ≡ stopped setup (s.listen_and_serve setup.addr)

Opened-cases : (o : Opened) → (o ≡ opened) ⊎ ((m : String) × (o ≡ unopened m))
Opened-cases opened = inl refl
Opened-cases (unopened m) = inr (m, refl)

Up-cases : (u : Up) → ((u ≡ applied) ⊎ (u ≡ no_change)) ⊎ ((m : String) × (u ≡ broken m))
Up-cases applied = inl (inl refl)
Up-cases no_change = inl (inr refl)
Up-cases (broken m) = inr (m, refl)

-- RunMigrations reports no error exactly where the files and the database can be opened and `Up`
-- answers nil or ErrNoChange.
pub run_migrations_iff :
    (s : Surroundings) (path dsn : String)
    → (run_migrations s path dsn ≡ none) ↔ (
        (s.new_migration path dsn ≡ opened)
        × ((s.up path dsn ≡ applied) ⊎ (s.up path dsn ≡ no_change)))
unfolding run_migrations
run_migrations_iff s path dsn = elim (Opened-cases (s.new_migration path dsn)) [
  | inr (m, e) ↦ (λ h. cc (rw (e, run_migrations) at h), λ (o, _). cc (e, o))
  | inl o ↦ elim (Up-cases (s.up path dsn)) [
    | inl fine ↦ (λ _. (o, fine), λ _. passes o fine)
    | inr (m, e) ↦ (
      λ h. cc (rw (o, e, run_migrations) at h),
      λ (_, fine). elim fine [ inl f ↦ cc f | inr f ↦ cc f ],
    )
  ]
]
  where
    passes :
        s.new_migration path dsn ≡ opened
        → (s.up path dsn ≡ applied) ⊎ (s.up path dsn ≡ no_change)
        → run_migrations s path dsn ≡ none
    passes o (inl f) = rw (o, f, run_migrations)
    passes o (inr f) = rw (o, f, run_migrations)

slots_cache-HasCache :
    (addr password : String) (o : Option String)
    → let cache = slots_cache (after_ping addr password o) in
      ((o ≡ none) × (cache ≡ redis addr password "slots"))
      ⊎ (((m : String) × (o ≡ some m)) × (cache ≡ noop))
slots_cache-HasCache addr password none = inl (refl, refl)
slots_cache-HasCache addr password (some m) = inr ((m, refl), refl)

-- The server either listens, on the database of the environment and with the cache of Redis if its
-- PING is answered and none if not, or ends with a fatal error before it listens. It listens
-- exactly where the migrations end well and the database can be opened: a Redis that does not
-- answer never stops it.
pub main-outcome :
    (s : Surroundings)
    → (IsReady s
        × ((setup : Setup) × Listens s setup × (setup.dsn ≡ dsn_of s) × HasCache s setup.cache))
      ⊎ ((¬ IsReady s) × ((m : String) × (main s ≡ fatal m)))
unfolding main
main-outcome s = elim (Option-cases (run_migrations s (path_of s) (dsn_of s))) [
  | inr (m, e) ↦ inr (
    λ (o, up, _). cc (e, (run_migrations_iff s (path_of s) (dsn_of s)).1 (o, up)),
    (String.◌++◌ "migrate: " m, rw (e, main) refl),
  )
  | inl fine ↦ elim (Opened-cases (s.open_database (dsn_of s))) [
    | inr (m, e) ↦
        inr (λ (_, _, o). cc (e, o), (String.◌++◌ "db open: " m, rw (fine, e, main) refl))
    | inl o ↦
        let (made, up) = (run_migrations_iff s (path_of s) (dsn_of s)).0 fine in
        inl (
          (made, up, o),
          (
            setup_of s (dsn_of s),
            rw (fine, o, main) refl,
            refl,
            slots_cache-HasCache (getenv s "REDIS_ADDR" "redis:6379") (getenv s "REDIS_PASSWORD" "")
                _,
          ),
        )
  ]
]
