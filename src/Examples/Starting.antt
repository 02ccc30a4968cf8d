-- ===== src/Examples/Starting.antt =====
-- The start of the server where Redis does not answer.
use avito_test.Prelude.{◌≡◌, ◌⊎◌, some, String}
use avito_test.Startup.{Surroundings, opened, no_change, Setup, fatal, main}
use avito_test.Startup.Outcomes.{IsReady, Listens, HasCache, dsn_of, main-outcome}

abbrev without_redis : Surroundings
without_redis = record {
  variable = λ k. "";
  new_migration = λ path dsn. opened;
  up = λ path dsn. no_change;
  open_database = λ dsn. opened;
  ping = λ addr password. some "connection refused";
  listen_and_serve = λ addr. "server closed";
}

main-outcome_example :
    (IsReady without_redis
      × ((setup : Setup) × Listens without_redis setup
          × (setup.dsn ≡ dsn_of without_redis)
          × HasCache without_redis setup.cache))
    ⊎ ((¬ IsReady without_redis) × ((m : String) × (main without_redis ≡ fatal m)))
main-outcome_example = main-outcome without_redis
