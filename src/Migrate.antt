-- ===== src/Migrate.antt =====
-- internal/migrate/runner.go: the migrations of a database.
use continuum_plugin_bookwar.Prelude.{
  Bool, true, false, ◌&&◌, Option, none, some, List, [], ◌∷◌, ◌++◌, Bytes, codes, eqb, length, drop,
  if◌then◌else◌,
}
use continuum_plugin_bookwar.World.{on_error}

-- strings.HasPrefix
unfoldable pub has_prefix : Bytes → Bytes → Bool
has_prefix s [] = true
has_prefix [] (d ∷ p) = false
has_prefix (c ∷ s) (d ∷ p) = eqb c d && has_prefix s p

abbrev prefixes : List Bytes
prefixes = codes "postgres://" ∷ codes "postgresql://" ∷ []

-- the loop over the prefixes, which ends at the first that fits
unfoldable pub driver_dsn_from : List Bytes → Bytes → Bytes
unfolding has_prefix
driver_dsn_from [] dsn = dsn
driver_dsn_from (p ∷ ps) dsn =
    let rest = driver_dsn_from ps dsn in
    if has_prefix dsn p then codes "pgx5://" ++ drop (length p) dsn else rest

unfoldable pub driver_dsn : Bytes → Bytes
unfolding driver_dsn_from
driver_dsn dsn = driver_dsn_from prefixes dsn

-- how (*Migrate).Up ends
pub data Up : Type 0 where
  applied : Up
  no_change : Up
  failed : Bytes → Up

-- golang-migrate: the errors of iofs.New and NewWithSourceInstance, and Up for a DSN
pub record Migrator : Type 0 where
  pub source : Option Bytes
  pub open_error : Bytes → Option Bytes
  pub up : Bytes → Up

up_error : Up → Option Bytes
up_error applied = none
up_error no_change = none
up_error (failed e) = some (codes "apply migrations: " ++ e)

-- the error of Run
unfoldable pub run_migrations : Migrator → Bytes → Option Bytes
unfolding driver_dsn up_error
run_migrations m dsn =
    on_error m.source (λ e. some (codes "load migrations: " ++ e))
      (on_error (m.open_error (driver_dsn dsn)) (λ e. some (codes "init migrate: " ++ e))
        (up_error (m.up (driver_dsn dsn))))
