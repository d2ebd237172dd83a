-- ===== src/Process.antt =====
-- cmd/silo-plugin-bookwarehouse-ebook/main.go: the parts of the running plugin, and the callback
-- of Configure, which builds and swaps them. Clients and pools are objects: a client is a
-- reference to a cell of `clients`, so that the parts that hold one reference share the client.
pub mod Admin
pub mod Wired
pub mod Swap
pub mod Runs
pub mod Saves
pub mod Survives
pub mod Patches
use continuum_plugin_bookwar.Prelude.{
  ℕ, zero, suc, String, Bool, true, false, not, Option, none, some, List, [], ◌∷◌, ◌++◌, ◌==◌,
  Bytes, codes, utf8, ltb, eqb, length, if◌then◌else◌,
}
use continuum_plugin_bookwar.Result.{Result, ok, err}
use continuum_plugin_bookwar.World.{on_result, on_error}
use continuum_plugin_bookwar.Runtime.{Config, empty_config}
use continuum_plugin_bookwar.AppConfig.{AppDb, Backend, import_legacy_app_config}
use continuum_plugin_bookwar.Upstream.{Client, new_client, set_default_cover_size}
use continuum_plugin_bookwar.Migrate.{Migrator, run_migrations}

-- A store.Store: its pool, and the DSN that the pool was made for.
pub record StoreRef : Type 0 where
  pub pool : ℕ
  pub dsn : String

-- server.Deps, with the secret that the catalogue's handlers got when the router was built. The
-- client is a reference.
pub record ServerDeps : Type 0 where
  pub auto_monitoring : Bool
  pub client : Option ℕ
  pub store : Option StoreRef
  pub config : Config
  pub secret : String

-- what consumer.Deps and reconciler.Deps refer to
pub record PartDeps : Type 0 where
  pub client : ℕ
  pub store : StoreRef

-- The variables of `main`, the clients, the pools that are not closed, and the row of app_config
-- of each database.
pub record Process : Type 0 where
  pub server : ServerDeps
  pub consumer : Option PartDeps
  pub reconciler : Option PartDeps
  pub pool : Option ℕ
  pub open_pools : List ℕ
  pub next_pool : ℕ
  pub clients : List Client
  pub dbs : String → AppDb

-- pgxpool: the error of ParseConfig, its pool size, and the error of NewWithConfig for a size
pub record Pools : Type 0 where
  pub bad_dsn : String → Option Bytes
  pub max_conns : String → ℕ
  pub bad_pool : String → ℕ → Option Bytes

-- `if pcfg.MaxConns < 16 { pcfg.MaxConns = 16 }`
unfoldable pub at_least_16 : ℕ → ℕ
at_least_16 n = if ltb n 16 then 16 else n

-- server.New(server.Deps{}).Handler(), and the variables before the first Configure
unfoldable pub start : (String → AppDb) → Process
start dbs = record {
  server = record {
    auto_monitoring = false;
    client = none;
    store = none;
    config = empty_config;
    secret = "";
  };
  consumer = none;
  reconciler = none;
  pool = none;
  open_pools = [];
  next_pool = 0;
  clients = [];
  dbs = dbs;
}

-- the row of the database `dsn` becomes `db`
unfoldable pub set_db : String → AppDb → (String → AppDb) → String → AppDb
set_db dsn db dbs other = if other == dsn then db else dbs other

-- p.Close()
unfoldable pub close_pool : ℕ → List ℕ → List ℕ
close_pool p [] = []
close_pool p (q ∷ qs) = let rest = close_pool p qs in if eqb p q then rest else q ∷ rest

-- `if old := poolPtr.Swap(p); old != nil { old.Close() }`
pub close_old : Option ℕ → List ℕ → List ℕ
unfolding close_pool
close_old none pools = pools
close_old (some old) pools = close_pool old pools

module _ (b : Backend) (pools : Pools) (m : Migrator) where
  -- The rest of the callback, once the configuration is known: `p` is the new pool.
  unfoldable pub install : ℕ → Config → Process → Process
  unfolding close_old
  install p cfg s =
      let ref = length s.clients in
      let store : StoreRef = record { pool = p; dsn = cfg.database_url } in
      let part : PartDeps = record { client = ref; store = store } in
      record s {
        clients =
            s.clients
            ++ set_default_cover_size (new_client (utf8 cfg.base_url) cfg.api_key)
                cfg.default_cover_size
              ∷ [];
        server = record {
          auto_monitoring = cfg.enable_auto_monitoring;
          client = some ref;
          store = some store;
          config = cfg;
          secret = cfg.stream_signing_secret;
        };
        consumer = some part;
        reconciler = some part;
        pool = some p;
        open_pools = close_old s.pool s.open_pools;
      }

  -- what follows the creation of the pool `p`
  unfoldable pub set_up : ℕ → Config → Process → Option Bytes × Process
  unfolding install close_pool set_db
  set_up p cfg s =
      let closed = λ (t : Process). record t { open_pools = close_pool p t.open_pools } in
      on_error (run_migrations m (utf8 cfg.database_url))
        (λ e. (some (codes "migrate: " ++ e), closed s))
        (let (answer, db) = import_legacy_app_config b cfg (s.dbs cfg.database_url) in
          let s' : Process = record s { dbs = set_db cfg.database_url db s.dbs } in
          on_result answer (λ e. (some (codes "import app config: " ++ e), closed s'))
            (λ app. (none, install p (record app { database_url = cfg.database_url }) s')))

  -- the callback that `main` gives to pluginrt.New; its error, and the process
  unfoldable pub on_configure : Config → Process → Option Bytes × Process
  unfolding set_up at_least_16
  on_configure cfg s =
      on_error (pools.bad_dsn cfg.database_url) (λ e. (some (codes "parse db: " ++ e), s))
        (on_error (pools.bad_pool cfg.database_url (at_least_16 (pools.max_conns cfg.database_url)))
          (λ e. (some (codes "pgxpool: " ++ e), s))
          (set_up s.next_pool cfg
            (record s { next_pool = suc s.next_pool; open_pools = s.next_pool ∷ s.open_pools })))
