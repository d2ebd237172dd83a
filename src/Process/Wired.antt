-- ===== src/Process/Wired.antt =====
-- Which objects the parts of the plugin share, and which pools are open, through the callback of
-- Configure.
use mathlib.Core.Path.{subst}
use mathlib.Core.Option
use continuum_plugin_bookwar.Prelude.{
  ℕ, suc, ◌<◌, ◌≡◌, refl, sym, ap, ◌∙◌, inl, inr, String, Option, none, some, List, [], ◌∷◌, ◌++◌,
  Bytes, codes, utf8, Option-cases, length, length-append, arith,
}
use continuum_plugin_bookwar.Result.{Result, ok, err}
use continuum_plugin_bookwar.World.{on_result}
use continuum_plugin_bookwar.Runtime.{Config}
use continuum_plugin_bookwar.AppConfig.{AppDb, Backend, import_legacy_app_config}
use continuum_plugin_bookwar.Migrate.{Migrator, run_migrations}
use continuum_plugin_bookwar.Process.{
  PartDeps, Process, Pools, set_db, at_least_16, close_pool, close_old, install, set_up,
  on_configure,
}

-- the pool that is open for a reference
abbrev pub pools_of : Option ℕ → List ℕ
pools_of none = []
pools_of (some p) = p ∷ []

-- The number is above the one that is there.
abbrev pub Above : ℕ → Option ℕ → Type 0
Above n none = Unit
Above n (some p) = p < n

-- Before the first Configure no part has a client or a store. After it the server, the consumer
-- and the reconciler have the same ones, of which the store is that of the current pool. The
-- current pool is the one that is open.
pub record IsWired (s : Process) : Type 0 where
  pub shared : s.reconciler ≡ s.consumer
  pub client : s.server.client ≡ Option.map (λ (d : PartDeps). d.client) s.consumer
  pub store : s.server.store ≡ Option.map (λ (d : PartDeps). d.store) s.consumer
  pub pool : s.pool ≡ Option.map (λ (d : PartDeps). d.store.pool) s.consumer
  pub allocated : Above (length s.clients) s.server.client
  pub opened : s.open_pools ≡ pools_of s.pool
  pub fresh : Above s.next_pool s.pool

closed_new :
    (pool : Option ℕ) (n : ℕ) → Above n pool → close_pool n (n ∷ pools_of pool) ≡ pools_of pool
unfolding close_pool
closed_new none n h = ground arith
closed_new (some p) n h = ground arith

pub closed_old :
    (pool : Option ℕ) (n : ℕ) → Above n pool → close_old pool (n ∷ pools_of pool) ≡ n ∷ []
unfolding close_old close_pool
closed_old none n h = refl
closed_old (some p) n h = ground arith

Above-suc : (pool : Option ℕ) (n : ℕ) → Above n pool → Above (suc n) pool
Above-suc none n h = tt
Above-suc (some p) n h = omega (arith, h)

pub set_db-IsWired :
    (dsn : String) (db : AppDb) (s : Process)
    → IsWired s
    → IsWired (record s { dbs = set_db dsn db s.dbs })
set_db-IsWired dsn db s w = record {
  shared = w.shared;
  client = w.client;
  store = w.store;
  pool = w.pool;
  allocated = w.allocated;
  opened = w.opened;
  fresh = w.fresh;
}

-- A pool `p` has been made, and is not yet the current one.
pub record IsOpening (p : ℕ) (s : Process) : Type 0 where
  pub shared : s.reconciler ≡ s.consumer
  pub client : s.server.client ≡ Option.map (λ (d : PartDeps). d.client) s.consumer
  pub store : s.server.store ≡ Option.map (λ (d : PartDeps). d.store) s.consumer
  pub pool : s.pool ≡ Option.map (λ (d : PartDeps). d.store.pool) s.consumer
  pub allocated : Above (length s.clients) s.server.client
  pub opened : s.open_pools ≡ p ∷ pools_of s.pool
  pub above : Above p s.pool
  pub fresh : s.next_pool ≡ suc p

-- a pool is made
abbrev pub opened : Process → Process
opened s = record s { next_pool = suc s.next_pool; open_pools = s.next_pool ∷ s.open_pools }

pub opened-IsOpening : (s : Process) → IsWired s → IsOpening s.next_pool (opened s)
opened-IsOpening s w = record {
  shared = w.shared;
  client = w.client;
  store = w.store;
  pool = w.pool;
  allocated = w.allocated;
  opened = ap (λ (ps : List ℕ). s.next_pool ∷ ps) w.opened;
  above = w.fresh;
  fresh = refl;
}

module _ (b : Backend) (pools : Pools) (m : Migrator) where
  closed-IsWired :
      (p : ℕ) (s : Process)
      → IsOpening p s
      → IsWired (record s { open_pools = close_pool p s.open_pools })
  closed-IsWired p s w = record {
    shared = w.shared;
    client = w.client;
    store = w.store;
    pool = w.pool;
    allocated = w.allocated;
    opened = ap (close_pool p) w.opened ∙ closed_new s.pool p w.above;
    fresh = subst (λ n. Above n s.pool) (sym w.fresh) (Above-suc s.pool p w.above);
  }

  install-IsWired :
      (p : ℕ) (cfg : Config) (s : Process) → IsOpening p s → IsWired (install b pools m p cfg s)
  unfolding install
  install-IsWired p cfg s w = record {
    shared = refl;
    client = refl;
    store = refl;
    pool = refl;
    allocated = omega (arith, length-append s.clients);
    opened = ap (close_old s.pool) w.opened ∙ closed_old s.pool p w.above;
    fresh = omega (arith, w.fresh);
  }

  set_db-IsOpening :
      (p : ℕ) (dsn : String) (db : AppDb) (s : Process)
      → IsOpening p s
      → IsOpening p (record s { dbs = set_db dsn db s.dbs })
  set_db-IsOpening p dsn db s w = record {
    shared = w.shared;
    client = w.client;
    store = w.store;
    pool = w.pool;
    allocated = w.allocated;
    opened = w.opened;
    above = w.above;
    fresh = w.fresh;
  }

  imported-IsWired :
      (p : ℕ) (cfg : Config) (s : Process) (r : Result Config)
      → IsOpening p s
      → IsWired
          (on_result {B = Option Bytes × Process} r
            (λ e. (
              some (codes "import app config: " ++ e),
              record s { open_pools = close_pool p s.open_pools },
            ))
            (λ app.
              (none, install b pools m p (record app { database_url = cfg.database_url }) s))).1
  imported-IsWired p cfg s (ok app) w = install-IsWired p _ s w
  imported-IsWired p cfg s (err e) w = closed-IsWired p s w

  set_up-IsWired :
      (p : ℕ) (cfg : Config) (s : Process) → IsOpening p s → IsWired (set_up b pools m p cfg s).1
  unfolding set_up
  set_up-IsWired p cfg s w =
      let (r, db) = import_legacy_app_config b cfg (s.dbs cfg.database_url) in
      elim (Option-cases (run_migrations m (utf8 cfg.database_url))) [
        | inr (e, failed) ↦ rw failed (closed-IsWired p s w)
        | inl migrated ↦
            rw migrated (imported-IsWired p cfg _ r (set_db-IsOpening p cfg.database_url db s w))
      ]

  pub on_configure-IsWired :
      (cfg : Config) (s : Process) → IsWired s → IsWired (on_configure b pools m cfg s).1
  unfolding on_configure
  on_configure-IsWired cfg s w =
      let size = at_least_16 (pools.max_conns cfg.database_url) in
      elim (Option-cases (pools.bad_dsn cfg.database_url)) [
        | inr (e, bad) ↦ rw bad w
        | inl parsed ↦ elim (Option-cases (pools.bad_pool cfg.database_url size)) [
          | inr (e, bad) ↦ rw (parsed, bad) w
          | inl made ↦ rw (parsed, made) (set_up-IsWired s.next_pool cfg _ (opened-IsOpening s w))
        ]
      ]
