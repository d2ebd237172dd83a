-- ===== src/Process/Swap.antt =====
-- The end of the callback of Configure in cmd/silo-plugin-bookwarehouse-ebook/main.go, a store at a
-- time: calls that run meanwhile see the process between two of these steps.
use continuum_plugin_bookwar.Prelude.{
  ℕ, zero, suc, ◌≡◌, refl, ap, ◌∙◌, Bool, true, false, ◌||◌, Option, none, some, List, [], ◌∷◌,
  ◌++◌, take, length, eqb, utf8, arith,
}
use mathlib.Core.Option
use continuum_plugin_bookwar.Runtime.{Config}
use continuum_plugin_bookwar.AppConfig.{Backend}
use continuum_plugin_bookwar.Migrate.{Migrator}
use continuum_plugin_bookwar.Upstream.{new_client, set_default_cover_size}
use continuum_plugin_bookwar.Process.{StoreRef, PartDeps, Process, Pools, close_old, install}
use continuum_plugin_bookwar.Process.Wired.{
  IsWired, IsOpening, pools_of, closed_old, opened, opened-IsOpening,
}

-- `bookwarehouse.NewClient(...)` and `SetDefaultCoverSize`
unfoldable pub make_client : Config → Process → Process
make_client cfg s = record s {
  clients =
      s.clients
      ++ set_default_cover_size (new_client (utf8 cfg.base_url) cfg.api_key) cfg.default_cover_size
        ∷ [];
}

-- `httpSrv.SetHandler(srv.Handler())`
unfoldable pub set_handler : PartDeps → Config → Process → Process
set_handler part cfg s = record s {
  server = record {
    auto_monitoring = cfg.enable_auto_monitoring;
    client = some part.client;
    store = some part.store;
    config = cfg;
    secret = cfg.stream_signing_secret;
  };
}

-- `consumerDepsP.Store(...)`
unfoldable pub store_consumer : PartDeps → Process → Process
store_consumer part s = record s { consumer = some part }

-- `reconcilerPtr.Store(...)`
unfoldable pub store_reconciler : PartDeps → Process → Process
store_reconciler part s = record s { reconciler = some part }

-- `poolPtr.Swap(p)`
unfoldable pub swap_pool : ℕ → Process → Process
swap_pool p s = record s { pool = some p }

-- `old.Close()`, where there was a pool
unfoldable pub close_swapped : Option ℕ → Process → Process
close_swapped old s = record s { open_pools = close_old old s.open_pools }

-- the steps, for a process whose pool is `old` and which has `n` clients
unfoldable pub install_steps : ℕ → Option ℕ → ℕ → Config → List (Process → Process)
install_steps n old p cfg =
    let part : PartDeps = record {
      client = n;
      store = record { pool = p; dsn = cfg.database_url };
    } in
    make_client cfg
    ∷ set_handler part cfg
    ∷ store_consumer part
    ∷ store_reconciler part
    ∷ swap_pool p
    ∷ close_swapped old
    ∷ []

unfoldable pub run_steps : List (Process → Process) → Process → Process
run_steps [] s = s
run_steps (f ∷ fs) s = run_steps fs (f s)

unfoldable pub is_open : ℕ → List ℕ → Bool
is_open p [] = false
is_open p (q ∷ qs) = let rest = is_open p qs in eqb p q || rest

-- The pool of a store, where there is one, is open.
pub IsUsable : List ℕ → Option StoreRef → Type 0
IsUsable pools none = Unit
IsUsable pools (some r) = is_open r.pool pools ≡ true

-- A call of any part finds an open pool.
pub record AllUsable (s : Process) : Type 0 where
  pub server : IsUsable s.open_pools s.server.store
  pub consumer : IsUsable s.open_pools (Option.map (λ (d : PartDeps). d.store) s.consumer)
  pub reconciler : IsUsable s.open_pools (Option.map (λ (d : PartDeps). d.store) s.reconciler)

new-IsUsable : (p : ℕ) (pools : List ℕ) (r : StoreRef) → r.pool ≡ p → IsUsable (p ∷ pools) (some r)
unfolding is_open IsUsable
new-IsUsable p pools r e = ground (arith, e)

-- the store of an old part, whose pool is the current one
old-IsUsable :
    (p : ℕ) (pool : Option ℕ) (o : Option PartDeps)
    → pool ≡ Option.map (λ (d : PartDeps). d.store.pool) o
    → IsUsable (p ∷ pools_of pool) (Option.map (λ (d : PartDeps). d.store) o)
unfolding is_open IsUsable
old-IsUsable p pool none e = tt
old-IsUsable p pool (some d) e = rw e (ground arith)

module _ (b : Backend) (pools : Pools) (m : Migrator) where
  -- The steps together are the rest of the callback.
  install_steps-install :
      (p : ℕ) (cfg : Config) (s : Process)
      → run_steps (install_steps (length s.clients) s.pool p cfg) s ≡ install b pools m p cfg s
  unfolding run_steps install_steps make_client set_handler store_consumer store_reconciler
      swap_pool close_swapped install
  install_steps-install p cfg s = refl

  module _ (p : ℕ) (cfg : Config) (s : Process) (w : IsOpening p s) where
    abbrev part : PartDeps
    part = record { client = length s.clients; store = record { pool = p; dsn = cfg.database_url } }

    before : AllUsable s
    before = record {
      server = rw (w.opened, w.store) (old-IsUsable p s.pool s.consumer w.pool);
      consumer = rw w.opened (old-IsUsable p s.pool s.consumer w.pool);
      reconciler = rw (w.opened, w.shared) (old-IsUsable p s.pool s.consumer w.pool);
    }

    new : IsUsable s.open_pools (some part.store)
    new = rw w.opened (new-IsUsable p (pools_of s.pool) part.store refl)

    closed : IsUsable (close_old s.pool s.open_pools) (some part.store)
    closed =
        rw (ap (close_old s.pool) w.opened ∙ closed_old s.pool p w.above)
          (new-IsUsable p [] part.store refl)

    -- However many of the steps have run, the new pool and the ones that a part has are open.
    install_steps-AllUsable :
        (n : ℕ) → AllUsable (run_steps (take n (install_steps (length s.clients) s.pool p cfg)) s)
    unfolding run_steps install_steps make_client set_handler store_consumer store_reconciler
        swap_pool close_swapped
    install_steps-AllUsable zero = before
    install_steps-AllUsable (suc zero) = record {
      server = before.server;
      consumer = before.consumer;
      reconciler = before.reconciler;
    }
    install_steps-AllUsable (suc (suc zero)) = record {
      server = new;
      consumer = before.consumer;
      reconciler = before.reconciler;
    }
    install_steps-AllUsable (suc (suc (suc zero))) = record {
      server = new;
      consumer = new;
      reconciler = before.reconciler;
    }
    install_steps-AllUsable (suc (suc (suc (suc zero)))) = record {
      server = new;
      consumer = new;
      reconciler = new;
    }
    install_steps-AllUsable (suc (suc (suc (suc (suc zero))))) = record {
      server = new;
      consumer = new;
      reconciler = new;
    }
    install_steps-AllUsable (suc (suc (suc (suc (suc (suc zero)))))) = record {
      server = closed;
      consumer = closed;
      reconciler = closed;
    }
    install_steps-AllUsable (suc (suc (suc (suc (suc (suc (suc n))))))) = record {
      server = closed;
      consumer = closed;
      reconciler = closed;
    }

  -- From a process whose parts share client, store and pool, with a new pool: after each of the steps
  -- every part finds its pool open, and all of them together are the rest of the callback.
  pub run_steps-AllUsable :
      (cfg : Config) (s : Process)
      → IsWired s
      → (n : ℕ)
      → AllUsable
          (run_steps (take n (install_steps (length s.clients) s.pool s.next_pool cfg)) (opened s))
        × (run_steps (install_steps (length s.clients) s.pool s.next_pool cfg) (opened s)
            ≡ install b pools m s.next_pool cfg (opened s))
  run_steps-AllUsable cfg s w n = (
    install_steps-AllUsable s.next_pool cfg (opened s) (opened-IsOpening s w) n,
    install_steps-install s.next_pool cfg (opened s),
  )
