-- ===== src/Process/Runs.antt =====
-- Sequences of configurations, and of reads and saves of the administrator.
use mathlib.Core.Path.{subst}
use continuum_plugin_bookwar.Prelude.{
  ℕ, zero, suc, ◌≡◌, refl, sym, ap, inl, inr, String, Option, none, some, List, [], ◌∷◌,
  Option-cases, length,
}
use continuum_plugin_bookwar.Result.{Result, ok, err}
use continuum_plugin_bookwar.Runtime.{Config}
use continuum_plugin_bookwar.AppConfig.{AppDb, Backend, get_app_config, update_app_config}
use continuum_plugin_bookwar.Upstream.{Client}
use continuum_plugin_bookwar.Migrate.{Migrator}
use continuum_plugin_bookwar.Process.{StoreRef, Process, Pools, start, on_configure}
use continuum_plugin_bookwar.Process.Admin.{
  update_client, refreshed, refresh_client, show_config, read_body, with_key, get_stored,
  handle_get_config, apply_config, save_config, update_stored, handle_update_config,
}
use continuum_plugin_bookwar.Process.Wired.{IsWired, Above, set_db-IsWired, on_configure-IsWired}

length-update_client :
    (n : ℕ) (f : Client → Client) (cs : List Client) → length (update_client n f cs) ≡ length cs
unfolding update_client
length-update_client n f [] = refl
length-update_client zero f (c ∷ cs) = refl
length-update_client (suc n) f (c ∷ cs) = ap suc (length-update_client n f cs)

length-refresh_client :
    (o : Option ℕ) (next : Config) (cs : List Client)
    → length (refresh_client o next cs) ≡ length cs
unfolding refresh_client
length-refresh_client none next cs = refl
length-refresh_client (some ref) next cs = length-update_client ref (refreshed next) cs

module _ (b : Backend) where
  -- PATCH /admin/config
  apply_config-IsWired : (next : Config) (s : Process) → IsWired s → IsWired (apply_config b next s)
  unfolding apply_config
  apply_config-IsWired next s w = record {
    shared = w.shared;
    client = w.client;
    store = w.store;
    pool = w.pool;
    allocated =
        subst (λ n. Above n s.server.client)
          (sym (length-refresh_client s.server.client next s.clients)) w.allocated;
    opened = w.opened;
    fresh = w.fresh;
  }

  save_config-IsWired :
      (dsn : String) (next : Config) (s : Process)
      → IsWired s
      → IsWired (save_config b dsn next s).1
  unfolding save_config
  save_config-IsWired dsn next s w =
      let (failed, db) = update_app_config b next (s.dbs dsn) in
      let w' = set_db-IsWired dsn db s w in
      elim (Option-cases failed) [
        | inl saved ↦ rw saved (apply_config-IsWired next _ w')
        | inr (e, bad) ↦ rw bad w'
      ]

  read_body-IsWired :
      (dsn : String) (r body : Result Config) (s : Process)
      → IsWired s
      → IsWired (read_body b dsn r body s).1
  unfolding read_body
  read_body-IsWired dsn (err e) body s w = w
  read_body-IsWired dsn (ok cur) (err e) s w = w
  read_body-IsWired dsn (ok cur) (ok next) s w = save_config-IsWired dsn (with_key b next cur) s w

  update_stored-IsWired :
      (o : Option StoreRef) (body : Result Config) (s : Process)
      → IsWired s
      → IsWired (update_stored b o body s).1
  unfolding update_stored
  update_stored-IsWired none body s w = w
  update_stored-IsWired (some store) body s w =
      let (r, db) = get_app_config b (s.dbs store.dsn) in
      read_body-IsWired store.dsn r body _ (set_db-IsWired store.dsn db s w)

  shown-IsWired : (r : Result Config) (s : Process) → IsWired s → IsWired (show_config b r s).1
  unfolding show_config
  shown-IsWired (ok cfg) s w = w
  shown-IsWired (err e) s w = w

  get_stored-IsWired :
      (o : Option StoreRef) (s : Process) → IsWired s → IsWired (get_stored b o s).1
  unfolding get_stored
  get_stored-IsWired none s w = w
  get_stored-IsWired (some store) s w =
      let (r, db) = get_app_config b (s.dbs store.dsn) in
      shown-IsWired r _ (set_db-IsWired store.dsn db s w)

  pub handle_get_config-IsWired : (s : Process) → IsWired s → IsWired (handle_get_config b s).1
  unfolding handle_get_config
  handle_get_config-IsWired s w = get_stored-IsWired s.server.store s w

  pub handle_update_config-IsWired :
      (body : Result Config) (s : Process) → IsWired s → IsWired (handle_update_config b body s).1
  unfolding handle_update_config
  handle_update_config-IsWired body s w = update_stored-IsWired s.server.store body s w

module _ (b : Backend) (pools : Pools) (m : Migrator) where
  -- What the host and the administrator do.
  pub data Event : Type 0 where
    configures : Config → Event
    reads : Event
    saves : Result Config → Event

  unfoldable pub step : Process → Event → Process
  step s (configures cfg) = (on_configure b pools m cfg s).1
  step s reads = (handle_get_config b s).1
  step s (saves body) = (handle_update_config b body s).1

  unfoldable pub run : Process → List Event → Process
  unfolding step
  run s [] = s
  run s (e ∷ es) = run (step s e) es

  step-IsWired : (s : Process) (e : Event) → IsWired s → IsWired (step s e)
  unfolding step
  step-IsWired s (configures cfg) w = on_configure-IsWired b pools m cfg s w
  step-IsWired s reads w = handle_get_config-IsWired b s w
  step-IsWired s (saves body) w = handle_update_config-IsWired b body s w

  run_lem : (s : Process) (es : List Event) → IsWired s → IsWired (run s es)
  unfolding run
  run_lem s [] w = w
  run_lem s (e ∷ es) w = run_lem (step s e) es (step-IsWired s e w)

pub start-IsWired : (dbs : String → AppDb) → IsWired (start dbs)
unfolding start
start-IsWired dbs = record {
  shared = refl;
  client = refl;
  store = refl;
  pool = refl;
  allocated = tt;
  opened = refl;
  fresh = tt;
}

module _ (b : Backend) (pools : Pools) (m : Migrator) where
  -- Whatever sequence of configurations, failed ones included, and of reads and saves of the
  -- administrator follows the start: the server, the consumer and the reconciler share one client
  -- and one store, which is that of the current pool, and no other pool is open.
  pub run-IsWired :
      (dbs : String → AppDb) (es : List (Event b pools m)) → IsWired (run b pools m (start dbs) es)
  run-IsWired dbs es = run_lem b pools m (start dbs) es (start-IsWired dbs)
