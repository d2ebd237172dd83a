-- ===== src/Process/Survives.antt =====
-- A configuration that the administrator has saved, after later configurations and restarts.
use mathlib.Core.Option.{some-injective}
use continuum_plugin_bookwar.Prelude.{
  ℕ, suc, [], ◌∷◌, ◌≡◌, ◌≢◌, refl, sym, ◌∙◌, inl, inr, Option, none, some, Option-cases, Bytes,
  codes, utf8, ◌++◌,
}
use continuum_plugin_bookwar.Result.{Result, ok, err, ok-injective}
use continuum_plugin_bookwar.World.{done, on_result}
use continuum_plugin_bookwar.Runtime.{Config}
use continuum_plugin_bookwar.AppConfig.{
  Backend, default_app_config, get_app_config, saved, import_legacy_app_config,
}
use continuum_plugin_bookwar.AppConfig.Import.{import_legacy_app_config-kept}
use continuum_plugin_bookwar.Migrate.{Migrator, run_migrations}
use continuum_plugin_bookwar.Process.{
  StoreRef, Process, Pools, at_least_16, install, set_up, on_configure, close_pool,
}
use continuum_plugin_bookwar.Process.Admin.{with_key, handle_update_config}
use continuum_plugin_bookwar.Process.Saves.{handle_update_config-Saved}

module _ (b : Backend) (pools : Pools) (m : Migrator) where
  -- What a Configure without an error has installed: the imported configuration.
  record Installed (cfg : Config) (t t' : Process) : Type 0 where
    app : Config
    imported : (import_legacy_app_config b cfg (t.dbs cfg.database_url)).0 ≡ ok app
    config : t'.server.config ≡ record app { database_url = cfg.database_url }
    secret : t'.server.secret ≡ app.stream_signing_secret

  installed :
      (p : ℕ) (cfg : Config) (t s : Process) (r : Result Config)
      → (import_legacy_app_config b cfg (t.dbs cfg.database_url)).0 ≡ r
      → let q =
          on_result {B = Option Bytes × Process} r
            (λ e. (
              some (codes "import app config: " ++ e),
              record s { open_pools = close_pool p s.open_pools },
            ))
            (λ app.
              (none, install b pools m p (record app { database_url = cfg.database_url }) s)) in
        q.0 ≡ none → Installed cfg t q.1
  installed p cfg t s (err e) k h = cc
  installed p cfg t s (ok app) k h = record {
    app = app;
    imported = k;
    config = unfold install in refl;
    secret = unfold install in refl;
  }

  set_up-Installed :
      (p : ℕ) (cfg : Config) (t : Process)
      → (set_up b pools m p cfg t).0 ≡ none
      → Installed cfg t (set_up b pools m p cfg t).1
  unfolding set_up
  set_up-Installed p cfg t h = elim (Option-cases (run_migrations m (utf8 cfg.database_url))) [
    | inr (e, failed) ↦ cc (rw failed at h)
    | inl migrated ↦ rw migrated (installed p cfg t _ _ refl (rw migrated at h))
  ]

  on_configure-Installed :
      (cfg : Config) (t : Process)
      → (on_configure b pools m cfg t).0 ≡ none
      → Installed cfg t (on_configure b pools m cfg t).1
  unfolding on_configure
  on_configure-Installed cfg t h =
      let size = at_least_16 (pools.max_conns cfg.database_url) in
      elim (Option-cases (pools.bad_dsn cfg.database_url)) [
        | inr (e, bad) ↦ cc (rw bad at h)
        | inl parsed ↦ elim (Option-cases (pools.bad_pool cfg.database_url size)) [
          | inr (e, bad) ↦ cc (rw (parsed, bad) at h)
          | inl made ↦
              let t1 : Process = record t {
                next_pool = suc t.next_pool;
                open_pools = t.next_pool ∷ t.open_pools;
              } in
              let i = set_up-Installed t.next_pool cfg t1 (rw (parsed, made) at h) in
              rw (parsed, made)
                (record {
                  app = i.app;
                  imported = i.imported;
                  config = i.config;
                  secret = i.secret;
                })
        ]
      ]

  configured_from :
      (c cfg : Config) (t : Process)
      → (b.outcome (t.dbs cfg.database_url).turn ≡ done
          → (get_app_config b (t.dbs cfg.database_url)).0 ≡ ok c)
      → c ≢ default_app_config
      → (on_configure b pools m cfg t).0 ≡ none
      → ((on_configure b pools m cfg t).1.server.config
          ≡ record c { database_url = cfg.database_url })
        × ((on_configure b pools m cfg t).1.server.secret ≡ c.stream_signing_secret)
  configured_from c cfg t stored ne ran =
      let i = on_configure-Installed cfg t ran in
      let same : i.app ≡ c = import_legacy_app_config-kept b cfg c i.app _ stored ne i.imported in
      (rw (sym same) i.config, rw (sym same) i.secret)

  module _
      (reads : (cfg : Config) (raw : Bytes)
        → cfg.database_url ≡ ""
        → b.marshal cfg ≡ ok raw
        → (b.unmarshal_into default_app_config (b.jsonb raw) ≡ ok cfg) × (b.jsonb raw ≢ [])) where
    -- When a marshalled Config without a DSN is read back over the defaults as it was: what a PATCH
    -- that answers 200 has saved, with the stored API key where the body has none, is the
    -- configuration and the signing secret that a later Configure for the same database installs when
    -- it reports no error and the row still has the content that the PATCH left, in this process or in
    -- a new one, whatever else the host configures; unless what was saved is the default
    -- configuration.
    pub on_configure-handle_update_config :
        (next cur cfg : Config) (place : StoreRef) (s t : Process)
        → s.server.store ≡ some place
        → (get_app_config b (s.dbs place.dsn)).0 ≡ ok cur
        → (handle_update_config b (ok next) s).0.status ≡ 200
        → saved b (with_key b next cur) ≢ default_app_config
        → cfg.database_url ≡ place.dsn
        → (t.dbs place.dsn).content ≡ ((handle_update_config b (ok next) s).1.dbs place.dsn).content
        → (on_configure b pools m cfg t).0 ≡ none
        → ((on_configure b pools m cfg t).1.server.config
            ≡ record (saved b (with_key b next cur)) { database_url = place.dsn })
          × ((on_configure b pools m cfg t).1.server.secret ≡ next.stream_signing_secret)
    on_configure-handle_update_config next cur cfg place s t there was fine changed same kept ran =
        let k = handle_update_config-Saved b reads (ok next) s fine in
        let here : k.place ≡ place = some-injective _ _ (sym k.server_store ∙ there) in
        let next_same : k.next ≡ next = ok-injective (sym k.decoded) in
        let cur_same : k.cur ≡ cur = ok-injective (sym k.current ∙ rw (sym here) at was) in
        let stored = rw (here, next_same, cur_same) at k.saves.stored in
        let (config, secret) =
          configured_from (saved b (with_key b next cur)) cfg t
            (stored (t.dbs cfg.database_url) (rw same kept)) changed ran in
        (rw (sym same) config, secret ∙ unfold saved with_key in refl)
