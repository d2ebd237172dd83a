-- ===== src/AppConfig/Import.antt =====
-- ImportLegacyAppConfig on a configuration that the administrator has changed.
use mathlib.Core.Path.{sym}
use continuum_plugin_bookwar.Prelude.{◌≡◌, ◌≢◌, refl, ◌∙◌, false, Bool-cases, inl, inr}
use continuum_plugin_bookwar.Result.{Result, ok, err, ok-injective}
use continuum_plugin_bookwar.World.{Outcome, done, refused, unconfirmed, query_result, on_result}
use continuum_plugin_bookwar.Runtime.{Config}
use continuum_plugin_bookwar.AppConfig.{
  AppDb, Backend, default_app_config, same_config, from_row, get_within, get_app_config,
  import_over, import_legacy_app_config,
}
use continuum_plugin_bookwar.AppConfig.Saved.{same_config-eq}

differs : (c d : Config) → c ≢ d → same_config c d ≡ false
differs c d ne = elim (Bool-cases (same_config c d)) [
  | inl same ↦ absurd (ne (same_config-eq c d same))
  | inr other ↦ other
]

module _ (b : Backend) where
  -- a read that succeeds has run its query
  get_app_config-done :
      (o : Outcome) (c : Config) (db : AppDb)
      → b.outcome db.turn ≡ o
      → (get_app_config b db).0 ≡ ok c
      → o ≡ done
  unfolding get_app_config get_within query_result from_row
  get_app_config-done done c db k h = refl
  get_app_config-done (refused e) c db k h = cc (rw k at h)
  get_app_config-done (unconfirmed e) c db k h = cc (rw k at h)

  import_over-kept :
      (legacy current : Config) (db : AppDb)
      → current ≢ default_app_config
      → (import_over b legacy current db).0 ≡ ok current
  unfolding import_over
  import_over-kept legacy current db ne = rw (differs current default_app_config ne) refl

  imported_from :
      (legacy current app : Config) (r : Result Config) (db : AppDb)
      → (r ≡ ok current)
      → current ≢ default_app_config
      → (on_result {B = Result Config × AppDb} r
          (λ e. (err e, db))
          (λ c. import_over b legacy c db)).0
        ≡ ok app
      → app ≡ current
  imported_from legacy current app (err e) db read ne h = cc
  imported_from legacy current app (ok c) db read ne h =
      let same : c ≡ current = ok-injective read in
      sym (ok-injective (sym (import_over-kept legacy current db ne) ∙ rw same at h))

  read_ok :
      (legacy app : Config) (r : Result Config) (db : AppDb)
      → (on_result {B = Result Config × AppDb} r
          (λ e. (err e, db))
          (λ c. import_over b legacy c db)).0
        ≡ ok app
      → (c : Config) × (r ≡ ok c)
  read_ok legacy app (ok c) db h = (c, refl)
  read_ok legacy app (err e) db h = cc

  -- An import that succeeds gives the stored configuration, unless that is the default one.
  pub import_legacy_app_config-kept :
      (legacy current app : Config) (db : AppDb)
      → (b.outcome db.turn ≡ done → (get_app_config b db).0 ≡ ok current)
      → current ≢ default_app_config
      → (import_legacy_app_config b legacy db).0 ≡ ok app
      → app ≡ current
  unfolding import_legacy_app_config
  import_legacy_app_config-kept legacy current app db stored ne h =
      let (r, db') = get_app_config b db in
      let (c, read) = read_ok legacy app r db' h in
      let ran = get_app_config-done (b.outcome db.turn) c db refl read in
      imported_from legacy current app r db' (stored ran) ne h
