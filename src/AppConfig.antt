-- ===== src/AppConfig.antt =====
-- internal/store/store.go: the configuration that the administrator saves, in the one row of
-- app_config.
pub mod Saved
pub mod Import
use continuum_plugin_bookwar.Prelude.{
  ℕ, zero, suc, String, Bool, true, false, ◌&&◌, not, Option, none, some, List, [], ◌∷◌, ◌++◌,
  Bytes, codes, ◌==◌, if◌then◌else◌,
}
use continuum_plugin_bookwar.Result.{Result, ok, err}
use continuum_plugin_bookwar.World.{
  Outcome, done, refused, unconfirmed, query_result, on_result, on_error,
}
use continuum_plugin_bookwar.Runtime.{Config}

-- the column data of the row with id 1, which is `none` when there is no row
pub record AppDb : Type 0 where
  pub content : Option Bytes
  pub turn : ℕ

-- encoding/json at Config, what PostgreSQL makes of a jsonb text, and its answers by turn
pub record Backend : Type 0 where
  pub outcome : ℕ → Outcome
  pub marshal : Config → Result Bytes
  -- the fields that the text does not have keep their values
  pub unmarshal_into : Config → Bytes → Result Config
  pub jsonb : Bytes → Bytes

abbrev pub default_app_config : Config
default_app_config = record {
  database_url = "";
  base_url = "https://bookwarehouse.domain.com";
  api_key = "";
  default_cover_size = "medium";
  request_quality_profile = "";
  enable_auto_monitoring = false;
  stream_signing_secret = "";
}

-- `if s == "" { s = default }`
unfoldable pub given_or : String → String → String
given_or s default = if s == "" then default else s

unfoldable pub same_flag : Bool → Bool → Bool
same_flag true b = b
same_flag false b = not b

-- reflect.DeepEqual of two Configs
unfoldable pub same_config : Config → Config → Bool
unfolding same_flag
same_config c d =
    c.database_url == d.database_url
    && c.base_url == d.base_url
    && c.api_key == d.api_key
    && c.default_cover_size == d.default_cover_size
    && c.request_quality_profile == d.request_quality_profile
    && same_flag c.enable_auto_monitoring d.enable_auto_monitoring
    && c.stream_signing_secret == d.stream_signing_secret

-- a statement's error, and the database after it
end_statement : Outcome → AppDb → AppDb → Option Bytes × AppDb
end_statement done before after = (none, after)
end_statement (refused e) before after = (some e, before)
end_statement (unconfirmed e) before after = (some e, after)

-- INSERT ... ON CONFLICT (id) DO NOTHING
unfoldable pub ensured : Bytes → Option Bytes → Option Bytes
ensured raw none = some raw
ensured raw (some old) = some old

module _ (b : Backend) where
  exec_data : (Option Bytes → Option Bytes) → AppDb → Option Bytes × AppDb
  unfolding end_statement
  exec_data f db =
      let before = record db { turn = suc db.turn } in
      end_statement (b.outcome db.turn) before (record before { content = f db.content })

  decoded : Bytes → Result Config
  decoded [] = ok default_app_config
  decoded (c ∷ raw) =
      on_result (b.unmarshal_into default_app_config (c ∷ raw))
        (λ e. err (codes "decode app_config: " ++ e)) (λ cfg. ok cfg)

  with_cover_size : Result Config → Result Config
  unfolding given_or
  with_cover_size (ok cfg) =
      ok (record cfg { default_cover_size = given_or cfg.default_cover_size "medium" })
  with_cover_size (err e) = err e

  -- what follows the SELECT; `again` is the second call of GetAppConfig
  from_row : (AppDb → Result Config × AppDb) → Result (Option Bytes) → AppDb → Result Config × AppDb
  unfolding ensured exec_data decoded with_cover_size
  from_row again (err e) db = (err (codes "get app_config: " ++ e), db)
  from_row again (ok none) db =
      let (failed, db') = exec_data (ensured (b.jsonb (codes "{}"))) db in
      on_error failed (λ e. (err (codes "ensure app_config: " ++ e), db')) (again db')
  from_row again (ok (some raw)) db = (with_cover_size (decoded raw), db)

  -- at most so many calls of GetAppConfig inside each other
  pub get_within : ℕ → AppDb → Result Config × AppDb
  unfolding from_row
  get_within zero db = (err (codes "no row"), db)
  get_within (suc calls) db =
      from_row (get_within calls) (query_result (b.outcome db.turn) db.content)
        (record db { turn = suc db.turn })

  -- The second call finds the row that the first has made.
  unfoldable pub get_app_config : AppDb → Result Config × AppDb
  unfolding get_within
  get_app_config db = get_within 2 db

  -- what UpdateAppConfig stores
  unfoldable pub saved : Config → Config
  unfolding given_or
  saved cfg = record cfg {
    database_url = "";
    default_cover_size = given_or cfg.default_cover_size "medium";
  }

  unfoldable pub update_app_config : Config → AppDb → Option Bytes × AppDb
  unfolding saved exec_data
  update_app_config cfg db =
      on_result (b.marshal (saved cfg)) (λ e. (some (codes "encode app_config: " ++ e), db))
        λ raw.
          let (failed, db') = exec_data (λ old. some (b.jsonb raw)) db in
          on_error failed (λ e. (some (codes "update app_config: " ++ e), db')) (none, db')

  -- the legacy configuration with the current one where it is empty
  merged : Config → Config → Config
  unfolding given_or
  merged legacy current = record legacy {
    database_url = "";
    base_url = given_or legacy.base_url current.base_url;
    default_cover_size = given_or legacy.default_cover_size current.default_cover_size;
  }

  import_over : Config → Config → AppDb → Result Config × AppDb
  unfolding same_config merged update_app_config get_app_config
  import_over legacy current db =
      let new = merged legacy current in
      let (failed, db') = update_app_config new db in
      if not (same_config current default_app_config)
      then (ok current, db)
      else if same_config new current
      then (ok current, db)
      else on_error failed (λ e. (err e, db')) (get_app_config db')

  unfoldable pub import_legacy_app_config : Config → AppDb → Result Config × AppDb
  unfolding import_over get_app_config
  import_legacy_app_config legacy db =
      let (answer, db') = get_app_config db in
      on_result answer (λ e. (err e, db')) (λ current. import_over legacy current db')
