-- ===== src/Process/Patches.antt =====
-- handleUpdateConfig of internal/server/server.go, cut where it reaches the database or an object
-- that other calls share: several PATCH requests interleave. s.deps is read and written without a lock.
-- Its Config takes many words, and the calls that write it at once leave words of several of them:
-- what it holds then is not determined here, but for the DSN, of which each call writes the words that
-- it read there. What other parts read of it meanwhile is not in this module.
pub mod Crossed
pub mod Sound
use continuum_plugin_bookwar.Prelude.{
  ℕ, ◌≡◌, ◌≢◌, String, Option, none, some, List, Bytes, codes, utf8, update,
}
use continuum_plugin_bookwar.Result.{Result, ok, err}
use continuum_plugin_bookwar.Runtime.{Config}
use continuum_plugin_bookwar.AppConfig.{Backend, get_app_config, update_app_config}
use continuum_plugin_bookwar.Upstream.{Client, reconfigure, set_default_cover_size}
use continuum_plugin_bookwar.Process.{StoreRef, Process, set_db}
use continuum_plugin_bookwar.Process.Admin.{
  AdminResponse, answer, error_json, ok_json, store_missing, update_client, with_key,
}

-- Where a call of the handler stands.
pub data Pc : Type 0 where
  idle : Pc
  asked : (body : Result Config) → Pc  -- the decoded body is read later
  decided : (dsn : String) (next : Config) → Pc  -- `next` has its key
  stored : (next : Config) → Pc
  fetched : (next : Config) → Pc  -- `next` has the DSN, and s.deps.Config is written
  assigned : (next : Config) → Pc
  enabled : (next : Config) → Pc  -- s.deps.EnableAutoMonitoring is written
  reconfigured : (next : Config) → Pc
  answered : (r : AdminResponse) → Pc

-- `if s.deps.BookwarehouseClient != nil`, with one call on the client
unfoldable pub on_client : Option ℕ → (Client → Client) → List Client → List Client
on_client none f cs = cs
on_client (some ref) f cs = update_client ref f cs

module _ (b : Backend) where
  -- the process after GetAppConfig
  abbrev pub after_read : String → Process → Process
  after_read dsn s = record s { dbs = set_db dsn (get_app_config b (s.dbs dsn)).1 s.dbs }

  -- the process after UpdateAppConfig
  abbrev pub after_save : String → Config → Process → Process
  after_save dsn next s = record s {
    dbs = set_db dsn (update_app_config b next (s.dbs dsn)).1 s.dbs;
  }

  -- next.DatabaseURL = s.deps.Config.DatabaseURL
  abbrev pub with_dsn : Process → Config → Config
  with_dsn s next = record next { database_url = s.server.config.database_url }

  -- s.deps.Config holds `cfg`
  abbrev pub after_assign : Config → Process → Process
  after_assign cfg s = record s { server = record s.server { config = cfg } }

  -- s.deps.EnableAutoMonitoring
  abbrev pub after_enable : Config → Process → Process
  after_enable next s = record s {
    server = record s.server { auto_monitoring = next.enable_auto_monitoring };
  }

  abbrev pub after_reconfigure : Config → Process → Process
  after_reconfigure next s = record s {
    clients =
        on_client s.server.client (λ c. reconfigure c (utf8 next.base_url) next.api_key) s.clients;
  }

  abbrev pub after_resize : Config → Process → Process
  after_resize next s = record s {
    clients =
        on_client s.server.client (λ c. set_default_cover_size c next.default_cover_size) s.clients;
  }

  -- One step of one call.
  pub data Move (s : Process) : Pc → Process → Pc → Type 0 where
    ask : (body : Result Config) → Move s idle s (asked body)
    no_store :
        {body : Result Config}
        → s.server.store ≡ none
        → Move s (asked body) s (answered store_missing)
    unread :
        {body : Result Config} {place : StoreRef} {e : Bytes}
        → s.server.store ≡ some place
        → (get_app_config b (s.dbs place.dsn)).0 ≡ err e
        → Move s (asked body) (after_read place.dsn s) (answered (answer 500 (error_json e)))
    undecoded :
        {place : StoreRef} {cur : Config} {e : Bytes}
        → s.server.store ≡ some place
        → (get_app_config b (s.dbs place.dsn)).0 ≡ ok cur
        → Move s
            (asked (err e))
            (after_read place.dsn s)
            (answered (answer 400 (error_json (codes "invalid JSON body"))))
    decide :
        {place : StoreRef} {next cur : Config}
        → s.server.store ≡ some place
        → (get_app_config b (s.dbs place.dsn)).0 ≡ ok cur
        → Move s
            (asked (ok next))
            (after_read place.dsn s)
            (decided place.dsn (with_key b next cur))
    unsaved :
        {dsn : String} {next : Config} {e : Bytes}
        → (update_app_config b next (s.dbs dsn)).0 ≡ some e
        → Move s (decided dsn next) (after_save dsn next s) (answered (answer 400 (error_json e)))
    save :
        {dsn : String} {next : Config}
        → (update_app_config b next (s.dbs dsn)).0 ≡ none
        → Move s (decided dsn next) (after_save dsn next s) (stored next)
    fetch : {next : Config} → Move s (stored next) s (fetched (with_dsn s next))
    -- while the words are written, among those of other calls, any configuration with that DSN
    tear :
        {next : Config} (torn : Config)
        → torn.database_url ≡ next.database_url
        → Move s (fetched next) (after_assign torn s) (fetched next)
    -- the last word is written, and no other call wrote between
    assign : {next : Config} → Move s (fetched next) (after_assign next s) (assigned next)
    -- the last word is written, and others did
    mix : {next : Config} → Move s (fetched next) s (assigned next)
    enable : {next : Config} → Move s (assigned next) (after_enable next s) (enabled next)
    reset_client :
        {next : Config} → Move s (enabled next) (after_reconfigure next s) (reconfigured next)
    resize :
        {next : Config}
        → Move s (reconfigured next) (after_resize next s) (answered (answer 200 ok_json))
    leave : {r : AdminResponse} → Move s (answered r) s idle

  -- any number of calls, interleaved in any order
  pub record System : Type 0 where
    pub process : Process
    pub pc : ℕ → Pc

  pub data Step (s : System) : System → Type 0 where
    pick :
        (i : ℕ) {t : Process} {p : Pc}
        → Move s.process (s.pc i) t p
        → Step s (record { process = t; pc = update s.pc i p })

  pub data Reach (s : System) : System → Type 0 where
    here : Reach s s
    later : {t u : System} → Reach s t → Step t u → Reach s u

infixl 5 ◌▸◌
-- a further step
abbrev pub ◌▸◌ : {b : Backend} {s t u : System b} → Reach b s t → Step b t u → Reach b s u
r ▸ st = later r st
