-- ===== src/Process/Admin.antt =====
-- The handlers of internal/server/server.go that read and save the configuration.
use continuum_plugin_bookwar.Prelude.{
  ℕ, zero, suc, String, Option, none, some, List, [], ◌∷◌, Bytes, codes, utf8,
}
use continuum_plugin_bookwar.Result.{Result, ok, err}
use continuum_plugin_bookwar.World.{on_error}
use continuum_plugin_bookwar.Runtime.{Config}
use continuum_plugin_bookwar.AppConfig.{Backend, given_or, get_app_config, update_app_config}
use continuum_plugin_bookwar.Upstream.{Client, reconfigure, set_default_cover_size}
use continuum_plugin_bookwar.Process.{StoreRef, Process, set_db}

-- what writeJSON encodes
pub data AdminContent : Type 0 where
  config_json : Config → AdminContent
  error_json : Bytes → AdminContent
  ok_json : AdminContent

pub record AdminResponse : Type 0 where
  pub status : ℕ
  pub content : AdminContent

abbrev pub answer : ℕ → AdminContent → AdminResponse
answer status content = record { status = status; content = content }

unfoldable pub store_missing : AdminResponse
store_missing = answer 503 (error_json (codes "store not configured"))

-- the client that a reference names
unfoldable pub client_at : ℕ → List Client → Option Client
client_at n [] = none
client_at zero (c ∷ cs) = some c
client_at (suc n) (c ∷ cs) = client_at n cs

-- a change of the client that a reference names
unfoldable pub update_client : ℕ → (Client → Client) → List Client → List Client
update_client n f [] = []
update_client zero f (c ∷ cs) = f c ∷ cs
update_client (suc n) f (c ∷ cs) = c ∷ update_client n f cs

-- Reconfigure and SetDefaultCoverSize
unfoldable pub refreshed : Config → Client → Client
refreshed next c =
    set_default_cover_size (reconfigure c (utf8 next.base_url) next.api_key) next.default_cover_size

-- `if s.deps.BookwarehouseClient != nil { ... }`
unfoldable pub refresh_client : Option ℕ → Config → List Client → List Client
unfolding update_client refreshed
refresh_client none next cs = cs
refresh_client (some ref) next cs = update_client ref (refreshed next) cs

module _ (b : Backend) where
  unfoldable pub show_config : Result Config → Process → AdminResponse × Process
  show_config (ok cfg) s = (answer 200 (config_json (record cfg { api_key = "" })), s)
  show_config (err e) s = (answer 500 (error_json e), s)

  unfoldable pub get_stored : Option StoreRef → Process → AdminResponse × Process
  unfolding store_missing set_db show_config
  get_stored none s = (store_missing, s)
  get_stored (some store) s =
      let (read, db) = get_app_config b (s.dbs store.dsn) in
      show_config read (record s { dbs = set_db store.dsn db s.dbs })

  unfoldable pub handle_get_config : Process → AdminResponse × Process
  unfolding get_stored
  handle_get_config s = get_stored s.server.store s

  -- `if next.APIKey == "" { next.APIKey = cur.APIKey }`
  unfoldable pub with_key : Config → Config → Config
  with_key next cur = record next { api_key = given_or next.api_key cur.api_key }

  -- what follows a save with no error
  unfoldable pub apply_config : Config → Process → Process
  unfolding refresh_client
  apply_config next s =
      let kept = record next { database_url = s.server.config.database_url } in
      record s {
        server = record s.server { config = kept; auto_monitoring = next.enable_auto_monitoring };
        clients = refresh_client s.server.client next s.clients;
      }

  -- what follows the decoding of the body
  unfoldable pub save_config : String → Config → Process → AdminResponse × Process
  unfolding apply_config set_db
  save_config dsn next s =
      let (failed, db) = update_app_config b next (s.dbs dsn) in
      let s' : Process = record s { dbs = set_db dsn db s.dbs } in
      on_error failed (λ e. (answer 400 (error_json e), s'))
        (answer 200 ok_json, apply_config next s')

  -- what follows the read of the current configuration; `body` is the decoded one
  unfoldable pub read_body :
      String → Result Config → Result Config → Process → AdminResponse × Process
  unfolding with_key save_config
  read_body dsn (err e) body s = (answer 500 (error_json e), s)
  read_body dsn (ok cur) (err e) s = (answer 400 (error_json (codes "invalid JSON body")), s)
  read_body dsn (ok cur) (ok next) s = save_config dsn (with_key next cur) s

  unfoldable pub update_stored : Option StoreRef → Result Config → Process → AdminResponse × Process
  unfolding store_missing set_db read_body
  update_stored none body s = (store_missing, s)
  update_stored (some store) body s =
      let (read, db) = get_app_config b (s.dbs store.dsn) in
      read_body store.dsn read body (record s { dbs = set_db store.dsn db s.dbs })

  -- `body` is what json.NewDecoder(r.Body).Decode gives
  unfoldable pub handle_update_config : Result Config → Process → AdminResponse × Process
  unfolding update_stored
  handle_update_config body s = update_stored s.server.store body s
