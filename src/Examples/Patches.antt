-- ===== src/Examples/Patches.antt =====
-- PATCH requests at concrete data.
use continuum_plugin_bookwar.Prelude.{refl, false, none, some, [], ◌∷◌, codes, utf8}
use continuum_plugin_bookwar.Result.{ok}
use continuum_plugin_bookwar.World.{done, query_result}
use continuum_plugin_bookwar.Runtime.{Config}
use continuum_plugin_bookwar.AppConfig.{
  AppDb, Backend, default_app_config, get_app_config, update_app_config,
}
use continuum_plugin_bookwar.Upstream.{Client}
use continuum_plugin_bookwar.Process.{StoreRef, Process}
use continuum_plugin_bookwar.Process.Admin.{with_key}
use continuum_plugin_bookwar.Process.Patches
use continuum_plugin_bookwar.Process.Patches.{System, Reach, ◌▸◌, pick, asked, answered}
use native.Mathlib.Decide.{ℕ_discrete}
use continuum_plugin_bookwar.Process.Patches.Crossed.{both_asked, Crossed, both_asked-Crossed}
use continuum_plugin_bookwar.Process.Patches.Sound.{begun}

-- it stores the base URL only
abbrev backend : Backend
backend = record {
  outcome = λ _. done;
  marshal = λ cfg. ok (1 ∷ utf8 cfg.base_url);
  unmarshal_into = λ defaults raw. ok defaults;
  jsonb = λ raw. raw;
}

abbrev client : Client
client = record { base_url = codes "http://old"; api_key = "k0"; default_cover_size = "medium" }

abbrev place : StoreRef
place = record { pool = 0; dsn = "db" }

abbrev served : Process
served = record {
  server = record {
    auto_monitoring = false;
    client = some 0;
    store = some place;
    config = default_app_config;
    secret = "";
  };
  consumer = none;
  reconciler = none;
  pool = some 0;
  open_pools = 0 ∷ [];
  next_pool = 1;
  clients = client ∷ [];
  dbs = λ dsn. record { content = some (1 ∷ []); turn = 0 };
}

abbrev first : Config
first = record default_app_config { base_url = "http://a"; api_key = "ka" }

abbrev second : Config
second = record default_app_config { base_url = "http://b"; api_key = "kb" }

abbrev after_first : AppDb
after_first = record { content = some (1 ∷ codes "http://a"); turn = 3 }

both_asked-Crossed_example :
    (t : System backend) × Reach backend (both_asked backend first second served) t
    × Crossed backend
        (with_key backend first default_app_config)
        (with_key backend second default_app_config)
        "db"
        (update_app_config backend (with_key backend second default_app_config) after_first).1
        0
        served
        t
unfolding get_app_config update_app_config query_result with_key utf8
both_asked-Crossed_example =
    both_asked-Crossed backend served place 0 first second default_app_config default_app_config
      after_first refl refl refl refl refl refl

record Reached : Type 0 where
  last : System backend
  reach : Reach backend (begun backend served) last

-- a call has saved, and has gone on to change the client
abbrev changed : Reached
unfolding ℕ_discrete get_app_config update_app_config query_result with_key utf8
changed = record {
  last = _;
  reach =
      Patches.here
      ▸ pick 0 (Patches.ask (ok first))
      ▸ pick 0 (Patches.decide refl refl)
      ▸ pick 0 (Patches.save refl)
      ▸ pick 0 Patches.fetch
      ▸ pick 0 (Patches.tear (record first { api_key = "k0" }) refl)
      ▸ pick 0 Patches.mix
      ▸ pick 0 Patches.enable
      ▸ pick 0 Patches.reset_client;
}
