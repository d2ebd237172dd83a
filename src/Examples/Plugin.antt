-- ===== src/Examples/Plugin.antt =====
-- The theorems on the whole plugin at concrete data.
use continuum_plugin_bookwar.Prelude.{
  ◌≡◌, ◌≢◌, refl, String, false, Option, some, List, [], ◌∷◌, utf8, trim_space,
}
use continuum_plugin_bookwar.Result.{ok}
use continuum_plugin_bookwar.World.{send, settle, exec, ◌>>=◌, publish, time_now, query_result}
use continuum_plugin_bookwar.Runtime.{text, ParsedUrl, new_server}
use continuum_plugin_bookwar.AppConfig.{import_legacy_app_config}
use continuum_plugin_bookwar.Migrate.{run_migrations}
use continuum_plugin_bookwar.Process.{start, on_configure}
use continuum_plugin_bookwar.Process.Admin.{client_at}
use continuum_plugin_bookwar.Consumer.{
  request_id_from_payload, target_plugin_id_from_payload, handle_event, with_payload, with_client,
  dispatch, forward, record_failure, record_acknowledged, publish_if,
}
use continuum_plugin_bookwar.Consumer.Recorded.{IsRecorded}
use continuum_plugin_bookwar.Upstream.{add_monitoring}
use continuum_plugin_bookwar.Store.{upsert_forwarded_request}
use continuum_plugin_bookwar.Plugin.{
  Plugin, plugin_id, HostCall, configures, delivers, schedules, requests, part_dsn, deliver,
  serve_all,
}
use continuum_plugin_bookwar.Plugin.Kept.{Kept, serve_all-Kept}
use continuum_plugin_bookwar.Plugin.Parts.{Together, start_plugin, serve_all-Together}
use continuum_plugin_bookwar.Plugin.Served.{deliver-serve_all-IsRecorded}
use continuum_plugin_bookwar.Examples.Data.{calm, event_to, payload_to}
use continuum_plugin_bookwar.Examples.Books.{lib}
use continuum_plugin_bookwar.Examples.Catalog.{jwt}
use continuum_plugin_bookwar.Examples.Config.{backend}
use continuum_plugin_bookwar.Examples.Site.{pools, migrator, http, web, call, running, rows}

abbrev pub plugin : Plugin
plugin = record {
  runtime = new_server;
  process = running;
  tables = λ dsn. [];
  published = [];
  sent = [];
  turn = 0;
}

abbrev pub https_url : String → Option ParsedUrl
https_url s = some (record { scheme = "https"; host = "bw" })

-- a new database, a request, a task and an HTTP request
abbrev calls : List HostCall
calls =
    configures ((record { key = "database_url"; value = some (text "db") }) ∷ [])
    ∷ delivers calm (event_to plugin_id)
    ∷ schedules calm false "reconciler"
    ∷ requests calm (call "")
    ∷ []

serve_all-Kept_example :
    Kept plugin (serve_all lib jwt backend web http pools migrator https_url plugin calls)
serve_all-Kept_example =
    serve_all-Kept lib jwt backend web http pools migrator https_url plugin calls

r1_has_id : ◌≢◌ {A = String} "r1" ""
r1_has_id e = cc

is_acknowledged : (deliver calm (event_to plugin_id) plugin).0 ≡ ok tt
unfolding deliver start on_configure handle_event with_payload with_client dispatch
    target_plugin_id_from_payload request_id_from_payload trim_space forward record_failure
    record_acknowledged add_monitoring publish_if publish upsert_forwarded_request time_now send
    settle exec ◌>>=◌ query_result utf8 run_migrations import_legacy_app_config client_at
is_acknowledged = refl

deliver-serve_all-IsRecorded_example : IsRecorded "r1" (
    (serve_all lib jwt backend web http pools migrator https_url
        (deliver calm (event_to plugin_id) plugin).1
        calls).tables
      (part_dsn plugin.process.consumer))
unfolding target_plugin_id_from_payload request_id_from_payload trim_space
deliver-serve_all-IsRecorded_example =
    deliver-serve_all-IsRecorded calm (event_to plugin_id) (payload_to plugin_id) lib jwt backend
      web http pools migrator https_url plugin calls refl refl refl r1_has_id is_acknowledged

serve_all-Together_example : Together (
    serve_all lib jwt backend web http pools migrator https_url
      (start_plugin rows (λ dsn. []))
      calls)
serve_all-Together_example =
    serve_all-Together lib jwt backend web http pools migrator https_url rows (λ dsn. []) calls
