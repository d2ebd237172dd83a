-- ===== src/Plugin/Alike/Runs.antt =====
-- Any sequence of the host's calls to two such plugins.
use mathlib.Core.Path.{subst}
use continuum_plugin_bookwar.Prelude.{◌≡◌, refl, ap, String, Option, List, [], ◌∷◌, All}
use continuum_plugin_bookwar.Table.{Table}
use continuum_plugin_bookwar.Table.Rows.{SameRows}
use continuum_plugin_bookwar.Runtime.{ParsedUrl}
use continuum_plugin_bookwar.AppConfig.{Backend}
use continuum_plugin_bookwar.Migrate.{Migrator}
use continuum_plugin_bookwar.Process.{Pools}
use continuum_plugin_bookwar.Tokens.{Jwt}
use continuum_plugin_bookwar.Books.Types.{Codec}
use continuum_plugin_bookwar.Adapter.{HttpLib}
use continuum_plugin_bookwar.Site.Router.{Web}
use continuum_plugin_bookwar.Plugin.{
  Plugin, HostCall, configures, delivers, schedules, requests, configure_plugin, serve_host,
  serve_all,
}
use continuum_plugin_bookwar.Plugin.Alike.{
  AlikePlugins, HostAnswer, delivered, scheduled, responded, answer_host, answer_all, Collates,
  with_tables, deliver-AlikePlugins, run_task-AlikePlugins, serve_http-AlikePlugins,
}

module _ (lib : Codec) (jwt : Jwt) (b : Backend) (web : Web) (http : HttpLib) (pools : Pools)
    (m : Migrator) (parse_url : String → Option ParsedUrl) where
  abbrev serve : Plugin → HostCall → Plugin
  serve p c = serve_host lib jwt b web http pools m parse_url p c

  abbrev answer : Plugin → HostCall → HostAnswer
  answer p c = answer_host lib jwt b web http pools m parse_url p c

  serve_host-with_tables :
      (p : Plugin) (ts : String → Table)
      → ((dsn : String) → SameRows (p.tables dsn) (ts dsn))
      → (c : HostCall) → Collates c
      → (answer p c ≡ answer (with_tables ts p) c)
        × AlikePlugins (serve p c) (serve (with_tables ts p) c)
  unfolding serve_host answer_host configure_plugin
  serve_host-with_tables p ts rows (configures entries) k = (
    refl,
    record {
      runtime = refl;
      process = refl;
      tables = rows;
      published = refl;
      sent = refl;
      turn = refl;
    },
  )
  serve_host-with_tables p ts rows (delivers env req) k =
      let (same, after) = deliver-AlikePlugins p ts rows env k req in (ap delivered same, after)
  serve_host-with_tables p ts rows (schedules env locked key) k =
      let (same, after) = run_task-AlikePlugins p ts rows env k locked key in
      (ap scheduled same, after)
  serve_host-with_tables p ts rows (requests env req) k =
      let (same, after) = serve_http-AlikePlugins p ts rows env k lib jwt b web http req in
      (ap responded same, after)

  serve_host-AlikePlugins :
      (p q : Plugin)
      → AlikePlugins p q
      → (c : HostCall) → Collates c
      → (answer p c ≡ answer q c) × AlikePlugins (serve p c) (serve q c)
  serve_host-AlikePlugins p q h c k =
      let shared : with_tables q.tables p ≡ q = λ i. record {
        runtime = h.runtime i;
        process = h.process i;
        tables = q.tables;
        published = h.published i;
        sent = h.sent i;
        turn = h.turn i;
      } in
      subst (λ r. (answer p c ≡ answer r c) × AlikePlugins (serve p c) (serve r c)) shared
        (serve_host-with_tables p q.tables h.tables c k)

  -- The order in which the tables hold their rows cannot be told from outside: two plugins that
  -- agree in all else, and whose databases have the same row under each key, with distinct keys,
  -- give the same answers to any sequence of the host's calls, and agree again after it, in the
  -- events, the requests sent upstream and the objects of the process; if the collation of each
  -- environment is a total order in which no two texts stand at one place.
  pub serve_all-AlikePlugins :
      (p q : Plugin)
      → AlikePlugins p q
      → (cs : List HostCall) → All Collates cs
      → (answer_all lib jwt b web http pools m parse_url p cs
          ≡ answer_all lib jwt b web http pools m parse_url q cs)
        × AlikePlugins
            (serve_all lib jwt b web http pools m parse_url p cs)
            (serve_all lib jwt b web http pools m parse_url q cs)
  unfolding answer_all serve_all
  serve_all-AlikePlugins p q h [] k = (refl, h)
  serve_all-AlikePlugins p q h (c ∷ cs) k =
      let (same, next) = serve_host-AlikePlugins p q h c k.0 in
      let (rest, after) = serve_all-AlikePlugins (serve p c) (serve q c) next cs k.1 in
      (cc (same, rest), after)
