-- ===== src/Site/Steps.antt =====
-- What a call of the host through the router does to the plugin.
use continuum_plugin_bookwar.Prelude.{String, Option, none, some, Bool, true, false}
use continuum_plugin_bookwar.World.{Env, Act}
use continuum_plugin_bookwar.World.Rules.{Property, Holds, IsMonadic, Holds-bind, Holds-pure}
use continuum_plugin_bookwar.Upstream.{Client}
use continuum_plugin_bookwar.Runtime.{Config}
use continuum_plugin_bookwar.AppConfig.{Backend}
use continuum_plugin_bookwar.Tokens.{Jwt}
use continuum_plugin_bookwar.Books.Types.{Codec}
use continuum_plugin_bookwar.Catalog.Types.{HttpRequest}
use continuum_plugin_bookwar.Catalog.Steps.{
  Holds-list, Holds-search, Holds-show_detail, Holds-request_handler_snapshot, Holds-browse_genres,
  Holds-search_external, Holds-cover, Holds-file,
}
use continuum_plugin_bookwar.Store.Rules.{IsClosed, step_rules, Holds-request_stats}
use continuum_plugin_bookwar.Steps.{Reach, here, Walks, Walks-IsMonadic, Walks-IsClosed}
use continuum_plugin_bookwar.Steps.Calls.{Holds-ping, Holds-external_search}
use continuum_plugin_bookwar.Process.Wired.{IsWired}
use continuum_plugin_bookwar.Process.Runs.{handle_get_config-IsWired, handle_update_config-IsWired}
use continuum_plugin_bookwar.Adapter.{HttpLib, Message, RpcRequest}
use continuum_plugin_bookwar.Adapter.Guards.{handle-keeps}
use continuum_plugin_bookwar.Site.{
  probe_upstream, probe_database, handle_diagnostics, handle_test_search,
}
use continuum_plugin_bookwar.Site.Router.{
  CatalogRoute, catalog_list, catalog_libraries, catalog_search, catalog_detail, browse_authors,
  browse_series, browse_genre_list, browse_tags, cover_image, book_file, external_search_page,
  request_state, Route, admin_home, health, capabilities_page, diagnostics_page, get_config,
  update_config, test_search, catalog_route, Site, Web, Answer, on_world, on_process, server_client,
  is_some, serve_catalog, serve_mounted, serve_route, matched, router, handle_call, from_catalog,
  json_answer, diagnosis, search_page,
}

module _ (K : Property) (monadic : IsMonadic K) (env : Env) (rules : IsClosed K env) where
  Holds-probe_upstream : (o : Option Client) → Holds K (probe_upstream env o)
  unfolding probe_upstream
  Holds-probe_upstream none = search step_rules
  Holds-probe_upstream (some c) = search (step_rules, Holds-ping)

  Holds-probe_database : (store : Bool) → Holds K (probe_database env store)
  unfolding probe_database
  Holds-probe_database false = search step_rules
  Holds-probe_database true = Holds-bind K monadic _ _ rules.ping_rule (λ pinged.
      Holds-bind K monadic _ _ (Holds-request_stats K monadic env rules)
        (λ stats. Holds-pure K monadic _))

  pub Holds-handle_diagnostics :
      (o : Option Client) (store : Bool) (cfg : Config) (auto : Bool)
      → Holds K (handle_diagnostics env o store cfg auto)
  unfolding handle_diagnostics
  Holds-handle_diagnostics o store cfg auto =
      search (step_rules, Holds-probe_upstream, Holds-probe_database) depth 7

  pub Holds-handle_test_search :
      (lib : Codec) (o : Option Client) (r : HttpRequest) → Holds K (handle_test_search env lib o r)
  unfolding handle_test_search
  Holds-handle_test_search lib none r = search step_rules
  Holds-handle_test_search lib (some c) r = search (step_rules, Holds-external_search) depth 7

-- The shared state moves by steps, and the parts stay wired.
pub record Moves (s t : Site) : Type 0 where
  pub steps : Reach s.world t.world
  pub wired : IsWired s.process → IsWired t.process

stays : (s : Site) → Moves s s
stays s = record { steps = here; wired = λ w. w }

on_world-Moves :
    {A : Type 0} (act : Act A) (shown : A → Answer) (s : Site)
    → Holds Walks act
    → Moves s (on_world act shown s).1
unfolding on_world
on_world-Moves act shown s r = record { steps = r.at s.world; wired = λ w. w }

module _ (env : Env) (lib : Codec) (jwt : Jwt) (b : Backend) (web : Web) where
  serve_catalog-Moves :
      (route : CatalogRoute) (c : Client) (secret : String) (r : HttpRequest) (s : Site)
      → Moves s (serve_catalog env lib jwt b web route c secret r s).1
  unfolding serve_catalog
  serve_catalog-Moves catalog_list c secret r s =
      on_world-Moves _ from_catalog s
        (Holds-list Walks Walks-IsMonadic env (Walks-IsClosed env) lib c r)
  serve_catalog-Moves catalog_libraries c secret r s = stays s
  serve_catalog-Moves catalog_search c secret r s =
      on_world-Moves _ from_catalog s
        (Holds-search Walks Walks-IsMonadic env (Walks-IsClosed env) lib c r)
  serve_catalog-Moves catalog_detail c secret r s =
      on_world-Moves _ from_catalog s
        (Holds-show_detail Walks Walks-IsMonadic env (Walks-IsClosed env) lib c r)
  serve_catalog-Moves browse_authors c secret r s = stays s
  serve_catalog-Moves browse_series c secret r s = stays s
  serve_catalog-Moves browse_genre_list c secret r s =
      on_world-Moves _ from_catalog s
        (Holds-browse_genres Walks Walks-IsMonadic env (Walks-IsClosed env) lib c r)
  serve_catalog-Moves browse_tags c secret r s = stays s
  serve_catalog-Moves cover_image c secret r s =
      on_world-Moves _ from_catalog s
        (Holds-cover Walks Walks-IsMonadic env (Walks-IsClosed env) c jwt secret r)
  serve_catalog-Moves book_file c secret r s =
      on_world-Moves _ from_catalog s
        (Holds-file Walks Walks-IsMonadic env (Walks-IsClosed env) c jwt secret r)
  serve_catalog-Moves external_search_page c secret r s =
      on_world-Moves _ from_catalog s
        (Holds-search_external Walks Walks-IsMonadic env (Walks-IsClosed env) lib c r)
  serve_catalog-Moves request_state c secret r s =
      on_world-Moves _ from_catalog s
        (Holds-request_handler_snapshot Walks Walks-IsMonadic env (Walks-IsClosed env) lib c r)

  serve_mounted-Moves :
      (route : CatalogRoute) (o : Option Client) (secret : String) (r : HttpRequest) (s : Site)
      → Moves s (serve_mounted env lib jwt b web route o secret r s).1
  unfolding serve_mounted
  serve_mounted-Moves route none secret r s = stays s
  serve_mounted-Moves route (some c) secret r s = serve_catalog-Moves route c secret r s

  serve_route-Moves :
      (route : Route) (m : Message) (r : HttpRequest) (s : Site)
      → Moves s (serve_route env lib jwt b web route m r s).1
  unfolding serve_route on_process
  serve_route-Moves admin_home m r s = stays s
  serve_route-Moves health m r s = stays s
  serve_route-Moves capabilities_page m r s = stays s
  serve_route-Moves diagnostics_page m r s =
      let d = s.process.server in
      on_world-Moves _ (λ a. json_answer 200 (diagnosis a)) s
        (Holds-handle_diagnostics Walks Walks-IsMonadic env (Walks-IsClosed env) (server_client s)
          (is_some d.store) d.config d.auto_monitoring)
  serve_route-Moves get_config m r s = record {
    steps = here;
    wired = handle_get_config-IsWired b s.process;
  }
  serve_route-Moves update_config m r s = record {
    steps = here;
    wired = handle_update_config-IsWired b (web.decode_config m.body) s.process;
  }
  serve_route-Moves test_search m r s =
      on_world-Moves _ (λ a. json_answer 200 (search_page a)) s
        (Holds-handle_test_search Walks Walks-IsMonadic env (Walks-IsClosed env) lib
          (server_client s) r)
  serve_route-Moves (catalog_route route) m r s =
      serve_mounted-Moves route (server_client s) s.process.server.secret r s

  matched-Moves :
      (o : Option (Route × (String → String))) (m : Message) (s : Site)
      → Moves s (matched env lib jwt b web o m s).1
  unfolding matched
  matched-Moves none m s = stays s
  matched-Moves (some (route, params)) m s = serve_route-Moves route m _ s

  -- Whatever a call of the host asks for.
  pub handle_call-Moves :
      (http : HttpLib) (req : RpcRequest) (s : Site)
      → Moves s (handle_call env lib jwt b web http req s).1
  unfolding handle_call
  handle_call-Moves http req s =
      handle-keeps http (Moves s) (router env lib jwt b web) req s (stays s)
        (unfold router in matched-Moves (web.match _) _ s)
