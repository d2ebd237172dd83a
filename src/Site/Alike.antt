-- ===== src/Site/Alike.antt =====
-- A call of the host through the router, in two states whose tables differ in the order of the rows.
use continuum_plugin_bookwar.Prelude.{◌≡◌, refl, ap, String, Option, none, some}
use continuum_plugin_bookwar.World.{Env, World, Act}
use continuum_plugin_bookwar.World.Rules.{Holds}
use continuum_plugin_bookwar.Store.Rules.{IsClosed}
use continuum_plugin_bookwar.Steps.Alike.{Alike, IgnoresOrder, IgnoresOrder-IsMonadic}
use continuum_plugin_bookwar.Upstream.{Client}
use continuum_plugin_bookwar.AppConfig.{Backend}
use continuum_plugin_bookwar.Tokens.{Jwt}
use continuum_plugin_bookwar.Books.Types.{Codec}
use continuum_plugin_bookwar.Catalog.Types.{HttpRequest}
use continuum_plugin_bookwar.Catalog.Steps.{
  Holds-list, Holds-search, Holds-show_detail, Holds-request_handler_snapshot, Holds-browse_genres,
  Holds-search_external, Holds-cover, Holds-file,
}
use continuum_plugin_bookwar.Process.{Process}
use continuum_plugin_bookwar.Adapter.{HttpLib, Message, RpcRequest, message_of}
use continuum_plugin_bookwar.Adapter.Guards.{handle-agrees}
use continuum_plugin_bookwar.Site.Steps.{Holds-handle_diagnostics, Holds-handle_test_search}
use continuum_plugin_bookwar.Site.Router.{
  CatalogRoute, catalog_list, catalog_libraries, catalog_search, catalog_detail, browse_authors,
  browse_series, browse_genre_list, browse_tags, cover_image, book_file, external_search_page,
  request_state, Route, admin_home, health, capabilities_page, diagnostics_page, get_config,
  update_config, test_search, catalog_route, Site, Web, Answer, on_world, on_process, server_client,
  is_some, serve_catalog, serve_mounted, serve_route, matched, router, handle_call, from_catalog,
  json_answer, diagnosis, search_page,
}

pub record AlikeSites (s t : Site) : Type 0 where
  pub worlds : Alike s.world t.world
  pub process : s.process ≡ t.process

-- the same answer, and two such states
abbrev pub Both : {A : Type 0} → A × Site → A × Site → Type 0
Both r q = (r.0 ≡ q.0) × AlikeSites r.1 q.1

abbrev at : World → Process → Site
at w p = record { world = w; process = p }

unmoved : (a : Answer) (w v : World) (p : Process) → Alike w v → Both (a, at w p) (a, at v p)
unmoved a w v p h = (refl, record { worlds = h; process = refl })

on_world-Both :
    {A : Type 0} (act : Act A) (shown : A → Answer) (w v : World) (p : Process)
    → Alike w v
    → Holds IgnoresOrder act
    → Both (on_world act shown (at w p)) (on_world act shown (at v p))
unfolding on_world
on_world-Both act shown w v p h k =
    let (same, after) = k.at w v h in (ap shown same, record { worlds = after; process = refl })

module _ (env : Env) (rules : IsClosed IgnoresOrder env) (lib : Codec) (jwt : Jwt) (b : Backend)
    (web : Web) where
  serve_catalog-Both :
      (route : CatalogRoute) (c : Client) (secret : String) (r : HttpRequest) (w v : World)
      (p : Process)
      → Alike w v
      → Both
          (serve_catalog env lib jwt b web route c secret r (at w p))
          (serve_catalog env lib jwt b web route c secret r (at v p))
  unfolding serve_catalog
  serve_catalog-Both catalog_list c secret r w v p h =
      on_world-Both _ from_catalog w v p h
        (Holds-list IgnoresOrder IgnoresOrder-IsMonadic env rules lib c r)
  serve_catalog-Both catalog_libraries c secret r w v p h = unmoved _ w v p h
  serve_catalog-Both catalog_search c secret r w v p h =
      on_world-Both _ from_catalog w v p h
        (Holds-search IgnoresOrder IgnoresOrder-IsMonadic env rules lib c r)
  serve_catalog-Both catalog_detail c secret r w v p h =
      on_world-Both _ from_catalog w v p h
        (Holds-show_detail IgnoresOrder IgnoresOrder-IsMonadic env rules lib c r)
  serve_catalog-Both browse_authors c secret r w v p h = unmoved _ w v p h
  serve_catalog-Both browse_series c secret r w v p h = unmoved _ w v p h
  serve_catalog-Both browse_genre_list c secret r w v p h =
      on_world-Both _ from_catalog w v p h
        (Holds-browse_genres IgnoresOrder IgnoresOrder-IsMonadic env rules lib c r)
  serve_catalog-Both browse_tags c secret r w v p h = unmoved _ w v p h
  serve_catalog-Both cover_image c secret r w v p h =
      on_world-Both _ from_catalog w v p h
        (Holds-cover IgnoresOrder IgnoresOrder-IsMonadic env rules c jwt secret r)
  serve_catalog-Both book_file c secret r w v p h =
      on_world-Both _ from_catalog w v p h
        (Holds-file IgnoresOrder IgnoresOrder-IsMonadic env rules c jwt secret r)
  serve_catalog-Both external_search_page c secret r w v p h =
      on_world-Both _ from_catalog w v p h
        (Holds-search_external IgnoresOrder IgnoresOrder-IsMonadic env rules lib c r)
  serve_catalog-Both request_state c secret r w v p h =
      on_world-Both _ from_catalog w v p h
        (Holds-request_handler_snapshot IgnoresOrder IgnoresOrder-IsMonadic env rules lib c r)

  serve_mounted-Both :
      (route : CatalogRoute) (o : Option Client) (secret : String) (r : HttpRequest) (w v : World)
      (p : Process)
      → Alike w v
      → Both
          (serve_mounted env lib jwt b web route o secret r (at w p))
          (serve_mounted env lib jwt b web route o secret r (at v p))
  unfolding serve_mounted
  serve_mounted-Both route none secret r w v p h = unmoved _ w v p h
  serve_mounted-Both route (some c) secret r w v p h = serve_catalog-Both route c secret r w v p h

  serve_route-Both :
      (route : Route) (m : Message) (r : HttpRequest) (w v : World) (p : Process)
      → Alike w v
      → Both
          (serve_route env lib jwt b web route m r (at w p))
          (serve_route env lib jwt b web route m r (at v p))
  unfolding serve_route on_process server_client
  serve_route-Both admin_home m r w v p h = unmoved _ w v p h
  serve_route-Both health m r w v p h = unmoved _ w v p h
  serve_route-Both capabilities_page m r w v p h = unmoved _ w v p h
  serve_route-Both diagnostics_page m r w v p h =
      on_world-Both _ (λ a. json_answer 200 (diagnosis a)) w v p h
        (Holds-handle_diagnostics IgnoresOrder IgnoresOrder-IsMonadic env rules
          (server_client (at w p)) (is_some p.server.store) p.server.config
          p.server.auto_monitoring)
  serve_route-Both get_config m r w v p h = (refl, record { worlds = h; process = refl })
  serve_route-Both update_config m r w v p h = (refl, record { worlds = h; process = refl })
  serve_route-Both test_search m r w v p h =
      on_world-Both _ (λ a. json_answer 200 (search_page a)) w v p h
        (Holds-handle_test_search IgnoresOrder IgnoresOrder-IsMonadic env rules lib
          (server_client (at w p)) r)
  serve_route-Both (catalog_route route) m r w v p h =
      serve_mounted-Both route (server_client (at w p)) p.server.secret r w v p h

  matched-Both :
      (o : Option (Route × (String → String))) (m : Message) (w v : World) (p : Process)
      → Alike w v
      → Both (matched env lib jwt b web o m (at w p)) (matched env lib jwt b web o m (at v p))
  unfolding matched
  matched-Both none m w v p h = unmoved _ w v p h
  matched-Both (some (route, params)) m w v p h = serve_route-Both route m _ w v p h

  router-Both :
      (m : Message) (w v : World) (p : Process)
      → Alike w v
      → Both (router env lib jwt b web m (at w p)) (router env lib jwt b web m (at v p))
  unfolding router
  router-Both m w v p h =
      let (same, after) = matched-Both (web.match m) m w v p h in (rw same refl, after)

  pub handle_call-Both :
      (http : HttpLib) (req : RpcRequest) (w v : World) (p : Process)
      → Alike w v
      → Both
          (handle_call env lib jwt b web http req (at w p))
          (handle_call env lib jwt b web http req (at v p))
  unfolding handle_call
  handle_call-Both http req w v p h =
      handle-agrees http AlikeSites (router env lib jwt b web) req (at w p) (at v p)
        (record { worlds = h; process = refl }) (router-Both (message_of http req) w v p h)
