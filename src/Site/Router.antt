-- ===== src/Site/Router.antt =====
-- Handler of internal/server/server.go and Mount of internal/catalog/handler.go: the routes, and
-- what serves each of them.
pub mod Media
use mathlib.Core.Option
use continuum_plugin_bookwar.Prelude.{
  ℕ, ◌≡◌, refl, String, Bool, true, false, Option, none, some, List, [], ◌∷◌, Bytes, ◌==◌,
  if◌then◌else◌,
}
use continuum_plugin_bookwar.Result.{Result, ok, err}
use continuum_plugin_bookwar.World.{Env, World, Act}
use continuum_plugin_bookwar.Runtime.{Config}
use continuum_plugin_bookwar.AppConfig.{Backend}
use continuum_plugin_bookwar.Upstream.{Client}
use continuum_plugin_bookwar.Tokens.{Jwt}
use continuum_plugin_bookwar.Books.Types.{Codec}
use continuum_plugin_bookwar.Catalog.Types.{HttpRequest, Response, Content}
use continuum_plugin_bookwar.Catalog.Handlers.{list, search, show_detail, request_handler_snapshot}
use continuum_plugin_bookwar.Catalog.Browse.{
  libraries, show_authors, show_series, show_tags, browse_genres, search_external,
}
use continuum_plugin_bookwar.Catalog.Media.{cover, file}
use continuum_plugin_bookwar.Process.{ServerDeps, Process}
use continuum_plugin_bookwar.Process.Admin.{
  AdminContent, AdminResponse, client_at, handle_get_config, handle_update_config,
}
use continuum_plugin_bookwar.Site.{
  Diagnostics, TestSearch, Capabilities, capabilities, handle_diagnostics, handle_test_search,
}
use continuum_plugin_bookwar.Site.Theme.{admin_theme}
use continuum_plugin_bookwar.Site.Page.{admin_home_page}
use continuum_plugin_bookwar.Adapter.{
  new_server, set_handler, HttpLib, Message, Recorded, RpcRequest, RpcResponse, handle,
}

-- the routes of the catalogue, /api/v1/...
pub data CatalogRoute : Type 0 where
  catalog_list catalog_libraries catalog_search catalog_detail : CatalogRoute
  browse_authors browse_series browse_genre_list browse_tags : CatalogRoute
  cover_image book_file external_search_page request_state : CatalogRoute

-- The later of the two routes for /requests/{external_id} is the one that chi keeps.
pub data Route : Type 0 where
  admin_home health capabilities_page diagnostics_page : Route
  get_config update_config test_search : Route
  catalog_route : CatalogRoute → Route

-- what the answers hold
pub data Page : Type 0 where
  catalog_page : Content → Page
  admin_page : AdminContent → Page
  home_page : Bytes → Page
  health_page : Page
  capability_page : Capabilities → Page
  diagnosis : Diagnostics → Page
  search_page : TestSearch → Page
  missing_page : Page

pub record Answer : Type 0 where
  pub status : ℕ
  pub headers : List (String × String)
  pub page : Page

abbrev pub json_answer : ℕ → Page → Answer
json_answer status p = record {
  status = status;
  headers = ("Content-Type", "application/json") ∷ [];
  page = p;
}

-- the state of a running plugin
pub record Site : Type 0 where
  pub world : World
  pub process : Process

-- What the handlers use of libraries: chi's match of a method and a path, with the values of the
-- pattern, and its answer when nothing matches; the query, the headers and the decoded body of a
-- message; and the encoding of a page.
pub record Web : Type 0 where
  pub match : Message → Option (Route × (String → String))
  pub unmatched : Message → Answer
  pub query_of : Message → String → String
  pub header_of : Message → String → String
  pub decode_config : Bytes → Result Config
  pub encode : Page → Bytes
  pub grouped : List (String × String) → List (String × List String)

unfoldable pub handle_health : Answer
handle_health = json_answer 200 health_page

-- the values of the header and of the parameter for the theme
unfoldable pub handle_admin_home : String → String → Answer
handle_admin_home header param = record {
  status = 200;
  headers = ("Content-Type", "text/html; charset=utf-8") ∷ [];
  page = home_page (admin_home_page (admin_theme header param));
}

-- http.NotFound
abbrev pub not_found : Answer
not_found = record {
  status = 404;
  headers = ("Content-Type", "text/plain; charset=utf-8") ∷ [];
  page = missing_page;
}

unfoldable pub from_catalog : Response → Answer
from_catalog r = record { status = r.status; headers = r.headers; page = catalog_page r.content }

-- an action on the shared state, in the state of the plugin
unfoldable pub on_world : {A : Type 0} → Act A → (A → Answer) → Site → Answer × Site
on_world act shown s = let (a, w) = act s.world in (shown a, record s { world = w })

unfoldable pub on_process : (Process → AdminResponse × Process) → Site → Answer × Site
on_process f s =
    let (r, p) = f s.process in
    (json_answer r.status (admin_page r.content), record s { process = p })

-- the client that the server's reference names
unfoldable pub server_client : Site → Option Client
server_client s = Option.bind s.process.server.client (λ ref. client_at ref s.process.clients)

unfoldable pub is_some : {A : Type 0} → Option A → Bool
is_some none = false
is_some (some a) = true

module _ (env : Env) (lib : Codec) (jwt : Jwt) (b : Backend) (web : Web) where
  unfoldable pub serve_catalog : CatalogRoute → Client → String → HttpRequest → Site → Answer × Site
  unfolding from_catalog on_world
  serve_catalog catalog_list c secret r = on_world (list env lib c r) from_catalog
  serve_catalog catalog_libraries c secret r = λ s. (from_catalog libraries, s)
  serve_catalog catalog_search c secret r = on_world (search env lib c r) from_catalog
  serve_catalog catalog_detail c secret r = on_world (show_detail env lib c r) from_catalog
  serve_catalog browse_authors c secret r = λ s. (from_catalog (show_authors r), s)
  serve_catalog browse_series c secret r = λ s. (from_catalog (show_series r), s)
  serve_catalog browse_genre_list c secret r = on_world (browse_genres env lib c r) from_catalog
  serve_catalog browse_tags c secret r = λ s. (from_catalog (show_tags r), s)
  serve_catalog cover_image c secret r = on_world (cover env c jwt secret r) from_catalog
  serve_catalog book_file c secret r = on_world (file env c jwt secret r) from_catalog
  serve_catalog external_search_page c secret r =
      on_world (search_external env lib c r) from_catalog
  serve_catalog request_state c secret r =
      on_world (request_handler_snapshot env lib c r) from_catalog

  -- the catalogue is mounted when there is a client
  unfoldable pub serve_mounted :
      CatalogRoute → Option Client → String → HttpRequest → Site → Answer × Site
  unfolding serve_catalog
  serve_mounted route none secret r s = (not_found, s)
  serve_mounted route (some c) secret r s = serve_catalog route c secret r s

  unfoldable pub serve_route : Route → Message → HttpRequest → Site → Answer × Site
  unfolding on_world on_process server_client is_some serve_mounted handle_health handle_admin_home
  serve_route admin_home m r s =
      (handle_admin_home (web.header_of m "X-Silo-Theme") (r.query "theme"), s)
  serve_route health m r s = (handle_health, s)
  serve_route capabilities_page m r s =
      (json_answer 200 (capability_page (capabilities s.process.server.auto_monitoring)), s)
  serve_route diagnostics_page m r s =
      let d = s.process.server in
      on_world
        (handle_diagnostics env (server_client s) (is_some d.store) d.config d.auto_monitoring)
        (λ a. json_answer 200 (diagnosis a)) s
  serve_route get_config m r s = on_process (handle_get_config b) s
  serve_route update_config m r s = on_process (handle_update_config b (web.decode_config m.body)) s
  serve_route test_search m r s =
      on_world (handle_test_search env lib (server_client s) r)
        (λ a. json_answer 200 (search_page a)) s
  serve_route (catalog_route route) m r s =
      serve_mounted route (server_client s) s.process.server.secret r s

  unfoldable pub matched : Option (Route × (String → String)) → Message → Site → Answer × Site
  unfolding serve_route
  matched none m s = (web.unmatched m, s)
  matched (some (route, params)) m s =
      serve_route route m
        (record {
          query = web.query_of m;
          url_param = params;
          range_header = web.header_of m "Range";
        })
        s

  -- the router, as a handler of the adapter; it does not panic
  unfoldable pub router : Message → Site → Option Recorded × Site
  unfolding matched
  router m s =
      let (a, s') = matched (web.match m) m s in
      (
        some
            (record { code = a.status; headers = web.grouped a.headers; body = web.encode a.page }),
        s',
      )

  -- a call of the host's
  unfoldable pub handle_call : HttpLib → RpcRequest → Site → RpcResponse × Site
  unfolding router
  handle_call http req s = handle http (set_handler (some router) new_server).handler req s
