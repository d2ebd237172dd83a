-- ===== src/Site/Router/Media.antt =====
-- Media requests that reach the plugin through the host.
use mathlib.Core.Path.{sym}
use mathlib.Core.Option.{some-injective}
use continuum_plugin_bookwar.Prelude.{◌≡◌, refl, ap, String, Option, none, some, ℤ}
use continuum_plugin_bookwar.World.{Env}
use continuum_plugin_bookwar.AppConfig.{Backend}
use continuum_plugin_bookwar.Upstream.{Client}
use continuum_plugin_bookwar.Tokens.{
  Jwt, TokenError, rejected, verify, cover_file_idx, file_file_idx,
}
use continuum_plugin_bookwar.Books.Types.{Codec}
use continuum_plugin_bookwar.Catalog.Types.{HttpRequest}
use continuum_plugin_bookwar.Catalog.Media.{token_error, cover-rejected, file-rejected}
use continuum_plugin_bookwar.Adapter.{HttpLib, RpcRequest, message_of}
use continuum_plugin_bookwar.Adapter.Guards.{handle_unchanged}
use continuum_plugin_bookwar.Site.Router.{
  CatalogRoute, catalog_list, catalog_libraries, catalog_search, catalog_detail, browse_authors,
  browse_series, browse_genre_list, browse_tags, cover_image, book_file, external_search_page,
  request_state, catalog_route, Site, Web, Answer, from_catalog, on_world, server_client,
  serve_catalog, serve_mounted, serve_route, matched, router, handle_call,
}

-- the file index that the token of a media route has to name
abbrev pub media_idx : CatalogRoute → Option ℤ
media_idx cover_image = some cover_file_idx
media_idx book_file = some file_file_idx
media_idx _ = none

module _ (env : Env) (lib : Codec) (jwt : Jwt) (b : Backend) (web : Web) where
  -- a media route's request with a rejected token
  serve_catalog-rejected :
      (route : CatalogRoute) (idx : ℤ) (c : Client) (secret : String) (r : HttpRequest)
      (e : TokenError) (s : Site)
      → media_idx route ≡ some idx
      → verify jwt (r.url_param "book_id") idx secret (r.query "token") ≡ rejected e
      → serve_catalog env lib jwt b web route c secret r s ≡ (from_catalog (token_error e), s)
  unfolding serve_catalog on_world
  serve_catalog-rejected catalog_list idx c secret r e s h k = cc
  serve_catalog-rejected catalog_libraries idx c secret r e s h k = cc
  serve_catalog-rejected catalog_search idx c secret r e s h k = cc
  serve_catalog-rejected catalog_detail idx c secret r e s h k = cc
  serve_catalog-rejected browse_authors idx c secret r e s h k = cc
  serve_catalog-rejected browse_series idx c secret r e s h k = cc
  serve_catalog-rejected browse_genre_list idx c secret r e s h k = cc
  serve_catalog-rejected browse_tags idx c secret r e s h k = cc
  serve_catalog-rejected external_search_page idx c secret r e s h k = cc
  serve_catalog-rejected request_state idx c secret r e s h k = cc
  serve_catalog-rejected cover_image idx c secret r e s h k =
      let same : cover_file_idx ≡ idx = some-injective _ _ h in
      rw (cover-rejected env c jwt secret r e s.world (rw (sym same) at k)) refl
  serve_catalog-rejected book_file idx c secret r e s h k =
      let same : file_file_idx ≡ idx = some-injective _ _ h in
      rw (file-rejected env c jwt secret r e s.world (rw (sym same) at k)) refl

  serve_mounted-rejected :
      (route : CatalogRoute) (idx : ℤ) (o : Option Client) (secret : String) (r : HttpRequest)
      (e : TokenError) (s : Site)
      → media_idx route ≡ some idx
      → verify jwt (r.url_param "book_id") idx secret (r.query "token") ≡ rejected e
      → (serve_mounted env lib jwt b web route o secret r s).1 ≡ s
  unfolding serve_mounted
  serve_mounted-rejected route idx none secret r e s h k = refl
  serve_mounted-rejected route idx (some c) secret r e s h k =
      ap (λ (x : Answer × Site). x.1) (serve_catalog-rejected route idx c secret r e s h k)

  -- A call of the host's that is routed to Cover or File, with a token that Verify rejects for the
  -- book of the path, the index of the route and the secret of the server, changes nothing: no
  -- request is sent upstream.
  pub handle_call-rejected :
      (http : HttpLib) (req : RpcRequest) (s : Site) (route : CatalogRoute) (idx : ℤ)
      (params : String → String) (e : TokenError)
      → web.match (message_of http req) ≡ some (catalog_route route, params)
      → media_idx route ≡ some idx
      → verify jwt
          (params "book_id")
          idx
          s.process.server.secret
          (web.query_of (message_of http req) "token")
        ≡ rejected e
      → (handle_call env lib jwt b web http req s).1 ≡ s
  unfolding handle_call
  handle_call-rejected http req s route idx params e routed media bad =
      handle_unchanged http (router env lib jwt b web) req s (
        unfold router matched serve_route in
        rw routed (
          serve_mounted-rejected route idx (server_client s) s.process.server.secret _ e s media
            bad))
