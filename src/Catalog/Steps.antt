-- ===== src/Catalog/Steps.antt =====
-- The rules of the handlers of internal/catalog/handler.go.
use continuum_plugin_bookwar.Prelude.{String}
use continuum_plugin_bookwar.World.{Env, Act}
use continuum_plugin_bookwar.World.Rules.{Property, Holds, IsMonadic}
use continuum_plugin_bookwar.Upstream.{Client}
use continuum_plugin_bookwar.Tokens.{Jwt, Verified, accepted, rejected}
use continuum_plugin_bookwar.Books.Types.{ListParams, Codec}
use continuum_plugin_bookwar.Catalog.Types.{HttpRequest, Response}
use continuum_plugin_bookwar.Catalog.Handlers
use continuum_plugin_bookwar.Catalog.Handlers.{
  list_page, list, show_detail, snapshot_or, request_handler_snapshot,
}
use continuum_plugin_bookwar.Catalog.Browse.{browse_genres, search_external}
use continuum_plugin_bookwar.Catalog.Media.{gated, cover, file}
use continuum_plugin_bookwar.Store.Rules.{IsClosed, step_rules}
use continuum_plugin_bookwar.Steps.Calls.{lookup_rules}

module _ (K : Property) (monadic : IsMonadic K) (env : Env) (rules : IsClosed K env) (lib : Codec)
    (c : Client) where
  Holds-list_page : (p : ListParams) → Holds K (list_page env lib c p)
  unfolding list_page
  Holds-list_page p = search lookup_rules depth 7

  pub Holds-list : (r : HttpRequest) → Holds K (list env lib c r)
  unfolding list
  Holds-list r = search (step_rules, Holds-list_page)

  pub Holds-search : (r : HttpRequest) → Holds K (Handlers.search env lib c r)
  unfolding Handlers.search
  Holds-search r = Holds-list_page _

  pub Holds-show_detail : (r : HttpRequest) → Holds K (show_detail env lib c r)
  unfolding show_detail
  Holds-show_detail r = search lookup_rules depth 7

  Holds-snapshot_or :
      (failure : Response) (r : HttpRequest) → Holds K (snapshot_or env lib c failure r)
  unfolding snapshot_or
  Holds-snapshot_or failure r = search lookup_rules depth 7

  pub Holds-request_handler_snapshot :
      (r : HttpRequest) → Holds K (request_handler_snapshot env lib c r)
  unfolding request_handler_snapshot
  Holds-request_handler_snapshot r = Holds-snapshot_or _ r

  pub Holds-browse_genres : (r : HttpRequest) → Holds K (browse_genres env lib c r)
  unfolding browse_genres
  Holds-browse_genres r = search lookup_rules depth 7

  pub Holds-search_external : (r : HttpRequest) → Holds K (search_external env lib c r)
  unfolding search_external
  Holds-search_external r = search lookup_rules depth 7

module _ (K : Property) (monadic : IsMonadic K) (env : Env) (rules : IsClosed K env) (c : Client)
    (jwt : Jwt) (secret : String) where
  Holds-gated :
      (v : Verified) (act : Act Response) → Holds K act → Holds K (gated env c jwt secret v act)
  unfolding gated
  Holds-gated (rejected e) act h = search step_rules
  Holds-gated (accepted claims) act h = h

  pub Holds-cover : (r : HttpRequest) → Holds K (cover env c jwt secret r)
  unfolding cover
  Holds-cover r = search (lookup_rules, Holds-gated) depth 7

  pub Holds-file : (r : HttpRequest) → Holds K (file env c jwt secret r)
  unfolding file
  Holds-file r = search (lookup_rules, Holds-gated) depth 7
