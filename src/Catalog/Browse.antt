-- ===== src/Catalog/Browse.antt =====
-- The browse handlers, Libraries and ExternalSearch of internal/catalog/handler.go.
use continuum_plugin_bookwar.Prelude.{ℤ, Bytes, map, utf8, ◌==◌, pos, if◌then◌else◌}
use continuum_plugin_bookwar.World.{Env, Act, pure, ◌>>=◌, on_result}
use continuum_plugin_bookwar.Result.{Result}
use continuum_plugin_bookwar.Upstream.{Client}
use continuum_plugin_bookwar.Books.Types.{Facet, Paged, Genre, Codec}
use continuum_plugin_bookwar.Books.Browse.{
  list_authors, list_series, list_tags, list_genres, external_search,
}
use continuum_plugin_bookwar.Catalog.Types.{
  HttpRequest, Response, genres, facets, hits, library, json, http_error, upstream_error,
}
use continuum_plugin_bookwar.Catalog.Params.{clamp_limit}
use continuum_plugin_bookwar.Catalog.Handlers.{synthetic_library_id}

-- the one library that Libraries lists, by its id
unfoldable pub libraries : Response
libraries = json 200 (library synthetic_library_id)

-- browseHandler, with one of the lists
unfoldable pub browse_handler : (Bytes → ℤ → Result (Paged Facet)) → HttpRequest → Response
unfolding upstream_error
browse_handler fetch r =
    on_result (fetch (utf8 (r.query "cursor")) (clamp_limit r (pos 50))) (λ e. upstream_error)
      (λ p. json 200 (facets p))

-- BrowseAuthors
unfoldable pub show_authors : HttpRequest → Response
unfolding browse_handler
show_authors = browse_handler list_authors

-- BrowseSeries
unfoldable pub show_series : HttpRequest → Response
unfolding browse_handler
show_series = browse_handler list_series

-- BrowseTags
unfoldable pub show_tags : HttpRequest → Response
unfolding browse_handler
show_tags = browse_handler list_tags

-- `if out.Items[i].Slug != "" { out.Items[i].ID = out.Items[i].Slug }`
unfoldable pub slug_as_id : Genre → Genre
slug_as_id g = if g.slug == "" then g else record g { id = utf8 g.slug }

unfoldable pub with_slugs : Paged Genre → Paged Genre
unfolding slug_as_id
with_slugs p = record p { items = map slug_as_id p.items }

module _ (env : Env) (lib : Codec) (c : Client) where
  unfoldable pub browse_genres : HttpRequest → Act Response
  unfolding upstream_error with_slugs
  browse_genres r = do
    answer ← list_genres env lib c (utf8 (r.query "cursor")) (clamp_limit r (pos 50))
    on_result answer (λ e. pure upstream_error) (λ p. pure (json 200 (genres (with_slugs p))))

  unfoldable pub search_external : HttpRequest → Act Response
  unfolding upstream_error
  search_external r = if r.query "q" == "" then pure (http_error 400 "q required") else do
    answer ← external_search env lib c (r.query "q") (clamp_limit r (pos 0))
    on_result answer (λ e. pure upstream_error) (λ found. pure (json 200 (hits found)))
