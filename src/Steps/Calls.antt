-- ===== src/Steps/Calls.antt =====
-- The upstream calls of the HTTP handlers, by their rules.
use continuum_plugin_bookwar.Prelude.{ℕ, zero, suc, String, Option, Bytes, ℤ}
use continuum_plugin_bookwar.World.{Env, Act, MonitoringRequest}
use continuum_plugin_bookwar.World.Rules.{Property, Holds, IsMonadic}
use continuum_plugin_bookwar.Upstream.{
  Client, add_monitoring, get_monitoring, get, get_stream, get_stream_with_range, ping,
}
use continuum_plugin_bookwar.Books.Types.{Book, Paged, ListParams, Codec}
use continuum_plugin_bookwar.Books.Listing.{list_books, get_book}
use continuum_plugin_bookwar.Books.Dedup.{Collected, with_page, fan_out, list_books_deduped}
use continuum_plugin_bookwar.Books.Browse.{list_genres, external_search}
use continuum_plugin_bookwar.Store.Rules.{IsClosed, Holds-send, step_rules, store_rules}

module _ (K : Property) (monadic : IsMonadic K) (env : Env) (rules : IsClosed K env)
    (c : Client) where
  Holds-get : (path : Bytes) → Holds K (get env c path)
  unfolding get
  Holds-get path = search step_rules depth 7

  pub Holds-get_stream_with_range :
      (path : Bytes) (range : String) → Holds K (get_stream_with_range env c path range)
  unfolding get_stream_with_range
  Holds-get_stream_with_range path range = search step_rules depth 7

  pub Holds-get_stream : (path : Bytes) → Holds K (get_stream env c path)
  unfolding get_stream
  Holds-get_stream path = Holds-get_stream_with_range path ""

  pub Holds-add_monitoring : (r : MonitoringRequest) → Holds K (add_monitoring env c r)
  unfolding add_monitoring
  Holds-add_monitoring r = search step_rules depth 7

  pub Holds-get_monitoring : (id : String) → Holds K (get_monitoring env c id)
  unfolding get_monitoring
  Holds-get_monitoring id = search (step_rules, Holds-get) depth 7

  pub Holds-ping : Holds K (ping env c)
  unfolding ping
  Holds-ping = search (step_rules, Holds-get) depth 7

module _ (K : Property) (monadic : IsMonadic K) (env : Env) (rules : IsClosed K env) (lib : Codec)
    (c : Client) where
  Holds-list_books : (p : ListParams) → Holds K (list_books env lib c p)
  unfolding list_books
  Holds-list_books p = search (step_rules, Holds-get) depth 7

  pub Holds-get_book : (id : String) → Holds K (get_book env lib c id)
  unfolding get_book
  Holds-get_book id = search (step_rules, Holds-get) depth 7

  Holds-with_page :
      (p : ListParams) (next : Bytes → Collected → Paged Book → Act (Paged Book × Option Bytes))
      (acc : Collected) (page : Paged Book)
      → ((cursor : Bytes) (acc' : Collected) (out : Paged Book) → Holds K (next cursor acc' out))
      → Holds K (with_page env lib c p next acc page)
  unfolding with_page
  Holds-with_page p next acc page h = search (step_rules, h)

  Holds-fan_out :
      (p : ListParams) (n : ℕ) (cursor : Bytes) (acc : Collected) (out : Paged Book)
      → Holds K (fan_out env lib c p n cursor acc out)
  unfolding fan_out
  Holds-fan_out p zero cursor acc out = search step_rules
  Holds-fan_out p (suc n) cursor acc out =
      search (step_rules, Holds-list_books, Holds-with_page, Holds-fan_out p n) depth 7

  pub Holds-list_books_deduped :
      (p : ListParams) (n : ℤ) → Holds K (list_books_deduped env lib c p n)
  unfolding list_books_deduped
  Holds-list_books_deduped p n = search Holds-fan_out

  pub Holds-list_genres :
      (cursor : Bytes) (limit : ℤ) → Holds K (list_genres env lib c cursor limit)
  unfolding list_genres
  Holds-list_genres cursor limit = search (step_rules, Holds-get) depth 7

  pub Holds-external_search : (q : String) (limit : ℤ) → Holds K (external_search env lib c q limit)
  unfolding external_search
  Holds-external_search q limit = search (step_rules, Holds-get) depth 7

pub ruleset lookup_rules = (
  step_rules, Holds-get_stream, Holds-get_stream_with_range, Holds-get_book,
  Holds-list_books_deduped, Holds-list_genres, Holds-external_search, Holds-get_monitoring,
)

pub ruleset call_rules = (store_rules, Holds-add_monitoring, Holds-get_monitoring)
