-- ===== src/Examples/Site.antt =====
-- The theorems on the running plugin and on the host's calls at concrete data.
use mathlib.Core.List.Permᴰ
use continuum_plugin_bookwar.Prelude.{
  ℕ, ◌+◌, ◌≤◌, ◌≡◌, ◌≢◌, refl, ◌↔◌, String, true, false, Option, none, some, List, [], ◌∷◌, ◌++◌,
  Bytes, codes, utf8, trim_space, atoi, take, length, ltb, pos, if◌then◌else◌,
}
use continuum_plugin_bookwar.Result.{ok, err}
use continuum_plugin_bookwar.World.{query_result}
use continuum_plugin_bookwar.Runtime.{Config}
use continuum_plugin_bookwar.AppConfig.{
  AppDb, same_config, default_app_config, saved, get_app_config, import_legacy_app_config,
}
use continuum_plugin_bookwar.Url.{encode}
use continuum_plugin_bookwar.Tokens.{token_missing, rejected, verify, file_file_idx}
use continuum_plugin_bookwar.Books.Browse.{extract_year}
use continuum_plugin_bookwar.Books.Browse.Year.{First}
use continuum_plugin_bookwar.Books.Browse.Year.Value.{match_value, extract_year-First}
use continuum_plugin_bookwar.Migrate.{Migrator, applied, failed, driver_dsn, run_migrations}
use continuum_plugin_bookwar.Process.{StoreRef, Process, Pools, start, install, on_configure}
use continuum_plugin_bookwar.Process.Wired.{IsWired, on_configure-IsWired, opened}
use continuum_plugin_bookwar.Process.Swap.{install_steps, run_steps, AllUsable, run_steps-AllUsable}
use continuum_plugin_bookwar.Process.Admin.{with_key, handle_get_config, handle_update_config}
use continuum_plugin_bookwar.Process.Runs.{start-IsWired, Event, configures, reads, saves, run}
use continuum_plugin_bookwar.Process.Survives.{on_configure-handle_update_config}
use continuum_plugin_bookwar.Process.Saves.{Saved, handle_update_config-Saved}
use continuum_plugin_bookwar.Adapter.{
  string_value, number_value, raw_query, RpcRequest, HttpLib, Handler, is_http_token, handle,
}
use continuum_plugin_bookwar.Adapter.Guards.{Handled, handle-Handled}
use continuum_plugin_bookwar.Adapter.Query.{QueryFields, raw_query-permuted}
use continuum_plugin_bookwar.Adapter.Token.{AllTchar, is_http_token_iff}
use continuum_plugin_bookwar.Site.Router.{
  book_file, catalog_route, Site, Web, not_found, handle_call,
}
use continuum_plugin_bookwar.Site.Router.Media.{handle_call-rejected}
use continuum_plugin_bookwar.Examples.Data.{calm, world}
use continuum_plugin_bookwar.Examples.Books.{lib}
use continuum_plugin_bookwar.Examples.Catalog.{jwt}
use continuum_plugin_bookwar.Examples.Config.{chosen, marshal_chosen, backend, no_row}

abbrev dated : String
dated = "1st ed., Dec 1815; 18999"

extract_year-First_example :
    (o : Option Bytes) × First false (utf8 dated) o
    × (extract_year dated ≡ pos (match_value o))
    × (match_value o ≤ 9999)
extract_year-First_example = extract_year-First dated

is_http_token_iff_example :
    (is_http_token "M-SEARCH" ≡ true)
    ↔ (◌≢◌ {A = String} "M-SEARCH" "" × AllTchar (codes "M-SEARCH"))
is_http_token_iff_example = is_http_token_iff "M-SEARCH"

spaced_method : is_http_token "GET /" ≡ false
unfolding is_http_token
spaced_method = refl

abbrev pub http : HttpLib
http = record {
  url_string = λ path query. utf8 path ++ (b'?' ∷ query);
  request_uri = λ path query. utf8 path ++ (b'?' ∷ query);
  bad_request = λ method url. none;
  set_header = λ k v hs. (k, v) ∷ hs;
  format_float = λ x. [];
}

-- a handler that counts its calls
abbrev counter : Handler ℕ
counter m n =
    (some (record { code = 200; headers = ("Etag", "a" ∷ "b" ∷ []) ∷ []; body = m.url }), n + 1)

abbrev pub call : String → RpcRequest
call method = record {
  method = method;
  path = "/api/v1/file/b1";
  query = some (("token", string_value "") ∷ []);
  headers = [];
  body = [];
}

handle-Handled_example :
    Handled http (some counter) (call "") 3 (handle http (some counter) (call "") 3)
handle-Handled_example = handle-Handled http (some counter) (call "") 3

served_get : handle http (some counter) (call "") 3 ≡ (
  record { status_code = 200; headers = ("Etag", "a") ∷ []; body = codes "/api/v1/file/b1?token=" },
  4,
)
unfolding handle utf8 is_http_token encode
served_get = refl

refused_method : (handle http (some counter) (call "GET /") 3).1 ≡ 3
unfolding handle is_http_token
refused_method = refl

abbrev pub pools : Pools
pools = record {
  bad_dsn = λ dsn. none;
  max_conns = λ dsn. 4;
  bad_pool = λ dsn n. if ltb n 16 then some (codes "too few") else none;
}

-- the migrations of one database fail
abbrev pub migrator : Migrator
migrator = record {
  source = none;
  open_error = λ dsn. none;
  up = λ dsn. elim dsn [ [] ↦ applied | c ∷ s ↦ failed (codes "locked") ];
}

abbrev pub at_db : String → Config
at_db dsn = record default_app_config { database_url = dsn; api_key = "k0" }

abbrev pub rows : String → AppDb
rows dsn = no_row

abbrev events : List (Event backend pools migrator)
events =
    configures (at_db "")
    ∷ configures (at_db "db")
    ∷ saves (ok chosen)
    ∷ reads
    ∷ configures (at_db "")
    ∷ []

-- Three pools were made; the last one is open.
one_pool : (run backend pools migrator (start rows) events).open_pools ≡ 2 ∷ []
unfolding run start on_configure handle_update_config handle_get_config same_config run_migrations
    import_legacy_app_config query_result utf8
one_pool = refl

-- the plugin after its first Configure
abbrev pub running : Process
running = (on_configure backend pools migrator (at_db "") (start rows)).1

abbrev without_key : Config
without_key = record chosen { api_key = "" }

saves_chosen : (handle_update_config backend (ok without_key) running).0.status ≡ 200
unfolding start on_configure handle_update_config same_config run_migrations
    import_legacy_app_config query_result utf8
saves_chosen = refl

handle_update_config-Saved_example :
    Saved backend
      (λ cfg raw dsn h. marshal_chosen cfg raw h)
      (ok without_key)
      running
      (handle_update_config backend (ok without_key) running).1
handle_update_config-Saved_example =
    handle_update_config-Saved backend (λ cfg raw dsn h. marshal_chosen cfg raw h) (ok without_key)
      running saves_chosen

-- every call asks for the file of "b1", without a token
abbrev pub web : Web
web = record {
  match = λ m. some (catalog_route book_file, λ k. "b1");
  unmatched = λ m. not_found;
  query_of = λ m k. "";
  header_of = λ m k. "";
  decode_config = λ body. err [];
  encode = λ p. [];
  grouped = λ hs. [];
}

abbrev site : Site
site = record {
  world = world [];
  process = record running { server = record running.server { secret = "secret" } };
}

no_token : verify jwt "b1" file_file_idx "secret" "" ≡ rejected token_missing
unfolding verify trim_space
no_token = refl

handle_call-rejected_example : (handle_call calm lib jwt backend web http (call "") site).1 ≡ site
handle_call-rejected_example =
    handle_call-rejected calm lib jwt backend web http (call "") site book_file file_file_idx
      (λ k. "b1") token_missing refl refl no_token

pgx_dsn : driver_dsn (codes "postgresql://db/x") ≡ codes "pgx5://db/x"
unfolding driver_dsn
pgx_dsn = refl

year_in_text : extract_year dated ≡ pos 1815
unfolding extract_year utf8 atoi
year_in_text = refl

-- the process after that save, and a new process on its databases
abbrev saved_process : Process
saved_process = (handle_update_config backend (ok without_key) running).1

abbrev restarted : Process
restarted = start saved_process.dbs

abbrev place : StoreRef
place = record { pool = 0; dsn = "" }

first_place : running.server.store ≡ some place
unfolding start on_configure same_config run_migrations import_legacy_app_config query_result utf8
first_place = refl

first_read : (get_app_config backend (running.dbs "")).0 ≡ ok chosen
unfolding start on_configure same_config run_migrations import_legacy_app_config get_app_config
    query_result utf8
first_read = refl

keyed : saved backend (with_key backend without_key chosen) ≢ default_app_config
unfolding saved with_key
keyed e = cc

set_up_again : (on_configure backend pools migrator (at_db "") restarted).0 ≡ none
unfolding start on_configure handle_update_config same_config run_migrations
    import_legacy_app_config query_result utf8
set_up_again = refl

on_configure-handle_update_config_example :
    ((on_configure backend pools migrator (at_db "") restarted).1.server.config
      ≡ record (saved backend (with_key backend without_key chosen)) { database_url = "" })
    × ((on_configure backend pools migrator (at_db "") restarted).1.server.secret ≡ "")
unfolding start handle_update_config
on_configure-handle_update_config_example =
    on_configure-handle_update_config backend pools migrator
      (λ cfg raw dsn h. marshal_chosen cfg raw h) without_key chosen (at_db "") place running
      restarted first_place first_read saves_chosen keyed refl refl set_up_again

-- one map of fields, walked in two orders
abbrev walked : QueryFields
walked = ("page", number_value 2) ∷ ("author", string_value "A & B") ∷ []

abbrev walked_back : QueryFields
walked_back = ("author", string_value "A & B") ∷ ("page", number_value 2) ∷ []

page-ne-author : ◌≢◌ {A = String} "author" "page"
page-ne-author e = cc

raw_query-permuted_example : raw_query http (some walked) ≡ raw_query http (some walked_back)
raw_query-permuted_example =
    raw_query-permuted http walked walked_back (Permᴰ.swap refl refl)
      ((page-ne-author, tt), (tt, tt))

running-IsWired : IsWired running
running-IsWired =
    on_configure-IsWired backend pools migrator (at_db "") (start rows) (start-IsWired rows)

-- the configuration of another database, once the consumer has been replaced
run_steps-AllUsable_example :
    AllUsable (
      run_steps
        (take 3
          (install_steps (length running.clients) running.pool running.next_pool (at_db "db")))
        (opened running))
    × (run_steps
          (install_steps (length running.clients) running.pool running.next_pool (at_db "db"))
          (opened running)
        ≡ install backend pools migrator running.next_pool (at_db "db") (opened running))
run_steps-AllUsable_example =
    run_steps-AllUsable backend pools migrator (at_db "db") running running-IsWired 3
