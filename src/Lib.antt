-- ===== src/Lib.antt =====
-- Verification of the BookWarehouse ebook plugin (Go), which forwards book requests of an ebooks
-- portal to an upstream service, polls their status and serves the upstream catalogue.
--
-- The parts of the program and the files that model them:
--   internal/store/request.go and internal/migrate/files: `Table` has the rows of
--     forwarded_request and the SQL statements on them; `Store` has the methods of the Go type
--     Store (UpsertForwardedRequest is `upsert_forwarded_request`, and so on). The proofs are below
--     them: `Table.Keys` (the table as a map), `Table.Advance` (what a statement may change),
--     `Table.Rows` and `Table.Relation` (tables without an order of their rows),
--     `Table.Selection` (the SELECT of ListNonTerminal), `Table.Counts` and `Store.Stats`
--     (RequestStats), `Store.Effects` and `Store.Untouched` (what a call does, and does not).
--   internal/bookwarehouse/client.go, monitoring.go: `Upstream`, with `Url` for the escaped ids and
--     query strings; `Url.Order` and `Url.Sorted` are on the order of their keys. `Upstream.Redirect`
--     has CheckRedirect, and `Upstream.Locked` the lock of the client, with its invariant in
--     `Upstream.Locked.Invariant` and `Upstream.Locked.Reached`.
--   internal/bookwarehouse/types.go, catalog.go: `Books.Types`; `Books.Key` (normalizeKey and
--     dedupKey); `Books.Listing` (ListBooks and GetBook), with `Books.Listing.Cursor` and
--     `Books.Listing.Walk` on its cursors; `Books.Dedup` (ListBooksDeduped), with
--     `Books.Dedup.Collect` (the loop over books), `Books.Dedup.Rounds` (the loop over pages) and
--     `Books.Dedup.Sent` (the number of its requests).
--   internal/bookwarehouse/browse.go, external_search.go: `Books.Browse`, with what extractYear finds in
--     `Books.Browse.Year` and gives in `Books.Browse.Year.Value`.
--   internal/consumer/handler.go: `Consumer`, HandleEvent and its helpers.
--   internal/reconciler/reconciler.go: `Reconciler`, Tick cut into the body of its loop, and
--     `Reconciler.Overlap`, the calls that meet at its lock; `Reconciler.Stamped`, the poll times that
--     a tick leaves.
--   internal/scheduler/server.go: `Scheduler`.
--   internal/tokens/verify.go: `Tokens`, with what an accepted token is in `Tokens.Sound`.
--   internal/catalog/types.go, transform.go: `Catalog.Types`; handler.go: `Catalog.Params` (the
--     query), `Catalog.Handlers` (List, Search, Detail, RequestSnapshot, and Snapshot of
--     internal/request/handler.go), `Catalog.Browse` (the browse handlers, Libraries and
--     ExternalSearch) and `Catalog.Media` (Cover and File).
--   internal/runtime/runtime.go: `Runtime`, with what Configure leaves in `Runtime.Configured`.
--   internal/store/store.go: `AppConfig`, with the round trip in `AppConfig.Saved` and
--     the import of a later configuration in `AppConfig.Import`. It has a state of
--     its own, the row of app_config; GetAppConfig calls itself, which `get_within` counts.
--   internal/migrate/runner.go: `Migrate`.
--   cmd/silo-plugin-bookwarehouse-ebook/main.go: `Process`, the callback of Configure. Its children
--     are `Process.Admin` (the configuration handlers of internal/server/server.go),
--     `Process.Wired` (which objects the parts share), `Process.Swap` (the last steps of the
--     callback, between which calls may run), `Process.Runs` (sequences of
--     configurations, reads and saves), `Process.Saves` (what a save changes) and
--     `Process.Survives` (what becomes of it at a later Configure). `Process.Patches` cuts
--     handleUpdateConfig where it reaches the database or a shared object, for calls that overlap;
--     its children are on every interleaving (`Process.Patches.Sound`) and on two calls that cross
--     (`Process.Patches.Crossed`). `Manifest` has loadManifest.
--     `Plugin` is the running plugin: the four servers that `main` hands to the SDK, on what the last
--     Configure has installed. `Plugin.Kept`, `Plugin.Parts`, `Plugin.Served` and `Plugin.Alike` are on sequences
--     of their calls.
--   internal/event/publisher.go: `Publisher`, on the messages that `World.published` lists.
--   internal/httproutes/server.go: `Adapter`, with isHTTPToken in `Adapter.Token`, the guards of Handle in
--     `Adapter.Guards` and the rebuilt query in `Adapter.Query`.
--   internal/server: `Site` (diagnostics, test search, capabilities), `Site.Theme` (adminTheme),
--     `Site.Page` (the text of the admin page, in pieces) and
--     `Site.Router` (Handler, and Mount of the catalogue), with media calls in `Site.Router.Media`.
-- `World.Rules` and `Store.Rules` are an interface for properties of actions: what one owes at the parts
-- that actions are built from. `Steps.Calls`, `Consumer.Steps`, `Reconciler.Steps`, `Catalog.Steps` and
-- `Site.Steps` go through the actions of the plugin by it, for any such property. `Steps` (an action as a
-- sequence of statements) and `Steps.Alike` (an action that does not see the order of the rows) are its
-- instances.
-- `Prelude` and `Result` are shared; `Examples` has data, runs and the theorems at concrete data.
--
-- The state. `World.World` is what the parts share: the table, the calls of Publish and the HTTP
-- requests sent. `World.Env` answers, by turn, what the plugin does not decide: clocks, the
-- outcome of each SQL statement (run, not run with an error, or run with an error), how many rows
-- of a result arrive, the context's deadline, and the answers of the upstream service. It is an
-- argument of every action, and no theorem assumes anything of it that its comment does not say.
-- encoding/json is two functions of it, at the two monitoring types; `Books.Types.Codec` has it at
-- the types of the catalogue, with the printing of floats, which are kept as their bits.
--
-- Concurrency. Handlers and ticks run at once and meet in the database, which runs one statement
-- at a time. `Steps.Reach` is any sequence of their statements, so it covers each interleaving.
-- `Upstream.Locked` interleaves the threads that configure the shared client and those that read it,
-- `Process.Patches` the PATCH requests of the administrator, and `Reconciler.Overlap` the ticks that
-- meet at a lock; writes of the running configuration have no lock, and what it holds while they overlap
-- is left open in `Process.Patches`, but for the DSN; `Process.Swap` has the stores of Configure that other calls may come between.
-- sync.RWMutex and sync.Mutex are there as the steps that they let through, and net/http's redirects
-- in `Upstream.Redirect` as the requests that CheckRedirect allows.
--
-- Text that the code only compares is a `String`; text that it builds or cuts is its bytes. Errors
-- are their texts. Points in time count from Go's zero time. A Go nil pointer is `none`. Loops are
-- recursions on the list they range over, or on the number of rounds that the code counts; fuel
-- is used in `itoa`, where the number itself is enough, and in GetAppConfig, where two calls are.
--
-- golang-jwt, encoding/base64 and the conversion of a float64 to int are the record `Tokens.Jwt`; what
-- Verify relies on is a hypothesis of its theorem.
--
-- `Process.Process` is what `main` holds: the clients, which the parts share by reference, so that a
-- save that changes one changes it for all of them; the pools that are open; and a row of app_config
-- for each DSN. `Plugin.Plugin` adds a table for each DSN: a part works on the one of its store, and
-- sees it as a `World`. `Site.Router.Site` puts it beside the world, for the HTTP handlers, and
-- `Adapter.handle` is over any state. A panic of a handler is a value.
--
-- Also parameters: `Process.Pools` is pgxpool, `Migrate.Migrator` golang-migrate, `Adapter.HttpLib`
-- net/http and net/url, and `Site.Router.Web` chi's match of a route, with the reading of a message
-- and the encoding of an answer. A map that Go walks in any order is a list in the order walked.
--
-- Not modelled: what the script of the admin page does in a browser; logging, but for the
-- publisher's; and the SDK, which serves the plugin.
pub mod Prelude
pub mod Result
pub mod Table
pub mod World
pub mod Publisher
pub mod Url
pub mod Upstream
pub mod Store
pub mod Steps
pub mod Consumer
pub mod Reconciler
pub mod Scheduler
pub mod Books
pub mod Runtime
pub mod AppConfig
pub mod Migrate
pub mod Manifest
pub mod Process
pub mod Site
pub mod Plugin
pub mod Tokens
pub mod Adapter
pub mod Catalog
pub mod Examples
