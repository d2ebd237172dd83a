-- ===== src/Plugin/Parts.antt =====
-- The clients, stores and pools that the parts of the plugin work with.
use mathlib.Core.Option
use continuum_plugin_bookwar.Prelude.{
  ℕ, zero, suc, ◌<◌, ◌≡◌, refl, ap, ◌∙◌, true, String, Option, none, some, List, [], ◌∷◌, length,
  arith,
}
use continuum_plugin_bookwar.Table.{Table}
use continuum_plugin_bookwar.Runtime.{ParsedUrl, new_server}
use continuum_plugin_bookwar.AppConfig.{AppDb, Backend}
use continuum_plugin_bookwar.Upstream.{Client}
use continuum_plugin_bookwar.Migrate.{Migrator}
use continuum_plugin_bookwar.Process.{StoreRef, PartDeps, Pools, start}
use continuum_plugin_bookwar.Process.Admin.{client_at}
use continuum_plugin_bookwar.Process.Wired.{IsWired, Above, pools_of}
use continuum_plugin_bookwar.Process.Runs.{start-IsWired}
use continuum_plugin_bookwar.Tokens.{Jwt}
use continuum_plugin_bookwar.Books.Types.{Codec}
use continuum_plugin_bookwar.Adapter.{HttpLib}
use continuum_plugin_bookwar.Site.Router.{Site, Web, server_client}
use continuum_plugin_bookwar.Plugin.{
  Plugin, world_of, plugin_id, consumer_deps, reconciler_deps, part_dsn, store_dsn, HostCall,
  serve_all,
}
use continuum_plugin_bookwar.Plugin.Kept.{serve_all-Kept}

-- before the first call of the host
abbrev pub start_plugin : (String → AppDb) → (String → Table) → Plugin
start_plugin dbs tables = record {
  runtime = new_server;
  process = start dbs;
  tables = tables;
  published = [];
  sent = [];
  turn = 0;
}

abbrev pub site_of : Plugin → Site
site_of p = record { world = world_of (store_dsn p.process.server.store) p; process = p.process }

-- the store that a part has been given
abbrev store_in : Option PartDeps → Option StoreRef
store_in o = Option.map (λ (d : PartDeps). d.store) o

-- No part has been set up, or all have been, with the same client and store. The pool of that
-- store is the only one that is open.
pub data Together (p : Plugin) : Type 0 where
  not_set_up :
      server_client (site_of p) ≡ none
      → consumer_deps p.process ≡ none
      → reconciler_deps p.process ≡ none
      → p.process.open_pools ≡ []
      → Together p
  set_up :
      (c : Client) (store : StoreRef)
      → server_client (site_of p) ≡ some c
      → consumer_deps p.process
        ≡ some (record { store = true; publisher = true; bw = some c; plugin_id = plugin_id })
      → reconciler_deps p.process ≡ some (record { bw = c; plugin_id = plugin_id })
      → p.process.server.store ≡ some store
      → store_in p.process.consumer ≡ some store
      → store_in p.process.reconciler ≡ some store
      → p.process.open_pools ≡ store.pool ∷ []
      → Together p

client_at-some :
    (n : ℕ) (cs : List Client) → n < length cs → (c : Client) × (client_at n cs ≡ some c)
unfolding client_at
client_at-some n [] h = absurd (omega (arith, h))
client_at-some zero (c ∷ cs) h = (c, refl)
client_at-some (suc n) (c ∷ cs) h = client_at-some n cs (omega (arith, h))

allocated_at : (n : ℕ) (o : Option ℕ) (r : ℕ) → o ≡ some r → Above n o → r < n
allocated_at n o r e h = rw e at h

IsWired-Together :
    (p : Plugin) (o : Option PartDeps) → p.process.consumer ≡ o → IsWired p.process → Together p
unfolding server_client consumer_deps reconciler_deps part_dsn store_dsn Option.bind
IsWired-Together p none e w =
    let pool : p.process.pool ≡ none = rw (w.pool, e) refl in
    not_set_up (rw (w.client, e) refl) (rw e refl) (rw (w.shared, e) refl)
      (w.opened ∙ ap pools_of pool)
IsWired-Together p (some d) e w =
    let s = p.process in
    let pool : s.pool ≡ some d.store.pool = rw (w.pool, e) refl in
    let own : s.server.client ≡ some d.client = rw (w.client, e) refl in
    let (c, there) =
      client_at-some d.client s.clients (allocated_at _ _ d.client own w.allocated) in
    set_up c d.store (rw own there) (rw (e, there) refl) (rw (w.shared, e, there) refl)
      (rw (w.store, e) refl) (rw e refl) (rw (w.shared, e) refl) (w.opened ∙ ap pools_of pool)

module _ (lib : Codec) (jwt : Jwt) (b : Backend) (web : Web) (http : HttpLib) (pools : Pools)
    (m : Migrator) (parse_url : String → Option ParsedUrl) where
  -- After any sequence of calls of the host that follows the start, configurations that fail
  -- included, the HTTP handlers, the consumer and the reconciler have no client and no pool is
  -- open, or all three have one and the same client and one and the same store, and the pool of that
  -- store is the only one that is open.
  pub serve_all-Together :
      (dbs : String → AppDb) (tables : String → Table) (cs : List HostCall)
      → Together (serve_all lib jwt b web http pools m parse_url (start_plugin dbs tables) cs)
  serve_all-Together dbs tables cs =
      let p = start_plugin dbs tables in
      let kept = serve_all-Kept lib jwt b web http pools m parse_url p cs in
      IsWired-Together _ _ refl (kept.wired (start-IsWired dbs))
