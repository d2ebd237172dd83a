-- ===== src/Plugin/Served.antt =====
-- What the requester of a book can rely on, whatever the host calls afterwards.
use mathlib.Core.Option.{some-injective}
use continuum_plugin_bookwar.Prelude.{
  ◌≡◌, ◌≢◌, refl, sym, ap, inl, inr, true, String, Option, none, some, List, ◌==◌, eq_refl, eq_iff,
}
use continuum_plugin_bookwar.Result.{ok}
use continuum_plugin_bookwar.Table.{Table}
use continuum_plugin_bookwar.Table.Advance.{TableAdvances}
use continuum_plugin_bookwar.World.{Env, World}
use continuum_plugin_bookwar.Runtime.{ParsedUrl}
use continuum_plugin_bookwar.AppConfig.{Backend}
use continuum_plugin_bookwar.Migrate.{Migrator}
use continuum_plugin_bookwar.Process.{PartDeps, Pools}
use continuum_plugin_bookwar.Consumer.{
  Fields, EventRequest, target_plugin_id_from_payload, request_id_from_payload, handle_event,
  with_payload,
}
use continuum_plugin_bookwar.Consumer
use continuum_plugin_bookwar.Consumer.Recorded.{IsRecorded, handle_event-IsRecorded}
use continuum_plugin_bookwar.Tokens.{Jwt}
use continuum_plugin_bookwar.Books.Types.{Codec}
use continuum_plugin_bookwar.Adapter.{HttpLib}
use continuum_plugin_bookwar.Site.Router.{Web}
use continuum_plugin_bookwar.Plugin.{
  Plugin, world_of, set_table, put_world, plugin_id, consumer_deps, part_dsn, deliver, HostCall,
  serve_all,
}
use continuum_plugin_bookwar.Plugin.Kept.{serve_all-Kept}

-- A later version of the table still has the request.
IsRecorded-later : (k : String) (t u : Table) → TableAdvances t u → IsRecorded k t → IsRecorded k u
IsRecorded-later k t u later (r, there, inl over) =
    let (s, found, advances) = later k r there in
    let same = advances.frozen over in (s, found, inl (rw same over))
IsRecorded-later k t u later (r, there, inr known) =
    let (s, found, advances) = later k r there in (s, found, inr (advances.keeps_external known))

table-put_world : (dsn : String) (w : World) (p : Plugin) → (put_world dsn w p).tables dsn ≡ w.table
unfolding put_world set_table
table-put_world dsn w p = simp eq_refl

module _ (env : Env) (req : EventRequest) (f : Fields) where
  unconfigured :
      (w : World)
      → req.event_name ≡ "plugin.silo.ebooks.request_submitted"
      → req.payload ≡ some f
      → (handle_event env (some none) req w).0 ≢ ok tt
  unfolding handle_event with_payload
  unconfigured w name payload e =
      let ours : (req.event_name == "plugin.silo.ebooks.request_submitted") ≡ true =
        (eq_iff _ _).1 name in
      cc (simp (ours, payload) at e)

  -- HandleEvent before the first Configure answers a request with an error
  handled-IsRecorded :
      (o : Option Consumer.Deps) (w : World)
      → ((d : Consumer.Deps) → o ≡ some d → d.plugin_id ≡ plugin_id)
      → req.event_name ≡ "plugin.silo.ebooks.request_submitted"
      → req.payload ≡ some f
      → target_plugin_id_from_payload f ≡ some plugin_id
      → request_id_from_payload f ≢ ""
      → (handle_event env (some o) req w).0 ≡ ok tt
      → IsRecorded (request_id_from_payload f) (handle_event env (some o) req w).1.table
  handled-IsRecorded none w ours name payload target named acked =
      absurd (unconfigured w name payload acked)
  handled-IsRecorded (some d) w ours name payload target named acked =
      handle_event-IsRecorded env d req f w name payload (rw (ours d refl) target) named acked

  our_deps :
      (p : Plugin) (o : Option PartDeps) (d : Consumer.Deps)
      → p.process.consumer ≡ o
      → consumer_deps p.process ≡ some d
      → d.plugin_id ≡ plugin_id
  unfolding consumer_deps
  our_deps p none d e h = cc (rw e at h)
  our_deps p (some c) d e h =
      let same : some _ ≡ some d = rw e at h in
      sym (ap (λ (x : Consumer.Deps). x.plugin_id) (some-injective _ _ same))

  module _ (lib : Codec) (jwt : Jwt) (b : Backend) (web : Web) (http : HttpLib) (pools : Pools)
      (m : Migrator) (parse_url : String → Option ParsedUrl) where
    -- When the plugin acknowledges a request that is addressed to it and has an id, the request is
    -- in the database that the consumer then uses, and stays there as a row that is terminal or
    -- has the id of an upstream request, whatever the host calls afterwards: later
    -- configurations, events, tasks and HTTP requests, under any answers of the databases and of
    -- the upstream service.
    pub deliver-serve_all-IsRecorded :
        (p : Plugin) (cs : List HostCall)
        → req.event_name ≡ "plugin.silo.ebooks.request_submitted"
        → req.payload ≡ some f
        → target_plugin_id_from_payload f ≡ some plugin_id
        → request_id_from_payload f ≢ ""
        → (deliver env req p).0 ≡ ok tt
        → IsRecorded (request_id_from_payload f) (
            (serve_all lib jwt b web http pools m parse_url (deliver env req p).1 cs).tables
              (part_dsn p.process.consumer))
    unfolding deliver
    deliver-serve_all-IsRecorded p cs name payload target named acked =
        let dsn = part_dsn p.process.consumer in
        let w = (handle_event env (some (consumer_deps p.process)) req (world_of dsn p)).1 in
        let q = put_world dsn w p in
        let recorded =
          handled-IsRecorded (consumer_deps p.process) (world_of dsn p)
            (λ d. our_deps p p.process.consumer d refl) name payload target named acked in
        IsRecorded-later (request_id_from_payload f) (q.tables dsn) _
          ((serve_all-Kept lib jwt b web http pools m parse_url q cs).progress dsn).rows
          (rw (table-put_world dsn w p) recorded)
