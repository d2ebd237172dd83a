-- ===== src/Plugin/Kept.antt =====
-- What any sequence of the host's calls keeps.
use continuum_plugin_bookwar.Prelude.{
  inl, inr, Bool-cases, String, Option, some, List, [], ◌∷◌, ◌==◌, Bool, drop, length, eq_iff,
}
use continuum_plugin_bookwar.Table.Advance.{TableAdvances-refl}
use continuum_plugin_bookwar.World.{Env, World}
use continuum_plugin_bookwar.Runtime.{Config, Entry, ParsedUrl, configure}
use continuum_plugin_bookwar.AppConfig.{Backend}
use continuum_plugin_bookwar.Migrate.{Migrator}
use continuum_plugin_bookwar.Process.{Process, Pools, on_configure}
use continuum_plugin_bookwar.Process.Wired.{IsWired, on_configure-IsWired}
use continuum_plugin_bookwar.Consumer.{EventRequest}
use continuum_plugin_bookwar.Consumer.Steps.{Holds-handle_event}
use continuum_plugin_bookwar.Scheduler.{Holds-run}
use continuum_plugin_bookwar.Steps.{Walks, Walks-IsMonadic, Walks-IsClosed}
use continuum_plugin_bookwar.Steps.Forward.{Progress, Progress-refl, Progress-trans, Reach-Progress}
use continuum_plugin_bookwar.Tokens.{Jwt}
use continuum_plugin_bookwar.Books.Types.{Codec}
use continuum_plugin_bookwar.Adapter.{HttpLib, RpcRequest}
use continuum_plugin_bookwar.Site.Router.{Web}
use continuum_plugin_bookwar.Site.Steps.{handle_call-Moves}
use continuum_plugin_bookwar.Plugin.{
  Plugin, world_of, set_table, put_world, consumer_deps, reconciler_deps, part_dsn, store_dsn,
  deliver, run_task, call_all, configure_plugin, serve_http, HostCall, configures, delivers,
  schedules, requests, serve_host, serve_all,
}

-- Each database has its rows, which changed forwards only, no event is lost, and the parts share
-- their objects when they did before.
pub record Kept (p q : Plugin) : Type 0 where
  pub progress : (dsn : String) → Progress (world_of dsn p) (world_of dsn q)
  pub wired : IsWired p.process → IsWired q.process

Kept-refl : (p : Plugin) → Kept p p
Kept-refl p = record { progress = λ dsn. Progress-refl (world_of dsn p); wired = λ w. w }

Kept-trans : (p q r : Plugin) → Kept p q → Kept q r → Kept p r
Kept-trans p q r h k = record {
  progress = λ dsn. Progress-trans _ _ _ (h.progress dsn) (k.progress dsn);
  wired = λ w. k.wired (h.wired w);
}

-- What a part does in one database leaves the tables of the others.
put_world-Progress :
    (dsn other : String) (w : World) (p : Plugin)
    → Progress (world_of dsn p) w
    → Progress (world_of other p) (world_of other (put_world dsn w p))
unfolding put_world set_table
put_world-Progress dsn other w p h = elim (Bool-cases (other == dsn)) [
  | inl same ↦
      rw (same, (eq_iff other dsn).0 same)
        (record { rows = h.rows; keys = h.keys; events = h.events })
  | inr differs ↦
      rw differs
        (record { rows = TableAdvances-refl (p.tables other); keys = λ k. k; events = h.events })
]

module _ (env : Env) (p : Plugin) where
  deliver-Kept : (req : EventRequest) → Kept p (deliver env req p).1
  unfolding deliver
  deliver-Kept req =
      let dsn = part_dsn p.process.consumer in
      let r =
        Holds-handle_event Walks Walks-IsMonadic env (Walks-IsClosed env)
          (some (consumer_deps p.process)) req in
      record {
        progress =
            λ other. put_world-Progress dsn other _ p (Reach-Progress (r.at (world_of dsn p)));
        wired = λ w. w;
      }

  run_task-Kept : (locked : Bool) (key : String) → Kept p (run_task env locked key p).1
  unfolding run_task
  run_task-Kept locked key =
      let dsn = part_dsn p.process.reconciler in
      let r =
        Holds-run Walks Walks-IsMonadic env (Walks-IsClosed env) (reconciler_deps p.process) locked
          key in
      record {
        progress =
            λ other. put_world-Progress dsn other _ p (Reach-Progress (r.at (world_of dsn p)));
        wired = λ w. w;
      }

module _ (lib : Codec) (jwt : Jwt) (b : Backend) (web : Web) (http : HttpLib) where
  serve_http-Kept :
      (env : Env) (req : RpcRequest) (p : Plugin)
      → Kept p (serve_http lib jwt b web http env req p).1
  unfolding serve_http
  serve_http-Kept env req p =
      let dsn = store_dsn p.process.server.store in
      let moves =
        handle_call-Moves env lib jwt b web http req
          (record { world = world_of dsn p; process = p.process }) in
      record {
        progress = λ other. put_world-Progress dsn other _ p (Reach-Progress moves.steps);
        wired = moves.wired;
      }

module _ (b : Backend) (pools : Pools) (m : Migrator) (parse_url : String → Option ParsedUrl) where
  call_all-IsWired :
      (cfgs : List Config) (s : Process) → IsWired s → IsWired (call_all b pools m parse_url cfgs s)
  unfolding call_all
  call_all-IsWired [] s w = w
  call_all-IsWired (cfg ∷ cfgs) s w =
      call_all-IsWired cfgs _ (on_configure-IsWired b pools m cfg s w)

  configure_plugin-Kept :
      (entries : List Entry) (p : Plugin)
      → Kept p (configure_plugin b pools m parse_url entries p).1
  unfolding configure_plugin
  configure_plugin-Kept entries p = record {
    progress = λ dsn. Progress-refl (world_of dsn p);
    wired =
        call_all-IsWired
          (drop (length p.runtime.applied)
            (configure parse_url (some (λ cfg. (on_configure b pools m cfg p.process).0)) entries
              p.runtime).1.applied)
          p.process;
  }

module _ (lib : Codec) (jwt : Jwt) (b : Backend) (web : Web) (http : HttpLib) (pools : Pools)
    (m : Migrator) (parse_url : String → Option ParsedUrl) where
  serve_host-Kept :
      (p : Plugin) (c : HostCall) → Kept p (serve_host lib jwt b web http pools m parse_url p c)
  unfolding serve_host
  serve_host-Kept p (configures entries) = configure_plugin-Kept b pools m parse_url entries p
  serve_host-Kept p (delivers env req) = deliver-Kept env p req
  serve_host-Kept p (schedules env locked key) = run_task-Kept env p locked key
  serve_host-Kept p (requests env req) = serve_http-Kept lib jwt b web http env req p

  -- Whatever sequence of configurations, events, tasks and HTTP requests the host sends, and
  -- whatever the databases and the upstream service answer: in each database every row stays and
  -- changes only as `Advances` says, and distinct keys stay distinct; no published event is lost;
  -- and the parts go on to share one client, one store and the one open pool.
  pub serve_all-Kept :
      (p : Plugin) (cs : List HostCall)
      → Kept p (serve_all lib jwt b web http pools m parse_url p cs)
  unfolding serve_all
  serve_all-Kept p [] = Kept-refl p
  serve_all-Kept p (c ∷ cs) =
      let q = serve_host lib jwt b web http pools m parse_url p c in
      Kept-trans p q _ (serve_host-Kept p c) (serve_all-Kept q cs)
