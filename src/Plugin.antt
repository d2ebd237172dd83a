-- ===== src/Plugin.antt =====
-- The running plugin: cmd/silo-plugin-bookwarehouse-ebook/main.go, which serves the calls of the
-- host with the four parts and gives them the objects that the last Configure has installed.
pub mod Served
pub mod Kept
pub mod Alike
pub mod Parts
use mathlib.Core.Option
use continuum_plugin_bookwar.Prelude.{
  ℕ, String, Bool, true, Option, none, some, List, [], ◌∷◌, Bytes, ◌==◌, length, drop,
  if◌then◌else◌,
}
use continuum_plugin_bookwar.Result.{Result}
use continuum_plugin_bookwar.Table.{Table}
use continuum_plugin_bookwar.World.{Env, World, Act, Message, Request}
use continuum_plugin_bookwar.Runtime
use continuum_plugin_bookwar.Runtime.{Config, Entry, ParsedUrl, configure}
use continuum_plugin_bookwar.AppConfig.{Backend}
use continuum_plugin_bookwar.Migrate.{Migrator}
use continuum_plugin_bookwar.Process.{StoreRef, PartDeps, Process, Pools, on_configure}
use continuum_plugin_bookwar.Process.Admin.{client_at}
use continuum_plugin_bookwar.Consumer
use continuum_plugin_bookwar.Consumer.{EventRequest, handle_event}
use continuum_plugin_bookwar.Reconciler
use continuum_plugin_bookwar.Scheduler
use continuum_plugin_bookwar.Scheduler.{RunResult}
use continuum_plugin_bookwar.Tokens.{Jwt}
use continuum_plugin_bookwar.Books.Types.{Codec}
use continuum_plugin_bookwar.Adapter.{HttpLib, RpcRequest, RpcResponse}
use continuum_plugin_bookwar.Site.Router.{Site, Web, handle_call}

-- What the parts share. Each database, by its DSN, has a table of its own; the rows of app_config
-- are in `process`.
pub record Plugin : Type 0 where
  pub runtime : Runtime.Server
  pub process : Process
  pub tables : String → Table
  pub published : List Message
  pub sent : List Request
  pub turn : ℕ

-- what a part sees that works on the database `dsn`
abbrev pub world_of : String → Plugin → World
world_of dsn p = record {
  table = p.tables dsn;
  published = p.published;
  sent = p.sent;
  turn = p.turn;
}

-- the table of the database `dsn` becomes `t`
unfoldable pub set_table : String → Table → (String → Table) → String → Table
set_table dsn t tables other = if other == dsn then t else tables other

-- what the part has left
unfoldable pub put_world : String → World → Plugin → Plugin
unfolding set_table
put_world dsn w p = record p {
  tables = set_table dsn w.table p.tables;
  published = w.published;
  sent = w.sent;
  turn = w.turn;
}

abbrev pub plugin_id : String
plugin_id = "silo.bookwarehouse-ebook"

-- `func() *consumer.Deps { return consumerDepsP.Load() }`
unfoldable pub consumer_deps : Process → Option Consumer.Deps
consumer_deps s =
    Option.map
      (λ (d : PartDeps). record {
        store = true;
        publisher = true;
        bw = client_at d.client s.clients;
        plugin_id = plugin_id;
      })
      s.consumer

-- `func() *reconciler.Reconciler { return reconcilerPtr.Load() }`
unfoldable pub reconciler_deps : Process → Option Reconciler.Deps
reconciler_deps s = Option.bind s.reconciler (λ (d : PartDeps).
    Option.map (λ c. record { bw = c; plugin_id = plugin_id }) (client_at d.client s.clients))

-- the database of a part; a part without a store uses none
unfoldable pub part_dsn : Option PartDeps → String
part_dsn none = ""
part_dsn (some d) = d.store.dsn

unfoldable pub store_dsn : Option StoreRef → String
store_dsn none = ""
store_dsn (some r) = r.dsn

-- EventConsumer.HandleEvent
unfoldable pub deliver : Env → EventRequest → Plugin → Result (Unit {0}) × Plugin
unfolding put_world consumer_deps part_dsn
deliver env req p =
    let dsn = part_dsn p.process.consumer in
    let (answer, w) = handle_event env (some (consumer_deps p.process)) req (world_of dsn p) in
    (answer, put_world dsn w p)

-- ScheduledTask.Run
unfoldable pub run_task : Env → Bool → String → Plugin → RunResult × Plugin
unfolding put_world reconciler_deps part_dsn
run_task env locked key p =
    let dsn = part_dsn p.process.reconciler in
    let (answer, w) = Scheduler.run env (reconciler_deps p.process) locked key (world_of dsn p) in
    (answer, put_world dsn w p)

module _ (b : Backend) (pools : Pools) (m : Migrator) (parse_url : String → Option ParsedUrl) where
  -- the calls of the callback
  unfoldable pub call_all : List Config → Process → Process
  call_all [] s = s
  call_all (cfg ∷ cfgs) s = call_all cfgs (on_configure b pools m cfg s).1

  -- Runtime.Configure, with the callback that sets up the parts
  unfoldable pub configure_plugin : List Entry → Plugin → Option Bytes × Plugin
  unfolding call_all
  configure_plugin entries p =
      let (answer, runtime) =
        configure parse_url (some (λ cfg. (on_configure b pools m cfg p.process).0)) entries
          p.runtime in
      let calls = drop (length p.runtime.applied) runtime.applied in
      (answer, record p { runtime = runtime; process = call_all calls p.process })

module _ (lib : Codec) (jwt : Jwt) (b : Backend) (web : Web) (http : HttpLib) where
  -- HttpRoutes.Handle
  unfoldable pub serve_http : Env → RpcRequest → Plugin → RpcResponse × Plugin
  unfolding put_world store_dsn
  serve_http env req p =
      let dsn = store_dsn p.process.server.store in
      let (answer, s) =
        handle_call env lib jwt b web http req
          (record { world = world_of dsn p; process = p.process }) in
      (answer, record (put_world dsn s.world p) { process = s.process })

-- The calls of the host. Each one meets an environment of its own.
pub data HostCall : Type 0 where
  configures : List Entry → HostCall
  delivers : Env → EventRequest → HostCall
  schedules : Env → Bool → String → HostCall
  requests : Env → RpcRequest → HostCall

module _ (lib : Codec) (jwt : Jwt) (b : Backend) (web : Web) (http : HttpLib) (pools : Pools)
    (m : Migrator) (parse_url : String → Option ParsedUrl) where
  unfoldable pub serve_host : Plugin → HostCall → Plugin
  unfolding configure_plugin deliver run_task serve_http
  serve_host p (configures entries) = (configure_plugin b pools m parse_url entries p).1
  serve_host p (delivers env req) = (deliver env req p).1
  serve_host p (schedules env locked key) = (run_task env locked key p).1
  serve_host p (requests env req) = (serve_http lib jwt b web http env req p).1

  unfoldable pub serve_all : Plugin → List HostCall → Plugin
  unfolding serve_host
  serve_all p [] = p
  serve_all p (c ∷ cs) = serve_all (serve_host p c) cs
