-- ===== src/Plugin/Alike.antt =====
-- The calls of the host to two running plugins whose tables differ in the order of their rows only.
pub mod Runs
use mathlib.Core.Path.{subst}
use continuum_plugin_bookwar.Prelude.{
  ◌≡◌, refl, sym, ap, ℕ, String, Option, some, List, [], ◌∷◌, ◌==◌, Bool, Bool-cases, inl, inr,
  eq_iff, Bytes,
}
use continuum_plugin_bookwar.Result.{Result}
use continuum_plugin_bookwar.Table.{Table}
use continuum_plugin_bookwar.Table.Rows.{SameRows}
use continuum_plugin_bookwar.World.{Env, World, Message, Request}
use continuum_plugin_bookwar.Store.Rules.{IsClosed}
use continuum_plugin_bookwar.Steps.Alike.{
  IsLinear, Alike, IgnoresOrder, IgnoresOrder-IsMonadic, IgnoresOrder-IsClosed,
}
use continuum_plugin_bookwar.Runtime.{ParsedUrl, Entry}
use continuum_plugin_bookwar.AppConfig.{Backend}
use continuum_plugin_bookwar.Migrate.{Migrator}
use continuum_plugin_bookwar.Process.{Pools}
use continuum_plugin_bookwar.Consumer.{EventRequest}
use continuum_plugin_bookwar.Consumer.Steps.{Holds-handle_event}
use continuum_plugin_bookwar.Scheduler.{RunResult, Holds-run}
use continuum_plugin_bookwar.Tokens.{Jwt}
use continuum_plugin_bookwar.Books.Types.{Codec}
use continuum_plugin_bookwar.Adapter.{HttpLib, RpcRequest, RpcResponse}
use continuum_plugin_bookwar.Site.Router.{Web}
use continuum_plugin_bookwar.Site.Alike.{handle_call-Both}
use continuum_plugin_bookwar.Plugin.{
  Plugin, world_of, set_table, put_world, consumer_deps, reconciler_deps, part_dsn, store_dsn,
  deliver, run_task, configure_plugin, serve_http, HostCall, configures, delivers, schedules,
  requests, serve_host, serve_all,
}

pub record AlikePlugins (p q : Plugin) : Type 0 where
  pub runtime : p.runtime ≡ q.runtime
  pub process : p.process ≡ q.process
  pub tables : (dsn : String) → SameRows (p.tables dsn) (q.tables dsn)
  pub published : p.published ≡ q.published
  pub sent : p.sent ≡ q.sent
  pub turn : p.turn ≡ q.turn

-- what the host gets for a call
pub data HostAnswer : Type 0 where
  configured : Option Bytes → HostAnswer
  delivered : Result (Unit {0}) → HostAnswer
  scheduled : RunResult → HostAnswer
  responded : RpcResponse → HostAnswer

module _ (lib : Codec) (jwt : Jwt) (b : Backend) (web : Web) (http : HttpLib) (pools : Pools)
    (m : Migrator) (parse_url : String → Option ParsedUrl) where
  unfoldable pub answer_host : Plugin → HostCall → HostAnswer
  unfolding configure_plugin deliver run_task serve_http
  answer_host p (configures entries) = configured (configure_plugin b pools m parse_url entries p).0
  answer_host p (delivers env req) = delivered (deliver env req p).0
  answer_host p (schedules env locked key) = scheduled (run_task env locked key p).0
  answer_host p (requests env req) = responded (serve_http lib jwt b web http env req p).0

  -- the answers to calls that come one after another
  unfoldable pub answer_all : Plugin → List HostCall → List HostAnswer
  unfolding answer_host serve_host
  answer_all p [] = []
  answer_all p (c ∷ cs) =
      answer_host p c ∷ answer_all (serve_host lib jwt b web http pools m parse_url p c) cs

-- Each environment that a call meets sorts by a linear collation.
abbrev pub Collates : HostCall → Type 0
Collates (configures entries) = Unit
Collates (delivers env req) = IsLinear env.collate
Collates (schedules env locked key) = IsLinear env.collate
Collates (requests env req) = IsLinear env.collate

-- the plugin with other tables
abbrev pub with_tables : (String → Table) → Plugin → Plugin
with_tables ts p = record p { tables = ts }

set_table-SameRows :
    (dsn : String) (t u : Table) (ts us : String → Table)
    → SameRows t u
    → ((other : String) → SameRows (ts other) (us other))
    → (other : String) → SameRows (set_table dsn t ts other) (set_table dsn u us other)
unfolding set_table
set_table-SameRows dsn t u ts us h k other = elim (Bool-cases (other == dsn)) [
  | inl same ↦ rw same h
  | inr differs ↦ rw differs (k other)
]

module _ (p : Plugin) (ts : String → Table)
    (rows : (dsn : String) → SameRows (p.tables dsn) (ts dsn)) where
  world_of-Alike : (dsn : String) → Alike (world_of dsn p) (world_of dsn (with_tables ts p))
  world_of-Alike dsn = record { rows = rows dsn; published = refl; sent = refl; turn = refl }

  put_world-AlikePlugins :
      (dsn : String) (w v : World)
      → Alike w v
      → AlikePlugins (put_world dsn w p) (put_world dsn v (with_tables ts p))
  unfolding put_world
  put_world-AlikePlugins dsn w v h = record {
    runtime = refl;
    process = refl;
    tables = set_table-SameRows dsn w.table v.table p.tables ts h.rows rows;
    published = h.published;
    sent = h.sent;
    turn = h.turn;
  }

  module _ (env : Env) (linear : IsLinear env.collate) where
    pub deliver-AlikePlugins :
        (req : EventRequest)
        → ((deliver env req p).0 ≡ (deliver env req (with_tables ts p)).0)
          × AlikePlugins (deliver env req p).1 (deliver env req (with_tables ts p)).1
    unfolding deliver
    deliver-AlikePlugins req =
        let dsn = part_dsn p.process.consumer in
        let both =
          (Holds-handle_event IgnoresOrder IgnoresOrder-IsMonadic env
              (IgnoresOrder-IsClosed env linear) (some (consumer_deps p.process)) req).at
            _ _ (world_of-Alike dsn) in
        (both.0, put_world-AlikePlugins dsn _ _ both.1)

    pub run_task-AlikePlugins :
        (locked : Bool) (key : String)
        → ((run_task env locked key p).0 ≡ (run_task env locked key (with_tables ts p)).0)
          × AlikePlugins
              (run_task env locked key p).1
              (run_task env locked key (with_tables ts p)).1
    unfolding run_task
    run_task-AlikePlugins locked key =
        let dsn = part_dsn p.process.reconciler in
        let both =
          (Holds-run IgnoresOrder IgnoresOrder-IsMonadic env (IgnoresOrder-IsClosed env linear)
              (reconciler_deps p.process) locked key).at
            _ _ (world_of-Alike dsn) in
        (both.0, put_world-AlikePlugins dsn _ _ both.1)

    pub serve_http-AlikePlugins :
        (lib : Codec) (jwt : Jwt) (b : Backend) (web : Web) (http : HttpLib) (req : RpcRequest)
        → ((serve_http lib jwt b web http env req p).0
            ≡ (serve_http lib jwt b web http env req (with_tables ts p)).0)
          × AlikePlugins
              (serve_http lib jwt b web http env req p).1
              (serve_http lib jwt b web http env req (with_tables ts p)).1
    unfolding serve_http
    serve_http-AlikePlugins lib jwt b web http req =
        let dsn = store_dsn p.process.server.store in
        let (same, after) =
          handle_call-Both env (IgnoresOrder-IsClosed env linear) lib jwt b web http req _ _
            p.process (world_of-Alike dsn) in
        let put = put_world-AlikePlugins dsn _ _ after.worlds in
        (
          same,
          record {
            runtime = refl;
            process = after.process;
            tables = put.tables;
            published = put.published;
            sent = put.sent;
            turn = put.turn;
          },
        )
