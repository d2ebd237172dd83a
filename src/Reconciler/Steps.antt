-- ===== src/Reconciler/Steps.antt =====
-- The rules of the actions of internal/reconciler/reconciler.go.
use continuum_plugin_bookwar.Prelude.{Bool, Option, List, [], ◌∷◌, Bytes}
use continuum_plugin_bookwar.World.{Env, MonitoringResponse}
use continuum_plugin_bookwar.World.Rules.{Property, Holds, IsMonadic}
use continuum_plugin_bookwar.Store.{ForwardedRequest}
use continuum_plugin_bookwar.Store.Rules.{IsClosed, step_rules}
use continuum_plugin_bookwar.Steps.Calls.{call_rules}
use continuum_plugin_bookwar.Reconciler.{
  Deps, record_poll_error, record_snapshot, poll_row, visit_row, poll_rows, tick,
}

module _ (K : Property) (monadic : IsMonadic K) (env : Env) (rules : IsClosed K env)
    (d : Deps) where
  Holds-record_poll_error :
      (row : ForwardedRequest) (first : Option Bytes) (e : Bytes)
      → Holds K (record_poll_error env d row first e)
  unfolding record_poll_error
  Holds-record_poll_error row first e = search call_rules depth 7

  Holds-record_snapshot :
      (row : ForwardedRequest) (first : Option Bytes) (snap : MonitoringResponse)
      → Holds K (record_snapshot env d row first snap)
  unfolding record_snapshot
  Holds-record_snapshot row first snap = search (call_rules, rules.publish_rule) depth 7

  Holds-poll_row :
      (row : ForwardedRequest) (first : Option Bytes) → Holds K (poll_row env d row first)
  unfolding poll_row
  Holds-poll_row row first = search (call_rules, Holds-record_poll_error, Holds-record_snapshot)

  Holds-visit_row :
      (row : ForwardedRequest) (first : Option Bytes) → Holds K (visit_row env d row first)
  unfolding visit_row
  Holds-visit_row row first = search (step_rules, Holds-poll_row)

  Holds-poll_rows :
      (rows : List ForwardedRequest) (first : Option Bytes) → Holds K (poll_rows env d rows first)
  unfolding poll_rows
  Holds-poll_rows [] first = search step_rules
  Holds-poll_rows (row ∷ rows) first = search (step_rules, Holds-visit_row, Holds-poll_rows rows)

  pub Holds-tick : (locked : Bool) → Holds K (tick env d locked)
  unfolding tick
  Holds-tick locked = search (call_rules, Holds-poll_rows) depth 7
