-- ===== src/Consumer/Steps.antt =====
-- The rules of the actions of internal/consumer/handler.go.
use continuum_plugin_bookwar.Prelude.{String, Bool, Option, none, some, Bytes}
use continuum_plugin_bookwar.World.{Env, Message}
use continuum_plugin_bookwar.World.Rules.{Property, Holds, IsMonadic}
use continuum_plugin_bookwar.Upstream.{Client}
use continuum_plugin_bookwar.Store.Rules.{IsClosed, step_rules}
use continuum_plugin_bookwar.Steps.Calls.{call_rules}
use continuum_plugin_bookwar.Consumer.{
  Fields, EventRequest, Deps, publish_if, record_failure, record_acknowledged, forward, dispatch,
  with_client, with_payload, handle_event,
}

module _ (K : Property) (monadic : IsMonadic K) (env : Env) (rules : IsClosed K env) where
  Holds-publish_if : (b : Bool) (m : Message) → Holds K (publish_if b m)
  unfolding publish_if
  Holds-publish_if b m = search (step_rules, rules.publish_rule)

module _ (K : Property) (monadic : IsMonadic K) (env : Env) (rules : IsClosed K env) (d : Deps)
    (bw : Client) (p : Fields) (id : String) where
  Holds-record_failure : (e : Bytes) → Holds K (record_failure env d bw p id e)
  unfolding record_failure
  Holds-record_failure e = search (call_rules, Holds-publish_if) depth 7

  Holds-record_acknowledged :
      (external_id : String) → Holds K (record_acknowledged env d bw p id external_id)
  unfolding record_acknowledged
  Holds-record_acknowledged e = search (call_rules, Holds-publish_if) depth 7

  Holds-forward : Holds K (forward env d bw p id)
  unfolding forward
  Holds-forward = search (call_rules, Holds-record_failure, Holds-record_acknowledged) depth 7

module _ (K : Property) (monadic : IsMonadic K) (env : Env) (rules : IsClosed K env) where
  Holds-dispatch :
      (d : Deps) (bw : Client) (p : Fields) (target : Option String)
      → Holds K (dispatch env d bw p target)
  unfolding dispatch
  Holds-dispatch d bw p none = search step_rules
  Holds-dispatch d bw p (some target) = search (step_rules, Holds-forward)

  Holds-with_client :
      (d : Deps) (bw : Option Client) (p : Fields) → Holds K (with_client env d bw p)
  unfolding with_client
  Holds-with_client d none p = search step_rules
  Holds-with_client d (some bw) p = search (step_rules, Holds-dispatch)

  Holds-with_payload :
      (deps_fn : Option (Option Deps)) (p : Option Fields) → Holds K (with_payload env deps_fn p)
  unfolding with_payload
  Holds-with_payload deps_fn none = search step_rules
  Holds-with_payload none (some p) = search step_rules
  Holds-with_payload (some none) (some p) = search step_rules
  Holds-with_payload (some (some d)) (some p) = Holds-with_client d d.bw p

  pub Holds-handle_event :
      (deps_fn : Option (Option Deps)) (req : EventRequest) → Holds K (handle_event env deps_fn req)
  unfolding handle_event
  Holds-handle_event deps_fn req = search (step_rules, Holds-with_payload)
