-- ===== src/Scheduler.antt =====
-- internal/scheduler/server.go: the scheduled task that runs the reconciler.
use Prim.Native.Char.{code}
use mathlib.Core.Option.{get_or}
use continuum_plugin_bookwar.Prelude.{
  String, ◌≡◌, refl, Bool, not, Option, none, some, Bytes, ◌==◌, eqb, if◌then◌else◌,
}
use continuum_plugin_bookwar.Result.{Result, ok, err}
use continuum_plugin_bookwar.World.{Env, Act, pure, ◌>>=◌}
use continuum_plugin_bookwar.World.Rules.{Property, Holds, IsMonadic}
use continuum_plugin_bookwar.Store.Rules.{IsClosed, step_rules}
use continuum_plugin_bookwar.Reconciler.{Deps, tick}
use continuum_plugin_bookwar.Reconciler.Steps.{Holds-tick}

-- what follows the last ':', if there is one
after_colon : String → Option String
after_colon String.[] = none
after_colon (String.◌∷◌ c s) =
    let rest = after_colon s in
    elim rest [ some r ↦ some r | none ↦ if eqb (code c) b':' then some s else none ]

unfoldable pub task_id : String → String
unfolding after_colon
task_id key = get_or (after_colon key) key

task_id_qualified : task_id "plugin:7:reconciler" ≡ "reconciler"
unfolding task_id
task_id_qualified = refl

-- The answer of `Run`: a response, or an error by its cause.
pub data RunResult : Type 0 where
  ran : RunResult
  unknown_task : String → RunResult
  not_configured : RunResult
  tick_failed : Bytes → RunResult

unfoldable pub run_result : Result (Unit {0}) → RunResult
run_result (ok tt) = ran
run_result (err e) = tick_failed e

-- `depsFn` gives the reconciler, or nil before Configure
unfoldable pub run_reconciler : Env → Option Deps → Bool → Act RunResult
unfolding run_result
run_reconciler env none locked = pure not_configured
run_reconciler env (some d) locked = do done ← tick env d locked; pure (run_result done)

unfoldable pub run : Env → Option Deps → Bool → String → Act RunResult
unfolding run_reconciler task_id
run env deps locked key =
    if not (task_id key == "reconciler")
    then pure (unknown_task key)
    else run_reconciler env deps locked

module _ (K : Property) (monadic : IsMonadic K) (env : Env) (rules : IsClosed K env) where
  Holds-run_reconciler :
      (deps : Option Deps) (locked : Bool) → Holds K (run_reconciler env deps locked)
  unfolding run_reconciler
  Holds-run_reconciler none locked = search step_rules
  Holds-run_reconciler (some d) locked = search (step_rules, Holds-tick)

  pub Holds-run :
      (deps : Option Deps) (locked : Bool) (key : String) → Holds K (run env deps locked key)
  unfolding run
  Holds-run deps locked key = search (step_rules, Holds-run_reconciler)
