-- ===== src/Store/Stats.antt =====
-- The counts that the diagnostics page shows.
use mathlib.Core.Option.{get_or}
use mathlib.Core.Path.{subst}
use continuum_plugin_bookwar.Prelude.{
  ◌+◌, ◌≤◌, ◌≡◌, sym, Bool, not, ◌&&◌, ◌==◌, length, arith, [], ◌∷◌,
}
use continuum_plugin_bookwar.Result.{ok, ok-injective}
use continuum_plugin_bookwar.Table.{Row, Table, is_terminal, count_where}
use continuum_plugin_bookwar.Table.Counts.{count_states, count_where_mono}
use continuum_plugin_bookwar.World.{
  Env, World, Outcome, done, refused, unconfirmed, ◌>>=◌, query, query_result,
}
use continuum_plugin_bookwar.Store.{RequestStats, count_all, has_error, wrap, request_stats}

pub record IsConsistent (s : RequestStats) : Type 0 where
  pub states : s.total ≡ s.active + s.failed + s.imported
  pub waiting : s.unsubmitted ≤ s.active
  pub errors : s.with_errors ≤ s.total

count_where-le-length : (p : Row → Bool) (t : Table) → count_where p t ≤ length t
unfolding count_where
count_where-le-length p [] = omega arith
count_where-le-length p (r ∷ rs) = ground (arith, count_where-le-length p rs)

count_all-IsConsistent : (t : Table) → IsConsistent (count_all t)
unfolding count_all
count_all-IsConsistent t = record {
  states = sym (count_states t);
  waiting =
      count_where_mono (λ r. get_or r.external_id "" == "" && not (is_terminal r.status))
        (λ r. not (is_terminal r.status)) t (λ r h. ground arith);
  errors = count_where-le-length has_error t;
}

counted :
    (o : Outcome) (t : Table) (s : RequestStats)
    → wrap "request stats: " (query_result o (count_all t)) ≡ ok s
    → s ≡ count_all t
unfolding wrap query_result
counted done t s h = sym (ok-injective h)
counted (refused e) t s h = cc
counted (unconfirmed e) t s h = cc

-- The counts that RequestStats returns add up: each request is active, failed or imported, only
-- active requests count as not submitted, and no more have errors than there are.
pub request_stats-IsConsistent :
    (env : Env) (w : World) (s : RequestStats) → (request_stats env w).0 ≡ ok s → IsConsistent s
unfolding request_stats ◌>>=◌ query
request_stats-IsConsistent env w s h =
    subst IsConsistent (sym (counted (env.outcome w.turn) w.table s h))
      (count_all-IsConsistent w.table)
