-- ===== src/Store/Rules.antt =====
-- Rules for a property of the plugin's actions, and by them the methods of internal/store/request.go.
use continuum_plugin_bookwar.Prelude.{ℕ, String, Option}
use continuum_plugin_bookwar.Table.{Time, upsert, polled, update_where, select_non_terminal}
use continuum_plugin_bookwar.World.{
  Env, Message, Request, time_now, is_cancelled, exec, query, row_reads, send, publish,
}
use continuum_plugin_bookwar.World.Rules.{
  Property, Holds, IsMonadic, Holds-pure, Holds-bind, Holds-if, Holds-on_result, Holds-on_error,
}
use continuum_plugin_bookwar.Upstream.{Client, send_headed}
use continuum_plugin_bookwar.Store.{
  ForwardedRequest, inserted, count_all, upsert_forwarded_request, mark_polled, list_non_terminal,
  request_stats,
}

-- The property holds of what the plugin's actions are built from.
pub record IsClosed (K : Property) (env : Env) : Type 0 where
  pub now_rule : Holds K (time_now env)
  pub cancelled_rule : Holds K (is_cancelled env)
  pub count_rule : Holds K (row_reads env)
  pub send_rule : (r : Request) → Holds K (send env r)
  pub headed_rule : (c : Client) (r : Request) → Holds K (send_headed env c r)
  pub publish_rule : (m : Message) → Holds K (publish m)
  -- the statements of UpsertForwardedRequest, MarkPolled, ListNonTerminal and RequestStats
  pub upsert_rule :
      (r : ForwardedRequest) (updated : Time)
      → Holds K (exec env (λ created. upsert (inserted r updated created)))
  pub polled_rule :
      (id : String) (e : Option String) (s : String) (stamp : Time)
      → Holds K (exec env (λ _. update_where id (polled e s stamp)))
  pub listing_rule : (limit : ℕ) → Holds K (query env (select_non_terminal env.collate limit))
  pub stats_rule : Holds K (query env count_all)
  -- Ping of the pool
  pub ping_rule : Holds K (query env (λ _. tt {0}))

module _ (K : Property) (env : Env) (rules : IsClosed K env) where
  pub Holds-time_now : Holds K (time_now env)
  Holds-time_now = rules.now_rule

  pub Holds-is_cancelled : Holds K (is_cancelled env)
  Holds-is_cancelled = rules.cancelled_rule

  pub Holds-row_reads : Holds K (row_reads env)
  Holds-row_reads = rules.count_rule

  pub Holds-send : (r : Request) → Holds K (send env r)
  Holds-send r = rules.send_rule r

  pub Holds-send_headed : (c : Client) (r : Request) → Holds K (send_headed env c r)
  Holds-send_headed c r = rules.headed_rule c r

pub ruleset step_rules = (
  Holds-pure, Holds-bind, Holds-if, Holds-on_result, Holds-on_error, Holds-time_now,
  Holds-is_cancelled, Holds-row_reads, Holds-send, Holds-send_headed,
)

module _ (K : Property) (monadic : IsMonadic K) (env : Env) (rules : IsClosed K env) where
  pub Holds-upsert_forwarded_request :
      (r : ForwardedRequest) → Holds K (upsert_forwarded_request env r)
  unfolding upsert_forwarded_request
  Holds-upsert_forwarded_request r = search (step_rules, rules.upsert_rule) depth 7

  pub Holds-mark_polled :
      (id external_id status : String) (when : Time)
      → Holds K (mark_polled env id external_id status when)
  unfolding mark_polled
  Holds-mark_polled id external_id status when = search (step_rules, rules.polled_rule) depth 7

  pub Holds-list_non_terminal : (limit : ℕ) → Holds K (list_non_terminal env limit)
  unfolding list_non_terminal
  Holds-list_non_terminal limit = search (step_rules, rules.listing_rule) depth 7

  pub Holds-request_stats : Holds K (request_stats env)
  unfolding request_stats
  Holds-request_stats = search (step_rules, rules.stats_rule) depth 7

pub ruleset store_rules =
    (step_rules, Holds-upsert_forwarded_request, Holds-mark_polled, Holds-list_non_terminal)
