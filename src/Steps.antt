-- ===== src/Steps.antt =====
-- The plugin serves events and scheduled tasks at once. Each of them is a sequence of steps: SQL
-- statements, which the database runs one at a time, calls of the publisher, and what changes
-- neither rows nor events. `Reach` is any sequence of such steps, and so any interleaving of any
-- number of handlers and ticks, each with an environment of its own.
pub mod Forward
pub mod Calls
pub mod Alike
use continuum_plugin_bookwar.Prelude.{String, ◌≡◌, refl, Option}
use continuum_plugin_bookwar.Result.{Result}
use continuum_plugin_bookwar.Table.{Time, Table, upsert, polled, update_where}
use continuum_plugin_bookwar.World.{
  Env, World, Act, Message, MonitoringRequest, Request, Outcome, done, refused, unconfirmed, settle,
  ◌>>=◌, time_now, is_cancelled, exec, query, row_reads, send, publish,
}
use continuum_plugin_bookwar.World.Rules.{Property, IsMonadic}
use continuum_plugin_bookwar.Upstream.{send_headed}
use continuum_plugin_bookwar.Store.Rules.{IsClosed}
use continuum_plugin_bookwar.Upstream.{Client, add_monitoring, get_monitoring}
use continuum_plugin_bookwar.Store.{
  ForwardedRequest, inserted, upsert_forwarded_request, mark_polled, list_non_terminal,
}

pub data Step (u : World) : World → Type 0 where
  -- the statement of UpsertForwardedRequest
  upserting :
      (env : Env) (r : ForwardedRequest) (updated : Time)
      → Step u (exec env (λ created. upsert (inserted r updated created)) u).1
  -- the statement of MarkPolled
  polling :
      (env : Env) (id : String) (external_id : Option String) (status : String) (stamp : Time)
      → Step u (exec env (λ _. update_where id (polled external_id status stamp)) u).1
  -- a call of Publish
  publishing : (m : Message) → Step u (publish m u).1
  -- a query, a clock, a deadline or a request to the upstream service
  asking : {v : World} → v.table ≡ u.table → v.published ≡ u.published → Step u v

pub data Reach (u : World) : World → Type 0 where
  here : Reach u u
  next : {v w : World} → Reach u v → Step v w → Reach u w

Reach-trans : {u v w : World} → Reach u v → Reach v w → Reach u w
Reach-trans r here = r
Reach-trans r (next s t) = next (Reach-trans r s) t

abbrev one : {u v : World} → Step u v → Reach u v
one s = next here s

-- The action is a sequence of steps.
abbrev pub Walks : Property
Walks A m = (w : World) → Reach w (m w).1

pub Walks-IsMonadic : IsMonadic Walks
unfolding ◌>>=◌
Walks-IsMonadic = record {
  pure_rule = λ a. record { at = λ w. here };
  bind_rule = λ m f km kf. record { at = λ w. Reach-trans (km.at w) ((kf (m w).0).at (m w).1) };
}

pub Walks-IsClosed : (env : Env) → IsClosed Walks env
unfolding time_now is_cancelled row_reads send send_headed query
Walks-IsClosed env = record {
  now_rule = record { at = λ w. one (asking refl refl) };
  cancelled_rule = record { at = λ w. one (asking refl refl) };
  count_rule = record { at = λ w. one (asking refl refl) };
  send_rule = λ r. record { at = λ w. one (asking refl refl) };
  headed_rule = λ c r. record { at = λ w. one (asking refl refl) };
  publish_rule = λ m. record { at = λ w. one (publishing m) };
  upsert_rule = λ r updated. record { at = λ w. one (upserting env r updated) };
  polled_rule = λ id e s stamp. record { at = λ w. one (polling env id e s stamp) };
  listing_rule = λ limit. record { at = λ w. one (asking refl refl) };
  stats_rule = record { at = λ w. one (asking refl refl) };
  ping_rule = record { at = λ w. one (asking refl refl) };
}
