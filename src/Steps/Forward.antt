-- ===== src/Steps/Forward.antt =====
-- What every sequence of steps keeps: rows stay and change only as `Advances` says, the primary
-- key stays one, and what was published stays published.
use mathlib.Core.List.{append_assoc, append-nil}
use continuum_plugin_bookwar.Prelude.{String, ◌≡◌, refl, sym, true, some, List, [], ◌∷◌, ◌++◌}
use continuum_plugin_bookwar.Table.{Time, Row, Table, find, is_terminal, polled}
use continuum_plugin_bookwar.Table.Keys.{
  NodupKeys, upsert-NodupKeys, update_where-NodupKeys, polled-request_id,
}
use continuum_plugin_bookwar.Table.Advance.{
  TableAdvances, TableAdvances-refl, TableAdvances-trans, upsert-TableAdvances,
  polled-TableAdvances,
}
use continuum_plugin_bookwar.World.{
  Env, World, Message, Outcome, done, refused, unconfirmed, settle, exec, publish,
}
use continuum_plugin_bookwar.Steps.{Step, upserting, polling, publishing, asking, Reach, here, next}

pub record Progress (u v : World) : Type 0 where
  pub rows : TableAdvances u.table v.table
  pub keys : NodupKeys u.table → NodupKeys v.table
  pub events : (later : List Message) × (v.published ≡ u.published ++ later)

pub Progress-refl : (w : World) → Progress w w
Progress-refl w = record {
  rows = TableAdvances-refl w.table;
  keys = λ h. h;
  events = ([], sym (append-nil w.published));
}

pub Progress-trans : (u v w : World) → Progress u v → Progress v w → Progress u w
Progress-trans u v w a b = record {
  rows = TableAdvances-trans u.table v.table w.table a.rows b.rows;
  keys = λ h. b.keys (a.keys h);
  events = (
    a.events.0 ++ b.events.0,
    rw (b.events.1, a.events.1) (append_assoc u.published a.events.0 b.events.0),
  );
}

-- an action that leaves the table and the events alone
same_table : (u v : World) → v.table ≡ u.table → v.published ≡ u.published → Progress u v
same_table u v h k = record {
  rows = rw h (TableAdvances-refl u.table);
  keys = λ p. rw h p;
  events = ([], rw k (sym (append-nil u.published)));
}

Progress-settle :
    (o : Outcome) (u before after : World)
    → Progress u before
    → Progress u after
    → Progress u (settle o before after).1
unfolding settle
Progress-settle done u b a h k = k
Progress-settle (refused e) u b a h k = h
Progress-settle (unconfirmed e) u b a h k = k

module _ (env : Env) where
  Progress-exec :
      (f : Time → Table → Table)
      → ((now : Time) (t : Table) → TableAdvances t (f now t))
      → ((now : Time) (t : Table) → NodupKeys t → NodupKeys (f now t))
      → (w : World) → Progress w (exec env f w).1
  unfolding exec
  Progress-exec f forwards keys w =
      Progress-settle (env.outcome w.turn) w _ _ (same_table w _ refl refl) (record {
        rows = forwards (env.now w.turn) w.table;
        keys = keys (env.now w.turn) w.table;
        events = ([], sym (append-nil w.published));
      })

Step-Progress : {u v : World} → Step u v → Progress u v
Step-Progress {u} (upserting env r updated) =
    Progress-exec env _ (λ now t. upsert-TableAdvances _ t) (λ now t. upsert-NodupKeys _ t) u
Step-Progress {u} (polling env id e s stamp) =
    Progress-exec env _ (λ now t. polled-TableAdvances id e s stamp t)
      (λ now t. update_where-NodupKeys id (polled e s stamp) (polled-request_id e s stamp) t) u
Step-Progress {u} (publishing m) =
    unfold publish in
    record { rows = TableAdvances-refl u.table; keys = λ h. h; events = (m ∷ [], refl) }
Step-Progress {u} {v} (asking h k) = same_table u v h k

-- Whatever steps handlers and ticks interleave, under whatever answers of the database, every row stays and
-- keeps its id, its creation time and a status that is terminal; a row with an external id or a poll
-- time goes on to have one, perhaps another; a set auto_monitor flag stays set; distinct keys stay
-- distinct, and no published event is lost.
pub Reach-Progress : {u v : World} → Reach u v → Progress u v
Reach-Progress {u} here = Progress-refl u
Reach-Progress {u} (next {v = v} {w = w} r s) =
    Progress-trans u v w (Reach-Progress r) (Step-Progress s)

-- A request that is imported or failed keeps that status for ever.
pub Reach-terminal :
    {u v : World} (k : String) (r : Row)
    → Reach u v
    → find k u.table ≡ some r
    → is_terminal r.status ≡ true
    → (s : Row) × (find k v.table ≡ some s) × (s.status ≡ r.status)
Reach-terminal k r steps there over =
    let (s, h, later) = (Reach-Progress steps).rows k r there in (s, h, later.frozen over)
