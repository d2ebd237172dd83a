-- ===== src/Steps/Alike.antt =====
-- Two worlds that differ in the order of the table's rows only, and the actions of the plugin in both.
use mathlib.Core.Option.{get_or}
use mathlib.Core.Path.{subst}
use continuum_plugin_bookwar.Prelude.{
  suc, String, ◌≡◌, refl, sym, ◌∙◌, ap, ◌++◌, [], ◌∷◌, Bool, true, not, ◌==◌, ◌&&◌, List,
}
use continuum_plugin_bookwar.Result.{Result}
use continuum_plugin_bookwar.Table.{Table, Time}
use continuum_plugin_bookwar.Table.{Row, upsert, polled, update_where, is_terminal}
use continuum_plugin_bookwar.Table.Keys.{polled-request_id}
use continuum_plugin_bookwar.Table.Selection.{IsCollation}
use continuum_plugin_bookwar.Table.Rows.{SameRows, upsert-SameRows, update_where-SameRows}
use continuum_plugin_bookwar.Table.Rows.Order.{
  select_non_terminal-SameRows, count_where-SameRows, length-SameRows,
}
use continuum_plugin_bookwar.World.Rules.{Property, Holds, IsMonadic}
use continuum_plugin_bookwar.Upstream.{send_headed}
use continuum_plugin_bookwar.Store.{inserted, count_all, has_error}
use continuum_plugin_bookwar.Store.Rules.{IsClosed}
use continuum_plugin_bookwar.World.{
  Env, World, Act, Message, Request, Outcome, done, refused, unconfirmed, settle, ◌>>=◌, time_now,
  is_cancelled, exec, query, row_reads, send, publish,
}

-- What PostgreSQL documents of a deterministic collation: it is a total order, in which no two
-- texts stand at one place.
pub record IsLinear (collate : String → String → Bool) : Type 0 where
  pub order : IsCollation collate
  pub antisym : (a b : String) → collate a b ≡ true → collate b a ≡ true → a ≡ b

pub record Alike (w v : World) : Type 0 where
  pub rows : SameRows w.table v.table
  pub published : w.published ≡ v.published
  pub sent : w.sent ≡ v.sent
  pub turn : w.turn ≡ v.turn

-- The action gives the same in two such worlds, and leaves two such worlds.
abbrev pub IgnoresOrder : Property
IgnoresOrder A m = (w v : World) → Alike w v → ((m w).0 ≡ (m v).0) × Alike (m w).1 (m v).1

pub IgnoresOrder-IsMonadic : IsMonadic IgnoresOrder
unfolding ◌>>=◌
IgnoresOrder-IsMonadic = record {
  pure_rule = λ a. record { at = λ w v h. (refl, h) };
  bind_rule = λ {A} {B} m f km kf. record {
    at = λ w v h.
        let (same, after) = km.at w v h in
        let next = (kf (m v).0).at (m w).1 (m v).1 after in
        (
          ap (λ (a : A). (f a (m w).1).0) same ∙ next.0,
          subst (λ a. Alike (f a (m w).1).1 (f (m v).0 (m v).1).1) (sym same) next.1,
        );
  };
}

settle-same : (o : Outcome) (a b c d : World) → (settle o a b).0 ≡ (settle o c d).0
unfolding settle
settle-same done a b c d = refl
settle-same (refused e) a b c d = refl
settle-same (unconfirmed e) a b c d = refl

settle-Alike :
    (o : Outcome) (a b c d : World)
    → Alike a c
    → Alike b d
    → Alike (settle o a b).1 (settle o c d).1
unfolding settle
settle-Alike done a b c d h k = k
settle-Alike (refused e) a b c d h k = h
settle-Alike (unconfirmed e) a b c d h k = k

later :
    (w v : World)
    → Alike w v
    → Alike (record w { turn = suc w.turn }) (record v { turn = suc v.turn })
later w v h = record { rows = h.rows; published = h.published; sent = h.sent; turn = ap suc h.turn }

sent_both :
    (w v : World) (r : Request)
    → Alike w v
    → Alike
        (record w { sent = w.sent ++ r ∷ []; turn = suc w.turn })
        (record v { sent = v.sent ++ r ∷ []; turn = suc v.turn })
sent_both w v r h = record {
  rows = h.rows;
  published = h.published;
  sent = ap (λ (s : List Request). s ++ r ∷ []) h.sent;
  turn = ap suc h.turn;
}

module _ (env : Env) where
  abbrev settled : (Time → Table → Table) → Outcome → Act (Result (Unit {0}))
  settled f o w =
      settle o (record w { turn = suc w.turn })
        (record w { turn = suc w.turn; table = f (env.now w.turn) w.table })

  pub query-IgnoresOrder :
      {A : Type 0} (f : Table → A)
      → ((t u : Table) → SameRows t u → f t ≡ f u)
      → Holds IgnoresOrder (query env f)
  unfolding query
  query-IgnoresOrder f kf = record {
    at = λ w v h. (rw (h.turn, kf w.table v.table h.rows) refl, later w v h);
  }

  pub exec-IgnoresOrder :
      (f : Time → Table → Table)
      → ((now : Time) (t u : Table) → SameRows t u → SameRows (f now t) (f now u))
      → Holds IgnoresOrder (exec env f)
  unfolding exec
  exec-IgnoresOrder f kf = record {
    at = λ w v h. (
      rw h.turn (settle-same (env.outcome v.turn) _ _ _ _),
      subst (λ o. Alike (settled f (env.outcome w.turn) w).1 (settled f o v).1)
          (ap env.outcome h.turn)
          (settle-Alike (env.outcome w.turn) _ _ _ _ (later w v h) (record {
            rows =
                subst (λ n. SameRows (f (env.now w.turn) w.table) (f (env.now n) v.table)) h.turn
                  (kf (env.now w.turn) w.table v.table h.rows);
            published = h.published;
            sent = h.sent;
            turn = ap suc h.turn;
          })),
    );
  }

  module _ (linear : IsLinear env.collate) where
    count_all-SameRows : (t u : Table) → SameRows t u → count_all t ≡ count_all u
    unfolding count_all
    count_all-SameRows t u h =
        let counts = λ (p : Row → Bool).
          count_where-SameRows env.collate linear.order linear.antisym p t u h in
        λ i. record {
          total = length-SameRows env.collate linear.order linear.antisym t u h i;
          active = counts (λ r. not (is_terminal r.status)) i;
          failed = counts (λ r. r.status == "failed") i;
          imported = counts (λ r. r.status == "imported") i;
          with_errors = counts has_error i;
          unsubmitted = counts (λ r. get_or r.external_id "" == "" && not (is_terminal r.status)) i;
        }

    pub IgnoresOrder-IsClosed : IsClosed IgnoresOrder env
    unfolding time_now is_cancelled row_reads send send_headed publish
    IgnoresOrder-IsClosed = record {
      now_rule = record { at = λ w v h. (ap env.now h.turn, later w v h) };
      cancelled_rule = record { at = λ w v h. (ap env.cancelled h.turn, later w v h) };
      count_rule = record { at = λ w v h. (rw h.turn refl, later w v h) };
      send_rule = λ r. record { at = λ w v h. (rw h.turn refl, sent_both w v r h) };
      headed_rule = λ c r. record { at = λ w v h. (rw h.turn refl, sent_both w v r h) };
      publish_rule = λ m. record {
        at = λ w v h. (
          refl,
          record {
            rows = h.rows;
            published = ap (λ (s : List Message). s ++ m ∷ []) h.published;
            sent = h.sent;
            turn = h.turn;
          },
        );
      };
      upsert_rule = λ r updated.
          exec-IgnoresOrder (λ created. upsert (inserted r updated created))
            (λ now. upsert-SameRows (inserted r updated now));
      polled_rule = λ id e s stamp.
          exec-IgnoresOrder (λ _. update_where id (polled e s stamp))
            (λ _. update_where-SameRows id (polled e s stamp) (polled-request_id e s stamp));
      listing_rule = λ limit.
          query-IgnoresOrder _
            (select_non_terminal-SameRows env.collate linear.order linear.antisym limit);
      stats_rule = query-IgnoresOrder _ count_all-SameRows;
      ping_rule = query-IgnoresOrder _ (λ t u h. refl);
    }
