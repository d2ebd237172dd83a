-- ===== src/Reconciler/Stamped.antt =====
-- The poll times that a tick of internal/reconciler/reconciler.go leaves.
pub mod Rows
pub mod Round
use continuum_plugin_bookwar.Prelude.{
  ℕ, zero, suc, ◌<◌, ◌≤◌, ◌≡◌, ◌≢◌, refl, sym, ap, ◌∙◌, String, Bool, true, false, not, Option,
  none, some, List, [], ◌∷◌, map, Bytes, ◌==◌, eq_iff, eq_refl, eqb, if◌then◌else◌, Bool-cases,
  Option-cases, inl, inr, All, arith,
}
use continuum_plugin_bookwar.Result.{Result, ok, err}
use continuum_plugin_bookwar.Table.{
  Row, Table, Time, find, polled_at, merge, upsert, polled, update_where,
}
use continuum_plugin_bookwar.Table.Keys.{find-upsert, find-update_where, polled-request_id}
use continuum_plugin_bookwar.Table.Advance.{upsert-TableAdvances, polled-TableAdvances}
use continuum_plugin_bookwar.World.{
  Env, World, Outcome, done, refused, unconfirmed, settle, exec, ◌>>=◌, time_now, publish,
}
use continuum_plugin_bookwar.Store.{
  ForwardedRequest, inserted, wrap, text_ptr, exec_upsert, exec_polled, upsert_forwarded_request,
  mark_polled,
}

-- The row of the key was polled at `T` or later.
abbrev pub IsFresh : Time → String → Table → Type 0
IsFresh T k t = (q : Row) × (find k t ≡ some q) × (T ≤ polled_at q)

-- The key has a row.
abbrev pub IsListed : String → Table → Type 0
IsListed k t = (q : Row) × (find k t ≡ some q)

-- What a change of the table does to the rows that have been polled since `T`, and to the row `id`.
pub record Stamps (T : Time) (id : String) (t u : Table) : Type 0 where
  pub keeps : (k : String) → IsFresh T k t → IsFresh T k u
  pub lists : (k : String) → IsListed k t → IsListed k u
  pub makes : IsFresh T id u

upsert-Stamps :
    (T stamp : Time) (x : Row) (t : Table)
    → x.last_polled ≡ some stamp
    → T ≤ stamp
    → Stamps T x.request_id t (upsert x t)
unfolding merge
upsert-Stamps T stamp x t e le = record {
  keeps = λ k (q, there, since). elim (Bool-cases (x.request_id == k)) [
    | inl same ↦ (merge x q, rw (find-upsert, same, there) refl, rw e le)
    | inr other ↦ (q, rw (find-upsert, other, there) refl, since)
  ];
  lists = λ k (q, there). let (s, found, _) = upsert-TableAdvances x t k q there in (s, found);
  makes = elim (Option-cases (find x.request_id t)) [
    | inl new ↦ (x, rw (find-upsert, eq_refl, new) refl, rw e le)
    | inr (q, old) ↦ (merge x q, rw (find-upsert, eq_refl, old) refl, rw e le)
  ];
}

polled-Stamps :
    (T stamp : Time) (id : String) (x : Option String) (s : String) (t : Table)
    → IsListed id t
    → T ≤ stamp
    → Stamps T id t (update_where id (polled x s stamp) t)
unfolding polled
polled-Stamps T stamp id x s t (r, there) le =
    let at = find-update_where id (polled x s stamp) (polled-request_id x s stamp) in
    record {
      keeps = λ k (q, found, since). elim (Bool-cases (id == k)) [
        | inl same ↦ (polled x s stamp q, rw (at, same, found) refl, le)
        | inr other ↦ (q, rw (at, other, found) refl, since)
      ];
      lists = λ k (q, found).
          let (u, later, _) = polled-TableAdvances id x s stamp t k q found in (u, later);
      makes = (polled x s stamp r, rw (at, eq_refl, there) refl, le);
    }

-- What a statement of the store does that stamps the row `id`, if it reports no error.
pub record StampsIfOk (T : Time) (id : String) (t : Table) (r : Result (Unit {0}) × World)
    : Type 0 where
  pub keeps : (k : String) → IsFresh T k t → IsFresh T k r.1.table
  pub lists : (k : String) → IsListed k t → IsListed k r.1.table
  pub makes : r.0 ≡ ok tt → IsFresh T id r.1.table

settle-StampsIfOk :
    (T : Time) (id : String) (o : Outcome) (t : Table) (before after : World)
    → before.table ≡ t
    → Stamps T id t after.table
    → StampsIfOk T id t (settle o before after)
unfolding settle
settle-StampsIfOk T id done t before after e s = record {
  keeps = s.keeps;
  lists = s.lists;
  makes = λ _. s.makes;
}
settle-StampsIfOk T id (refused x) t before after e s = record {
  keeps = λ k h. rw e h;
  lists = λ k h. rw e h;
  makes = λ h. cc;
}
settle-StampsIfOk T id (unconfirmed x) t before after e s = record {
  keeps = s.keeps;
  lists = s.lists;
  makes = λ h. cc;
}

wrap-StampsIfOk :
    (T : Time) (id prefix : String) (t : Table) (u : World) (r : Result (Unit {0}))
    → StampsIfOk T id t (r, u)
    → StampsIfOk T id t (wrap prefix r, u)
unfolding wrap
wrap-StampsIfOk T id prefix t u (ok tt) s = s
wrap-StampsIfOk T id prefix t u (err e) s = record {
  keeps = s.keeps;
  lists = s.lists;
  makes = λ h. cc;
}

refused-StampsIfOk :
    (T : Time) (id : String) (w : World) (e : Bytes) → StampsIfOk T id w.table (err e, w)
refused-StampsIfOk T id w e = record { keeps = λ k h. h; lists = λ k h. h; makes = λ h. cc }

module _ (env : Env) (T : Time) (positive : 0 < T) where
  exec_polled-StampsIfOk :
      (id : String) (x : Option String) (s : String) (stamp : Time) (w : World)
      → IsListed id w.table
      → T ≤ stamp
      → StampsIfOk T id w.table (exec_polled env id x s stamp w)
  unfolding exec_polled ◌>>=◌ exec
  exec_polled-StampsIfOk id x s stamp w there le =
      wrap-StampsIfOk T id "mark polled: " w.table _ _ (
        settle-StampsIfOk T id (env.outcome w.turn) w.table _ _ refl
          (polled-Stamps T stamp id x s w.table there le))

  pub mark_polled-StampsIfOk :
      (id x s : String) (when : Time) (w : World)
      → IsListed id w.table
      → T ≤ when
      → StampsIfOk T id w.table (mark_polled env id x s when w)
  unfolding mark_polled ◌>>=◌
  mark_polled-StampsIfOk id x s when w there le = elim (Bool-cases (id == "")) [
    | inl unnamed ↦ rw unnamed (refused-StampsIfOk T id w _)
    | inr named ↦ elim (Bool-cases (eqb when 0)) [
      | inl unset ↦ absurd (ground arith)
      | inr given ↦ rw (named, given) (exec_polled-StampsIfOk id (text_ptr x) s when w there le)
    ]
  ]

  exec_upsert-StampsIfOk :
      (r : ForwardedRequest) (updated : Time) (w : World)
      → T ≤ r.last_polled
      → StampsIfOk T r.request_id w.table (exec_upsert env r updated w)
  unfolding exec_upsert ◌>>=◌ exec inserted
  exec_upsert-StampsIfOk r updated w le =
      wrap-StampsIfOk T r.request_id "upsert forwarded_request: " w.table _ _ (
        settle-StampsIfOk T r.request_id (env.outcome w.turn) w.table _ _ refl (
          upsert-Stamps T r.last_polled (inserted r updated (env.now w.turn)) w.table (ground arith)
            le))

  pub upsert_forwarded_request-StampsIfOk :
      (r : ForwardedRequest) (w : World)
      → T ≤ r.last_polled
      → StampsIfOk T r.request_id w.table (upsert_forwarded_request env r w)
  unfolding upsert_forwarded_request ◌>>=◌ time_now
  upsert_forwarded_request-StampsIfOk r w le = elim (Bool-cases (r.request_id == "")) [
    | inl unnamed ↦ rw unnamed (refused-StampsIfOk T r.request_id w _)
    | inr named ↦ elim (Bool-cases (eqb r.updated_at 0)) [
      | inl unset ↦
          rw (named, unset)
            (exec_upsert-StampsIfOk r (env.now w.turn) (record w { turn = suc w.turn }) le)
      | inr given ↦ rw (named, given) (exec_upsert-StampsIfOk r r.updated_at w le)
    ]
  ]
