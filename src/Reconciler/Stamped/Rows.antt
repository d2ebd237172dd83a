-- ===== src/Reconciler/Stamped/Rows.antt =====
-- The rows that a tick of internal/reconciler/reconciler.go visits, and their poll times.
use mathlib.Core.Path.{subst}
use continuum_plugin_bookwar.Prelude.{
  ℕ, suc, ◌<◌, ◌≤◌, ◌≡◌, refl, ◌∙◌, ◌⊎◌, String, false, Option, none, some, List, [], ◌∷◌, Bytes,
  codes, ◌++◌, ◌==◌, eq_iff, Bool-cases, Option-cases, inl, inr, All,
}
use continuum_plugin_bookwar.Result.{Result, ok, err}
use continuum_plugin_bookwar.Table.{Table, Time}
use continuum_plugin_bookwar.World.{
  Env, World, Act, MonitoringResponse, ◌>>=◌, time_now, publish, is_cancelled, send, on_result,
  pure,
}
use continuum_plugin_bookwar.Upstream.{get, read_snapshot, get_monitoring}
use continuum_plugin_bookwar.Url.{path_escape}
use continuum_plugin_bookwar.Store.{ForwardedRequest}
use continuum_plugin_bookwar.Reconciler.{
  Deps, translate_status, keep_first, record_poll_error, record_snapshot, poll_row, visit_row,
  poll_rows,
}
use continuum_plugin_bookwar.Reconciler.Branches.{keep_first-none}
use continuum_plugin_bookwar.Reconciler.Stamped.{
  IsFresh, IsListed, StampsIfOk, mark_polled-StampsIfOk, upsert_forwarded_request-StampsIfOk,
}

-- The row needs no poll, or has had one since `T`.
abbrev pub IsDone : Time → Table → ForwardedRequest → Type 0
IsDone T t row = (row.external_id ≡ "") ⊎ IsFresh T row.request_id t

-- what a step of the loop does for a row, if it leaves no error
record StampsIfClean (T : Time) (row : ForwardedRequest) (first : Option Bytes) (t : Table)
    (r : Option Bytes × World) : Type 0 where
  keeps : (k : String) → IsFresh T k t → IsFresh T k r.1.table
  lists : (k : String) → IsListed k t → IsListed k r.1.table
  makes : r.0 ≡ none → IsDone T r.1.table row
  clean : r.0 ≡ none → first ≡ none

-- what the rest of the loop does, if it leaves no error
pub record RoundIfClean (T : Time) (rows : List ForwardedRequest) (first : Option Bytes) (t : Table)
    (r : Option Bytes × World) : Type 0 where
  keeps : (k : String) → IsFresh T k t → IsFresh T k r.1.table
  pub polls : r.0 ≡ none → All (IsDone T r.1.table) rows
  clean : r.0 ≡ none → first ≡ none

IsDone-kept :
    (T : Time) (row : ForwardedRequest) (t u : Table)
    → ((k : String) → IsFresh T k t → IsFresh T k u)
    → IsDone T t row
    → IsDone T u row
IsDone-kept T row t u keeps (inl unsubmitted) = inl unsubmitted
IsDone-kept T row t u keeps (inr fresh) = inr (keeps row.request_id fresh)

All-IsListed :
    (t u : Table) (rows : List ForwardedRequest)
    → ((k : String) → IsListed k t → IsListed k u)
    → All (λ row. IsListed row.request_id t) rows
    → All (λ row. IsListed row.request_id u) rows
All-IsListed t u [] lists h = tt
All-IsListed t u (row ∷ rows) lists h = (lists row.request_id h.0, All-IsListed t u rows lists h.1)

keep_first-first :
    (first : Option Bytes) (what : String) (r : Result (Unit {0}))
    → keep_first first what r ≡ none
    → first ≡ none
unfolding keep_first
keep_first-first none what r h = refl
keep_first-first (some e) what r h = cc

table-on_result :
    {A : Type 0} (r : Result Bytes) (f : Bytes → Result A) (w : World)
    → (on_result {B = Act (Result A)} r (λ e. pure (err e)) (λ b. pure (f b)) w).1.table ≡ w.table
table-on_result (ok b) f w = refl
table-on_result (err e) f w = refl

module _ (env : Env) (d : Deps) where
  table-get : (path : Bytes) (w : World) → (get env d.bw path w).1.table ≡ w.table
  unfolding get ◌>>=◌ send
  table-get path w = elim (Option-cases (env.bad_url (d.bw.base_url ++ path))) [
    | inl parses ↦ rw parses refl
    | inr (e, bad) ↦ rw bad refl
  ]

  table-get_monitoring :
      (id : String) (w : World) → (get_monitoring env d.bw id w).1.table ≡ w.table
  unfolding get_monitoring ◌>>=◌
  table-get_monitoring id w =
      let (answer, v) = get env d.bw (codes "/api/v1/monitoring/" ++ path_escape id) w in
      table-on_result answer (read_snapshot env d.bw) v
      ∙ table-get (codes "/api/v1/monitoring/" ++ path_escape id) w

  module _ (T : Time) (positive : 0 < T) (clock : (n : ℕ) → T ≤ env.now n) where
    keep_first-StampsIfClean :
        (row : ForwardedRequest) (first : Option Bytes) (what : String) (t : Table) (u : World)
        (r : Result (Unit {0}))
        → StampsIfOk T row.request_id t (r, u)
        → StampsIfClean T row first t (keep_first first what r, u)
    keep_first-StampsIfClean row first what t u r s = record {
      keeps = s.keeps;
      lists = s.lists;
      makes = λ h. inr (s.makes (keep_first-none first what r h));
      clean = keep_first-first first what r;
    }

    record_poll_error-StampsIfClean :
        (row : ForwardedRequest) (first : Option Bytes) (e : Bytes) (w : World)
        → StampsIfClean T row first w.table (record_poll_error env d row first e w)
    unfolding record_poll_error ◌>>=◌ time_now
    record_poll_error-StampsIfClean row first e w =
        keep_first-StampsIfClean row first "upsert (after upstream err): " w.table _ _
          (upsert_forwarded_request-StampsIfOk env T positive _ _ (clock w.turn))

    record_snapshot-StampsIfClean :
        (row : ForwardedRequest) (first : Option Bytes) (snap : MonitoringResponse) (w : World)
        → IsListed row.request_id w.table
        → StampsIfClean T row first w.table (record_snapshot env d row first snap w)
    unfolding record_snapshot ◌>>=◌ time_now publish
    record_snapshot-StampsIfClean row first snap w there =
        let t : String = translate_status snap.status in
        let v : World = record w { turn = suc w.turn } in
        let step = λ (s what : String). keep_first-StampsIfClean row first what w.table _ _ (
          mark_polled-StampsIfOk env T positive row.request_id row.external_id s (env.now w.turn) v
            there (clock w.turn)) in
        elim (Bool-cases (t == "")) [
          | inl unknown ↦ rw unknown (step row.status "mark polled (no transition): ")
          | inr known ↦ elim (Bool-cases (t == row.status)) [
            | inl same ↦ rw (known, same) (step row.status "mark polled (no transition): ")
            | inr differs ↦
                rw (known, differs)
                  (let s = step t "mark polled (status change): " in
                    record { keeps = s.keeps; lists = s.lists; makes = s.makes; clean = s.clean })
          ]
        ]

    answered-StampsIfClean :
        (row : ForwardedRequest) (first : Option Bytes) (r : Result MonitoringResponse) (w : World)
        → IsListed row.request_id w.table
        → StampsIfClean T row first w.table
            (on_result r (record_poll_error env d row first) (record_snapshot env d row first) w)
    answered-StampsIfClean row first (ok snap) w there =
        record_snapshot-StampsIfClean row first snap w there
    answered-StampsIfClean row first (err e) w there = record_poll_error-StampsIfClean row first e w

    poll_row-StampsIfClean :
        (row : ForwardedRequest) (first : Option Bytes) (w : World)
        → IsListed row.request_id w.table
        → StampsIfClean T row first w.table (poll_row env d row first w)
    unfolding poll_row ◌>>=◌
    poll_row-StampsIfClean row first w there =
        let (answer, v) = get_monitoring env d.bw row.external_id w in
        let same : v.table ≡ w.table = table-get_monitoring row.external_id w in
        subst
          (λ t. StampsIfClean T row first t (
            on_result answer (record_poll_error env d row first) (record_snapshot env d row first)
              v))
          same (answered-StampsIfClean row first answer v (rw same there))

    visit_row-StampsIfClean :
        (row : ForwardedRequest) (first : Option Bytes) (w : World)
        → IsListed row.request_id w.table
        → StampsIfClean T row first w.table (visit_row env d row first w)
    unfolding visit_row
    visit_row-StampsIfClean row first w there = elim (Bool-cases (row.external_id == "")) [
      | inl unsubmitted ↦ rw unsubmitted (record {
        keeps = λ k h. h;
        lists = λ k h. h;
        makes = λ h. inl ((eq_iff row.external_id "").0 unsubmitted);
        clean = λ h. h;
      })
      | inr submitted ↦ rw submitted (poll_row-StampsIfClean row first w there)
    ]

    module _ (in_time : (n : ℕ) → env.cancelled n ≡ false) where
      pub poll_rows-RoundIfClean :
          (rows : List ForwardedRequest) (first : Option Bytes) (w : World)
          → All (λ row. IsListed row.request_id w.table) rows
          → RoundIfClean T rows first w.table (poll_rows env d rows first w)
      unfolding poll_rows ◌>>=◌ is_cancelled
      poll_rows-RoundIfClean [] first w there = record {
        keeps = λ k h. h;
        polls = λ h. tt;
        clean = λ h. h;
      }
      poll_rows-RoundIfClean (row ∷ rows) first w there =
          let v : World = record w { turn = suc w.turn } in
          let visit = visit_row-StampsIfClean row first v there.0 in
          let (next, u) = visit_row env d row first v in
          let rest =
            poll_rows-RoundIfClean rows next u
              (All-IsListed w.table u.table rows visit.lists there.1) in
          rw (in_time w.turn) (record {
            keeps = λ k h. rest.keeps k (visit.keeps k h);
            polls =
                λ h. (IsDone-kept T row _ _ rest.keeps (visit.makes (rest.clean h)), rest.polls h);
            clean = λ h. visit.clean (rest.clean h);
          })
