-- ===== src/Reconciler/Stamped/Round.antt =====
-- internal/reconciler/reconciler.go: `Tick` as a whole, and the poll times that it leaves.
use mathlib.Core.Path.{subst}
use continuum_plugin_bookwar.Prelude.{
  sym, ℕ, suc, ◌<◌, ◌≤◌, ◌≡◌, refl, Option, none, some, List, [], ◌∷◌, map, String, Bool, false,
  Bytes, ◌==◌, eq_refl, Bool-cases, inl, inr, All,
}
use continuum_plugin_bookwar.Result.{Result, ok, err}
use continuum_plugin_bookwar.Table.{Row, Table, Time, find, where_rows, select_non_terminal}
use continuum_plugin_bookwar.Table.Selection.{All-order_by, All-take}
use continuum_plugin_bookwar.World.{
  Env, World, Act, query_result, Outcome, done, refused, unconfirmed, pure, ◌>>=◌, query, row_reads,
  on_result,
}
use continuum_plugin_bookwar.Store.{
  ForwardedRequest, scanned, scan_rows, wrap, arrived, list_non_terminal,
}
use continuum_plugin_bookwar.Reconciler.{Deps, poll_rows, first_error, tick}
use continuum_plugin_bookwar.Reconciler.Rows.{listing, scan_rows_ok}
use continuum_plugin_bookwar.Reconciler.Stamped.{IsListed}
use continuum_plugin_bookwar.Reconciler.Stamped.Rows.{IsDone, poll_rows-RoundIfClean}

find-shadow : (k : String) (r : Row) (t : Table) → IsListed k t → IsListed k (r ∷ t)
unfolding find
find-shadow k r t (q, there) = elim (Bool-cases (r.request_id == k)) [
  | inl same ↦ (r, rw same refl)
  | inr other ↦ (q, rw other there)
]

IsListed-lifted :
    (t u : Table) (s : Table)
    → ((k : String) → IsListed k t → IsListed k u)
    → All (λ r. IsListed r.request_id t) s
    → All (λ r. IsListed r.request_id u) s
IsListed-lifted t u [] lift h = tt
IsListed-lifted t u (r ∷ rs) lift h = (lift r.request_id h.0, IsListed-lifted t u rs lift h.1)

find-All : (t : Table) → All (λ r. IsListed r.request_id t) t
unfolding find
find-All [] = tt
find-All (r ∷ rs) =
    ((r, rw eq_refl refl), IsListed-lifted rs (r ∷ rs) rs (λ k. find-shadow k r rs) (find-All rs))

All-where_rows : (P : Row → Type 0) (p : Row → Bool) (t : Table) → All P t → All P (where_rows p t)
unfolding where_rows
All-where_rows P p [] h = tt
All-where_rows P p (r ∷ rs) h = elim (Bool-cases (p r)) [
  | inl kept ↦ rw kept (h.0, All-where_rows P p rs h.1)
  | inr left ↦ rw left (All-where_rows P p rs h.1)
]

select_non_terminal-IsListed :
    (collate : String → String → Bool) (limit : ℕ) (t : Table)
    → All (λ r. IsListed r.request_id t) (select_non_terminal collate limit t)
unfolding select_non_terminal
select_non_terminal-IsListed collate limit t =
    All-take _ limit _ (All-order_by _ collate _ (All-where_rows _ _ t (find-All t)))

scanned-IsListed :
    (t u : Table)
    → All (λ r. IsListed r.request_id t) u
    → All (λ row. IsListed row.request_id t) (map scanned u)
unfolding scanned
scanned-IsListed t [] h = tt
scanned-IsListed t (r ∷ rs) h = (h.0, scanned-IsListed t rs h.1)

module _ (env : Env) (d : Deps) where
  -- the loop over them
  abbrev sweep : Result (List ForwardedRequest) → Act (Result (Unit {0}))
  sweep r =
      on_result r (λ e. pure (err e))
        λ listed. do first ← poll_rows env d listed none; pure (first_error env d first)

  first_error-none : (first : Option Bytes) → first_error env d first ≡ ok tt → first ≡ none
  first_error-none none h = refl
  first_error-none (some e) h = cc

  module _ (T : Time) (positive : 0 < T) (clock : (n : ℕ) → T ≤ env.now n)
      (in_time : (n : ℕ) → env.cancelled n ≡ false) where
    swept-IsDone :
        (r : Result (List ForwardedRequest)) (t : Table) (v : World)
        → ((out : List ForwardedRequest) → r ≡ ok out → out ≡ map scanned t)
        → All (λ r. IsListed r.request_id v.table) t
        → (sweep r v).0 ≡ ok tt
        → All (IsDone T (sweep r v).1.table) (map scanned t)
    unfolding ◌>>=◌
    swept-IsDone (err e) t v same there h = cc
    swept-IsDone (ok out) t v same there h =
        let e : out ≡ map scanned t = same out refl in
        let listed =
          subst (All (λ (row : ForwardedRequest). IsListed row.request_id v.table)) (sym e)
            (scanned-IsListed v.table t there) in
        let round = poll_rows-RoundIfClean env d T positive clock in_time out none v listed in
        subst (All (IsDone T (sweep (ok out) v).1.table)) e
          (round.polls (first_error-none (poll_rows env d out none v).0 h))

    sweep-IsDone :
        (o : Outcome) (reads : Option ℕ × (Row → Option Bytes)) (t : Table) (v : World)
        → reads.0 ≡ none
        → All (λ r. IsListed r.request_id v.table) t
        → (sweep (listing env o reads t v).0 (listing env o reads t v).1).0 ≡ ok tt
        → All
            (IsDone T (sweep (listing env o reads t v).0 (listing env o reads t v).1).1.table)
            (map scanned t)
    unfolding wrap query_result arrived
    sweep-IsDone done (none, bad) t v e there h =
        swept-IsDone (scan_rows env bad t) t v (λ out k. scan_rows_ok env bad t out k) there h
    sweep-IsDone done (some n, bad) t v e there h = cc
    sweep-IsDone (refused x) reads t v e there h = cc
    sweep-IsDone (unconfirmed x) reads t v e there h = cc

    -- When no clock reads earlier than `T`, which is not the zero time, the deadline does not pass,
    -- all rows of the listing arrive and no other call holds the lock, then after a tick that reports
    -- no error each row that it selected has no external id, or its id finds in the table a row that
    -- was polled at `T` or later.
    pub tick-IsDone :
        (w : World)
        → ((n : ℕ) → env.rows_read n ≡ none)
        → (tick env d false w).0 ≡ ok tt
        → All
            (IsDone T (tick env d false w).1.table)
            (map scanned (select_non_terminal env.collate 200 w.table))
    unfolding tick list_non_terminal ◌>>=◌ query row_reads
    tick-IsDone w complete h =
        sweep-IsDone (env.outcome w.turn) (env.rows_read (suc w.turn), env.bad_row (suc w.turn)) _
          (record w { turn = suc (suc w.turn) }) (complete (suc w.turn))
          (select_non_terminal-IsListed env.collate 200 w.table) h
