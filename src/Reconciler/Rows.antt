-- ===== src/Reconciler/Rows.antt =====
-- What a tick does with the rows that it visits.
use mathlib.Core.Path.{subst}
use continuum_plugin_bookwar.Prelude.{
  ℕ, zero, suc, ◌≡◌, refl, sym, ap, ◌∙◌, codes, ◌++◌, Bool, true, false, Option, none, some, List,
  [], ◌∷◌, map, Bytes, eq_iff, Bool-cases, inl, inr, All, take,
}
use continuum_plugin_bookwar.Result.{Result, ok, err, ok-injective}
use continuum_plugin_bookwar.Table.{Row, Table, select_non_terminal}
use continuum_plugin_bookwar.World.{
  Env, World, Act, query_result, Outcome, done, refused, unconfirmed, pure, ◌>>=◌, is_cancelled,
  query, row_reads, on_result, on_error,
}
use continuum_plugin_bookwar.Store.{
  ForwardedRequest, scan_rows, scanned, wrap, arrived, list_non_terminal,
}
use continuum_plugin_bookwar.Reconciler.{Deps, visit_row, poll_rows, first_error, tick}

abbrev Unsubmitted : ForwardedRequest → Type 0
Unsubmitted r = r.external_id ≡ ""

-- the rows, the events and the requests of two worlds are the same
pub record SameEffects (u v : World) : Type 0 where
  pub table : v.table ≡ u.table
  pub published : v.published ≡ u.published
  pub sent : v.sent ≡ u.sent

module _ (env : Env) (d : Deps) where
  poll_rows-Unsubmitted :
      (rows : List ForwardedRequest) (first : Option Bytes) (w : World)
      → All Unsubmitted rows
      → SameEffects w (poll_rows env d rows first w).1
  unfolding poll_rows ◌>>=◌ is_cancelled visit_row
  poll_rows-Unsubmitted [] first w h = record { table = refl; published = refl; sent = refl }
  poll_rows-Unsubmitted (row ∷ rows) first w h =
      let rest = poll_rows-Unsubmitted rows first (record w { turn = suc w.turn }) h.1 in
      elim (Bool-cases (env.cancelled w.turn)) [
        | inl over ↦ rw over (record { table = refl; published = refl; sent = refl })
        | inr going ↦
            rw (going, (eq_iff row.external_id "").1 h.0)
              (record { table = rest.table; published = rest.published; sent = rest.sent })
      ]

-- rows with no external id, as the table has them
abbrev pub NoExternal : Row → Type 0
NoExternal r = r.external_id ≡ none

scanned-Unsubmitted : (t : Table) → All NoExternal t → All Unsubmitted (map scanned t)
unfolding scanned
scanned-Unsubmitted [] h = tt
scanned-Unsubmitted (r ∷ rs) h = (rw h.0, scanned-Unsubmitted rs h.1)

take-NoExternal : (n : ℕ) (t : Table) → All NoExternal t → All NoExternal (take n t)
take-NoExternal zero t h = tt
take-NoExternal (suc n) [] h = tt
take-NoExternal (suc n) (r ∷ rs) h = (h.0, take-NoExternal n rs h.1)

arrived-NoExternal :
    (env : Env) (o : Option ℕ) (t : Table) → All NoExternal t → All NoExternal (arrived env o t)
unfolding arrived
arrived-NoExternal env none t h = h
arrived-NoExternal env (some n) t h = take-NoExternal n t h

-- a scan of all rows gives them in order
pub scan_rows_ok :
    (env : Env) (bad : Row → Option Bytes) (t : Table) (out : List ForwardedRequest)
    → scan_rows env bad t ≡ ok out
    → out ≡ map scanned t
unfolding scan_rows
scan_rows_ok env bad [] out h = sym (ok-injective h)
scan_rows_ok env bad (r ∷ rs) out h =
    let (rest, found, same) = scanned_first (bad r) (scanned r) (scan_rows env bad rs) out h in
    sym same
    ∙ ap (λ (xs : List ForwardedRequest). scanned r ∷ xs) (scan_rows_ok env bad rs rest found)
  where
    scanned_first :
        (o : Option Bytes) (x : ForwardedRequest) (r : Result (List ForwardedRequest))
        (out : List ForwardedRequest)
        → on_error o (λ e. err (codes "scan: " ++ e)) (on_result r (λ e. err e) (λ xs. ok (x ∷ xs)))
          ≡ ok out
        → (rest : List ForwardedRequest) × (r ≡ ok rest) × (x ∷ rest ≡ out)
    scanned_first (some e) x r out h = cc
    scanned_first none x (err e) out h = cc
    scanned_first none x (ok xs) out h = (xs, refl, ok-injective h)

-- ListNonTerminal, once the query has its outcome
abbrev pub listing :
    Env → Outcome → Option ℕ × (Row → Option Bytes) → Table → Act (Result (List ForwardedRequest))
listing env o reads t =
    on_result (wrap "list non-terminal: " (query_result o t)) (λ e. pure (err e))
      (λ rows. pure (scan_rows env reads.1 (arrived env reads.0 rows)))

listed_ok :
    (env : Env) (o : Outcome) (reads : Option ℕ × (Row → Option Bytes)) (t : Table) (v : World)
    (rows : List ForwardedRequest)
    → All NoExternal t
    → (listing env o reads t v).0 ≡ ok rows
    → All Unsubmitted rows
unfolding wrap query_result
listed_ok env done reads t v rows none_external h =
    subst (All Unsubmitted) (sym (scan_rows_ok env reads.1 _ rows h))
      (scanned-Unsubmitted _ (arrived-NoExternal env reads.0 t none_external))
listed_ok env (refused e) reads t v rows none_external h = cc
listed_ok env (unconfirmed e) reads t v rows none_external h = cc

pub listing_world :
    (env : Env) (o : Outcome) (reads : Option ℕ × (Row → Option Bytes)) (t : Table) (v : World)
    → (listing env o reads t v).1 ≡ v
unfolding wrap query_result
listing_world env done reads t v = refl
listing_world env (refused e) reads t v = refl
listing_world env (unconfirmed e) reads t v = refl

module _ (env : Env) (d : Deps) where
  ticked :
      (u : World) (r : Result (List ForwardedRequest)) (v : World)
      → v.table ≡ u.table
      → v.published ≡ u.published
      → v.sent ≡ u.sent
      → ((rows : List ForwardedRequest) → r ≡ ok rows → All Unsubmitted rows)
      → SameEffects u
          (on_result {B = Act (Result (Unit {0}))} r
            (λ e. pure (err e))
            (λ listed. do first ← poll_rows env d listed none; pure (first_error env d first))
            v).1
  unfolding ◌>>=◌
  ticked u (err e) v t p q h = record { table = t; published = p; sent = q }
  ticked u (ok rows) v t p q h =
      let rest = poll_rows-Unsubmitted env d rows none v (h rows refl) in
      record { table = rest.table ∙ t; published = rest.published ∙ p; sent = rest.sent ∙ q }

  -- While the first 200 rows of the selection have no external id, a tick sends no request, writes
  -- no row and publishes no event, whatever rows come after those.
  pub tick_starved :
      (locked : Bool) (w : World)
      → All NoExternal (select_non_terminal env.collate 200 w.table)
      → SameEffects w (tick env d locked w).1
  unfolding tick list_non_terminal ◌>>=◌ query row_reads
  tick_starved true w h = record { table = refl; published = refl; sent = refl }
  tick_starved false w h =
      let v : World = record w { turn = suc (suc w.turn) } in
      let o : Outcome = env.outcome w.turn in
      let reads : Option ℕ × (Row → Option Bytes) =
        (env.rows_read (suc w.turn), env.bad_row (suc w.turn)) in
      let t : Table = select_non_terminal env.collate 200 w.table in
      ticked w _ _ (ap (λ (x : World). x.table) (listing_world env o reads t v))
        (ap (λ (x : World). x.published) (listing_world env o reads t v))
        (ap (λ (x : World). x.sent) (listing_world env o reads t v))
        (λ rows e. listed_ok env o reads t v rows h e)
