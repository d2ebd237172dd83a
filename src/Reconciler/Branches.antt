-- ===== src/Reconciler/Branches.antt =====
-- The branches of a tick's work on one row, and the requests of a whole tick.
use mathlib.Core.List.{append-nil}
use continuum_plugin_bookwar.Prelude.{
  suc, String, ◌≡◌, refl, sym, ap, ◌∙◌, Option, none, some, List, [], ◌∷◌, ◌++◌, Bytes, ◌==◌,
  eq_iff, eq_refl, if◌then◌else◌, Bool-cases, inl, inr,
}
use continuum_plugin_bookwar.Result.{Result, ok, err}
use continuum_plugin_bookwar.Table.{Row, Table, Time, find, polled, guarded}
use continuum_plugin_bookwar.World.{
  Env, World, Message, MonitoringResponse, ◌>>=◌, publish, time_now,
}
use continuum_plugin_bookwar.Store.{ForwardedRequest, text_ptr, mark_polled}
use continuum_plugin_bookwar.Store.Effects.{stamp_of, mark_polled_ok}
use continuum_plugin_bookwar.Store.Untouched.{Quiet-mark_polled}
use continuum_plugin_bookwar.Reconciler.{
  Deps, translate_status, status_message, keep_first, record_snapshot,
}

-- the status that a snapshot leads to
abbrev pub next_status : ForwardedRequest → MonitoringResponse → String
next_status row snap =
    if translate_status snap.status == "" then row.status else translate_status snap.status

abbrev pub event_of : Deps → ForwardedRequest → MonitoringResponse → List Message
event_of d row snap =
    if next_status row snap == row.status
    then []
    else status_message d row snap.id (next_status row snap) ∷ []

pub keep_first-none :
    (first : Option Bytes) (what : String) (r : Result (Unit {0}))
    → keep_first first what r ≡ none
    → r ≡ ok tt
unfolding keep_first
keep_first-none none what (ok tt) h = refl
keep_first-none none what (err e) h = cc
keep_first-none (some x) what r h = cc

module _ (env : Env) (d : Deps) where
  -- The poll of a row publishes one event when the upstream status is known and differs from the
  -- row's, and none otherwise.
  pub published-record_snapshot :
      (row : ForwardedRequest) (first : Option Bytes) (snap : MonitoringResponse) (w : World)
      → (record_snapshot env d row first snap w).1.published ≡ w.published ++ event_of d row snap
  unfolding record_snapshot ◌>>=◌ time_now publish
  published-record_snapshot row first snap w =
      let t : String = translate_status snap.status in
      let v : World = record w { turn = suc w.turn } in
      let quiet = λ (s : String).
        (Quiet-mark_polled env row.request_id row.external_id s (env.now w.turn)).at v in
      elim (Bool-cases (t == "")) [
        | inl unknown ↦
            rw (unknown, eq_refl) ((quiet row.status).published ∙ sym (append-nil w.published))
        | inr known ↦ elim (Bool-cases (t == row.status)) [
          | inl same ↦
              rw (known, same) ((quiet row.status).published ∙ sym (append-nil w.published))
          | inr differs ↦
              rw (known, differs)
                (ap (λ (x : List Message). x ++ status_message d row snap.id t ∷ [])
                  (quiet t).published)
        ]
      ]

  -- the row of `id` in `t` is `r` after a poll at `stamp` that found the status `s`
  abbrev pub PolledTo : String → String → Time → Row → Table → Type 0
  PolledTo id s stamp r t =
      (q : Row) × (find id t ≡ some q)
      × (q.status ≡ guarded r.status s)
      × (q.error_text ≡ none)
      × (q.last_polled ≡ some stamp)

  mark_polled-PolledTo :
      (id x s : String) (when : Time) (v : World) (r : Row)
      → find id v.table ≡ some r
      → (mark_polled env id x s when v).0 ≡ ok tt
      → PolledTo id s (stamp_of env when v) r (mark_polled env id x s when v).1.table
  mark_polled-PolledTo id x s when v r there h =
      let e = mark_polled_ok env id x s when v h in
      (
        polled (text_ptr x) s (stamp_of env when v) r,
        rw (e, there) refl,
        unfold polled in refl,
        unfold polled in refl,
        unfold polled in refl,
      )

  -- When the row is in the table and a poll that got a snapshot reports no error, the row's status
  -- is the one that the snapshot leads to, unless it was terminal; its error text is gone, and its
  -- poll time is what the clock read when the snapshot had come, or its next reading if that was the
  -- zero time.
  pub record_snapshot_ok :
      (row : ForwardedRequest) (first : Option Bytes) (snap : MonitoringResponse) (w : World)
      (r : Row)
      → find row.request_id w.table ≡ some r
      → (record_snapshot env d row first snap w).0 ≡ none
      → PolledTo row.request_id
          (next_status row snap)
          (stamp_of env (env.now w.turn) (record w { turn = suc w.turn }))
          r
          (record_snapshot env d row first snap w).1.table
  unfolding record_snapshot ◌>>=◌ time_now publish
  record_snapshot_ok row first snap w r there h =
      let t : String = translate_status snap.status in
      let v : World = record w { turn = suc w.turn } in
      let step =
        λ (s what : String)
            (k : keep_first first what
                (mark_polled env row.request_id row.external_id s (env.now w.turn) v).0
              ≡ none).
          mark_polled-PolledTo row.request_id row.external_id s (env.now w.turn) v r there
            (keep_first-none first what _ k) in
      elim (Bool-cases (t == "")) [
        | inl unknown ↦
            rw unknown (step row.status "mark polled (no transition): " (rw unknown at h))
        | inr known ↦ elim (Bool-cases (t == row.status)) [
          | inl same ↦
              rw (known, same, (eq_iff t row.status).0 same)
                (step row.status "mark polled (no transition): " (rw (known, same) at h))
          | inr differs ↦
              rw (known, differs)
                (step t "mark polled (status change): " (rw (known, differs) at h))
        ]
      ]
