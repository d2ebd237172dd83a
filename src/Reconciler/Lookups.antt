-- ===== src/Reconciler/Lookups.antt =====
-- The requests of a tick, and a row whose lookup fails.
use mathlib.Core.List.{append-nil, append_assoc}
use continuum_plugin_bookwar.Prelude.{
  ℕ, suc, String, ◌≡◌, refl, sym, ◌≢◌, ap, ◌∙◌, false, Option, none, some, List, [], ◌∷◌, ◌++◌,
  Bytes, codes, ◌==◌, eq_iff, if◌then◌else◌, arith, Bool-cases, Option-cases, inl, inr,
}
use continuum_plugin_bookwar.Result.{Result, ok, err}
use continuum_plugin_bookwar.Table.{Row, find, merge, guarded}
use continuum_plugin_bookwar.World.{
  Env, World, Act, Request, MonitoringResponse, pure, ◌>>=◌, is_cancelled, publish, time_now, send,
  on_result, on_error, query, row_reads,
}
use continuum_plugin_bookwar.Url.{path_escape}
use continuum_plugin_bookwar.Upstream.{Client, get_monitoring, read_snapshot}
use continuum_plugin_bookwar.Store.{ForwardedRequest, inserted, list_non_terminal}
use continuum_plugin_bookwar.Store.Effects.{upsert_forwarded_request_ok}
use continuum_plugin_bookwar.Store.Untouched.{Quiet-mark_polled, Quiet-upsert_forwarded_request}
use continuum_plugin_bookwar.Reconciler.Rows.{listing_world}
use continuum_plugin_bookwar.Reconciler.Branches.{keep_first-none}
use continuum_plugin_bookwar.Reconciler.{
  Deps, translate_status, record_poll_error, record_snapshot, poll_row, visit_row, poll_rows, tick,
}

-- the request that looks up a row
abbrev pub lookup_request : Client → ForwardedRequest → Request
lookup_request c row = record {
  method = "GET";
  url = c.base_url ++ (codes "/api/v1/monitoring/" ++ path_escape row.external_id);
  api_key = c.api_key;
  body = [];
  range_header = "";
}

-- http.NewRequestWithContext refuses a URL that does not parse
abbrev pub sendable : Env → Request → List Request
sendable env r = on_error (env.bad_url r.url) (λ e. []) (r ∷ [])

-- one for each row with an external id, in order, where its URL parses
unfoldable pub lookups : Env → Client → List ForwardedRequest → List Request
lookups env c [] = []
lookups env c (row ∷ rows) =
    let rest = lookups env c rows in
    if row.external_id == "" then rest else sendable env (lookup_request c row) ++ rest

passed_on :
    {A B : Type 0} (r : Result A) (f : A → Result B) (v : World)
    → (on_result {B = Act (Result B)} r (λ e. pure (err e)) (λ a. pure (f a)) v).1 ≡ v
passed_on (ok a) f v = refl
passed_on (err e) f v = refl

module _ (env : Env) (d : Deps) where
  sent-record_poll_error :
      (row : ForwardedRequest) (first : Option Bytes) (e : Bytes) (w : World)
      → (record_poll_error env d row first e w).1.sent ≡ w.sent
  unfolding record_poll_error ◌>>=◌ time_now
  sent-record_poll_error row first e w =
      ((Quiet-upsert_forwarded_request env _).at (record w { turn = suc (suc w.turn) })).sent

  sent-record_snapshot :
      (row : ForwardedRequest) (first : Option Bytes) (snap : MonitoringResponse) (w : World)
      → (record_snapshot env d row first snap w).1.sent ≡ w.sent
  unfolding record_snapshot ◌>>=◌ time_now publish
  sent-record_snapshot row first snap w =
      let t : String = translate_status snap.status in
      let v : World = record w { turn = suc w.turn } in
      let quiet = λ (s : String).
        ((Quiet-mark_polled env row.request_id row.external_id s (env.now w.turn)).at v).sent in
      elim (Bool-cases (t == "")) [
        | inl unknown ↦ rw unknown (quiet row.status)
        | inr known ↦ elim (Bool-cases (t == row.status)) [
          | inl same ↦ rw (known, same) (quiet row.status)
          | inr differs ↦ rw (known, differs) (quiet t)
        ]
      ]

  answered :
      (row : ForwardedRequest) (first : Option Bytes) (r : Result MonitoringResponse) (w : World)
      → (on_result r (record_poll_error env d row first) (record_snapshot env d row first) w).1.sent
        ≡ w.sent
  answered row first (ok snap) w = sent-record_snapshot row first snap w
  answered row first (err e) w = sent-record_poll_error row first e w

  sent-get_monitoring :
      (row : ForwardedRequest) (w : World)
      → (get_monitoring env d.bw row.external_id w).1.sent
        ≡ w.sent ++ sendable env (lookup_request d.bw row)
  unfolding get_monitoring ◌>>=◌ send
  sent-get_monitoring row w = elim (Option-cases (env.bad_url (lookup_request d.bw row).url)) [
    | inl parses ↦ rw parses (ap (λ (x : World). x.sent) (passed_on _ (read_snapshot env d.bw) _))
    | inr (e, bad) ↦ rw bad (sym (append-nil w.sent))
  ]

  sent-poll_row :
      (row : ForwardedRequest) (first : Option Bytes) (w : World)
      → (poll_row env d row first w).1.sent ≡ w.sent ++ sendable env (lookup_request d.bw row)
  unfolding poll_row ◌>>=◌
  sent-poll_row row first w =
      let (answer, v) = get_monitoring env d.bw row.external_id w in
      answered row first answer v ∙ sent-get_monitoring row w

  sent-visit_row :
      (row : ForwardedRequest) (rows : List ForwardedRequest) (first : Option Bytes) (w : World)
      → (visit_row env d row first w).1.sent ++ lookups env d.bw rows
        ≡ w.sent ++ lookups env d.bw (row ∷ rows)
  unfolding visit_row lookups
  sent-visit_row row rows first w = elim (Bool-cases (row.external_id == "")) [
    | inl unsubmitted ↦ simp unsubmitted
    | inr submitted ↦ simp (submitted, sent-poll_row, append_assoc)
  ]

  module _ (in_time : (n : ℕ) → env.cancelled n ≡ false) where
    sent-poll_rows :
        (rows : List ForwardedRequest) (first : Option Bytes) (w : World)
        → (poll_rows env d rows first w).1.sent ≡ w.sent ++ lookups env d.bw rows
    unfolding poll_rows ◌>>=◌ is_cancelled
    sent-poll_rows [] first w = unfold lookups in sym (append-nil w.sent)
    sent-poll_rows (row ∷ rows) first w =
        let v : World = record w { turn = suc w.turn } in
        let (next, u) = visit_row env d row first v in
        rw (in_time w.turn) (sent-poll_rows rows next u ∙ sent-visit_row row rows first v)

    sent-list_non_terminal : (w : World) → (list_non_terminal env 200 w).1.sent ≡ w.sent
    unfolding list_non_terminal ◌>>=◌ query row_reads
    sent-list_non_terminal w =
        ap (λ (x : World). x.sent)
          (listing_world env (env.outcome w.turn)
            (env.rows_read (suc w.turn), env.bad_row (suc w.turn)) _ _)

    -- A tick that gets the lock, whose deadline does not pass and whose listing gives `rows` sends one
    -- GET for each of them that has an external id and whose URL net/http accepts, in the order of the
    -- list, and no other request, whatever the upstream service and the database answer meanwhile.
    pub sent-tick :
        (rows : List ForwardedRequest) (w : World)
        → (list_non_terminal env 200 w).0 ≡ ok rows
        → (tick env d false w).1.sent ≡ w.sent ++ lookups env d.bw rows
    unfolding tick ◌>>=◌
    sent-tick rows w h =
        let v : World = (list_non_terminal env 200 w).1 in
        rw h (
          sent-poll_rows rows none v
          ∙ ap (λ (s : List Request). s ++ lookups env d.bw rows) (sent-list_non_terminal w))

  -- When the listed row has an external id and a row in the table, and a poll whose lookup failed with
  -- `e`, which is not empty, reports no error, the row in the table has the status that was listed,
  -- unless its own is terminal, the external id that was looked up and the error text `e`, and keeps
  -- its auto_monitor flag; whatever it has become since the listing.
  pub record_poll_error_ok :
      (row : ForwardedRequest) (first : Option Bytes) (e : Bytes) (w : World) (r : Row)
      → e ≢ []
      → row.external_id ≢ ""
      → find row.request_id w.table ≡ some r
      → (record_poll_error env d row first e w).0 ≡ none
      → (q : Row) × (find row.request_id (record_poll_error env d row first e w).1.table ≡ some q)
        × (q.status ≡ guarded r.status row.status)
        × (q.external_id ≡ some row.external_id)
        × (q.error_text ≡ some e)
        × (q.auto_monitor ≡ r.auto_monitor)
  unfolding record_poll_error ◌>>=◌ time_now
  record_poll_error_ok row first e w r text submitted there h =
      let sent : ForwardedRequest = record row {
        last_polled = env.now w.turn;
        error_text = e;
        auto_monitor = false;
        created_at = 0;
        updated_at = env.now (suc w.turn);
      } in
      let v : World = record w { turn = suc (suc w.turn) } in
      let (updated, created, found) =
        upsert_forwarded_request_ok env sent v (keep_first-none first _ _ h) in
      (
        merge (inserted sent updated created) r,
        rw (found, there) refl,
        unfold merge inserted in refl,
        unfold merge inserted in ground (arith, eq_iff row.external_id ""),
        unfold merge inserted in ground arith,
        unfold merge inserted in refl,
      )
