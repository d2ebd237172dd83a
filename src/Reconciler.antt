-- ===== src/Reconciler.antt =====
-- internal/reconciler/reconciler.go: one round over the requests that are not finished.
pub mod Steps
pub mod Overlap
pub mod Stamped
pub mod Rows
pub mod Lookups
pub mod Branches
use continuum_plugin_bookwar.Prelude.{
  ℕ, String, Bool, true, false, ◌||◌, Option, none, some, List, [], ◌∷◌, ◌++◌, Bytes, codes, ◌==◌,
  if◌then◌else◌,
}
use continuum_plugin_bookwar.Result.{Result, ok, err}
use continuum_plugin_bookwar.World.{
  Env, World, Act, text, reason, Message, MonitoringResponse, pure, ◌>>=◌, ◌>>◌, on_result,
  time_now, is_cancelled, publish,
}
use continuum_plugin_bookwar.Upstream.{Client, get_monitoring}
use continuum_plugin_bookwar.Store.{
  ForwardedRequest, upsert_forwarded_request, mark_polled, list_non_terminal,
}

-- `Deps`; the store and the publisher are there whenever a Reconciler is made
pub record Deps : Type 0 where
  pub bw : Client
  pub plugin_id : String

-- "" for a status that is not known
unfoldable pub translate_status : String → String
translate_status s =
    if s == "queued" || s == "monitoring"
    then "searching"
    else if s == "found"
    then "found"
    else if s == "downloading" || s == "grabbing"
    then "downloading"
    else if s == "imported" || s == "completed"
    then "imported"
    else if s == "failed" || s == "error"
    then "failed"
    else ""

-- the event of a row whose status becomes `status`
unfoldable pub status_message : Deps → ForwardedRequest → String → String → Message
status_message d row snap_id status =
    if status == "imported"
    then record {
      name = "request_fulfilled";
      payload =
          ("request_id", text row.request_id)
          ∷ ("requestId", text row.request_id)
          ∷ ("external_id", text row.external_id)
          ∷ ("fulfilled_book_id", text snap_id)
          ∷ ("provider_plugin_id", text d.plugin_id)
          ∷ [];
    }
    else if status == "failed"
    then record {
      name = "request_failed";
      payload =
          ("request_id", text row.request_id)
          ∷ ("requestId", text row.request_id)
          ∷ ("external_id", text row.external_id)
          ∷ ("provider_plugin_id", text d.plugin_id)
          ∷ ("reason", reason (codes "upstream marked failed"))
          ∷ [];
    }
    else record {
      name = "request_status_changed";
      payload =
          ("request_id", text row.request_id)
          ∷ ("requestId", text row.request_id)
          ∷ ("external_id", text row.external_id)
          ∷ ("provider_plugin_id", text d.plugin_id)
          ∷ ("status", text status)
          ∷ [];
    }

-- `if uerr != nil && firstErr == nil { firstErr = ... }`
unfoldable pub keep_first : Option Bytes → String → Result (Unit {0}) → Option Bytes
keep_first (some e) what r = some e
keep_first none what (ok tt) = none
keep_first none what (err e) = some (codes what ++ e)

module _ (env : Env) (d : Deps) where
  -- the upstream lookup failed with `e`
  unfoldable pub record_poll_error : ForwardedRequest → Option Bytes → Bytes → Act (Option Bytes)
  unfolding keep_first
  record_poll_error row first e = do
    polled ← time_now env
    updated ← time_now env
    answer ← upsert_forwarded_request env (record {
      request_id = row.request_id;
      external_id = row.external_id;
      status = row.status;
      last_polled = polled;
      error_text = e;
      auto_monitor = false;
      created_at = 0;
      updated_at = updated;
    })
    pure (keep_first first "upsert (after upstream err): " answer)

  -- the upstream lookup returned the snapshot `snap`
  unfoldable pub record_snapshot :
      ForwardedRequest → Option Bytes → MonitoringResponse → Act (Option Bytes)
  unfolding keep_first status_message
  record_snapshot row first snap =
      let status = translate_status snap.status in
      if status == "" || status == row.status
      then (do
        now ← time_now env
        answer ← mark_polled env row.request_id row.external_id row.status now
        pure (keep_first first "mark polled (no transition): " answer))
      else (do
        now ← time_now env
        answer ← mark_polled env row.request_id row.external_id status now
        publish (status_message d row snap.id status)
        pure (keep_first first "mark polled (status change): " answer))

  -- one row that has an external id
  unfoldable pub poll_row : ForwardedRequest → Option Bytes → Act (Option Bytes)
  poll_row row first = do
    snap ← get_monitoring env d.bw row.external_id
    on_result snap (record_poll_error row first) (record_snapshot row first)

  -- the body of the loop for a row, once the deadline has been asked
  unfoldable pub visit_row : ForwardedRequest → Option Bytes → Act (Option Bytes)
  visit_row row first = if row.external_id == "" then pure first else poll_row row first

  unfoldable pub poll_rows : List ForwardedRequest → Option Bytes → Act (Option Bytes)
  poll_rows [] first = pure first
  poll_rows (row ∷ rows) first = do
    over ← is_cancelled env
    if over then pure first else do first' ← visit_row row first; poll_rows rows first'

  -- `return firstErr`
  abbrev pub first_error : Option Bytes → Result (Unit {0})
  first_error none = ok tt
  first_error (some e) = err e

  -- Tick. `locked` says that another call holds tickMu.
  unfoldable pub tick : Bool → Act (Result (Unit {0}))
  tick locked = if locked then pure (ok tt) else do
    rows ← list_non_terminal env 200
    on_result rows (λ e. pure (err e))
        λ listed. do first ← poll_rows listed none; pure (first_error first)
