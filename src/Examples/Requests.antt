-- ===== src/Examples/Requests.antt =====
-- The theorems on requests at concrete data.
use mathlib.Core.List.{Perm}
use Prim.Native.String.{len}
use Prim.Native.Nat.{min}
use continuum_plugin_bookwar.Prelude.{
  length, map, ◌≤◌, ◌≡◌, refl, String, false, not, none, some, [], ◌∷◌, ◌++◌, codes, leb, ◌≢◌, All,
  AllBefore, arith, trim_space,
}
use continuum_plugin_bookwar.Result.{ok}
use continuum_plugin_bookwar.Table.{
  Row, Table, find, guarded, is_terminal, where_rows, select_non_terminal, polled_at,
}
use continuum_plugin_bookwar.Table.Selection.{IsCollation, left_out, select_non_terminal_lem}
use continuum_plugin_bookwar.World.{
  World, MonitoringResponse, query, row_reads, is_cancelled, publish, time_now, send, settle, exec,
  ◌>>=◌,
}
use continuum_plugin_bookwar.Upstream.{get, get_monitoring, add_monitoring}
use continuum_plugin_bookwar.Steps.{Reach, Walks, Walks-IsMonadic, Walks-IsClosed}
use continuum_plugin_bookwar.Steps.Forward.{Progress, Reach-Progress}
use continuum_plugin_bookwar.Store.{
  ForwardedRequest, scanned, list_non_terminal, upsert_forwarded_request, mark_polled,
}
use continuum_plugin_bookwar.Consumer.{
  target_plugin_id_from_payload, request_id_from_payload, handle_event, with_payload, with_client,
  dispatch, forward, record_failure, record_acknowledged, publish_if, failed_message,
}
use continuum_plugin_bookwar.Consumer.Steps.{Holds-handle_event}
use continuum_plugin_bookwar.Consumer.Recorded.{IsRecorded, handle_event-IsRecorded}
use continuum_plugin_bookwar.Consumer.Failure.{record_failure_terminal}
use continuum_plugin_bookwar.Reconciler.{
  translate_status, record_snapshot, record_poll_error, poll_row, visit_row, poll_rows, tick,
}
use continuum_plugin_bookwar.Reconciler.Branches.{
  published-record_snapshot, record_snapshot_ok, PolledTo, event_of,
}
use continuum_plugin_bookwar.Reconciler.Lookups.{sent-tick, record_poll_error_ok, lookups}
use continuum_plugin_bookwar.Reconciler.Rows.{tick_starved, SameEffects}
use continuum_plugin_bookwar.Reconciler.Stamped.Rows.{IsDone}
use continuum_plugin_bookwar.Reconciler.Stamped.Round.{tick-IsDone}
use continuum_plugin_bookwar.Examples.Data.{
  calm, client, deps, poller, payload_to, event_to, row, world,
}

abbrev ours : String
ours = "silo.bookwarehouse-ebook"

abbrev after_event : World
after_event = (handle_event calm (some (some deps)) (event_to ours) (world [])).1

r1_named : ◌≢◌ {A = String} "r1" ""
r1_named e = cc

accepted : (handle_event calm (some (some deps)) (event_to ours) (world [])).0 ≡ ok tt
unfolding handle_event with_payload with_client dispatch target_plugin_id_from_payload
    request_id_from_payload trim_space forward record_failure record_acknowledged add_monitoring
    publish_if publish upsert_forwarded_request time_now send settle exec ◌>>=◌
accepted = refl

handle_event-IsRecorded_example : IsRecorded "r1" after_event.table
unfolding target_plugin_id_from_payload request_id_from_payload trim_space
handle_event-IsRecorded_example =
    handle_event-IsRecorded calm deps (event_to ours) (payload_to ours) (world []) refl refl refl
      r1_named accepted

after_event-Reach : Reach (world []) after_event
after_event-Reach =
    (Holds-handle_event Walks Walks-IsMonadic calm (Walks-IsClosed calm) (some (some deps))
        (event_to ours)).at
      (world [])

Reach-Progress_example : Progress (world []) after_event
Reach-Progress_example = Reach-Progress after_event-Reach

abbrev imported_rows : Table
imported_rows = row "r1" (some "m0") "imported" ∷ []

abbrev waiting : Row
waiting = row "r1" (some "m1") "acknowledged"

abbrev polled_row : ForwardedRequest
polled_row = record {
  request_id = "r1";
  external_id = "m1";
  status = "acknowledged";
  last_polled = 0;
  error_text = [];
  auto_monitor = false;
  created_at = 1;
  updated_at = 1;
}

abbrev grabbing : MonitoringResponse
grabbing = record { id = "m1"; status = "grabbing" }

published-record_snapshot_example :
    (record_snapshot calm poller polled_row none grabbing (world (waiting ∷ []))).1.published
    ≡ [] ++ event_of poller polled_row grabbing
published-record_snapshot_example =
    published-record_snapshot calm poller polled_row none grabbing (world (waiting ∷ []))

record_snapshot_ok_example :
    PolledTo calm poller "r1" "downloading" 1 waiting
      (record_snapshot calm poller polled_row none grabbing (world (waiting ∷ []))).1.table
unfolding record_snapshot find translate_status mark_polled exec settle time_now publish ◌>>=◌
record_snapshot_ok_example =
    record_snapshot_ok calm poller polled_row none grabbing (world (waiting ∷ [])) waiting refl refl

record_poll_error_ok_example :
    (q : Row) × (find "r1"
        (record_poll_error calm poller polled_row none
          (codes "do: timeout")
          (world (waiting ∷ []))).1.table
      ≡ some q)
    × (q.status ≡ guarded "acknowledged" "acknowledged")
    × (q.external_id ≡ some "m1")
    × (q.error_text ≡ some (codes "do: timeout"))
    × (q.auto_monitor ≡ false)
unfolding record_poll_error find upsert_forwarded_request exec settle time_now ◌>>=◌
record_poll_error_ok_example =
    record_poll_error_ok calm poller polled_row none (codes "do: timeout") (world (waiting ∷ []))
      waiting (λ e. cc) (λ e. cc) refl refl

is_listed : (list_non_terminal calm 200 (world (waiting ∷ []))).0 ≡ ok (polled_row ∷ [])
unfolding list_non_terminal query row_reads ◌>>=◌ select_non_terminal
is_listed = refl

sent-tick_example :
    (tick calm poller false (world (waiting ∷ []))).1.sent
    ≡ [] ++ lookups calm client (polled_row ∷ [])
sent-tick_example =
    sent-tick calm poller (λ n. refl) (polled_row ∷ []) (world (waiting ∷ [])) is_listed

abbrev unsubmitted : Table
unsubmitted = row "r1" none "submitted" ∷ row "r2" none "submitted" ∷ []

tick_starved_example :
    SameEffects (world unsubmitted) (tick calm poller false (world unsubmitted)).1
unfolding select_non_terminal
tick_starved_example = tick_starved calm poller false (world unsubmitted) (refl, (refl, tt))

ticked : (tick calm poller false (world (waiting ∷ []))).0 ≡ ok tt
unfolding tick poll_rows visit_row poll_row record_snapshot list_non_terminal mark_polled
    is_cancelled row_reads query exec settle send get time_now ◌>>=◌ select_non_terminal
    get_monitoring translate_status
ticked = refl

tick-IsDone_example :
    All
      (IsDone 1 (tick calm poller false (world (waiting ∷ []))).1.table)
      (map scanned (select_non_terminal calm.collate 200 (waiting ∷ [])))
tick-IsDone_example =
    tick-IsDone calm poller 1 (omega arith) (λ n. omega arith) (λ n. refl) (world (waiting ∷ []))
      (λ n. refl) ticked

by_length : IsCollation (λ a b. leb (len a) (len b))
by_length = record { total = λ a b h. ground arith; trans = λ a b c h k. ground arith }

select_non_terminal_lem_example :
    (length (select_non_terminal calm.collate 1 (waiting ∷ unsubmitted))
      ≡ min 1 (length (where_rows (λ r. not (is_terminal r.status)) (waiting ∷ unsubmitted))))
    × Perm
        (select_non_terminal calm.collate 1 (waiting ∷ unsubmitted)
          ++ left_out calm.collate 1 (waiting ∷ unsubmitted))
        (where_rows (λ r. not (is_terminal r.status)) (waiting ∷ unsubmitted))
    × AllBefore
        (λ r s. polled_at r ≤ polled_at s)
        (select_non_terminal calm.collate 1 (waiting ∷ unsubmitted))
        (left_out calm.collate 1 (waiting ∷ unsubmitted))
select_non_terminal_lem_example =
    select_non_terminal_lem calm.collate by_length 1 (waiting ∷ unsubmitted)

abbrev refused_again : World
refused_again =
    (record_failure calm deps client (payload_to ours) "r1" (codes "do: timeout")
      (world imported_rows)).1

refused_recorded :
    (record_failure calm deps client
      (payload_to ours)
      "r1"
      (codes "do: timeout")
      (world imported_rows)).0
    ≡ ok tt
unfolding record_failure publish_if publish upsert_forwarded_request time_now settle exec ◌>>=◌
refused_recorded = refl

record_failure_terminal_example :
    (refused_again.published ≡ failed_message "r1" ours (codes "do: timeout") ∷ [])
    × (q : Row) × (find "r1" refused_again.table ≡ some q)
    × (q.status ≡ "imported")
unfolding find is_terminal
record_failure_terminal_example =
    record_failure_terminal calm deps client (payload_to ours) "r1" (codes "do: timeout")
      (world imported_rows) (row "r1" (some "m0") "imported") refl refl refl refused_recorded
