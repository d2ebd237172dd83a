-- ===== src/Consumer/Recorded.antt =====
-- What an acknowledged event leaves in the table.
use continuum_plugin_bookwar.Prelude.{
  String, ◌≡◌, refl, ◌≢◌, ◌⊎◌, inl, inr, Bool, true, false, Option, none, some, [], suc, Bytes,
  ◌==◌, eq_iff, arith, Bool-cases,
}
use mathlib.Core.Option.{some-injective}
use continuum_plugin_bookwar.Result.{Result, ok, err}
use continuum_plugin_bookwar.Table.{Row, Table, find, is_terminal, guarded, merge, Time}
use continuum_plugin_bookwar.Table.Keys.{upserted}
use continuum_plugin_bookwar.World.{
  Env, World, Act, Message, MonitoringResponse, pure, ◌>>=◌, ◌>>◌, publish, time_now, on_result,
}
use continuum_plugin_bookwar.Upstream.{Client, add_monitoring}
use continuum_plugin_bookwar.Upstream.Requests.{add_monitoring-id}
use continuum_plugin_bookwar.Store.{ForwardedRequest, upsert_forwarded_request, inserted}
use continuum_plugin_bookwar.Store.Effects.{upsert_forwarded_request_ok}
use continuum_plugin_bookwar.Consumer.{
  Fields, EventRequest, Deps, target_plugin_id_from_payload, request_id_from_payload, publish_if,
  record_failure, record_acknowledged, forward, dispatch, with_client, with_payload, handle_event,
  forwarded, persist_error, failed_message, acknowledged_message, monitoring_request, bool_field,
}

-- The request has a row that is finished, or that the reconciler will poll.
abbrev pub IsRecorded : String → Table → Type 0
IsRecorded k t =
    (r : Row) × (find k t ≡ some r) × ((is_terminal r.status ≡ true) ⊎ (r.external_id ≢ none))

table-publish_if : (b : Bool) (m : Message) (w : World) → (publish_if b m w).1.table ≡ w.table
unfolding publish_if publish
table-publish_if true m w = refl
table-publish_if false m w = refl

guarded_failed : (s : String) → is_terminal (guarded s "failed") ≡ true
unfolding guarded
guarded_failed s = elim (Bool-cases (is_terminal s)) [
  | inl over ↦ rw over over
  | inr going ↦ rw going (unfold is_terminal in refl)
]

failed_terminal :
    (id : String) (e : Bytes) (auto : Bool) (now updated created : Time) (o : Option Row)
    → is_terminal
        (upserted (inserted (forwarded id "" "failed" e auto now) updated created) o).status
      ≡ true
failed_terminal id e auto now updated created none = unfold inserted is_terminal in refl
failed_terminal id e auto now updated created (some r) =
    unfold inserted merge in guarded_failed r.status

acknowledged_external :
    (id x : String) (auto : Bool) (now updated created : Time) (o : Option Row)
    → x ≢ ""
    → (upserted
        (inserted (forwarded id x "acknowledged" [] auto now) updated created)
        o).external_id
      ≡ some x
unfolding inserted merge
acknowledged_external id x auto now updated created none h = ground (arith, eq_iff x "")
acknowledged_external id x auto now updated created (some r) h = ground (arith, eq_iff x "")

-- a write, and an event if it succeeded
save_and_publish :
    Act (Result (Unit {0})) → (Bytes → Bytes) → Bool → Message → Act (Result (Unit {0}))
save_and_publish m fail there msg = do
  answer ← m
  on_result answer (λ x. pure (err (fail x))) λ _. do publish_if there msg; pure (ok tt)

save_ok :
    (m : Act (Result (Unit {0}))) (fail : Bytes → Bytes) (there : Bool) (msg : Message) (w : World)
    → (save_and_publish m fail there msg w).0 ≡ ok tt
    → ((m w).0 ≡ ok tt) × ((save_and_publish m fail there msg w).1.table ≡ (m w).1.table)
unfolding save_and_publish ◌>>=◌
save_ok m fail there msg w h = go (m w).0 (m w).1 h
  where
    go :
        (r : Result (Unit {0})) (v : World)
        → (on_result {B = Act (Result (Unit {0}))} r
            (λ x. pure (err (fail x)))
            (λ _. publish_if there msg >>= λ _. pure (ok tt))
            v).0
          ≡ ok tt
        → (r ≡ ok tt)
          × ((on_result {B = Act (Result (Unit {0}))} r
                (λ x. pure (err (fail x)))
                (λ _. publish_if there msg >>= λ _. pure (ok tt))
                v).1.table
              ≡ v.table)
    go (ok tt) v k = (refl, table-publish_if there msg v)
    go (err e) v k = cc

module _ (env : Env) (d : Deps) (bw : Client) (p : Fields) (id : String) where
  record_failure-IsRecorded :
      (e : Bytes) (w : World)
      → (record_failure env d bw p id e w).0 ≡ ok tt
      → IsRecorded id (record_failure env d bw p id e w).1.table
  unfolding record_failure ◌>>=◌ time_now save_and_publish
  record_failure-IsRecorded e w h =
      let v : World = record w { turn = suc w.turn } in
      let r : ForwardedRequest =
        forwarded id "" "failed" e (bool_field p "auto_monitor") (env.now w.turn) in
      let (saved, same) =
        save_ok (upsert_forwarded_request env r) (persist_error "persist failed " id) d.publisher
          (failed_message id d.plugin_id e) v h in
      let (updated, created, there) = upsert_forwarded_request_ok env r v saved in
      (
        upserted (inserted r updated created) (find id w.table),
        rw same there,
        inl (failed_terminal id e (bool_field p "auto_monitor") (env.now w.turn) updated created _),
      )

  record_acknowledged-IsRecorded :
      (x : String) (w : World)
      → x ≢ ""
      → (record_acknowledged env d bw p id x w).0 ≡ ok tt
      → IsRecorded id (record_acknowledged env d bw p id x w).1.table
  unfolding record_acknowledged ◌>>=◌ time_now save_and_publish
  record_acknowledged-IsRecorded x w named h =
      let v : World = record w { turn = suc w.turn } in
      let r : ForwardedRequest =
        forwarded id x "acknowledged" [] (bool_field p "auto_monitor") (env.now w.turn) in
      let (saved, same) =
        save_ok (upsert_forwarded_request env r) (persist_error "persist acknowledged " id)
          d.publisher (acknowledged_message id d.plugin_id x) v h in
      let (updated, created, there) = upsert_forwarded_request_ok env r v saved in
      (
        upserted (inserted r updated created) (find id w.table),
        rw same there,
        inr (λ gone. cc (
          gone,
          acknowledged_external id x (bool_field p "auto_monitor") (env.now w.turn) updated created
              (find id w.table) named,
        )),
      )

  submitted-IsRecorded :
      (r : Result MonitoringResponse) (v : World)
      → ((out : MonitoringResponse) → r ≡ ok out → out.id ≢ "")
      → (on_result r
          (record_failure env d bw p id)
          (λ resp. record_acknowledged env d bw p id resp.id)
          v).0
        ≡ ok tt
      → IsRecorded id
          (on_result r
            (record_failure env d bw p id)
            (λ resp. record_acknowledged env d bw p id resp.id)
            v).1.table
  submitted-IsRecorded (ok out) v named h =
      record_acknowledged-IsRecorded out.id v (named out refl) h
  submitted-IsRecorded (err e) v named h = record_failure-IsRecorded e v h

  persisted-IsRecorded :
      (r : Result (Unit {0})) (v : World)
      → (on_result {B = Act (Result (Unit {0}))} r
          (λ e. pure (err (persist_error "persist submitted " id e)))
          (λ _. do
            added ← add_monitoring env bw (monitoring_request p)
            on_result added
                (record_failure env d bw p id)
                (λ resp. record_acknowledged env d bw p id resp.id))
          v).0
        ≡ ok tt
      → IsRecorded id
          (on_result {B = Act (Result (Unit {0}))} r
            (λ e. pure (err (persist_error "persist submitted " id e)))
            (λ _. do
              added ← add_monitoring env bw (monitoring_request p)
              on_result added
                  (record_failure env d bw p id)
                  (λ resp. record_acknowledged env d bw p id resp.id))
            v).1.table
  unfolding ◌>>=◌
  persisted-IsRecorded (ok tt) v h =
      let (added, u) = add_monitoring env bw (monitoring_request p) v in
      submitted-IsRecorded added u (add_monitoring-id env bw (monitoring_request p) v) h
  persisted-IsRecorded (err e) v h = cc

  forward-IsRecorded :
      (w : World)
      → (forward env d bw p id w).0 ≡ ok tt
      → IsRecorded id (forward env d bw p id w).1.table
  unfolding forward ◌>>=◌ time_now
  forward-IsRecorded w h = persisted-IsRecorded _ _ h

module _ (env : Env) (d : Deps) where
  dispatch-IsRecorded :
      (bw : Client) (p : Fields) (t : Option String) (w : World)
      → t ≡ some d.plugin_id
      → request_id_from_payload p ≢ ""
      → (dispatch env d bw p t w).0 ≡ ok tt
      → IsRecorded (request_id_from_payload p) (dispatch env d bw p t w).1.table
  unfolding dispatch
  dispatch-IsRecorded bw p none w target named h = cc
  dispatch-IsRecorded bw p (some t) w target named h =
      let ours : (t == d.plugin_id) ≡ true = (eq_iff t d.plugin_id).1 (some-injective _ _ target) in
      elim (Bool-cases (request_id_from_payload p == "")) [
        | inl empty ↦ absurd (named ((eq_iff _ _).0 empty))
        | inr given ↦
            rw (ours, given)
              (forward-IsRecorded env d bw p (request_id_from_payload p) w (rw (ours, given) at h))
      ]

  with_client-IsRecorded :
      (bw : Option Client) (p : Fields) (w : World)
      → target_plugin_id_from_payload p ≡ some d.plugin_id
      → request_id_from_payload p ≢ ""
      → (with_client env d bw p w).0 ≡ ok tt
      → IsRecorded (request_id_from_payload p) (with_client env d bw p w).1.table
  unfolding with_client
  with_client-IsRecorded none p w target named h = cc
  with_client-IsRecorded (some bw) p w target named h = elim (Bool-cases d.store) [
    | inl there ↦ simp there (
        dispatch-IsRecorded bw p (target_plugin_id_from_payload p) w target named (simp there at h))
    | inr gone ↦ cc
  ]

-- When HandleEvent acknowledges a request that is addressed to this plugin and has an id, the
-- table has a row for that id which is terminal or has the id of an upstream request, so that the
-- reconciler polls it; this holds whatever the database and the upstream service answer.
pub handle_event-IsRecorded :
    (env : Env) (d : Deps) (req : EventRequest) (p : Fields) (w : World)
    → req.event_name ≡ "plugin.silo.ebooks.request_submitted"
    → req.payload ≡ some p
    → target_plugin_id_from_payload p ≡ some d.plugin_id
    → request_id_from_payload p ≢ ""
    → (handle_event env (some (some d)) req w).0 ≡ ok tt
    → IsRecorded (request_id_from_payload p) (handle_event env (some (some d)) req w).1.table
unfolding handle_event with_payload
handle_event-IsRecorded env d req p w name payload target named acked =
    let ours : (req.event_name == "plugin.silo.ebooks.request_submitted") ≡ true =
      (eq_iff _ _).1 name in
    simp (ours, payload)
      (with_client-IsRecorded env d d.bw p w target named (simp (ours, payload) at acked))
