-- ===== src/Consumer/Failure.antt =====
-- What HandleEvent does when upstream does not accept the request.
use continuum_plugin_bookwar.Prelude.{
  String, ◌≡◌, refl, ◌∙◌, ap, true, some, List, [], ◌∷◌, ◌++◌, suc, Bytes,
}
use continuum_plugin_bookwar.Result.{Result, ok, err}
use continuum_plugin_bookwar.Table.{Row, Table, find, is_terminal, guarded, merge}
use continuum_plugin_bookwar.World.{
  Env, World, Act, Message, pure, ◌>>=◌, ◌>>◌, publish, time_now, on_result,
}
use continuum_plugin_bookwar.Upstream.{Client}
use continuum_plugin_bookwar.Store.{ForwardedRequest, upsert_forwarded_request, inserted}
use continuum_plugin_bookwar.Store.Effects.{upsert_forwarded_request_ok}
use continuum_plugin_bookwar.Store.Untouched.{Quiet-upsert_forwarded_request}
use continuum_plugin_bookwar.Consumer.{
  Fields, Deps, publish_if, record_failure, forwarded, persist_error, failed_message, bool_field,
}

-- the end of the handler, behind the write that answered `answer`
written :
    (answer : Result (Unit {0})) (f : Bytes → Bytes) (m : Message) (v : World)
    → let r =
        on_result {B = Act (Result (Unit {0}))} answer
          (λ x. pure (err (f x)))
          (λ _. do publish_if true m; pure (ok tt))
          v in
      r.0 ≡ ok tt
      → (answer ≡ ok tt) × (r.1.published ≡ v.published ++ m ∷ []) × (r.1.table ≡ v.table)
unfolding publish_if publish ◌>>=◌
written (ok tt) f m v h = (refl, refl, refl)
written (err e) f m v h = cc

guarded_terminal : (old new : String) → is_terminal old ≡ true → guarded old new ≡ old
unfolding guarded
guarded_terminal old new h = rw h refl

module _ (env : Env) (d : Deps) (bw : Client) (p : Fields) (id : String) where
  -- When upstream refuses a request again whose row is imported or failed, and the handler reports
  -- no error: the row keeps its status, and the event request_failed is published all the same.
  pub record_failure_terminal :
      (e : Bytes) (w : World) (r : Row)
      → d.publisher ≡ true
      → find id w.table ≡ some r
      → is_terminal r.status ≡ true
      → (record_failure env d bw p id e w).0 ≡ ok tt
      → ((record_failure env d bw p id e w).1.published
          ≡ w.published ++ failed_message id d.plugin_id e ∷ [])
        × (q : Row) × (find id (record_failure env d bw p id e w).1.table ≡ some q)
        × (q.status ≡ r.status)
  unfolding record_failure ◌>>=◌ time_now
  record_failure_terminal e w r there known over h =
      let v : World = record w { turn = suc w.turn } in
      let sent : ForwardedRequest =
        forwarded id "" "failed" e (bool_field p "auto_monitor") (env.now w.turn) in
      let (answer, u) = upsert_forwarded_request env sent v in
      let (stored, published, table) =
        written answer (persist_error "persist failed " id) (failed_message id d.plugin_id e) u
          (rw there at h) in
      let (updated, created, found) = upsert_forwarded_request_ok env sent v stored in
      let quiet = (Quiet-upsert_forwarded_request env sent).at v in
      (
        rw there (
            published
            ∙ ap (λ (ms : List Message). ms ++ failed_message id d.plugin_id e ∷ [])
                quiet.published),
        merge (inserted sent updated created) r,
        rw there (ap (λ (t : Table). find id t) table ∙ found ∙ rw known refl),
        unfold merge inserted in guarded_terminal r.status "failed" over,
      )
