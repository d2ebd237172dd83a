-- ===== src/Store/Effects.antt =====
-- What a call of the store that reports success has done, and what the others have.
use continuum_plugin_bookwar.Prelude.{
  suc, String, ◌≡◌, refl, inl, inr, Bool-cases, ◌==◌, eqb, if◌then◌else◌, eq_refl, some, Option,
}
use continuum_plugin_bookwar.Result.{Result, ok, err}
use continuum_plugin_bookwar.Table.{Time, Table, find, upsert, polled, update_where}
use continuum_plugin_bookwar.Table.Keys.{
  upserted, mapped, find-upsert, find-update_where, polled-request_id,
}
use continuum_plugin_bookwar.World.{
  Env, World, Outcome, done, refused, unconfirmed, settle, ◌>>=◌, exec, time_now,
}
use continuum_plugin_bookwar.Store.{
  ForwardedRequest, exec_upsert, exec_polled, inserted, wrap, text_ptr, upsert_forwarded_request,
  mark_polled,
}

settle_ok :
    (o : Outcome) (b a : World) → (settle o b a).0 ≡ ok tt → (settle o b a).1.table ≡ a.table
unfolding settle
settle_ok done b a h = refl
settle_ok (refused e) b a h = cc
settle_ok (unconfirmed e) b a h = refl

wrap_ok : (s : String) (r : Result (Unit {0})) → wrap s r ≡ ok tt → r ≡ ok tt
unfolding wrap
wrap_ok s (ok tt) h = refl
wrap_ok s (err e) h = cc

module _ (env : Env) where
  exec_ok :
      (f : Time → Table → Table) (w : World)
      → (exec env f w).0 ≡ ok tt
      → (exec env f w).1.table ≡ f (env.now w.turn) w.table
  unfolding exec
  exec_ok f w h = settle_ok (env.outcome w.turn) _ _ h

  exec_upsert_ok :
      (r : ForwardedRequest) (updated : Time) (w : World)
      → (exec_upsert env r updated w).0 ≡ ok tt
      → find r.request_id (exec_upsert env r updated w).1.table
        ≡ some (upserted (inserted r updated (env.now w.turn)) (find r.request_id w.table))
  unfolding exec_upsert ◌>>=◌
  exec_upsert_ok r updated w h =
      rw
        (
          exec_ok (λ created. upsert (inserted r updated created)) w
              (wrap_ok "upsert forwarded_request: " _ h),
          find-upsert,
        )
        (unfold inserted in simp eq_refl)

  -- After an upsert that returns no error, the row under its key is the inserted one, or the row
  -- that was there merged with it.
  pub upsert_forwarded_request_ok :
      (r : ForwardedRequest) (w : World)
      → (upsert_forwarded_request env r w).0 ≡ ok tt
      → (updated : Time) × (created : Time) × (find r.request_id
            (upsert_forwarded_request env r w).1.table
          ≡ some (upserted (inserted r updated created) (find r.request_id w.table)))
  unfolding upsert_forwarded_request ◌>>=◌ time_now
  upsert_forwarded_request_ok r w h = elim (Bool-cases (r.request_id == "")) [
    | inl unnamed ↦ cc (rw unnamed at h)
    | inr named ↦ elim (Bool-cases (eqb r.updated_at 0)) [
      | inl zero ↦ (
        env.now w.turn,
        env.now (suc w.turn),
        rw (named, zero) (exec_upsert_ok r _ _ (rw (named, zero) at h)),
      )
      | inr given ↦ (
        r.updated_at,
        env.now w.turn,
        rw (named, given) (exec_upsert_ok r _ _ (rw (named, given) at h)),
      )
    ]
  ]

  exec_polled_ok :
      (id : String) (x : Option String) (s : String) (stamp : Time) (w : World)
      → (exec_polled env id x s stamp w).0 ≡ ok tt
      → find id (exec_polled env id x s stamp w).1.table
        ≡ mapped (polled x s stamp) (find id w.table)
  unfolding exec_polled ◌>>=◌
  exec_polled_ok id x s stamp w h =
      rw
        (
          exec_ok (λ _. update_where id (polled x s stamp)) w (wrap_ok "mark polled: " _ h),
          find-update_where id (polled x s stamp) (polled-request_id x s stamp),
        )
        (simp eq_refl)

  -- the stamp of MarkPolled: the time that it is given, or the clock's for the zero time
  abbrev pub stamp_of : Time → World → Time
  stamp_of when w = if eqb when 0 then env.now w.turn else when

  -- After a MarkPolled that returns no error, the row, if it is there, has no error text, is
  -- stamped with the time of the poll, and has the new status unless its own is terminal.
  pub mark_polled_ok :
      (id external_id s : String) (when : Time) (w : World)
      → (mark_polled env id external_id s when w).0 ≡ ok tt
      → find id (mark_polled env id external_id s when w).1.table
        ≡ mapped (polled (text_ptr external_id) s (stamp_of when w)) (find id w.table)
  unfolding mark_polled ◌>>=◌ time_now
  mark_polled_ok id external_id s when w h = elim (Bool-cases (id == "")) [
    | inl unnamed ↦ cc (rw unnamed at h)
    | inr named ↦ elim (Bool-cases (eqb when 0)) [
      | inl zero ↦ rw (named, zero) (exec_polled_ok id _ s _ _ (rw (named, zero) at h))
      | inr given ↦ rw (named, given) (exec_polled_ok id _ s _ _ (rw (named, given) at h))
    ]
  ]
