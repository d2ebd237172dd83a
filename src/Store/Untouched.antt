-- ===== src/Store/Untouched.antt =====
-- Writes of the store send no request and publish no event.
use continuum_plugin_bookwar.Prelude.{String, ◌≡◌, refl, ◌∙◌}
use continuum_plugin_bookwar.Table.{Time, Table}
use continuum_plugin_bookwar.World.{
  Env, World, Outcome, done, refused, unconfirmed, settle, ◌>>=◌, time_now, exec,
}
use continuum_plugin_bookwar.World.Rules.{
  Property, Holds, IsMonadic, Holds-pure, Holds-bind, Holds-if,
}
use continuum_plugin_bookwar.Store.{ForwardedRequest, upsert_forwarded_request, mark_polled}

-- the requests sent and the events published are the same
pub record Quiet (u v : World) : Type 0 where
  pub sent : v.sent ≡ u.sent
  pub published : v.published ≡ u.published

-- The action sends no request and publishes no event.
abbrev pub IsQuiet : Property
IsQuiet A m = (w : World) → Quiet w (m w).1

IsQuiet-IsMonadic : IsMonadic IsQuiet
unfolding ◌>>=◌
IsQuiet-IsMonadic = record {
  pure_rule = λ a. record { at = λ w. record { sent = refl; published = refl } };
  bind_rule = λ m f km kf. record {
    at = λ w.
        let before = km.at w in
        let after = (kf (m w).0).at (m w).1 in
        record { sent = after.sent ∙ before.sent; published = after.published ∙ before.published };
  };
}

Quiet-settle : (o : Outcome) (u b a : World) → Quiet u b → Quiet u a → Quiet u (settle o b a).1
unfolding settle
Quiet-settle done u b a h k = k
Quiet-settle (refused e) u b a h k = h
Quiet-settle (unconfirmed e) u b a h k = k

module _ (env : Env) where
  Quiet-time_now : Holds IsQuiet (time_now env)
  unfolding time_now
  Quiet-time_now = record { at = λ w. record { sent = refl; published = refl } }

  Quiet-exec : (f : Time → Table → Table) → Holds IsQuiet (exec env f)
  unfolding exec
  Quiet-exec f = record {
    at = λ w.
        Quiet-settle (env.outcome w.turn) w _ _ (record { sent = refl; published = refl })
          (record { sent = refl; published = refl });
  }

ruleset quiet_steps =
    (IsQuiet-IsMonadic, Holds-pure, Holds-bind, Holds-if, Quiet-time_now, Quiet-exec)

module _ (env : Env) where
  pub Quiet-upsert_forwarded_request :
      (r : ForwardedRequest) → Holds IsQuiet (upsert_forwarded_request env r)
  unfolding upsert_forwarded_request
  Quiet-upsert_forwarded_request r = search quiet_steps

  pub Quiet-mark_polled :
      (id external_id s : String) (when : Time)
      → Holds IsQuiet (mark_polled env id external_id s when)
  unfolding mark_polled
  Quiet-mark_polled id external_id s when = search quiet_steps
