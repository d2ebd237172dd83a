-- ===== src/Consumer/Foreign.antt =====
-- Events that are not for this plugin.
use continuum_plugin_bookwar.Prelude.{
  String, ◌≡◌, refl, ◌≢◌, ap, Option, none, some, ◌==◌, eq_iff, Bool-cases, inl, inr,
}
use continuum_plugin_bookwar.World.{Env, World}
use continuum_plugin_bookwar.Upstream.{Client}
use continuum_plugin_bookwar.Consumer.{
  Fields, EventRequest, Deps, target_plugin_id_from_payload, dispatch, with_client, with_payload,
  handle_event,
}

dispatch_foreign :
    (env : Env) (d : Deps) (bw : Client) (p : Fields) (t : Option String) (w : World)
    → t ≢ some d.plugin_id
    → (dispatch env d bw p t w).1 ≡ w
unfolding dispatch
dispatch_foreign env d bw p none w other = refl
dispatch_foreign env d bw p (some t) w other = elim (Bool-cases (t == d.plugin_id)) [
  | inl same ↦ absurd (other (ap some ((eq_iff t d.plugin_id).0 same)))
  | inr differs ↦ rw differs
]

with_client_foreign :
    (env : Env) (d : Deps) (bw : Option Client) (p : Fields) (w : World)
    → target_plugin_id_from_payload p ≢ some d.plugin_id
    → (with_client env d bw p w).1 ≡ w
unfolding with_client
with_client_foreign env d none p w other = refl
with_client_foreign env d (some bw) p w other = elim (Bool-cases d.store) [
  | inl there ↦ simp there (dispatch_foreign env d bw p (target_plugin_id_from_payload p) w other)
  | inr gone ↦ simp gone
]

-- An event whose payload names another plugin, or none, as its target changes nothing: no row is
-- written, no request is sent and no event is published.
pub handle_event_foreign :
    (env : Env) (d : Deps) (req : EventRequest) (p : Fields) (w : World)
    → req.payload ≡ some p
    → target_plugin_id_from_payload p ≢ some d.plugin_id
    → (handle_event env (some (some d)) req w).1 ≡ w
unfolding handle_event with_payload
handle_event_foreign env d req p w payload other =
    elim (Bool-cases (req.event_name == "plugin.silo.ebooks.request_submitted")) [
      | inl ours ↦ simp (ours, payload) (with_client_foreign env d d.bw p w other)
      | inr differs ↦ simp differs
    ]
