-- ===== src/Consumer.antt =====
-- internal/consumer/handler.go: the events that the ebooks portal sends.
pub mod Steps
pub mod Recorded
pub mod Foreign
pub mod Failure
use continuum_plugin_bookwar.Prelude.{
  ℕ, String, Bool, true, false, not, ◌||◌, Option, none, some, List, [], ◌∷◌, ◌++◌, Bytes, codes,
  utf8, trim_space, ◌==◌, if◌then◌else◌,
}
use continuum_plugin_bookwar.Result.{Result, ok, err}
use continuum_plugin_bookwar.World.{
  Env, World, Act, Field, text, reason, Message, MonitoringRequest, pure, ◌>>=◌, ◌>>◌, on_result,
  publish, time_now,
}
use continuum_plugin_bookwar.Upstream.{Client, add_monitoring}
use continuum_plugin_bookwar.Store.{ForwardedRequest, upsert_forwarded_request}

-- What `AsMap` makes of a protobuf value. The handler reads no number: a float64 is its bits.
mutual
  pub data Value : Type 0 where
    null : Value
    bool : Bool → Value
    number : ℕ → Value
    str : String → Value
    list : Values → Value
    struct : Fields → Value

  pub data Values : Type 0 where
    nil : Values
    cons : Value → Values → Values

  pub data Fields : Type 0 where
    end : Fields
    field : String → Value → Fields → Fields

-- a Go map; its keys are distinct
unfoldable pub get : Fields → String → Option Value
get end key = none
get (field k v m) key = if k == key then some v else get m key

-- HandleEventRequest
pub record EventRequest : Type 0 where
  pub event_name : String
  pub payload : Option Fields

-- `store` and `publisher` say whether the field is there (not nil).
pub record Deps : Type 0 where
  pub store : Bool
  pub publisher : Bool
  pub bw : Option Client
  pub plugin_id : String

-- `ok s` of the Go pair is `some s`.
unfoldable pub trimmed_string_value : Fields → String → Option String
unfolding get
trimmed_string_value m key = elim (get m key) [
  | none ↦ none
  | some (str s) ↦ some (trim_space s)
  | some _ ↦ some ""
]

first_target : Fields → List String → Option String
unfolding trimmed_string_value
first_target m [] = none
first_target m (key ∷ keys) =
    let rest = first_target m keys in
    elim (trimmed_string_value m key) [ some target ↦ some target | none ↦ rest ]

unfoldable pub target_plugin_id_from_payload : Fields → Option String
unfolding first_target
target_plugin_id_from_payload m =
    first_target m ("target_plugin_id" ∷ "target_provider_plugin_id" ∷ "provider_plugin_id" ∷ [])

-- `if v, ok := m[k].(string); ok { return v }; return ""`
unfoldable pub string_field : Fields → String → String
unfolding get
string_field m k = elim (get m k) [ some (str s) ↦ s | _ ↦ "" ]

unfoldable pub request_id_from_payload : Fields → String
unfolding string_field
request_id_from_payload m =
    let id = string_field m "request_id" in if id == "" then string_field m "requestId" else id

unfoldable pub bool_field : Fields → String → Bool
unfolding get
bool_field m k = elim (get m k) [ some (bool b) ↦ b | _ ↦ false ]

strings_of : Values → List String
strings_of nil = []
strings_of (cons (str s) vs) = s ∷ strings_of vs
strings_of (cons _ vs) = strings_of vs

unfoldable pub string_slice_field : Fields → String → List String
unfolding get strings_of
string_slice_field m k = elim (get m k) [ some (list vs) ↦ strings_of vs | _ ↦ [] ]

unfoldable pub monitoring_request : Fields → MonitoringRequest
unfolding string_field string_slice_field bool_field
monitoring_request p = record {
  title = string_field p "title";
  authors = string_slice_field p "authors";
  isbn = string_field p "isbn";
  format_pref = string_field p "format_pref";
  quality_profile = "";
  auto_monitor = bool_field p "auto_monitor";
}

abbrev pub failed_message : String → String → Bytes → Message
failed_message id plugin_id why = record {
  name = "request_failed";
  payload =
      ("request_id", text id)
      ∷ ("requestId", text id)
      ∷ ("provider_plugin_id", text plugin_id)
      ∷ ("reason", reason why)
      ∷ [];
}

abbrev pub acknowledged_message : String → String → String → Message
acknowledged_message id plugin_id external_id = record {
  name = "request_acknowledged";
  payload =
      ("request_id", text id)
      ∷ ("requestId", text id)
      ∷ ("external_id", text external_id)
      ∷ ("provider_plugin_id", text plugin_id)
      ∷ [];
}

-- the rows that the handler writes
abbrev pub forwarded : String → String → String → Bytes → Bool → ℕ → ForwardedRequest
forwarded id external_id status error auto now = record {
  request_id = id;
  external_id = external_id;
  status = status;
  last_polled = 0;
  error_text = error;
  auto_monitor = auto;
  created_at = 0;
  updated_at = now;
}

-- fmt.Errorf("persist submitted %s: %w", requestID, err)
abbrev pub persist_error : String → String → Bytes → Bytes
persist_error what id e = codes what ++ utf8 id ++ codes ": " ++ e

-- `publish` of the package: nothing without a publisher
unfoldable pub publish_if : Bool → Message → Act (Unit {0})
publish_if there m = if there then publish m else pure tt

module _ (env : Env) (d : Deps) (bw : Client) (p : Fields) (id : String) where
  -- AddMonitoring failed with `e`
  unfoldable pub record_failure : Bytes → Act (Result (Unit {0}))
  unfolding publish_if
  record_failure e = do
    now ← time_now env
    answer ←
        upsert_forwarded_request env (forwarded id "" "failed" e (bool_field p "auto_monitor") now)
    on_result answer (λ x. pure (err (persist_error "persist failed " id x)))
        λ _. do publish_if d.publisher (failed_message id d.plugin_id e); pure (ok tt)

  -- AddMonitoring returned the id `external_id`
  unfoldable pub record_acknowledged : String → Act (Result (Unit {0}))
  unfolding publish_if
  record_acknowledged external_id = do
    now ← time_now env
    answer ←
        upsert_forwarded_request env
          (forwarded id external_id "acknowledged" [] (bool_field p "auto_monitor") now)
    on_result answer (λ x. pure (err (persist_error "persist acknowledged " id x)))
        λ _. do
          publish_if d.publisher (acknowledged_message id d.plugin_id external_id)
          pure (ok tt)

  -- the part of HandleEvent behind its guards
  unfoldable pub forward : Act (Result (Unit {0}))
  forward = do
    now ← time_now env
    answer ←
        upsert_forwarded_request env
          (forwarded id "" "submitted" [] (bool_field p "auto_monitor") now)
    on_result answer (λ e. pure (err (persist_error "persist submitted " id e)))
        λ _. do
          added ← add_monitoring env bw (monitoring_request p)
          on_result added record_failure (λ resp. record_acknowledged resp.id)

-- a target that is absent, or another plugin's, is not ours
unfoldable pub dispatch : Env → Deps → Client → Fields → Option String → Act (Result (Unit {0}))
dispatch env d bw p none = pure (ok tt)
dispatch env d bw p (some target) =
    if not (target == d.plugin_id)
    then pure (ok tt)
    else if request_id_from_payload p == ""
    then pure (ok tt)
    else forward env d bw p (request_id_from_payload p)

unfoldable pub with_client : Env → Deps → Option Client → Fields → Act (Result (Unit {0}))
with_client env d none p = pure (err (codes "plugin dependencies not configured"))
with_client env d (some bw) p =
    if not d.store
    then pure (err (codes "plugin dependencies not configured"))
    else dispatch env d bw p (target_plugin_id_from_payload p)

unfoldable pub with_payload : Env → Option (Option Deps) → Option Fields → Act (Result (Unit {0}))
with_payload env deps_fn none = pure (ok tt)
with_payload env none (some p) = pure (err (codes "plugin not configured yet"))
with_payload env (some none) (some p) = pure (err (codes "plugin not configured yet"))
with_payload env (some (some d)) (some p) = with_client env d d.bw p

-- HandleEvent. `deps_fn` is nil, or gives the dependencies, nil before Configure. An error nacks
-- the event, and the host delivers it again.
unfoldable pub handle_event : Env → Option (Option Deps) → EventRequest → Act (Result (Unit {0}))
handle_event env deps_fn req =
    if not (req.event_name == "plugin.silo.ebooks.request_submitted")
    then pure (ok tt)
    else with_payload env deps_fn req.payload
