-- ===== src/Upstream.antt =====
-- The client of the upstream service, internal/bookwarehouse/client.go and monitoring.go.
pub mod Requests
pub mod Redirect
pub mod Locked
use continuum_plugin_bookwar.Prelude.{
  ℕ, ◌≤◌, ◌*◌, ◌^◌, String, Bool, ◌&&◌, Option, none, some, List, [], ◌∷◌, ◌++◌, Bytes, codes, utf8,
  trim_space, to_lower, eqb, ◌||◌, itoa_ℕ, not, eqb, ◌==◌, leb, length, take, if◌then◌else◌,
}
use continuum_plugin_bookwar.Result.{Result, ok, err}
use continuum_plugin_bookwar.World.{
  Env, World, Act, Request, Reply, unreachable, unreadable, answered, MonitoringRequest,
  MonitoringResponse, pure, ◌>>=◌, on_result, on_error, send,
}
use continuum_plugin_bookwar.Url.{path_escape}

-- 10 << 20
abbrev pub max_response_bytes : ℕ
max_response_bytes = 10 * 2 ^ 20

abbrev pub err_body_snippet : ℕ
err_body_snippet = 512

-- the bytes of "…(truncated)"
truncated_mark : Bytes
truncated_mark = 0xE2 ∷ 0x80 ∷ 0xA6 ∷ codes "(truncated)"

unfoldable pub trunc_for_error : Bytes → Bytes
unfolding truncated_mark
trunc_for_error b =
    if leb (length b) err_body_snippet then b else take err_body_snippet b ++ truncated_mark

pub record Client : Type 0 where
  pub base_url : Bytes
  pub api_key : String
  pub default_cover_size : String

-- the bytes before a trimmed rest
before_trimmed : ℕ → Bytes → Bytes
before_trimmed c [] = if eqb c b'/' then [] else c ∷ []
before_trimmed c (d ∷ s) = c ∷ d ∷ s

-- strings.TrimRight(s, "/")
unfoldable pub trim_slashes : Bytes → Bytes
unfolding before_trimmed
trim_slashes [] = []
trim_slashes (c ∷ s) = before_trimmed c (trim_slashes s)

-- The words are compared in lower case and without spaces around them.
unfoldable pub normalize_cover_size : String → String
normalize_cover_size s =
    let word = to_lower (trim_space s) in
    if word == "thumbnail" || word == "medium" || word == "original"
    then word
    else if word == "small"
    then "thumbnail"
    else if word == "large"
    then "original"
    else "medium"

unfoldable pub new_client : Bytes → String → Client
unfolding trim_slashes
new_client base_url api_key = record {
  base_url = trim_slashes base_url;
  api_key = api_key;
  default_cover_size = "medium";
}

unfoldable pub set_default_cover_size : Client → String → Client
unfolding normalize_cover_size
set_default_cover_size c size = record c { default_cover_size = normalize_cover_size size }

unfoldable pub reconfigure : Client → Bytes → String → Client
unfolding trim_slashes
reconfigure c base_url api_key = record c { base_url = trim_slashes base_url; api_key = api_key }

abbrev pub cover_size : Client → String
cover_size c = c.default_cover_size

-- `BaseURL`
abbrev pub base_url_of : Client → Bytes
base_url_of c = c.base_url

abbrev pub config_snapshot : Client → Bytes × String
config_snapshot c = (c.base_url, c.api_key)

-- io.ReadAll of the limited body, and the test of the status code
unfoldable pub read_reply : Reply → Result Bytes
unfolding trunc_for_error
read_reply (unreachable e) = err (codes "do: " ++ e)
read_reply (unreadable status e) = err (codes "read body: " ++ e)
read_reply (answered status sent) =
    let body = take max_response_bytes sent in
    if leb 400 status
    then err (codes "upstream " ++ itoa_ℕ status ++ codes ": " ++ trunc_for_error body)
    else ok body

-- An answer whose body is copied to the client. The body is `none` when it breaks off.
pub record Stream : Type 0 where
  pub status : ℕ
  pub header : String → String
  pub body : Option Bytes

-- 416 is passed on
stream_status : ℕ → Stream → Result Stream
stream_status status s =
    if leb 400 status && not (eqb status 416)
    then err (codes "upstream " ++ itoa_ℕ status)
    else ok s

unfoldable pub stream_of : Reply → (String → String) → Result Stream
unfolding stream_status
stream_of (unreachable e) header = err (codes "do: " ++ e)
stream_of (unreadable status e) header =
    stream_status status (record { status = status; header = header; body = none })
stream_of (answered status sent) header =
    stream_status status (record { status = status; header = header; body = some sent })

-- `_, err := ...`
error_of : Result Bytes → Option Bytes
error_of (ok body) = none
error_of (err e) = some e

module _ (env : Env) (c : Client) where
  -- a request that http.NewRequestWithContext refuses is not sent
  do_request : String → Bytes → Bytes → Act (Result Bytes)
  unfolding read_reply
  do_request method path body =
      let (base_url, api_key) = config_snapshot c in
      let url = base_url ++ path in
      on_error (env.bad_url url) (λ e. pure (err (codes "new request: " ++ e)))
        do
          answer ← send env (record {
            method = method;
            url = url;
            api_key = api_key;
            body = body;
            range_header = "";
          })
          pure (read_reply answer)

  unfoldable pub get : Bytes → Act (Result Bytes)
  unfolding do_request
  get path = do_request "GET" path []

  -- a call of `hc.Do` whose body is not read at once, with the headers of the answer
  unfoldable pub send_headed : Request → Act (Reply × (String → String))
  send_headed r w = let (answer, w') = send env r w in ((answer, env.header w.turn), w')

  unfoldable pub get_stream_with_range : Bytes → String → Act (Result Stream)
  unfolding stream_of send_headed
  get_stream_with_range path range =
      let (base_url, api_key) = config_snapshot c in
      let url = base_url ++ path in
      on_error (env.bad_url url) (λ e. pure (err (codes "new request: " ++ e)))
        do
          answer ← send_headed (record {
            method = "GET";
            url = url;
            api_key = api_key;
            body = [];
            range_header = range;
          })
          pure (stream_of answer.0 answer.1)

  unfoldable pub get_stream : Bytes → Act (Result Stream)
  unfolding get_stream_with_range
  get_stream path = get_stream_with_range path ""

  -- the second request is sent when the first fails
  unfoldable pub ping : Act (Option Bytes)
  unfolding get error_of
  ping = do
    answer ← get (codes "/api/v1/health")
    on_result answer (λ e. do second ← get (codes "/health"); pure (error_of second))
        (λ body. pure none)

  unfoldable pub post_json : Bytes → Bytes → Act (Result Bytes)
  unfolding do_request
  post_json path body = do_request "POST" path body

  -- json.Unmarshal of the answer of POST /api/v1/monitoring/add
  unfoldable pub read_added : Bytes → Result MonitoringResponse
  unfolding trunc_for_error
  read_added body =
      on_result (env.unmarshal body) (λ e. err (codes "decode monitoring response: " ++ e))
        (λ out.
          if out.id == ""
          then err (codes "monitoring/add: upstream returned no id: " ++ trunc_for_error body)
          else ok out)

  unfoldable pub add_monitoring : MonitoringRequest → Act (Result MonitoringResponse)
  unfolding post_json read_added
  add_monitoring r =
      on_result (env.marshal r) (λ e. pure (err (codes "encode monitoring request: " ++ e)))
        (λ body. do
          answer ← post_json (codes "/api/v1/monitoring/add") body
          on_result answer (λ e. pure (err e)) (λ b. pure (read_added b)))

  -- json.Unmarshal of the answer of GET /api/v1/monitoring/{id}
  unfoldable pub read_snapshot : Bytes → Result MonitoringResponse
  unfolding trunc_for_error
  read_snapshot body =
      on_result (env.unmarshal body) (λ e. err (codes "decode monitoring snapshot: " ++ e))
        (λ out.
          if out.id == "" && out.status == ""
          then err (codes "monitoring snapshot: invalid response: " ++ trunc_for_error body)
          else ok out)

  unfoldable pub get_monitoring : String → Act (Result MonitoringResponse)
  unfolding get read_snapshot
  get_monitoring external_id = do
    answer ← get (codes "/api/v1/monitoring/" ++ path_escape external_id)
    on_result answer (λ e. pure (err e)) (λ b. pure (read_snapshot b))
