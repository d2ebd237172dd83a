-- ===== src/Adapter.antt =====
-- internal/httproutes/server.go: the host's RPC calls, as HTTP requests of a handler.
pub mod Token
pub mod Guards
pub mod Query
use continuum_plugin_bookwar.Prelude.{
  ℕ, ◌*◌, ◌^◌, ◌≡◌, refl, String, Bool, true, false, ◌||◌, ◌&&◌, not, Option, none, some, List, [],
  ◌∷◌, ◌++◌, Bytes, codes, utf8, ◌==◌, ltb, leb, eqb, length, if◌then◌else◌,
}
use continuum_plugin_bookwar.World.{on_error}
use continuum_plugin_bookwar.Url.{Values, set_value, encode}
use continuum_plugin_bookwar.Books.Types.{Float}

-- 8 << 20
abbrev pub max_body_bytes : ℕ
max_body_bytes = 8 * 2 ^ 20

-- "()<>@,;:\"/[]?={} \t" with the backslash
abbrev pub separators : List ℕ
separators = 9 ∷ codes "()<>@,;:\\\"/[]?={} "

-- strings.ContainsRune
unfoldable pub contains_rune : List ℕ → ℕ → Bool
contains_rune [] r = false
contains_rune (c ∷ cs) r = eqb c r || contains_rune cs r

unfoldable pub is_token_rune : ℕ → Bool
unfolding contains_rune
is_token_rune r = not (ltb r 0x21 || ltb 0x7E r || contains_rune separators r)

-- the loop over the runes
unfoldable pub all_token_runes : List ℕ → Bool
unfolding is_token_rune
all_token_runes [] = true
all_token_runes (r ∷ rs) = is_token_rune r && all_token_runes rs

unfoldable pub is_http_token : String → Bool
unfolding all_token_runes
is_http_token s = if s == "" then false else all_token_runes (codes s)

-- the kinds of a structpb.Value
pub data QueryValue : Type 0 where
  string_value : String → QueryValue
  number_value : Float → QueryValue
  bool_value : Bool → QueryValue
  other_value : QueryValue

-- pluginv1.HandleHTTPRequest; the maps are lists, in the order in which they are walked
pub record RpcRequest : Type 0 where
  pub method : String
  pub path : String
  pub query : Option (List (String × QueryValue))
  pub headers : List (String × String)
  pub body : Bytes

-- pluginv1.HandleHTTPResponse
pub record RpcResponse : Type 0 where
  pub status_code : ℕ
  pub headers : List (String × String)
  pub body : Bytes

-- the http.Request that a handler gets
pub record Message : Type 0 where
  pub method : String
  pub url : Bytes
  pub request_uri : Bytes
  pub headers : List (String × String)
  pub body : Bytes

-- what the recorder holds when the handler has returned
pub record Recorded : Type 0 where
  pub code : ℕ
  pub headers : List (String × List String)
  pub body : Bytes

-- net/http and net/url: what (*URL).String and RequestURI give for a path and a query, the error
-- of NewRequestWithContext, and Header.Set; strconv.FormatFloat(x, 'f', -1, 64)
pub record HttpLib : Type 0 where
  pub url_string : String → Bytes → Bytes
  pub request_uri : String → Bytes → Bytes
  pub bad_request : String → Bytes → Option Bytes
  pub set_header : String → String → List (String × String) → List (String × String)
  pub format_float : Float → Bytes

-- An http.Handler on a state: what it records, or `none` when it panics.
abbrev pub Handler : Type 0 → Type 0
Handler S = Message → S → Option Recorded × S

-- what SetHandler has stored
pub record Server (S : Type 0) : Type 0 where
  pub handler : Option (Handler S)

abbrev pub new_server : {S : Type 0} → Server S
new_server = record { handler = none }

-- a nil handler takes the stored one away
abbrev pub set_handler : {S : Type 0} → Option (Handler S) → Server S → Server S
set_handler h s = record s { handler = h }

abbrev pub json_header : List (String × String)
json_header = ("Content-Type", "application/json") ∷ []

unfoldable pub err_response : ℕ → String → RpcResponse
err_response code msg = record {
  status_code = code;
  headers = json_header;
  body = codes "{\"error\":{\"message\":\"" ++ (codes msg ++ codes "\"}}");
}

unfoldable pub not_ready : RpcResponse
not_ready = record {
  status_code = 503;
  headers = json_header;
  body = codes "{\"error\":{\"code\":\"not_ready\",\"message\":\"plugin not configured\"}}";
}

-- one field of the query
set_query_value : HttpLib → String → QueryValue → Values → Values
unfolding set_value
set_query_value lib k (string_value s) q = set_value k (utf8 s) q
set_query_value lib k (number_value x) q = set_value k (lib.format_float x) q
set_query_value lib k (bool_value true) q = set_value k (codes "true") q
set_query_value lib k (bool_value false) q = set_value k (codes "false") q
set_query_value lib k other_value q = q

unfoldable pub query_values : HttpLib → List (String × QueryValue) → Values → Values
unfolding set_query_value
query_values lib [] q = q
query_values lib ((k, v) ∷ fields) q = query_values lib fields (set_query_value lib k v q)

unfoldable pub raw_query : HttpLib → Option (List (String × QueryValue)) → Bytes
unfolding query_values
raw_query lib none = []
raw_query lib (some fields) = encode (query_values lib fields [])

unfoldable pub set_headers :
    HttpLib → List (String × String) → List (String × String) → List (String × String)
set_headers lib [] hs = hs
set_headers lib ((k, v) ∷ more) hs = set_headers lib more (lib.set_header k v hs)

-- the first value of each header that has one
unfoldable pub first_values : List (String × List String) → List (String × String)
first_values [] = []
first_values ((k, []) ∷ hs) = first_values hs
first_values ((k, v ∷ vs) ∷ hs) = (k, v) ∷ first_values hs

-- the deferred recover, and the copy of what was recorded
unfoldable pub respond : Option Recorded → RpcResponse
unfolding err_response first_values
respond none = err_response 500 "internal error"
respond (some r) = record { status_code = r.code; headers = first_values r.headers; body = r.body }

abbrev pub method_or_get : String → String
method_or_get method = if method == "" then "GET" else method

unfoldable pub message_of : HttpLib → RpcRequest → Message
unfolding raw_query set_headers
message_of lib req =
    let query = raw_query lib req.query in
    record {
      method = method_or_get req.method;
      url = lib.url_string req.path query;
      request_uri = lib.request_uri req.path query;
      headers = set_headers lib req.headers [];
      body = req.body;
    }

module _ {S : Type 0} (lib : HttpLib) where
  -- ServeHTTP on a recorder
  unfoldable pub serve : Handler S → Message → S → RpcResponse × S
  unfolding respond
  serve h m s = let (recorded, s') = h m s in (respond recorded, s')

  unfoldable pub dispatch : Handler S → RpcRequest → S → RpcResponse × S
  unfolding err_response message_of serve
  dispatch h req s =
      let m = message_of lib req in
      if ltb max_body_bytes (length req.body)
      then (err_response 413 "request body too large", s)
      else if not (is_http_token m.method)
      then (err_response 400 "invalid method", s)
      else on_error (lib.bad_request m.method m.url) (λ e. (err_response 400 "invalid request", s))
          (serve h m s)

  -- Handle; the handler is `none` before SetHandler
  unfoldable pub handle : Option (Handler S) → RpcRequest → S → RpcResponse × S
  unfolding not_ready dispatch
  handle none req s = (not_ready, s)
  handle (some h) req s = dispatch h req s
