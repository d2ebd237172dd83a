-- ===== src/Runtime.antt =====
-- internal/runtime/runtime.go: the configuration that the host hands over.
pub mod Configured
use continuum_plugin_bookwar.Prelude.{
  String, Bool, true, false, ◌&&◌, ◌||◌, not, Option, none, some, List, [], ◌∷◌, ◌++◌, Bytes, codes,
  ◌==◌, if◌then◌else◌,
}
use continuum_plugin_bookwar.World.{on_error}

pub record Config : Type 0 where
  pub database_url : String
  pub base_url : String
  pub api_key : String
  pub default_cover_size : String
  pub request_quality_profile : String
  pub enable_auto_monitoring : Bool
  pub stream_signing_secret : String

-- `Config{}`
abbrev pub empty_config : Config
empty_config = record {
  database_url = "";
  base_url = "";
  api_key = "";
  default_cover_size = "";
  request_quality_profile = "";
  enable_auto_monitoring = false;
  stream_signing_secret = "";
}

unfoldable pub configured : Config → Bool
configured c = not (c.database_url == "")

unfoldable pub provider_configured : Config → Bool
provider_configured c = not (c.base_url == "") && not (c.api_key == "")

unfoldable pub mask : String → String
mask s = if s == "" then "" else "***redacted***"

-- an attribute of the log
pub data Attr : Type 0 where
  string_attr : String → String → Attr
  bool_attr : String → Bool → Attr

unfoldable pub log_value : Config → List Attr
unfolding mask
log_value c =
    string_attr "database_url" (mask c.database_url)
    ∷ string_attr "base_url" c.base_url
    ∷ string_attr "api_key" (mask c.api_key)
    ∷ string_attr "default_cover_size" c.default_cover_size
    ∷ string_attr "request_quality_profile" c.request_quality_profile
    ∷ bool_attr "enable_auto_monitoring" c.enable_auto_monitoring
    ∷ string_attr "stream_signing_secret" (mask c.stream_signing_secret)
    ∷ []

-- m["value"] of an entry, by its type; a value that is absent is `other_value`, too
pub data Value : Type 0 where
  text : String → Value
  flag : Bool → Value
  other_value : Value

-- an entry of the request; its value is `none` when it is nil
pub record Entry : Type 0 where
  pub key : String
  pub value : Option Value

unfoldable pub string_from_value : Value → String
string_from_value (text s) = s
string_from_value (flag b) = ""
string_from_value other_value = ""

-- `if b, ok := v.(bool); ok`
flag_or : Bool → Value → Bool
flag_or old (text s) = old
flag_or old (flag b) = b
flag_or old other_value = old

-- the switch over the key
set_field : Config → String → Value → Config
unfolding string_from_value flag_or
set_field c key v =
    if key == "database_url"
    then record c { database_url = string_from_value v }
    else if key == "base_url"
    then record c { base_url = string_from_value v }
    else if key == "api_key"
    then record c { api_key = string_from_value v }
    else if key == "default_cover_size"
    then record c { default_cover_size = string_from_value v }
    else if key == "request_quality_profile"
    then record c { request_quality_profile = string_from_value v }
    else if key == "enable_auto_monitoring"
    then record c { enable_auto_monitoring = flag_or c.enable_auto_monitoring v }
    else if key == "stream_signing_secret"
    then record c { stream_signing_secret = string_from_value v }
    else c

set_entry : Config → String → Option Value → Config
unfolding set_field
set_entry c key none = c
set_entry c key (some v) = set_field c key v

-- the loop over the entries
unfoldable pub read_entries : Config → List Entry → Config
unfolding set_entry
read_entries c [] = c
read_entries c (e ∷ es) = read_entries (set_entry c e.key e.value) es

-- what the code reads of the result of url.Parse
pub record ParsedUrl : Type 0 where
  pub scheme : String
  pub host : String

unfoldable pub is_http_url : Option ParsedUrl → Bool
is_http_url none = false
is_http_url (some u) = (u.scheme == "http" || u.scheme == "https") && not (u.host == "")

-- `s.cfg`, and the configurations that the callback was called with
pub record Server : Type 0 where
  pub cfg : Config
  pub applied : List Config

-- `New`
abbrev pub new_server : Server
new_server = record { cfg = empty_config; applied = [] }

abbrev pub snapshot : Server → Config
snapshot s = s.cfg

-- `parse_url` is url.Parse; `on_cfg` is the callback's answer, where there is a callback.
module _ (parse_url : String → Option ParsedUrl) (on_cfg : Option (Config → Option Bytes)) where
  unfoldable pub is_valid_base : Config → Bool
  unfolding is_http_url
  is_valid_base c = c.base_url == "" || is_http_url (parse_url c.base_url)

  store_config : Config → Server → Option Bytes × Server
  store_config c s = (none, record s { cfg = c })

  call_back : Option (Config → Option Bytes) → Config → Server → Option Bytes × Server
  unfolding store_config
  call_back none c s = store_config c s
  call_back (some f) c s =
      let s' = record s { applied = s.applied ++ c ∷ [] } in
      on_error (f c) (λ e. (some e, s')) (store_config c s')

  -- the error of Configure, and the server
  unfoldable pub configure : List Entry → Server → Option Bytes × Server
  unfolding read_entries store_config call_back is_valid_base
  configure entries s =
      let c = read_entries empty_config entries in
      if c.database_url == ""
      then store_config c s
      else if is_valid_base c
      then call_back on_cfg c s
      else (some (codes "base_url must be a valid http(s) URL"), s)
