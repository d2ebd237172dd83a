-- ===== src/Examples/Config.antt =====
-- The theorems on the plugin's configuration at concrete data.
use continuum_plugin_bookwar.Prelude.{
  suc, ◌≡◌, ◌≢◌, refl, String, true, none, some, Option, List, [], ◌∷◌, Bytes, if◌then◌else◌,
  Bool-cases, inl, inr, ap, sym,
}
use continuum_plugin_bookwar.Result.{Result, ok, err, ok-injective}
use continuum_plugin_bookwar.World.{done, query_result}
use continuum_plugin_bookwar.Runtime.{
  Config, empty_config, Entry, text, read_entries, ParsedUrl, is_valid_base, Server, configure,
  log_value,
}
use continuum_plugin_bookwar.Runtime.Configured.{Outcome, configure-Outcome, log_value_hides}
use continuum_plugin_bookwar.AppConfig.{
  AppDb, Backend, default_app_config, same_config, get_within, get_app_config, update_app_config,
}
use continuum_plugin_bookwar.AppConfig.Saved.{same_config-eq, get_within_enough}

abbrev pub chosen : Config
chosen = record default_app_config { api_key = "k1"; enable_auto_monitoring = true }

abbrev other_key : Config
other_key = record default_app_config { api_key = "k2"; enable_auto_monitoring = true }

log_value_hides_example : log_value chosen ≡ log_value other_key
log_value_hides_example = log_value_hides chosen other_key refl refl refl refl refl refl refl

abbrev entries : List Entry
entries =
    (record { key = "database_url"; value = some (text "postgres://db") })
    ∷ (record { key = "base_url"; value = some (text "ftp://bw") })
    ∷ []

abbrev server : Server
server = record { cfg = empty_config; applied = [] }

abbrev parse_url : String → Option ParsedUrl
parse_url s = some (record { scheme = "ftp"; host = "bw" })

configure-Outcome_example :
    Outcome
      (is_valid_base parse_url (some (λ _. none)))
      (some (λ _. none))
      (read_entries empty_config entries)
      server
      (configure parse_url (some (λ _. none)) entries server)
configure-Outcome_example = configure-Outcome parse_url (some (λ _. none)) entries server

rejected_base : (configure parse_url (some (λ _. none)) entries server).1 ≡ server
unfolding configure
rejected_base = refl

-- it encodes one configuration
abbrev pub marshal : Config → Result Bytes
marshal cfg = if same_config cfg chosen then ok (1 ∷ []) else err []

abbrev pub backend : Backend
backend = record {
  outcome = λ _. done;
  marshal = marshal;
  unmarshal_into = λ defaults raw. ok chosen;
  jsonb = λ raw. raw;
}

abbrev pub no_row : AppDb
no_row = record { content = none; turn = 0 }

get_within_enough_example : get_within backend (suc (suc 5)) no_row ≡ get_app_config backend no_row
get_within_enough_example = get_within_enough backend 5 no_row

first_config : (get_app_config backend no_row).0 ≡ ok chosen
unfolding get_app_config query_result
first_config = refl

pub marshal_chosen :
    (cfg : Config) (raw : Bytes) → marshal cfg ≡ ok raw → (ok chosen ≡ ok cfg) × (raw ≢ [])
marshal_chosen cfg raw h = elim (Bool-cases (same_config cfg chosen)) [
  | inl same ↦ (ap ok (sym (same_config-eq cfg chosen same)), λ e. cc (ok-injective (rw same at h)))
  | inr differs ↦ cc (rw differs at h)
]

saved_chosen : (update_app_config backend chosen no_row).0 ≡ none
unfolding update_app_config same_config
saved_chosen = refl
