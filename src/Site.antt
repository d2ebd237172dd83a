-- ===== src/Site.antt =====
-- internal/server: the handlers of the plugin's HTTP interface, and the router.
pub mod Theme
pub mod Page
pub mod Router
pub mod Steps
pub mod Alike
use continuum_plugin_bookwar.Prelude.{
  ℕ, ◌≡◌, refl, String, Bool, true, false, Option, none, some, List, [], ◌∷◌, ◌++◌, Bytes, codes,
  ◌==◌, pos, if◌then◌else◌,
}
use continuum_plugin_bookwar.Result.{Result, ok, err}
use continuum_plugin_bookwar.World.{Env, World, Act, pure, ◌>>=◌, on_result, on_error, query}
use continuum_plugin_bookwar.Runtime.{Config, provider_configured}
use continuum_plugin_bookwar.Upstream.{Client, ping}
use continuum_plugin_bookwar.Store.{RequestStats, request_stats}
use continuum_plugin_bookwar.Books.Types.{ExternalSearchHit, Codec}
use continuum_plugin_bookwar.Books.Browse.{external_search}
use continuum_plugin_bookwar.Catalog.Types.{HttpRequest}

-- {"ok": ..., "message": ...}
pub record Probe : Type 0 where
  pub is_ok : Bool
  pub message : Bytes

abbrev pub not_configured : Probe
not_configured = record { is_ok = false; message = codes "not configured" }

-- the answer of handleDiagnostics; its constant fields are left out
pub record Diagnostics : Type 0 where
  pub is_configured : Bool
  pub base_url : String
  pub auto_monitoring_enabled : Bool
  pub request_quality_profile : String
  pub upstream : Probe
  pub database : Probe
  pub requests : Option RequestStats

-- the answer of handleTestSearch
pub record TestSearch : Type 0 where
  pub result : Probe
  pub items : List ExternalSearchHit

pub record Capabilities : Type 0 where
  pub formats : List String
  pub features : List String
  pub max_concurrent_downloads : ℕ
  pub supports_range_requests : Bool

unfoldable pub capabilities : Bool → Capabilities
capabilities auto = record {
  formats = "epub" ∷ "pdf" ∷ "mobi" ∷ "azw3" ∷ [];
  features =
      ("library_source" ∷ "download_provider" ∷ "external_search" ∷ "request_snapshot"
        ∷ "admin_diagnostics" ∷ "provider_test_search" ∷ [])
      ++ (if auto then "auto_monitoring" ∷ [] else []);
  max_concurrent_downloads = 4;
  supports_range_requests = true;
}

-- a probe by the error of a call
unfoldable pub probe_of : Option Bytes → String → Probe
probe_of none reachable = record { is_ok = true; message = codes reachable }
probe_of (some e) reachable = record { is_ok = false; message = e }

-- `if requestStats, err := ...; err == nil { stats = requestStats }`
stats_of : Result RequestStats → Option RequestStats
stats_of (ok s) = some s
stats_of (err e) = none

error_text : {A : Type 0} → Result A → Option Bytes
error_text (ok a) = none
error_text (err e) = some e

module _ (env : Env) where
  unfoldable pub probe_upstream : Option Client → Act Probe
  unfolding probe_of
  probe_upstream none = pure not_configured
  probe_upstream (some c) = do failed ← ping env c; pure (probe_of failed "upstream reachable")

  -- the pool's Ping and RequestStats, when there is a store
  unfoldable pub probe_database : Bool → Act (Probe × Option RequestStats)
  unfolding probe_of stats_of error_text
  probe_database false = pure (not_configured, none)
  probe_database true = do
    pinged ← query env (λ _. tt)
    stats ← request_stats env
    pure (probe_of (error_text pinged) "database reachable", stats_of stats)

  unfoldable pub handle_diagnostics : Option Client → Bool → Config → Bool → Act Diagnostics
  unfolding probe_upstream probe_database
  handle_diagnostics client store cfg auto = do
    upstream ← probe_upstream client
    database ← probe_database store
    pure (record {
      is_configured = provider_configured cfg;
      base_url = cfg.base_url;
      auto_monitoring_enabled = auto;
      request_quality_profile = cfg.request_quality_profile;
      upstream = upstream;
      database = database.0;
      requests = database.1;
    })

  searched : Result (List ExternalSearchHit) → TestSearch
  searched (ok hits) = record {
    result = record { is_ok = true; message = codes "search completed" };
    items = hits;
  }
  searched (err e) = record { result = record { is_ok = false; message = e }; items = [] }

  abbrev query_or_foundation : String → String
  query_or_foundation q = if q == "" then "foundation" else q

  unfoldable pub handle_test_search : Codec → Option Client → HttpRequest → Act TestSearch
  unfolding searched
  handle_test_search lib none r = pure (record { result = not_configured; items = [] })
  handle_test_search lib (some c) r = do
    answer ← external_search env lib c (query_or_foundation (r.query "q")) (pos 5)
    pure (searched answer)
