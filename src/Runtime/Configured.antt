-- ===== src/Runtime/Configured.antt =====
-- What Configure leaves, and what the log shows of a configuration.
use continuum_plugin_bookwar.Prelude.{
  String, Bool, true, false, ◌≡◌, refl, inl, inr, Bool-cases, Option, none, some, Option-cases,
  List, [], ◌∷◌, ◌++◌, Bytes, ◌==◌,
}
use continuum_plugin_bookwar.Runtime.{
  Config, empty_config, configured, mask, log_value, Entry, read_entries, ParsedUrl, is_valid_base,
  Server, store_config, call_back, configure,
}

-- A secret is shown as another: both are empty, or none is.
abbrev pub SameMask : String → String → Type 0
SameMask s t = (s == "") ≡ (t == "")

-- Two configurations whose open fields are equal, and whose secrets (the DSN, the API key and the
-- signing secret) are given in both or in none, are logged alike: the log does not show a secret.
pub log_value_hides :
    (c d : Config)
    → SameMask c.database_url d.database_url
    → SameMask c.api_key d.api_key
    → SameMask c.stream_signing_secret d.stream_signing_secret
    → c.base_url ≡ d.base_url
    → c.default_cover_size ≡ d.default_cover_size
    → c.request_quality_profile ≡ d.request_quality_profile
    → c.enable_auto_monitoring ≡ d.enable_auto_monitoring
    → log_value c ≡ log_value d
unfolding log_value mask
log_value_hides c d h1 h2 h3 h4 h5 h6 h7 = simp (h1, h2, h3, h4, h5, h6, h7)

-- What Configure does: it stores the configuration without a call while there is no DSN, or
-- rejects the base URL and changes nothing, or calls the callback, and stores the configuration
-- when that has no error.
pub data Outcome (valid : Config → Bool) (on_cfg : Option (Config → Option Bytes)) (c : Config)
    (s : Server) : Option Bytes × Server → Type 0 where
  unconfigured : configured c ≡ false → Outcome valid on_cfg c s (none, record s { cfg = c })
  bad_base :
      {e : Bytes} → configured c ≡ true → valid c ≡ false → Outcome valid on_cfg c s (some e, s)
  no_callback :
      configured c ≡ true
      → valid c ≡ true
      → on_cfg ≡ none
      → Outcome valid on_cfg c s (none, record s { cfg = c })
  failed :
      {f : Config → Option Bytes} {e : Bytes}
      → configured c ≡ true
      → valid c ≡ true
      → on_cfg ≡ some f
      → f c ≡ some e
      → Outcome valid on_cfg c s (some e, record s { applied = s.applied ++ c ∷ [] })
  stored :
      {f : Config → Option Bytes}
      → configured c ≡ true
      → valid c ≡ true
      → on_cfg ≡ some f
      → f c ≡ none
      → Outcome valid on_cfg c s (none, record { cfg = c; applied = s.applied ++ c ∷ [] })

module _ (parse_url : String → Option ParsedUrl) where
  call_back-Outcome :
      (valid : Config → Bool) (o : Option (Config → Option Bytes)) (c : Config) (s : Server)
      → configured c ≡ true
      → valid c ≡ true
      → Outcome valid o c s (call_back parse_url o o c s)
  unfolding call_back store_config
  call_back-Outcome valid none c s h k = no_callback h k refl
  call_back-Outcome valid (some f) c s h k = elim (Option-cases (f c)) [
    | inl none' ↦ rw none' (stored h k refl none')
    | inr (e, some') ↦ rw some' (failed h k refl some')
  ]

  -- Configure reads the entries in their order and has one of these outcomes for them.
  pub configure-Outcome :
      (on_cfg : Option (Config → Option Bytes)) (entries : List Entry) (s : Server)
      → Outcome
          (is_valid_base parse_url on_cfg)
          on_cfg
          (read_entries empty_config entries)
          s
          (configure parse_url on_cfg entries s)
  unfolding configure store_config
  configure-Outcome on_cfg entries s =
      let c : Config = read_entries empty_config entries in
      elim (Bool-cases (c.database_url == "")) [
        | inl no_dsn ↦ rw no_dsn (unconfigured (unfold configured in simp no_dsn))
        | inr dsn ↦ elim (Bool-cases (is_valid_base parse_url on_cfg c)) [
          | inl valid ↦
              rw (dsn, valid)
                (call_back-Outcome (is_valid_base parse_url on_cfg) on_cfg c s
                  (unfold configured in simp dsn) valid)
          | inr invalid ↦ rw (dsn, invalid) (bad_base (unfold configured in simp dsn) invalid)
        ]
      ]
