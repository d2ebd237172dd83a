-- ===== src/AppConfig/Saved.antt =====
-- A configuration that was saved, and the fuel of GetAppConfig.
use continuum_plugin_bookwar.Prelude.{
  ◌∙◌, ℕ, suc, ◌≡◌, ◌≢◌, refl, ap, String, Bool, true, false, Option, none, some, Option-cases,
  Bool-cases, inl, inr, [], ◌∷◌, Bytes, codes, ◌==◌, arith, eq_iff,
}
use continuum_plugin_bookwar.Result.{Result, ok, err}
use continuum_plugin_bookwar.World.{Outcome, done, refused, unconfirmed, query_result}
use continuum_plugin_bookwar.Runtime.{Config}
use continuum_plugin_bookwar.AppConfig.{
  AppDb, Backend, default_app_config, given_or, same_flag, same_config, end_statement, ensured,
  exec_data, decoded, with_cover_size, from_row, get_within, get_app_config, saved,
  update_app_config,
}

ensured-some : (raw : Bytes) (o : Option Bytes) → (raw' : Bytes) × (ensured raw o ≡ some raw')
unfolding ensured
ensured-some raw none = (raw, refl)
ensured-some raw (some old) = (old, refl)

given_or-given : (s d : String) → s ≢ "" → given_or s d ≡ s
unfolding given_or
given_or-given s d h = ground (arith, eq_iff s "")

medium-given : ◌≢◌ {A = String} "medium" ""
medium-given e = cc

given_or-ne : (s : String) → given_or s "medium" ≢ ""
unfolding given_or
given_or-ne s e = elim (Bool-cases (s == "")) [
  | inl absent ↦ medium-given (rw absent at e)
  | inr given ↦ cc
]

same_flag-eq : (a c : Bool) → same_flag a c ≡ true → a ≡ c
unfolding same_flag
same_flag-eq true true h = refl
same_flag-eq true false h = cc
same_flag-eq false true h = cc
same_flag-eq false false h = refl

same_config-eq_each :
    (c d : Config)
    → same_config c d ≡ true
    → (c.database_url ≡ d.database_url)
      × (c.base_url ≡ d.base_url)
      × (c.api_key ≡ d.api_key)
      × (c.default_cover_size ≡ d.default_cover_size)
      × (c.request_quality_profile ≡ d.request_quality_profile)
      × (same_flag c.enable_auto_monitoring d.enable_auto_monitoring ≡ true)
      × (c.stream_signing_secret ≡ d.stream_signing_secret)
unfolding same_config
same_config-eq_each c d h = ground (
  arith,
  eq_iff c.database_url d.database_url,
  eq_iff c.base_url d.base_url,
  eq_iff c.api_key d.api_key,
  eq_iff c.default_cover_size d.default_cover_size,
  eq_iff c.request_quality_profile d.request_quality_profile,
  eq_iff c.stream_signing_secret d.stream_signing_secret,
)

-- Configurations that DeepEqual takes for equal are equal.
pub same_config-eq : (c d : Config) → same_config c d ≡ true → c ≡ d
same_config-eq c d h =
    let (h1, h2, h3, h4, h5, h6, h7) = same_config-eq_each c d h in
    let h6' = same_flag-eq c.enable_auto_monitoring d.enable_auto_monitoring h6 in
    λ i. record {
      database_url = h1 i;
      base_url = h2 i;
      api_key = h3 i;
      default_cover_size = h4 i;
      request_quality_profile = h5 i;
      enable_auto_monitoring = h6' i;
      stream_signing_secret = h7 i;
    }

module _ (b : Backend) where
  -- with a row there is no second call
  get_within-some :
      (n m : ℕ) (raw : Bytes) (o : Outcome) (db : AppDb)
      → db.content ≡ some raw
      → b.outcome db.turn ≡ o
      → get_within b (suc n) db ≡ get_within b (suc m) db
  unfolding get_within query_result
  get_within-some n m raw done db h k = rw (k, h) refl
  get_within-some n m raw (refused e) db h k = rw (k, h) refl
  get_within-some n m raw (unconfirmed e) db h k = rw (k, h) refl

  exec-ensured :
      (raw : Bytes) (o : Outcome) (db : AppDb)
      → b.outcome db.turn ≡ o
      → let r = exec_data b (ensured raw) db in
        r.0 ≡ none → (raw' : Bytes) × (r.1.content ≡ some raw')
  unfolding exec_data end_statement
  exec-ensured raw done db k h = rw k (ensured-some raw db.content)
  exec-ensured raw (refused e) db k h = cc (rw k at h)
  exec-ensured raw (unconfirmed e) db k h = cc (rw k at h)

  from_row-same :
      (again again' : AppDb → Result Config × AppDb) (r : Result (Option Bytes)) (db : AppDb)
      → ((raw : Bytes) (db' : AppDb) → db'.content ≡ some raw → again db' ≡ again' db')
      → from_row b again r db ≡ from_row b again' r db
  unfolding from_row
  from_row-same again again' (err e) db h = refl
  from_row-same again again' (ok (some raw)) db h = refl
  from_row-same again again' (ok none) db h =
      let r = exec_data b (ensured (b.jsonb (codes "{}"))) db in
      elim (Option-cases r.0) [
        | inl ran ↦
            let (raw, there) =
              exec-ensured (b.jsonb (codes "{}")) (b.outcome db.turn) db refl ran in
            rw ran (h raw r.1 there)
        | inr (e, failed) ↦ rw failed refl
      ]

  -- GetAppConfig calls itself at most once: with more calls the result is the same.
  pub get_within_enough : (n : ℕ) (db : AppDb) → get_within b (suc (suc n)) db ≡ get_app_config b db
  unfolding get_app_config get_within
  get_within_enough n db =
      from_row-same (get_within b (suc n)) (get_within b 1) _ _
        (λ raw db' h. get_within-some n 0 raw (b.outcome db'.turn) db' h refl)

  exec_data-ran :
      (f : Option Bytes → Option Bytes) (o : Outcome) (db : AppDb)
      → b.outcome db.turn ≡ o
      → (exec_data b f db).0 ≡ none
      → (exec_data b f db).1.content ≡ f db.content
  unfolding exec_data end_statement
  exec_data-ran f done db k h = rw k refl
  exec_data-ran f (refused e) db k h = cc (rw k at h)
  exec_data-ran f (unconfirmed e) db k h = rw k refl

  update-stores :
      (cfg : Config) (r : Result Bytes) (db : AppDb)
      → b.marshal (saved b cfg) ≡ r
      → (update_app_config b cfg db).0 ≡ none
      → (raw : Bytes) × (r ≡ ok raw) × ((update_app_config b cfg db).1.content ≡ some (b.jsonb raw))
  unfolding update_app_config
  update-stores cfg (err e) db k h = cc (rw k at h)
  update-stores cfg (ok raw) db k h =
      let put : Option Bytes → Option Bytes = λ old. some (b.jsonb raw) in
      let r = exec_data b put db in
      elim (Option-cases r.0) [
        | inl ran ↦ (raw, refl, rw (k, ran) (exec_data-ran put (b.outcome db.turn) db refl ran))
        | inr (e, failed) ↦ cc (rw (k, failed) at h)
      ]

  decoded-ok :
      (raw : Bytes) (cfg : Config)
      → b.unmarshal_into default_app_config raw ≡ ok cfg
      → raw ≢ []
      → decoded b raw ≡ ok cfg
  unfolding decoded
  decoded-ok [] cfg h ne = absurd (ne refl)
  decoded-ok (c ∷ raw) cfg h ne = rw h refl

  read_back :
      (cfg : Config) (raw : Bytes) (db : AppDb)
      → b.unmarshal_into default_app_config raw ≡ ok cfg
      → raw ≢ []
      → cfg.default_cover_size ≢ ""
      → db.content ≡ some raw
      → b.outcome db.turn ≡ done
      → (get_app_config b db).0 ≡ ok cfg
  unfolding get_app_config get_within query_result from_row
  read_back cfg raw db h ne size there k =
      rw (k, there, decoded-ok raw cfg h ne)
        (unfold with_cover_size in
          ap (λ (s : String). ok (record cfg { default_cover_size = s })) (given_or-given _ _ size))

  module _
      (reads : (cfg : Config) (raw : Bytes)
        → cfg.database_url ≡ ""
        → b.marshal cfg ≡ ok raw
        → (b.unmarshal_into default_app_config (b.jsonb raw) ≡ ok cfg) × (b.jsonb raw ≢ [])) where
    -- When a marshalled Config without a DSN is read back over the defaults as it was: after an
    -- UpdateAppConfig that reports no error, while the row stays, a GetAppConfig whose query succeeds gives what was
    -- saved, without the DSN, and with the cover size `medium` when none was given.
    pub get-update_app_config :
        (cfg : Config) (db later : AppDb)
        → (update_app_config b cfg db).0 ≡ none
        → later.content ≡ (update_app_config b cfg db).1.content
        → b.outcome later.turn ≡ done
        → (get_app_config b later).0 ≡ ok (saved b cfg)
    get-update_app_config cfg db later h same k =
        let (raw, marshalled, there) = update-stores cfg (b.marshal (saved b cfg)) db refl h in
        let (read, given) = reads (saved b cfg) raw (unfold saved in refl) marshalled in
        read_back (saved b cfg) (b.jsonb raw) later read given
          (unfold saved in given_or-ne cfg.default_cover_size) (same ∙ there) k
