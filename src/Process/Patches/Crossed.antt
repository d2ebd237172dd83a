-- ===== src/Process/Patches/Crossed.antt =====
-- Two PATCH requests whose last steps cross.
use continuum_plugin_bookwar.Prelude.{
  zero, suc, [], ◌∷◌, ℕ, ◌≡◌, refl, ap, ◌∙◌, String, Option, none, some, List, update, utf8,
}
use mathlib.Core.Option
use continuum_plugin_bookwar.Result.{ok}
use continuum_plugin_bookwar.Runtime.{Config}
use continuum_plugin_bookwar.AppConfig.{AppDb, Backend, get_app_config, update_app_config}
use continuum_plugin_bookwar.Upstream.{Client, reconfigure, set_default_cover_size}
use continuum_plugin_bookwar.Process.{StoreRef, Process}
use continuum_plugin_bookwar.Process.Saves.{set_db_same, refreshed_at}
use continuum_plugin_bookwar.Process.Admin.{
  answer, ok_json, with_key, client_at, update_client, refreshed, refresh_client,
}
use continuum_plugin_bookwar.Process.Patches.{
  Pc, asked, answered, on_client, decide, save, fetch, assign, enable, reset_client, resize, System,
  pick, Reach, here, ◌▸◌,
}
use native.Mathlib.Decide.{ℕ_discrete}

update_client-twice :
    (n : ℕ) (f g : Client → Client) (cs : List Client)
    → update_client n f (update_client n g cs) ≡ update_client n (λ c. f (g c)) cs
unfolding update_client
update_client-twice n f g [] = refl
update_client-twice zero f g (c ∷ cs) = refl
update_client-twice (suc n) f g (c ∷ cs) =
    ap (λ (ds : List Client). c ∷ ds) (update_client-twice n f g cs)

on_client-refresh_client :
    (o : Option ℕ) (next : Config) (cs : List Client)
    → on_client o
        (λ c. set_default_cover_size c next.default_cover_size)
        (on_client o (λ c. reconfigure c (utf8 next.base_url) next.api_key) cs)
      ≡ refresh_client o next cs
unfolding on_client refresh_client refreshed
on_client-refresh_client none next cs = refl
on_client-refresh_client (some ref) next cs = update_client-twice ref _ _ cs

module _ (b : Backend) where
  -- calls 0 and 1 have come, with the bodies `first` and `second`
  unfoldable pub both_asked : Config → Config → Process → System b
  both_asked first second s = record {
    process = s;
    pc = update (update (λ _. Pc.idle) 0 (asked (ok first))) 1 (asked (ok second));
  }

  -- What two answers of 200 leave: the row is the second's, and the running configuration and the
  -- client are the first's.
  pub record Crossed (first second : Config) (dsn : String) (db : AppDb) (ref : ℕ) (s : Process)
      (t : System b) : Type 0 where
    pub answers :
        (t.pc 0 ≡ answered (answer 200 ok_json)) × (t.pc 1 ≡ answered (answer 200 ok_json))
    pub row : t.process.dbs dsn ≡ db
    pub config :
        t.process.server.config ≡ record first { database_url = s.server.config.database_url }
    pub client :
        client_at ref t.process.clients
        ≡ Option.map (refreshed first) (Option.map (refreshed second) (client_at ref s.clients))

  -- the last two steps of a call
  refreshed_client :
      (o : Option ℕ) (next : Config) (cs : List Client) (ref : ℕ)
      → o ≡ some ref
      → client_at ref (
          on_client o
            (λ c. set_default_cover_size c next.default_cover_size)
            (on_client o (λ c. reconfigure c (utf8 next.base_url) next.api_key) cs))
        ≡ Option.map (refreshed next) (client_at ref cs)
  refreshed_client o next cs ref e =
      ap (client_at ref) (on_client-refresh_client o next cs) ∙ refreshed_at b o ref next cs e

  -- Of two PATCH requests that come together and whose saves succeed, the second can be the last to
  -- write the database and the first the last to change the running process, so that both answer
  -- 200, the row holds the second configuration, and the handlers and the client go by the first.
  pub both_asked-Crossed :
      (s : Process) (place : StoreRef) (ref : ℕ) (first second cur cur' : Config) (db : AppDb)
      → s.server.store ≡ some place
      → s.server.client ≡ some ref
      → (get_app_config b (s.dbs place.dsn)).0 ≡ ok cur
      → (get_app_config b (get_app_config b (s.dbs place.dsn)).1).0 ≡ ok cur'
      → update_app_config b
          (with_key b first cur)
          (get_app_config b (get_app_config b (s.dbs place.dsn)).1).1
        ≡ (none, db)
      → (update_app_config b (with_key b second cur') db).0 ≡ none
      → (t : System b) × Reach b (both_asked first second s) t
        × Crossed
            (with_key b first cur)
            (with_key b second cur')
            place.dsn
            (update_app_config b (with_key b second cur') db).1
            ref
            s
            t
  unfolding both_asked ℕ_discrete
  both_asked-Crossed s place ref first second cur cur' db there e read read' saved saved' =
      let first' = with_key b first cur in
      let second' = with_key b second cur' in
      (
        _,
        here
            ▸ pick 0 (decide there read)
            ▸ pick 1 (decide {cur = cur'} there (simp (set_db_same b place.dsn, read')))
            ▸ pick 0 (save (simp (set_db_same b place.dsn, saved)))
            ▸ pick 1 (save (simp (set_db_same b place.dsn, saved, saved')))
            ▸ pick 1 fetch
            ▸ pick 1 assign
            ▸ pick 1 enable
            ▸ pick 1 reset_client
            ▸ pick 1 resize
            ▸ pick 0 fetch
            ▸ pick 0 assign
            ▸ pick 0 enable
            ▸ pick 0 reset_client
            ▸ pick 0 resize,
        record {
          answers = (refl, refl);
          row = simp (set_db_same b place.dsn, saved);
          config = refl;
          client =
              refreshed_client s.server.client first' _ ref e
              ∙ ap (Option.map (refreshed first'))
                  (refreshed_client s.server.client second' _ ref e);
        },
      )
