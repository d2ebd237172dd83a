-- ===== src/Process/Saves.antt =====
-- What a save of the administrator changes.
use mathlib.Core.Option
use continuum_plugin_bookwar.Prelude.{
  ap, ◌∙◌, ℕ, zero, suc, ◌≡◌, ◌≢◌, refl, inl, inr, String, Option, none, some, Option-cases, List,
  [], ◌∷◌, Bytes, ◌==◌, eq_refl, eq_iff, Bool-cases, false, arith,
}
use continuum_plugin_bookwar.Result.{Result, ok, err}
use continuum_plugin_bookwar.World.{done}
use continuum_plugin_bookwar.Runtime.{Config}
use continuum_plugin_bookwar.AppConfig.{
  AppDb, Backend, default_app_config, given_or, get_app_config, saved, update_app_config,
}
use continuum_plugin_bookwar.AppConfig.Saved.{get-update_app_config}
use continuum_plugin_bookwar.Upstream.{Client}
use continuum_plugin_bookwar.Process.{StoreRef, Process, set_db}
use continuum_plugin_bookwar.Process.Admin.{
  client_at, update_client, refreshed, refresh_client, with_key, apply_config, save_config,
  read_body, update_stored, handle_update_config,
}

pub client_at-update_client :
    (n : ℕ) (f : Client → Client) (cs : List Client)
    → client_at n (update_client n f cs) ≡ Option.map f (client_at n cs)
unfolding client_at update_client
client_at-update_client n f [] = refl
client_at-update_client zero f (c ∷ cs) = refl
client_at-update_client (suc n) f (c ∷ cs) = client_at-update_client n f cs

not_eq : (s : String) → s ≢ "" → (s == "") ≡ false
not_eq s ne = elim (Bool-cases (s == "")) [
  | inl same ↦ absurd (ne ((eq_iff s "").0 same))
  | inr other ↦ other
]

module _ (b : Backend) where
  -- What a save has changed: `next` is the decoded body, and `cur` what was stored before.
  pub record Saves (dsn : String) (next cur : Config) (s s' : Process) : Type 0 where
    -- while the row stays, a read that succeeds gives the body, with the old key where it has none
    pub stored :
        (later : AppDb)
        → later.content ≡ (s'.dbs dsn).content
        → b.outcome later.turn ≡ done
        → (get_app_config b later).0 ≡ ok (saved b (with_key b next cur))
    pub key_kept : next.api_key ≡ "" → (with_key b next cur).api_key ≡ cur.api_key
    pub key_given : next.api_key ≢ "" → (with_key b next cur).api_key ≡ next.api_key
    -- of the old configuration nothing but the key is kept
    pub secret : (saved b (with_key b next cur)).stream_signing_secret ≡ next.stream_signing_secret
    pub client :
        (ref : ℕ)
        → s.server.client ≡ some ref
        → client_at ref s'.clients
          ≡ Option.map (refreshed (with_key b next cur)) (client_at ref s.clients)
    -- the handlers of the catalogue keep the secret that they have
    pub same_secret : s'.server.secret ≡ s.server.secret
    pub parts : (s'.consumer ≡ s.consumer) × (s'.reconciler ≡ s.reconciler)

  pub refreshed_at :
      (o : Option ℕ) (ref : ℕ) (next : Config) (cs : List Client)
      → o ≡ some ref
      → client_at ref (refresh_client o next cs) ≡ Option.map (refreshed next) (client_at ref cs)
  unfolding refresh_client
  refreshed_at o ref next cs h = rw h (client_at-update_client ref (refreshed next) cs)

  pub set_db_same : (dsn : String) (db : AppDb) (dbs : String → AppDb) → set_db dsn db dbs dsn ≡ db
  unfolding set_db
  set_db_same dsn db dbs = simp eq_refl

  module _
      (reads : (cfg : Config) (raw : Bytes)
        → cfg.database_url ≡ ""
        → b.marshal cfg ≡ ok raw
        → (b.unmarshal_into default_app_config (b.jsonb raw) ≡ ok cfg) × (b.jsonb raw ≢ [])) where
    save_config-Saves :
        (dsn : String) (next cur : Config) (s : Process)
        → (save_config b dsn (with_key b next cur) s).0.status ≡ 200
        → Saves dsn next cur s (save_config b dsn (with_key b next cur) s).1
    unfolding save_config apply_config
    save_config-Saves dsn next cur s h =
        let new = with_key b next cur in
        let r = update_app_config b new (s.dbs dsn) in
        elim (Option-cases r.0) [
          | inr (e, failed) ↦ absurd (omega (arith, rw failed at h))
          | inl fine ↦
              let same = set_db_same dsn r.1 s.dbs in
              rw fine (record {
                stored = λ later kept k.
                    get-update_app_config b reads new (s.dbs dsn) later fine
                      (kept ∙ ap (λ (db : AppDb). db.content) same) k;
                key_kept = λ e. unfold with_key given_or in rw e refl;
                key_given = λ ne. unfold with_key given_or in rw (not_eq next.api_key ne) refl;
                secret = unfold saved with_key in refl;
                client = λ ref h. refreshed_at s.server.client ref new s.clients h;
                same_secret = refl;
                parts = (refl, refl);
              })
        ]

    -- A save has read what is stored, decoded the body, and written.
    pub record Saved (body : Result Config) (s s' : Process) : Type 0 where
      pub place : StoreRef
      pub next : Config
      pub cur : Config
      pub server_store : s.server.store ≡ some place
      pub decoded : body ≡ ok next
      pub current : (get_app_config b (s.dbs place.dsn)).0 ≡ ok cur
      pub saves : Saves place.dsn next cur s s'

    read_body-Saves :
        (dsn : String) (r body : Result Config) (s : Process)
        → (read_body b dsn r body s).0.status ≡ 200
        → (next : Config) × (cur : Config) × (r ≡ ok cur)
          × (body ≡ ok next)
          × Saves dsn next cur s (read_body b dsn r body s).1
    unfolding read_body
    read_body-Saves dsn (err e) body s h = absurd (omega (arith, h))
    read_body-Saves dsn (ok cur) (err e) s h = absurd (omega (arith, h))
    read_body-Saves dsn (ok cur) (ok next) s h =
        (next, cur, refl, refl, save_config-Saves dsn next cur s h)

    update_stored-Saved :
        (o : Option StoreRef) (body : Result Config) (s : Process)
        → s.server.store ≡ o
        → (update_stored b o body s).0.status ≡ 200
        → Saved body s (update_stored b o body s).1
    unfolding update_stored
    update_stored-Saved none body s k h = absurd (omega (arith, h))
    update_stored-Saved (some store) body s k h =
        let (r, db) = get_app_config b (s.dbs store.dsn) in
        let s1 : Process = record s { dbs = set_db store.dsn db s.dbs } in
        let (next, cur, read, decoded, saves) = read_body-Saves store.dsn r body s1 h in
        record {
          place = store;
          next = next;
          cur = cur;
          server_store = k;
          decoded = decoded;
          current = read;
          saves = record {
            stored = saves.stored;
            key_kept = saves.key_kept;
            key_given = saves.key_given;
            secret = saves.secret;
            client = saves.client;
            same_secret = saves.same_secret;
            parts = saves.parts;
          };
        }

    -- When a marshalled Config without a DSN is read back over the defaults as it was: a PATCH of
    -- the configuration that answers 200 has stored the decoded body, with the stored API key
    -- where the body has none. The signing secret is the body's, so a body without one erases it.
    -- The client that the server refers to has the new base URL, key and cover size, and the
    -- consumer and the reconciler keep their references. The handlers of the catalogue keep the
    -- signing secret that they had.
    pub handle_update_config-Saved :
        (body : Result Config) (s : Process)
        → (handle_update_config b body s).0.status ≡ 200
        → Saved body s (handle_update_config b body s).1
    unfolding handle_update_config
    handle_update_config-Saved body s h = update_stored-Saved s.server.store body s refl h
