-- ===== src/Process/Patches/Sound.antt =====
-- What the handlers and the client go by while PATCH requests interleave.
use mathlib.Core.Option
use continuum_plugin_bookwar.Prelude.{ℕ, ◌≡◌, ◌⊎◌, String, Option, none, some, utf8}
use continuum_plugin_bookwar.Runtime.{Config}
use continuum_plugin_bookwar.AppConfig.{Backend, update_app_config}
use continuum_plugin_bookwar.Upstream.{Client, trim_slashes}
use continuum_plugin_bookwar.Process.{Process}
use continuum_plugin_bookwar.Process.Admin.{client_at}
use continuum_plugin_bookwar.Process.Patches.{
  Pc, idle, stored, assigned, reconfigured, fetched, enabled, System, Reach,
}

module _ (b : Backend) (p : Process) where
  -- the calls have not come
  abbrev pub begun : System b
  begun = record { process = p; pc = λ _. idle }

  -- UpdateAppConfig has stored the configuration with no error, in a state of the run.
  abbrev pub IsSaved : Config → Type 0
  IsSaved next =
      (u : System b) × Reach b begun u
      × (dsn : String) × ((update_app_config b next (u.process.dbs dsn)).0 ≡ none)

  -- base URL and key come from one configuration: that of `c`, or a saved one
  abbrev pub IsPair : Client → Client → Type 0
  IsPair c d =
      ((d.base_url ≡ c.base_url) × (d.api_key ≡ c.api_key))
      ⊎ ((next : Config) × IsSaved next
          × (d.base_url ≡ trim_slashes (utf8 next.base_url))
          × (d.api_key ≡ next.api_key))

  -- a saved configuration with another DSN
  abbrev IsSavedBut : Config → Type 0
  IsSavedBut next =
      (was : Config) × IsSaved was × (next.base_url ≡ was.base_url) × (next.api_key ≡ was.api_key)

  -- what a call goes on to use
  abbrev Given : Pc → Type 0
  Given (stored next) = IsSaved next
  Given (fetched next) = IsSavedBut next × (next.database_url ≡ p.server.config.database_url)
  Given (assigned next) = IsSavedBut next
  Given (enabled next) = IsSavedBut next
  Given (reconfigured next) = IsSavedBut next
  Given _ = Unit

  module _ (ref : ℕ) (c : Client) where
    pub record IsSound (t : Process) : Type 0 where
      pub same_store : t.server.store ≡ p.server.store
      pub same_ref : t.server.client ≡ some ref
      pub same_url : t.server.config.database_url ≡ p.server.config.database_url
      pub client : (d : Client) × (client_at ref t.clients ≡ some d) × IsPair c d
