-- ===== src/Upstream/Locked.antt =====
-- The lock of the client, internal/bookwarehouse/client.go: Reconfigure, BaseURL, configSnapshot and
-- SetDefaultCoverSize as threads that share one Client, an access at a time.
pub mod Invariant
pub mod Reached
use continuum_plugin_bookwar.Prelude.{
  ℕ, ◌≡◌, String, Bool, true, false, List, [], ◌∷◌, Bytes, update,
}
use continuum_plugin_bookwar.Upstream.{
  Client, new_client, reconfigure, set_default_cover_size, trim_slashes,
}

-- the arguments of a call of Reconfigure
abbrev pub Call : Type 0
Call = Bytes × String

-- the client, and the calls of Reconfigure that have got the lock, newest first
pub record Shared : Type 0 where
  pub client : Client
  pub log : List Call

-- Where a thread stands, with what it has read.
pub data Pc : Type 0 where
  idle : Pc
  -- Reconfigure, from the return of `Lock` on
  locked : (base_url : Bytes) (api_key : String) → Pc
  url_written : (base_url : Bytes) (api_key : String) → Pc
  key_written : Pc
  -- configSnapshot, from the return of `RLock` on
  rlocked : Pc
  url_read : (base_url : Bytes) → Pc
  pair_read : (base_url : Bytes) (api_key : String) → Pc
  snapshot : (base_url : Bytes) (api_key : String) → Pc  -- returned
  -- BaseURL, from the return of `RLock` on
  base_rlocked : Pc
  base_read : (base_url : Bytes) → Pc

-- between `Lock` and `Unlock`
abbrev pub writes : Pc → Bool
writes (locked _ _) = true
writes (url_written _ _) = true
writes key_written = true
writes _ = false

-- between `Lock` and `Unlock`, or `RLock` and `RUnlock`
abbrev pub holds : Pc → Bool
holds idle = false
holds (snapshot _ _) = false
holds _ = true

-- One step of a thread. sync.RWMutex lets `Lock` return only if no thread holds the lock (`Free`),
-- and `RLock` only if none holds it for writing (`Unwritten`). defaultCoverSize is atomic.
pub data Move (Free Unwritten : Type 0) (m : Shared) : Pc → Shared → Pc → Type 0 where
  lock :
      (b : Bytes) (k : String)
      → Free
      → Move Free Unwritten m idle (record m { log = (b, k) ∷ m.log }) (locked b k)
  write_url :
      {b : Bytes} {k : String}
      → Move Free Unwritten m
          (locked b k)
          (record m { client = record (m.client) { base_url = trim_slashes b } })
          (url_written b k)
  write_key :
      {b : Bytes} {k : String}
      → Move Free Unwritten m
          (url_written b k)
          (record m { client = record (m.client) { api_key = k } })
          key_written
  unlock : Move Free Unwritten m key_written m idle
  rlock : Unwritten → Move Free Unwritten m idle m rlocked
  read_url : Move Free Unwritten m rlocked m (url_read m.client.base_url)
  read_key : {b : Bytes} → Move Free Unwritten m (url_read b) m (pair_read b m.client.api_key)
  runlock : {b : Bytes} {k : String} → Move Free Unwritten m (pair_read b k) m (snapshot b k)
  resume : {b : Bytes} {k : String} → Move Free Unwritten m (snapshot b k) m idle
  rlock_base : Unwritten → Move Free Unwritten m idle m base_rlocked
  read_base : Move Free Unwritten m base_rlocked m (base_read m.client.base_url)
  runlock_base : {b : Bytes} → Move Free Unwritten m (base_read b) m idle
  set_size :
      (size : String)
      → Move Free Unwritten m idle (record m { client = set_default_cover_size m.client size }) idle

pub record System : Type 0 where
  pub shared : Shared
  pub pc : ℕ → Pc

pub data Step (s : System) : System → Type 0 where
  pick :
      (i : ℕ) {m : Shared} {p : Pc}
      → Move
          ((j : ℕ) → holds (s.pc j) ≡ false)
          ((j : ℕ) → writes (s.pc j) ≡ false)
          s.shared
          (s.pc i)
          m
          p
      → Step s (record { shared = m; pc = update s.pc i p })

-- NewClient
unfoldable pub init : Bytes → String → System
init b k = record { shared = record { client = new_client b k; log = [] }; pc = λ _. idle }

-- the states that any number of threads reach, interleaved in any order
pub data Reach (b : Bytes) (k : String) : System → Type 0 where
  start : Reach b k (init b k)
  later : {s t : System} → Reach b k s → Step s t → Reach b k t

infixl 5 ◌▸◌
-- a further step
abbrev pub ◌▸◌ : {b : Bytes} {k : String} {s t : System} → Reach b k s → Step s t → Reach b k t
r ▸ st = later r st

-- the client that NewClient and the calls leave when each of them runs alone
unfoldable pub replay : Bytes → String → List Call → Client
replay b k [] = new_client b k
replay b k ((c, l) ∷ log) = reconfigure (replay b k log) c l
