-- ===== src/Examples/Threads.antt =====
-- Interleaved threads and chains of redirects at concrete data.
use continuum_plugin_bookwar.Prelude.{
  true, ◌↔◌, ℕ, ◌≤◌, ◌≡◌, refl, none, some, false, [], ◌∷◌, codes, length, All, arith,
}
use continuum_plugin_bookwar.Upstream.{trim_slashes}
use continuum_plugin_bookwar.Upstream.Redirect.{
  Hop, start, redirected, check_redirect, Keyed, Chain-Keyed,
}
use continuum_plugin_bookwar.Reconciler.Overlap
use continuum_plugin_bookwar.Reconciler.Overlap.{is_inside, Reach-IsProp}
use continuum_plugin_bookwar.Upstream.Locked
use continuum_plugin_bookwar.Upstream.Locked.{
  System, Reach, ◌▸◌, pick, init, writes, holds, lock, write_url, write_key, unlock, rlock,
  read_url, read_key, pair_read, snapshot,
}
use native.Mathlib.Decide.{ℕ_discrete}
use continuum_plugin_bookwar.Upstream.Locked.Invariant.{IsCoverSize}
use continuum_plugin_bookwar.Upstream.Locked.Reached.{Knows, Reach-Knows}

abbrev asked : Hop
asked = record { scheme = "https"; host = "books"; api_key = some "secret" }

abbrev elsewhere : Hop
elsewhere = record { scheme = "http"; host = "mirror"; api_key = none }

abbrev back : Hop
back = record { scheme = "http"; host = "books"; api_key = some "secret" }

-- to another host, and from there to the first one
Chain-Keyed_example :
    (length (elsewhere ∷ back ∷ []) ≤ 9) × All (Keyed asked) (elsewhere ∷ back ∷ [])
unfolding check_redirect
Chain-Keyed_example =
    Chain-Keyed asked (elsewhere ∷ back ∷ [])
      (redirected "http" "books" (redirected "http" "mirror" start refl) refl)

record Run : Type 0 where
  last : System
  reach : Reach (codes "http://old/") "k1" last

-- thread 0 has the lock
abbrev writing : Run
unfolding init ℕ_discrete
writing = record {
  last = _;
  reach = Locked.start ▸ pick 0 (lock (codes "http://new/") "k2" (λ j. refl));
}

-- thread 0 has configured the client
abbrev configured : Run
unfolding init ℕ_discrete
configured = record {
  last = _;
  reach = writing.reach ▸ pick 0 write_url ▸ pick 0 write_key ▸ pick 0 unlock;
}

configured_unwritten : (j : ℕ) → writes (configured.last.pc j) ≡ false
unfolding init ℕ_discrete
configured_unwritten j = ground arith

-- thread 1 has read the pair
abbrev paired : Run
unfolding init ℕ_discrete
paired = record {
  last = _;
  reach =
      configured.reach ▸ pick 1 (rlock configured_unwritten) ▸ pick 1 read_url ▸ pick 1 read_key;
}

Reach-Knows_example :
    Knows (codes "http://old/") "k1" paired.last.shared.log (paired.last.pc 1)
    × IsCoverSize paired.last.shared.client.default_cover_size
Reach-Knows_example = Reach-Knows paired.reach 1

-- the pair that is read, in that state
paired_read : paired.last.pc 1 ≡ pair_read (codes "http://new") "k2"
unfolding init ℕ_discrete trim_slashes
paired_read = refl

record Ticks : Type 0 where
  last : Overlap.System
  reach : Overlap.Reach last

-- a Reconciler is made, and call 0 runs its body
abbrev ticking : Ticks
unfolding Overlap.init ℕ_discrete
ticking = record {
  last = _;
  reach =
      Overlap.later
        (Overlap.later (Overlap.later Overlap.start (Overlap.pick 0 Overlap.configure))
          (Overlap.pick 0 (Overlap.load refl)))
        (Overlap.pick 0 (Overlap.enter refl));
}

Reach-IsProp_example :
    ((ticking.last.shared.locked 0 ≡ true) ↔ ((i : ℕ) × (is_inside 0 (ticking.last.pc i) ≡ true)))
    × IsProp ((i : ℕ) × (is_inside 0 (ticking.last.pc i) ≡ true))
Reach-IsProp_example = Reach-IsProp ticking.reach 0

-- a Configure while call 0 runs, and a tick after it
abbrev reconfigured : Ticks
unfolding Overlap.init ℕ_discrete
reconfigured = record {
  last = _;
  reach =
      Overlap.later
        (Overlap.later (Overlap.later ticking.reach (Overlap.pick 1 Overlap.configure))
          (Overlap.pick 1 (Overlap.load refl)))
        (Overlap.pick 1 (Overlap.enter refl));
}

-- Two calls run bodies at once, of two Reconcilers.
two_ticks :
    (reconfigured.last.pc 0 ≡ Overlap.inside 0) × (reconfigured.last.pc 1 ≡ Overlap.inside 1)
unfolding Overlap.init ℕ_discrete
two_ticks = (refl, refl)
