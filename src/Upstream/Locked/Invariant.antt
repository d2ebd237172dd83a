-- ===== src/Upstream/Locked/Invariant.antt =====
-- What each thread that shares a client has read, internal/bookwarehouse/client.go.
use continuum_plugin_bookwar.Prelude.{
  ℕ, update, update_all, ◌≡◌, ◌≢◌, refl, sym, String, Bool-cases, inl, inr, true, false, ◌⊎◌, List,
  [], ◌∷◌, ◌++◌, Bytes, arith,
}
use continuum_plugin_bookwar.Upstream.{trim_slashes}
use mathlib.Core.List.{append_assoc}
use native.Mathlib.Decide.{ℕ_discrete}
use continuum_plugin_bookwar.Upstream.Locked.{
  Shared, Call, Pc, writes, holds, replay, idle, locked, url_written, key_written, url_read,
  pair_read, snapshot, base_read,
}

-- one of the three sizes that the upstream service knows
abbrev pub IsCoverSize : String → Type 0
IsCoverSize s = (s ≡ "thumbnail") ⊎ ((s ≡ "medium") ⊎ (s ≡ "original"))

writes-holds : (p : Pc) → writes p ≡ true → holds p ≡ true
writes-holds p w = ground arith

pub quiet_unwritten : (p : Pc) → holds p ≡ false → writes p ≡ false
quiet_unwritten p h = ground arith

module _ (first : Bytes) (key : String) where
  -- the pair that is left when the calls of the log run one after another
  abbrev pub Newest : List Call → Bytes → String → Type 0
  Newest log b k = (b ≡ (replay first key log).base_url) × (k ≡ (replay first key log).api_key)

  -- the pair that was left after some of the calls
  abbrev pub Configured : List Call → Bytes → String → Type 0
  Configured log b k = (newer older : List Call) × (log ≡ newer ++ older) × Newest older b k

  -- What a thread knows of the base URL `u`, the key `v` and the log.
  abbrev pub IsFresh : Bytes → String → List Call → Pc → Type 0
  IsFresh u v log (locked b k) = (older : List Call) × (log ≡ (b, k) ∷ older) × Newest older u v
  IsFresh u v log (url_written b k) =
      (older : List Call) × (log ≡ (b, k) ∷ older) × (u ≡ trim_slashes b)
  IsFresh u v log key_written = Newest log u v
  IsFresh u v log (url_read b) = u ≡ b
  IsFresh u v log (pair_read b k) = Newest log b k
  IsFresh u v log (snapshot b k) = Configured log b k
  IsFresh u v log (base_read b) = b ≡ (replay first key log).base_url
  IsFresh u v log _ = Unit

  pub record Inv (m : Shared) (pc : ℕ → Pc) : Type 0 where
    pub alone : (i j : ℕ) → writes (pc i) ≡ true → holds (pc j) ≡ true → i ≡ j
    pub fresh : (i : ℕ) → IsFresh m.client.base_url m.client.api_key m.log (pc i)
    pub settled :
        ((i : ℕ) → writes (pc i) ≡ false) → Newest m.log m.client.base_url m.client.api_key
    pub sized : IsCoverSize m.client.default_cover_size

  -- A thread that holds nothing knows only of the past.
  pub quiet-IsFresh :
      (u u' : Bytes) (v v' : String) (log newer : List Call) (p : Pc)
      → holds p ≡ false
      → IsFresh u v log p
      → IsFresh u' v' (newer ++ log) p
  quiet-IsFresh u u' v v' log newer idle h f = tt
  quiet-IsFresh u u' v v' log newer (snapshot b k) h (recent, older, e, f) =
      (newer ++ recent, older, rw (e, append_assoc newer recent older) refl, f)
  quiet-IsFresh u u' v v' log newer p h f = absurd cc

  -- What holds after a thread `i` has gone to `p'`.
  module _ {m : Shared} {pc : ℕ → Pc} (inv : Inv m pc) (i : ℕ) where
    open inv use {alone, fresh, settled, sized}

    -- While a thread writes, no other one holds the lock.
    pub others_free : writes (pc i) ≡ true → (j : ℕ) → i ≢ j → holds (pc j) ≡ false
    others_free w j ne = elim (Bool-cases (holds (pc j))) [
      | inl h ↦ absurd (ne (alone i j w h))
      | inr h ↦ h
    ]

    -- While a thread holds the lock, no other one writes.
    pub others_unwritten : holds (pc i) ≡ true → (j : ℕ) → i ≢ j → writes (pc j) ≡ false
    others_unwritten h j ne = elim (Bool-cases (writes (pc j))) [
      | inl w ↦ absurd (ne (sym (alone j i w h)))
      | inr w ↦ w
    ]

    -- Where the thread does not write, what it leaves unwritten was unwritten.
    pub unwritten :
        (p' : Pc)
        → writes (pc i) ≡ false
        → ((j : ℕ) → writes (update pc i p' j) ≡ false)
        → (j : ℕ) → writes (pc j) ≡ false
    unwritten p' w quiet j = ground (arith, quiet j)

    pub update-alone :
        (p' : Pc)
        → (writes p' ≡ true → (j : ℕ) → i ≢ j → holds (pc j) ≡ false)
        → (holds p' ≡ true → (j : ℕ) → i ≢ j → writes (pc j) ≡ false)
        → (a b : ℕ) → writes (update pc i p' a) ≡ true
        → holds (update pc i p' b) ≡ true
        → a ≡ b
    update-alone p' free quiet a b wa hb =
        ground
          (arith, alone a b, λ (w : writes p' ≡ true). free w b, λ (h : holds p' ≡ true). quiet h a)

    pub update-IsFresh :
        (u : Bytes) (v : String) (log : List Call) (p' : Pc)
        → IsFresh u v log p'
        → ((j : ℕ) → i ≢ j → IsFresh u v log (pc j))
        → (j : ℕ) → IsFresh u v log (update pc i p' j)
    update-IsFresh u v log p' = update_all (IsFresh u v log) pc i p'

    -- A thread that reads knows that no thread writes.
    pub reader-Newest :
        holds (pc i) ≡ true
        → writes (pc i) ≡ false
        → Newest m.log m.client.base_url m.client.api_key
    reader-Newest h w =
        settled
          (λ j. elim (ℕ_discrete i j) [ yes e ↦ rw (sym e) w | no ne ↦ others_unwritten h j ne ])

    -- A step of a thread that does not write, and changes nothing that the others read.
    pub read-Inv :
        (p' : Pc)
        → writes (pc i) ≡ false
        → writes p' ≡ false
        → (holds p' ≡ true → (j : ℕ) → i ≢ j → writes (pc j) ≡ false)
        → IsFresh m.client.base_url m.client.api_key m.log p'
        → Inv m (update pc i p')
    read-Inv p' w w' quiet own = record {
      alone = update-alone p' (λ e. absurd cc) quiet;
      fresh = update-IsFresh _ _ _ p' own (λ j ne. fresh j);
      settled = λ all. settled (unwritten p' w all);
      sized = sized;
    }

    -- A step of a thread that keeps the lock for writing.
    pub write-Inv :
        (m' : Shared) (p' : Pc)
        → writes (pc i) ≡ true
        → writes p' ≡ true
        → m'.log ≡ m.log
        → m'.client.default_cover_size ≡ m.client.default_cover_size
        → IsFresh m'.client.base_url m'.client.api_key m'.log p'
        → Inv m' (update pc i p')
    write-Inv m' p' w w' same size own = record {
      alone = update-alone p' (λ _. others_free w) (λ _. others_unwritten (writes-holds (pc i) w));
      fresh =
          update-IsFresh _ _ _ p' own
            (λ j ne. rw same (quiet-IsFresh _ _ _ _ _ [] (pc j) (others_free w j ne) (fresh j)));
      settled = λ all. absurd (ground (arith, all i));
      sized = rw size sized;
    }
