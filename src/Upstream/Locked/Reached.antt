-- ===== src/Upstream/Locked/Reached.antt =====
-- The reachable states of the threads that share a client, internal/bookwarehouse/client.go.
use continuum_plugin_bookwar.Prelude.{
  ℕ, update, ◌≡◌, refl, sym, String, List, false, inl, inr, [], ◌∷◌, Bytes, arith, eq_iff, to_lower,
  trim_space,
}
use continuum_plugin_bookwar.Upstream.{
  new_client, reconfigure, normalize_cover_size, set_default_cover_size,
}
use continuum_plugin_bookwar.Upstream.Locked.{
  Call, Shared, Pc, writes, holds, Move, System, Step, pick, init, Reach, start, later, replay,
  pair_read, snapshot, base_read, lock, write_url, write_key, unlock, rlock, read_url, read_key,
  runlock, resume, rlock_base, read_base, runlock_base, set_size,
}
use continuum_plugin_bookwar.Upstream.Locked.Invariant.{
  IsCoverSize, Newest, Configured, IsFresh, Inv, quiet-IsFresh, quiet_unwritten, others_unwritten,
  unwritten, update-alone, update-IsFresh, reader-Newest, read-Inv, write-Inv,
}

normalize_cover_size-IsCoverSize : (s : String) → IsCoverSize (normalize_cover_size s)
unfolding normalize_cover_size
normalize_cover_size-IsCoverSize s =
    let word = to_lower (trim_space s) in
    ground (arith, eq_iff word "thumbnail", eq_iff word "medium", eq_iff word "original")

module _ (first : Bytes) (key : String) where
  module _ {m : Shared} {pc : ℕ → Pc} (inv : Inv first key m pc) (i : ℕ) where
    open inv use {fresh, settled, sized}

    -- Thread `i` stands at `p`. A match on `Move` needs the variable `p` for `pc i`.
    record Mover (p : Pc) : Type 0 where
      own : IsFresh first key m.client.base_url m.client.api_key m.log p
      writing : writes (pc i) ≡ writes p
      holding : holds (pc i) ≡ holds p

    abbrev Free : Type 0
    Free = (j : ℕ) → holds (pc j) ≡ false

    abbrev Unwritten : Type 0
    Unwritten = (j : ℕ) → writes (pc j) ≡ false

    Move-Inv :
        {p p' : Pc} {m' : Shared}
        → Move Free Unwritten m p m' p'
        → Mover p
        → Inv first key m' (update pc i p')
    unfolding reconfigure replay set_default_cover_size
    Move-Inv (lock b k free) f = record {
      alone =
          update-alone first key inv i _ (λ _ j _. free j)
            (λ _ j _. quiet_unwritten (pc j) (free j));
      fresh =
          update-IsFresh first key inv i _ _ _ _
            (m.log, refl, settled (λ j. quiet_unwritten (pc j) (free j)))
            (λ j _. quiet-IsFresh first key _ _ _ _ _ ((b, k) ∷ []) (pc j) (free j) (fresh j));
      settled = λ all. absurd (ground (arith, all i));
      sized = sized;
    }
    Move-Inv write_url f =
        let (older, e, _) = f.own in
        write-Inv first key inv i _ _ f.writing refl refl refl (older, e, refl)
    Move-Inv write_key f =
        let (older, e, u) = f.own in
        write-Inv first key inv i _ _ f.writing refl refl refl (rw e (u, refl))
    Move-Inv unlock f = record {
      alone = update-alone first key inv i _ (λ e. absurd cc) (λ e. absurd cc);
      fresh = update-IsFresh first key inv i _ _ _ _ tt (λ j _. fresh j);
      settled = λ _. f.own;
      sized = sized;
    }
    Move-Inv (rlock free) f = read-Inv first key inv i _ f.writing refl (λ _ j _. free j) tt
    Move-Inv read_url f =
        read-Inv first key inv i _ f.writing refl (λ _. others_unwritten first key inv i f.holding)
          refl
    Move-Inv (read_key {b}) f =
        read-Inv first key inv i _ f.writing refl (λ _. others_unwritten first key inv i f.holding)
          (rw (sym f.own) (reader-Newest first key inv i f.holding f.writing))
    Move-Inv (runlock {b} {k}) f =
        read-Inv first key inv i _ f.writing refl (λ e. absurd cc) ([], m.log, refl, f.own)
    Move-Inv resume f = read-Inv first key inv i _ f.writing refl (λ e. absurd cc) tt
    Move-Inv (rlock_base free) f = read-Inv first key inv i _ f.writing refl (λ _ j _. free j) tt
    Move-Inv read_base f =
        read-Inv first key inv i _ f.writing refl (λ _. others_unwritten first key inv i f.holding)
          (reader-Newest first key inv i f.holding f.writing).0
    Move-Inv runlock_base f = read-Inv first key inv i _ f.writing refl (λ e. absurd cc) tt
    Move-Inv (set_size size) f = record {
      alone = update-alone first key inv i _ (λ e. absurd cc) (λ e. absurd cc);
      fresh = update-IsFresh first key inv i _ _ _ _ tt (λ j _. fresh j);
      settled = λ all. settled (unwritten first key inv i _ f.writing all);
      sized = normalize_cover_size-IsCoverSize size;
    }

  init-Inv : Inv first key (init first key).shared (init first key).pc
  unfolding init new_client replay
  init-Inv = record {
    alone = λ i j w h. absurd cc;
    fresh = λ i. tt;
    settled = λ _. (refl, refl);
    sized = inr (inl refl);
  }

  Step-Inv : {s t : System} → Step s t → Inv first key s.shared s.pc → Inv first key t.shared t.pc
  Step-Inv (pick i mv) inv =
      Move-Inv inv i mv (record { own = inv.fresh i; writing = refl; holding = refl })

  pub Reach-Inv : {s : System} → Reach first key s → Inv first key s.shared s.pc
  Reach-Inv start = init-Inv
  Reach-Inv (later r st) = Step-Inv st (Reach-Inv r)

-- what a thread has read, where the calls of the log have got the lock
pub Knows : Bytes → String → List Call → Pc → Type 0
Knows first key log (pair_read b k) = Newest first key log b k
Knows first key log (snapshot b k) = Configured first key log b k
Knows first key log (base_read b) = b ≡ (replay first key log).base_url
Knows first key log _ = Unit

IsFresh-Knows :
    (first : Bytes) (key : String) (u : Bytes) (v : String) (log : List Call) (p : Pc)
    → IsFresh first key u v log p
    → Knows first key log p
unfolding Knows
IsFresh-Knows first key u v log (pair_read b k) f = f
IsFresh-Knows first key u v log (snapshot b k) f = f
IsFresh-Knows first key u v log (base_read b) f = f
IsFresh-Knows first key u v log _ f = tt

-- In every interleaving of threads that configure a client and read it, the base URL and the key
-- that configSnapshot holds, and the base URL that BaseURL holds, are those that the last call of
-- Reconfigure to get the lock gave, or NewClient; the pair that configSnapshot has returned was left
-- together by one of those calls, or by NewClient; and the cover size is one of the three sizes.
pub Reach-Knows :
    {first : Bytes} {key : String} {s : System}
    → Reach first key s
    → (i : ℕ)
    → Knows first key s.shared.log (s.pc i) × IsCoverSize s.shared.client.default_cover_size
Reach-Knows {first} {key} {s} r i =
    let inv = Reach-Inv first key r in
    (
      IsFresh-Knows first key s.shared.client.base_url s.shared.client.api_key s.shared.log (s.pc i)
          (inv.fresh i),
      inv.sized,
    )
