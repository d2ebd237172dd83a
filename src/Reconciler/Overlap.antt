-- ===== src/Reconciler/Overlap.antt =====
-- Ticks that overlap, internal/reconciler/reconciler.go and internal/scheduler/server.go: Run loads
-- the current Reconciler, whose tickMu the call tries to lock; each Configure makes a new one.
use continuum_plugin_bookwar.Prelude.{
  ℕ, suc, ◌≡◌, ◌≢◌, ◌↔◌, eqb, refl, sym, Bool, true, false, Option, none, some, update, arith,
}
use mathlib.Core.HLevel.{Σ_prop_path}
use native.Mathlib.Decide.{ℕ_discrete}

-- the Reconcilers, by number, of which those from `made` on are not made yet, and their locks
pub record Shared : Type 0 where
  pub made : ℕ
  pub current : Option ℕ  -- reconcilerPtr
  pub locked : ℕ → Bool

-- Where a call of Run stands.
pub data Pc : Type 0 where
  idle : Pc
  loaded : (r : ℕ) → Pc  -- before `TryLock`
  inside : (r : ℕ) → Pc  -- between `TryLock` and `Unlock`

abbrev pub is_inside : ℕ → Pc → Bool
is_inside r (inside q) = eqb q r
is_inside r _ = false

-- One step of a call, or, from `idle`, of a Configure.
pub data Move (m : Shared) : Pc → Shared → Pc → Type 0 where
  load : {r : ℕ} → m.current ≡ some r → Move m idle m (loaded r)
  -- the call returns nil
  drop : {r : ℕ} → m.locked r ≡ true → Move m (loaded r) m idle
  enter :
      {r : ℕ}
      → m.locked r ≡ false
      → Move m (loaded r) (record m { locked = update m.locked r true }) (inside r)
  leave : {r : ℕ} → Move m (inside r) (record m { locked = update m.locked r false }) idle
  -- `reconcilerPtr.Store(reconciler.New(...))`
  configure : Move m idle (record m { made = suc m.made; current = some m.made }) idle

pub record System : Type 0 where
  pub shared : Shared
  pub pc : ℕ → Pc

pub data Step (s : System) : System → Type 0 where
  pick :
      (i : ℕ) {m : Shared} {p : Pc}
      → Move s.shared (s.pc i) m p
      → Step s (record { shared = m; pc = update s.pc i p })

unfoldable pub init : System
init = record { shared = record { made = 0; current = none; locked = λ _. false }; pc = λ _. idle }

pub data Reach : System → Type 0 where
  start : Reach init
  later : {s t : System} → Reach s → Step s t → Reach t

-- Which calls run the body of Tick.
pub record Inv (m : Shared) (pc : ℕ → Pc) : Type 0 where
  pub held : (i r : ℕ) → pc i ≡ inside r → m.locked r ≡ true
  pub alone : (i j r : ℕ) → pc i ≡ inside r → pc j ≡ inside r → i ≡ j
  pub busy : (r : ℕ) → m.locked r ≡ true → (i : ℕ) × (pc i ≡ inside r)

-- a step that locks and unlocks nothing
away-Inv :
    {m m' : Shared} {pc : ℕ → Pc} (i : ℕ) (p p' : Pc)
    → ((r : ℕ) → p ≢ inside r)
    → ((r : ℕ) → p' ≢ inside r)
    → m'.locked ≡ m.locked
    → pc i ≡ p
    → Inv m pc
    → Inv m' (update pc i p')
away-Inv i p p' ne ne' same at inv = record {
  held = λ j r h. ground (arith, inv.held j r, ne' r);
  alone = λ j k r h h'. ground (arith, inv.alone j k r, ne' r);
  busy = λ r h. let (j, there) = inv.busy r (rw (sym same) h) in (j, ground (arith, ne r));
}

Move-Inv :
    {m m' : Shared} {pc : ℕ → Pc} {p p' : Pc} (i : ℕ)
    → Move m p m' p'
    → pc i ≡ p
    → Inv m pc
    → Inv m' (update pc i p')
Move-Inv i (load e) at inv = away-Inv i _ _ (λ r. λ e. cc) (λ r. λ e. cc) refl at inv
Move-Inv i (drop e) at inv = away-Inv i _ _ (λ r. λ e. cc) (λ r. λ e. cc) refl at inv
Move-Inv i configure at inv = away-Inv i _ _ (λ r. λ e. cc) (λ r. λ e. cc) refl at inv
Move-Inv i (enter {r} e) at inv = record {
  held = λ j q h. ground (arith, inv.held j q);
  alone = λ j k q h h'. ground (arith, inv.alone j k q, inv.held j r, inv.held k r);
  busy = λ q h. elim (ℕ_discrete r q) [
    | yes here ↦ (i, ground arith)
    | no other ↦ let (j, there) = inv.busy q (ground arith) in (j, ground arith)
  ];
}
Move-Inv i (leave {r}) at inv = record {
  held = λ j q h. ground (arith, inv.held j q, inv.alone i j r);
  alone = λ j k q h h'. ground (arith, inv.alone j k q);
  busy = λ q h. elim (ℕ_discrete r q) [
    | yes here ↦ absurd (ground arith)
    | no other ↦ let (j, there) = inv.busy q (ground arith) in (j, ground arith)
  ];
}

Reach-Inv : {s : System} → Reach s → Inv s.shared s.pc
unfolding init
Reach-Inv start = record {
  held = λ i r h. absurd cc;
  alone = λ i j r h. absurd cc;
  busy = λ r h. absurd cc;
}
Reach-Inv (later r (pick i mv)) = Move-Inv i mv refl (Reach-Inv r)

is_inside-eq : (r : ℕ) (p : Pc) → is_inside r p ≡ true → p ≡ inside r
is_inside-eq r p h = ground arith

-- However calls of Run and of Configure interleave, the lock of a Reconciler is taken, and another
-- call of its Tick dropped, exactly while a call runs its body; and no two calls run it at once.
pub Reach-IsProp :
    {s : System}
    → Reach s
    → (r : ℕ)
    → ((s.shared.locked r ≡ true) ↔ ((i : ℕ) × (is_inside r (s.pc i) ≡ true)))
      × IsProp ((i : ℕ) × (is_inside r (s.pc i) ≡ true))
Reach-IsProp {s} reach r = (
  (
    λ h. let (i, there) = inv.busy r h in (i, ground arith),
    λ x. inv.held x.0 r (is_inside-eq r (s.pc x.0) x.1),
  ),
  λ x y.
      Σ_prop_path (λ i. hlevel)
        (inv.alone x.0 y.0 r (is_inside-eq r (s.pc x.0) x.1) (is_inside-eq r (s.pc y.0) y.1)),
)
  where
    inv : Inv s.shared s.pc
    inv = Reach-Inv reach
