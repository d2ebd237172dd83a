-- ===== src/Books/Key/Normal.antt =====
-- What normalized texts are made of, and when two books have one key.
use continuum_plugin_bookwar.Prelude.{
  ℕ, ◌≡◌, ◌≢◌, refl, ap, ◌∙◌, ◌⊎◌, inl, inr, Bool, true, false, Bool-cases, List, [], ◌∷◌, Bytes,
  eqb, arith,
}
use continuum_plugin_bookwar.Books.Key.{is_upper, is_kept, fold_runes, trim_end, normalize_runes}

-- Letters a–z, digits, and single spaces, none of them first when `start` is true.
abbrev pub Spaced : Bool → Bytes → Type 0
Spaced start [] = Unit
Spaced start (c ∷ s) =
    ((is_kept c ≡ true) × Spaced false s) ⊎ ((c ≡ b' ') × (start ≡ false) × Spaced true s)

-- no space at the end
abbrev pub Closed : Bytes → Type 0
Closed [] = Unit
Closed (c ∷ []) = c ≢ b' '
Closed (c ∷ d ∷ s) = Closed (d ∷ s)

fold_runes-Spaced : (b : Bool) (rs : List ℕ) → Spaced b (fold_runes b rs)
unfolding fold_runes
fold_runes-Spaced b [] = tt
fold_runes-Spaced b (r ∷ rs) = elim (Bool-cases (is_upper r)) [
  | inl upper ↦ rw upper (inl (ground arith, fold_runes-Spaced false rs))
  | inr other ↦ elim (Bool-cases (is_kept r)) [
    | inl kept ↦ rw (other, kept) (inl (kept, fold_runes-Spaced false rs))
    | inr skipped ↦ elim (Bool-cases b) [
      | inl after ↦ rw (other, skipped, after) (fold_runes-Spaced true rs)
      | inr before ↦ rw (other, skipped, before) (inr (refl, refl, fold_runes-Spaced true rs))
    ]
  ]
]

fold_runes_self : (b : Bool) (s : Bytes) → Spaced b s → fold_runes b s ≡ s
unfolding fold_runes
fold_runes_self b [] h = refl
fold_runes_self b (c ∷ s) (inl (kept, h)) =
    let rest = fold_runes_self false s h in
    let lower : is_upper c ≡ false = ground arith in
    rw (lower, kept) (ap (λ (x : Bytes). c ∷ x) rest)
fold_runes_self b (c ∷ s) (inr (space, start, h)) =
    rw (space, start) (ap (λ (x : Bytes). b' ' ∷ x) (fold_runes_self true s h))

trim_end-Spaced : (b : Bool) (s : Bytes) → Spaced b s → Spaced b (trim_end s)
unfolding trim_end
trim_end-Spaced b [] h = tt
trim_end-Spaced b (c ∷ []) h = elim (Bool-cases (eqb c b' ')) [
  | inl space ↦ rw space tt
  | inr other ↦ rw other h
]
trim_end-Spaced b (c ∷ d ∷ s) (inl (k, h)) = inl (k, trim_end-Spaced false (d ∷ s) h)
trim_end-Spaced b (c ∷ d ∷ s) (inr (k, e, h)) = inr (k, e, trim_end-Spaced true (d ∷ s) h)

kept-ne-space : (c : ℕ) → is_kept c ≡ true → c ≢ b' '
kept-ne-space c h e = ground arith

Closed-cons : (c : ℕ) (s : Bytes) → c ≢ b' ' → Closed s → Closed (c ∷ s)
Closed-cons c [] h k = h
Closed-cons c (d ∷ s) h k = k

Closed-cons_ne : (c : ℕ) (s : Bytes) → s ≢ [] → Closed s → Closed (c ∷ s)
Closed-cons_ne c [] h k = absurd (h refl)
Closed-cons_ne c (d ∷ s) h k = k

trim_end-ne-nil : (c : ℕ) (s : Bytes) → is_kept c ≡ true → trim_end (c ∷ s) ≢ []
unfolding trim_end
trim_end-ne-nil c [] h e = ground arith
trim_end-ne-nil c (d ∷ s) h e = cc

trim_end-Closed : (b : Bool) (s : Bytes) → Spaced b s → Closed (trim_end s)
unfolding trim_end
trim_end-Closed b [] h = tt
trim_end-Closed b (c ∷ []) h = elim (Bool-cases (eqb c b' ')) [
  | inl space ↦ rw space tt
  | inr other ↦ rw other (λ e. ground arith)
]
trim_end-Closed b (c ∷ d ∷ s) (inl (k, h)) =
    Closed-cons c (trim_end (d ∷ s)) (kept-ne-space c k) (trim_end-Closed false (d ∷ s) h)
trim_end-Closed b (c ∷ d ∷ s) (inr (k, e, inl (kept, h))) =
    Closed-cons_ne c (trim_end (d ∷ s)) (trim_end-ne-nil d s kept)
      (trim_end-Closed true (d ∷ s) (inl (kept, h)))
trim_end-Closed b (c ∷ d ∷ s) (inr (k, e, inr (_, no_start, _))) = cc

trim_end-Closed_self : (s : Bytes) → Closed s → trim_end s ≡ s
unfolding trim_end
trim_end-Closed_self [] h = refl
trim_end-Closed_self (c ∷ []) h = ground arith
trim_end-Closed_self (c ∷ d ∷ s) h = ap (λ (x : Bytes). c ∷ x) (trim_end-Closed_self (d ∷ s) h)

-- A normalized text has only the letters a–z, digits and single spaces between them, and
-- normalizing it again does not change it.
pub normalize_runes_normal :
    (rs : List ℕ)
    → Spaced true (normalize_runes rs)
      × Closed (normalize_runes rs)
      × (normalize_runes (normalize_runes rs) ≡ normalize_runes rs)
unfolding normalize_runes
normalize_runes_normal rs =
    let spaced = fold_runes-Spaced true rs in
    let spaced' = trim_end-Spaced true _ spaced in
    let closed = trim_end-Closed true _ spaced in
    (spaced', closed, ap trim_end (fold_runes_self true _ spaced') ∙ trim_end-Closed_self _ closed)
