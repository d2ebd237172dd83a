-- ===== src/Books/Browse/Year.antt =====
-- The place that the regular expression of extractYear finds.
pub mod Value
use mathlib.Core.Path.{subst}
use mathlib.Core.Option.{some-injective}
use continuum_plugin_bookwar.Prelude.{
  Option-cases, ℕ, ◌+◌, ◌-◌, ◌*◌, ◌≤◌, ◌≡◌, ◌≢◌, refl, sym, ap, inl, inr, String, Bool, true, false,
  Bool-cases, ◌&&◌, ◌||◌, not, Option, none, some, [], ◌∷◌, ◌++◌, Bytes, utf8, ltb, leb, eqb, pos,
  max_int, atoi, length, arith,
}
use continuum_plugin_bookwar.Books.Browse.{
  is_digit, is_word, starts_word, year_here, find_year, year_of_match, extract_year,
}

-- Four digits.
abbrev pub IsYear : Bytes → Type 0
IsYear (a ∷ b ∷ c ∷ d ∷ []) =
    (is_digit a ≡ true) × (is_digit b ≡ true) × (is_digit c ≡ true) × (is_digit d ≡ true)
IsYear _ = ⊥

-- the last byte of the text is a word character, or `inside` for the empty text
abbrev pub ends_word : Bool → Bytes → Bool
ends_word inside [] = inside
ends_word inside (c ∷ s) = ends_word (is_word c) s

-- Four digits stand behind `before` in the text, with no word character on either side.
pub record Occurs (inside : Bool) (s before y after : Bytes) : Type 0 where
  pub split : s ≡ before ++ (y ++ after)
  pub year : IsYear y
  pub free_before : ends_word inside before ≡ false
  pub free_after : starts_word after ≡ false

-- The first such place, or there is none.
abbrev pub First : Bool → Bytes → Option Bytes → Type 0
First inside s none = (before y after : Bytes) → ¬ (Occurs inside s before y after)
First inside s (some y) =
    (before : Bytes) × (after : Bytes) × Occurs inside s before y after
    × ((before' y' after' : Bytes)
        → Occurs inside s before' y' after'
        → length before ≤ length before')

true-ne-false : true ≢ false
true-ne-false e = cc

year_test :
    (a b c d : ℕ) (s : Bytes)
    → (is_digit a && is_digit b && is_digit c && is_digit d && not (starts_word s)) ≡ true
    → (is_digit a ≡ true)
      × (is_digit b ≡ true)
      × (is_digit c ≡ true)
      × (is_digit d ≡ true)
      × (starts_word s ≡ false)
year_test a b c d s h = ground arith

Here : Bytes → Bytes → Type 0
Here s y = (after : Bytes) × (s ≡ y ++ after) × IsYear y × (starts_word after ≡ false)

year_here-some : (s y : Bytes) → year_here s ≡ some y → Here s y
unfolding year_here Here
year_here-some [] y h = cc
year_here-some (a ∷ []) y h = cc
year_here-some (a ∷ b ∷ []) y h = cc
year_here-some (a ∷ b ∷ c ∷ []) y h = cc
year_here-some (a ∷ b ∷ c ∷ d ∷ s) y h =
    let test = is_digit a && is_digit b && is_digit c && is_digit d && not (starts_word s) in
    elim (Bool-cases test) [
      | inl passed ↦
          let (ha, hb, hc, hd, free) = year_test a b c d s passed in
          let same : some (a ∷ b ∷ c ∷ d ∷ []) ≡ some y = rw passed at h in
          subst (Here (a ∷ b ∷ c ∷ d ∷ s)) (some-injective _ _ same)
            (s, refl, (ha, hb, hc, hd), free)
      | inr failed ↦ cc (rw failed at h)
    ]

year_here-append :
    (y after : Bytes) → IsYear y → starts_word after ≡ false → year_here (y ++ after) ≡ some y
unfolding year_here
year_here-append [] after yr free = elim yr [ ]
year_here-append (a ∷ []) after yr free = elim yr [ ]
year_here-append (a ∷ b ∷ []) after yr free = elim yr [ ]
year_here-append (a ∷ b ∷ c ∷ []) after yr free = elim yr [ ]
year_here-append (a ∷ b ∷ c ∷ d ∷ []) after yr free = rw (yr.0, yr.1, yr.2, yr.3, free) refl
year_here-append (a ∷ b ∷ c ∷ d ∷ e ∷ y) after yr free = elim yr [ ]

-- one more byte in front
Occurs-cons :
    (inside : Bool) (c : ℕ) (s before y after : Bytes)
    → Occurs (is_word c) s before y after
    → Occurs inside (c ∷ s) (c ∷ before) y after
Occurs-cons inside c s before y after o = record {
  split = ap (λ (t : Bytes). c ∷ t) o.split;
  year = o.year;
  free_before = o.free_before;
  free_after = o.free_after;
}

tail_eq : (c d : ℕ) (s t : Bytes) → ◌≡◌ {A = Bytes} (c ∷ s) (d ∷ t) → (c ≡ d) × (s ≡ t)
tail_eq c d s t e = (ground arith, ground arith)

Occurs-later :
    (inside : Bool) (c d : ℕ) (s before y after : Bytes)
    → Occurs inside (c ∷ s) (d ∷ before) y after
    → Occurs (is_word c) s before y after
Occurs-later inside c d s before y after o =
    let (same, rest) = tail_eq c d s _ o.split in
    record {
      split = rest;
      year = o.year;
      free_before = rw same (o.free_before);
      free_after = o.free_after;
    }

-- There is no year at the start: none is there, or a word goes on.
NotHere : Bool → Bytes → Type 0
NotHere inside s = (y after : Bytes) → ¬ (Occurs inside s [] y after)

First-cons_none :
    (inside : Bool) (c : ℕ) (s : Bytes)
    → NotHere inside (c ∷ s)
    → First (is_word c) s none
    → First inside (c ∷ s) none
unfolding NotHere
First-cons_none inside c s n f [] y after o = n y after o
First-cons_none inside c s n f (d ∷ before) y after o =
    f before y after (Occurs-later inside c d s before y after o)

First-cons :
    (inside : Bool) (c : ℕ) (s : Bytes) (o : Option Bytes)
    → NotHere inside (c ∷ s)
    → First (is_word c) s o
    → First inside (c ∷ s) o
unfolding NotHere
First-cons inside c s none n f = First-cons_none inside c s n f
First-cons inside c s (some y) n (before, after, o, least) =
    (c ∷ before, after, Occurs-cons inside c s before y after o, further)
  where
    further :
        (before' y' after' : Bytes)
        → Occurs inside (c ∷ s) before' y' after'
        → length (c ∷ before) ≤ length before'
    further [] y' after' p = absurd (n y' after' p)
    further (d ∷ before') y' after' p =
        omega (arith, least before' y' after' (Occurs-later inside c d s before' y' after' p))

IsYear-ne-nil : (before y after : Bytes) → IsYear y → ◌≢◌ {A = Bytes} [] (before ++ (y ++ after))
IsYear-ne-nil (d ∷ before) y after yr e = cc
IsYear-ne-nil [] [] after yr e = elim yr [ ]
IsYear-ne-nil [] (a ∷ y) after yr e = cc

year_here-NotHere : (s : Bytes) → year_here s ≡ none → NotHere false s
unfolding NotHere
year_here-NotHere s h y after o =
    let found = year_here-append y after o.year o.free_after in cc (rw (sym o.split) at found, h)

year_here-First : (c : ℕ) (s y : Bytes) → year_here (c ∷ s) ≡ some y → First false (c ∷ s) (some y)
unfolding Here
year_here-First c s y h =
    let (after, split, year, free) = year_here-some (c ∷ s) y h in
    (
      [],
      after,
      record { split = split; year = year; free_before = refl; free_after = free },
      λ before' y' after' p. omega arith,
    )

-- The search finds the first place where a year stands, and finds nothing only when there is none.
pub find_year-First : (inside : Bool) (s : Bytes) → First inside s (find_year inside s)
unfolding find_year
find_year-First inside [] = λ before y after o. IsYear-ne-nil before y after o.year o.split
find_year-First true (c ∷ s) =
    First-cons true c s (find_year (is_word c) s)
      (unfold NotHere in λ y after o. true-ne-false o.free_before) (find_year-First (is_word c) s)
find_year-First false (c ∷ s) = elim (Option-cases (year_here (c ∷ s))) [
  | inl none' ↦ rw none' (
      First-cons false c s (find_year (is_word c) s) (year_here-NotHere (c ∷ s) none')
        (find_year-First (is_word c) s))
  | inr (y, some') ↦ rw some' (year_here-First c s y some')
]
