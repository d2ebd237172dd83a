-- ===== src/Books/Browse/Year/Value.antt =====
-- The year that extractYear gives.
use continuum_plugin_bookwar.Prelude.{
  ℕ, ◌+◌, ◌-◌, ◌*◌, ◌≤◌, ◌≡◌, refl, String, Bool, true, false, ◌||◌, Option, none, some, [], ◌∷◌,
  Bytes, utf8, ltb, leb, eqb, pos, max_int, atoi, arith,
}
use continuum_plugin_bookwar.Books.Browse.{is_digit, find_year, year_of_match, extract_year}
use continuum_plugin_bookwar.Books.Browse.Year.{IsYear, First, find_year-First}

-- the number that four digits write
abbrev pub year_value : Bytes → ℕ
year_value (a ∷ b ∷ c ∷ d ∷ []) =
    (((0 * 10 + (a - b'0')) * 10 + (b - b'0')) * 10 + (c - b'0')) * 10 + (d - b'0')
year_value _ = 0

digit_range : (c : ℕ) → is_digit c ≡ true → (ltb c b'0' || ltb b'9' c) ≡ false
digit_range c h = ground arith

digit_unsigned : (c : ℕ) → is_digit c ≡ true → (eqb c b'-' ≡ false) × (eqb c b'+' ≡ false)
digit_unsigned c h = (ground arith, ground arith)

digit_le : (c : ℕ) → is_digit c ≡ true → c ≤ b'9'
digit_le c h = ground arith

year_small : (a b c d : ℕ) → IsYear (a ∷ b ∷ c ∷ d ∷ []) → year_value (a ∷ b ∷ c ∷ d ∷ []) ≤ 9999
year_small a b c d yr =
    omega (arith, digit_le a yr.0, digit_le b yr.1, digit_le c yr.2, digit_le d yr.3)

atoi-year : (y : Bytes) → IsYear y → (atoi y ≡ some (pos (year_value y))) × (year_value y ≤ 9999)
unfolding atoi
atoi-year [] yr = elim yr [ ]
atoi-year (a ∷ []) yr = elim yr [ ]
atoi-year (a ∷ b ∷ []) yr = elim yr [ ]
atoi-year (a ∷ b ∷ c ∷ []) yr = elim yr [ ]
atoi-year (a ∷ b ∷ c ∷ d ∷ []) yr =
    let (no_minus, no_plus) = digit_unsigned a yr.0 in
    let small = year_small a b c d yr in
    let fits : leb (year_value (a ∷ b ∷ c ∷ d ∷ [])) max_int ≡ true = ground (arith, small) in
    (
      rw
          (
            no_minus,
            no_plus,
            digit_range a yr.0,
            digit_range b yr.1,
            digit_range c yr.2,
            digit_range d yr.3,
          )
          (rw fits refl),
      small,
    )
atoi-year (a ∷ b ∷ c ∷ d ∷ e ∷ y) yr = elim yr [ ]

-- the year of a match, or 0
abbrev pub match_value : Option Bytes → ℕ
match_value none = 0
match_value (some y) = year_value y

First-IsYear : (inside : Bool) (s y : Bytes) → First inside s (some y) → IsYear y
First-IsYear inside s y (before, after, o, least) = o.year

match-value :
    (inside : Bool) (s : Bytes) (o : Option Bytes)
    → First inside s o
    → (year_of_match o ≡ pos (match_value o)) × (match_value o ≤ 9999)
unfolding year_of_match
match-value inside s none f = (refl, omega arith)
match-value inside s (some y) f =
    let (read, small) = atoi-year y (First-IsYear inside s y f) in (rw read refl, small)

-- extractYear gives the number of the first four digits of the text that have no letter a–z or
-- A–Z, digit or underscore on either side, and 0 exactly when there are none or they are 0000; it
-- is at most 9999.
pub extract_year-First :
    (s : String)
    → (o : Option Bytes) × First false (utf8 s) o
      × (extract_year s ≡ pos (match_value o))
      × (match_value o ≤ 9999)
unfolding extract_year
extract_year-First s =
    let o = find_year false (utf8 s) in
    let f = find_year-First false (utf8 s) in
    let (value, small) = match-value false (utf8 s) o f in (o, f, value, small)
