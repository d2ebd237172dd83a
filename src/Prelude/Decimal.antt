-- ===== src/Prelude/Decimal.antt =====
-- strconv.Itoa and strconv.Atoi on int64.
pub mod RoundTrip
use Prim.Native.Nat.{ℕ, zero, suc, ◌+◌, ◌-◌, ◌*◌, ◌/◌, ◌%◌, ◌^◌}
use mathlib.Core.Bool.{Bool, ◌||◌}
use mathlib.Core.List.{List, [], ◌∷◌}
use mathlib.Core.Option.{Option, none, some}
use mathlib.Core.Path.{◌≡◌, refl}
use continuum_plugin_bookwar.Prelude.Tests.{ltb, leb, eqb, if◌then◌else◌}
use continuum_plugin_bookwar.Prelude.Text.{Bytes, codes}

-- An integer; `negsuc n` is -(n + 1).
pub data ℤ : Type 0 where
  pos : ℕ → ℤ
  negsuc : ℕ → ℤ

abbrev pub max_int : ℕ
max_int = 2 ^ 63 - 1

-- One digit a round, the last one first, in front of those that follow it.
pub digits : ℕ → ℕ → Bytes → Bytes
digits zero n out = out
digits (suc f) n out =
    let rest = digits f (n / 10) ((b'0' + n % 10) ∷ out) in
    if ltb n 10 then (b'0' + n) ∷ out else rest

-- The number itself is fuel enough: each round divides it by ten.
unfoldable pub itoa_ℕ : ℕ → Bytes
unfolding digits
itoa_ℕ n = digits (suc n) n []

unfoldable pub itoa : ℤ → Bytes
unfolding itoa_ℕ
itoa (pos n) = itoa_ℕ n
itoa (negsuc n) = b'-' ∷ itoa_ℕ (n + 1)

-- the digits of `s` behind the number `n`
pub scan : Bytes → ℕ → Option ℕ
scan [] n = some n
scan (c ∷ s) n =
    let rest = scan s (n * 10 + (c - b'0')) in if ltb c b'0' || ltb b'9' c then none else rest

pub scan_all : Bytes → Option ℕ
unfolding scan
scan_all [] = none
scan_all (c ∷ s) = scan (c ∷ s) 0

-- a number out of range is an error, like one that does not parse
pub positive : Option ℕ → Option ℤ
positive none = none
positive (some n) = if leb n max_int then some (pos n) else none

pub negative : Option ℕ → Option ℤ
negative none = none
negative (some zero) = some (pos 0)
negative (some (suc n)) = if leb n max_int then some (negsuc n) else none

unfoldable pub atoi : Bytes → Option ℤ
unfolding scan_all positive negative
atoi [] = none
atoi (c ∷ s) =
    if eqb c b'-'
    then negative (scan_all s)
    else if eqb c b'+'
    then positive (scan_all s)
    else positive (scan_all (c ∷ s))

itoa_1050 : itoa (pos 1050) ≡ codes "1050"
unfolding itoa
itoa_1050 = refl

atoi_signed : atoi (codes "-12") ≡ some (negsuc 11)
unfolding atoi
atoi_signed = refl

atoi_range : atoi (codes "9223372036854775808") ≡ none
unfolding atoi
atoi_range = refl
