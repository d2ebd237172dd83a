-- ===== src/Prelude/Decimal/RoundTrip.antt =====
-- Atoi undoes Itoa.
use Prim.Native.Nat.{ℕ, zero, suc, ◌+◌, ◌/◌, ◌%◌, ◌≤◌, ◌<◌}
use mathlib.Core.List.{[], ◌∷◌}
use mathlib.Core.Logic.{inl, inr}
use mathlib.Core.Option.{some}
use mathlib.Core.Path.{◌≡◌, refl, ◌∙◌}
use native.Mathlib.Numerals.{add-one}
use native.Mathlib.Omega.{arith}
use continuum_plugin_bookwar.Prelude.Tests.{ltb, Bool-cases}
use continuum_plugin_bookwar.Prelude.Text.{Bytes}
use continuum_plugin_bookwar.Prelude.Decimal.{
  ℤ, pos, negsuc, max_int, digits, itoa_ℕ, itoa, scan, scan_all, positive, negative, atoi,
}

-- reading the digits of `n`, and then `out`, is reading `out` behind `n`
scan-digits : (f n : ℕ) (out : Bytes) → n < f → scan (digits f n out) 0 ≡ scan out n
unfolding scan digits
scan-digits zero n out h = elim h [ ]
scan-digits (suc f) n out h = elim (Bool-cases (ltb n 10)) [
  | inl small ↦ ground arith
  | inr large ↦ ground (arith, scan-digits f (n / 10) ((b'0' + n % 10) ∷ out))
]

-- The text starts with a digit.
abbrev StartsWithDigit : Bytes → Type 0
StartsWithDigit [] = ⊥
StartsWithDigit (c ∷ s) = (b'0' ≤ c) × (c ≤ b'9')

digits-StartsWithDigit : (f n : ℕ) (out : Bytes) → n < f → StartsWithDigit (digits f n out)
unfolding digits
digits-StartsWithDigit zero n out h = elim h [ ]
digits-StartsWithDigit (suc f) n out h = elim (Bool-cases (ltb n 10)) [
  | inl small ↦ rw small (ground arith)
  | inr large ↦ rw large (digits-StartsWithDigit f (n / 10) ((b'0' + n % 10) ∷ out) (ground arith))
]

scan_all-scan : (s : Bytes) → StartsWithDigit s → scan_all s ≡ scan s 0
unfolding scan_all
scan_all-scan [] h = elim h [ ]
scan_all-scan (c ∷ s) h = refl

atoi-positive : (s : Bytes) → StartsWithDigit s → atoi s ≡ positive (scan_all s)
unfolding atoi
atoi-positive [] h = elim h [ ]
atoi-positive (c ∷ s) h = ground arith

scan_all-itoa_ℕ : (n : ℕ) → scan_all (itoa_ℕ n) ≡ some n
unfolding itoa_ℕ
scan_all-itoa_ℕ n =
    scan_all-scan _ (digits-StartsWithDigit (suc n) n [] (omega arith))
    ∙ scan-digits (suc n) n [] (omega arith)
    ∙ unfold scan in refl

-- The integers of int64.
abbrev pub InInt64 : ℤ → Type 0
InInt64 (pos n) = n ≤ max_int
InInt64 (negsuc n) = n ≤ max_int

-- Atoi of what Itoa prints of an int64 is that int64.
pub atoi-itoa : (z : ℤ) → InInt64 z → atoi (itoa z) ≡ some z
unfolding itoa
atoi-itoa (pos n) h =
    atoi-positive (itoa_ℕ n) (unfold itoa_ℕ in digits-StartsWithDigit (suc n) n [] (omega arith))
    ∙ rw scan_all-itoa_ℕ (unfold positive in ground arith)
atoi-itoa (negsuc n) h =
    unfold atoi in rw (scan_all-itoa_ℕ, add-one) (unfold negative in ground arith)
