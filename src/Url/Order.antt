-- ===== src/Url/Order.antt =====
-- The order of the keys of a query.
use Prim.Native.Nat.{Ordering, compare as compare_ℕ}
use Prim.Native.Nat.compare as compare_ℕ
use Prim.Native.Char.{code}
use Prim.Native.String.{then, compare}
use Prim.Native.String.compare
use text.Mathlib.Text.{is_le}
use native.Mathlib.Omega.{compare-lt, compare-eq}
use text.Mathlib.TextEquality.{path_by_compare}
use continuum_plugin_bookwar.Prelude.{
  ℕ, zero, suc, ◌<◌, arith, ◌≡◌, ◌≢◌, refl, sym, ◌∙◌, ◌⊎◌, inl, inr, String, true, false,
}

flip : Ordering → Ordering
flip Ordering.lt = Ordering.gt
flip Ordering.eq = Ordering.eq
flip Ordering.gt = Ordering.lt

then-flip : (a b : Ordering) → then (flip a) (flip b) ≡ flip (then a b)
unfolding flip
then-flip Ordering.lt b = refl
then-flip Ordering.eq b = refl
then-flip Ordering.gt b = refl

number_flip : (m n : ℕ) → compare_ℕ n m ≡ flip (compare_ℕ m n)
unfolding flip
number_flip zero zero = rw compare_ℕ.zero-zero refl
number_flip zero (suc n) = rw (compare_ℕ.zero-suc n, compare_ℕ.suc-zero n) refl
number_flip (suc m) zero = rw (compare_ℕ.zero-suc m, compare_ℕ.suc-zero m) refl
number_flip (suc m) (suc n) = rw (compare_ℕ.suc-suc m n, compare_ℕ.suc-suc n m) (number_flip m n)

compare-flip : (s t : String) → compare t s ≡ flip (compare s t)
unfolding flip
compare-flip String.[] String.[] = rw compare.nil-nil refl
compare-flip String.[] (String.◌∷◌ d t) = rw (compare.nil-cons d t, compare.cons-nil d t) refl
compare-flip (String.◌∷◌ c s) String.[] = rw (compare.nil-cons c s, compare.cons-nil c s) refl
compare-flip (String.◌∷◌ c s) (String.◌∷◌ d t) =
    rw
      (
        compare.cons-cons c d s t,
        compare.cons-cons d c t s,
        number_flip (code c) (code d),
        compare-flip s t,
      )
      (then-flip (compare_ℕ (code c) (code d)) (compare s t))

number_lt : (a b : ℕ) → a < b → compare_ℕ a b ≡ Ordering.lt
number_lt zero zero h = absurd (omega (arith, h))
number_lt zero (suc b) h = compare_ℕ.zero-suc b
number_lt (suc a) zero h = absurd (omega (arith, h))
number_lt (suc a) (suc b) h = rw (compare_ℕ.suc-suc a b) (number_lt a b (omega (arith, h)))

number_trans :
    (a b c : ℕ)
    → compare_ℕ a b ≡ Ordering.lt
    → compare_ℕ b c ≡ Ordering.lt
    → compare_ℕ a c ≡ Ordering.lt
number_trans a b c h k = number_lt a c (omega (arith, compare-lt a b h, compare-lt b c k))

then_lt :
    (o r : Ordering)
    → then o r ≡ Ordering.lt
    → (o ≡ Ordering.lt) ⊎ ((o ≡ Ordering.eq) × (r ≡ Ordering.lt))
then_lt Ordering.lt r h = inl refl
then_lt Ordering.eq r h = inr (refl, h)
then_lt Ordering.gt r h = cc

lt-ne-gt : Ordering.lt ≢ Ordering.gt
lt-ne-gt e = cc

compare_trans :
    (s t u : String)
    → compare s t ≡ Ordering.lt
    → compare t u ≡ Ordering.lt
    → compare s u ≡ Ordering.lt
compare_trans String.[] String.[] u h k = k
compare_trans String.[] (String.◌∷◌ d t) String.[] h k = cc (sym k ∙ compare.cons-nil d t)
compare_trans String.[] (String.◌∷◌ d t) (String.◌∷◌ e u) h k = compare.nil-cons e u
compare_trans (String.◌∷◌ c s) String.[] u h k = cc (sym h ∙ compare.cons-nil c s)
compare_trans (String.◌∷◌ c s) (String.◌∷◌ d t) String.[] h k = cc (sym k ∙ compare.cons-nil d t)
compare_trans (String.◌∷◌ c s) (String.◌∷◌ d t) (String.◌∷◌ e u) h k =
    let first =
      then_lt (compare_ℕ (code c) (code d)) (compare s t) (sym (compare.cons-cons c d s t) ∙ h) in
    let second =
      then_lt (compare_ℕ (code d) (code e)) (compare t u) (sym (compare.cons-cons d e t u) ∙ k) in
    compare.cons-cons c e s u ∙ elim first [
      | inl below ↦ elim second [
        | inl below' ↦ rw (number_trans (code c) (code d) (code e) below below') refl
        | inr (same, rest) ↦ rw (sym (compare-eq (code d) (code e) same), below) refl
      ]
      | inr (same, rest) ↦ elim second [
        | inl below ↦ rw (compare-eq (code c) (code d) same, below) refl
        | inr (same', rest') ↦
            rw (compare-eq (code c) (code d) same, same') (compare_trans s t u rest rest')
      ]
    ]

-- The one key comes before the other.
abbrev pub Before : String → String → Type 0
Before s t = compare s t ≡ Ordering.lt

before_not : (o p : Ordering) → p ≡ flip o → o ≡ Ordering.lt → is_le p ≡ false
unfolding flip
before_not o p f h = rw (f, h) refl

pub Before-le : (s t : String) → Before s t → is_le (compare s t) ≡ true
Before-le s t h = rw h refl

pub Before-not_le : (s t : String) → Before s t → is_le (compare t s) ≡ false
Before-not_le s t h = before_not (compare s t) (compare t s) (compare-flip s t) h

le_cases : (o : Ordering) → is_le o ≡ true → (o ≡ Ordering.lt) ⊎ (o ≡ Ordering.eq)
le_cases Ordering.lt h = inl refl
le_cases Ordering.eq h = inr refl
le_cases Ordering.gt h = cc

pub Before-trans :
    (s t u : String) → Before s t → is_le (compare t u) ≡ true → is_le (compare s u) ≡ true
Before-trans s t u h k = elim (le_cases (compare t u) k) [
  | inl below ↦ Before-le s u (compare_trans s t u h below)
  | inr same ↦ rw (sym (path_by_compare t u same)) (Before-le s t h)
]

ne_cases : (o p : Ordering) → p ≡ flip o → o ≢ Ordering.eq → (o ≡ Ordering.lt) ⊎ (p ≡ Ordering.lt)
unfolding flip
ne_cases Ordering.lt p f ne = inl refl
ne_cases Ordering.eq p f ne = absurd (ne refl)
ne_cases Ordering.gt p f ne = inr f

-- Different keys have an order.
pub Before-cases : (s t : String) → s ≢ t → Before s t ⊎ Before t s
Before-cases s t ne =
    ne_cases (compare s t) (compare t s) (compare-flip s t) (λ e. ne (path_by_compare s t e))
