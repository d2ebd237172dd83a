-- ===== src/Prelude/Lists.antt =====
-- Lists measured by native numbers, under the library's names, and predicates by recursion.
use Prim.Native.Nat.{ℕ, zero, suc, ◌+◌, min}
use mathlib.Core.Path.{◌≡◌, refl}
use mathlib.Core.List.{List, [], ◌∷◌, ◌++◌}
use native.Mathlib.Omega.{arith}

module _ {ℓ} {A : Type ℓ} where
  abbrev pub length : List A → ℕ
  length [] = 0
  length (x ∷ xs) = suc (length xs)

  abbrev pub take : ℕ → List A → List A
  take zero xs = []
  take (suc n) [] = []
  take (suc n) (x ∷ xs) = x ∷ take n xs

  abbrev pub drop : ℕ → List A → List A
  drop zero xs = xs
  drop (suc n) [] = []
  drop (suc n) (x ∷ xs) = drop n xs

  pub take-append-drop : (n : ℕ) (xs : List A) → take n xs ++ drop n xs ≡ xs
  take-append-drop zero xs = refl
  take-append-drop (suc n) [] = refl
  take-append-drop (suc n) (x ∷ xs) = rw (take-append-drop n xs)

  pub length-append : (xs ys : List A) → length (xs ++ ys) ≡ length xs + length ys
  length-append [] ys = omega arith
  length-append (x ∷ xs) ys = omega (arith, length-append xs ys)

  pub length-take : (n : ℕ) (xs : List A) → length (take n xs) ≡ min n (length xs)
  length-take zero xs = omega arith
  length-take (suc n) [] = omega arith
  length-take (suc n) (x ∷ xs) = omega (arith, length-take n xs)

module _ {ℓ κ} {A : Type ℓ} (P : A → Type κ) where
  -- Every element of the list has the property.
  abbrev pub All : List A → Type κ
  All [] = Unit
  All (x ∷ xs) = P x × All xs

  pub All-append : (xs ys : List A) → All xs → All ys → All (xs ++ ys)
  All-append [] ys _ hy = hy
  All-append (x ∷ xs) ys (px, hx) hy = (px, All-append xs ys hx hy)

module _ {ℓ κ} {A : Type ℓ} (R : A → A → Type κ) where
  -- Each element is related to every later one.
  abbrev pub Ordered : List A → Type κ
  Ordered [] = Unit
  Ordered (x ∷ xs) = All (R x) xs × Ordered xs

  -- Each element of the first list is related to every element of the second.
  abbrev pub AllBefore : List A → List A → Type κ
  AllBefore [] ys = Unit
  AllBefore (x ∷ xs) ys = All (R x) ys × AllBefore xs ys

  pub All-append_right {μ} : (P : A → Type μ) (xs ys : List A) → All P (xs ++ ys) → All P ys
  All-append_right P [] ys h = h
  All-append_right P (x ∷ xs) ys h = All-append_right P xs ys h.1

  pub Ordered-append : (xs ys : List A) → Ordered (xs ++ ys) → AllBefore xs ys
  Ordered-append [] ys h = tt
  Ordered-append (x ∷ xs) ys h = (All-append_right (R x) xs ys h.0, Ordered-append xs ys h.1)

module _ {ℓ κ μ} {A : Type ℓ} (R : A → A → Type κ) (S : A → A → Type μ) where
  All-weaken : (x : A) (ys : List A) → ((y : A) → R x y → S x y) → All (R x) ys → All (S x) ys
  All-weaken x [] f h = tt
  All-weaken x (y ∷ ys) f h = (f y h.0, All-weaken x ys f h.1)

  pub AllBefore-weaken :
      (xs ys : List A) → ((x y : A) → R x y → S x y) → AllBefore R xs ys → AllBefore S xs ys
  AllBefore-weaken [] ys f h = tt
  AllBefore-weaken (x ∷ xs) ys f h = (All-weaken x ys (f x) h.0, AllBefore-weaken xs ys f h.1)
