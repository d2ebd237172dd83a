-- ===== src/Result.antt =====
-- A Go result `(T, error)`. An error is its text, `err.Error()`, and nothing but that text is read
-- of it in the code that returns a `Result`.
use continuum_plugin_bookwar.Prelude.{Bytes, ◌≡◌, ap}

pub data Result {ℓ} (A : Type ℓ) : Type ℓ where
  ok : A → Result A
  err : Bytes → Result A

value_or {ℓ} : {A : Type ℓ} → A → Result A → A
value_or d (ok a) = a
value_or d (err e) = d

pub ok-injective {ℓ} : {A : Type ℓ} {a b : A} → ok a ≡ ok b → a ≡ b
unfolding value_or
ok-injective {a} h = ap (value_or a) h
