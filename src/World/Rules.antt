-- ===== src/World/Rules.antt =====
-- Rules for a property of actions, one for each way to build an action.
use continuum_plugin_bookwar.Prelude.{Bool, true, false, if◌then◌else◌, Bytes, Option, none, some}
use continuum_plugin_bookwar.Result.{Result, ok, err}
use continuum_plugin_bookwar.World.{Act, pure, ◌>>=◌, on_result, on_error}

abbrev pub Property : Type 1
Property = (A : Type 0) → Act A → Type 0

-- The action has the property.
pub record Holds {A : Type 0} (K : Property) (m : Act A) : Type 0 where
  pub at : K A m

-- The property holds of what is put together from actions that have it.
pub record IsMonadic (K : Property) : Type 1 where
  pub pure_rule : {A : Type 0} (a : A) → Holds K (pure a)
  pub bind_rule :
      {A B : Type 0} (m : Act A) (f : A → Act B)
      → Holds K m
      → ((a : A) → Holds K (f a))
      → Holds K (m >>= f)

module _ (K : Property) (monadic : IsMonadic K) where
  pub Holds-pure : {A : Type 0} (a : A) → Holds K (pure a)
  Holds-pure a = monadic.pure_rule a

  pub Holds-bind :
      {A B : Type 0} (m : Act A) (f : A → Act B)
      → Holds K m
      → ((a : A) → Holds K (f a))
      → Holds K (m >>= f)
  Holds-bind m f km kf = monadic.bind_rule m f km kf

module _ (K : Property) where
  pub Holds-if :
      {A : Type 0} (b : Bool) (m n : Act A) → Holds K m → Holds K n → Holds K (if b then m else n)
  Holds-if true m n km kn = km
  Holds-if false m n km kn = kn

  pub Holds-on_result :
      {A B : Type 0} (r : Result A) (f : Bytes → Act B) (g : A → Act B)
      → ((e : Bytes) → Holds K (f e))
      → ((a : A) → Holds K (g a))
      → Holds K (on_result r f g)
  Holds-on_result (ok a) f g kf kg = kg a
  Holds-on_result (err e) f g kf kg = kf e

  pub Holds-on_error :
      {B : Type 0} (o : Option Bytes) (f : Bytes → Act B) (m : Act B)
      → ((e : Bytes) → Holds K (f e))
      → Holds K m
      → Holds K (on_error o f m)
  Holds-on_error none f m kf km = km
  Holds-on_error (some e) f m kf km = kf e
