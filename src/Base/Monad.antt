-- ===== src/Base/Monad.antt =====
-- Code that may raise an exception, with and without a state that it changes.
use mathlib.Core.Path.{◌≡◌}
use mathlib.Core.Bool.{Bool, true, false}
use mathlib.Core.List.{List}
use mathlib.Core.Option.{none, some}
use Prim.Native.Nat.{ℕ}
use package.dynare.Base.Lists.{get_elem?}

-- What a call raises: the conditions of the TL_RAISE macros and of `throw` in the sources, and reads
-- or writes outside an array.
pub data Error : Type 0 where
  wrong_length wrong_position out_of_range : Error
  before_first empty_class not_found wrong_order internal : Error
  wrong_tree_index unknown_code incomplete_substitution tree_disorder : Error
  wrong_last not_assignable not_assigned overflow no_fuel : Error

pub data Result {ℓ} (A : Type ℓ) : Type ℓ where
  ok : A → Result A
  err : Error → Result A

infixl 5 ◌>>=◌
abbrev pub ◌>>=◌ {ℓ κ} : {A : Type ℓ} {B : Type κ} → Result A → (A → Result B) → Result B
ok a >>= f = f a
err e >>= f = err e

abbrev pub guard : Bool → Error → Result (Unit {0})
guard true e = ok tt
guard false e = err e

-- A read of an array.
abbrev pub at {ℓ} : {A : Type ℓ} → List A → ℕ → Result A
at xs i = elim (get_elem? xs i) [ none ↦ err out_of_range | some x ↦ ok x ]

pub at-of {ℓ} :
    {A : Type ℓ} (xs : List A) (i : ℕ) (x : A) → get_elem? xs i ≡ some x → at xs i ≡ ok x
at-of xs i x e = rw (e, at)
