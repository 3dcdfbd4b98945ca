-- ===== src/Tree/EvalTests.antt =====
-- Evaluation of the small tree in the field of two elements.
use dynare.Base.{
  ℕ, zero, suc, ◌≤◌, ◌≡◌, ◌↔◌, ◌⊎◌, Error, refl, sym, ◌∙◌, [], ◌∷◌, Option, none, some, Bool, true,
  false, not, ok, err, arith, get_elem?,
}
use mathlib.Core.Option.{some-injective}
use dynare.Tree.{nulary}
use dynare.Tree.Meaning.{Denotes-constant}
use dynare.Tree.Evaluate.{
  Floats, EvalTree, eval, eval_term, eval_operation, eval_times, eval_short, nulary_count, store,
  is_nulary, set_nulary,
}
use dynare.Tree.Cache.{IsExact, IsValueOf, IsCache, Evaluates}
use dynare.Tree.Evaluation.{eval-Evaluates}
use dynare.Tree.Assign.{IsAssignable, IsAssigned, set_nulary-eval}
use dynare.Tree.Tests.{
  product_tree, product_tree-IsTree, modulo_two, env, unary_value, binary_value,
}
use dynare.Tree.SubtermTests.{variable_value}

abbrev or_false : Option Bool → Bool
or_false none = false
or_false (some x) = x

-- Where an operation is not defined the result is `false`.
abbrev bits : Floats Bool
bits = record {
  zero_float = false;
  one_float = true;
  nan_float = false;
  two_over_sqrt_pi = true;
  apply1 = λ code x. or_false (unary_value code x);
  apply2 = λ code x y. or_false (binary_value code x y);
  is_zero = not;
}

or_false-exact : (o : Option Bool) (y : Bool) → o ≡ some y → or_false o ≡ y
or_false-exact none y e = cc
or_false-exact (some x) y e = some-injective _ _ e

not_iff : (x : Bool) → (not x ≡ true) ↔ (x ≡ false)
not_iff true = (λ e. cc, λ e. cc)
not_iff false = (λ e. refl, λ e. refl)

bits-IsExact : IsExact modulo_two bits
bits-IsExact = record {
  zero_exact = refl;
  one_exact = refl;
  apply1_exact = λ code x y e. or_false-exact (unary_value code x) y e;
  apply2_exact = λ code x y z e. or_false-exact (binary_value code x y) z e;
  is_zero_iff = not_iff;
}

-- The variable has its value; its exponential and the product have none yet.
abbrev assigned : EvalTree Bool
assigned = record {
  values = false ∷ true ∷ false ∷ true ∷ true ∷ false ∷ false ∷ [];
  flags = true ∷ true ∷ true ∷ true ∷ true ∷ false ∷ false ∷ [];
  last_operation = 6;
}

set_nulary_run : set_nulary bits product_tree 4 true assigned ≡ ok assigned
unfolding set_nulary store is_nulary
set_nulary_run = refl

eval_run :
    eval bits product_tree 7 6 assigned
    ≡ ok (
      true,
      record assigned {
        values = false ∷ true ∷ false ∷ true ∷ true ∷ true ∷ true ∷ [];
        flags = true ∷ true ∷ true ∷ true ∷ true ∷ true ∷ true ∷ [];
      },
    )
unfolding eval eval_term eval_operation eval_times eval_short nulary_count store
eval_run = refl

abbrev Value : ℕ → Bool → Type 0
Value = IsValueOf modulo_two bits bits-IsExact env product_tree product_tree-IsTree

assigned_values :
    (t : ℕ) (x : Bool)
    → get_elem? assigned.flags t ≡ some true
    → get_elem? assigned.values t ≡ some x
    → Value t x
assigned_values zero x e g y d =
    some-injective _ _ (sym g)
    ∙ some-injective _ _
        (Denotes-constant modulo_two env product_tree product_tree-IsTree (omega arith) d)
assigned_values (suc zero) x e g y d =
    some-injective _ _ (sym g)
    ∙ some-injective _ _
        (Denotes-constant modulo_two env product_tree product_tree-IsTree (omega arith) d)
assigned_values (suc (suc zero)) x e g y d =
    cc (Denotes-constant modulo_two env product_tree product_tree-IsTree (omega arith) d)
assigned_values (suc (suc (suc zero))) x e g y d =
    some-injective _ _ (sym g)
    ∙ some-injective _ _
        (Denotes-constant modulo_two env product_tree product_tree-IsTree (omega arith) d)
assigned_values (suc (suc (suc (suc zero)))) x e g y d =
    some-injective _ _ (sym g) ∙ variable_value refl d
assigned_values (suc (suc (suc (suc (suc zero))))) x e g y d = cc
assigned_values (suc (suc (suc (suc (suc (suc zero)))))) x e g y d = cc
assigned_values (suc (suc (suc (suc (suc (suc (suc t))))))) x e g y d = cc

flagged :
    (t : ℕ)
    → t ≤ 6
    → get_elem? product_tree.terms t ≡ some nulary
    → get_elem? assigned.flags t ≡ some true
flagged zero l e = refl
flagged (suc zero) l e = refl
flagged (suc (suc zero)) l e = refl
flagged (suc (suc (suc zero))) l e = refl
flagged (suc (suc (suc (suc zero)))) l e = refl
flagged (suc (suc (suc (suc (suc zero))))) l e = cc
flagged (suc (suc (suc (suc (suc (suc zero)))))) l e = cc
flagged (suc (suc (suc (suc (suc (suc (suc t))))))) l e = cc

assigned-IsCache :
    IsCache modulo_two bits bits-IsExact env product_tree product_tree-IsTree assigned
assigned-IsCache = record {
  values_size = refl;
  flags_size = refl;
  last = omega arith;
  assigned = flagged;
  cached = assigned_values;
}

eval-Evaluates_example :
    Evaluates modulo_two bits bits-IsExact env product_tree product_tree-IsTree assigned
      (eval bits product_tree 7 6)
      (IsValueOf modulo_two bits bits-IsExact env product_tree product_tree-IsTree 6)
eval-Evaluates_example =
    eval-Evaluates modulo_two bits bits-IsExact env product_tree product_tree-IsTree 7 6 assigned
      assigned-IsCache (omega arith) (omega arith)

set_nulary-eval_example :
    (IsAssignable product_tree assigned 4
      × (e' : EvalTree Bool) × (set_nulary bits product_tree 4 false assigned ≡ ok e')
      × IsAssigned bits product_tree assigned 4 false e')
    ⊎ ((¬ IsAssignable product_tree assigned 4)
        × (x : Error) × (set_nulary bits product_tree 4 false assigned ≡ err x))
set_nulary-eval_example =
    set_nulary-eval bits product_tree assigned 4 false (omega arith) (refl, refl)
