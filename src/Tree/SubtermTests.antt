-- ===== src/Tree/SubtermTests.antt =====
-- Substitution, selection and nularisation on the small tree.
use dynare.Base.{ℕ, ◌≡◌, ◌↔◌, refl, List, [], ◌∷◌, none, some, Bool, true, ok, arith, ◌==◌, ◌||◌}
use dynare.Tree.{
  lookup, add_substitution, select_terms, select_terms_inv, select_inv_into, select_inv_operands,
  insert, has,
}
use dynare.Tree.Invariant.{Grows-refl}
use dynare.Tree.Growth.{Builds}
use dynare.Tree.Meaning.{Denotes, constant, atom, value1, value2}
use dynare.Tree.Substitution.{Substitutes, Keeps, add_substitution-Builds}
use dynare.Tree.Selection.{Selected, Has, select_terms-Selected}
use dynare.Tree.Tests.{product_tree, product_tree-IsTree, modulo_two, env}

-- The variable is replaced by one.
abbrev by_one : List (ℕ × ℕ)
by_one = (4, 1) ∷ []

by_one-entry : (i r : ℕ) → lookup i by_one ≡ some r → (4 ≡ i) × (1 ≡ r)
unfolding lookup
by_one-entry i r e = ground arith

pub variable_value :
    {i : ℕ} {x : Bool} → 4 ≡ i → Denotes modulo_two env product_tree.terms i x → true ≡ x
variable_value e (constant h f) = absurd (omega arith)
variable_value e (atom h f g) = g
variable_value e (value1 code f d g) = cc (rw (← e) at f)
variable_value e (value2 code f d d' g) = cc (rw (← e) at f)

by_one-Substitutes : Substitutes modulo_two env env product_tree by_one none product_tree
by_one-Substitutes = record {
  reads = Grows-refl product_tree;
  terms = λ i r e. omega (arith, (by_one-entry i r e).1);
  values = λ i r x e d. constant (omega (arith, (by_one-entry i r e).1)) (
      let q = (by_one-entry i r e).1 in
      let v = variable_value (by_one-entry i r e).0 d in rw (← q, ← v) refl);
  kept = λ i h e f. (refl, refl);
}

add_substitution-Builds_example :
    Builds product_tree
      (add_substitution 7 6 by_one none)
      (Keeps modulo_two env env product_tree by_one none 6)
add_substitution-Builds_example =
    add_substitution-Builds modulo_two env env product_tree by_one none product_tree-IsTree 7 6
      product_tree product_tree-IsTree by_one-Substitutes (omega arith) (omega arith)

abbrev is_five : ℕ → Bool
is_five t = t == 5

select_terms_inv_run : select_terms_inv 7 product_tree (λ t. t == 4 || t == 5) 6 ≡ ok (4 ∷ 5 ∷ [])
unfolding select_terms_inv select_inv_into select_inv_operands insert has
select_terms_inv_run = refl

select_terms-Selected_example :
    (s : List ℕ) × (select_terms 7 product_tree is_five 6 ≡ ok s)
    × ((x : ℕ) → Has x s ↔ Selected product_tree.terms is_five 6 x)
select_terms-Selected_example =
    select_terms-Selected product_tree is_five 7 6 product_tree-IsTree (omega arith) (omega arith)
