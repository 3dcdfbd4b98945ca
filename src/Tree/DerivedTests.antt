-- ===== src/Tree/DerivedTests.antt =====
-- A tree that is built by calls, and the theorems on derivatives and incidence sets at it.
use dynare.Base.{ℕ, ◌≢◌, get_elem?, ◌≡◌, refl, [], ◌∷◌, Option, some, Bool, true, false, ok, arith}
use dynare.Tree.{
  exp, times, nulary, unary, OperationTree, find, add_nulary, add_unary, add_binary, add_derivative,
  nularify, find_or_add, push_operation, push, unary_shortcut, binary_shortcut, shortcut_by_code,
  unary_incidence, binary_incidence, order_operands, is_commutative, add_ordered, insert_all,
  insert, has, Operation-discrete,
}
use dynare.Tree.Invariant.{IsTree}
use dynare.Tree.Growth.{Builds}
use dynare.Tree.Meaning.{Denotes}
use dynare.Tree.Nulary.{constants_tree, new_tree_run}
use dynare.Tree.Incidence.{IsExact}
use dynare.Tree.Dual.{Dual, leaf, step1, step2}
use dynare.Tree.Calculus.{IsSound}
use dynare.Tree.Derived.{add_derivative-Derives}
use dynare.Tree.NularyExact.{nularify-IsExact}
use dynare.Tree.Reachable.{
  Reachable, constructed, new_atom, new_unary, new_binary, Reachable-IsSound,
}
use dynare.Tree.Tests.{modulo_two, env, product_tree, product_tree-IsTree}

-- The term 4 is a variable, and 5 its exponential.
abbrev exponential_tree : OperationTree
exponential_tree = record {
  terms = nulary ∷ nulary ∷ nulary ∷ nulary ∷ nulary ∷ unary exp 4 ∷ [];
  opmap = (unary exp 4, 5) ∷ [];
  nul_incidence = (0 ∷ []) ∷ (1 ∷ []) ∷ (2 ∷ []) ∷ (3 ∷ []) ∷ (4 ∷ []) ∷ (4 ∷ []) ∷ [];
  derivatives = [] ∷ [] ∷ [] ∷ [] ∷ [] ∷ [] ∷ [];
  last_nulary = some 4;
}

abbrev variable_tree : OperationTree
variable_tree = record {
  terms = nulary ∷ nulary ∷ nulary ∷ nulary ∷ nulary ∷ [];
  opmap = [];
  nul_incidence = (0 ∷ []) ∷ (1 ∷ []) ∷ (2 ∷ []) ∷ (3 ∷ []) ∷ (4 ∷ []) ∷ [];
  derivatives = [] ∷ [] ∷ [] ∷ [] ∷ [] ∷ [];
  last_nulary = some 4;
}

variable_run : add_nulary constants_tree ≡ ok (4, variable_tree)
unfolding add_nulary push
variable_run = refl

exponential_run : add_unary exp 4 variable_tree ≡ ok (5, exponential_tree)
unfolding add_unary find_or_add find push_operation push unary_shortcut unary_incidence
exponential_run = refl

product_run : add_binary times 4 5 exponential_tree ≡ ok (6, product_tree)
unfolding add_binary find_or_add find push_operation push binary_shortcut shortcut_by_code
    binary_incidence order_operands is_commutative add_ordered insert_all insert has
    Operation-discrete
product_run = refl

product_tree-Reachable : Reachable product_tree
product_tree-Reachable =
    new_binary times 4 5
      (new_unary exp 4 (new_atom (constructed new_tree_run) variable_run) (omega arith)
        exponential_run)
      (omega arith) (omega arith) product_run

product_tree-IsSound : IsSound modulo_two env product_tree
product_tree-IsSound = Reachable-IsSound modulo_two env product_tree-Reachable

-- At x = 1, x e^x has the value 1 and the derivative 1 + 1, which is 0 modulo two.
product_derivative : Dual modulo_two env product_tree.terms 4 6 (some true) (some false)
product_derivative =
    step2 times refl (leaf refl refl refl) (step1 exp refl (leaf refl refl refl) refl refl) refl
      refl

Reachable-IsSound_example : IsSound modulo_two env product_tree
Reachable-IsSound_example = Reachable-IsSound modulo_two env product_tree-Reachable

add_derivative-Derives_example : Builds product_tree (add_derivative 7 6 4) (λ r u'.
    IsSound modulo_two env u'
    × ((z : Option Bool) (y : Bool)
        → Dual modulo_two env product_tree.terms 4 6 z (some y)
        → Denotes modulo_two env u'.terms r y))
add_derivative-Derives_example =
    add_derivative-Derives modulo_two env 7 6 4 product_tree product_tree-IsSound (omega arith)
      (omega arith)

nularify-IsExact_example :
    (tree' : OperationTree) × (nularify 5 product_tree ≡ ok tree')
    × IsExact tree'
    × IsTree tree'
    × (get_elem? tree'.terms 5 ≡ some nulary)
    × ((i : ℕ) → 5 ≢ i → get_elem? tree'.terms i ≡ get_elem? product_tree.terms i)
nularify-IsExact_example =
    nularify-IsExact product_tree product_tree-IsTree product_tree-IsSound.exact 5 (omega arith)
      (omega arith)
