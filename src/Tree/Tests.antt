-- ===== src/Tree/Tests.antt =====
-- Runs on a small tree, and the theorems at that tree with the field of two elements as numbers.
use dynare.Base.{ℕ, ◌≡◌, refl, [], ◌∷◌, Option, none, some, Bool, true, false, ok, arith, subst}
use dynare.Tree.{
  UnaryCode, BinaryCode, uminus, log, exp, sin, cos, tan, sqrt, erf, erfc, plus, minus, times,
  divide, power, nulary, unary, binary, OperationTree, M, find, add_nulary, add_unary, add_binary,
  ◌>>=◌, find_or_add, push_operation, push, unary_shortcut, binary_shortcut, shortcut_by_code,
  unary_incidence, binary_incidence, order_operands, is_commutative, add_ordered, insert_all,
  insert, has, Operation-discrete,
}
use dynare.Tree.Invariant.{IsTree}
use dynare.Tree.Growth.{Builds, Anything, Builds-bind, Builds-map}
use dynare.Tree.Meaning.{Arithmetic}
use dynare.Tree.Simplify.{Means1, add_unary-Builds}
use dynare.Tree.Shortcuts.{Means2}
use dynare.Tree.Binary.{add_binary-Builds}
use dynare.Tree.Nulary.{constants_tree, constants_tree-IsTree, add_nulary-Builds}
use dynare.Tree.Sharing.{Repeats, add_binary-Repeats}

-- Zero and one with the arithmetic modulo two.
abbrev pub unary_value : UnaryCode → Bool → Option Bool
unary_value uminus x = some x
unary_value log true = some false
unary_value log false = none
unary_value exp x = some true
unary_value sin x = some x
unary_value cos x = some true
unary_value tan x = some x
unary_value sqrt x = some x
unary_value erf x = some x
unary_value erfc x = some true

abbrev pub binary_value : BinaryCode → Bool → Bool → Option Bool
binary_value plus false y = some y
binary_value plus true false = some true
binary_value plus true true = some false
binary_value minus false y = some y
binary_value minus true false = some true
binary_value minus true true = some false
binary_value times false y = some false
binary_value times true y = some y
binary_value divide x true = some x
binary_value divide x false = none
binary_value power x true = some x
binary_value power true false = some true
binary_value power false false = none

pub plus_lem : (x y : Bool) → binary_value plus x y ≡ binary_value plus y x
plus_lem false false = refl
plus_lem false true = refl
plus_lem true false = refl
plus_lem true true = refl

pub times_lem : (x y : Bool) → binary_value times x y ≡ binary_value times y x
times_lem false false = refl
times_lem false true = refl
times_lem true false = refl
times_lem true true = refl

pub minus_lem : (x : Bool) → binary_value minus x false ≡ some x
minus_lem false = refl
minus_lem true = refl

pub divide_lem : (x y : Bool) → binary_value divide x x ≡ some y → y ≡ true
divide_lem false y e = cc
divide_lem true y e = cc

pub zero_divide_lem : (x y : Bool) → binary_value divide false x ≡ some y → y ≡ false
zero_divide_lem false y e = cc
zero_divide_lem true y e = cc

pub divide_cancel_lem :
    (x y p q r : Bool)
    → binary_value times x y ≡ some p
    → binary_value times y y ≡ some q
    → binary_value divide p q ≡ some r
    → binary_value divide x y ≡ some r
divide_cancel_lem x false p q r e f g = cc
divide_cancel_lem true true p q r e f g = cc
divide_cancel_lem false true p q r e f g = cc

pub zero_power_lem : (x y : Bool) → binary_value power false x ≡ some y → y ≡ false
zero_power_lem false y e = cc
zero_power_lem true y e = cc

pub power_zero_lem : (x y : Bool) → binary_value power x false ≡ some y → y ≡ true
power_zero_lem false y e = cc
power_zero_lem true y e = cc

pub one_power_lem : (x y : Bool) → binary_value power true x ≡ some y → y ≡ true
one_power_lem false y e = cc
one_power_lem true y e = cc

pub power_one_lem : (x y : Bool) → binary_value power x true ≡ some y → y ≡ x
power_one_lem x y e = cc

abbrev pub modulo_two : Arithmetic Bool
modulo_two = record {
  zero_value = false;
  one_value = true;
  two_over_pi_value = true;
  apply1 = unary_value;
  apply2 = binary_value;
  uminus_zero = refl;
  sin_zero = refl;
  tan_zero = refl;
  sqrt_zero = refl;
  erf_zero = refl;
  log_zero = refl;
  exp_zero = refl;
  cos_zero = refl;
  erfc_zero = refl;
  zero-plus = λ x. refl;
  plus_comm = plus_lem;
  zero-minus = λ x. refl;
  minus-zero = minus_lem;
  zero-times = λ x. refl;
  one-times = λ x. refl;
  times_comm = times_lem;
  divide_self = divide_lem;
  zero-divide = zero_divide_lem;
  divide-zero = λ x. refl;
  divide_cancel = divide_cancel_lem;
  zero-power-zero = refl;
  zero-power = zero_power_lem;
  power-zero = power_zero_lem;
  one-power = one_power_lem;
  power-one = power_one_lem;
}

-- The term 4 is a variable, 5 its exponential and 6 their product.
abbrev pub product_tree : OperationTree
product_tree = record {
  terms = nulary ∷ nulary ∷ nulary ∷ nulary ∷ nulary ∷ unary exp 4 ∷ binary times 4 5 ∷ [];
  opmap = (binary times 4 5, 6) ∷ (unary exp 4, 5) ∷ [];
  nul_incidence = (0 ∷ []) ∷ (1 ∷ []) ∷ (2 ∷ []) ∷ (3 ∷ []) ∷ (4 ∷ []) ∷ (4 ∷ []) ∷ (4 ∷ []) ∷ [];
  derivatives = [] ∷ [] ∷ [] ∷ [] ∷ [] ∷ [] ∷ [] ∷ [];
  last_nulary = some 4;
}

-- The tree that a computation leaves meets the invariant.
Builds-IsTree :
    {t t' : OperationTree} {m : M ℕ} {P : ℕ → OperationTree → Type 0} {r : ℕ}
    → Builds t m P
    → m t ≡ ok (r, t')
    → IsTree t'
Builds-IsTree b e = subst IsTree (cc b.returns) b.invariant

abbrev pub env : ℕ → Bool
env i = true

abbrev build_product : M ℕ
build_product = do x ← add_nulary; y ← add_unary exp x; add_binary times x y

build_product-Builds : Builds constants_tree build_product Anything
build_product-Builds =
    Builds-bind (add_nulary-Builds constants_tree constants_tree-IsTree) λ x t w g h p.
      Builds-bind (add_unary-Builds modulo_two env t w exp x h) λ y u w' g' h' p'.
        Builds-map (add_binary-Builds modulo_two env u w' x y (omega (arith, g'.size)) h' times)
          (λ r v w'' g'' q. tt)

build_product_run : build_product constants_tree ≡ ok (6, product_tree)
unfolding add_nulary add_unary add_binary find_or_add find push_operation push unary_shortcut
    binary_shortcut shortcut_by_code unary_incidence binary_incidence order_operands is_commutative
    add_ordered insert_all insert has Operation-discrete
build_product_run = refl

pub product_tree-IsTree : IsTree product_tree
product_tree-IsTree = Builds-IsTree build_product-Builds build_product_run

add_unary-Builds_example :
    Builds product_tree (add_unary log 6) (Means1 modulo_two env log 6 product_tree)
add_unary-Builds_example =
    add_unary-Builds modulo_two env product_tree product_tree-IsTree log 6 (omega arith)

add_binary-Builds_example :
    Builds product_tree (add_binary minus 0 6) (Means2 modulo_two env minus 0 6 product_tree)
add_binary-Builds_example =
    add_binary-Builds modulo_two env product_tree product_tree-IsTree 0 6 (omega arith)
      (omega arith) minus

add_binary-Repeats_example : Repeats (add_binary plus 6 5) product_tree
add_binary-Repeats_example =
    add_binary-Repeats product_tree product_tree-IsTree 6 5 (omega arith) (omega arith) plus
